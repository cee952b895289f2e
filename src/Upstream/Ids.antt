-- ===== src/Upstream/Ids.antt =====
-- Every answer that the DoH client of src/upstream gives carries the id of the query.
use load_ants.Prelude.{
  ℕ, ◌≡◌, refl, sym, ap, ◌∙◌, Bool, true, false, not, List, [], ◌∷◌, Option, none, some, first,
  if◌then◌else◌,
}
use load_ants.Prelude.Texts.{Text}
use load_ants.Prelude.Maybe.{when_some}
use load_ants.Errors.{Result, ok, err, >>=-eq-ok, ok_injective, map_err, dns_proto}
use load_ants.Config.Upstream.{DohMethod, DohContentType, DohUpstreamServerConfig}
use load_ants.Http.{Http, ClientWithMiddleware}
use load_ants.Upstream.Doh.{
  post_request, get_json, fetch, Urls, send_query, send_doh_request_get, send_doh_request_post,
  decode_response,
}
use load_ants.Upstream.Json.{Json}
use load_ants.Upstream.Json.Convert.{
  ask, parsed, json_to_message, value_to_message, set_header, set_questions, set_sections,
  add_questions, add_records, copy_queries, array_field, parse_question,
}
use load_ants.Upstream.Json.Records.{parse_record}
use load_ants.Proto.{Proto, ProtoLaws}
use load_ants.Proto.Wire.{Wire, WireLaws}

module _ (D : Proto) (W : Wire D) (laws : ProtoLaws D) (more : WireLaws D W) (J : Json) where
  open D use {Message, Record, Query, id}
  open J use {Value}

  -- A step on a message that leaves its id.
  when_some-id :
      {A : Type 0} (o : Option A) (f : A → Message → Message) (m : Message)
      → ((a : A) (n : Message) → id (f a n) ≡ id n)
      → id (when_some o f m) ≡ id m
  when_some-id none f m h = refl
  when_some-id (some a) f m h = h a m

  set_header-id : (v : Value) (query m : Message) → id (set_header D W J v query m) ≡ id m
  unfolding set_header
  set_header-id v query m =
      when_some-id _ _ _ (λ s n. laws.id-set_response_code _ n)
      ∙ when_some-id _ _ _ more.id-set_checking_disabled
      ∙ when_some-id _ _ _ more.id-set_authentic_data
      ∙ laws.id-set_recursion_available _ _
      ∙ laws.id-set_recursion_desired _ _
      ∙ when_some-id _ _ _ more.id-set_truncated

  ask-id : (o : Option Query) (s : Message × Bool) → id (ask D W J o s).0 ≡ id s.0
  ask-id none s = refl
  ask-id (some q) (m, added) = laws.id-add_query q m

  add_questions-id :
      (vs : List Value) (s : Message × Bool) → id (add_questions D W J vs s).0 ≡ id s.0
  unfolding add_questions
  add_questions-id [] s = refl
  add_questions-id (v ∷ vs) s =
      add_questions-id vs (ask D W J (parse_question D W J v) s) ∙ ask-id (parse_question D W J v) s

  copy_queries-id : (qs : List Query) (m : Message) → id (copy_queries D W J qs m) ≡ id m
  unfolding copy_queries
  copy_queries-id [] m = refl
  copy_queries-id (q ∷ qs) m = copy_queries-id qs (D.add_query q m) ∙ laws.id-add_query q m

  questions_from-id :
      (o : Option (List Value)) (m : Message)
      → id (when_some o (add_questions D W J) (m, false)).0 ≡ id m
  questions_from-id none m = refl
  questions_from-id (some vs) m = add_questions-id vs (m, false)

  fallback-id :
      (b : Bool) (query m : Message)
      → id (if not b then copy_queries D W J (D.queries query) m else m) ≡ id m
  fallback-id true query m = refl
  fallback-id false query m = copy_queries-id (D.queries query) m

  set_questions-id : (v : Value) (query m : Message) → id (set_questions D W J v query m) ≡ id m
  unfolding set_questions
  set_questions-id v query m = fallback-id _ query _ ∙ questions_from-id (array_field D W J _ v) m

  add_records-id :
      (add : Record → Message → Message) (each : (r : Record) (n : Message) → id (add r n) ≡ id n)
      (vs : List Value) (m : Message)
      → id (add_records D W J add vs m) ≡ id m
  unfolding add_records
  add_records-id add each [] m = refl
  add_records-id add each (v ∷ vs) m =
      add_records-id add each vs _ ∙ when_some-id (parse_record D W J v) add m each

  set_sections-id : (v : Value) (m : Message) → id (set_sections D W J v m) ≡ id m
  unfolding set_sections
  set_sections-id v m =
      when_some-id _ _ _ (add_records-id _ more.id-add_additional)
      ∙ when_some-id _ _ _ (add_records-id _ more.id-add_name_server)
      ∙ when_some-id _ _ _ (add_records-id _ more.id-add_answer)

  sections_unless-id :
      (b : Bool) (v : Value) (m : Message) → id (if not b then m else set_sections D W J v m) ≡ id m
  sections_unless-id true v m = set_sections-id v m
  sections_unless-id false v m = refl

  value_to_message-id :
      (v : Value) (query : Message) → id (value_to_message D W J v query) ≡ id query
  unfolding value_to_message
  value_to_message-id v query =
      sections_unless-id _ v _
      ∙ set_questions-id v query _
      ∙ set_header-id v query _
      ∙ laws.id-set_op_code _ _
      ∙ laws.id-set_response _
      ∙ laws.id-set_id _ _

  parsed-id :
      (query m : Message) (r : Result Value Text) → parsed D W J query r ≡ ok m → id m ≡ id query
  parsed-id query m (err x) e = cc
  parsed-id query m (ok v) e = ap id (sym (ok_injective e)) ∙ value_to_message-id v query

  json_to_message-id :
      (bytes : List ℕ) (query m : Message)
      → json_to_message D W J bytes query ≡ ok m
      → id m ≡ id query
  unfolding json_to_message
  json_to_message-id bytes query m e = parsed-id query m (J.from_slice bytes) e

  decode_response-id :
      (query m : Message) (bytes : List ℕ) (H : Http) (V : Urls)
      → decode_response D W J H V query bytes ≡ ok m
      → id m ≡ id query
  decode_response-id query m bytes H V e =
      let (n, p, q) = >>=-eq-ok (map_err dns_proto (W.from_vec bytes)) _ e in
      ap id (sym (ok_injective q)) ∙ laws.id-set_id _ n

  module _ (H : Http) (V : Urls) where
    open H use {Client}
    open V use {Url}

    post-id :
        (c : ClientWithMiddleware Client) (query m : Message) (server : DohUpstreamServerConfig Url)
        (t : DohContentType)
        → send_doh_request_post D W J H V c query (record server { content_type = t }) ≡ ok m
        → id m ≡ id query
    unfolding send_doh_request_post
    post-id c query m server DohContentType.message e =
        let (buffer, p, q) = >>=-eq-ok (map_err dns_proto (W.emit query)) _ e in
        let (bytes, r, s) =
          >>=-eq-ok (fetch D W J H V (post_request D W J H V c server buffer) server) _ q in
        decode_response-id query m bytes H V s
    post-id c query m server DohContentType.json e = cc

    json_question-id :
        (c : ClientWithMiddleware Client) (query m : Message) (server : DohUpstreamServerConfig Url)
        (o : Option Query)
        → get_json D W J H V c query server o ≡ ok m
        → id m ≡ id query
    json_question-id c query m server none e = cc
    json_question-id c query m server (some q) e =
        let (bytes, r, s) = >>=-eq-ok _ (λ b. json_to_message D W J b query) e in
        json_to_message-id bytes query m s

    get-id :
        (c : ClientWithMiddleware Client) (query m : Message) (server : DohUpstreamServerConfig Url)
        (t : DohContentType)
        → send_doh_request_get D W J H V c query (record server { content_type = t }) ≡ ok m
        → id m ≡ id query
    unfolding send_doh_request_get
    get-id c query m server DohContentType.message e =
        let (buffer, p, q) = >>=-eq-ok (map_err dns_proto (W.emit query)) _ e in
        let (bytes, r, s) = >>=-eq-ok _ (λ b. decode_response D W J H V query b) q in
        decode_response-id query m bytes H V s
    get-id c query m server DohContentType.json e =
        json_question-id c query m server (first (D.queries query)) e

    method-id :
        (c : ClientWithMiddleware Client) (query m : Message) (server : DohUpstreamServerConfig Url)
        (method : DohMethod)
        → send_query D W J H V c query (record server { method = method }) ≡ ok m
        → id m ≡ id query
    unfolding send_query send_doh_request_get send_doh_request_post
    method-id c query m server DohMethod.get e = get-id c query m server server.content_type e
    method-id c query m server DohMethod.post e = post-id c query m server server.content_type e

    -- Every message that a DoH server is answered for carries the id of the query, by each method and
    -- in each form.
    pub send_query-id :
        (c : ClientWithMiddleware Client) (query m : Message) (server : DohUpstreamServerConfig Url)
        → send_query D W J H V c query server ≡ ok m
        → id m ≡ id query
    send_query-id c query m server e = method-id c query m server server.method e
