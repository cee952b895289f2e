-- ===== src/Doh/Handlers.antt =====
-- src/doh/handlers.rs. The router of axum has parsed the parameters; what is logged is left out.
use load_ants.Prelude.{
  ℕ, Bool, true, false, not, ◌||◌, List, [], ◌∷◌, Option, none, some, first, is_empty, ltb,
  if◌then◌else◌,
}
use load_ants.Prelude.Texts.{Text, codes, decimal, text_eq, utf8_len, dot}
use load_ants.Prelude.Words.{has_pair, starts_with, parse_u16}
use load_ants.Prelude.Maybe.{unwrap_or, fmap}
use load_ants.Errors.{AppError, Result, ok, err}
use load_ants.Metrics.{
  Metrics, ◌▸◌, inc, timed, http_requests_total, http_request_errors_total,
  http_request_duration_seconds,
}
use load_ants.Proto.{Proto}
use load_ants.Proto.Wire.{
  Wire, a, aaaa, aname, cname, mx, ns, ptr, soa, srv, txt, https, svcb, other,
}
use load_ants.Cache.{Moka}
use load_ants.Router.{Patterns}
use load_ants.Handler.{Upstream, handle_request}
use load_ants.Handler.Spec.{Handler}
use load_ants.Upstream.Json.{Json}
use load_ants.Doh.Serialize.{serialize_message}

-- The body of a response: none, bytes, or a value of JSON.
pub data Body (Value : Type 0) : Type 0 where
  no_body : Body Value
  bytes : List ℕ → Body Value
  json : Value → Body Value

pub record Response (Value : Type 0) : Type 0 where
  pub status : ℕ
  pub content_type : Option Text
  pub body : Body Value

-- `DohHandlerError`: the status, the kind of the error and the type of the query
pub record DohHandlerError : Type 0 where
  pub status : ℕ
  pub error_type : Text
  pub query_type : Text

pub record DohJsonGetParams : Type 0 where
  pub name : Text
  pub type : Option Text
  pub cd : Option Text
  pub do_flag : Option Text
  pub ct : Option Text

abbrev pub dns_message : Text
dns_message = codes "application/dns-message"

-- `record_doh_metrics`: with the kind of the error if there was one.
unfoldable pub record_doh_metrics : Text → ℕ → Option Text → Metrics → Metrics
record_doh_metrics query_type status none m =
    m
    ▸ inc http_requests_total (decimal status ∷ [])
    ▸ timed http_request_duration_seconds (query_type ∷ decimal status ∷ [])
record_doh_metrics query_type status (some error_type) m =
    m
    ▸ inc http_requests_total (decimal status ∷ [])
    ▸ inc http_request_errors_total (error_type ∷ [])

abbrev pub bad_request : Text → DohHandlerError
bad_request query_type = record {
  status = 400;
  error_type = codes "bad_request";
  query_type = query_type;
}

abbrev pub unknown : Text
unknown = codes "unknown"

-- A flag of the query string; a value that is none of the known ones is false.
abbrev pub is_set : Option Text → Bool
is_set none = false
is_set (some v) = text_eq v (codes "1") || text_eq v (codes "true")

module _ (D : Proto) (W : Wire D) (J : Json) (M : Moka D)
    (shuffle : List (D.Record) → List (D.Record)) (P : Patterns) (U : Upstream D) where
  open D use {
    Message, RecordType, Query, queries, query_type, type_text, new_message, set_recursion_desired,
    add_query,
  }
  open W use {
    kind, decode, from_vec, emit, type_from, type_from_str, from_ascii, set_query,
    set_checking_disabled,
  }
  open J use {Value}

  unfoldable pub record_type_to_cow_str : RecordType → Text
  record_type_to_cow_str t = elim (kind t) [
    | a ↦ codes "A"
    | aaaa ↦ codes "AAAA"
    | aname ↦ codes "ANAME"
    | cname ↦ codes "CNAME"
    | mx ↦ codes "MX"
    | ns ↦ codes "NS"
    | ptr ↦ codes "PTR"
    | soa ↦ codes "SOA"
    | srv ↦ codes "SRV"
    | txt ↦ codes "TXT"
    | https ↦ codes "HTTPS"
    | svcb ↦ codes "SVCB"
    | other ↦ type_text t
  ]

  abbrev pub State : Type 0
  State = Handler D M shuffle P U × Metrics

  abbrev pub Outcome : Type 0
  Outcome = Result (Response Value) DohHandlerError × State

  abbrev pub upstream_error : Text → DohHandlerError
  upstream_error query_type = record {
    status = 500;
    error_type = codes "upstream_error";
    query_type = query_type;
  }

  abbrev pub encode_error : Text → DohHandlerError
  encode_error query_type = record {
    status = 500;
    error_type = codes "message_encode_error";
    query_type = query_type;
  }

  abbrev pub processed :
      Text → Result Message AppError × State → Result Message DohHandlerError × State
  processed type (ok response, s) = (ok response, s)
  processed type (err e, s) = (err (upstream_error type), s)

  -- `process_dns_message`, with the type of the query that the callers add to its error
  unfoldable pub process_dns_message :
      Handler D M shuffle P U
      → Message
      → Text
      → ℕ
      → ℕ
      → Metrics
      → Result Message DohHandlerError × State
  process_dns_message h message type now later m =
      processed type (handle_request D M shuffle P U h message now later m)

  abbrev pub type_label : Option Query → Text
  type_label none = unknown
  type_label (some q) = record_type_to_cow_str (query_type q)

  abbrev pub ok_bytes : List ℕ → Response Value
  ok_bytes b = record { status = 200; content_type = some dns_message; body = bytes b }

  abbrev pub succeed : Text → Response Value → State → Outcome
  succeed type response (h, m) = (ok response, (h, record_doh_metrics type 200 none m))

  abbrev pub encoded : Text → Result (List ℕ) Text → State → Outcome
  encoded type (err e) s = (err (encode_error type), s)
  encoded type (ok b) s = succeed type (ok_bytes b) s

  -- The response to a message that was processed, as bytes.
  abbrev pub binary : Text → Result Message DohHandlerError × State → Outcome
  binary type (err e, s) = (err e, s)
  binary type (ok response, s) = encoded type (emit response) s

  -- The rest of `handle_doh_get` and `handle_doh_post`, once there are bytes.
  abbrev pub handle_parsed :
      Handler D M shuffle P U → Result Message Text → ℕ → ℕ → Metrics → Outcome
  handle_parsed h (err e) now later m = (err (bad_request unknown), (h, m))
  handle_parsed h (ok message) now later m =
      let type = type_label (first (queries message)) in
      binary type (process_dns_message h message type now later m)

  -- The response of a handler; a failure is recorded here.
  abbrev pub into_response : Outcome → Response Value × State
  into_response (ok response, s) = (response, s)
  into_response (err e, (h, m)) = (
    record { status = e.status; content_type = none; body = no_body },
    (h, record_doh_metrics e.query_type e.status (some e.error_type) m),
  )

  abbrev pub get_outcome : Handler D M shuffle P U → Option (List ℕ) → ℕ → ℕ → Metrics → Outcome
  get_outcome h none now later m = (err (bad_request unknown), (h, m))
  get_outcome h (some b) now later m = handle_parsed h (from_vec b) now later m

  -- `handle_doh_get` of the parameter `dns`
  unfoldable pub handle_doh_get :
      Handler D M shuffle P U → Text → ℕ → ℕ → Metrics → Response Value × State
  handle_doh_get h dns now later m = into_response (get_outcome h (decode dns) now later m)

  abbrev pub unsupported : DohHandlerError
  unsupported = record {
    status = 415;
    error_type = codes "unsupported_media_type";
    query_type = unknown;
  }

  abbrev pub post_outcome :
      Handler D M shuffle P U → Option Text → List ℕ → ℕ → ℕ → Metrics → Outcome
  post_outcome h none b now later m = (err (bad_request unknown), (h, m))
  post_outcome h (some content_type) b now later m =
      if not (text_eq content_type dns_message)
      then (err unsupported, (h, m))
      else handle_parsed h (from_vec b) now later m

  -- `handle_doh_post` of the header `Content-Type` and the body
  unfoldable pub handle_doh_post :
      Handler D M shuffle P U → Option Text → List ℕ → ℕ → ℕ → Metrics → Response Value × State
  handle_doh_post h content_type b now later m =
      into_response (post_outcome h content_type b now later m)

  unfoldable pub is_bad_name : Text → Bool
  is_bad_name name =
      is_empty name || (ltb 253 (utf8_len name) || (has_pair dot name || starts_with name dot))

  abbrev pub parse_type : Text → Option RecordType
  parse_type text = elim (type_from_str text) [
    | some t ↦ some t
    | none ↦ fmap type_from (parse_u16 text)
  ]

  abbrev pub query_message : W.Name → RecordType → Bool → Message
  query_message name type cd =
      add_query (W.query name type)
        (set_checking_disabled cd (set_recursion_desired true (set_query new_message)))

  abbrev pub json_reply : Message → Response Value
  json_reply response = record {
    status = 200;
    content_type = some (codes "application/dns-json");
    body = json (serialize_message D W J response);
  }

  -- The response in the form that `ct` asks for.
  abbrev pub formatted : Option Text → Text → Result Message DohHandlerError × State → Outcome
  formatted ct type (err e, s) = (err e, s)
  formatted ct type (ok response, s) =
      if text_eq (unwrap_or [] ct) dns_message
      then encoded type (emit response) s
      else succeed type (json_reply response) s

  abbrev pub json_named :
      Handler D M shuffle P U
      → DohJsonGetParams
      → RecordType
      → Option W.Name
      → ℕ
      → ℕ
      → Metrics
      → Outcome
  json_named h params type none now later m =
      (err (bad_request (record_type_to_cow_str type)), (h, m))
  json_named h params type (some name) now later m =
      let label = record_type_to_cow_str type in
      formatted params.ct label
        (process_dns_message h (query_message name type (is_set params.cd)) label now later m)

  abbrev pub json_typed :
      Handler D M shuffle P U → DohJsonGetParams → Option RecordType → ℕ → ℕ → Metrics → Outcome
  json_typed h params none now later m = (err (bad_request unknown), (h, m))
  json_typed h params (some type) now later m =
      json_named h params type (from_ascii params.name) now later m

  abbrev pub json_outcome : Handler D M shuffle P U → DohJsonGetParams → ℕ → ℕ → Metrics → Outcome
  json_outcome h params now later m =
      if is_bad_name params.name
      then (err (bad_request unknown), (h, m))
      else json_typed h params (parse_type (unwrap_or (codes "1") params.type)) now later m

  unfoldable pub handle_json_get :
      Handler D M shuffle P U → DohJsonGetParams → ℕ → ℕ → Metrics → Response Value × State
  handle_json_get h params now later m = into_response (json_outcome h params now later m)
