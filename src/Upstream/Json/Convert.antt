-- ===== src/Upstream/Json/Convert.antt =====
-- `JsonConverter` of src/upstream/json.rs. What it logs is left out.
use load_ants.Prelude.{
  ℕ, ◌%◌, Bool, true, false, not, List, [], ◌∷◌, ◌++◌, Option, none, some, first, if◌then◌else◌,
  ◌==◌,
}
use load_ants.Prelude.Texts.{Text, codes}
use load_ants.Prelude.Maybe.{◌>>=◌, unwrap_or, when_some}
use load_ants.Errors.{Result, ok, err, AppError, upstream, internal}
use load_ants.Proto.{Proto}
use load_ants.Proto.Wire.{Wire}
use load_ants.Upstream.Json.{Json}
use load_ants.Upstream.Json.Records.{str_field, u64_field, parse_record}

module _ (D : Proto) (W : Wire D) (J : Json) where
  open D use {
    Message, Record, Query, ResponseCode, id, set_id, new_message, set_response, op_code,
    set_op_code, recursion_desired, set_recursion_desired, set_recursion_available,
    set_response_code, response_code, code_eq, queries, add_query, no_error, nx_domain, serv_fail,
    name_text, query_type, query_class,
  }
  open W use {
    parse_name, type_from, type_code, class_code, form_err, not_imp, refused, set_truncated,
    set_authentic_data, set_checking_disabled, add_answer, add_name_server, add_additional,
  }
  open J use {Value, get, as_bool, as_array, as_u64, boolean, number, string, object}

  -- The value of the loop variable that sets `do`.
  abbrev dnssec_ok : Query → List (Text × Value)
  dnssec_ok q =
      if not (class_code (query_class q) == 1) then (codes "do", boolean true) ∷ [] else []

  -- `JsonConverter::message_to_json`
  unfoldable pub message_to_json : Message → Result Value AppError
  message_to_json query = elim (first (queries query)) [
    | none ↦ err (internal (codes "DNS query is empty"))
    | some q ↦ ok (
        object (
          (codes "name", string (name_text q))
          ∷ (codes "type", number (type_code (query_type q)))
          ∷ (dnssec_ok q
              ++ (codes "cd", boolean false)
                ∷ (codes "ct", string (codes "application/dns-json"))
                ∷ [])))
  ]

  abbrev pub flag : Text → Value → Option Bool
  flag name v = get v name >>= as_bool

  unfoldable pub rcode : ℕ → ResponseCode
  rcode status =
      if status == 0
      then no_error
      else if status == 1
      then form_err
      else if status == 2
      then serv_fail
      else if status == 3
      then nx_domain
      else if status == 4
      then not_imp
      else if status == 5
      then refused
      else serv_fail

  -- The header, from the flags and the status.
  unfoldable pub set_header : Value → Message → Message → Message
  set_header v query response =
      let response = when_some (flag (codes "TC") v) set_truncated response in
      let response =
        set_recursion_desired (unwrap_or (recursion_desired query) (flag (codes "RD") v))
          response in
      let response = set_recursion_available (unwrap_or true (flag (codes "RA") v)) response in
      let response = when_some (flag (codes "AD") v) set_authentic_data response in
      let response = when_some (flag (codes "CD") v) set_checking_disabled response in
      when_some (u64_field D W J (codes "Status") v) (λ s. set_response_code (rcode s)) response

  -- The question that an element of `Question` stands for.
  unfoldable pub parse_question : Value → Option Query
  parse_question v = do
    name ← str_field D W J (codes "name") v
    type ← u64_field D W J (codes "type") v
    domain ← parse_name name
    some (W.query domain (type_from (type % 65536)))

  -- The flag says that a question was added.
  abbrev pub ask : Option Query → Message × Bool → Message × Bool
  ask none s = s
  ask (some q) (response, added) = (add_query q response, true)

  -- The loop over the questions.
  unfoldable pub add_questions : List Value → Message × Bool → Message × Bool
  add_questions [] s = s
  add_questions (v ∷ vs) s = add_questions vs (ask (parse_question v) s)

  unfoldable pub copy_queries : List Query → Message → Message
  copy_queries [] response = response
  copy_queries (q ∷ qs) response = copy_queries qs (add_query q response)

  abbrev pub array_field : Text → Value → Option (List Value)
  array_field name v = get v name >>= as_array

  unfoldable pub set_questions : Value → Message → Message → Message
  set_questions v query response =
      let (response, added) =
        when_some (array_field (codes "Question") v) add_questions (response, false) in
      if not added then copy_queries (queries query) response else response

  unfoldable pub add_records : (Record → Message → Message) → List Value → Message → Message
  add_records add [] response = response
  add_records add (v ∷ vs) response =
      add_records add vs (when_some (parse_record D W J v) add response)

  unfoldable pub set_sections : Value → Message → Message
  set_sections v response =
      let response = when_some (array_field (codes "Answer") v) (add_records add_answer) response in
      let response =
        when_some (array_field (codes "Authority") v) (add_records add_name_server) response in
      when_some (array_field (codes "Additional") v) (add_records add_additional) response

  unfoldable pub value_to_message : Value → Message → Message
  value_to_message v query =
      let response = set_op_code (op_code query) (set_response (set_id (id query) new_message)) in
      let response = set_questions v query (set_header v query response) in
      if not (code_eq (response_code response) no_error) then response else set_sections v response

  abbrev pub parsed : Message → Result Value Text → Result Message AppError
  parsed query (err e) = err (upstream (codes "Failed to parse JSON response: " ++ e))
  parsed query (ok v) = ok (value_to_message v query)

  -- `JsonConverter::json_to_message`
  unfoldable pub json_to_message : List ℕ → Message → Result Message AppError
  json_to_message json_response query = parsed query (J.from_slice json_response)
