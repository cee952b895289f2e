-- ===== src/Server.antt =====
-- `HandlerAdapter` of src/server.rs: the request handler behind the DNS server of hickory-server, whose
-- requests and responses are parameters. What is logged is left out.
pub mod Ids
pub mod Tests
use load_ants.Prelude.{ℕ, Bool, not, List, [], ◌∷◌, if◌then◌else◌}
use load_ants.Prelude.Texts.{Text, codes}
use load_ants.Errors.{Result, ok, err, ◌>>=◌, map_err, AppError, dns_proto}
use load_ants.Metrics.{
  Metrics, ◌▸◌, inc, timed, dns_requests_total, dns_request_errors_total, dns_response_codes_total,
  dns_request_duration_seconds,
}
use load_ants.Proto.{Proto}
use load_ants.Proto.Wire.{Wire}
use load_ants.Cache.{Moka}
use load_ants.Router.{Patterns}
use load_ants.Handler.{Upstream}
use load_ants.Handler
use load_ants.Handler.Spec.{Handler}

pub data Protocol : Type 0 where
  udp tcp other : Protocol

-- What the source sets of the `Header` of an error.
pub record ErrorHeader (OpCode ResponseCode : Type 0) : Type 0 where
  pub id : ℕ
  pub op_code : OpCode
  pub response_code : ResponseCode

-- A response: `error_msg`, or `build` of the header and the sections of a message.
pub data Sent (D : Proto) : Type 0 where
  error_msg : ErrorHeader (D.OpCode) (D.ResponseCode) → Sent D
  built : D.Message → Sent D

-- `Request`, and `ResponseHandler::send_response`. `ResponseInfo::from` of the header of an error, and
-- of a new header with a code.
pub record Requests (D : Proto) : Type 1 where
  pub Request : Type 0
  pub Info : Type 0
  pub protocol : Request → Protocol
  pub id : Request → ℕ
  pub op_code : Request → D.OpCode
  pub is_query_op : D.OpCode → Bool
  pub is_query : Request → Bool
  pub query_type : Request → D.RecordType
  pub emit : Request → Result (List ℕ) Text
  pub send_response : Sent D → Result Info Text
  pub info_from : ErrorHeader (D.OpCode) (D.ResponseCode) → Info
  pub info_of_code : D.ResponseCode → Info
  pub code_text : D.ResponseCode → Text

abbrev pub protocol_label : Protocol → Text
protocol_label udp = codes "udp"
protocol_label tcp = codes "tcp"
protocol_label other = codes "unknown"

module _ (D : Proto) (W : Wire D) (R : Requests D) where
  open D use {Message}
  open R use {Request}

  unfoldable pub parse_request_message : Request → Result Message AppError
  parse_request_message request = do
    buffer ← map_err dns_proto (R.emit request)
    map_err dns_proto (W.from_vec buffer)

module _ (D : Proto) (W : Wire D) (R : Requests D) (M : Moka D)
    (shuffle : List (D.Record) → List (D.Record)) (P : Patterns) (U : Upstream D) where
  open D use {Message, ResponseCode, serv_fail, response_code, type_text}
  open R use {Request, Info, send_response, info_from, info_of_code, query_type, code_text}

  abbrev pub State : Type 0
  State = Handler D M shuffle P U × Metrics

  -- What is sent, and what is returned for it.
  abbrev pub Reply : Type 0
  Reply = Sent D × (Info × State)

  -- `unwrap_or_else`
  abbrev or_info : Info → Result Info Text → Info
  or_info info (ok sent) = sent
  or_info info (err e) = info

  abbrev pub error_header : Request → ResponseCode → ErrorHeader (D.OpCode) ResponseCode
  error_header request code = record {
    id = R.id request;
    op_code = R.op_code request;
    response_code = code;
  }

  abbrev pub send_error : Request → ResponseCode → State → Reply
  send_error request code s =
      let header = error_header request code in
      let sent = error_msg header in (sent, (or_info (info_from header) (send_response sent), s))

  abbrev pub labels : Request → List Text
  labels request = protocol_label (R.protocol request) ∷ type_text (query_type request) ∷ []

  -- What the result of the request handler is made of.
  abbrev pub finish : Request → Result Message AppError × State → Reply
  finish request (ok result, (h, m)) =
      let sent = built result in
      (
        sent,
        (
          or_info (info_of_code serv_fail) (send_response sent),
          (
            h,
            m
                ▸ inc dns_response_codes_total (code_text (response_code result) ∷ [])
                ▸ timed dns_request_duration_seconds (labels request),
          ),
        ),
      )
  finish request (err e, (h, m)) = send_error request serv_fail (
    h,
    m
        ▸ inc dns_request_errors_total (codes "handler_error" ∷ [])
        ▸ timed dns_request_duration_seconds (labels request),
  )

  abbrev pub with_message :
      Handler D M shuffle P U → Request → Result Message AppError → ℕ → ℕ → Metrics → Reply
  with_message h request (err e) now later m = send_error request serv_fail (
    h,
    m
        ▸ inc dns_request_errors_total (codes "request_error" ∷ [])
        ▸ timed dns_request_duration_seconds (labels request),
  )
  with_message h request (ok message) now later m =
      finish request (Handler.handle_request D M shuffle P U h message now later m)

  -- `not_imp` is the code of `NotImp`.
  unfoldable pub handle_request : Handler D M shuffle P U → Request → ℕ → ℕ → Metrics → Reply
  handle_request h request now later m =
      let m = m ▸ inc dns_requests_total (protocol_label (R.protocol request) ∷ []) in
      if not (R.is_query_op (R.op_code request))
      then send_error request W.not_imp
          (h, m ▸ inc dns_request_errors_total (codes "unsupported_opcode" ∷ []))
      else if not (R.is_query request)
      then send_error request W.not_imp
          (h, m ▸ inc dns_request_errors_total (codes "unsupported_message_type" ∷ []))
      else with_message h request (parse_request_message D W R request) now later m
