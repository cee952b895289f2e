-- ===== src/Upstream/Doh.antt =====
-- src/upstream/doh.rs
use load_ants.Prelude.{ℕ, List, [], ◌∷◌, Option, none, some, not, first, ◌==◌, if◌then◌else◌}
use load_ants.Prelude.Texts.{Text, codes, decimal}
use load_ants.Errors.{Result, ok, err, ◌>>=◌, map_err, AppError, upstream, dns_proto, internal}
use load_ants.Config.Upstream.{DohUpstreamServerConfig, DohMethod, DohContentType}
use load_ants.Http.{
  Http, HttpMethod, ClientWithMiddleware, RequestBuilder, RequestPart, header, body, get_method,
  post_method,
}
use load_ants.Upstream.HttpClient.{add_auth_to_request, send_request}
use load_ants.Upstream.Json.{Json}
use load_ants.Upstream.Json.Convert.{json_to_message}
use load_ants.Proto.{Proto}
use load_ants.Proto.Wire.{Wire}

-- The URLs of the crate url.
pub record Urls : Type 1 where
  pub Url : Type 0
  pub as_text : Url → Text
  pub host_str : Url → Option Text
  pub scheme : Url → Text
  pub path : Url → Text
  -- `query_pairs_mut().append_pair`
  pub append_pair : Text → Text → Url → Url

abbrev dns_message : Text
dns_message = codes "application/dns-message"

abbrev accept : Text → RequestPart
accept type = header (codes "Accept") type

module _ (D : Proto) (W : Wire D) (J : Json) (H : Http) (V : Urls) where
  open D use {Message, Query, id, set_id, queries, name_text, query_type, query_class}
  open W use {emit, from_vec, encode, type_code, class_code}
  open H use {Client}
  open V use {Url, as_text, append_pair}

  abbrev pub Server : Type 0
  Server = DohUpstreamServerConfig Url

  abbrev pub new_request :
      HttpMethod → ClientWithMiddleware Client → Url → List RequestPart → RequestBuilder Client
  new_request method client url parts = record {
    client = client;
    method = method;
    url = as_text url;
    parts = parts;
  }

  -- The bytes that the server answers with, once the authentication is added.
  abbrev pub fetch : RequestBuilder Client → Server → Result (List ℕ) AppError
  fetch request server = add_auth_to_request H request server.auth >>= send_request H

  -- The message of the bytes, under the id of the query.
  abbrev pub decode_response : Message → List ℕ → Result Message AppError
  decode_response query bytes =
      map_err dns_proto (from_vec bytes) >>= λ message. ok (set_id (id query) message)

  -- The request of a POST for the bytes of a query.
  abbrev pub post_request : ClientWithMiddleware Client → Server → List ℕ → RequestBuilder Client
  post_request client server buffer =
      new_request post_method client server.url
        (accept dns_message ∷ header (codes "Content-Type") dns_message ∷ body buffer ∷ [])

  unfoldable pub send_doh_request_post :
      ClientWithMiddleware Client → Message → Server → Result Message AppError
  send_doh_request_post client query server = elim server.content_type [
    | DohContentType.message ↦ do
      buffer ← map_err dns_proto (emit query)
      bytes ← fetch (post_request client server buffer) server
      decode_response query bytes
    | DohContentType.json ↦ err (
        upstream
          (codes "JSON content type is not supported with POST method. Use GET method instead."))
  ]

  -- The URL of a GET for the bytes of a query.
  abbrev pub message_url : Server → List ℕ → Url
  message_url server buffer = append_pair (codes "dns") (encode buffer) server.url

  -- The URL of a GET for the JSON of a question.
  abbrev pub json_url : Server → Query → Url
  json_url server q =
      let url =
        append_pair (codes "type") (decimal (type_code (query_type q)))
          (append_pair (codes "name") (name_text q) server.url) in
      if not (class_code (query_class q) == 1)
      then append_pair (codes "dnssec_data") (codes "true") url
      else url

  -- The GET for the JSON of the first question, if there is one.
  abbrev pub get_json :
      ClientWithMiddleware Client → Message → Server → Option Query → Result Message AppError
  get_json client query server none = err (internal (codes "DNS query is empty"))
  get_json client query server (some q) =
      fetch
        (new_request get_method client (json_url server q)
          (accept (codes "application/dns-json") ∷ []))
        server
      >>= λ bytes. json_to_message D W J bytes query

  unfoldable pub send_doh_request_get :
      ClientWithMiddleware Client → Message → Server → Result Message AppError
  send_doh_request_get client query server = elim server.content_type [
    | DohContentType.message ↦ do
      buffer ← map_err dns_proto (emit query)
      bytes ←
          fetch
            (new_request get_method client (message_url server buffer) (accept dns_message ∷ []))
            server
      decode_response query bytes
    | DohContentType.json ↦ get_json client query server (first (queries query))
  ]

  -- `DoHClient::send_request`
  unfoldable pub send_query :
      ClientWithMiddleware Client → Message → Server → Result Message AppError
  send_query client query server = elim server.method [
    | DohMethod.get ↦ send_doh_request_get client query server
    | DohMethod.post ↦ send_doh_request_post client query server
  ]
