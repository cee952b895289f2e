-- ===== src/Http.antt =====
-- The HTTP client that src/upstream/http_client.rs and src/remote_rule/loader.rs share: what they
-- set on the builders of reqwest, reqwest-middleware and reqwest-retry is kept as data, and what
-- those crates do with it is a parameter.
use load_ants.Prelude.{ℕ, Bool, ◌&&◌, List, [], ◌∷◌, ◌++◌, Option, leb}
use load_ants.Prelude.Texts.{Text}
use load_ants.Errors.{Result, AppError, http, http_middleware}

-- src/config/core.rs
pub record HttpClientConfig : Type 0 where
  pub connect_timeout : ℕ
  pub request_timeout : ℕ
  pub idle_timeout : Option ℕ
  pub keepalive : Option ℕ
  pub agent : Option Text

-- What is set on `reqwest::ClientBuilder`; durations in seconds.
pub record ClientBuilder (Proxy : Type 0) : Type 0 where
  pub danger_accept_invalid_certs : Bool
  pub connect_timeout : ℕ
  pub timeout : ℕ
  pub tcp_keepalive : Option ℕ
  pub pool_idle_timeout : Option ℕ
  pub user_agent : Option Text
  pub proxy : Option Proxy

-- What is set on `ExponentialBackoff::builder`; the jitter is bounded.
pub record RetryPolicy : Type 0 where
  pub min_retry_interval : ℕ
  pub max_retry_interval : ℕ
  pub base : ℕ
  pub max_n_retries : ℕ

-- A client, and the retry middleware that it is given.
pub record ClientWithMiddleware (Client : Type 0) : Type 0 where
  pub client : Client
  pub retry : Option RetryPolicy

pub data RequestPart : Type 0 where
  basic_auth : Text → Option Text → RequestPart
  bearer_auth : Text → RequestPart
  header : Text → Text → RequestPart
  query : Text → Text → RequestPart
  body : List ℕ → RequestPart

pub data HttpMethod : Type 0 where
  get_method post_method : HttpMethod

-- The parts in the order in which they are added.
pub record RequestBuilder (Client : Type 0) : Type 0 where
  pub client : ClientWithMiddleware Client
  pub method : HttpMethod
  pub url : Text
  pub parts : List RequestPart

abbrev pub add_part : {C : Type 0} → RequestBuilder C → RequestPart → RequestBuilder C
add_part r part = record r { parts = r.parts ++ part ∷ [] }

-- The body of a response, as text and as bytes; reading it may fail.
pub record HttpResponse : Type 0 where
  pub status : ℕ
  pub text : Result Text Text
  pub bytes : Result (List ℕ) Text

-- `StatusCode::is_success`
abbrev pub is_success : ℕ → Bool
is_success status = leb 200 status && leb status 299

-- `reqwest_middleware::Error`
pub data SendError : Type 0 where
  reqwest_error middleware_error : Text → SendError

-- `impl From<reqwest_middleware::Error> for AppError` of src/error.rs
abbrev pub from_send_error : SendError → AppError
from_send_error (reqwest_error e) = http e
from_send_error (middleware_error e) = http_middleware e

-- What comes from the crates: `Proxy::all`, `ClientBuilder::build`, `send`, and the text that a
-- status displays.
pub record Http : Type 1 where
  pub Client : Type 0
  pub Proxy : Type 0
  pub proxy_all : Text → Result Proxy Text
  pub build : ClientBuilder Proxy → Result Client Text
  pub send : RequestBuilder Client → Result HttpResponse SendError
  pub status_text : ℕ → Text
