-- ===== src/Upstream/HttpClient.antt =====
-- src/upstream/http_client.rs
use load_ants.Prelude.{ℕ, true, List, ◌++◌, Option, none, some, not, if◌then◌else◌}
use load_ants.Prelude.Texts.{Text, codes}
use load_ants.Errors.{
  Result, ok, err, ◌>>=◌, map_err, AppError, invalid_proxy, http_error, http, upstream,
}
use load_ants.Config.Upstream.{AuthConfig, basic, bearer, RetryConfig}
use load_ants.Http.{
  Http, HttpClientConfig, ClientBuilder, RetryPolicy, ClientWithMiddleware, RequestBuilder,
  basic_auth, header, add_part, is_success, from_send_error,
}

-- `ok_or_else` with a message
abbrev required : {A : Type 0} → Text → Option A → Result A AppError
required message none = err (upstream message)
required message (some a) = ok a

module _ (H : Http) where
  open H use {Client, Proxy, proxy_all, build, send, status_text}

  -- The proxy, if there is one.
  abbrev pub parse_proxy : Option Text → Result (Option Proxy) AppError
  parse_proxy none = ok none
  parse_proxy (some url) = do
    p ← map_err (λ e. invalid_proxy (codes "Proxy configuration error: " ++ e)) (proxy_all url)
    ok (some p)

  abbrev pub client_settings : HttpClientConfig → Option Proxy → ClientBuilder Proxy
  client_settings config p = record {
    danger_accept_invalid_certs = true;
    connect_timeout = config.connect_timeout;
    timeout = config.request_timeout;
    tcp_keepalive = config.keepalive;
    pool_idle_timeout = config.idle_timeout;
    user_agent = config.agent;
    proxy = p;
  }

  -- The policy that `HttpClient::create` makes of the retry configuration.
  abbrev pub retry_policy : RetryConfig → RetryPolicy
  retry_policy retry = record {
    min_retry_interval = 1;
    max_retry_interval = 120;
    base = retry.delay;
    max_n_retries = retry.attempts;
  }

  abbrev pub with_retry :
      (RetryConfig → RetryPolicy) → Option RetryConfig → Client → ClientWithMiddleware Client
  with_retry policy none c = record { client = c; retry = none }
  with_retry policy (some retry) c = record { client = c; retry = some (policy retry) }

  unfoldable pub create :
      HttpClientConfig
      → Option Text
      → Option RetryConfig
      → Result (ClientWithMiddleware Client) AppError
  create config proxy retry = do
    p ← parse_proxy proxy
    c ←
        map_err (λ e. http_error (codes "Failed to create HTTP client: " ++ e))
          (build (client_settings config p))
    ok (with_retry retry_policy retry c)

  unfoldable pub add_auth_to_request :
      RequestBuilder Client → Option AuthConfig → Result (RequestBuilder Client) AppError
  add_auth_to_request request none = ok request
  add_auth_to_request request (some auth) = elim auth.type [
    | basic ↦
        required (codes "Missing username for Basic authentication") auth.username >>= λ username.
        required (codes "Missing password for Basic authentication") auth.password >>= λ password.
        ok (add_part request (basic_auth username (some password)))
    | bearer ↦ required (codes "Missing token for Bearer authentication") auth.token >>= λ token.
        ok (add_part request (header (codes "Authorization") (codes "Bearer " ++ token)))
  ]

  unfoldable pub send_request : RequestBuilder Client → Result (List ℕ) AppError
  send_request request = do
    response ← map_err from_send_error (send request)
    if not (is_success response.status)
        then err
            (upstream (codes "Upstream server returned error: " ++ status_text response.status))
        else map_err http response.bytes
