-- ===== src/Config/Core.antt =====
-- src/config/core.rs, with the limits and defaults of src/const.rs. What the crate `validator` derives
-- for a struct is the list of the messages of the checks that fail, in the order of declaration.
use load_ants.Prelude.{
  ℕ, Bool, true, false, ◌&&◌, not, List, [], ◌∷◌, ◌++◌, Option, none, some, leb, ltb, if◌then◌else◌,
}
use load_ants.Prelude.Texts.{Text, codes}
use load_ants.Errors.{Result, ok, err}
use load_ants.Http.{HttpClientConfig}

-- `#[validate(range(min, max, message))]`
abbrev pub range : ℕ → ℕ → Text → ℕ → List Text
range least most message n = if leb least n && leb n most then [] else message ∷ []

-- `#[validate(custom(function, message))]` and `#[validate(schema(function, message))]`
abbrev pub custom : Text → Result (Unit {0}) Text → List Text
custom message (ok u) = []
custom message (err code) = message ∷ []

-- The same without a message: the code stands for it.
abbrev pub schema : Result (Unit {0}) Text → List Text
schema (ok u) = []
schema (err code) = code ∷ []

-- The messages of the checks of a struct.
abbrev pub checks : List (List Text) → List Text
checks [] = []
checks (messages ∷ rest) = messages ++ checks rest

-- A check of an optional field is skipped when there is none.
abbrev pub optional {ℓ} : {A : Type ℓ} → (A → List Text) → Option A → List Text
optional check none = []
optional check (some a) = check a

-- `SocketAddr::from_str` of the standard library
abbrev pub AddrParser : Type 0
AddrParser = Text → Bool

unfoldable pub validate_socket_addr : AddrParser → Text → Result (Unit {0}) Text
validate_socket_addr parses addr = if parses addr then ok tt else err (codes "invalid_socket_addr")

unfoldable pub validate_idle_timeout : ℕ → Result (Unit {0}) Text
validate_idle_timeout t =
    if not (leb 5 t && leb t 1800) then err (codes "invalid_idle_timeout") else ok tt

unfoldable pub validate_keepalive : ℕ → Result (Unit {0}) Text
validate_keepalive v = if not (leb 5 v && leb v 600) then err (codes "invalid_keepalive") else ok tt

pub record DnsClientConfig : Type 0 where
  pub connect_timeout : ℕ
  pub request_timeout : ℕ
  pub prefer_tcp : Bool
  pub tcp_reconnect : Bool

abbrev pub default_dns_client : DnsClientConfig
default_dns_client = record {
  connect_timeout = 2;
  request_timeout = 3;
  prefer_tcp = false;
  tcp_reconnect = true;
}

abbrev timeout_message : Text
timeout_message = codes "Connection timeout must be between {} and {} seconds"

abbrev request_message : Text
request_message = codes "Request timeout must be between {} and {} seconds"

unfoldable pub validate_dns_client : DnsClientConfig → List Text
validate_dns_client c =
    range 1 120 timeout_message c.connect_timeout ++ range 1 1200 request_message c.request_timeout

abbrev pub default_http_client : HttpClientConfig
default_http_client = record {
  connect_timeout = 3;
  request_timeout = 5;
  idle_timeout = some 10;
  keepalive = some 30;
  agent = none;
}

unfoldable pub validate_http_client : HttpClientConfig → List Text
validate_http_client c =
    range 1 120 timeout_message c.connect_timeout
    ++ range 1 1200 request_message c.request_timeout
    ++ optional
        (λ t.
          custom (codes "Idle timeout must be between minimum and maximum values")
            (validate_idle_timeout t))
        c.idle_timeout
    ++ optional
        (λ v.
          custom (codes "Keepalive must be between minimum and maximum values")
            (validate_keepalive v))
        c.keepalive

-- The second half of `validate_optional_fields`.
abbrev keepalive_in_range : Option ℕ → Result (Unit {0}) Text
keepalive_in_range none = ok tt
keepalive_in_range (some v) =
    if not (leb 5 v && leb v 600) then err (codes "keepalive_out_of_range") else ok tt

-- `HttpClientConfig::validate_optional_fields`
unfoldable pub validate_optional_fields : HttpClientConfig → Result (Unit {0}) Text
validate_optional_fields c = elim c.idle_timeout [
  | none ↦ keepalive_in_range c.keepalive
  | some t ↦
      if not (leb 5 t && leb t 1800)
      then err (codes "idle_timeout_out_of_range")
      else keepalive_in_range c.keepalive
]

pub record ServerConfig : Type 0 where
  pub listen_udp : Text
  pub listen_tcp : Text
  pub listen_http : Option Text
  pub tcp_timeout : ℕ
  pub http_timeout : ℕ

abbrev pub default_server : ServerConfig
default_server = record {
  listen_udp = codes "127.0.0.1:53";
  listen_tcp = codes "127.0.0.1:53";
  listen_http = none;
  tcp_timeout = 10;
  http_timeout = 30;
}

abbrev pub server_checks : AddrParser → ServerConfig → List (List Text)
server_checks parses s =
    custom (codes "Invalid UDP listen address format") (validate_socket_addr parses s.listen_udp)
    ∷ custom (codes "Invalid TCP listen address format") (validate_socket_addr parses s.listen_tcp)
    ∷ optional
        (λ a. custom (codes "Invalid HTTP listen address format") (validate_socket_addr parses a))
        s.listen_http
    ∷ range 1 65535 (codes "TCP timeout must be between 1 and 65535 seconds") s.tcp_timeout
    ∷ range 1 65535 (codes "HTTP timeout must be between 1 and 65535 seconds") s.http_timeout
    ∷ []

unfoldable pub validate_server : AddrParser → ServerConfig → List Text
validate_server parses s = checks (server_checks parses s)

pub record CacheConfig : Type 0 where
  pub enabled : Bool
  pub max_size : ℕ
  pub min_ttl : ℕ
  pub max_ttl : ℕ
  pub negative_ttl : ℕ

abbrev pub default_cache : CacheConfig
default_cache = record {
  enabled = true;
  max_size = 10000;
  min_ttl = 1;
  max_ttl = 86400;
  negative_ttl = 300;
}

unfoldable pub validate_cache_ttl : CacheConfig → Result (Unit {0}) Text
validate_cache_ttl c =
    if c.enabled && ltb c.max_ttl c.min_ttl
    then err (codes "min_ttl_greater_than_max_ttl")
    else ok tt

unfoldable pub validate_cache : CacheConfig → List Text
validate_cache c =
    range 10 1000000 (codes "Cache size must be between 10 and 1000000") c.max_size
    ++ range 1 86400 (codes "Minimum TTL must be between 1 and 86400 seconds") c.min_ttl
    ++ range 1 86400 (codes "Maximum TTL must be between 1 and 86400 seconds") c.max_ttl
    ++ range 1 86400 (codes "Negative cache TTL must be between 1 and 86400 seconds") c.negative_ttl
    ++ custom (codes "Minimum TTL cannot be greater than maximum TTL") (validate_cache_ttl c)

pub record AdminConfig : Type 0 where
  pub listen : Text

abbrev pub default_admin : AdminConfig
default_admin = record { listen = codes "127.0.0.1:9000" }

unfoldable pub validate_admin : AddrParser → AdminConfig → List Text
validate_admin parses a =
    custom (codes "Invalid admin server listen address format")
      (validate_socket_addr parses a.listen)
