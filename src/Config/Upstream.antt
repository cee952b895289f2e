-- ===== src/Config/Upstream.antt =====
-- src/config/upstream.rs and src/config/common.rs: the upstream groups and their servers, with the
-- checks that the source declares on them. A URL and a socket address are those of their crates.
pub mod Groups
use load_ants.Prelude.{
  ℕ, Bool, true, ◌&&◌, List, [], ◌∷◌, Option, none, some, is_empty, leb, if◌then◌else◌,
}
use load_ants.Prelude.Texts.{Text, codes}
use load_ants.Errors.{Result, ok, err}

pub data AuthType : Type 0 where
  basic bearer : AuthType

pub record AuthConfig : Type 0 where
  pub type : AuthType
  pub username : Option Text
  pub password : Option Text
  pub token : Option Text

pub record RetryConfig : Type 0 where
  pub attempts : ℕ
  pub delay : ℕ

pub data LoadBalancingStrategy : Type 0 where
  round_robin weighted random : LoadBalancingStrategy

pub data UpstreamScheme : Type 0 where
  doh dns : UpstreamScheme

pub data DohMethod : Type 0 where
  get post : DohMethod

pub data DohContentType : Type 0 where
  message json : DohContentType

pub record DohUpstreamServerConfig (Url : Type 0) : Type 0 where
  pub url : Url
  pub weight : ℕ
  pub method : DohMethod
  pub content_type : DohContentType
  pub auth : Option AuthConfig

pub record DnsUpstreamServerConfig (SocketAddr : Type 0) : Type 0 where
  pub addr : SocketAddr
  pub weight : ℕ

pub data UpstreamServerConfig (Url SocketAddr : Type 0) : Type 0 where
  doh_server : DohUpstreamServerConfig Url → UpstreamServerConfig Url SocketAddr
  dns_server : DnsUpstreamServerConfig SocketAddr → UpstreamServerConfig Url SocketAddr

pub record UpstreamGroupConfig (Url SocketAddr : Type 0) : Type 0 where
  pub name : Text
  pub scheme : UpstreamScheme
  pub strategy : LoadBalancingStrategy
  pub servers : List (UpstreamServerConfig Url SocketAddr)
  pub retry : Option RetryConfig
  pub proxy : Option Text

module _ {Url SocketAddr : Type 0} where
  abbrev pub weight : UpstreamServerConfig Url SocketAddr → ℕ
  weight (doh_server s) = s.weight
  weight (dns_server s) = s.weight

  abbrev pub as_doh : UpstreamServerConfig Url SocketAddr → Option (DohUpstreamServerConfig Url)
  as_doh (doh_server s) = some s
  as_doh (dns_server s) = none

  abbrev pub as_dns :
      UpstreamServerConfig Url SocketAddr → Option (DnsUpstreamServerConfig SocketAddr)
  as_dns (doh_server s) = none
  as_dns (dns_server s) = some s

-- `is_none_or(str::is_empty)`
abbrev none_or_empty : Option Text → Bool
none_or_empty none = true
none_or_empty (some s) = is_empty s

-- An error stands as its code.
unfoldable pub validate_basic_auth : AuthConfig → Result (Unit {0}) Text
validate_basic_auth auth = elim auth.type [
  | basic ↦
      if none_or_empty auth.username
      then err (codes "missing_username_for_basic_auth")
      else if none_or_empty auth.password
      then err (codes "missing_password_for_basic_auth")
      else ok tt
  | bearer ↦ ok tt
]

unfoldable pub validate_bearer_auth : AuthConfig → Result (Unit {0}) Text
validate_bearer_auth auth = elim auth.type [
  | basic ↦ ok tt
  | bearer ↦ if none_or_empty auth.token then err (codes "missing_token_for_bearer_auth") else ok tt
]

unfoldable pub validate_weight : ℕ → Result (Unit {0}) Text
validate_weight w = if leb 1 w && leb w 65535 then ok tt else err (codes "invalid_weight")

module _ {Url SocketAddr : Type 0} where
  -- The loops over the servers.
  unfoldable pub all_doh : List (UpstreamServerConfig Url SocketAddr) → Result (Unit {0}) Text
  all_doh [] = ok tt
  all_doh (server ∷ servers) = elim (as_doh server) [
    | none ↦ err (codes "invalid_server_variant_for_scheme")
    | some s ↦ all_doh servers
  ]

  unfoldable pub all_dns : List (UpstreamServerConfig Url SocketAddr) → Result (Unit {0}) Text
  all_dns [] = ok tt
  all_dns (server ∷ servers) = elim (as_dns server) [
    | none ↦ err (codes "invalid_server_variant_for_scheme")
    | some s ↦ all_dns servers
  ]

  unfoldable pub validate_group_scheme : UpstreamGroupConfig Url SocketAddr → Result (Unit {0}) Text
  validate_group_scheme group = elim group.scheme [
    | doh ↦ all_doh group.servers
    | dns ↦ elim group.retry [
      | some r ↦ err (codes "dns_group_retry_not_supported")
      | none ↦ elim group.proxy [
        | some p ↦ err (codes "dns_group_proxy_not_supported")
        | none ↦ all_dns group.servers
      ]
    ]
  ]

  unfoldable pub validate_servers_not_empty :
      List (UpstreamServerConfig Url SocketAddr) → Result (Unit {0}) Text
  validate_servers_not_empty servers =
      if is_empty servers then err (codes "empty_servers") else ok tt
