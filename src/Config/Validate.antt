-- ===== src/Config/Validate.antt =====
-- src/config/mod.rs with the derived checks of src/config/upstream.rs, src/config/common.rs and
-- src/config/rule.rs. The messages stand in the order of declaration; which schema checks the crate
-- `validator` skips after a failed field is not kept, so a list is empty exactly if the check passes.
use load_ants.Prelude.{
  ℕ, Bool, true, false, not, ◌&&◌, ◌||◌, List, [], ◌∷◌, ◌++◌, Option, none, some, is_empty, any,
  map, length, leb, ltb, ◌==◌, if◌then◌else◌,
}
use load_ants.Prelude.Texts.{Text, codes, text_eq}
use load_ants.Errors.{Result, ok, err, ConfigError}
use load_ants.Http.{HttpClientConfig}
use load_ants.Config.Core.{
  checks, ServerConfig, AdminConfig, CacheConfig, DnsClientConfig, AddrParser, range, custom,
  schema, optional, validate_server, validate_admin, validate_cache, validate_http_client,
  validate_dns_client,
}
use load_ants.Config.Upstream.{
  UpstreamGroupConfig, UpstreamServerConfig, doh_server, dns_server, AuthConfig, RetryConfig,
  validate_basic_auth, validate_bearer_auth, validate_weight, validate_group_scheme,
  validate_servers_not_empty,
}
use load_ants.Config.Rule.{RouteRuleConfig, RouteAction, forward, block}
use load_ants.Config.Patterns.{validate_patterns_not_empty, validate_route_rule_patterns}
use load_ants.Remote.Loader.{RemoteRuleConfig}
use load_ants.Router.{Patterns}
use load_ants.Upstream.Doh.{Urls}

abbrev pub is_forward : RouteAction → Bool
is_forward forward = true
is_forward block = false

-- `validate_static_forward_target` and `validate_forward_target`
unfoldable pub validate_forward_target : RouteAction → Option Text → Result (Unit {0}) Text
validate_forward_target block target = ok tt
validate_forward_target forward none = err (codes "missing_target_for_forward")
validate_forward_target forward (some t) = ok tt

unfoldable pub validate_rule_max_size : ℕ → Result (Unit {0}) Text
validate_rule_max_size n =
    if not (leb 1024 n && leb n 52428800) then err (codes "invalid_rule_max_size") else ok tt

unfoldable pub validate_retry_config : RetryConfig → Result (Unit {0}) Text
validate_retry_config r =
    if ltb r.attempts 1 || ltb 100 r.attempts
    then err (codes "invalid_retry_attempts")
    else if ltb r.delay 1 || ltb 120 r.delay
    then err (codes "invalid_retry_delay")
    else ok tt

-- The derived check of `RetryConfig`.
unfoldable pub validate_retry : RetryConfig → List Text
validate_retry r =
    range 1 100 (codes "Retry attempts must be between {} and {}") r.attempts
    ++ range 1 120 (codes "Retry delay must be between {} and {} seconds") r.delay

unfoldable pub validate_auth : AuthConfig → List Text
validate_auth auth =
    custom (codes "Basic authentication requires username and password") (validate_basic_auth auth)
    ++ custom (codes "Bearer authentication requires token") (validate_bearer_auth auth)

-- `#[validate(nested)]` of a list
abbrev pub each {ℓ} : {A : Type ℓ} → (A → List Text) → List A → List Text
each check [] = []
each check (x ∷ xs) = check x ++ each check xs

abbrev pub rule_checks : Patterns → RouteRuleConfig → List (List Text)
rule_checks P rule =
    custom (codes "Patterns list cannot be empty") (validate_patterns_not_empty rule.patterns)
    ∷ custom (codes "Forward action requires target field")
        (validate_forward_target rule.action rule.target)
    ∷ custom (codes "Invalid route rule patterns") (validate_route_rule_patterns P rule)
    ∷ []

unfoldable pub validate_route_rule : Patterns → RouteRuleConfig → List Text
validate_route_rule P rule = checks (rule_checks P rule)

-- `Url::parse`
abbrev pub UrlParser : Type 0
UrlParser = Text → Bool

unfoldable pub validate_url : UrlParser → Text → Result (Unit {0}) Text
validate_url parses url = if parses url then ok tt else err (codes "invalid_url")

unfoldable pub validate_remote_rule : UrlParser → RemoteRuleConfig → List Text
validate_remote_rule parses rule =
    custom (codes "Invalid URL format") (validate_url parses rule.url)
    ++ optional validate_auth rule.auth
    ++ optional validate_retry rule.retry
    ++ custom (codes "Invalid rule file size limit") (validate_rule_max_size rule.max_size)
    ++ custom (codes "Forward action requires target field")
        (validate_forward_target rule.action rule.target)

-- `HashSet::contains`, on the names that are in the set
abbrev pub contains_name : Text → List Text → Bool
contains_name name names = any (λ n. text_eq n name) names

-- The target of a rule, if it forwards and has one.
abbrev pub target_of : RouteAction → Option Text → List Text
target_of forward (some target) = target ∷ []
target_of forward none = []
target_of block target = []

unfoldable pub static_targets : List RouteRuleConfig → List Text
static_targets [] = []
static_targets (rule ∷ rules) = target_of rule.action rule.target ++ static_targets rules

unfoldable pub remote_targets : List RemoteRuleConfig → List Text
remote_targets [] = []
remote_targets (rule ∷ rules) = target_of rule.action rule.target ++ remote_targets rules

abbrev pub or_none {ℓ} : {A : Type ℓ} → Option (List A) → List A
or_none none = []
or_none (some l) = l

-- The loop over the targets.
unfoldable pub targets_exist : List Text → List Text → Result (Unit {0}) Text
targets_exist names [] = ok tt
targets_exist names (t ∷ ts) =
    let rest = targets_exist names ts in
    if not (contains_name t names) then err (codes "non_existent_group_reference") else rest

module _ (V : Urls) (SocketAddr : Type 0) where
  open V use {Url, scheme, host_str, path}

  unfoldable pub validate_url_scheme : Url → Result (Unit {0}) Text
  validate_url_scheme url =
      if not (text_eq (scheme url) (codes "http")) && not (text_eq (scheme url) (codes "https"))
      then err (codes "invalid_url_scheme")
      else ok tt

  abbrev is_none_or_empty : Option Text → Bool
  is_none_or_empty none = true
  is_none_or_empty (some host) = is_empty host

  unfoldable pub validate_url_host : Url → Result (Unit {0}) Text
  validate_url_host url =
      if is_none_or_empty (host_str url) then err (codes "missing_url_hostname") else ok tt

  unfoldable pub validate_url_path : Url → Result (Unit {0}) Text
  validate_url_path url =
      if is_empty (path url) || text_eq (path url) (codes "/")
      then err (codes "invalid_url_path")
      else ok tt

  abbrev weight_message : Text
  weight_message = codes "Weight must be between 1-65535"

  unfoldable pub validate_upstream_server : UpstreamServerConfig Url SocketAddr → List Text
  validate_upstream_server (doh_server s) =
      custom (codes "URL must use http or https scheme") (validate_url_scheme s.url)
      ++ custom (codes "URL must contain a valid hostname") (validate_url_host s.url)
      ++ custom (codes "URL must contain a valid path") (validate_url_path s.url)
      ++ custom weight_message (validate_weight s.weight)
      ++ optional validate_auth s.auth
  validate_upstream_server (dns_server s) = custom weight_message (validate_weight s.weight)

  abbrev pub Group : Type 0
  Group = UpstreamGroupConfig Url SocketAddr

  abbrev pub group_checks : Group → List (List Text)
  group_checks g =
      (if is_empty g.name then codes "Group name cannot be empty" ∷ [] else [])
      ∷ custom (codes "Server list cannot be empty") (validate_servers_not_empty g.servers)
      ∷ each validate_upstream_server g.servers
      ∷ optional validate_retry g.retry
      ∷ custom (codes "Upstream group scheme validation failed") (validate_group_scheme g)
      ∷ []

  unfoldable pub validate_group : Group → List Text
  validate_group g = checks (group_checks g)

  pub record Config : Type 0 where
    pub server : ServerConfig
    pub admin : Option AdminConfig
    pub cache : Option CacheConfig
    pub http_client : Option HttpClientConfig
    pub dns_client : Option DnsClientConfig
    pub upstream_groups : Option (List Group)
    pub static_rules : Option (List RouteRuleConfig)
    pub remote_rules : List RemoteRuleConfig

  -- The loop over the groups, with the names so far.
  unfoldable pub unique_names : List Text → List Group → Result (Unit {0}) Text
  unique_names seen [] = ok tt
  unique_names seen (g ∷ gs) =
      let rest = unique_names (g.name ∷ seen) gs in
      if contains_name g.name seen then err (codes "duplicate_group_name") else rest

  unfoldable pub validate_unique_group_names : Config → Result (Unit {0}) Text
  validate_unique_group_names config = elim config.upstream_groups [
    | none ↦ ok tt
    | some groups ↦ unique_names [] groups
  ]

  unfoldable pub forward_targets : Config → List Text
  forward_targets config =
      static_targets (or_none config.static_rules) ++ remote_targets config.remote_rules

  abbrev pub group_names : List Group → List Text
  group_names groups = map (λ g. g.name) groups

  abbrev pub check_references : List Text → List Group → Result (Unit {0}) Text
  check_references targets groups =
      if is_empty targets
      then ok tt
      else if is_empty groups
      then err (codes "missing_upstream_groups_for_forward")
      else targets_exist (group_names groups) targets

  unfoldable pub validate_group_references : Config → Result (Unit {0}) Text
  validate_group_references config =
      check_references (forward_targets config) (or_none config.upstream_groups)

  -- The derived check, and `Config::validate` with the messages before they are formatted.
  abbrev pub config_checks : AddrParser → UrlParser → Patterns → Config → List (List Text)
  config_checks addrs urls P config =
      validate_server addrs config.server
      ∷ optional (validate_admin addrs) config.admin
      ∷ optional validate_cache config.cache
      ∷ optional validate_http_client config.http_client
      ∷ optional validate_dns_client config.dns_client
      ∷ optional (each validate_group) config.upstream_groups
      ∷ optional (each (validate_route_rule P)) config.static_rules
      ∷ each (validate_remote_rule urls) config.remote_rules
      ∷ schema (validate_unique_group_names config)
      ∷ schema (validate_group_references config)
      ∷ []

  unfoldable pub messages : AddrParser → UrlParser → Patterns → Config → List Text
  messages addrs urls P config = checks (config_checks addrs urls P config)

  unfoldable pub validate :
      AddrParser → UrlParser → Patterns → Config → Result (Unit {0}) (List Text)
  validate addrs urls P config =
      let errors = messages addrs urls P config in if is_empty errors then ok tt else err errors

  -- `Config::validate_runtime_requirements`
  unfoldable pub validate_runtime_requirements : Config → Result (Unit {0}) ConfigError
  validate_runtime_requirements config =
      if length (or_none config.static_rules) == 0 && length config.remote_rules == 0
      then err (
          ConfigError.validation_error (
            codes
              "No routing rules configured: please configure 'static_rules' and/or 'remote_rules'"))
      else if not (
          any (λ rule. is_forward rule.action) (or_none config.static_rules)
          || any (λ rule. is_forward rule.action) config.remote_rules)
      then err (
          ConfigError.validation_error (
            codes
              "No forward rules configured: please add at least one rule with action 'forward'"))
      else ok tt
