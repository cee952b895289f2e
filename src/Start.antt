-- ===== src/Start.antt =====
-- `create_components` of src/main.rs: what the program is made of, from its configuration. The servers
-- are their addresses, time outs and handler. The cache of the admin server and that of the handler are
-- one, which both share. What is logged is left out.
pub mod Refused
pub mod Sound
pub mod Tests
use load_ants.Upstream.Manager.{UpstreamManager}
use load_ants.Prelude.{
  ℕ, zero, suc, ◌+◌, ◌-◌, List, [], ◌∷◌, ◌++◌, Option, none, some, is_empty, length, ltb,
  if◌then◌else◌,
}
use load_ants.Prelude.Texts.{Text, codes}
use load_ants.Prelude.Maybe.{unwrap_or}
use load_ants.Errors.{
  Result, ok, err, ◌>>=◌, map_err, AppError, ConfigError, invalid_listen_address,
}
use load_ants.Metrics.{Metrics, ◌▸◌, route_rules_count}
use load_ants.Metrics
use load_ants.Http.{Http, HttpClientConfig}
use load_ants.Config.Core.{
  CacheConfig, AdminConfig, DnsClientConfig, default_http_client, default_dns_client,
}
use load_ants.Config.Rule.{RouteRuleConfig, MatchType, exact, wildcard, regex}
use load_ants.Config.Validate.{Config, or_none}
use load_ants.Proto.{Proto}
use load_ants.Proto.Wire.{Wire}
use load_ants.Cache.{Moka, DnsCache}
use load_ants.Admin
use load_ants.Admin.{AdminServer, with_cache}
use load_ants.Cache
use load_ants.Router.{Patterns, Router}
use load_ants.Router.Build
use load_ants.Remote.Merge.{load_and_merge_rules}
use load_ants.Upstream.DnsClient.{Connector}
use load_ants.Upstream.Doh.{Urls}
use load_ants.Upstream.Json.{Json}
use load_ants.Upstream.Manager
use load_ants.Upstream.Manager.Forward.{Server}
use load_ants.Upstream.System.{System}
use load_ants.Balancer.Select.{Chooses}

-- `rules.iter().skip(n)`
abbrev pub skip {ℓ} : {A : Type ℓ} → ℕ → List A → List A
skip zero l = l
skip (suc n) [] = []
skip (suc n) (x ∷ l) = skip n l

-- The patterns of the rules of a type.
abbrev patterns_of : MatchType → RouteRuleConfig → ℕ
patterns_of exact rule = elim rule.match_type [
  | exact ↦ length rule.patterns
  | wildcard ↦ 0
  | regex ↦ 0
]
patterns_of wildcard rule = elim rule.match_type [
  | exact ↦ 0
  | wildcard ↦ length rule.patterns
  | regex ↦ 0
]
patterns_of regex rule = elim rule.match_type [
  | exact ↦ 0
  | wildcard ↦ 0
  | regex ↦ length rule.patterns
]

unfoldable pub count_patterns : MatchType → List RouteRuleConfig → ℕ
count_patterns t [] = 0
count_patterns t (rule ∷ rules) = patterns_of t rule + count_patterns t rules

abbrev pub set_counts : Text → List RouteRuleConfig → Metrics → Metrics
set_counts source rules m =
    m
    ▸ Metrics.set route_rules_count (codes "exact" ∷ source ∷ []) (count_patterns exact rules)
    ▸ Metrics.set route_rules_count (codes "wildcard" ∷ source ∷ []) (count_patterns wildcard rules)
    ▸ Metrics.set route_rules_count (codes "regex" ∷ source ∷ []) (count_patterns regex rules)

-- The gauges of the static rules, and of the remote ones if there are some.
unfoldable pub record_rules : List RouteRuleConfig → List RouteRuleConfig → Metrics → Metrics
record_rules static_rules rules m =
    let m = set_counts (codes "static") static_rules m in
    if ltb 0 (length rules - length static_rules)
    then set_counts (codes "remote") (skip (length static_rules) rules) m
    else m

module _ (D : Proto) (W : Wire D) (J : Json) (H : Http) (V : Urls) (N : Connector D)
    (choose : List (Server D W J H V N) → Option (Server D W J H V N)) (chooses : Chooses choose)
    (moka : Moka D) (shuffle : List D.Record → List D.Record) (P : Patterns)
    (parse_addr : Text → Result N.SocketAddr Text) where
  open N use {SocketAddr}
  open P use {Regex}

  abbrev pub AppConfig : Type 0
  AppConfig = Config V SocketAddr

  abbrev pub Handler : Type 0
  Handler = System D W J H V N choose chooses moka shuffle P

  -- `DnsServerConfig`, and the address of the DoH server if there is one.
  pub record Listeners : Type 0 where
    pub udp_bind_addr : SocketAddr
    pub tcp_bind_addr : SocketAddr
    pub http_bind_addr : SocketAddr
    pub doh_addr : Option SocketAddr

  pub record AppComponents : Type 0 where
    pub admin_server : AdminServer D moka shuffle SocketAddr
    pub listeners : Listeners
    pub tcp_timeout : ℕ
    pub http_timeout : ℕ
    pub handler : Handler

  -- `parse()?` of an address
  abbrev pub parse : Text → Result SocketAddr AppError
  parse text = map_err (λ e. AppError.config (invalid_listen_address e)) (parse_addr text)

  unfoldable pub new_cache : Option CacheConfig → Metrics → DnsCache D moka × Metrics
  new_cache none m = Cache.new D moka shuffle 0 0 (some 0) m
  new_cache (some c) m =
      Cache.new D moka shuffle (if c.enabled then c.max_size else 0) c.min_ttl (some c.negative_ttl)
        m

  abbrev pub admin_listen : Option AdminConfig → Text
  admin_listen none = codes "127.0.0.1:9000"
  admin_listen (some a) = a.listen

  abbrev pub http_client_config : AppConfig → HttpClientConfig
  http_client_config config = unwrap_or default_http_client config.http_client

  -- Merging falls back to the static rules.
  abbrev or_static :
      List RouteRuleConfig → Result (List RouteRuleConfig) AppError → List RouteRuleConfig
  or_static static_rules (ok rules) = rules
  or_static static_rules (err e) = static_rules

  unfoldable pub merged_rules : AppConfig → List RouteRuleConfig
  merged_rules config =
      let static_rules = or_none config.static_rules in
      if is_empty config.remote_rules
      then static_rules
      else or_static static_rules
          (load_and_merge_rules H (http_client_config config) config.remote_rules static_rules)

  abbrev pub parse_optional : Option Text → Result (Option SocketAddr) AppError
  parse_optional none = ok none
  parse_optional (some text) = parse text >>= λ a. ok (some a)

  -- The addresses of the servers.
  unfoldable pub listeners_of : AppConfig → Result Listeners AppError
  listeners_of config = parse config.server.listen_udp >>= λ udp.
      parse config.server.listen_tcp >>= λ tcp.
      parse (unwrap_or (codes "127.0.0.1:0") config.server.listen_http) >>= λ http.
      parse_optional config.server.listen_http >>= λ doh.
      ok
        (record { udp_bind_addr = udp; tcp_bind_addr = tcp; http_bind_addr = http; doh_addr = doh })

  abbrev pub assembled :
      AppConfig
      → AdminServer D moka shuffle SocketAddr
      → Handler
      → Result Listeners AppError
      → Result AppComponents AppError
  assembled config admin handler listeners = listeners >>= λ l. ok (record {
    admin_server = admin;
    listeners = l;
    tcp_timeout = config.server.tcp_timeout;
    http_timeout = config.server.http_timeout;
    handler = handler;
  })

  -- Once there is a manager: with the router of the merged rules.
  abbrev pub routed :
      AppConfig
      → AdminServer D moka shuffle SocketAddr
      → DnsCache D moka
      → UpstreamManager D W J H V N
      → Result (Router Regex) ConfigError × Metrics
      → Result AppComponents AppError × Metrics
  routed config admin cache manager (err e, m) = (err (AppError.config e), m)
  routed config admin cache manager (ok router, m) = (
    assembled config admin (record { cache = cache; router = router; upstream = manager })
        (listeners_of config),
    record_rules (or_none config.static_rules) (merged_rules config) m,
  )

  abbrev pub managed :
      AppConfig
      → AdminServer D moka shuffle SocketAddr
      → DnsCache D moka
      → Result (UpstreamManager D W J H V N) AppError
      → Metrics
      → Result AppComponents AppError × Metrics
  managed config admin cache (err e) m = (err e, m)
  managed config admin cache (ok manager) m =
      routed config admin cache manager (Build.new P (merged_rules config) m)

  abbrev pub administered :
      AppConfig
      → DnsCache D moka
      → Result SocketAddr AppError
      → Metrics
      → Result AppComponents AppError × Metrics
  administered config cache (err e) m = (err e, m)
  administered config cache (ok admin) m =
      managed config
        (with_cache D moka shuffle SocketAddr cache (Admin.new D moka shuffle SocketAddr admin))
        cache
        (Manager.new D W J H V N (or_none config.upstream_groups) (http_client_config config)
          (unwrap_or default_dns_client config.dns_client))
        m

  -- `create_components`
  unfoldable pub create_components : AppConfig → Metrics → Result AppComponents AppError × Metrics
  create_components config m =
      let (cache, m) = new_cache config.cache m in
      administered config cache (parse (admin_listen config.admin)) m
