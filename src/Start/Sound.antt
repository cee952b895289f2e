-- ===== src/Start/Sound.antt =====
-- What `create_components` of src/main.rs makes of a configuration that passed `Config::validate`.
use load_ants.Remote.Loader.{RemoteRuleConfig}
use load_ants.Prelude.{
  arith, ◌≡◌, refl, ◌⊎◌, inl, inr, true, false, Bool, Bool-cases, List, [], ◌∷◌, ◌++◌, append-nil,
  sym, ap, ◌∙◌, Option, none, some, is_empty,
}
use load_ants.Prelude.Texts.{Text, codes}
use load_ants.Prelude.Maybe.{unwrap_or}
use load_ants.Errors.{Result, ok, err, AppError, ConfigError, Result-cases}
use load_ants.Metrics.{Metrics}
use load_ants.Http.{Http, HttpClientConfig}
use load_ants.Config.Core.{AdminConfig, AddrParser, default_dns_client}
use load_ants.Config.Rule.{RouteRuleConfig}
use load_ants.Config.Validate.{UrlParser, validate, or_none}
use load_ants.Config.Patterns.{entries-Fine, first_some-none}
use load_ants.Config.Sound.{Sound, validate-Sound}
use load_ants.Config.Listens.{Listens, Parses, validate-Listens, listen_of}
use load_ants.Proto.{Proto}
use load_ants.Proto.Wire.{Wire}
use load_ants.Admin
use load_ants.Admin.{AdminServer, with_cache}
use load_ants.Cache.{Moka, DnsCache}
use load_ants.Router.{Patterns, Router}
use load_ants.Router.Build
use load_ants.Router.Entries.{entries, entry_error}
use load_ants.Router.Find.{find_match}
use load_ants.Router.Route.{route, counted}
use load_ants.Router.Spec.{new-error, find_match-route}
use load_ants.Router.Suffix.{first_some}
use load_ants.Remote.Accepted.{entries-append}
use load_ants.Remote.Merge.{load_and_merge_rules_lem, all_rules}
use load_ants.Upstream.DnsClient.{Connector}
use load_ants.Upstream.Doh.{Urls}
use load_ants.Upstream.Json.{Json}
use load_ants.Upstream.Manager
use load_ants.Upstream.Manager.{UpstreamManager}
use load_ants.Upstream.Manager.Forward.{Server}
use load_ants.Upstream.Manager.Valid.{IsValid, new-IsValid}
use load_ants.Balancer.Select.{Chooses}
use load_ants.Start.Refused.{HasUncompiled, first_some-HasUncompiled, all_rules-Accepted}
use load_ants.Start.{
  AppConfig, AppComponents, Listeners, parse, parse_optional, admin_listen, http_client_config,
  merged_rules, listeners_of, routed, managed, create_components, new_cache,
}

first_some-append {ℓ} :
    {A : Type 0} {B : Type ℓ} (f : A → Option B) (xs ys : List A)
    → first_some f xs ≡ none
    → first_some f (xs ++ ys) ≡ first_some f ys
first_some-append f [] ys h = refl
first_some-append f (x ∷ xs) ys h = ground (arith, first_some-append f xs ys)

abbrev pub is_ok {ℓ} : {A E : Type ℓ} → Result A E → Bool
is_ok (ok a) = true
is_ok (err e) = false

all_rules_empty :
    (H : Http) (c : HttpClientConfig) (l : List RemoteRuleConfig)
    → is_empty l ≡ true
    → all_rules H c l ≡ []
all_rules_empty H c [] h = refl
all_rules_empty H c (x ∷ l) h = absurd (cc)

module _ (D : Proto) (W : Wire D) (J : Json) (H : Http) (V : Urls) (N : Connector D)
    (choose : List (Server D W J H V N) → Option (Server D W J H V N)) (chooses : Chooses choose)
    (moka : Moka D) (shuffle : List D.Record → List D.Record) (P : Patterns)
    (parse_addr : Text → Result N.SocketAddr Text) where
  open N use {SocketAddr}
  open P use {Regex}

  abbrev Made : Type 0
  Made = AppComponents D W J H V N choose chooses moka shuffle P parse_addr

  abbrev Given : Type 0
  Given = AppConfig D W J H V N choose chooses moka shuffle P parse_addr

  abbrev parsed : Text → Result SocketAddr AppError
  parsed = parse D W J H V N choose chooses moka shuffle P parse_addr

  abbrev merged : Given → List RouteRuleConfig
  merged = merged_rules D W J H V N choose chooses moka shuffle P parse_addr

  abbrev http_config : Given → HttpClientConfig
  http_config = http_client_config D W J H V N choose chooses moka shuffle P parse_addr

  abbrev pub addrs : AddrParser
  addrs text = is_ok (parse_addr text)

  abbrev pub remote : Given → List RouteRuleConfig
  remote config = all_rules H (http_config config) config.remote_rules

  -- `UpstreamManager::new` of the configuration
  abbrev pub manager_of : Given → Result (UpstreamManager D W J H V N) AppError
  manager_of config =
      Manager.new D W J H V N (or_none config.upstream_groups) (http_config config)
        (unwrap_or default_dns_client config.dns_client)

  abbrev managing : SocketAddr → DnsCache D moka → AdminServer D moka shuffle SocketAddr
  managing a cache =
      with_cache D moka shuffle SocketAddr cache (Admin.new D moka shuffle SocketAddr a)

  -- What the start gives: one cache, a valid manager, and a router that decides by the static rules and then the
  -- remote ones; or the error of the manager, or of a remote regular expression.
  abbrev pub Starts : Given → Result Made AppError → Type 0
  Starts config (ok made) =
      (made.admin_server.cache ≡ some made.handler.cache)
      × IsValid D W J H V N choose chooses made.handler.upstream
      × ((name : Text) (m : Metrics)
          → find_match P made.handler.router name m
            ≡ counted
                (route P (entries (or_none config.static_rules) ++ entries (remote config)) name) m)
  Starts config (err e) =
      (manager_of config ≡ err e)
      ⊎ ((c : ConfigError) × (e ≡ AppError.config c) × HasUncompiled P c (entries (remote config)))

  parses : (text : Text) → addrs text ≡ true → (a : SocketAddr) × (parsed text ≡ ok a)
  parses text h = elim (Result-cases (parse_addr text)) [
    | inl (a, e) ↦ (a, rw e refl)
    | inr (e, f) ↦ absurd (cc)
  ]

  unwrap_or-Parses :
      (default : Text) (o : Option Text)
      → addrs default ≡ true
      → Parses V SocketAddr addrs o
      → (a : SocketAddr) × (parsed (unwrap_or default o) ≡ ok a)
  unwrap_or-Parses default none h k = parses default h
  unwrap_or-Parses default (some text) h k = parses text k

  parse_optional-Parses :
      (o : Option Text)
      → Parses V SocketAddr addrs o
      → (a : Option SocketAddr) × (parse_optional D W J H V N choose chooses moka shuffle P
            parse_addr o
          ≡ ok a)
  parse_optional-Parses none k = (none, refl)
  parse_optional-Parses (some text) k = let (a, e) = parses text k in (some a, rw e refl)

  admin_listen-Parses :
      (o : Option AdminConfig)
      → addrs (codes "127.0.0.1:9000") ≡ true
      → Parses V SocketAddr addrs (listen_of V SocketAddr o)
      → (a : SocketAddr) × (parsed
            (admin_listen D W J H V N choose chooses moka shuffle P parse_addr o)
          ≡ ok a)
  admin_listen-Parses none h k = parses (codes "127.0.0.1:9000") h
  admin_listen-Parses (some c) h k = parses c.listen k

  listens :
      (config : Given)
      → addrs (codes "127.0.0.1:0") ≡ true
      → Listens V SocketAddr addrs config
      → (l : Listeners D W J H V N choose chooses moka shuffle P parse_addr) × (listeners_of D W J H
            V N choose chooses moka shuffle P parse_addr config
          ≡ ok l)
  unfolding listeners_of
  listens config h l =
      let (u, udp_ok) = parses config.server.listen_udp l.udp_parses in
      let (t, tcp_ok) = parses config.server.listen_tcp l.tcp_parses in
      let (w, http_ok) =
        unwrap_or-Parses (codes "127.0.0.1:0") config.server.listen_http h l.http_parses in
      let (d, doh_ok) = parse_optional-Parses config.server.listen_http l.http_parses in
      (
        record { udp_bind_addr = u; tcp_bind_addr = t; http_bind_addr = w; doh_addr = d },
        rw (udp_ok, tcp_ok, http_ok, doh_ok) refl,
      )

  merged_rules_lem : (config : Given) → merged config ≡ or_none config.static_rules ++ remote config
  unfolding merged_rules
  merged_rules_lem config = elim (Bool-cases (is_empty config.remote_rules)) [
    | inl e ↦
        rw (e, all_rules_empty H (http_config config) config.remote_rules e) (sym (append-nil _))
    | inr e ↦
        rw
          (
            e,
            load_and_merge_rules_lem H (http_config config) config.remote_rules
                (or_none config.static_rules),
          )
          refl
  ]

  entries-merged :
      (config : Given)
      → entries (merged config) ≡ entries (or_none config.static_rules) ++ entries (remote config)
  entries-merged config =
      ap entries (merged_rules_lem config)
      ∙ entries-append (or_none config.static_rules) (remote config)

  -- From here on, the steps of the start, last first.
  module _ (config : Given) (sound : Sound V SocketAddr P config)
      (listens_on : Listens V SocketAddr addrs config)
      (admin_default : addrs (codes "127.0.0.1:9000") ≡ true)
      (http_default : addrs (codes "127.0.0.1:0") ≡ true) where
    remote-HasUncompiled :
        (c : ConfigError)
        → first_some (entry_error P) (entries (merged config)) ≡ some c
        → HasUncompiled P c (entries (remote config))
    remote-HasUncompiled c h =
        let rules = or_none config.static_rules in
        let fine = first_some-none P (entries rules) (entries-Fine P rules sound.patterns) in
        first_some-HasUncompiled P c (entries (remote config))
          (all_rules-Accepted P H (http_config config) config.remote_rules)
          (sym (first_some-append (entry_error P) (entries rules) (entries (remote config)) fine)
            ∙ ap (first_some (entry_error P)) (sym (entries-merged config))
            ∙ h)

    routed-Starts :
        (a : SocketAddr) (cache : DnsCache D moka) (M : UpstreamManager D W J H V N) (k : Metrics)
        (z : Result (Router Regex) ConfigError × Metrics)
        → Build.new P (merged config) k ≡ z
        → IsValid D W J H V N choose chooses M
        → Starts config
            (routed D W J H V N choose chooses moka shuffle P parse_addr config
              (managing a cache)
              cache
              M
              z).0
    routed-Starts a cache M k (err c, m) e v =
        inr
          (c, refl, remote-HasUncompiled c ((new-error P (merged config) c k).0 (ap (λ x. x.0) e)))
    routed-Starts a cache M k (ok router, m) e v =
        let (l, listening) = listens config http_default listens_on in
        rw listening (
          refl,
          v,
          λ name n.
              rw (← entries-merged config)
                (find_match-route P (merged config) router k (ap (λ x. x.0) e) name n),
        )

    managed-Starts :
        (a : SocketAddr) (cache : DnsCache D moka)
        (x : Result (UpstreamManager D W J H V N) AppError) (m : Metrics)
        → manager_of config ≡ x
        → Starts config
            (managed D W J H V N choose chooses moka shuffle P parse_addr config
              (managing a cache)
              cache
              x
              m).0
    managed-Starts a cache (err e) m h = inl h
    managed-Starts a cache (ok M) m h =
        routed-Starts a cache M m (Build.new P (merged config) m) refl (
          new-IsValid D W J H V N choose chooses (or_none config.upstream_groups)
            (http_config config) (unwrap_or default_dns_client config.dns_client) M sound.groups_fit
            h)

    create_components_sound :
        (m : Metrics)
        → Starts config
            (create_components D W J H V N choose chooses moka shuffle P parse_addr config m).0
    unfolding create_components
    create_components_sound m =
        let (a, e) = admin_listen-Parses config.admin admin_default listens_on.admin_parses in
        rw e (
          managed-Starts a
            (new_cache D W J H V N choose chooses moka shuffle P parse_addr config.cache m).0
            (manager_of config)
            (new_cache D W J H V N choose chooses moka shuffle P parse_addr config.cache m).1 refl)

  -- A configuration that passes `validate` starts, with one cache for the
  -- handler and the admin server, a valid manager and a router that decides every
  -- name by the static rules followed by those of the remote sources that could be loaded; or the start
  -- ends with the error of making the manager, or with that of a remote regular expression that does not
  -- compile. So no address and no static rule ends it, nor a remote rule of another type or a source
  -- that fails to load. The two default addresses have to parse.
  pub create_components-Starts :
      (urls : UrlParser) (config : Given) (m : Metrics)
      → addrs (codes "127.0.0.1:9000") ≡ true
      → addrs (codes "127.0.0.1:0") ≡ true
      → validate V SocketAddr addrs urls P config ≡ ok tt
      → Starts config
          (create_components D W J H V N choose chooses moka shuffle P parse_addr config m).0
  create_components-Starts urls config m admin_default http_default h =
      create_components_sound config (validate-Sound V SocketAddr addrs urls P config h)
        (validate-Listens V SocketAddr addrs urls P config h) admin_default http_default m
