-- ===== src/Upstream/Validated.antt =====
-- The upstream manager that is made of a configuration that passed `Config::validate`: no rule forwards
-- to a group that is not there.
use load_ants.Prelude.{
  ◌≡◌, true, false, ◌⊎◌, inl, inr, List, [], ◌∷◌, Option, none, some, is_empty, All, Bool-cases,
  if◌then◌else◌,
}
use load_ants.Prelude.Texts.{Text, text_eq, text_eq_iff}
use load_ants.Prelude.Assoc.{get, get-insert}
use load_ants.Errors.{Result, ok, AppError, >>=-eq-ok, try_fold, ok_injective}
use load_ants.Metrics.{Metrics}
use load_ants.Config.Core.{DnsClientConfig, AddrParser}
use load_ants.Config.Upstream.{UpstreamScheme}
use load_ants.Config.Validate.{
  Config, Group, UrlParser, validate, contains_name, group_names, forward_targets, or_none,
}
use load_ants.Config.Sound.{validate-Sound}
use load_ants.Balancer.{LoadBalancer, servers_of}
use load_ants.Balancer.Select.{Chooses}
use load_ants.Http.{Http, HttpClientConfig, ClientWithMiddleware}
use load_ants.Upstream.DnsClient.{Connector}
use load_ants.Upstream.Doh.{Urls}
use load_ants.Upstream.Json.{Json}
use load_ants.Upstream.Manager.{new, add_group, no_manager, new_balancer, add_client}
use load_ants.Upstream.Manager.Forward.{Manager, Server, forward}
use load_ants.Upstream.Manager.Valid.{new-IsValid, servers_of-new_balancer}
use load_ants.Upstream.Manager.Answer.{Answered, Forwarded, forward-Forwarded}
use load_ants.Proto.{Proto}
use load_ants.Proto.Wire.{Wire}
use load_ants.Router.{Patterns}

contains_name-All :
    (P : Text → Type 0) (t : Text) (names : List Text)
    → contains_name t names ≡ true
    → All P names
    → P t
contains_name-All P t [] h k = absurd (cc)
contains_name-All P t (n ∷ names) h k = elim (Bool-cases (text_eq n t)) [
  | inl e ↦ rw (← (text_eq_iff n t).0 e) k.0
  | inr e ↦ contains_name-All P t names (rw e at h) k.1
]

module _ (D : Proto) (W : Wire D) (J : Json) (H : Http) (V : Urls) (N : Connector D)
    (choose : List (Server D W J H V N) → Option (Server D W J H V N))
    (chooses : Chooses choose) where
  open D use {Message}
  open N use {SocketAddr}
  open H use {Client}

  -- There is a balancer, and it has servers.
  abbrev Filled : Option (LoadBalancer (Server D W J H V N)) → Type 0
  Filled none = ⊥
  Filled (some lb) = is_empty (servers_of lb) ≡ false

  module _ (http_config : HttpClientConfig) (t : Text) where
    add_group-groups :
        (M next : Manager D W J H V N) (g : Group V SocketAddr)
        → add_group D W J H V N http_config M g ≡ ok next
        → get t next.groups ≡ (
            if text_eq g.name t
            then some (new_balancer D W J H V N g.strategy g.servers)
            else get t M.groups)
    unfolding add_group
    add_group-groups M next g e =
        let (clients, p, q) =
          >>=-eq-ok (add_client D W J H V N g.scheme http_config g M.group_clients) _ e in
        let same = ok_injective q in
        rw (← same) (get-insert g.name t (new_balancer D W J H V N g.strategy g.servers) M.groups)

    added-Filled :
        (M next : Manager D W J H V N) (g : Group V SocketAddr)
        → add_group D W J H V N http_config M g ≡ ok next
        → is_empty g.servers ≡ false
        → (text_eq g.name t ≡ true) ⊎ Filled (get t M.groups)
        → Filled (get t next.groups)
    added-Filled M next g e full h =
        rw (add_group-groups M next g e) (elim (Bool-cases (text_eq g.name t)) [
          | inl same ↦
              rw (same, servers_of-new_balancer D W J H V N choose chooses g.strategy g.servers)
                full
          | inr other ↦ rw other (elim h [ inl k ↦ absurd (cc) | inr k ↦ k ])
        ])

    fold-Filled :
        (groups : List (Group V SocketAddr)) (M last : Manager D W J H V N)
        → All (λ (g : Group V SocketAddr). is_empty g.servers ≡ false) groups
        → try_fold (add_group D W J H V N http_config) M groups ≡ ok last
        → (contains_name t (group_names V SocketAddr groups) ≡ true) ⊎ Filled (get t M.groups)
        → Filled (get t last.groups)
    unfolding try_fold
    fold-Filled [] M last full e (inl h) = absurd (cc)
    fold-Filled [] M last full e (inr h) = let same = ok_injective e in rw (← same) h
    fold-Filled (g ∷ groups) M last full e h =
        let (next, p, q) = >>=-eq-ok (add_group D W J H V N http_config M g) _ e in
        elim (Bool-cases (text_eq g.name t)) [
          | inl same ↦
              fold-Filled groups next last full.1 q
                (inr (added-Filled M next g p full.0 (inl same)))
          | inr other ↦ elim h [
            | inl k ↦ fold-Filled groups next last full.1 q (inl (rw other at k))
            | inr k ↦
                fold-Filled groups next last full.1 q (inr (added-Filled M next g p full.0 (inr k)))
          ]
        ]

  -- What a query for a known group is answered with: the answer of one of its servers.
  abbrev pub Reaches :
      Manager D W J H V N
      → Message
      → Option (LoadBalancer (Server D W J H V N))
      → Option UpstreamScheme
      → Option (ClientWithMiddleware Client)
      → Option (Result Message AppError × (Manager D W J H V N × Metrics))
      → Type 0
  Reaches M query (some lb) (some s) c (some (r, x)) =
      Answered D W J H V N choose chooses M query lb s c r
  Reaches M query _ _ c out = ⊥

  Forwarded-Reaches :
      (M : Manager D W J H V N) (query : Message) (g : Text) (o s c out : _)
      → Filled o
      → Forwarded D W J H V N choose chooses M query g o s c out
      → Reaches M query o s c out
  Forwarded-Reaches M query g none s c out full f = absurd full
  Forwarded-Reaches M query g (some lb) none c none full f = f
  Forwarded-Reaches M query g (some lb) none c (some (r, x)) full f = f
  Forwarded-Reaches M query g (some lb) (some s) c none full f = f
  Forwarded-Reaches M query g (some lb) (some s) c (some (r, x)) full (inl (e, p)) = absurd (cc)
  Forwarded-Reaches M query g (some lb) (some s) c (some (r, x)) full (inr a) = a

  -- If the configuration passes `validate` and the manager is made of its groups, a query for the
  -- target of any forwarding rule, static or remote, is answered with what one of the servers of that
  -- group answered.
  pub validate-Reaches :
      (addrs : AddrParser) (urls : UrlParser) (P : Patterns) (config : Config V SocketAddr)
      (http_config : HttpClientConfig) (dns_config : DnsClientConfig) (M : Manager D W J H V N)
      (target : Text) (query : Message) (m : Metrics)
      → validate V SocketAddr addrs urls P config ≡ ok tt
      → new D W J H V N (or_none config.upstream_groups) http_config dns_config ≡ ok M
      → contains_name target (forward_targets V SocketAddr config) ≡ true
      → Reaches M query
          (get target M.groups)
          (get target M.group_schemes)
          (get target M.group_clients)
          (forward D W J H V N choose M query target m)
  unfolding new
  validate-Reaches addrs urls P config http_config dns_config M target query m h made asked =
      let sound = validate-Sound V SocketAddr addrs urls P config h in
      let known =
        contains_name-All _ target (forward_targets V SocketAddr config) asked sound.known in
      let groups = or_none config.upstream_groups in
      let valid =
        new-IsValid D W J H V N choose chooses groups http_config dns_config M sound.groups_fit
          made in
      Forwarded-Reaches M query target _ _ _ _
        (fold-Filled http_config target groups (no_manager D W J H V N dns_config) M
          sound.groups_served made (inl known))
        (forward-Forwarded D W J H V N choose chooses M query target m valid)
