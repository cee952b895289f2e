-- ===== src/Upstream/Manager/Valid.antt =====
-- The invariant of the upstream manager, which `UpstreamManager::new` of src/upstream/manager.rs
-- establishes and `forward` keeps.
use load_ants.Prelude.{
  ◌≡◌, refl, sym, inl, inr, List, [], ◌∷◌, Option, none, some, All, Bool-cases, length-map,
}
use load_ants.Prelude.Texts.{text_eq_refl, Text, text_eq, text_eq_iff}
use load_ants.Prelude.Assoc.{get, insert, get-insert}
use load_ants.Errors.{Result, ok, err, AppError, >>=-eq-ok, try_fold, ok_injective}
use load_ants.Metrics.{Metrics}
use load_ants.Config.Upstream.{
  as_dns, UpstreamScheme, LoadBalancingStrategy, UpstreamGroupConfig, weight, validate_group_scheme,
  as_doh,
}
use load_ants.Config.Upstream.Groups.{Fits, validate_group_scheme-Fits}
use load_ants.Config.Core.{DnsClientConfig}
use load_ants.Balancer.{LoadBalancer, select_server, servers_of}
use load_ants.Balancer.Select.{Chooses, IsReady, Selects, select_server-Selects}
use load_ants.Http.{Http, HttpClientConfig, ClientWithMiddleware}
use load_ants.Upstream.DnsClient.{Connector, send_to}
use load_ants.Upstream.Doh.{Urls, send_query}
use load_ants.Upstream.Json.{Json}
use load_ants.Upstream.Manager.{create, new_balancer, add_client, add_group, no_manager, new}
use load_ants.Upstream.Manager.Forward.{
  with_group, with_doh, send_doh, with_dns, Manager, Server, forward, selected, forward_doh,
  forward_dns, after_doh, after_dns,
}
use load_ants.Proto.{Proto}
use load_ants.Proto.Wire.{Wire}

module _ (D : Proto) (W : Wire D) (J : Json) (H : Http) (V : Urls) (N : Connector D)
    (choose : List (Server D W J H V N) → Option (Server D W J H V N))
    (chooses : Chooses choose) where
  open D use {Message}
  open H use {Client}
  open V use {Url}
  open N use {SocketAddr}

  abbrev Balancer : Type 0
  Balancer = LoadBalancer (Server D W J H V N)

  abbrev pub Serves : UpstreamScheme → Balancer → Type 0
  Serves s lb = IsReady weight choose chooses lb × All (Fits s) (servers_of lb)

  -- What the three maps have under one name.
  abbrev pub Holds :
      Option Balancer → Option UpstreamScheme → Option (ClientWithMiddleware Client) → Type 0
  Holds none s c = Unit
  Holds (some lb) none c = ⊥
  Holds (some lb) (some UpstreamScheme.doh) none = ⊥
  Holds (some lb) (some UpstreamScheme.doh) (some c) = Serves UpstreamScheme.doh lb
  Holds (some lb) (some UpstreamScheme.dns) c = Serves UpstreamScheme.dns lb

  -- Each group has a scheme, servers of that scheme behind a balancer in order, and a client if it
  -- needs one.
  abbrev pub IsValid : Manager D W J H V N → Type 0
  IsValid M = (g : Text) → Holds (get g M.groups) (get g M.group_schemes) (get g M.group_clients)

  new_balancer-IsReady :
      (strategy : LoadBalancingStrategy) (servers : List (Server D W J H V N))
      → IsReady weight choose chooses (new_balancer D W J H V N strategy servers)
  unfolding new_balancer
  new_balancer-IsReady LoadBalancingStrategy.round_robin servers = tt
  new_balancer-IsReady LoadBalancingStrategy.weighted servers = record {
    one_each = sym (length-map (λ s. 0) servers);
  }
  new_balancer-IsReady LoadBalancingStrategy.random servers = tt

  pub servers_of-new_balancer :
      (strategy : LoadBalancingStrategy) (servers : List (Server D W J H V N))
      → servers_of (new_balancer D W J H V N strategy servers) ≡ servers
  unfolding new_balancer
  servers_of-new_balancer LoadBalancingStrategy.round_robin servers = refl
  servers_of-new_balancer LoadBalancingStrategy.weighted servers = refl
  servers_of-new_balancer LoadBalancingStrategy.random servers = refl

  new_balancer-Serves :
      (scheme : UpstreamScheme) (strategy : LoadBalancingStrategy)
      (servers : List (Server D W J H V N))
      → All (Fits scheme) servers
      → Serves scheme (new_balancer D W J H V N strategy servers)
  new_balancer-Serves scheme strategy servers h =
      (new_balancer-IsReady strategy servers, rw (servers_of-new_balancer strategy servers) h)

  -- The maps with one more group.
  Holds-add_client :
      (scheme : UpstreamScheme) (http_config : HttpClientConfig)
      (group : UpstreamGroupConfig Url SocketAddr) (M : Manager D W J H V N) (lb : Balancer)
      (clients : _)
      → IsValid M
      → Serves scheme lb
      → add_client D W J H V N scheme http_config group M.group_clients ≡ ok clients
      → (g : Text)
      → Holds
          (get g (insert group.name lb M.groups))
          (get g (insert group.name scheme M.group_schemes))
          (get g clients)
  unfolding add_client
  Holds-add_client UpstreamScheme.doh http_config group M lb clients v h e g =
      let (client, p, q) =
        >>=-eq-ok (create H http_config group.proxy group.retry)
          (λ c. ok (insert group.name c M.group_clients)) e in
      let same : insert group.name client M.group_clients ≡ clients = ok_injective q in
      rw (← same) (
        rw (get-insert group.name g lb M.groups) (
          rw (get-insert group.name g UpstreamScheme.doh M.group_schemes) (
            rw (get-insert group.name g client M.group_clients)
              (elim (Bool-cases (text_eq group.name g)) [ inl t ↦ rw t h | inr t ↦ rw t (v g) ]))))
  Holds-add_client UpstreamScheme.dns http_config group M lb clients v h e g =
      rw (← ok_injective e) (
        rw (get-insert group.name g lb M.groups) (
          rw (get-insert group.name g UpstreamScheme.dns M.group_schemes)
            (elim (Bool-cases (text_eq group.name g)) [ inl t ↦ rw t h | inr t ↦ rw t (v g) ])))

  add_group-IsValid :
      (http_config : HttpClientConfig) (M : Manager D W J H V N)
      (group : UpstreamGroupConfig Url SocketAddr) (next : Manager D W J H V N)
      → IsValid M
      → validate_group_scheme group ≡ ok tt
      → add_group D W J H V N http_config M group ≡ ok next
      → IsValid next
  unfolding add_group
  add_group-IsValid http_config M group next v fits e =
      let (clients, p, q) = >>=-eq-ok _ _ e in
      let same = ok_injective q in
      rw (← same) (
        Holds-add_client group.scheme http_config group M
          (new_balancer D W J H V N group.strategy group.servers) clients v
          (new_balancer-Serves group.scheme group.strategy group.servers
            (validate_group_scheme-Fits group fits).0)
          p)

  fold-IsValid :
      (http_config : HttpClientConfig) (groups : List (UpstreamGroupConfig Url SocketAddr))
      (M last : Manager D W J H V N)
      → IsValid M
      → All (λ group. validate_group_scheme group ≡ ok tt) groups
      → try_fold (add_group D W J H V N http_config) M groups ≡ ok last
      → IsValid last
  unfolding try_fold
  fold-IsValid http_config [] M last v fits e = rw (← ok_injective e) v
  fold-IsValid http_config (group ∷ groups) M last v fits e =
      let (next, p, q) = >>=-eq-ok _ _ e in
      fold-IsValid http_config groups next last
        (add_group-IsValid http_config M group next v fits.0 p) fits.1 q

  -- A manager that is made of groups that pass the check of their scheme is valid.
  pub new-IsValid :
      (groups : List (UpstreamGroupConfig Url SocketAddr)) (http_config : HttpClientConfig)
      (dns_config : DnsClientConfig) (M : Manager D W J H V N)
      → All (λ group. validate_group_scheme group ≡ ok tt) groups
      → new D W J H V N groups http_config dns_config ≡ ok M
      → IsValid M
  unfolding new get
  new-IsValid groups http_config dns_config M fits e =
      fold-IsValid http_config groups (no_manager D W J H V N dns_config) M (λ g. tt) fits e

  Holds-swap :
      (lb next : Balancer) (s : Option UpstreamScheme) (c : Option (ClientWithMiddleware Client))
      → Holds (some lb) s c
      → IsReady weight choose chooses next
      → servers_of next ≡ servers_of lb
      → Holds (some next) s c
  Holds-swap lb next none c h ready same = h
  Holds-swap lb next (some UpstreamScheme.doh) none h ready same = h
  Holds-swap lb next (some UpstreamScheme.doh) (some c) h ready same = (ready, rw same h.1)
  Holds-swap lb next (some UpstreamScheme.dns) c h ready same = (ready, rw same h.1)

  -- A balancer may be replaced by one of the same servers.
  swap-IsValid :
      (M : Manager D W J H V N) (g : Text) (lb next : Balancer)
      → IsValid M
      → get g M.groups ≡ some lb
      → IsReady weight choose chooses next
      → servers_of next ≡ servers_of lb
      → IsValid (record M { groups = insert g next M.groups })
  swap-IsValid M g lb next v found ready same j =
      rw (get-insert g j next M.groups) (elim (Bool-cases (text_eq g j)) [
        | inr t ↦ rw t (v j)
        | inl t ↦
            let here : get j M.groups ≡ some lb = rw (← (text_eq_iff g j).0 t) found in
            let held = v j in rw t (Holds-swap lb next _ _ (rw here at held) ready same)
      ])

  -- It is made, and the manager is still valid.
  abbrev pub Keeps : Option (Result Message AppError × (Manager D W J H V N × Metrics)) → Type 0
  Keeps none = ⊥
  Keeps (some (r, (M, m))) = IsValid M

  module _ (M : Manager D W J H V N) (g : Text) (lb : Balancer) (v : IsValid M)
      (found : get g M.groups ≡ some lb) (ready : IsReady weight choose chooses lb) where
    again : IsValid (record M { groups = insert g lb M.groups })
    again = swap-IsValid M g lb lb v found ready refl

    after_doh-IsValid :
        (host : Text) (server : Server D W J H V N) (r : Result Message AppError) (m : Metrics)
        → IsValid (after_doh D W J H V N M g host lb server r m).1.0
    after_doh-IsValid host server (ok response) m = v
    after_doh-IsValid host server (err e) m = again

    send_doh-IsValid :
        (query : Message) (server : Server D W J H V N) (doh : _) (host : Text) (c : _)
        (m : Metrics)
        → IsValid (send_doh D W J H V N M query g lb server doh host c m).1.0
    send_doh-IsValid query server doh host none m = v
    send_doh-IsValid query server doh host (some c) m =
        after_doh-IsValid host server (send_query D W J H V c query doh) m

    with_doh-IsValid :
        (query : Message) (server : Server D W J H V N) (o : _) (m : Metrics)
        → IsValid (with_doh D W J H V N M query g lb server o m).1.0
    with_doh-IsValid query server none m = v
    with_doh-IsValid query server (some doh) m =
        send_doh-IsValid query server doh _ (get g M.group_clients) _

    after_dns-IsValid :
        (host : Text) (server : Server D W J H V N) (c : _) (r : _) (m : Metrics)
        → IsValid (after_dns D W J H V N (record M { dns_client = c }) g host lb server r m).1.0
    after_dns-IsValid host server c (ok response) m = v
    after_dns-IsValid host server c (err e) m = again

    with_dns-IsValid :
        (query : Message) (server : Server D W J H V N) (o : _) (m : Metrics)
        → IsValid (with_dns D W J H V N M query g lb server o m).1.0
    with_dns-IsValid query server none m = v
    with_dns-IsValid query server (some dns) m =
        after_dns-IsValid _ server _ (send_to D W N M.dns_client dns.addr query).0 m

    selected-Keeps :
        (scheme : UpstreamScheme) (query : Message) (r : Result (Server D W J H V N) AppError)
        (m : Metrics)
        → Keeps (selected D W J H V N scheme M query g lb (some r) m)
    unfolding forward_doh forward_dns
    selected-Keeps scheme query (err e) m = v
    selected-Keeps UpstreamScheme.doh query (ok server) m =
        with_doh-IsValid query server (as_doh server) m
    selected-Keeps UpstreamScheme.dns query (ok server) m =
        with_dns-IsValid query server (as_dns server) m

  Selects-some :
      (lb next : Balancer) (o : Option (Result (Server D W J H V N) AppError))
      → Selects weight choose chooses lb o next
      → (r : Result (Server D W J H V N) AppError) × (o ≡ some r)
  Selects-some lb next o s = elim s.selected [
    | inl (e, p) ↦ (err _, p)
    | inr (i, server, f, p) ↦ (ok server, p)
  ]

  pub Holds-IsReady :
      (lb : Balancer) (scheme : UpstreamScheme) (c : _)
      → Holds (some lb) (some scheme) c
      → IsReady weight choose chooses lb
  Holds-IsReady lb UpstreamScheme.doh none h = absurd h
  Holds-IsReady lb UpstreamScheme.doh (some c) h = h.0
  Holds-IsReady lb UpstreamScheme.dns c h = h.0

  with_group-Keeps :
      (M : Manager D W J H V N) (query : Message) (g : Text) (m : Metrics) (o : Option Balancer)
      (s : Option UpstreamScheme) (c : _)
      → IsValid M
      → get g M.groups ≡ o
      → Holds o s c
      → Keeps (with_group D W J H V N choose M query g o s m)
  with_group-Keeps M query g m none s c v found held = v
  with_group-Keeps M query g m (some lb) none c v found held = v
  with_group-Keeps M query g m (some lb) (some scheme) c v found held =
      let s = select_server-Selects weight choose chooses lb (Holds-IsReady lb scheme c held) in
      let next = (select_server weight choose lb).1 in
      let (r, p) = Selects-some lb next _ s in
      rw p (
        selected-Keeps (record M { groups = insert g next M.groups }) g next
          (swap-IsValid M g lb next v found s.ready s.same)
          (rw (get-insert g g next M.groups) (rw (text_eq_refl g) refl)) s.ready scheme query r m)

  -- `forward` never panics on a valid manager, and leaves a valid manager on every branch.
  pub forward-Keeps :
      (M : Manager D W J H V N) (query : Message) (g : Text) (m : Metrics)
      → IsValid M
      → Keeps (forward D W J H V N choose M query g m)
  unfolding forward
  forward-Keeps M query g m v =
      with_group-Keeps M query g m (get g M.groups) (get g M.group_schemes) (get g M.group_clients)
        v refl (v g)
