-- ===== src/Upstream/Manager/Answer.antt =====
-- What `forward` of src/upstream/manager.rs answers with.
use mathlib.Core.Path.{subst}
use load_ants.Prelude.{
  arith, ℕ, zero, suc, ◌≡◌, refl, ◌∙◌, ap, true, ◌⊎◌, inl, inr, List, [], ◌∷◌, Option, none, some,
  All, is_empty, get_elem?,
}
use load_ants.Prelude.Texts.{Text}
use load_ants.Prelude.Assoc.{get, insert}
use load_ants.Errors.{Result, ok, err, AppError, upstream_group_not_found, no_upstream_available}
use load_ants.Metrics.{Metrics}
use load_ants.Config.Upstream.{
  UpstreamScheme, UpstreamServerConfig, DohUpstreamServerConfig, DnsUpstreamServerConfig, weight,
  as_doh, as_dns, doh_server, dns_server,
}
use load_ants.Config.Upstream.Groups.{Fits}
use load_ants.Balancer.{LoadBalancer, select_server, servers_of}
use load_ants.Balancer.Select.{Chooses, select_server-Selects}
use load_ants.Http.{Http, ClientWithMiddleware}
use load_ants.Upstream.DnsClient.{Connector, send_to, DnsClientResponse, DnsClientSendError}
use load_ants.Upstream.Doh.{Urls, send_query}
use load_ants.Upstream.Json.{Json}
use load_ants.Upstream.Manager.Forward.{
  Manager, Server, forward, selected, forward_by, forward_doh, forward_dns, after_doh, after_dns,
  send_doh, with_group,
}
use load_ants.Upstream.Manager.Valid.{IsValid, Holds, Holds-IsReady}
use load_ants.Proto.{Proto}
use load_ants.Proto.Wire.{Wire}

get_elem?-All {ℓ κ} :
    {A : Type ℓ} (P : A → Type κ) (l : List A) (i : ℕ) {x : A}
    → All P l
    → get_elem? l i ≡ some x
    → P x
get_elem?-All P [] i h e = absurd (cc)
get_elem?-All P (y ∷ l) zero h e = let same : y ≡ _ = grind arith in subst P same h.0
get_elem?-All P (y ∷ l) (suc i) h e = get_elem?-All P l i h.1 e

module _ {Url SocketAddr : Type 0} where
  as_doh-eq-some :
      (s : UpstreamServerConfig Url SocketAddr) (d : DohUpstreamServerConfig Url)
      → as_doh s ≡ some d
      → s ≡ doh_server d
  as_doh-eq-some (doh_server s) d e = grind arith
  as_doh-eq-some (dns_server s) d e = cc

  as_dns-eq-some :
      (s : UpstreamServerConfig Url SocketAddr) (d : DnsUpstreamServerConfig SocketAddr)
      → as_dns s ≡ some d
      → s ≡ dns_server d
  as_dns-eq-some (doh_server s) d e = cc
  as_dns-eq-some (dns_server s) d e = grind arith

module _ (D : Proto) (W : Wire D) (J : Json) (H : Http) (V : Urls) (N : Connector D)
    (choose : List (Server D W J H V N) → Option (Server D W J H V N))
    (chooses : Chooses choose) where
  open D use {Message}
  open H use {Client}
  open V use {Url}
  open N use {SocketAddr}

  -- The message or the error that a DNS server is answered for.
  abbrev pub message_of :
      Result (DnsClientResponse Message) DnsClientSendError → Result Message AppError
  message_of (ok r) = ok r.message
  message_of (err e) = err e.error

  -- The answer of one of the servers behind a balancer.
  abbrev pub Answered :
      Manager D W J H V N
      → Message
      → LoadBalancer (Server D W J H V N)
      → UpstreamScheme
      → Option (ClientWithMiddleware Client)
      → Result Message AppError
      → Type 0
  Answered M query lb UpstreamScheme.doh none r = ⊥
  Answered M query lb UpstreamScheme.doh (some c) r =
      (i : ℕ) × (server : DohUpstreamServerConfig Url) × (get_elem? (servers_of lb) i
        ≡ some (doh_server server))
      × (r ≡ send_query D W J H V c query server)
  Answered M query lb UpstreamScheme.dns c r =
      (i : ℕ) × (server : DnsUpstreamServerConfig SocketAddr) × (get_elem? (servers_of lb) i
        ≡ some (dns_server server))
      × (r ≡ message_of (send_to D W N M.dns_client server.addr query).0)

  -- By what the maps have under the name of the group.
  abbrev pub Forwarded :
      Manager D W J H V N
      → Message
      → Text
      → Option (LoadBalancer (Server D W J H V N))
      → Option UpstreamScheme
      → Option (ClientWithMiddleware Client)
      → Option (Result Message AppError × (Manager D W J H V N × Metrics))
      → Type 0
  Forwarded M query g o s c none = ⊥
  Forwarded M query g none s c (some (r, x)) = r ≡ err (upstream_group_not_found g)
  Forwarded M query g (some lb) none c (some (r, x)) = ⊥
  Forwarded M query g (some lb) (some s) c (some (r, x)) =
      ((is_empty (servers_of lb) ≡ true) × (r ≡ err no_upstream_available))
      ⊎ Answered M query lb s c r

  module _ (M : Manager D W J H V N) (g : Text) (lb : LoadBalancer (Server D W J H V N))
      (server : Server D W J H V N) where
    after_doh-result :
        (host : Text) (r : Result Message AppError) (m : Metrics)
        → (after_doh D W J H V N M g host lb server r m).0 ≡ r
    after_doh-result host (ok response) m = refl
    after_doh-result host (err e) m = refl

    after_dns-result :
        (c : _) (host : Text) (r : _) (m : Metrics)
        → (after_dns D W J H V N (record M { dns_client = c }) g host lb server r m).0
          ≡ message_of r
    after_dns-result c host (ok response) m = refl
    after_dns-result c host (err e) m = refl

    send_doh-result :
        (query : Message) (doh : DohUpstreamServerConfig Url) (host : Text) (c : _) (m : Metrics)
        (o : _)
        → o ≡ some c
        → (send_doh D W J H V N M query g lb server doh host o m).0
          ≡ send_query D W J H V c query doh
    send_doh-result query doh host c m o e =
        rw e (after_doh-result host (send_query D W J H V c query doh) m)

    forward_doh-result :
        (query : Message) (doh : DohUpstreamServerConfig Url) (c : _) (m : Metrics)
        → as_doh server ≡ some doh
        → get g M.group_clients ≡ some c
        → (forward_doh D W J H V N M query g lb server m).0 ≡ send_query D W J H V c query doh
    unfolding forward_doh
    forward_doh-result query doh c m e f =
        rw e (send_doh-result query doh _ c _ (get g M.group_clients) f)

    forward_dns-result :
        (query : Message) (dns : DnsUpstreamServerConfig SocketAddr) (m : Metrics)
        → as_dns server ≡ some dns
        → (forward_dns D W J H V N M query g lb server m).0
          ≡ message_of (send_to D W N M.dns_client dns.addr query).0
    unfolding forward_dns
    forward_dns-result query dns m e =
        rw e (after_dns-result _ _ (send_to D W N M.dns_client dns.addr query).0 m)

  module _ (M : Manager D W J H V N) (query : Message) (g : Text) (m : Metrics)
      (lb : LoadBalancer (Server D W J H V N)) where
    abbrev next : LoadBalancer (Server D W J H V N)
    next = (select_server weight choose lb).1

    abbrev swapped : Manager D W J H V N
    swapped = record M { groups = insert g next M.groups }

    -- The server at an index of a group has the kind that the scheme asks for.
    served :
        (scheme : UpstreamScheme) (o : Option (ClientWithMiddleware Client)) (i : ℕ)
        (server : Server D W J H V N)
        → get g M.group_clients ≡ o
        → Holds D W J H V N choose chooses (some lb) (some scheme) o
        → get_elem? (servers_of lb) i ≡ some server
        → Answered M query lb scheme o
            (forward_by D W J H V N scheme swapped query g next server m).0
    served UpstreamScheme.doh none i server c h f = absurd h
    served UpstreamScheme.doh (some client) i server c h f =
        let (d, e) = get_elem?-All (Fits UpstreamScheme.doh) (servers_of lb) i h.1 f in
        let p = as_doh-eq-some server d e in
        (i, d, f ∙ ap some p, forward_doh-result swapped g next server query d client m e c)
    served UpstreamScheme.dns o i server c h f =
        let (d, e) = get_elem?-All (Fits UpstreamScheme.dns) (servers_of lb) i h.1 f in
        let p = as_dns-eq-some server d e in
        (i, d, f ∙ ap some p, forward_dns-result swapped g next server query d m e)

    selected-Forwarded :
        (scheme : UpstreamScheme) (c : Option (ClientWithMiddleware Client))
        → get g M.group_clients ≡ c
        → Holds D W J H V N choose chooses (some lb) (some scheme) c
        → Forwarded M query g
            (some lb)
            (some scheme)
            c
            (selected D W J H V N scheme swapped query g next (select_server weight choose lb).0 m)
    selected-Forwarded scheme c e h =
        let s =
          select_server-Selects weight choose chooses lb
            (Holds-IsReady D W J H V N choose chooses lb scheme c h) in
        elim s.selected [
          | inl (none_left, p) ↦ rw p (inl (none_left, refl))
          | inr (i, server, f, p) ↦ rw p (inr (served scheme c i server e h f))
        ]

  with_group-Forwarded :
      (M : Manager D W J H V N) (query : Message) (g : Text) (m : Metrics) (o s c : _)
      → get g M.group_clients ≡ c
      → Holds D W J H V N choose chooses o s c
      → Forwarded M query g o s c (with_group D W J H V N choose M query g o s m)
  with_group-Forwarded M query g m none s c e h = refl
  with_group-Forwarded M query g m (some lb) none c e h = h
  with_group-Forwarded M query g m (some lb) (some scheme) c e h =
      selected-Forwarded M query g m lb scheme c e h

  -- A valid manager answers a query for a group that it does not have with `UpstreamGroupNotFound`,
  -- and for one that it has with what one of the servers of the group answered under the scheme of the
  -- group, unless the group is empty; no other error is made and nothing panics.
  pub forward-Forwarded :
      (M : Manager D W J H V N) (query : Message) (g : Text) (m : Metrics)
      → IsValid D W J H V N choose chooses M
      → Forwarded M query g
          (get g M.groups)
          (get g M.group_schemes)
          (get g M.group_clients)
          (forward D W J H V N choose M query g m)
  unfolding forward
  forward-Forwarded M query g m v =
      with_group-Forwarded M query g m (get g M.groups) (get g M.group_schemes)
        (get g M.group_clients) refl (v g)
