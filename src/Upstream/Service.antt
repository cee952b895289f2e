-- ===== src/Upstream/Service.antt =====
-- The upstream manager of src/upstream/manager.rs behind the interface that the request handler of
-- src/handler.rs uses.
use mathlib.Core.Bool.{true, false}
use load_ants.Prelude.{not, [], arith, if◌then◌else◌, Bool, ◌≡◌, refl, List, Option, none, some}
use load_ants.Prelude.Texts.{Text, codes}
use load_ants.Prelude.Assoc.{get}
use load_ants.Errors.{Result, ok, err, AppError, internal, >>=-eq-ok}
use load_ants.Metrics.{Metrics}
use load_ants.Balancer.{select_server}
use load_ants.Http.{Http}
use load_ants.Config.Upstream.{weight, as_doh, as_dns, UpstreamScheme}
use load_ants.Upstream.DnsClient.{
  udp, tcp, connect, DnsClientSendError, first_answer, with_conn, over_tcp, connected, attempted,
  after_udp, DnsClientResponse, Connector, DnsClient, DnsRequest, DnsTransport, send_with_conn,
  send_udp, send_tcp, send_to,
}
use load_ants.Upstream.Doh.{Urls, send_query}
use load_ants.Upstream.Json.{Json}
use load_ants.Upstream.Ids.{send_query-id}
use load_ants.Upstream.Manager.Forward.{
  selected, forward_dns, after_doh, send_doh, with_doh, with_dns, with_group, after_dns,
  forward_doh, Manager, Server, forward,
}
use load_ants.Handler.{Upstream}
use load_ants.Proto.{Proto, ProtoLaws}
use load_ants.Proto.Wire.{Wire, WireLaws}

module _ (D : Proto) (W : Wire D) (J : Json) (H : Http) (V : Urls) (N : Connector D)
    (choose : List (Server D W J H V N) → Option (Server D W J H V N)) where
  open D use {Message, id}

  -- A panic ends the task of the request, which is then not answered with a message.
  abbrev pub answered :
      Manager D W J H V N
      → Metrics
      → Option (Result Message AppError × (Manager D W J H V N × Metrics))
      → Result Message AppError × (Manager D W J H V N × Metrics)
  answered M m none = (err (internal (codes "panic")), (M, m))
  answered M m (some out) = out

  abbrev pub service : Upstream D
  service = record {
    Manager = Manager D W J H V N;
    forward_to = λ M query group m. answered M m (forward D W J H V N choose M query group m);
  }

module _ (D : Proto) (W : Wire D) (laws : ProtoLaws D) (more : WireLaws D W) (J : Json) (H : Http)
    (V : Urls) (N : Connector D) where
  open D use {Message, id}
  open N use {SocketAddr, Connection}

  -- The message is what a connection answered a request for the query with.
  abbrev pub Replied : Message → Message → Type 0
  Replied query m =
      (conn : Connection) × (request : DnsRequest Message) × (request.message ≡ query)
      × (N.send conn request ≡ some (ok m))

  first_answer-eq-ok :
      (o : Option (Result Message Text)) (m : Message)
      → first_answer D W N o ≡ ok m
      → o ≡ some (ok m)
  first_answer-eq-ok none m e = cc
  first_answer-eq-ok (some (ok n)) m e = grind arith
  first_answer-eq-ok (some (err x)) m e = cc

  send_with_conn-Replied :
      (conn : Connection) (query m : Message)
      → send_with_conn D W N conn query ≡ ok m
      → Replied query m
  unfolding send_with_conn
  send_with_conn-Replied conn query m e = (conn, _, refl, first_answer-eq-ok _ m e)

  send_udp-Replied :
      (c : DnsClient D W N) (addr : SocketAddr) (query m : Message)
      → send_udp D W N c addr query ≡ ok m
      → Replied query m
  unfolding send_udp
  send_udp-Replied c addr query m e =
      let (conn, p, q) = >>=-eq-ok _ (λ k. send_with_conn D W N k query) e in
      send_with_conn-Replied conn query m q

  connected-Replied :
      (c : DnsClient D W N) (addr : SocketAddr) (query m : Message) (r : Result Connection AppError)
      → (connected D W N c addr query r).0 ≡ ok m
      → Replied query m
  connected-Replied c addr query m (err x) e = cc
  connected-Replied c addr query m (ok conn) e = send_with_conn-Replied conn query m e

  with_conn-Replied :
      (c : DnsClient D W N) (addr : SocketAddr) (query m : Message) (o : Option Connection)
      → (with_conn D W N c addr query o).0 ≡ ok m
      → Replied query m
  with_conn-Replied c addr query m (some conn) e = send_with_conn-Replied conn query m e
  with_conn-Replied c addr query m none e =
      connected-Replied c addr query m (connect D W N c addr tcp) e

  -- What an attempt gives is what a connection answered.
  abbrev Same : Message → Result (DnsClientResponse Message) DnsClientSendError → Type 0
  Same query (ok r) = Replied query r.message
  Same query (err e) = Unit

  attempted-Same :
      (query : Message) (t : DnsTransport) (attempts : _) (r : Result Message AppError)
      → ((m : Message) → r ≡ ok m → Replied query m)
      → Same query (attempted D W N t attempts r)
  attempted-Same query t attempts (ok m) h = h m refl
  attempted-Same query t attempts (err e) h = tt

  over_tcp-Same :
      (c : DnsClient D W N) (addr : SocketAddr) (query : Message) (attempts : _)
      → Same query (over_tcp D W N c addr query attempts).0
  unfolding send_tcp
  over_tcp-Same c addr query attempts =
      attempted-Same query tcp attempts (send_tcp D W N c addr query).0
        (λ m e. with_conn-Replied c addr query m (c.tcp_conns addr) e)

  untruncated-Same :
      (b : Bool) (c : DnsClient D W N) (addr : SocketAddr) (query : Message)
      (r : DnsClientResponse Message)
      → Replied query r.message
      → Same query (if not b then (ok r, c) else over_tcp D W N c addr query r.attempts).0
  untruncated-Same true c addr query r h = over_tcp-Same c addr query r.attempts
  untruncated-Same false c addr query r h = h

  after_udp-Same :
      (c : DnsClient D W N) (addr : SocketAddr) (query : Message) (r : _)
      → Same query r
      → Same query (after_udp D W N c addr query r).0
  after_udp-Same c addr query (ok r) h = untruncated-Same (D.truncated r.message) c addr query r h
  after_udp-Same c addr query (err e) h = tt

  by_transport-Same :
      (prefer : Bool) (c : DnsClient D W N) (addr : SocketAddr) (query : Message)
      → Same query
          (if prefer
            then over_tcp D W N c addr query []
            else after_udp D W N c addr query
                (attempted D W N udp [] (send_udp D W N c addr query))).0
  by_transport-Same true c addr query = over_tcp-Same c addr query []
  by_transport-Same false c addr query =
      after_udp-Same c addr query _
        (attempted-Same query udp [] (send_udp D W N c addr query) (send_udp-Replied c addr query))

  send_to-Same :
      (c : DnsClient D W N) (addr : SocketAddr) (query : Message)
      → Same query (send_to D W N c addr query).0
  unfolding send_to
  send_to-Same c addr query = by_transport-Same c.config.prefer_tcp c addr query

  module _ (choose : List (Server D W J H V N) → Option (Server D W J H V N)) where
    abbrev Out : Type 0
    Out = Result Message AppError × (Manager D W J H V N × Metrics)

    -- A message that a group of DoH servers is answered with carries the id of the query. One of a
    -- group of DNS servers is what a connection answered, as it was.
    abbrev pub Carries : Option UpstreamScheme → Message → Result Message AppError → Type 0
    Carries (some UpstreamScheme.doh) query (ok m) = id m ≡ id query
    Carries (some UpstreamScheme.dns) query (ok m) = Replied query m
    Carries none query (ok m) = ⊥
    Carries _ query (err e) = Unit

    after_doh-Carries :
        (M : _) (query : Message) (g host : Text) (lb : _) (server : _)
        (r : Result Message AppError) (m : Metrics)
        → ((n : Message) → r ≡ ok n → id n ≡ id query)
        → Carries (some UpstreamScheme.doh) query (after_doh D W J H V N M g host lb server r m).0
    after_doh-Carries M query g host lb server (ok n) m h = h n refl
    after_doh-Carries M query g host lb server (err e) m h = tt

    send_doh-Carries :
        (M : _) (query : Message) (g host : Text) (lb : _) (server : _) (doh : _) (o : _)
        (m : Metrics)
        → Carries
            (some UpstreamScheme.doh)
            query
            (send_doh D W J H V N M query g lb server doh host o m).0
    send_doh-Carries M query g host lb server doh none m = tt
    send_doh-Carries M query g host lb server doh (some c) m =
        after_doh-Carries M query g host lb server (send_query D W J H V c query doh) m
          (λ n e. send_query-id D W laws more J H V c query n doh e)

    with_doh-Carries :
        (M : _) (query : Message) (g : Text) (lb : _) (server : _) (o : _) (m : Metrics)
        → Carries (some UpstreamScheme.doh) query (with_doh D W J H V N M query g lb server o m).0
    with_doh-Carries M query g lb server none m = tt
    with_doh-Carries M query g lb server (some doh) m =
        send_doh-Carries M query g _ lb server doh (get g M.group_clients) _

    after_dns-Carries :
        (M : _) (query : Message) (g host : Text) (lb : _) (server : _) (r : _) (m : Metrics)
        → Same query r
        → Carries (some UpstreamScheme.dns) query (after_dns D W J H V N M g host lb server r m).0
    after_dns-Carries M query g host lb server (ok r) m h = h
    after_dns-Carries M query g host lb server (err e) m h = tt

    with_dns-Carries :
        (M : _) (query : Message) (g : Text) (lb : _) (server : _) (o : _) (m : Metrics)
        → Carries (some UpstreamScheme.dns) query (with_dns D W J H V N M query g lb server o m).0
    with_dns-Carries M query g lb server none m = tt
    with_dns-Carries M query g lb server (some dns) m =
        after_dns-Carries _ query g _ lb server (send_to D W N M.dns_client dns.addr query).0 m
          (send_to-Same M.dns_client dns.addr query)

    selected-Carries :
        (scheme : UpstreamScheme) (M next : _) (query : Message) (g : Text) (lb : _) (o : _)
        (m : Metrics)
        → Carries
            (some scheme)
            query
            (answered D W J H V N choose next m (selected D W J H V N scheme M query g lb o m)).0
    unfolding forward_doh forward_dns
    selected-Carries scheme M next query g lb none m = tt
    selected-Carries scheme M next query g lb (some (err e)) m = tt
    selected-Carries UpstreamScheme.doh M next query g lb (some (ok server)) m =
        with_doh-Carries M query g lb server (as_doh server) m
    selected-Carries UpstreamScheme.dns M next query g lb (some (ok server)) m =
        with_dns-Carries M query g lb server (as_dns server) m

    with_group-Carries :
        (M : _) (query : Message) (g : Text) (o : _) (s : Option UpstreamScheme) (m : Metrics)
        → Carries s query
            (answered D W J H V N choose M m (with_group D W J H V N choose M query g o s m)).0
    with_group-Carries M query g none s m = tt
    with_group-Carries M query g (some lb) none m = tt
    with_group-Carries M query g (some lb) (some scheme) m =
        selected-Carries scheme _ M query g _ (select_server weight choose lb).0 m

    -- Every message that the manager answers a query for a group with carries the id of the query if
    -- the servers of the group are reached over DoH, and is unchanged what a connection replied to the
    -- query if they are reached over UDP or TCP; there is none for a group without a scheme.
    pub forward-Carries :
        (M : Manager D W J H V N) (query : Message) (g : Text) (m : Metrics)
        → Carries
            (get g M.group_schemes)
            query
            (answered D W J H V N choose M m (forward D W J H V N choose M query g m)).0
    unfolding forward
    forward-Carries M query g m =
        with_group-Carries M query g (get g M.groups) (get g M.group_schemes) m
