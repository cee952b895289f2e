-- ===== src/Upstream/Manager/Forward.antt =====
-- `UpstreamManager::forward` of src/upstream/manager.rs. The generator of the random balancers is a
-- parameter.
use load_ants.Prelude.{List, [], ◌∷◌, Option, none, some, last}
use load_ants.Prelude.Texts.{Text, codes}
use load_ants.Prelude.Assoc.{get, insert}
use load_ants.Prelude.Maybe.{unwrap_or}
use load_ants.Errors.{Result, ok, err, AppError, upstream_group_not_found, upstream}
use load_ants.Metrics.{
  Metrics, ◌▸◌, inc, timed, upstream_requests_total, upstream_errors_total,
  upstream_duration_seconds,
}
use load_ants.Config.Upstream.{
  DnsUpstreamServerConfig, DohUpstreamServerConfig, UpstreamScheme, weight, as_doh, as_dns,
}
use load_ants.Balancer.{LoadBalancer, select_server, report_failure}
use load_ants.Http.{ClientWithMiddleware, Http}
use load_ants.Upstream.DnsClient.{
  Connector, DnsClient, DnsClientAttempt, DnsTransport, udp, tcp, send_to,
}
use load_ants.Upstream.DnsClient
use load_ants.Upstream.Doh.{Urls, send_query}
use load_ants.Upstream.Json.{Json}
use load_ants.Proto.{Proto}
use load_ants.Proto.Wire.{Wire}
use load_ants.Upstream.Manager.{UpstreamManager, ServerConfig}

-- `upstream_protocol_labels`, and `upstream_transport_labels` of an attempt
abbrev pub protocol_label : UpstreamScheme → Text
protocol_label UpstreamScheme.doh = codes "doh"
protocol_label UpstreamScheme.dns = codes "dns"

abbrev pub transport_label : DnsTransport → Text
transport_label udp = codes "udp"
transport_label tcp = codes "tcp"

-- The transport that stands for a selection that failed.
abbrev select_transport : UpstreamScheme → Text
select_transport UpstreamScheme.doh = codes "http"
select_transport UpstreamScheme.dns = codes "unknown"

-- The loop over the attempts: each is counted and timed.
unfoldable pub record_attempts : Text → Text → List DnsClientAttempt → Metrics → Metrics
record_attempts group host [] m = m
record_attempts group host (attempt ∷ attempts) m =
    let labels : List Text = codes "dns" ∷ transport_label attempt.transport ∷ group ∷ host ∷ [] in
    record_attempts group host attempts
      (m ▸ inc upstream_requests_total labels ▸ timed upstream_duration_seconds labels)

-- The error is that of the last attempt.
abbrev pub record_error : Text → Text → Option DnsClientAttempt → Metrics → Metrics
record_error group host none m = m
record_error group host (some attempt) m =
    m
    ▸ inc upstream_errors_total (
        codes "dns" ∷ transport_label attempt.transport ∷ codes "request_error" ∷ group ∷ host ∷ [])

module _ (D : Proto) (W : Wire D) (J : Json) (H : Http) (V : Urls) (N : Connector D) where
  open D use {Message}
  open H use {Client}
  open V use {Url, host_str}
  open N use {SocketAddr, ip_text}

  abbrev pub Manager : Type 0
  Manager = UpstreamManager D W J H V N

  abbrev pub Server : Type 0
  Server = ServerConfig D W J H V N

  abbrev invalid_server : AppError
  invalid_server = upstream (codes "Invalid upstream server type for this group")

  abbrev doh_labels : Text → Text → List Text
  doh_labels group host = codes "doh" ∷ codes "http" ∷ group ∷ host ∷ []

  -- What the answer of a DoH server does to the metrics and to the balancer.
  abbrev pub after_doh :
      Manager
      → Text
      → Text
      → LoadBalancer Server
      → Server
      → Result Message AppError
      → Metrics
      → Result Message AppError × (Manager × Metrics)
  after_doh M group host lb server (ok response) m =
      (ok response, (M, m ▸ timed upstream_duration_seconds (doh_labels group host)))
  after_doh M group host lb server (err e) m = (
    err e,
    (
      record M { groups = insert group (report_failure lb server) M.groups },
      m
          ▸ inc upstream_errors_total
              (codes "doh" ∷ codes "http" ∷ codes "request_error" ∷ group ∷ host ∷ []),
    ),
  )

  -- The request, once the client of the group is looked up.
  abbrev pub send_doh :
      Manager
      → Message
      → Text
      → LoadBalancer Server
      → Server
      → DohUpstreamServerConfig Url
      → Text
      → Option (ClientWithMiddleware Client)
      → Metrics
      → Result Message AppError × (Manager × Metrics)
  send_doh M query group lb selected server host none m =
      (err (upstream_group_not_found group), (M, m))
  send_doh M query group lb selected server host (some client) m =
      after_doh M group host lb selected (send_query D W J H V client query server) m

  abbrev pub with_doh :
      Manager
      → Message
      → Text
      → LoadBalancer Server
      → Server
      → Option (DohUpstreamServerConfig Url)
      → Metrics
      → Result Message AppError × (Manager × Metrics)
  with_doh M query group lb selected none m = (err invalid_server, (M, m))
  with_doh M query group lb selected (some server) m =
      let host = unwrap_or (codes "unknown") (host_str server.url) in
      send_doh M query group lb selected server host (get group M.group_clients)
        (m ▸ inc upstream_requests_total (doh_labels group host))

  unfoldable pub forward_doh :
      Manager
      → Message
      → Text
      → LoadBalancer Server
      → Server
      → Metrics
      → Result Message AppError × (Manager × Metrics)
  forward_doh M query group lb selected m = with_doh M query group lb selected (as_doh selected) m

  -- What the answer of a DNS server does.
  abbrev pub after_dns :
      Manager
      → Text
      → Text
      → LoadBalancer Server
      → Server
      → Result (DnsClient.DnsClientResponse Message) DnsClient.DnsClientSendError
      → Metrics
      → Result Message AppError × (Manager × Metrics)
  after_dns M group host lb server (ok response) m =
      (ok response.message, (M, record_attempts group host response.attempts m))
  after_dns M group host lb server (err e) m = (
    err e.error,
    (
      record M { groups = insert group (report_failure lb server) M.groups },
      record_error group host (last e.attempts) (record_attempts group host e.attempts m),
    ),
  )

  abbrev pub with_dns :
      Manager
      → Message
      → Text
      → LoadBalancer Server
      → Server
      → Option (DnsUpstreamServerConfig SocketAddr)
      → Metrics
      → Result Message AppError × (Manager × Metrics)
  with_dns M query group lb selected none m = (err invalid_server, (M, m))
  with_dns M query group lb selected (some server) m =
      let (result, client) = send_to D W N M.dns_client server.addr query in
      after_dns (record M { dns_client = client }) group (ip_text server.addr) lb selected result m

  unfoldable pub forward_dns :
      Manager
      → Message
      → Text
      → LoadBalancer Server
      → Server
      → Metrics
      → Result Message AppError × (Manager × Metrics)
  forward_dns M query group lb selected m = with_dns M query group lb selected (as_dns selected) m

  abbrev pub forward_by :
      UpstreamScheme
      → Manager
      → Message
      → Text
      → LoadBalancer Server
      → Server
      → Metrics
      → Result Message AppError × (Manager × Metrics)
  forward_by UpstreamScheme.doh = forward_doh
  forward_by UpstreamScheme.dns = forward_dns

  -- After the selection of a server; a selection that panics ends the request with no answer.
  abbrev pub selected :
      UpstreamScheme
      → Manager
      → Message
      → Text
      → LoadBalancer Server
      → Option (Result Server AppError)
      → Metrics
      → Option (Result Message AppError × (Manager × Metrics))
  selected scheme M query group lb none m = none
  selected scheme M query group lb (some (err e)) m = some (
    err e,
    (
      M,
      m
          ▸ inc upstream_errors_total (
              protocol_label scheme
              ∷ select_transport scheme
              ∷ codes "select_error"
              ∷ group
              ∷ codes "unknown"
              ∷ []),
    ),
  )
  selected scheme M query group lb (some (ok server)) m =
      some (forward_by scheme M query group lb server m)

  module _ (choose : List Server → Option Server) where
    -- With what the maps have under the name of the group.
    abbrev pub with_group :
        Manager
        → Message
        → Text
        → Option (LoadBalancer Server)
        → Option UpstreamScheme
        → Metrics
        → Option (Result Message AppError × (Manager × Metrics))
    with_group M query group none scheme m = some (err (upstream_group_not_found group), (M, m))
    with_group M query group (some lb) none m = some (err (upstream_group_not_found group), (M, m))
    with_group M query group (some lb) (some scheme) m =
        let (r, next) = select_server weight choose lb in
        selected scheme (record M { groups = insert group next M.groups }) query group next r m

    -- `UpstreamManager::forward`
    unfoldable pub forward :
        Manager → Message → Text → Metrics → Option (Result Message AppError × (Manager × Metrics))
    forward M query group m =
        with_group M query group (get group M.groups) (get group M.group_schemes) m
