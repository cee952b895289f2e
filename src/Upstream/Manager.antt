-- ===== src/Upstream/Manager.antt =====
-- src/upstream/manager.rs: the state of the manager, and how it is made of the groups. The maps by the
-- name of a group are association lists. What is logged is left out.
pub mod Forward
pub mod Valid
pub mod Answer
use load_ants.Prelude.{List, [], ◌∷◌, Option, none, some, last}
use load_ants.Prelude.Texts.{Text, codes}
use load_ants.Prelude.Assoc.{Assoc, get, insert}
use load_ants.Errors.{
  Result, ok, err, ◌>>=◌, AppError, upstream_group_not_found, upstream, try_fold,
}
use load_ants.Metrics.{
  Metrics, ◌▸◌, inc, timed, upstream_requests_total, upstream_errors_total,
  upstream_duration_seconds,
}
use load_ants.Config.Upstream.{
  UpstreamScheme, LoadBalancingStrategy, UpstreamServerConfig, UpstreamGroupConfig, weight, as_doh,
  as_dns,
}
use load_ants.Config.Core.{DnsClientConfig, default_dns_client}
use load_ants.Balancer.{LoadBalancer, new_round_robin, new_weighted, select_server, report_failure}
use load_ants.Http.{Http, HttpClientConfig, ClientWithMiddleware}
use load_ants.Upstream.HttpClient.{create}
use load_ants.Upstream.DnsClient.{
  Connector, DnsClient, DnsClientAttempt, DnsTransport, udp, tcp, send_to,
}
use load_ants.Upstream.DnsClient
use load_ants.Upstream.Doh.{Urls, send_query}
use load_ants.Upstream.Json.{Json}
use load_ants.Proto.{Proto}
use load_ants.Proto.Wire.{Wire}

module _ (D : Proto) (W : Wire D) (J : Json) (H : Http) (V : Urls) (N : Connector D) where
  open D use {Message}
  open H use {Client}
  open V use {Url, host_str}
  open N use {SocketAddr, ip_text}

  abbrev pub ServerConfig : Type 0
  ServerConfig = UpstreamServerConfig Url SocketAddr

  pub record UpstreamManager : Type 0 where
    pub groups : Assoc (LoadBalancer ServerConfig)
    pub group_schemes : Assoc UpstreamScheme
    pub group_clients : Assoc (ClientWithMiddleware Client)
    pub dns_client : DnsClient D W N

  -- The balancer of a strategy.
  unfoldable pub new_balancer :
      LoadBalancingStrategy → List ServerConfig → LoadBalancer ServerConfig
  new_balancer LoadBalancingStrategy.round_robin servers =
      LoadBalancer.round_robin (new_round_robin servers)
  new_balancer LoadBalancingStrategy.weighted servers =
      LoadBalancer.weighted (new_weighted weight servers)
  new_balancer LoadBalancingStrategy.random servers =
      LoadBalancer.random (record { servers = servers })

  -- Only a group of DoH servers is given a client.
  unfoldable pub add_client :
      UpstreamScheme
      → HttpClientConfig
      → UpstreamGroupConfig Url SocketAddr
      → Assoc (ClientWithMiddleware Client)
      → Result (Assoc (ClientWithMiddleware Client)) AppError
  add_client UpstreamScheme.doh http_config group clients =
      create H http_config group.proxy group.retry >>= λ client.
      ok (insert group.name client clients)
  add_client UpstreamScheme.dns http_config group clients = ok clients

  -- One round of the loop over the groups.
  unfoldable pub add_group :
      HttpClientConfig
      → UpstreamManager
      → UpstreamGroupConfig Url SocketAddr
      → Result UpstreamManager AppError
  add_group http_config M group =
      add_client group.scheme http_config group M.group_clients >>= λ clients. ok (record M {
        groups = insert group.name (new_balancer group.strategy group.servers) M.groups;
        group_schemes = insert group.name group.scheme M.group_schemes;
        group_clients = clients;
      })

  abbrev pub no_manager : DnsClientConfig → UpstreamManager
  no_manager dns_config = record {
    groups = [];
    group_schemes = [];
    group_clients = [];
    dns_client = DnsClient.new D W N dns_config;
  }

  -- `UpstreamManager::new`
  unfoldable pub new :
      List (UpstreamGroupConfig Url SocketAddr)
      → HttpClientConfig
      → DnsClientConfig
      → Result UpstreamManager AppError
  new groups http_config dns_config =
      try_fold (add_group http_config) (no_manager dns_config) groups

  -- `UpstreamManager::empty`
  abbrev pub empty : Result UpstreamManager AppError
  empty = ok (no_manager default_dns_client)
