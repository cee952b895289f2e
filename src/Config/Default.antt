-- ===== src/Config/Default.antt =====
-- `Config::default` of src/config/mod.rs. Its DoH URL is a parameter, what the crate `url` makes of
-- https://dns.google/dns-query.
use load_ants.Prelude.Words.{trim_end_matches, has_pair}
use load_ants.Config.Patterns.{
  validate_route_rule_patterns, validate_wildcards, validate_patterns_not_empty,
}
use load_ants.Prelude.{[], ◌∷◌, none, some}
use load_ants.Prelude.Texts.{strip_prefix, text_eq, codes}
use load_ants.Config.Core.{
  validate_keepalive, validate_idle_timeout, validate_dns_client, validate_optional_fields,
  validate_http_client, validate_cache_ttl, validate_cache, validate_admin, validate_socket_addr,
  validate_server, default_server, default_admin, default_cache, default_http_client,
  default_dns_client,
}
use load_ants.Config.Rule.{wildcard, forward}
use load_ants.Config.Upstream.{
  all_doh, all_dns, validate_group_scheme, validate_weight, validate_servers_not_empty,
  UpstreamGroupConfig, UpstreamScheme, LoadBalancingStrategy, DohMethod, DohContentType, doh_server,
}
use load_ants.Config.Validate.{
  validate_retry, validate_unique_group_names, validate_group_references, unique_names,
  targets_exist, remote_targets, static_targets, forward_targets, validate_forward_target,
  validate_route_rule, validate_url_path, validate_url_host, validate_url_scheme,
  validate_upstream_server, validate_group, messages, Config, validate,
  validate_runtime_requirements,
}
use load_ants.Upstream.Doh.{Urls}

-- What the check of a configuration computes with.
unfoldable pub checking : Unit {0}
unfolding validate messages validate_server validate_socket_addr validate_group
    validate_servers_not_empty validate_upstream_server validate_weight validate_group_scheme
    all_dns validate_url_scheme text_eq validate_url_host validate_url_path all_doh
    validate_route_rule validate_patterns_not_empty validate_forward_target validate_wildcards
    forward_targets static_targets remote_targets targets_exist unique_names
    validate_group_references validate_route_rule_patterns validate_unique_group_names strip_prefix
    has_pair trim_end_matches validate_runtime_requirements validate_admin validate_cache
    validate_cache_ttl validate_http_client validate_optional_fields validate_dns_client
    validate_retry validate_idle_timeout validate_keepalive
checking = tt

module _ (V : Urls) (SocketAddr : Type 0) (url : V.Url) where
  abbrev pub default_group : UpstreamGroupConfig V.Url SocketAddr
  default_group = record {
    name = codes "default";
    scheme = UpstreamScheme.doh;
    strategy = LoadBalancingStrategy.round_robin;
    servers =
        doh_server (record {
          url = url;
          weight = 1;
          method = DohMethod.post;
          content_type = DohContentType.message;
          auth = none;
        })
        ∷ [];
    retry = some (record { attempts = 3; delay = 2 });
    proxy = none;
  }

  -- `Config::default`
  abbrev pub default_config : Config V SocketAddr
  default_config = record {
    server = default_server;
    admin = some default_admin;
    cache = some default_cache;
    http_client = some default_http_client;
    dns_client = some default_dns_client;
    upstream_groups = some (default_group ∷ []);
    static_rules = some (
        record {
          match_type = wildcard;
          patterns = codes "*" ∷ [];
          action = forward;
          target = some (codes "default");
        }
        ∷ []);
    remote_rules = [];
  }
