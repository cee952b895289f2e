-- ===== src/Config/Tests.antt =====
-- Tests of src/config/upstream.rs, where a socket address is a text.
use load_ants.Config.Default.{checking, default_config}
use load_ants.Config.Validate.{validate, validate_runtime_requirements}
use load_ants.Upstream.Toy.{toy_urls}
use load_ants.Prelude.Words.{has_pair, trim_end_matches}
use load_ants.Config.Sound.{validate_unique_group_names-Distinct, Distinct}
use load_ants.Config.Core.{default_server}
use load_ants.Router.{Router}
use load_ants.Upstream.Toy.{toy_urls}
use load_ants.Router.Tests.{toy}
use load_ants.Config.Rule.{regex, block, wildcard, RouteRuleConfig}
use load_ants.Config.Validate.{Config, validate_unique_group_names}
use load_ants.Config.Patterns.{
  validate_regexes, validate_route_rule_patterns-new, validate_wildcards,
  validate_route_rule_patterns,
}
use load_ants.Prelude.{true, ℕ, some, ◌↔◌, List, ◌≡◌, refl, [], ◌∷◌, none, All}
use load_ants.Prelude.Texts.{strip_prefix, text_eq, Text, codes}
use load_ants.Errors.{ok}
use load_ants.Router.Build
use load_ants.Config.Upstream.{
  UpstreamGroupConfig, UpstreamScheme, dns_server, random, validate_group_scheme, all_dns,
}
use load_ants.Config.Upstream.Groups.{Fits, Plain, validate_group_scheme-Fits}

abbrev resolvers : UpstreamGroupConfig Text Text
resolvers = record {
  name = codes "local";
  scheme = UpstreamScheme.dns;
  strategy = random;
  servers = dns_server (record { addr = codes "192.0.2.1:53"; weight = 1 }) ∷ [];
  retry = none;
  proxy = none;
}

resolvers_checked : validate_group_scheme resolvers ≡ ok tt
unfolding validate_group_scheme all_dns
resolvers_checked = refl

validate_group_scheme-Fits_example :
    All (Fits resolvers.scheme) resolvers.servers
    × Plain resolvers.scheme resolvers.retry resolvers.proxy
validate_group_scheme-Fits_example = validate_group_scheme-Fits resolvers resolvers_checked

abbrev wildcards : List RouteRuleConfig
wildcards =
    record {
      match_type = wildcard;
      patterns = codes "*.example.com." ∷ codes "*" ∷ [];
      action = block;
      target = none;
    }
    ∷ record { match_type = regex; patterns = codes "^ad$" ∷ []; action = block; target = none }
    ∷ []

-- What the check of the patterns computes with.
group_checking : Unit {0}
unfolding validate_route_rule_patterns validate_wildcards validate_regexes text_eq strip_prefix
    trim_end_matches has_pair
group_checking = tt

wildcards_checked : All (λ rule. validate_route_rule_patterns toy rule ≡ ok tt) wildcards
unfolding group_checking
wildcards_checked = (refl, (refl, tt))

validate_route_rule_patterns-new_example :
    (router : Router toy.Regex) × ((Build.new toy wildcards []).0 ≡ ok router)
validate_route_rule_patterns-new_example =
    validate_route_rule_patterns-new toy wildcards [] wildcards_checked

abbrev twice : Config toy_urls Text
twice = record {
  server = default_server;
  admin = none;
  cache = none;
  http_client = none;
  dns_client = none;
  upstream_groups = some (resolvers ∷ resolvers ∷ []);
  static_rules = none;
  remote_rules = [];
}

validate_unique_group_names-Distinct_example :
    validate_unique_group_names toy_urls Text twice ≡ ok tt
    ↔ Distinct (codes "local" ∷ codes "local" ∷ [])
validate_unique_group_names-Distinct_example =
    validate_unique_group_names-Distinct toy_urls Text twice

-- The default configuration, with toys for the parsers.
default_test :
    (validate toy_urls ℕ
        (λ t. true)
        (λ t. true)
        toy
        (default_config toy_urls ℕ (codes "dns.google"))
      ≡ ok tt)
    × (validate_runtime_requirements toy_urls ℕ (default_config toy_urls ℕ (codes "dns.google"))
        ≡ ok tt)
unfolding checking validate_runtime_requirements
default_test = (refl, refl)
