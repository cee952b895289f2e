-- ===== src/Start/Tests.antt =====
-- A test of `create_components` of src/main.rs, with the toys of src/upstream.
use load_ants.Config.Default.{checking}
use load_ants.Config.Rule.{forward}
use load_ants.Config.Validate.{validate, validate_url, validate_rule_max_size, validate_remote_rule}
use load_ants.Router.Tests.{toy}
use load_ants.Cache.Tests.{in_order, toy_moka}
use load_ants.Upstream.Toy.{toy_net, toy_web, toy_json, toy_urls}
use load_ants.Config.Core.{AddrParser}
use load_ants.Proto.Toy.{toy_wire, toy_proto}
use load_ants.Prelude.{true, ℕ, ◌≡◌, refl, [], ◌∷◌, none, some, length}
use load_ants.Prelude.Texts.{Text, codes}
use load_ants.Errors.{Result, ok, err}
use load_ants.Upstream.Tests.{config, pick, pick-Chooses}
use load_ants.Remote.Loader.{v2ray, url_type}
use load_ants.Start.Sound.{create_components-Starts, Starts, addrs}
use load_ants.Start.{Config, create_components}

-- Every text that is not empty is an address.
abbrev toy_parse : Text → Result ℕ Text
toy_parse [] = err (codes "invalid socket address syntax")
toy_parse (c ∷ text) = ok (length text)

abbrev toy_addrs : AddrParser
toy_addrs =
    addrs toy_proto toy_wire toy_json toy_web toy_urls toy_net pick pick-Chooses toy_moka in_order
      toy toy_parse

abbrev starting : Config toy_urls ℕ
starting = record config {
  remote_rules =
      record {
        type = url_type;
        url = codes "https://example.com/list";
        format = v2ray;
        action = forward;
        target = some (codes "home");
        proxy = none;
        retry = none;
        auth = none;
        max_size = 1048576;
      }
      ∷ [];
}

starting_validated : validate toy_urls ℕ toy_addrs (λ t. true) toy starting ≡ ok tt
unfolding checking validate_remote_rule validate_rule_max_size validate_url
starting_validated = refl

create_components-Starts_example :
    Starts toy_proto toy_wire toy_json toy_web toy_urls toy_net pick pick-Chooses toy_moka in_order
      toy toy_parse starting
      (create_components toy_proto toy_wire toy_json toy_web toy_urls toy_net pick pick-Chooses
        toy_moka in_order toy toy_parse starting []).0
create_components-Starts_example =
    create_components-Starts toy_proto toy_wire toy_json toy_web toy_urls toy_net pick pick-Chooses
      toy_moka in_order toy toy_parse (λ t. true) starting [] refl refl starting_validated
