-- ===== src/Remote/Tests.antt =====
-- Tests of src/remote_rule, with a server that always gives the same list.
use load_ants.Prelude.{◌≡◌, ◌≤◌, refl, ◌++◌, true, List, [], ◌∷◌, none, some, All}
use load_ants.Prelude.Texts.{
  Text, codes, decimal, strip_prefix, trim, lines, split, text_eq, utf8_len,
}
use load_ants.Errors.{ok}
use load_ants.Config.Rule.{RouteRuleConfig, block, exact, wildcard, regex}
use load_ants.Http.{Http, HttpClientConfig, HttpResponse, is_success}
use load_ants.Remote.Parser.{ParsedRule, parse_v2ray, parse_lines, push_line, push_wildcard}
use load_ants.Remote.Loader.{
  RemoteRuleConfig, RemoteRuleLoader, v2ray, url_type, new_loader, create_http_client, load,
  route_rules, group_patterns, request_of,
}
use load_ants.Remote.Merge.{load_and_merge_rules, load_and_merge_rules_lem, all_rules}
use load_ants.Remote.Accepted.{Accepted, entries-route_rules, as_entries, all_of_type}
use load_ants.Remote.Load.{load-Accepted}
use load_ants.Router.Entries.{entries}
use load_ants.Router.Tests.{toy}

abbrev list_text : Text
list_text = codes "# ads\nfull: ads.example.com\nregexp:^track\\.\n\n example.org \n*\n"

abbrev toy_http : Http
toy_http = record {
  Client = Unit;
  Proxy = Text;
  proxy_all = λ url. ok url;
  build = λ b. ok tt;
  send = λ r. ok (record { status = 200; text = ok list_text; bytes = ok list_text });
  status_text = decimal;
}

abbrev client_config : HttpClientConfig
client_config = record {
  connect_timeout = 3;
  request_timeout = 5;
  idle_timeout = some 10;
  keepalive = some 30;
  agent = none;
}

abbrev source : RemoteRuleConfig
source = record {
  type = url_type;
  url = codes "https://example.com/list";
  auth = none;
  format = v2ray;
  action = block;
  target = none;
  retry = none;
  proxy = none;
  max_size = 1000;
}

abbrev loader : RemoteRuleLoader Unit
loader = record {
  client = record { client = tt; retry = none };
  config = source;
  parser = λ content. parse_v2ray content;
}

abbrev parsed : List ParsedRule
parsed =
    (codes "ads.example.com", exact)
    ∷ (codes "^track\\.", regex)
    ∷ (codes "*.example.org", wildcard)
    ∷ (codes "*", wildcard)
    ∷ []

abbrev loaded : List RouteRuleConfig
loaded =
    record {
      match_type = exact;
      patterns = codes "ads.example.com" ∷ [];
      action = block;
      target = none;
    }
    ∷ record {
      match_type = wildcard;
      patterns = codes "*.example.org" ∷ codes "*" ∷ [];
      action = block;
      target = none;
    }
    ∷ record {
      match_type = regex;
      patterns = codes "^track\\." ∷ [];
      action = block;
      target = none;
    }
    ∷ []

parse_test : parse_v2ray list_text ≡ ok parsed
unfolding parse_v2ray parse_lines push_line push_wildcard strip_prefix trim lines split text_eq
parse_test = refl

made_loader : new_loader toy_http source client_config ≡ ok loader
unfolding new_loader create_http_client
made_loader = refl

loaded_rules : load toy_http loader ≡ ok loaded
unfolding load route_rules group_patterns parse_v2ray parse_lines push_line push_wildcard
    strip_prefix trim lines split text_eq utf8_len
loaded_rules = refl

load-Accepted_example :
    (response : HttpResponse) × (content : Text) × (toy_http.send (request_of toy_http loader)
      ≡ ok response)
    × (is_success response.status ≡ true)
    × (response.text ≡ ok content)
    × (utf8_len content ≤ source.max_size)
    × All (Accepted toy) (entries loaded)
load-Accepted_example =
    load-Accepted toy toy_http source client_config loader loaded made_loader loaded_rules

entries-route_rules_example :
    entries (route_rules source parsed)
    ≡ (as_entries source exact (all_of_type exact parsed)
        ++ as_entries source wildcard (all_of_type wildcard parsed))
      ++ as_entries source regex (all_of_type regex parsed)
entries-route_rules_example = entries-route_rules source parsed

load_and_merge_rules_lem_example :
    load_and_merge_rules toy_http client_config (source ∷ []) []
    ≡ ok ([] ++ all_rules toy_http client_config (source ∷ []))
load_and_merge_rules_lem_example = load_and_merge_rules_lem toy_http client_config (source ∷ []) []
