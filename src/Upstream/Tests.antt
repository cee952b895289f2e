-- ===== src/Upstream/Tests.antt =====
-- Tests of src/upstream, with the toys.
use load_ants.Handler.Spec.{handled}
use load_ants.Upstream.HttpClient.{send_request, add_auth_to_request, create}
use load_ants.Prelude.{
  ℕ, ◌≡◌, refl, true, false, List, [], ◌∷◌, Option, none, some, first, is_empty, get_elem?, arith,
}
use load_ants.Prelude.Texts.{Text, codes, text_eq, trim, utf8_len, ends_with, pop}
use load_ants.Prelude.Assoc.{get, insert}
use load_ants.Prelude.Words.{has_pair}
use load_ants.Errors.{ok, try_fold}
use load_ants.Http.{ClientWithMiddleware}
use load_ants.Config.Core.{default_dns_client, default_http_client, default_server}
use load_ants.Config.Default.{checking}
use load_ants.Config.Rule.{wildcard, forward}
use load_ants.Config.Upstream.{
  all_dns, all_doh, UpstreamGroupConfig, UpstreamScheme, LoadBalancingStrategy, DohMethod,
  DohContentType, DohUpstreamServerConfig, doh_server, dns_server, validate_group_scheme,
}
use load_ants.Config.Validate.{forward_targets, contains_name, Config, validate}
use load_ants.Balancer.{LoadBalancer, new_round_robin}
use load_ants.Balancer.Select.{Chooses}
use load_ants.Proto.Toy.{toy_message, toy_proto, toy_laws, toy_wire, toy_wire_laws, ToyMessage}
use load_ants.Cache.Tests.{cache, toy_moka, in_order, question}
use load_ants.Router.Tests.{toy, ant}
use load_ants.Upstream.Toy.{toy_json, toy_web, toy_urls, toy_net}
use load_ants.Upstream.DnsClient.{DnsRequest, DnsClient, DnsTransport, udp, tcp, send_to, send_tcp}
use load_ants.Upstream.DnsClient
use load_ants.Upstream.DnsClient.Sends.{
  Sends, Tracks, send_to-Sends, send_tcp-Tracks, send_tcp-others,
}
use load_ants.Upstream.Json.Normalize.{
  normalize_txt_data, normalize_txt_data_lem, quote, remove_all_pairs, remove_pairs, unquote,
}
use load_ants.Upstream.Doh.{send_query, send_doh_request_post}
use load_ants.Upstream.Ids.{send_query-id}
use load_ants.Upstream.Manager.{UpstreamManager, new}
use load_ants.Upstream.Manager
use load_ants.Upstream.Manager.Forward.{Manager, Server}
use load_ants.Upstream.Manager.Forward
use load_ants.Upstream.Manager.Valid.{IsValid, new-IsValid}
use load_ants.Upstream.Manager.Answer.{Forwarded, forward-Forwarded}
use load_ants.Upstream.Service.{service, answered, Carries, forward-Carries}
use load_ants.Upstream.System.{System, start, request, Reach-new-IsValid}
use load_ants.Upstream.Validated.{Reaches, validate-Reaches}

abbrev Servers : Type 0
Servers = List (Server toy_proto toy_wire toy_json toy_web toy_urls toy_net)

abbrev pub pick : Servers → Option (Server toy_proto toy_wire toy_json toy_web toy_urls toy_net)
pick = first

pub pick-Chooses : Chooses pick
pick-Chooses = record { element = λ l e. some_first l e }
  where
    some_first :
        (l : Servers)
        → is_empty l ≡ false
        → (i : ℕ) × (s : _) × (pick l ≡ some s) × (get_elem? l i ≡ some s)
    some_first [] e = absurd (cc)
    some_first (s ∷ l) e = (0, s, refl, refl)

abbrev dns_client : DnsClient toy_proto toy_wire toy_net
dns_client = record { config = default_dns_client; opts = 3; tcp_conns = λ addr. none }

abbrev linked : DnsClient toy_proto toy_wire toy_net
linked = record dns_client { tcp_conns = λ addr. some udp }

-- The answer over UDP is truncated, so that over TCP is given.
fallback_test :
    (send_to toy_proto toy_wire toy_net dns_client 1 question).0
    ≡ ok (record {
      message = record question { asks = false };
      attempts =
          record { transport = udp; truncated = true }
          ∷ record { transport = tcp; truncated = false }
          ∷ [];
    })
unfolding send_to send_tcp DnsClient.send_udp DnsClient.connect DnsClient.send_with_conn
fallback_test = refl

send_to-Sends_example :
    Sends toy_proto toy_wire toy_net false
      (send_to toy_proto toy_wire toy_net dns_client 1 question).0
send_to-Sends_example = send_to-Sends toy_proto toy_wire toy_net dns_client 1 question

eq_refl : (n : ℕ) → toy_net.addr_eq n n ≡ true
eq_refl n = ground arith

send_tcp-Tracks_example :
    Tracks toy_proto toy_wire toy_net linked 0 question
      (send_tcp toy_proto toy_wire toy_net linked 0 question).0
      (send_tcp toy_proto toy_wire toy_net linked 0 question).1
send_tcp-Tracks_example = send_tcp-Tracks toy_proto toy_wire toy_net eq_refl linked 0 question

send_tcp-others_example :
    (send_tcp toy_proto toy_wire toy_net linked 0 question).1.tcp_conns 5 ≡ some udp
send_tcp-others_example = send_tcp-others toy_proto toy_wire toy_net linked 0 5 question refl

txt_test : normalize_txt_data (codes " \"a\"\"b\" ") ≡ codes "ab"
unfolding normalize_txt_data remove_all_pairs remove_pairs unquote has_pair trim utf8_len ends_with
    pop
txt_test = refl

normalize_txt_data_lem_example : has_pair quote (normalize_txt_data (codes "a\"\"\"\"b")) ≡ false
normalize_txt_data_lem_example = normalize_txt_data_lem (codes "a\"\"\"\"b")

abbrev web_server : DohUpstreamServerConfig Text
web_server = record {
  url = codes "https://dns.example/dns-query";
  weight = 1;
  method = DohMethod.post;
  content_type = DohContentType.message;
  auth = none;
}

abbrev web_client : ClientWithMiddleware Unit
web_client = record { client = tt; retry = none }

abbrev fetched : ToyMessage
fetched = record (toy_message 120) { id = 7 }

-- What the clients compute with.
clients : Unit {0}
unfolding send_query send_doh_request_post add_auth_to_request send_request
clients = tt

fetched_test :
    send_query toy_proto toy_wire toy_json toy_web toy_urls web_client question web_server
    ≡ ok fetched
unfolding clients
fetched_test = refl

send_query-id_example : fetched.id ≡ question.id
send_query-id_example =
    send_query-id toy_proto toy_wire toy_laws toy_wire_laws toy_json toy_web toy_urls web_client
      question fetched web_server fetched_test

abbrev home : UpstreamGroupConfig Text ℕ
home = record {
  name = codes "home";
  scheme = UpstreamScheme.dns;
  strategy = LoadBalancingStrategy.round_robin;
  servers = dns_server (record { addr = 1; weight = 1 }) ∷ [];
  retry = none;
  proxy = none;
}

abbrev web : UpstreamGroupConfig Text ℕ
web = record {
  name = codes "web";
  scheme = UpstreamScheme.doh;
  strategy = LoadBalancingStrategy.round_robin;
  servers = doh_server web_server ∷ [];
  retry = none;
  proxy = none;
}

abbrev pub groups : List (UpstreamGroupConfig Text ℕ)
groups = home ∷ web ∷ []

abbrev ToyManager : Type 0
ToyManager = Manager toy_proto toy_wire toy_json toy_web toy_urls toy_net

abbrev pub manager : ToyManager
manager = record {
  groups =
      (codes "home", LoadBalancer.round_robin (new_round_robin home.servers))
      ∷ (codes "web", LoadBalancer.round_robin (new_round_robin web.servers))
      ∷ [];
  group_schemes = (codes "home", UpstreamScheme.dns) ∷ (codes "web", UpstreamScheme.doh) ∷ [];
  group_clients = (codes "web", web_client) ∷ [];
  dns_client = dns_client;
}

-- What making a manager computes with.
making : Unit {0}
unfolding Manager.new try_fold Manager.add_group Manager.add_client Manager.new_balancer insert
    create DnsClient.new text_eq
making = tt

manager_made :
    Manager.new toy_proto toy_wire toy_json toy_web toy_urls toy_net groups default_http_client
      default_dns_client
    ≡ ok manager
unfolding making
manager_made = refl

home_fits : validate_group_scheme home ≡ ok tt
unfolding validate_group_scheme all_dns
home_fits = refl

web_fits : validate_group_scheme web ≡ ok tt
unfolding validate_group_scheme all_doh
web_fits = refl

manager-IsValid :
    IsValid toy_proto toy_wire toy_json toy_web toy_urls toy_net pick pick-Chooses manager
manager-IsValid =
    new-IsValid toy_proto toy_wire toy_json toy_web toy_urls toy_net pick pick-Chooses groups
      default_http_client default_dns_client manager (home_fits, (web_fits, tt)) manager_made

forward-Forwarded_example :
    Forwarded toy_proto toy_wire toy_json toy_web toy_urls toy_net pick pick-Chooses manager
      question
      (codes "web")
      (get (codes "web") manager.groups)
      (get (codes "web") manager.group_schemes)
      (get (codes "web") manager.group_clients)
      (Forward.forward toy_proto toy_wire toy_json toy_web toy_urls toy_net pick manager question
        (codes "web")
        [])
forward-Forwarded_example =
    forward-Forwarded toy_proto toy_wire toy_json toy_web toy_urls toy_net pick pick-Chooses manager
      question (codes "web") [] manager-IsValid

forward-Carries_example :
    Carries toy_proto toy_wire toy_laws toy_wire_laws toy_json toy_web toy_urls toy_net pick
      (get (codes "home") manager.group_schemes)
      question
      (answered toy_proto toy_wire toy_json toy_web toy_urls toy_net pick manager [] (
        Forward.forward toy_proto toy_wire toy_json toy_web toy_urls toy_net pick manager question
          (codes "home")
          [])).0
forward-Carries_example =
    forward-Carries toy_proto toy_wire toy_laws toy_wire_laws toy_json toy_web toy_urls toy_net pick
      manager question (codes "home") []

abbrev ToySystem : Type 0
ToySystem =
    System toy_proto toy_wire toy_json toy_web toy_urls toy_net pick pick-Chooses toy_moka in_order
      toy

abbrev system : ToySystem
system = record { cache = cache; router = ant; upstream = manager }

abbrev served : ToySystem
served =
    (handled toy_proto toy_moka in_order toy
      (service toy_proto toy_wire toy_json toy_web toy_urls toy_net pick) system question 0 0
      []).1.0

Reach-new-IsValid_example :
    IsValid toy_proto toy_wire toy_json toy_web toy_urls toy_net pick pick-Chooses served.upstream
Reach-new-IsValid_example =
    Reach-new-IsValid toy_proto toy_wire toy_json toy_web toy_urls toy_net pick pick-Chooses
      toy_moka in_order toy groups default_http_client default_dns_client system served
      (home_fits, (web_fits, tt)) manager_made (request question 0 0 [] start)

abbrev pub config : Config toy_urls ℕ
config = record {
  server = default_server;
  admin = none;
  cache = none;
  http_client = none;
  dns_client = none;
  upstream_groups = some groups;
  static_rules = some (
      record {
        match_type = wildcard;
        patterns = codes "*.example.com" ∷ codes "*" ∷ [];
        action = forward;
        target = some (codes "web");
      }
      ∷ []);
  remote_rules = [];
}

config_validated : validate toy_urls ℕ (λ t. true) (λ t. true) toy config ≡ ok tt
unfolding checking
config_validated = refl

web_known : contains_name (codes "web") (forward_targets toy_urls ℕ config) ≡ true
unfolding checking
web_known = refl

validate-Reaches_example :
    Reaches toy_proto toy_wire toy_json toy_web toy_urls toy_net pick pick-Chooses manager question
      (get (codes "web") manager.groups)
      (get (codes "web") manager.group_schemes)
      (get (codes "web") manager.group_clients)
      (Forward.forward toy_proto toy_wire toy_json toy_web toy_urls toy_net pick manager question
        (codes "web")
        [])
validate-Reaches_example =
    validate-Reaches toy_proto toy_wire toy_json toy_web toy_urls toy_net pick pick-Chooses
      (λ t. true) (λ t. true) toy config default_http_client default_dns_client manager
      (codes "web") question [] config_validated manager_made web_known
