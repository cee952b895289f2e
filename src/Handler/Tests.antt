-- ===== src/Handler/Tests.antt =====
-- Tests of src/handler.rs, with an upstream that answers nothing but the query itself.
use load_ants.Router.Find.{try_exact_match}
use load_ants.Prelude.{none, true, sym, ap, ◌≡◌, refl, false, [], ◌∷◌}
use load_ants.Prelude.Assoc.{get}
use load_ants.Handler.{
  cache_response, add_queries, create_error_response, find_route_match, route_request, respond,
  resolve,
}
use load_ants.Router.Find.{find_match, try_exact_match}
use load_ants.Router.{RouteMatch}
use load_ants.Config.Rule.{block}
use load_ants.Prelude.Texts.{text_eq, pop, ends_with, make_ascii_lowercase, is_ascii, codes}
use load_ants.Errors.{ok_injective, Result, ok, err, AppError, internal}
use load_ants.Router.Tests.{toy, ant}
use load_ants.Proto.Toy.{toy_proto, toy_laws, ToyMessage}
use load_ants.Cache.{DnsCache}
use load_ants.Cache.Tests.{toy_moka, in_order, question}
use load_ants.Handler.{Upstream, RequestHandler, handle_request, validate_request, check_cache}
use load_ants.Handler.Response.{Answers, create_error_response-Answers}
use load_ants.Handler.Spec.{look_up, Handler, handled, Refused, handle_request-Refused}
use load_ants.Handler.Answer.{handle_request-blocked, Echoes}
use load_ants.Handler

abbrev pub echo : Upstream toy_proto
echo = record { Manager = Unit; forward_to = λ up query group m. (ok query, (up, m)) }

abbrev pub no_cache : DnsCache toy_proto toy_moka
no_cache = record { cache = []; size = 0; min_ttl = 60; negative_ttl = 300 }

abbrev pub handler : Handler toy_proto toy_moka in_order toy echo
handler = record { cache = no_cache; router = ant; upstream = tt }

abbrev ads : ToyMessage
ads = record question { queries = record { name = codes "ads.example.com."; of_type = 1 } ∷ [] }

abbrev statement : ToyMessage
statement = record question { asks = false }

not_a_query :
    (handled toy_proto toy_moka in_order toy echo handler statement 0 0 []).0
    ≡ err (internal (codes "Not a query request"))
unfolding handle_request validate_request
not_a_query = refl

handle_request-Refused_example :
    Refused toy_proto toy_moka in_order toy echo handler statement
    × ((handled toy_proto toy_moka in_order toy echo handler statement 0 0 []).1.0 ≡ handler)
handle_request-Refused_example =
    handle_request-Refused toy_proto toy_moka in_order toy echo handler statement 0 0 []
      (internal (codes "Not a query request")) not_a_query

create_error_response-Answers_example :
    Answers toy_proto toy_laws toy_moka in_order toy echo ads 3
      (Handler.create_error_response toy_proto toy_moka in_order toy echo ads 3)
create_error_response-Answers_example =
    create_error_response-Answers toy_proto toy_laws toy_moka in_order toy echo ads 3

pub echo-Echoes : Echoes toy_proto toy_laws toy_moka in_order toy echo
echo-Echoes = record { same_id = λ up query group m response e. same query response e }
  where
    same :
        (query response : ToyMessage)
        → ◌≡◌ {A = Result ToyMessage AppError} (ok query) (ok response)
        → response.id ≡ query.id
    same query response e = let p = ok_injective e in ap (λ k. k.id) (sym p)

abbrev refusal : ToyMessage
refusal = record {
  id = 7;
  asks = false;
  op = 0;
  desired = true;
  available = true;
  code = 3;
  queries = record { name = codes "ads.example.com."; of_type = 1 } ∷ [];
  answers = [];
  name_servers = [];
  additionals = [];
  cut = false;
}

abbrev ads_route : RouteMatch
ads_route = record {
  domain = codes "ads.example.com";
  action = block;
  target = none;
  rule_type = codes "exact";
  pattern = codes "ads.example.com";
}

-- What the handler computes with.
handling : Unit {0}
unfolding handle_request validate_request check_cache route_request find_route_match resolve respond
    create_error_response add_queries cache_response find_match try_exact_match get is_ascii
    make_ascii_lowercase ends_with pop text_eq
handling = tt

ads_missed :
    (look_up toy_proto toy_moka in_order toy echo handler
      (record { name = codes "ads.example.com."; of_type = 1 })
      ads
      0
      []).0
    ≡ none
unfolding handling
ads_missed = refl

ads_routed :
    (find_match toy ant
      (codes "ads.example.com.")
      (look_up toy_proto toy_moka in_order toy echo handler
        (record { name = codes "ads.example.com."; of_type = 1 })
        ads
        0
        []).1).0
    ≡ ok ads_route
unfolding handling
ads_routed = refl

handle_request-blocked_example :
    (response : ToyMessage) × ((handled toy_proto toy_moka in_order toy echo handler ads 0 0 []).0
      ≡ ok response)
    × Answers toy_proto toy_laws toy_moka in_order toy echo ads 3 response
    × ((handled toy_proto toy_moka in_order toy echo handler ads 0 0 []).1.0.upstream
        ≡ handler.upstream)
handle_request-blocked_example =
    handle_request-blocked toy_proto toy_laws toy_moka in_order toy echo handler ads 0 0 []
      (record { name = codes "ads.example.com."; of_type = 1 }) refl refl ads_missed ads_route
      ads_routed refl
