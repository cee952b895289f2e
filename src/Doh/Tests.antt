-- ===== src/Doh/Tests.antt =====
-- Tests of src/doh, with the toys and an upstream that answers with the query.
use load_ants.Prelude.{◌≡◌, refl, List, [], ◌∷◌, none, some, arith}
use load_ants.Prelude.Texts.{Text, codes}
use load_ants.Prelude.Words.{value_from-decimal, decimal-IsWord, is_empty-decimal}
use load_ants.Proto.Wire.{mx_data}
use load_ants.Proto.Toy.{toy_proto, toy_wire, ToyRecord}
use load_ants.Cache.Tests.{toy_moka, in_order}
use load_ants.Router.Tests.{toy}
use load_ants.Handler.Tests.{echo, handler}
use load_ants.Upstream.Toy.{toy_json, ToyJson}
use load_ants.Upstream.Json.Records.{parse_record}
use load_ants.Doh.Serialize.{serialize_record}
use load_ants.Doh.Handlers.{
  DohJsonGetParams, dns_message, handle_doh_get, handle_doh_post, handle_json_get,
}
use load_ants.Doh.Spec.{Reported, handlers-Reported, handle_doh_get-eq-handle_doh_post}
use load_ants.Doh.RoundTrip.{Distinct, JsonLaws, TextLaws, lookup, parse_record-serialize_record}

abbrev params : DohJsonGetParams
params = record {
  name = codes "example.com";
  type = some (codes "A");
  cd = some (codes "1");
  do_flag = none;
  ct = none;
}

handlers-Reported_example :
    Reported toy_proto toy_wire toy_json toy_moka in_order toy echo (
      handle_doh_get toy_proto toy_wire toy_json toy_moka in_order toy echo handler (9 ∷ []) 0 0 [])
    × Reported toy_proto toy_wire toy_json toy_moka in_order toy echo (
        handle_doh_post toy_proto toy_wire toy_json toy_moka in_order toy echo handler
          (some (codes "text/plain"))
          (9 ∷ [])
          0
          0
          [])
    × Reported toy_proto toy_wire toy_json toy_moka in_order toy echo (
        handle_json_get toy_proto toy_wire toy_json toy_moka in_order toy echo handler params 0 0
          [])
handlers-Reported_example =
    handlers-Reported toy_proto toy_wire toy_json toy_moka in_order toy echo handler (9 ∷ [])
      (some (codes "text/plain")) (9 ∷ []) params 0 0 []

handle_doh_get-eq-handle_doh_post_example :
    handle_doh_get toy_proto toy_wire toy_json toy_moka in_order toy echo handler (9 ∷ []) 0 0 []
    ≡ handle_doh_post toy_proto toy_wire toy_json toy_moka in_order toy echo handler
        (some dns_message)
        (9 ∷ [])
        0
        0
        []
handle_doh_get-eq-handle_doh_post_example =
    handle_doh_get-eq-handle_doh_post toy_proto toy_wire toy_json toy_moka in_order toy echo handler
      (9 ∷ []) (9 ∷ []) 0 0 [] refl

get-object :
    (fields : List (Text × ToyJson)) (k : Text)
    → Distinct fields
    → toy_json.get (toy_json.object fields) k ≡ lookup k fields
get-object [] k d = refl
get-object ((j, v) ∷ fields) k d = ground (arith, get-object fields k d.1)

toy-JsonLaws : JsonLaws toy_json
toy-JsonLaws = record {
  get-object = get-object;
  as_u64-number = λ n small. refl;
  as_str-string = λ t. refl;
}

toy-TextLaws : TextLaws toy_proto toy_wire
toy-TextLaws = record {
  parse_v4-show_v4 = value_from-decimal;
  parse_v6-show_v6 = value_from-decimal;
  type_from-type_code = λ t named. refl;
}

abbrev mail : ToyRecord
mail = record { of_type = 15; lives = 300; owner = 7; content = some (mx_data 10 25) }

parse_record-serialize_record_example :
    parse_record toy_proto toy_wire toy_json (serialize_record toy_proto toy_wire toy_json mail)
    ≡ some mail
parse_record-serialize_record_example =
    parse_record-serialize_record toy_proto toy_wire toy_json toy-JsonLaws toy-TextLaws mail
      (mx_data 10 25) refl
      (refl, omega arith, (value_from-decimal 25, decimal-IsWord 25, is_empty-decimal 25))
      (value_from-decimal 7) (omega arith) (omega arith) refl
