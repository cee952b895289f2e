-- ===== src/Upstream/Toy.antt =====
-- Toys for the tests of src/upstream: a JSON value, a web server, URLs that are texts, and connections.
use load_ants.Prelude.{
  ℕ, Bool, true, false, List, [], ◌∷◌, ◌++◌, Option, none, some, ◌==◌, if◌then◌else◌,
}
use load_ants.Prelude.Texts.{Text, codes, decimal, text_eq}
use load_ants.Errors.{Result, ok, err}
use load_ants.Http.{Http}
use load_ants.Upstream.Json.{Json}
use load_ants.Upstream.Doh.{Urls}
use load_ants.Upstream.DnsClient.{Connector, udp, tcp, DnsTransport, DnsRequest}
use load_ants.Proto.Toy.{toy_proto, ToyMessage}

mutual
  pub data ToyJson : Type 0 where
    bool : Bool → ToyJson
    num : ℕ → ToyJson
    str : Text → ToyJson
    arr : ToyList → ToyJson
    obj : ToyFields → ToyJson

  pub data ToyList : Type 0 where
    nil : ToyList
    cons : ToyJson → ToyList → ToyList

  pub data ToyFields : Type 0 where
    end : ToyFields
    field : Text → ToyJson → ToyFields → ToyFields

abbrev pub to_list : List ToyJson → ToyList
to_list [] = nil
to_list (v ∷ vs) = cons v (to_list vs)

abbrev from_list : ToyList → List ToyJson
from_list nil = []
from_list (cons v vs) = v ∷ from_list vs

abbrev to_fields : List (Text × ToyJson) → ToyFields
to_fields [] = end
to_fields ((k, v) ∷ fs) = field k v (to_fields fs)

abbrev find : Text → ToyFields → Option ToyJson
find k end = none
find k (field j v fs) = if text_eq j k then some v else find k fs

abbrev toy_get : ToyJson → Text → Option ToyJson
toy_get (obj fs) k = find k fs
toy_get _ k = none

abbrev toy_bool : ToyJson → Option Bool
toy_bool (bool b) = some b
toy_bool _ = none

abbrev toy_u64 : ToyJson → Option ℕ
toy_u64 (num n) = some n
toy_u64 _ = none

abbrev toy_str : ToyJson → Option Text
toy_str (str t) = some t
toy_str _ = none

abbrev toy_array : ToyJson → Option (List ToyJson)
toy_array (arr l) = some (from_list l)
toy_array _ = none

-- What each response in JSON holds: a refusal.
abbrev toy_slice : List ℕ → Result ToyJson Text
toy_slice [] = err (codes "end of input")
toy_slice (b ∷ bytes) = ok (obj (field (codes "Status") (num 5) end))

abbrev pub toy_json : Json
toy_json = record {
  Value = ToyJson;
  from_slice = toy_slice;
  get = toy_get;
  as_bool = toy_bool;
  as_u64 = toy_u64;
  as_str = toy_str;
  as_array = toy_array;
  boolean = bool;
  number = num;
  string = str;
  array = λ l. arr (to_list l);
  object = λ l. obj (to_fields l);
}

-- A server that answers every request with one byte.
abbrev pub toy_web : Http
toy_web = record {
  Client = Unit;
  Proxy = Text;
  proxy_all = λ url. ok url;
  build = λ b. ok tt;
  send = λ r. ok (record { status = 200; text = ok (codes "x"); bytes = ok (120 ∷ []) });
  status_text = decimal;
}

abbrev pub toy_urls : Urls
toy_urls = record {
  Url = Text;
  as_text = λ u. u;
  host_str = λ u. some u;
  scheme = λ u. codes "https";
  path = λ u. codes "/dns-query";
  append_pair = λ k v u. u ++ k ++ v;
}

-- The address 0 is never reached over TCP, and over UDP every answer is truncated.
abbrev toy_connect : ℕ → DnsTransport → Result DnsTransport Text
toy_connect addr udp = ok udp
toy_connect addr tcp = if addr == 0 then err (codes "unreachable") else ok tcp

abbrev toy_reply : DnsTransport → DnsRequest ToyMessage → ToyMessage
toy_reply udp request = record request.message { asks = false; cut = true }
toy_reply tcp request = record request.message { asks = false }

abbrev pub toy_net : Connector toy_proto
toy_net = record {
  SocketAddr = ℕ;
  addr_eq = λ a b. a == b;
  ip_text = decimal;
  Connection = DnsTransport;
  Future = Result DnsTransport Text;
  new_connection = λ addr t seconds. toy_connect addr t;
  await = λ f. f;
  timeout = λ seconds f. some f;
  send = λ c request. some (ok (toy_reply c request));
}
