-- ===== src/Proto/Toy.antt =====
-- A small DNS message for the tests, with the laws that `ProtoLaws` asks for.
use load_ants.Prelude.{
  if◌then◌else◌, ◌+◌, ℕ, refl, ◌==◌, ==_iff, Bool, true, false, List, [], ◌∷◌, ◌++◌,
}
use load_ants.Prelude.Texts.{text_eq, codes, Text, decimal}
use load_ants.Prelude.{Option, none, some}
use load_ants.Prelude.Words.{value_from}
use load_ants.Errors.{ok, err, Result}
use load_ants.Proto.{Proto, ProtoLaws}
use load_ants.Proto.Wire.{Wire, WireLaws, RData, Kind}

pub record ToyRecord : Type 0 where
  pub of_type : ℕ
  pub lives : ℕ
  pub owner : ℕ
  pub content : Option (RData ℕ ℕ ℕ)

-- A record of a type and a TTL only.
abbrev pub bare : ℕ → ℕ → ToyRecord
bare t n = record { of_type = t; lives = n; owner = 0; content = none }

pub record ToyQuery : Type 0 where
  pub name : Text
  pub of_type : ℕ

pub record ToyMessage : Type 0 where
  pub id : ℕ
  pub asks : Bool
  pub op : ℕ
  pub desired : Bool
  pub available : Bool
  pub code : ℕ
  pub queries : List ToyQuery
  pub answers : List ToyRecord
  pub name_servers : List ToyRecord
  pub additionals : List ToyRecord
  pub cut : Bool

abbrev pub count : List ToyRecord → ℕ
count [] = 0
count (r ∷ rs) = 1 + count rs

-- The types A, AAAA and OPT and the codes have their numbers; the class is IN.
abbrev pub toy_proto : Proto
toy_proto = record {
  Message = ToyMessage;
  Record = ToyRecord;
  Query = ToyQuery;
  RecordType = ℕ;
  DnsClass = Unit;
  ResponseCode = ℕ;
  OpCode = ℕ;
  type_eq = λ s t. s == t;
  class_eq = λ c d. true;
  code_eq = λ c d. c == d;
  type_text = decimal;
  a_type = 1;
  aaaa_type = 28;
  opt_type = 41;
  no_error = 0;
  nx_domain = 3;
  serv_fail = 2;
  name_text = λ q. q.name;
  query_type = λ q. q.of_type;
  query_class = λ q. tt;
  ttl = λ r. r.lives;
  set_ttl = λ t r. record r { lives = t };
  record_type = λ r. r.of_type;
  new_message = record {
    id = 0;
    asks = true;
    op = 0;
    desired = false;
    available = false;
    code = 0;
    queries = [];
    answers = [];
    name_servers = [];
    additionals = [];
    cut = false;
  };
  id = λ m. m.id;
  set_id = λ i m. record m { id = i };
  is_query = λ m. m.asks;
  set_response = λ m. record m { asks = false };
  op_code = λ m. m.op;
  set_op_code = λ o m. record m { op = o };
  recursion_desired = λ m. m.desired;
  set_recursion_desired = λ b m. record m { desired = b };
  set_recursion_available = λ b m. record m { available = b };
  response_code = λ m. m.code;
  set_response_code = λ c m. record m { code = c };
  truncated = λ m. m.cut;
  answer_count = λ m. count m.answers;
  queries = λ m. m.queries;
  add_query = λ q m. record m { queries = m.queries ++ q ∷ [] };
  answers = λ m. m.answers;
  set_answers = λ l m. record m { answers = l };
  name_servers = λ m. m.name_servers;
  set_name_servers = λ l m. record m { name_servers = l };
  additionals = λ m. m.additionals;
  set_additionals = λ l m. record m { additionals = l };
}

pub toy_laws : ProtoLaws toy_proto
toy_laws = record {
  type_eq_iff = ==_iff;
  ttl-set_ttl = λ t r. refl;
  record_type-set_ttl = λ t r. refl;
  answers-set_answers = λ l m. refl;
  answers-set_name_servers = λ l m. refl;
  answers-set_additionals = λ l m. refl;
  name_servers-set_answers = λ l m. refl;
  name_servers-set_name_servers = λ l m. refl;
  name_servers-set_additionals = λ l m. refl;
  additionals-set_answers = λ l m. refl;
  additionals-set_name_servers = λ l m. refl;
  additionals-set_additionals = λ l m. refl;
  id-set_id = λ i m. refl;
  queries-set_id = λ i m. refl;
  answers-set_id = λ i m. refl;
  id-set_response = λ m. refl;
  id-set_op_code = λ o m. refl;
  id-set_recursion_desired = λ b m. refl;
  id-set_recursion_available = λ b m. refl;
  id-set_response_code = λ c m. refl;
  id-add_query = λ q m. refl;
  code-set_response_code = λ c m. refl;
  code-add_query = λ q m. refl;
  queries-add_query = λ q m. refl;
  queries-new_message = refl;
  queries-set_response = λ m. refl;
  queries-set_op_code = λ o m. refl;
  queries-set_recursion_desired = λ b m. refl;
  queries-set_recursion_available = λ b m. refl;
  queries-set_response_code = λ c m. refl;
}

-- The numbers of the types that the source names.
abbrev pub toy_kind : ℕ → Kind
toy_kind t =
    if t == 1
    then Kind.a
    else if t == 2
    then Kind.ns
    else if t == 5
    then Kind.cname
    else if t == 12
    then Kind.ptr
    else if t == 15
    then Kind.mx
    else if t == 16
    then Kind.txt
    else if t == 28
    then Kind.aaaa
    else if t == 33
    then Kind.srv
    else Kind.other

abbrev number_of : RData ℕ ℕ ℕ → ℕ
number_of (RData.a_data x) = 1
number_of (RData.aaaa_data x) = 28
number_of (RData.cname_data n) = 5
number_of (RData.ns_data n) = 2
number_of (RData.ptr_data n) = 12
number_of (RData.mx_data p n) = 15
number_of (RData.soa_data s) = 6
number_of (RData.srv_data s) = 33
number_of (RData.svcb_data p n l) = 64
number_of (RData.txt_data l) = 16
number_of (RData.other_data t) = 0

-- The message of one byte, which asks for the address of a name.
abbrev pub toy_message : ℕ → ToyMessage
toy_message i = record {
  id = i;
  asks = true;
  op = 0;
  desired = true;
  available = false;
  code = 0;
  queries = record { name = decimal i; of_type = 1 } ∷ [];
  answers = [];
  name_servers = [];
  additionals = [];
  cut = false;
}

abbrev toy_from_vec : List ℕ → Result ToyMessage Text
toy_from_vec [] = err (codes "empty")
toy_from_vec (i ∷ rest) = ok (toy_message i)

-- Names and addresses are numbers, and a message is written as its id.
abbrev pub toy_wire : Wire toy_proto
toy_wire = record {
  Name = ℕ;
  V4 = ℕ;
  V6 = ℕ;
  emit = λ m. ok (m.id ∷ []);
  from_vec = toy_from_vec;
  encode = λ b. b;
  decode = λ t. some t;
  parse_name = λ t. value_from 0 t;
  from_ascii = λ t. value_from 0 t;
  show_name = decimal;
  parse_v4 = λ t. value_from 0 t;
  show_v4 = decimal;
  parse_v6 = λ t. value_from 0 t;
  show_v6 = decimal;
  kind = toy_kind;
  type_code = λ t. t;
  type_from = λ n. n;
  type_from_str = λ t. if text_eq t (codes "A") then some 1 else none;
  class_code = λ c. 1;
  query = λ n t. record { name = decimal n; of_type = t };
  from_rdata = λ n t d. record { of_type = number_of d; lives = t; owner = n; content = some d };
  record_name = λ r. r.owner;
  rdata = λ r. r.content;
  form_err = 1;
  not_imp = 4;
  refused = 5;
  low = λ c. c;
  has_extensions = λ m. false;
  recursion_available = λ m. m.available;
  authentic_data = λ m. false;
  checking_disabled = λ m. false;
  set_query = λ m. record m { asks = true };
  set_truncated = λ b m. record m { cut = b };
  set_authentic_data = λ b m. m;
  set_checking_disabled = λ b m. m;
  add_answer = λ r m. record m { answers = m.answers ++ r ∷ [] };
  add_name_server = λ r m. record m { name_servers = m.name_servers ++ r ∷ [] };
  add_additional = λ r m. record m { additionals = m.additionals ++ r ∷ [] };
}

pub toy_wire_laws : WireLaws toy_proto toy_wire
toy_wire_laws = record {
  id-set_truncated = λ b m. refl;
  id-set_authentic_data = λ b m. refl;
  id-set_checking_disabled = λ b m. refl;
  id-add_answer = λ r m. refl;
  id-add_name_server = λ r m. refl;
  id-add_additional = λ r m. refl;
}
