-- ===== src/Server/Tests.antt =====
-- Tests of src/server.rs: a request is a message of the toys, and what is returned its id.
use load_ants.Prelude.{ℕ, ◌==◌, [], ◌∷◌}
use load_ants.Errors.{ok, err}
use load_ants.Proto.Toy.{toy_proto, ToyMessage}
use load_ants.Server.{Requests, udp}

-- Nothing can be sent.
abbrev toy_requests : Requests toy_proto
toy_requests = record {
  Request = ToyMessage;
  Info = ℕ;
  protocol = λ r. udp;
  id = λ r. r.id;
  op_code = λ r. r.op;
  is_query_op = λ o. o == 0;
  is_query = λ r. r.asks;
  query_type = λ r. 1;
  emit = λ r. ok (r.id ∷ []);
  send_response = λ s. err [];
  info_from = λ h. h.id;
  info_of_code = λ c. c;
  code_text = λ c. c ∷ [];
}
