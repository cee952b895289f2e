-- ===== src/Server/Ids.antt =====
-- What `HandlerAdapter` of src/server.rs answers.
use load_ants.Prelude.{◌≡◌, ◌⊎◌, List}
use load_ants.Errors.{ok}
use load_ants.Metrics.{Metrics}
use load_ants.Proto.{Proto, ProtoLaws}
use load_ants.Proto.Wire.{Wire}
use load_ants.Cache.{Moka}
use load_ants.Router.{Patterns}
use load_ants.Handler.{Upstream}
use load_ants.Handler
use load_ants.Handler.Spec.{Handler}
use load_ants.Handler.Answer.{Echoes}
use load_ants.Server.{Requests, Sent, error_msg, built, parse_request_message}

-- A request that is written out and read again has the same id.
pub record SameId (D : Proto) (W : Wire D) (R : Requests D) : Type 0 where
  pub read_id :
      (request : R.Request) (m : D.Message)
      → parse_request_message D W R request ≡ ok m
      → D.id m ≡ R.id request

module _ (D : Proto) (laws : ProtoLaws D) (W : Wire D) (R : Requests D) (same : SameId D W R)
    (M : Moka D) (shuffle : List (D.Record) → List (D.Record)) (P : Patterns) (U : Upstream D)
    (echoes : Echoes D laws M shuffle P U) where
  open D use {Message}
  open R use {Request}

  -- Under the id of the request: NotImp or ServFail, or a message.
  abbrev pub Answers : Request → Sent D → Type 0
  Answers request (error_msg header) =
      (header.id ≡ R.id request)
      × ((header.response_code ≡ W.not_imp) ⊎ (header.response_code ≡ D.serv_fail))
  Answers request (built message) = D.id message ≡ R.id request
