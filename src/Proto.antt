-- ===== src/Proto.antt =====
-- The DNS messages of the crate hickory-proto, a parameter: the types, what the source reads of
-- them and what it sets, and the laws that its documentation gives.
pub mod Toy
pub mod Wire
use load_ants.Prelude.{[], ◌∷◌, ◌++◌, ℕ, ◌≡◌, ◌↔◌, Bool, true, List}
use load_ants.Prelude.Texts.{Text}

pub record Proto : Type 1 where
  pub Message : Type 0
  pub Record : Type 0
  pub Query : Type 0
  pub RecordType : Type 0
  pub DnsClass : Type 0
  pub ResponseCode : Type 0
  pub OpCode : Type 0
  -- `PartialEq` and `Display`
  pub type_eq : RecordType → RecordType → Bool
  pub class_eq : DnsClass → DnsClass → Bool
  pub code_eq : ResponseCode → ResponseCode → Bool
  pub type_text : RecordType → Text
  pub a_type : RecordType
  pub aaaa_type : RecordType
  pub opt_type : RecordType
  pub no_error : ResponseCode
  pub nx_domain : ResponseCode
  pub serv_fail : ResponseCode
  -- `Query`; the name as `Name::to_string` displays it
  pub name_text : Query → Text
  pub query_type : Query → RecordType
  pub query_class : Query → DnsClass
  -- `Record`
  pub ttl : Record → ℕ
  pub set_ttl : ℕ → Record → Record
  pub record_type : Record → RecordType
  -- `Message`
  pub new_message : Message
  pub id : Message → ℕ
  pub set_id : ℕ → Message → Message
  pub is_query : Message → Bool
  pub set_response : Message → Message
  pub op_code : Message → OpCode
  pub set_op_code : OpCode → Message → Message
  pub recursion_desired : Message → Bool
  pub set_recursion_desired : Bool → Message → Message
  pub set_recursion_available : Bool → Message → Message
  pub response_code : Message → ResponseCode
  pub set_response_code : ResponseCode → Message → Message
  pub truncated : Message → Bool
  pub answer_count : Message → ℕ
  pub queries : Message → List Query
  pub add_query : Query → Message → Message
  pub answers : Message → List Record
  pub set_answers : List Record → Message → Message
  pub name_servers : Message → List Record
  pub set_name_servers : List Record → Message → Message
  pub additionals : Message → List Record
  pub set_additionals : List Record → Message → Message

-- What is set is read back, and nothing else changes.
pub record ProtoLaws (D : Proto) : Type 0 where
  pub type_eq_iff : (s t : D.RecordType) → (D.type_eq s t ≡ true) ↔ (s ≡ t)
  pub ttl-set_ttl : (t : ℕ) (r : D.Record) → D.ttl (D.set_ttl t r) ≡ t
  pub record_type-set_ttl : (t : ℕ) (r : D.Record) → D.record_type (D.set_ttl t r) ≡ D.record_type r
  pub answers-set_answers : (l : List D.Record) (m : D.Message) → D.answers (D.set_answers l m) ≡ l
  pub answers-set_name_servers :
      (l : List D.Record) (m : D.Message) → D.answers (D.set_name_servers l m) ≡ D.answers m
  pub answers-set_additionals :
      (l : List D.Record) (m : D.Message) → D.answers (D.set_additionals l m) ≡ D.answers m
  pub name_servers-set_answers :
      (l : List D.Record) (m : D.Message) → D.name_servers (D.set_answers l m) ≡ D.name_servers m
  pub name_servers-set_name_servers :
      (l : List D.Record) (m : D.Message) → D.name_servers (D.set_name_servers l m) ≡ l
  pub name_servers-set_additionals :
      (l : List D.Record) (m : D.Message)
      → D.name_servers (D.set_additionals l m) ≡ D.name_servers m
  pub additionals-set_answers :
      (l : List D.Record) (m : D.Message) → D.additionals (D.set_answers l m) ≡ D.additionals m
  pub additionals-set_name_servers :
      (l : List D.Record) (m : D.Message) → D.additionals (D.set_name_servers l m) ≡ D.additionals m
  pub additionals-set_additionals :
      (l : List D.Record) (m : D.Message) → D.additionals (D.set_additionals l m) ≡ l
  pub id-set_id : (i : ℕ) (m : D.Message) → D.id (D.set_id i m) ≡ i
  pub queries-set_id : (i : ℕ) (m : D.Message) → D.queries (D.set_id i m) ≡ D.queries m
  pub answers-set_id : (i : ℕ) (m : D.Message) → D.answers (D.set_id i m) ≡ D.answers m
  pub id-set_response : (m : D.Message) → D.id (D.set_response m) ≡ D.id m
  pub id-set_op_code : (o : D.OpCode) (m : D.Message) → D.id (D.set_op_code o m) ≡ D.id m
  pub id-set_recursion_desired :
      (b : Bool) (m : D.Message) → D.id (D.set_recursion_desired b m) ≡ D.id m
  pub id-set_recursion_available :
      (b : Bool) (m : D.Message) → D.id (D.set_recursion_available b m) ≡ D.id m
  pub id-set_response_code :
      (c : D.ResponseCode) (m : D.Message) → D.id (D.set_response_code c m) ≡ D.id m
  pub id-add_query : (q : D.Query) (m : D.Message) → D.id (D.add_query q m) ≡ D.id m
  pub code-set_response_code :
      (c : D.ResponseCode) (m : D.Message) → D.response_code (D.set_response_code c m) ≡ c
  pub code-add_query :
      (q : D.Query) (m : D.Message) → D.response_code (D.add_query q m) ≡ D.response_code m
  pub queries-add_query :
      (q : D.Query) (m : D.Message) → D.queries (D.add_query q m) ≡ D.queries m ++ q ∷ []
  pub queries-new_message : D.queries D.new_message ≡ []
  pub queries-set_response : (m : D.Message) → D.queries (D.set_response m) ≡ D.queries m
  pub queries-set_op_code :
      (o : D.OpCode) (m : D.Message) → D.queries (D.set_op_code o m) ≡ D.queries m
  pub queries-set_recursion_desired :
      (b : Bool) (m : D.Message) → D.queries (D.set_recursion_desired b m) ≡ D.queries m
  pub queries-set_recursion_available :
      (b : Bool) (m : D.Message) → D.queries (D.set_recursion_available b m) ≡ D.queries m
  pub queries-set_response_code :
      (c : D.ResponseCode) (m : D.Message) → D.queries (D.set_response_code c m) ≡ D.queries m
