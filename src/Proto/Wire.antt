-- ===== src/Proto/Wire.antt =====
-- What else the source uses of hickory-proto, base64, and of the addresses of the standard library:
-- the binary form of a message, names, record data, and more of the header.
use load_ants.Prelude.{ℕ, Bool, List, Option, ◌≡◌}
use load_ants.Prelude.Texts.{Text}
use load_ants.Errors.{Result}
use load_ants.Proto.{Proto}

-- The variants of `RecordType` that the source matches on.
pub data Kind : Type 0 where
  a aaaa aname cname mx ns ptr soa srv txt https svcb other : Kind

-- `rdata::SOA` and `rdata::SRV`
pub record Soa (Name : Type 0) : Type 0 where
  pub mname : Name
  pub rname : Name
  pub serial : ℕ
  pub refresh : ℕ
  pub retry : ℕ
  pub expire : ℕ
  pub minimum : ℕ

pub record Srv (Name : Type 0) : Type 0 where
  pub priority : ℕ
  pub weight : ℕ
  pub port : ℕ
  pub target : Name

-- The variants of `RData` that the source matches on; a TXT record as its strings, decoded. The
-- parameters of an SVCB record and any other data stand as the texts that they display.
pub data RData (Name V4 V6 : Type 0) : Type 0 where
  a_data : V4 → RData Name V4 V6
  aaaa_data : V6 → RData Name V4 V6
  cname_data ns_data ptr_data : Name → RData Name V4 V6
  mx_data : ℕ → Name → RData Name V4 V6
  soa_data : Soa Name → RData Name V4 V6
  srv_data : Srv Name → RData Name V4 V6
  svcb_data : ℕ → Name → List (Text × Text) → RData Name V4 V6
  txt_data : List Text → RData Name V4 V6
  other_data : Text → RData Name V4 V6

pub record Wire (D : Proto) : Type 1 where
  pub Name : Type 0
  pub V4 : Type 0
  pub V6 : Type 0
  -- the binary form
  pub emit : D.Message → Result (List ℕ) Text
  pub from_vec : List ℕ → Result (D.Message) Text
  -- `URL_SAFE_NO_PAD`
  pub encode : List ℕ → Text
  pub decode : Text → Option (List ℕ)
  -- `Name::parse`, `Name::from_ascii` and `Display`
  pub parse_name : Text → Option Name
  pub from_ascii : Text → Option Name
  pub show_name : Name → Text
  -- `Ipv4Addr`, `Ipv6Addr`
  pub parse_v4 : Text → Option V4
  pub show_v4 : V4 → Text
  pub parse_v6 : Text → Option V6
  pub show_v6 : V6 → Text
  -- `RecordType`
  pub kind : D.RecordType → Kind
  pub type_code : D.RecordType → ℕ
  pub type_from : ℕ → D.RecordType
  pub type_from_str : Text → Option (D.RecordType)
  pub class_code : D.DnsClass → ℕ
  -- `Query::query`, and `Record`
  pub query : Name → D.RecordType → D.Query
  pub from_rdata : Name → ℕ → RData Name V4 V6 → D.Record
  pub record_name : D.Record → Name
  pub rdata : D.Record → Option (RData Name V4 V6)
  -- the header; `low` is `ResponseCode::low`
  pub form_err : D.ResponseCode
  pub not_imp : D.ResponseCode
  pub refused : D.ResponseCode
  pub low : D.ResponseCode → ℕ
  pub has_extensions : D.Message → Bool
  pub recursion_available : D.Message → Bool
  pub authentic_data : D.Message → Bool
  pub checking_disabled : D.Message → Bool
  pub set_query : D.Message → D.Message
  pub set_truncated : Bool → D.Message → D.Message
  pub set_authentic_data : Bool → D.Message → D.Message
  pub set_checking_disabled : Bool → D.Message → D.Message
  pub add_answer : D.Record → D.Message → D.Message
  pub add_name_server : D.Record → D.Message → D.Message
  pub add_additional : D.Record → D.Message → D.Message

-- None of the setters touches the id.
pub record WireLaws (D : Proto) (W : Wire D) : Type 0 where
  pub id-set_truncated : (b : Bool) (m : D.Message) → D.id (W.set_truncated b m) ≡ D.id m
  pub id-set_authentic_data : (b : Bool) (m : D.Message) → D.id (W.set_authentic_data b m) ≡ D.id m
  pub id-set_checking_disabled :
      (b : Bool) (m : D.Message) → D.id (W.set_checking_disabled b m) ≡ D.id m
  pub id-add_answer : (r : D.Record) (m : D.Message) → D.id (W.add_answer r m) ≡ D.id m
  pub id-add_name_server : (r : D.Record) (m : D.Message) → D.id (W.add_name_server r m) ≡ D.id m
  pub id-add_additional : (r : D.Record) (m : D.Message) → D.id (W.add_additional r m) ≡ D.id m
