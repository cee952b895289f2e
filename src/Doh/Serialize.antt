-- ===== src/Doh/Serialize.antt =====
-- src/doh/json.rs: a DNS message as JSON. The number of fields that is announced to serde is left out.
use load_ants.Prelude.{List, [], ◌∷◌, ◌++◌, Option, none, some, map, is_empty, if◌then◌else◌}
use load_ants.Prelude.Texts.{Text, codes, decimal, join}
use load_ants.Proto.{Proto}
use load_ants.Proto.Wire.{
  Wire, RData, a_data, aaaa_data, cname_data, ns_data, ptr_data, mx_data, soa_data, srv_data,
  svcb_data, txt_data, other_data,
}
use load_ants.Upstream.Json.{Json}

-- Words with a space between them.
abbrev pub spaced : List Text → Text
spaced = join 32

-- The parameters of an SVCB record, each after a space.
abbrev svc_params : List (Text × Text) → Text
svc_params [] = []
svc_params ((key, value) ∷ params) = 32 ∷ (key ++ b'=' ∷ (value ++ svc_params params))

module _ (D : Proto) (W : Wire D) where
  open W use {Name, V4, V6, show_name, show_v4, show_v6}

  unfoldable pub rdata_to_string : Option (RData Name V4 V6) → Text
  rdata_to_string none = []
  rdata_to_string (some (a_data addr)) = show_v4 addr
  rdata_to_string (some (aaaa_data addr)) = show_v6 addr
  rdata_to_string (some (cname_data name)) = show_name name
  rdata_to_string (some (ns_data name)) = show_name name
  rdata_to_string (some (ptr_data name)) = show_name name
  rdata_to_string (some (mx_data preference exchange)) =
      spaced (decimal preference ∷ show_name exchange ∷ [])
  rdata_to_string (some (soa_data soa)) = spaced (
      show_name soa.mname
      ∷ show_name soa.rname
      ∷ decimal soa.serial
      ∷ decimal soa.refresh
      ∷ decimal soa.retry
      ∷ decimal soa.expire
      ∷ decimal soa.minimum
      ∷ [])
  rdata_to_string (some (srv_data srv)) =
      spaced
        (decimal srv.priority ∷ decimal srv.weight ∷ decimal srv.port ∷ show_name srv.target ∷ [])
  rdata_to_string (some (svcb_data priority target params)) =
      spaced (decimal priority ∷ show_name target ∷ []) ++ svc_params params
  rdata_to_string (some (txt_data parts)) = spaced parts
  rdata_to_string (some (other_data text)) = text

module _ (D : Proto) (W : Wire D) (J : Json) where
  open D use {
    Message, Record, Query, response_code, truncated, recursion_desired, queries, answers,
    name_servers, additionals, name_text, query_type, record_type, ttl,
  }
  open W use {
    low, recursion_available, authentic_data, checking_disabled, type_code, show_name, record_name,
    rdata,
  }
  open J use {Value, boolean, number, string, array, object}

  unfoldable pub serialize_record : Record → Value
  serialize_record r = object (
      (codes "name", string (show_name (record_name r)))
      ∷ (codes "type", number (type_code (record_type r)))
      ∷ (codes "TTL", number (ttl r))
      ∷ (codes "data", string (rdata_to_string D W (rdata r)))
      ∷ [])

  unfoldable pub serialize_query : Query → Value
  serialize_query q = object (
      (codes "name", string (name_text q)) ∷ (codes "type", number (type_code (query_type q))) ∷ [])

  -- A section is there only if it has something.
  abbrev pub section {ℓ} : {A : Type ℓ} → Text → (A → Value) → List A → List (Text × Value)
  section name element l = if is_empty l then [] else (name, array (map element l)) ∷ []

  unfoldable pub serialize_message : Message → Value
  serialize_message m = object (
      (codes "Status", number (low (response_code m)))
      ∷ (codes "TC", boolean (truncated m))
      ∷ (codes "RD", boolean (recursion_desired m))
      ∷ (codes "RA", boolean (recursion_available m))
      ∷ (codes "AD", boolean (authentic_data m))
      ∷ (codes "CD", boolean (checking_disabled m))
      ∷ (section (codes "Question") serialize_query (queries m)
          ++ section (codes "Answer") serialize_record (answers m)
          ++ section (codes "Authority") serialize_record (name_servers m)
          ++ section (codes "Additional") serialize_record (additionals m)))
