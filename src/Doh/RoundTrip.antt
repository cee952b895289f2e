-- ===== src/Doh/RoundTrip.antt =====
-- The records of addresses, names, mail exchanges and services that src/doh/json.rs writes and
-- src/upstream/json.rs reads back, as when a DoH server is a JSON upstream of another one.
use native.Mathlib.Nat.{mod-eq_of_lt}
use load_ants.Prelude.{
  All, ◌≢◌, arith, ℕ, ◌<◌, ◌≡◌, refl, List, [], ◌∷◌, ◌++◌, Option, none, some, is_empty, false,
  if◌then◌else◌,
}
use load_ants.Prelude.Texts.{Text, codes, decimal, text_eq, join}
use load_ants.Prelude.Words.{
  IsWord, parse_u16-decimal, decimal-IsWord, is_empty-decimal, split_whitespace,
  split_whitespace-word, split_whitespace-last,
}
use load_ants.Proto.{Proto}
use load_ants.Proto.Wire.{
  Wire, Kind, RData, a_data, aaaa_data, cname_data, ns_data, ptr_data, mx_data, soa_data, srv_data,
  svcb_data, txt_data, other_data,
}
use load_ants.Upstream.Json.{Json}
use load_ants.Upstream.Json.Records.{u64_field, str_field, parse_rdata, parse_record}
use load_ants.Doh.Serialize.{rdata_to_string, serialize_record}

-- The value of a field, as `get` finds it among distinct names.
abbrev pub lookup {ℓ} : {V : Type ℓ} → Text → List (Text × V) → Option V
lookup k [] = none
lookup k ((j, v) ∷ fields) = if text_eq j k then some v else lookup k fields

-- No name stands twice.
abbrev pub Distinct {ℓ} : {V : Type ℓ} → List (Text × V) → Type ℓ
Distinct [] = Unit
Distinct ((k, v) ∷ fields) = All (λ f. text_eq f.0 k ≡ false) fields × Distinct fields

-- `serde_json`: what is built is read back, of numbers those of 64 bits.
pub record JsonLaws (J : Json) : Type 0 where
  pub get-object :
      (fields : List (Text × J.Value)) (k : Text)
      → Distinct fields
      → J.get (J.object fields) k ≡ lookup k fields
  pub as_u64-number : (n : ℕ) → n < 18446744073709551616 → J.as_u64 (J.number n) ≡ some n
  pub as_str-string : (t : Text) → J.as_str (J.string t) ≡ some t

-- Addresses are read back, and the types that have a name keep it.
pub record TextLaws (D : Proto) (W : Wire D) : Type 0 where
  pub parse_v4-show_v4 : (i : W.V4) → W.parse_v4 (W.show_v4 i) ≡ some i
  pub parse_v6-show_v6 : (i : W.V6) → W.parse_v6 (W.show_v6 i) ≡ some i
  pub type_from-type_code :
      (t : D.RecordType) → W.kind t ≢ Kind.other → W.type_from (W.type_code t) ≡ t

module _ (D : Proto) (W : Wire D) (J : Json) (json_laws : JsonLaws J) (texts : TextLaws D W) where
  open D use {Record, ttl, record_type}
  open W use {Name, V4, V6, kind, show_name, record_name, rdata, from_rdata}

  -- A name whose text is one word that `Name::parse` reads as the name. It refuses some names, such as
  -- those with an underscore inside a label.
  abbrev pub IsReadable : Name → Type 0
  IsReadable n =
      (W.parse_name (show_name n) ≡ some n)
      × IsWord (show_name n)
      × (is_empty (show_name n) ≡ false)

  -- Data that JSON keeps, under the type that it belongs to.
  abbrev pub IsKept : Kind → RData Name V4 V6 → Type 0
  IsKept k (a_data i) = k ≡ Kind.a
  IsKept k (aaaa_data i) = k ≡ Kind.aaaa
  IsKept k (cname_data n) = (k ≡ Kind.cname) × IsReadable n
  IsKept k (ns_data n) = (k ≡ Kind.ns) × IsReadable n
  IsKept k (ptr_data n) = (k ≡ Kind.ptr) × IsReadable n
  IsKept k (mx_data p n) = (k ≡ Kind.mx) × (p < 65536) × IsReadable n
  IsKept k (srv_data s) =
      (k ≡ Kind.srv)
      × (s.priority < 65536)
      × (s.weight < 65536)
      × (s.port < 65536)
      × IsReadable s.target
  IsKept k _ = ⊥

  number_first :
      (n : ℕ) (rest : Text)
      → split_whitespace (decimal n ++ 32 ∷ rest) ≡ decimal n ∷ split_whitespace rest
  number_first n rest =
      split_whitespace-word (decimal n) rest (decimal-IsWord n) (is_empty-decimal n)

  name_last : (n : Name) → IsReadable n → split_whitespace (show_name n) ≡ show_name n ∷ []
  name_last n h = split_whitespace-last (show_name n) h.1 h.2

  IsKept-known : (k : Kind) (d : RData Name V4 V6) → IsKept k d → k ≢ Kind.other
  IsKept-known k (a_data i) h = λ e. absurd (cc)
  IsKept-known k (aaaa_data i) h = λ e. absurd (cc)
  IsKept-known k (cname_data n) h = λ e. let f = h.0 in absurd (cc)
  IsKept-known k (ns_data n) h = λ e. let f = h.0 in absurd (cc)
  IsKept-known k (ptr_data n) h = λ e. let f = h.0 in absurd (cc)
  IsKept-known k (mx_data p n) h = λ e. let f = h.0 in absurd (cc)
  IsKept-known k (srv_data s) h = λ e. let f = h.0 in absurd (cc)
  IsKept-known k (soa_data s) h = absurd h
  IsKept-known k (svcb_data p n l) h = absurd h
  IsKept-known k (txt_data l) h = absurd h
  IsKept-known k (other_data t) h = absurd h

  parse_rdata-rdata_to_string :
      (k : Kind) (d : RData Name V4 V6)
      → IsKept k d
      → parse_rdata D W J k (rdata_to_string D W (some d)) ≡ some d
  unfolding parse_rdata rdata_to_string join
  parse_rdata-rdata_to_string k (a_data i) h = rw (h, texts.parse_v4-show_v4 i) refl
  parse_rdata-rdata_to_string k (aaaa_data i) h = rw (h, texts.parse_v6-show_v6 i) refl
  parse_rdata-rdata_to_string k (cname_data n) h = rw (h.0, h.1.0) refl
  parse_rdata-rdata_to_string k (ns_data n) h = rw (h.0, h.1.0) refl
  parse_rdata-rdata_to_string k (ptr_data n) h = rw (h.0, h.1.0) refl
  parse_rdata-rdata_to_string k (mx_data p n) h =
      rw (h.0, number_first p (show_name n), name_last n h.2, parse_u16-decimal p h.1, h.2.0) refl
  parse_rdata-rdata_to_string k (srv_data s) h =
      rw
        (
          h.0,
          number_first s.priority _,
          number_first s.weight _,
          number_first s.port _,
          name_last s.target h.4,
          parse_u16-decimal s.priority h.1,
          parse_u16-decimal s.weight h.2,
          parse_u16-decimal s.port h.3,
          h.4.0,
        )
        refl
  parse_rdata-rdata_to_string k (soa_data s) h = absurd h
  parse_rdata-rdata_to_string k (svcb_data p n l) h = absurd h
  parse_rdata-rdata_to_string k (txt_data l) h = absurd h
  parse_rdata-rdata_to_string k (other_data t) h = absurd h

  module _ (r : Record) where
    abbrev fields : List (Text × J.Value)
    fields =
        (codes "name", J.string (show_name (record_name r)))
        ∷ (codes "type", J.number (W.type_code (record_type r)))
        ∷ (codes "TTL", J.number (ttl r))
        ∷ (codes "data", J.string (rdata_to_string D W (rdata r)))
        ∷ []

    distinct : Distinct fields
    unfolding text_eq
    distinct = ((refl, (refl, (refl, tt))), ((refl, (refl, tt)), ((refl, tt), (tt, tt))))

    name_field :
        str_field D W J (codes "name") (serialize_record D W J r) ≡ some (show_name (record_name r))
    unfolding serialize_record text_eq
    name_field =
        rw (json_laws.get-object fields (codes "name") distinct) (json_laws.as_str-string _)

    type_field :
        W.type_code (record_type r) < 65536
        → u64_field D W J (codes "type") (serialize_record D W J r)
          ≡ some (W.type_code (record_type r))
    unfolding serialize_record text_eq
    type_field coded =
        rw (json_laws.get-object fields (codes "type") distinct)
          (json_laws.as_u64-number _ (omega (arith, coded)))

    ttl_field :
        ttl r < 4294967296 → u64_field D W J (codes "TTL") (serialize_record D W J r) ≡ some (ttl r)
    unfolding serialize_record text_eq
    ttl_field small =
        rw (json_laws.get-object fields (codes "TTL") distinct)
          (json_laws.as_u64-number _ (omega (arith, small)))

    data_field :
        str_field D W J (codes "data") (serialize_record D W J r)
        ≡ some (rdata_to_string D W (rdata r))
    unfolding serialize_record text_eq
    data_field =
        rw (json_laws.get-object fields (codes "data") distinct) (json_laws.as_str-string _)

  -- An address, name, mail exchange or service record with a type of 16 bits and a TTL of 32 bits is
  -- read back from its JSON as it was, if it is the record of its parts and its names, of which
  -- `Name::parse` refuses some, are readable.
  pub parse_record-serialize_record :
      (r : Record) (d : RData Name V4 V6)
      → rdata r ≡ some d
      → IsKept (kind (record_type r)) d
      → W.parse_name (show_name (record_name r)) ≡ some (record_name r)
      → W.type_code (record_type r) < 65536
      → ttl r < 4294967296
      → from_rdata (record_name r) (ttl r) d ≡ r
      → parse_record D W J (serialize_record D W J r) ≡ some r
  unfolding parse_record
  parse_record-serialize_record r d has kept owned coded small parts =
      rw
        (
          name_field r,
          type_field r coded,
          ttl_field r small,
          data_field r,
          owned,
          has,
          mod-eq_of_lt coded,
          texts.type_from-type_code (record_type r) (IsKept-known (kind (record_type r)) d kept),
          parse_rdata-rdata_to_string (kind (record_type r)) d kept,
          mod-eq_of_lt small,
          parts,
        )
        refl
