-- ===== src/Upstream/Json/Records.antt =====
-- `parse_record` of src/upstream/json.rs. Its warnings are only logged.
use load_ants.Prelude.{ℕ, ◌%◌, List, [], ◌∷◌, Option, none, some}
use load_ants.Prelude.Texts.{Text, codes}
use load_ants.Prelude.Words.{split_whitespace, parse_u16}
use load_ants.Prelude.Maybe.{◌>>=◌, fmap}
use load_ants.Proto.{Proto}
use load_ants.Proto.Wire.{
  Wire, Kind, a, aaaa, cname, mx, ns, ptr, srv, txt, RData, a_data, aaaa_data, cname_data, ns_data,
  ptr_data, mx_data, srv_data, txt_data,
}
use load_ants.Upstream.Json.{Json}
use load_ants.Upstream.Json.Normalize.{normalize_txt_data}

module _ (D : Proto) (W : Wire D) (J : Json) where
  open D use {Record}
  open W use {Name, V4, V6, parse_name, parse_v4, parse_v6, kind, type_from, from_rdata}
  open J use {Value, get, as_str, as_u64}

  abbrev pub str_field : Text → Value → Option Text
  str_field name v = get v name >>= as_str

  abbrev pub u64_field : Text → Value → Option ℕ
  u64_field name v = get v name >>= as_u64

  abbrev pub parse_mx : List Text → Option (RData Name V4 V6)
  parse_mx (preference ∷ exchange ∷ []) = do
    p ← parse_u16 preference
    e ← parse_name exchange
    some (mx_data p e)
  parse_mx _ = none

  abbrev pub parse_srv : List Text → Option (RData Name V4 V6)
  parse_srv (priority ∷ weight ∷ port ∷ target ∷ []) = do
    p ← parse_u16 priority
    w ← parse_u16 weight
    q ← parse_u16 port
    t ← parse_name target
    some (srv_data (record { priority = p; weight = w; port = q; target = t }))
  parse_srv _ = none

  -- The data that a type makes of its text.
  unfoldable pub parse_rdata : Kind → Text → Option (RData Name V4 V6)
  parse_rdata a text = fmap a_data (parse_v4 text)
  parse_rdata aaaa text = fmap aaaa_data (parse_v6 text)
  parse_rdata cname text = fmap cname_data (parse_name text)
  parse_rdata mx text = parse_mx (split_whitespace text)
  parse_rdata txt text = some (txt_data (normalize_txt_data text ∷ []))
  parse_rdata srv text = parse_srv (split_whitespace text)
  parse_rdata ptr text = fmap ptr_data (parse_name text)
  parse_rdata ns text = fmap ns_data (parse_name text)
  parse_rdata _ text = none

  -- `as u16` and `as u32` keep the low bits.
  unfoldable pub parse_record : Value → Option Record
  parse_record v = do
    name ← str_field (codes "name") v
    type ← u64_field (codes "type") v
    ttl ← u64_field (codes "TTL") v
    text ← str_field (codes "data") v
    owner ← parse_name name
    rdata ← parse_rdata (kind (type_from (type % 65536))) text
    some (from_rdata owner (ttl % 4294967296) rdata)
