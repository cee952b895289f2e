-- ===== src/Upstream/Json.antt =====
-- src/upstream/json.rs: DNS messages from and to the JSON of the Google API. The values of serde_json
-- are a parameter.
pub mod Normalize
pub mod Records
pub mod Convert
use load_ants.Prelude.{ℕ, ◌≡◌, Bool, List, Option, some}
use load_ants.Prelude.Texts.{Text}
use load_ants.Errors.{Result}

-- `serde_json::Value`: how the source reads one, and how it is built.
pub record Json : Type 1 where
  pub Value : Type 0
  pub from_slice : List ℕ → Result Value Text
  pub get : Value → Text → Option Value
  pub as_bool : Value → Option Bool
  pub as_u64 : Value → Option ℕ
  pub as_str : Value → Option Text
  pub as_array : Value → Option (List Value)
  pub boolean : Bool → Value
  pub number : ℕ → Value
  pub string : Text → Value
  pub array : List Value → Value
  pub object : List (Text × Value) → Value
