-- ===== src/Json.antt =====
-- The interface of the crate serde_json that the program uses: values, their fields and their
-- text. The crate is not part of the repository, so it is a parameter.
use ai_garage.Common.{ℕ, Bool, List, Option, Text}

pub record Json : Type 1 where
  -- `serde_json::Value`
  pub Value : Type 0
  pub null : Value
  pub bool : Bool → Value
  pub number : ℕ → Value
  pub string : Text → Value
  pub array : List Value → Value
  pub object : List (Text × Value) → Value
  -- `v.get(key)` and `v.get(index)`
  pub get : Value → Text → Option Value
  pub get_index : Value → ℕ → Option Value
  pub as_str : Value → Option Text
  pub as_bool : Value → Option Bool
  pub as_array : Value → Option (List Value)
  pub as_u64 : Value → Option ℕ
  -- `serde_json::to_string` and `serde_json::from_str`
  pub to_string : Value → Text
  pub from_str : Text → Option Value
