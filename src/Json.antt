-- ===== src/Json.antt =====
-- The calls that the packages make of jsoncpp (uniubi_motion_client/third_party), as an interface.
-- `V` stands for `Json::Value`. A call that can throw returns an option or a `Parsed`.
use uniubi_ros.Prelude.{ℕ, ℤ, String, Bool, Option, List}

-- `Json::parseFromStream`: a value, the result `false`, or an exception.
pub data Parsed (V : Type 0) : Type 0 where
  value : V → Parsed V
  malformed : Parsed V
  fault : Parsed V

pub record Json (V : Type 0) : Type 0 where
  pub null_value : V
  pub object_value : V
  pub of_bool : Bool → V
  pub of_string : String → V
  pub of_int : ℤ → V
  -- `value[name] = v`, and `value[name]` read from a constant value.
  pub put : V → String → V → V
  pub member : V → String → V
  pub is_member : V → String → Bool
  pub is_null : V → Bool
  pub is_bool : V → Bool
  pub is_string : V → Bool
  pub is_int : V → Bool
  pub is_numeric : V → Bool
  pub is_object : V → Bool
  pub is_array : V → Bool
  -- `asBool` and `asInt` throw on a value that has no such reading.
  pub as_bool : V → Option Bool
  pub as_string : V → String
  pub as_int : V → Option ℤ
  -- `asUInt` behind `isUInt`, and the elements of an array.
  pub as_uint : V → Option ℕ
  pub elements : V → List V
  pub write : V → String
  pub parse : String → Parsed V
