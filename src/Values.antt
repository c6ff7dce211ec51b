-- ===== src/Values.antt =====
-- The methods of `serde_json::Value` that the code calls. The type is of another package, so a
-- definition that reads one takes these as a parameter.
use stardelt_nova.Prelude.{ℕ, String, Bool, Option, List}

-- `Value::Null`, `get` with a key, `pointer`, `as_str`, `as_bool`, `as_u64` and `as_array`.
pub record ValueApi (V : Type 0) : Type 0 where
  pub null : V
  pub get : V → String → Option V
  pub pointer : V → String → Option V
  pub as_str : V → Option String
  pub as_bool : V → Option Bool
  pub as_u64 : V → Option ℕ
  pub as_array : V → Option (List V)
