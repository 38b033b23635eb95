-- ===== src/Core/Json.antt =====
-- The part of nlohmann::json that the modelled code calls. The library is not part of the
-- repository: its type and its operations are parameters of the definitions that use them.
pub mod Texts
use embedded_agent.Base.{ℕ, Bytes}
use embedded_agent.Core.Error.{Outcome}

pub record JsonLib : Type 1 where
  pub Json : Type 0
  -- `j.dump()`
  pub dump : Json → Bytes
  -- `j.value(key, fallback)` at a string: throws where the value has another type
  pub value_string : Json → Bytes → Bytes → Outcome Bytes
  -- `j.size()`: the number of elements
  pub size : Json → ℕ
  -- the implicit conversion to `std::string`: throws where `j` is no string
  pub to_string : Json → Outcome Bytes
  -- the implicit conversion from `std::string`
  pub of_string : Bytes → Json
