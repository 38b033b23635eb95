-- ===== src/Tool/Output.antt =====
-- src/tool/ToolOutputConfig.cpp: how much of a tool's output the model gets to see.
pub mod Bounds
mod Tests
use embedded_agent.Base.{
  ℕ, ◌-◌, Bytes, none, some, List, ◌++◌, codes, length, take, leb, ltb, if◌then◌else◌,
}
use embedded_agent.Base.Map.{lookup}

pub record ToolOutputConfig : Type 0 where
  pub max_bytes : ℕ
  pub per_tool : List (Bytes × ℕ)
  pub truncate_marker : Bytes

-- `"\n...[truncated]"`
unfoldable pub default_marker : Bytes
default_marker = codes "\n...[truncated]"

unfoldable pub get_limit : ToolOutputConfig → Bytes → ℕ
get_limit c tool_name = elim (lookup tool_name c.per_tool) [ some n ↦ n | none ↦ c.max_bytes ]

unfoldable pub truncate_output : Bytes → ℕ → Bytes → Bytes
truncate_output output max_bytes marker =
    if leb (length output) max_bytes
    then output
    else take (if ltb (length marker) max_bytes then max_bytes - length marker else 0) output
      ++ marker
