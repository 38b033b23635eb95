-- ===== src/Tool/Toolset.antt =====
-- src/tool/Toolset.cpp
use embedded_agent.Base.{
  Bytes, Bool, true, false, Option, none, some, List, [], ◌∷◌, ◌++◌, codes, bytes_eq, if◌then◌else◌,
}
use embedded_agent.Core.Error.{Result, err, error_of, ErrorCode, Outcome, returned}
use embedded_agent.Core.Types.{ToolSpec, ToolResult}
use embedded_agent.Tool.Interface.{Tool}

-- A `CheckFn` reads the state outside; a null `CheckFn` is `none`.
pub record Entry (J S : Type 0) : Type 0 where
  pub tool : Tool J S
  pub check : Option (S → Bool)

pub record Toolset (J S : Type 0) : Type 0 where
  pub name : Bytes
  pub entries : List (Entry J S)

-- `!entry.check || entry.check()`
abbrev pub passes : {S : Type 0} → Option (S → Bool) → S → Bool
passes none s = true
passes (some check) s = check s

module _ {J S : Type 0} where
  -- `add(tool)` is `add` with no check.
  unfoldable pub add : Toolset J S → Tool J S → Option (S → Bool) → Toolset J S
  add t tool check = record t { entries = t.entries ++ record { tool = tool; check = check } ∷ [] }

  unfoldable pub find_entry : Bytes → List (Entry J S) → Option (Entry J S)
  find_entry tool_name [] = none
  find_entry tool_name (e ∷ es) =
      let later = find_entry tool_name es in
      if bytes_eq e.tool.name tool_name then some e else later

  unfoldable pub find_tool : Toolset J S → Bytes → Option (Tool J S)
  unfolding find_entry
  find_tool t tool_name = elim (find_entry tool_name t.entries) [
    | none ↦ none
    | some e ↦ some e.tool
  ]

  unfoldable pub has_tool : Toolset J S → Bytes → Bool
  unfolding find_entry
  has_tool t tool_name = elim (find_entry tool_name t.entries) [ none ↦ false | some e ↦ true ]

  abbrev pub spec_of : Tool J S → ToolSpec J
  spec_of t = record {
    name = t.name;
    description = t.description;
    parameters = t.parameters_schema;
  }

  unfoldable pub entry_specs : List (Entry J S) → S → List (ToolSpec J)
  entry_specs [] s = []
  entry_specs (e ∷ es) s =
      let rest = entry_specs es s in if passes e.check s then spec_of e.tool ∷ rest else rest

  unfoldable pub active_specs : Toolset J S → S → List (ToolSpec J)
  unfolding entry_specs
  active_specs t s = entry_specs t.entries s

  unfoldable pub execute : Toolset J S → Bytes → J → S → Outcome (Result ToolResult) × S
  unfolding find_entry
  execute t tool_name args s = elim (find_entry tool_name t.entries) [
    | none ↦ (
      returned (
          err (
            error_of ErrorCode.tool_error
              (codes "Tool not found in toolset '" ++ t.name ++ codes "': " ++ tool_name))),
      s,
    )
    | some e ↦ e.tool.execute args s
  ]
