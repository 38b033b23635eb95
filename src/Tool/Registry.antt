-- ===== src/Tool/Registry.antt =====
-- src/tool/ToolRegistry.cpp
pub mod Dispatch
mod Tests
use embedded_agent.Base.{
  Bytes, Bool, Option, none, some, List, [], ◌∷◌, ◌++◌, codes, map, if◌then◌else◌,
}
use embedded_agent.Base.Map.{lookup, insert, set_insert, set_erase}
use embedded_agent.Core.Error.{Result, err, error_of, ErrorCode, Outcome, returned}
use embedded_agent.Core.Types.{ToolSpec, ToolResult}
use embedded_agent.Tool.Interface.{Tool}
use embedded_agent.Tool.Toolset
use embedded_agent.Tool.Toolset.{Toolset, has_tool, find_tool}

-- `toolsets` is a `std::map`, and `active_sets` a `std::set`, both in the order of their keys.
pub record ToolRegistry (J S : Type 0) : Type 0 where
  pub toolsets : List (Bytes × Toolset J S)
  pub active_sets : List Bytes

abbrev pub default_name : Bytes
default_name = codes "default"

module _ {J S : Type 0} where
  abbrev pub empty : ToolRegistry J S
  empty = record { toolsets = []; active_sets = [] }

  unfoldable pub register_toolset : ToolRegistry J S → Toolset J S → ToolRegistry J S
  register_toolset r set = record {
    toolsets = insert set.name set r.toolsets;
    active_sets = set_insert set.name r.active_sets;
  }

  unfoldable pub activate : ToolRegistry J S → Bytes → ToolRegistry J S
  activate r set_name = record r { active_sets = set_insert set_name r.active_sets }

  unfoldable pub deactivate : ToolRegistry J S → Bytes → ToolRegistry J S
  deactivate r set_name = record r { active_sets = set_erase set_name r.active_sets }

  -- The loop of `active_specs` over the active sets.
  unfoldable pub specs_in : List (Bytes × Toolset J S) → List Bytes → S → List (ToolSpec J)
  specs_in toolsets [] s = []
  specs_in toolsets (name ∷ names) s =
      let rest = specs_in toolsets names s in
      elim (lookup name toolsets) [ none ↦ rest | some set ↦ Toolset.active_specs set s ++ rest ]

  unfoldable pub active_specs : ToolRegistry J S → S → List (ToolSpec J)
  unfolding specs_in
  active_specs r s = specs_in r.toolsets r.active_sets s

  unfoldable pub get_all_names : ToolRegistry J S → S → List Bytes
  unfolding active_specs
  get_all_names r s = map (λ spec. spec.name) (active_specs r s)

  -- The loop of `execute` over the active sets.
  unfoldable pub execute_in :
      List (Bytes × Toolset J S) → List Bytes → Bytes → J → S → Outcome (Result ToolResult) × S
  execute_in toolsets [] tool_name args s =
      (returned (err (error_of ErrorCode.tool_error (codes "Tool not found: " ++ tool_name))), s)
  execute_in toolsets (name ∷ names) tool_name args s =
      let later = execute_in toolsets names tool_name args s in
      elim (lookup name toolsets) [
        | none ↦ later
        | some set ↦ if has_tool set tool_name then Toolset.execute set tool_name args s else later
      ]

  unfoldable pub execute : ToolRegistry J S → Bytes → J → S → Outcome (Result ToolResult) × S
  unfolding execute_in
  execute r tool_name args s = execute_in r.toolsets r.active_sets tool_name args s

  -- The loop of `find` over all toolsets, active or not.
  unfoldable pub find_in : List (Bytes × Toolset J S) → Bytes → Option (Tool J S)
  find_in [] tool_name = none
  find_in ((name, set) ∷ rest) tool_name =
      let later = find_in rest tool_name in
      elim (find_tool set tool_name) [ none ↦ later | some tool ↦ some tool ]

  unfoldable pub find : ToolRegistry J S → Bytes → Option (Tool J S)
  unfolding find_in
  find r tool_name = find_in r.toolsets tool_name

  -- `register_tool`: the toolset "default" is made where it is missing.
  with_default : ToolRegistry J S → ToolRegistry J S
  with_default r = elim (lookup default_name r.toolsets) [
    | some set ↦ r
    | none ↦ record {
      toolsets = insert default_name (record { name = default_name; entries = [] }) r.toolsets;
      active_sets = set_insert default_name r.active_sets;
    }
  ]

  add_default : ToolRegistry J S → Tool J S → ToolRegistry J S
  add_default r tool = elim (lookup default_name r.toolsets) [
    | some set ↦ record r { toolsets = insert default_name (Toolset.add set tool none) r.toolsets }
    | none ↦ r
  ]

  unfoldable pub register_tool : ToolRegistry J S → Tool J S → ToolRegistry J S
  unfolding with_default add_default
  register_tool r tool = add_default (with_default r) tool
