-- ===== src/Tool/Registry/Tests.antt =====
-- Two toolsets that both have a tool of one name.
use embedded_agent.Base.{
  ℕ, suc, ◌≡◌, refl, Bytes, Bool, true, false, none, some, [], ◌∷◌, codes, bytes_eq,
}
use embedded_agent.Base.Map.{lookup, set_has, set_erase}
use embedded_agent.Core.Error.{ok, returned}
use embedded_agent.Tool.Interface.{Tool}
use embedded_agent.Tool.Toolset.{Toolset, find_tool, find_entry, has_tool, entry_specs}
use embedded_agent.Tool.Toolset
use embedded_agent.Tool.Registry.{
  ToolRegistry, deactivate, execute, execute_in, find, find_in, get_all_names, active_specs,
  specs_in,
}
use embedded_agent.Tool.Registry.Dispatch.{execute-Dispatches, offered_runs, Dispatches, IsFirst}

-- A tool that counts its calls, and says which one it is.
abbrev counter : Bytes → Bool → Tool Bytes ℕ
counter says mutating = record {
  name = codes "write";
  description = says;
  parameters_schema = [];
  is_mutating = mutating;
  is_dangerous = false;
  execute =
      λ args s. (returned (ok (record { call_id = []; output = says; is_error = false })), suc s);
}

abbrev set_of : Bytes → Bool → Toolset Bytes ℕ
set_of name mutating = record {
  name = name;
  entries = record { tool = counter name mutating; check = none } ∷ [];
}

abbrev two_sets : ToolRegistry Bytes ℕ
two_sets = record {
  toolsets = (codes "a", set_of (codes "a") false) ∷ (codes "b", set_of (codes "b") true) ∷ [];
  active_sets = codes "a" ∷ codes "b" ∷ [];
}

abbrev one_set : ToolRegistry Bytes ℕ
one_set = record {
  toolsets = (codes "b", set_of (codes "b") true) ∷ [];
  active_sets = codes "b" ∷ [];
}

-- With the first set inactive, `find` still returns its tool, while `execute` runs the second's.
find_inactive_test :
    find (deactivate two_sets (codes "a")) (codes "write") ≡ some (counter (codes "a") false)
unfolding find find_in deactivate find_tool find_entry bytes_eq
find_inactive_test = refl

execute_inactive_test :
    execute (deactivate two_sets (codes "a")) (codes "write") [] 4
    ≡ (counter (codes "b") true).execute [] 4
unfolding execute execute_in deactivate find_entry set_erase lookup has_tool Toolset.execute
    bytes_eq
execute_inactive_test = refl

execute-Dispatches_example :
    Dispatches two_sets.toolsets two_sets.active_sets
      (codes "write")
      []
      7
      (execute two_sets (codes "write") [] 7)
execute-Dispatches_example = execute-Dispatches two_sets (codes "write") [] 7

offered_runs_example :
    (tool : Tool Bytes ℕ) × IsFirst two_sets.toolsets two_sets.active_sets (codes "write") tool
    × (execute two_sets (codes "write") [] 3 ≡ tool.execute [] 3)
unfolding get_all_names active_specs specs_in entry_specs Toolset.active_specs set_has lookup
    bytes_eq
offered_runs_example = offered_runs two_sets (codes "write") 0 refl [] 3
