-- ===== src/Agent/Steps/Tests.antt =====
-- A turn with two calls: one of a tool that is there and one of a tool that is not.
use embedded_agent.Base.{
  any, ℕ, suc, ◌≡◌, ◌≢◌, ◌⊎◌, refl, Bytes, true, false, none, some, [], ◌∷◌, codes, arith, bytes_eq,
  bytes_eq_iff, bytes_eq_refl,
}
use embedded_agent.Base.Map.{lookup, set_has}
use embedded_agent.Core.Error.{ok, returned}
use embedded_agent.Core.Json.Texts.{text_json}
use embedded_agent.Core.Types.{ToolCall}
use embedded_agent.Tool.Interface.{Tool}
use embedded_agent.Tool.Toolset
use embedded_agent.Tool.Toolset.{Toolset, find_tool, find_entry, entry_specs}
use embedded_agent.Tool.Registry
use embedded_agent.Tool.Registry.{ToolRegistry, find, find_in, active_specs, specs_in}
use embedded_agent.Agent.PermissionMode.{PermissionMode, is_plan}
use embedded_agent.Agent.TurnContext.{TurnContext, Step, run_step_chain}
use embedded_agent.Agent.Steps.BuildToolSpecs.{specs_for, visible_in_plan}
use embedded_agent.Agent.Steps.ExecuteTools
use embedded_agent.Agent.Steps.ExecuteTools.{execute_calls}
use embedded_agent.Agent.Steps.ExecuteTools.Guards.{plan_mode_allows}
use embedded_agent.Agent.Steps.ExecuteTools.PlanMode.{execute-Kept}
use embedded_agent.Agent.LoopDetector.{default_detector}
use embedded_agent.Agent.Steps.LoopDetect
use embedded_agent.Agent.Steps.LoopDetect.{react}
use embedded_agent.Agent.Steps.Loops.{detect_reacts, blocked, actions, is_break, is_block}
use embedded_agent.Agent.Steps.Offers.{offered-allowed}

-- The state outside is a counter of the changes; "bump" changes it and "look" does not.
abbrev bump : Tool Bytes ℕ
bump = record {
  name = codes "bump";
  description = [];
  parameters_schema = [];
  is_mutating = true;
  is_dangerous = false;
  execute =
      λ args s. (returned (ok (record { call_id = []; output = args; is_error = false })), suc s);
}

abbrev look : Tool Bytes ℕ
look = record {
  name = codes "look";
  description = [];
  parameters_schema = [];
  is_mutating = false;
  is_dangerous = false;
  execute = λ args s. (returned (ok (record { call_id = []; output = args; is_error = false })), s);
}

abbrev tools : ToolRegistry Bytes ℕ
tools = record {
  toolsets =
      (
        codes "t",
        record {
          name = codes "t";
          entries =
              record { tool = bump; check = none } ∷ record { tool = look; check = none } ∷ [];
        },
      )
      ∷ [];
  active_sets = codes "t" ∷ [];
}

abbrev call : Bytes → Bytes → ToolCall Bytes
call id name = record { id = id; name = name; arguments = codes "{}" }

abbrev pub two_calls : PermissionMode → TurnContext Bytes ℕ
two_calls mode = record {
  messages = [];
  pending_tool_calls = call (codes "1") (codes "bump") ∷ call (codes "2") (codes "look") ∷ [];
  tool_results = [];
  tool_specs = [];
  response = record {
    content = [];
    tool_calls = [];
    usage = record {
      input_tokens = 0;
      output_tokens = 0;
      cache_read_tokens = 0;
      cache_write_tokens = 0;
    };
    stop_reason = [];
  };
  iteration = 0;
  max_tool_output_bytes = 100;
  should_stop = false;
  interrupted = λ s. false;
  registry = some tools;
  permission_mode = mode;
  plan_file = [];
  agent_id = [];
  emit_fn = none;
  provider = none;
  system_prompt = [];
  model = [];
  max_tokens = 0;
  stream_callback = none;
  compression_applied = false;
  append_message_fn = none;
}

abbrev same_path : ℕ → Bytes → Bytes
same_path s path = path

-- No tool that the plan mode lets pass changes the counter.
no_emit :
    (f : embedded_agent.Agent.TurnContext.AgentEvent Bytes → ℕ → ℕ)
    → none ≡ some f
    → (event : embedded_agent.Agent.TurnContext.AgentEvent Bytes) (s : ℕ) → s ≡ 0
    → f event s ≡ 0
no_emit f h event s e = cc

allowed_keeps :
    (tc : ToolCall Bytes) (s t : ℕ)
    → plan_mode_allows text_json
        (same_path s)
        (two_calls PermissionMode.plan)
        tc
        (find tools tc.name)
      ≡ returned true
    → t ≡ 0
    → (Registry.execute tools tc.name tc.arguments t).1 ≡ 0
unfolding plan_mode_allows find find_in find_tool find_entry Registry.execute Registry.execute_in
    lookup Toolset.has_tool Toolset.execute
allowed_keeps tc s t h e = ground (
  arith,
  bytes_eq_iff (codes "bump") tc.name,
  bytes_eq_iff tc.name (codes "plan_exit"),
  bytes_eq_iff tc.name (codes "file"),
  bytes_eq_refl (codes "t"),
  bytes_eq_iff (codes "look") tc.name,
)

execute-Kept_example :
    (ExecuteTools.execute text_json same_path none none (two_calls PermissionMode.plan) 0).2 ≡ 0
execute-Kept_example =
    execute-Kept text_json (λ s. s ≡ 0) same_path none none tools (two_calls PermissionMode.plan) 0
      refl refl no_emit allowed_keeps refl

false_not_true : false ≢ true
false_not_true = λ h. cc

look_not_file : codes "look" ≢ codes "file"
unfolding bytes_eq
look_not_file = λ e. false_not_true ((bytes_eq_iff (codes "look") (codes "file")).1 e)

offered-allowed_example :
    ((is_plan PermissionMode.plan ≡ true)
      × (plan_mode_allows text_json
            (same_path 0)
            (two_calls PermissionMode.plan)
            (call (codes "3") (codes "look"))
            (find tools (codes "look"))
          ≡ returned true))
    ⊎ ((is_plan PermissionMode.plan ≡ false) × (codes "look" ≢ codes "plan_exit"))
unfolding specs_for visible_in_plan active_specs specs_in Toolset.active_specs entry_specs find
    find_in find_tool find_entry lookup bytes_eq set_has
offered-allowed_example =
    offered-allowed text_json (same_path 0) (two_calls PermissionMode.plan) tools 0
      (call (codes "3") (codes "look")) refl look_not_file

-- A step that counts, and one that stops the turn.
abbrev count_step : Step Bytes ℕ
count_step ctx s = (returned (ok tt), ctx, suc s)

abbrev stop_step : Step Bytes ℕ
stop_step ctx s = (returned (ok tt), record ctx { should_stop = true }, s)

-- Two calls with their results, and a detector that has not seen any.
abbrev two_results : TurnContext Bytes ℕ
two_results = record (two_calls PermissionMode.manual) {
  tool_results =
      record { call_id = []; output = codes "a"; is_error = false }
      ∷ record { call_id = []; output = codes "b"; is_error = false }
      ∷ [];
}

detect_reacts_example :
    ((any is_break (
          actions text_json default_detector two_results.pending_tool_calls
            two_results.tool_results)
        ≡ true)
      × ((LoopDetect.execute text_json none default_detector two_results 0).1
          ≡ record two_results { should_stop = true }))
    ⊎ (((any is_break (
              actions text_json default_detector two_results.pending_tool_calls
                two_results.tool_results)
            ≡ false)
          × (any is_block (
                actions text_json default_detector two_results.pending_tool_calls
                  two_results.tool_results)
              ≡ true)
          × ((LoopDetect.execute text_json none default_detector two_results 0).1
              ≡ blocked two_results))
        ⊎ ((any is_break (
                actions text_json default_detector two_results.pending_tool_calls
                  two_results.tool_results)
              ≡ false)
            × (any is_block (
                  actions text_json default_detector two_results.pending_tool_calls
                    two_results.tool_results)
                ≡ false)
            × ((LoopDetect.execute text_json none default_detector two_results 0).1 ≡ two_results)))
detect_reacts_example = detect_reacts text_json none default_detector two_results 0 refl refl
