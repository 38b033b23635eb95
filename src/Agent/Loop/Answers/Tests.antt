-- ===== src/Agent/Loop/Answers/Tests.antt =====
-- A turn with two calls of a tool that repeats its arguments.
use embedded_agent.Base.{ℕ, Bytes, true, false, none, List, [], ◌∷◌, ◌++◌, codes}
use embedded_agent.Core.Error.{ok, returned}
use embedded_agent.Core.Types.{Message, ToolCall}
use embedded_agent.Tool.Interface.{Tool}
use embedded_agent.Tool.Registry.{ToolRegistry}
use embedded_agent.Agent.LoopDetector.{default_detector}
use embedded_agent.Agent.TurnContext.{TurnContext}
use embedded_agent.Agent.Steps.ExecuteTools
use embedded_agent.Agent.Steps.CollectResults
use embedded_agent.Agent.Loop.{AgentLoop, Shared, push_pending}
use embedded_agent.Agent.Loop.Run.{Parts, World, context_of}

abbrev echo : Tool Bytes (World Bytes ℕ)
echo = record {
  name = codes "echo";
  description = [];
  parameters_schema = [];
  is_mutating = false;
  is_dangerous = false;
  execute = λ args w. (returned (ok (record { call_id = []; output = args; is_error = false })), w);
}

abbrev tools : ToolRegistry Bytes (World Bytes ℕ)
tools = record {
  toolsets =
      (codes "t", record { name = codes "t"; entries = record { tool = echo; check = none } ∷ [] })
      ∷ [];
  active_sets = codes "t" ∷ [];
}

abbrev parts : Parts Bytes ℕ
parts = record {
  provider = none;
  registry = tools;
  memory = none;
  strategy = none;
  conv_store = none;
  curated_memory = none;
  output = none;
  stream_fn = none;
  listeners = [];
  platform_description = [];
  timestamp = λ s. [];
}

abbrev loop : AgentLoop Bytes
loop = record {
  config = record {
    max_iterations = 2;
    max_tool_output_bytes = 100;
    auto_memory = true;
    stream = true;
    auto_persist = true;
    model = [];
    soul = [];
    context_files = [];
    skills_index = [];
    onboarding_directive = [];
    plan_dir = [];
    max_tokens = 0;
  };
  history = [];
  base_system_prompt = [];
  system_prompt = [];
  conversation_id = [];
  plan_file = [];
  onboarding_injected = false;
}

abbrev shared : Shared Bytes
shared = record {
  pending_persist = [];
  permission = none;
  interrupted = false;
  loop_detector = default_detector;
  compressor = none;
}

abbrev call : Bytes → ToolCall Bytes
call id = record { id = id; name = codes "echo"; arguments = codes "{}" }

-- The context as the loop builds it, with two calls parsed.
abbrev turn : TurnContext Bytes (World Bytes ℕ)
turn = record (context_of parts 0 false loop (shared, 0)) {
  pending_tool_calls = call (codes "1") ∷ call (codes "2") ∷ [];
}

abbrev append :
    Message Bytes → List (Message Bytes) → World Bytes ℕ → List (Message Bytes) × World Bytes ℕ
append msg messages w = (messages ++ msg ∷ [], (push_pending msg w.0, w.1))
