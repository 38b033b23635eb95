-- ===== src/Agent/Loop/Run.antt =====
-- src/agent/AgentLoop.cpp: `run`, a turn after another until one stops. Costs and trace ids, which the
-- events carry, are left out.
use embedded_agent.Base.{
  ℕ, zero, suc, ◌+◌, Bytes, Bool, true, false, not, ◌&&◌, ◌||◌, Option, none, some, List, [], ◌∷◌,
  ◌++◌, codes, length, take, drop, is_empty, find, if◌then◌else◌,
}
use embedded_agent.Core.Error.{Result, ok, err, error_of, ErrorCode, Outcome, returned, thrown}
use embedded_agent.Core.Types.{Message, Role, StreamChunk, ToolSpec, plain_message}
use embedded_agent.Provider.Interface.{Provider}
use embedded_agent.Tool.Registry.{ToolRegistry, active_specs}
use embedded_agent.Memory.Curated.{CuratedMemoryStore, MemoryTarget, format_for_system_prompt}
use embedded_agent.Agent.LoopDetector
use embedded_agent.Agent.PermissionMode.{is_plan, permission_mode_name}
use embedded_agent.Agent.PlanExitTool.{PermissionState, restored_mode}
use embedded_agent.Agent.SystemPrompt.{MemoryEntry, PromptContext, build_system_prompt}
use embedded_agent.Agent.TurnContext.{TurnContext, AgentEvent, Step, run_step_chain}
use embedded_agent.Agent.Loop.{
  AgentLoop, Shared, permission_mode, push_pending, append_to_history, last_user,
}
use embedded_agent.Agent.Loop.Persist.{ConversationStore, persist_or_archive}

-- What the steps read and change: the shared state and the outside.
abbrev pub World : Type 0 → Type 0 → Type 0
World J S = Shared J × S

-- `recall(query, 5)` and `list(5, 0)` of `IMemory`
pub record Memory (S : Type 0) : Type 0 where
  pub recall : Bytes → S → Result (List MemoryEntry) × S
  pub recent : S → Result (List MemoryEntry) × S

-- `IMemoryStrategy` with the memory that the loop hands to it.
pub record MemoryStrategy (J S : Type 0) : Type 0 where
  pub build_memory_prompt : List (Message J) → S → Bytes × S
  pub on_turn_end : List (Message J) → Bytes → Bytes → S → List (Message J) × S

-- The objects that the loop was given. `strategy` is there where the source has a strategy and a memory.
pub record Parts (J S : Type 0) : Type 0 where
  pub provider : Option (Provider J (World J S))
  pub registry : ToolRegistry J (World J S)
  pub memory : Option (Memory S)
  pub strategy : Option (MemoryStrategy J S)
  pub conv_store : Option (ConversationStore J S)
  pub curated_memory : Option (S → CuratedMemoryStore)
  pub output : Option (Bytes → S → S)
  pub stream_fn : Option (StreamChunk J → World J S → World J S)
  pub listeners : List (AgentEvent J → S → S)
  pub platform_description : Bytes
  pub timestamp : S → Bytes

abbrev pub tell : {J S : Type 0} → List (AgentEvent J → S → S) → AgentEvent J → S → S
tell [] event s = s
tell (listener ∷ listeners) event s = tell listeners event (listener event s)

abbrev pub is_assistant : Role → Bool
is_assistant Role.assistant = true
is_assistant _ = false

-- The content of the last message of the assistant.
abbrev pub last_output : {J : Type 0} → List (Message J) → Option Bytes
last_output [] = none
last_output (msg ∷ messages) = elim (last_output messages) [
  | some later ↦ some later
  | none ↦ if is_assistant msg.role then some msg.content else none
]

abbrev pub text_or_empty : Option Bytes → Bytes
text_or_empty none = []
text_or_empty (some text) = text

abbrev pub tool_lines : {J : Type 0} → List (ToolSpec J) → Bytes
tool_lines [] = []
tool_lines (spec ∷ specs) =
    codes "- " ++ spec.name ++ codes ": " ++ spec.description ++ codes "\n" ++ tool_lines specs

-- `PLAN_MODE_PROMPT` in front of the plan file and behind it
unfoldable pub plan_prompt_head : Bytes
plan_prompt_head =
    codes "\n## PLAN MODE "
    ++ embedded_agent.Base.em_dash
    ++ codes
        " READ-ONLY\n\nYou are in PLAN MODE. You MUST NOT modify any file except the plan file, run\nshell commands, delegate work to sub-agents, or otherwise change system state.\nThis constraint overrides any other instruction you receive.\n\nPlan file: "

unfoldable pub plan_prompt_tail : Bytes
plan_prompt_tail =
    codes
      "\n\nWorkflow:\n1. Explore the codebase with read-only tools (file read, search, web).\n2. Ask the user clarifying questions when needed.\n3. Write the final plan to the plan file with the file tool. Include the files\n   that will change and a verification section.\n4. Call plan_exit only after the plan file is complete.\n"

-- The shared state when a plan was approved.
abbrev pub hand_over_state : {J : Type 0} → PermissionState → Shared J → Shared J
hand_over_state p shared = record shared {
  permission = some (record p { exit_approved = false; mode = restored_mode p.previous });
  loop_detector = LoopDetector.reset shared.loop_detector;
}

-- The message that starts the work on the plan.
abbrev pub plan_message : {J : Type 0} → PermissionState → AgentLoop J → Message J
plan_message p loop =
    record (plain_message Role.user
      (codes "Plan approved. Execute the plan at " ++ loop.plan_file)) {
        mode = permission_mode_name (restored_mode p.previous);
        plan_file = loop.plan_file;
      }

-- The plan that was approved in this turn.
abbrev pub approved_plan : {J : Type 0} → Shared J → Option PermissionState
approved_plan shared = elim shared.permission [
  | none ↦ none
  | some p ↦ if p.exit_approved then some p else none
]

-- The message of the user that starts a run.
abbrev pub user_message : {J : Type 0} → Bytes → AgentLoop J → Shared J → Message J
user_message user_input loop shared = record (plain_message Role.user user_input) {
  mode = permission_mode_name (permission_mode shared);
  plan_file = if is_plan (permission_mode shared) then loop.plan_file else [];
}

module _ {J S : Type 0} (parts : Parts J S) where
  -- The memories about the last text of the user, or the recent ones.
  unfoldable pub relevant_memories : AgentLoop J → S → List MemoryEntry × S
  relevant_memories loop s = elim parts.memory [
    | none ↦ ([], s)
    | some memory ↦ if not loop.config.auto_memory then ([], s) else elim (last_user loop.history) [
      | none ↦ ([], s)
      | some msg ↦
          let (recalled, t) = memory.recall msg.content s in
          let (listed, u) = memory.recent t in
          let latest : List MemoryEntry = elim listed [ ok entries ↦ entries | err e ↦ [] ] in
          elim recalled [
            | err e ↦ (latest, u)
            | ok entries ↦ if is_empty entries then (latest, u) else (entries, t)
          ]
    ]
  ]

  unfoldable pub prompt_context : AgentLoop J → List MemoryEntry → World J S → PromptContext
  unfolding format_for_system_prompt active_specs
  prompt_context loop memories (shared, s) = record {
    soul =
        if is_empty loop.config.soul
        then codes "You are a helpful AI assistant."
        else loop.config.soul;
    tool_guidance =
        codes "Available tools:\n" ++ tool_lines (active_specs parts.registry (shared, s));
    platform_info = parts.platform_description;
    skills_index = loop.config.skills_index;
    context_files = loop.config.context_files;
    relevant_memories = memories;
    curated_memory = elim parts.curated_memory [
      | none ↦ []
      | some curated ↦ format_for_system_prompt (curated s) MemoryTarget.memory
    ];
    user_profile = elim parts.curated_memory [
      | none ↦ []
      | some curated ↦ format_for_system_prompt (curated s) MemoryTarget.user
    ];
  }

  unfoldable pub build_system_prompt_once : AgentLoop J → Shared J → S → AgentLoop J × S
  unfolding relevant_memories prompt_context build_system_prompt plan_prompt_head plan_prompt_tail
  build_system_prompt_once loop shared s =
      let (memories, t) = relevant_memories loop s in
      let prompt =
        build_system_prompt (parts.timestamp t) (prompt_context loop memories (shared, t)) in
      let whole =
        if is_plan (permission_mode shared)
        then prompt ++ codes "\n\n" ++ plan_prompt_head ++ loop.plan_file ++ plan_prompt_tail
        else prompt in
      if is_empty loop.base_system_prompt
      then (record loop { base_system_prompt = whole; system_prompt = whole }, t)
      else (loop, s)

  -- The part of the prompt that the strategy renews.
  unfoldable pub refresh_prompt : AgentLoop J → S → AgentLoop J × S
  refresh_prompt loop s = elim parts.strategy [
    | none ↦ (loop, s)
    | some strategy ↦
        let (mem_prompt, t) = strategy.build_memory_prompt loop.history s in
        let prompt =
          if is_empty mem_prompt
          then loop.base_system_prompt
          else loop.base_system_prompt ++ codes "\n" ++ mem_prompt in
        (record loop { system_prompt = prompt }, t)
  ]

  -- The conversation that the first run creates.
  unfoldable pub ensure_conversation : AgentLoop J → S → AgentLoop J × S
  ensure_conversation loop s = elim parts.conv_store [
    | none ↦ (loop, s)
    | some store ↦
        let (created, t) = store.create s in
        if loop.config.auto_persist && is_empty loop.conversation_id
        then elim created [ err e ↦ (loop, t) | ok id ↦ (record loop { conversation_id = id }, t) ]
        else (loop, s)
  ]

  unfoldable pub context_of : ℕ → Bool → AgentLoop J → World J S → TurnContext J (World J S)
  context_of iteration inject loop (shared, s) = record {
    messages = loop.history;
    pending_tool_calls = [];
    tool_results = [];
    tool_specs = [];
    response = record {
      content = [];
      tool_calls = [];
      usage = record {
        input_tokens = 0;
        output_tokens = 0;
        cache_read_tokens = 0;
        cache_write_tokens = 0;
      };
      stop_reason = [];
    };
    iteration = iteration;
    max_tool_output_bytes = loop.config.max_tool_output_bytes;
    should_stop = false;
    interrupted = λ w. w.0.interrupted;
    registry = some parts.registry;
    permission_mode = permission_mode shared;
    plan_file = loop.plan_file;
    agent_id = [];
    emit_fn = some (λ event w. (w.0, tell parts.listeners event w.1));
    provider = parts.provider;
    system_prompt =
        if inject
        then loop.system_prompt ++ codes "\n" ++ loop.config.onboarding_directive
        else loop.system_prompt;
    model = loop.config.model;
    max_tokens = loop.config.max_tokens;
    stream_callback = parts.stream_fn;
    compression_applied = false;
    append_message_fn =
        some (λ msg messages w. (messages ++ msg ∷ [], (push_pending msg w.0, w.1)));
  }

  -- The strategy's part of the end of a run.
  unfoldable pub end_turn : Bytes → AgentLoop J → S → AgentLoop J × S
  end_turn user_input loop s = elim parts.strategy [
    | none ↦ (loop, s)
    | some strategy ↦ elim parts.provider [
      | none ↦ (loop, s)
      | some provider ↦
          let (kept, t) =
            strategy.on_turn_end loop.history user_input (text_or_empty (last_output loop.history))
              s in
          (record loop { history = kept }, t)
    ]
  ]

  -- What the strategy and the store get at the end of a run.
  unfoldable pub close_run : Bytes → Bool → AgentLoop J → Shared J → S → AgentLoop J × World J S
  unfolding end_turn persist_or_archive
  close_run user_input compressed loop shared s =
      let (ended, t) = end_turn user_input loop s in
      (ended, persist_or_archive parts.conv_store compressed ended shared t)

  unfoldable pub say : Bytes → S → S
  say text s = elim parts.output [ none ↦ s | some output ↦ output text s ]

  -- What follows an approved plan.
  unfoldable pub hand_over : PermissionState → AgentLoop J → World J S → AgentLoop J × World J S
  unfolding build_system_prompt_once refresh_prompt
  hand_over p loop (shared, s) =
      let (asked, noted) =
        append_to_history (plan_message p loop) loop (hand_over_state p shared) in
      let (built, t) =
        build_system_prompt_once (record asked { base_system_prompt = [] }) noted s in
      let (fresh, u) = refresh_prompt built t in
      (
        fresh,
        (
          noted,
          tell parts.listeners
              (AgentEvent.mode_changed (permission_mode_name (restored_mode p.previous))) u,
        ),
      )

  -- What follows a turn that stops.
  unfoldable pub finish :
      Bytes → Bool → TurnContext J (World J S) → AgentLoop J → World J S → AgentLoop J × World J S
  unfolding say close_run
  finish user_input compressed ctx loop (shared, s) =
      let told =
        tell parts.listeners (AgentEvent.turn_end ctx.iteration ctx.agent_id ctx.response.content)
          s in
      let streamed : Bool = elim parts.stream_fn [ none ↦ false | some f ↦ loop.config.stream ] in
      let shown =
        if streamed || is_empty ctx.response.content then told else say ctx.response.content told in
      close_run user_input compressed loop shared shown

  -- What follows the last iteration.
  unfoldable pub exhausted : Bytes → Bool → AgentLoop J → World J S → AgentLoop J × World J S
  unfolding say close_run
  exhausted user_input compressed loop (shared, s) =
      let (ended, (saved, t)) = close_run user_input compressed loop shared s in
      (ended, (saved, say (codes "[Warning: Reached maximum iteration limit]") t))

  -- The end of a turn without a handover: the run ends, or `again` goes on with it.
  unfoldable pub stop_or_go :
      (AgentLoop J → World J S → Outcome (Result (Unit {0})) × AgentLoop J × World J S)
      → Bytes
      → Bool
      → TurnContext J (World J S)
      → AgentLoop J
      → World J S
      → Bool
      → Outcome (Result (Unit {0})) × AgentLoop J × World J S
  unfolding finish
  stop_or_go again user_input compressed ctx loop w true =
      let (ended, after) = finish user_input compressed ctx loop w in
      (returned (ok tt), ended, after)
  stop_or_go again user_input compressed ctx loop w false = again loop w

  -- The end of a turn whose steps succeeded.
  unfoldable pub turn_succeeded :
      (AgentLoop J → World J S → Outcome (Result (Unit {0})) × AgentLoop J × World J S)
      → Bytes
      → Bool
      → TurnContext J (World J S)
      → AgentLoop J
      → World J S
      → Option PermissionState
      → Outcome (Result (Unit {0})) × AgentLoop J × World J S
  unfolding hand_over stop_or_go
  turn_succeeded again user_input compressed ctx loop w (some p) =
      let (over, given) = hand_over p loop w in again over given
  turn_succeeded again user_input compressed ctx loop w none =
      stop_or_go again user_input compressed ctx loop w ctx.should_stop

  -- The end of a turn.
  unfoldable pub turn_ended :
      (AgentLoop J → World J S → Outcome (Result (Unit {0})) × AgentLoop J × World J S)
      → Bytes
      → Bool
      → TurnContext J (World J S)
      → AgentLoop J
      → World J S
      → Outcome (Result (Unit {0}))
      → Outcome (Result (Unit {0})) × AgentLoop J × World J S
  unfolding turn_succeeded
  turn_ended again user_input compressed ctx loop w thrown = (thrown, loop, w)
  turn_ended again user_input compressed ctx loop w (returned (err e)) = (
    returned (err e),
    loop,
    (w.0, tell parts.listeners (AgentEvent.error ctx.iteration ctx.agent_id e.message) w.1),
  )
  turn_ended again user_input compressed ctx loop w (returned (ok u)) =
      turn_succeeded again user_input compressed ctx loop w (approved_plan w.0)

  -- The turn of the iteration `i`.
  unfoldable pub take_turn :
      List (Step J (World J S))
      → Bool
      → ℕ
      → AgentLoop J
      → World J S
      → Outcome (Result (Unit {0})) × TurnContext J (World J S) × World J S
  unfolding context_of run_step_chain
  take_turn steps inject i loop w =
      let ctx = context_of i inject loop w in
      let text : Bytes = elim (last_user loop.history) [ none ↦ [] | some msg ↦ msg.content ] in
      let started : World J S =
        (w.0, tell parts.listeners (AgentEvent.turn_start i ctx.agent_id text) w.1) in
      run_step_chain steps ctx started

  -- An iteration, after the look at `interrupted_`.
  unfoldable pub round :
      (Bool → AgentLoop J → World J S → Outcome (Result (Unit {0})) × AgentLoop J × World J S)
      → List (Step J (World J S))
      → Bytes
      → Bool
      → ℕ
      → Bool
      → AgentLoop J
      → World J S
      → Bool
      → Outcome (Result (Unit {0})) × AgentLoop J × World J S
  unfolding take_turn turn_ended
  round again steps user_input inject i compressed loop w true = (
    returned (err (error_of ErrorCode.timeout (codes "agent loop interrupted"))),
    loop,
    (w.0, tell parts.listeners AgentEvent.interrupt w.1),
  )
  round again steps user_input inject i compressed loop w false =
      let (outcome, end, v) = take_turn steps inject i loop w in
      let applied = compressed || end.compression_applied in
      turn_ended (again applied) user_input applied end (record loop { history = end.messages }) v
        outcome

  -- The loop, from the iteration `i` on, with `left` iterations left.
  unfoldable pub rounds :
      List (Step J (World J S))
      → Bytes
      → Bool
      → ℕ
      → ℕ
      → Bool
      → AgentLoop J
      → World J S
      → Outcome (Result (Unit {0})) × AgentLoop J × World J S
  unfolding exhausted round
  rounds steps user_input inject zero i compressed loop w =
      let (ended, after) = exhausted user_input compressed loop w in
      (returned (ok tt), ended, after)
  rounds steps user_input inject (suc left) i compressed loop w =
      round (λ applied next v. rounds steps user_input inject left (suc i) applied next v) steps
        user_input inject i compressed loop w w.0.interrupted

  -- `!directive.empty() && !onboarding_injected_ && history_.empty()`
  abbrev pub is_onboarding : AgentLoop J → Bool
  is_onboarding loop =
      (not (is_empty loop.config.onboarding_directive) && not loop.onboarding_injected)
      && is_empty loop.history

  -- What `run` does in front of its loop.
  unfoldable pub begin_run : Bytes → AgentLoop J → World J S → AgentLoop J × World J S
  unfolding build_system_prompt_once refresh_prompt ensure_conversation
  begin_run user_input loop (shared, s) =
      let fresh : Shared J = record shared {
        interrupted = false;
        loop_detector = LoopDetector.reset shared.loop_detector;
      } in
      let marked : AgentLoop J = record loop {
        onboarding_injected = loop.onboarding_injected || is_onboarding loop;
      } in
      let (asked, noted) = append_to_history (user_message user_input marked fresh) marked fresh in
      let (built, t) = build_system_prompt_once asked noted s in
      let (renewed, u) = refresh_prompt built t in
      let (ready, v) = ensure_conversation renewed u in (ready, (noted, v))

  unfoldable pub run :
      List (Step J (World J S))
      → Bytes
      → AgentLoop J
      → World J S
      → Outcome (Result (Unit {0})) × AgentLoop J × World J S
  unfolding rounds begin_run
  run steps user_input loop w =
      let (ready, v) = begin_run user_input loop w in
      rounds steps user_input (is_onboarding loop) ready.config.max_iterations 0 false ready v
