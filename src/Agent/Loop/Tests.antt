-- ===== src/Agent/Loop/Tests.antt =====
-- A loop with a store that counts its messages, and a session that plans.
use embedded_agent.Base.{
  ℕ, suc, ◌≡◌, refl, Bytes, true, false, none, some, List, [], ◌∷◌, codes, length, All, bytes_eq,
  bytes_lt, rfind_byte, to_string,
}
use embedded_agent.Core.Error.{ok, returned}
use embedded_agent.Core.Types.{Message, Role, plain_message}
use embedded_agent.Io.FileSystem.Disk.{Disk, disk_os}
use embedded_agent.Tool.Registry
use embedded_agent.Agent.LoopDetector.{default_detector}
use embedded_agent.Agent.PermissionMode.{PermissionMode}
use embedded_agent.Agent.PlanExitTool.{PermissionState}
use embedded_agent.Agent.TurnContext.{Step}
use embedded_agent.Agent.Loop.{
  AgentLoop, Shared, Config, set_permission, set_plan_mode, set_permission_mode, permission_mode,
  strip_legacy_onboarding_directive,
}
use embedded_agent.Agent.Loop.Persist.{ConversationStore}
use embedded_agent.Agent.Loop.Run.{Parts, World, run}
use embedded_agent.Agent.Loop.Modes.{
  IsRemembered, mode_set, none_yet, another, steps-IsRemembered, plan_mode_roundtrip,
}
use embedded_agent.Agent.Loop.Saved.{run-saves}
use embedded_agent.Agent.Loop.Legacy.{IsClean, strip_legacy_onboarding_directive-IsClean}

abbrev counting : ConversationStore Bytes ℕ
counting = record {
  create = λ s. (ok (codes "conv_1"), s);
  append = λ id msg s. (ok tt, suc s);
  archive_and_compact = λ id messages s. (ok tt, s);
}

abbrev parts : Parts Bytes ℕ
parts = record {
  provider = none;
  registry = Registry.empty;
  memory = none;
  strategy = none;
  conv_store = some counting;
  curated_memory = none;
  output = none;
  stream_fn = none;
  listeners = [];
  platform_description = codes "Linux";
  timestamp = λ s. codes "now";
}

abbrev config : Config
config = record {
  max_iterations = 2;
  max_tool_output_bytes = 100;
  auto_memory = true;
  stream = true;
  auto_persist = true;
  model = [];
  soul = [];
  context_files = [];
  skills_index = [];
  onboarding_directive = [];
  plan_dir = codes "/p";
  max_tokens = 0;
}

abbrev loop : AgentLoop Bytes
loop = record {
  config = config;
  history = [];
  base_system_prompt = codes "be kind";
  system_prompt = codes "be kind";
  conversation_id = codes "conv_1";
  plan_file = [];
  onboarding_injected = false;
}

abbrev shared : Shared Bytes
shared = record {
  pending_persist = [];
  permission = none;
  interrupted = false;
  loop_detector = default_detector;
  compressor = none;
}

-- A step that ends the run.
abbrev stop : Step Bytes (World Bytes ℕ)
stop ctx w = (returned (ok tt), record ctx { should_stop = true }, w)

run_stores_the_question : (run parts (stop ∷ []) (codes "why?") loop (shared, 0)).2.1 ≡ 1
unfolding run
run_stores_the_question = refl

run-saves_example : (run parts (stop ∷ []) (codes "why?") loop (shared, 0)).2.0.pending_persist ≡ []
unfolding run
run-saves_example = run-saves parts counting (stop ∷ []) (codes "why?") loop (shared, 0) refl refl

abbrev manual : PermissionState
manual = record {
  mode = PermissionMode.accept_edits;
  previous = PermissionMode.accept_edits;
  exit_approved = false;
  plan_file = [];
}

abbrev auto : PermissionState
auto = record manual {
  mode = PermissionMode.bypass_permissions;
  previous = PermissionMode.bypass_permissions;
}

abbrev clock : Disk → ℕ
clock disk = 7

steps-IsRemembered_example : IsRemembered auto
unfolding IsRemembered set_permission_mode
steps-IsRemembered_example =
    steps-IsRemembered disk_os clock manual auto
      (another manual auto auto (mode_set PermissionMode.bypass_permissions manual loop shared [])
        (none_yet auto))
      (refl, λ k. refl)

plan_mode_roundtrip_example :
    let (r, planning, at, t) =
      set_plan_mode disk_os clock true loop (set_permission manual shared) [] in
    (permission_mode at ≡ PermissionMode.plan)
    × ((file : Bytes) × ((set_plan_mode disk_os clock false planning at t).2.permission
          ≡ some (record manual { exit_approved = false; plan_file = file })))
unfolding IsRemembered set_plan_mode disk_os rfind_byte bytes_eq bytes_lt to_string
plan_mode_roundtrip_example =
    plan_mode_roundtrip disk_os clock manual loop shared [] (refl, λ k. refl) refl refl

abbrev restored : List (Message Bytes)
restored =
    plain_message Role.user
      (codes "hello\n\n[System note: This is the user's very first message ever. Ask.]")
    ∷ plain_message Role.assistant (codes "hi")
    ∷ []

strip_test :
    strip_legacy_onboarding_directive restored
    ≡ plain_message Role.user (codes "hello") ∷ plain_message Role.assistant (codes "hi") ∷ []
unfolding strip_legacy_onboarding_directive
strip_test = refl

strip_legacy_onboarding_directive-IsClean_example :
    All IsClean (strip_legacy_onboarding_directive restored)
    × (length (strip_legacy_onboarding_directive restored) ≡ 2)
strip_legacy_onboarding_directive-IsClean_example =
    strip_legacy_onboarding_directive-IsClean restored
