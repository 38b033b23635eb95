-- ===== src/Agent/Loop.antt =====
-- src/agent/AgentLoop.cpp: the state of the loop, its history and its permission modes. What the steps,
-- the tools and other threads share with the loop is `Shared`, in front of the state `S` of the outside.
-- The log lines are left out.
pub mod Persist
pub mod Run
pub mod DefaultSteps
pub mod Modes
pub mod Saved
pub mod Answers
pub mod Legacy
mod Tests
use embedded_agent.Base.{
  ℕ, ◌-◌, Bytes, Bool, true, false, not, ◌&&◌, Option, none, some, List, [], ◌∷◌, ◌++◌, codes,
  length, take, drop, leb, is_empty, bytes_eq, find, to_string, if◌then◌else◌,
}
use embedded_agent.Core.Error.{Result, ok, err, error_of, ErrorCode}
use embedded_agent.Core.Types.{Message, Role}
use embedded_agent.Io.FileSystem.{Posix, mkdir_p, parent_path, data_dir, value_or}
use embedded_agent.Io.FileSystem.Roots.{find_git_root}
use embedded_agent.Agent.ContextCompressor.{ContextCompressor, is_system}
use embedded_agent.Agent.LoopDetector.{LoopDetector}
use embedded_agent.Agent.PermissionMode.{PermissionMode, is_plan, permission_mode_from_name}
use embedded_agent.Agent.PlanExitTool.{PermissionState, restored_mode}

pub record Config : Type 0 where
  pub max_iterations : ℕ
  pub max_tool_output_bytes : ℕ
  pub auto_memory : Bool
  pub stream : Bool
  pub auto_persist : Bool
  pub model : Bytes
  pub soul : Bytes
  pub context_files : Bytes
  pub skills_index : Bytes
  pub onboarding_directive : Bytes
  pub plan_dir : Bytes
  pub max_tokens : ℕ

-- `pending_persist_`, `*config_.permission`, `interrupted_`, `loop_detector_` and `*compressor_`
pub record Shared (J : Type 0) : Type 0 where
  pub pending_persist : List (Message J)
  pub permission : Option PermissionState
  pub interrupted : Bool
  pub loop_detector : LoopDetector
  pub compressor : Option ContextCompressor

pub record AgentLoop (J : Type 0) : Type 0 where
  pub config : Config
  pub history : List (Message J)
  pub base_system_prompt : Bytes
  pub system_prompt : Bytes
  pub conversation_id : Bytes
  pub plan_file : Bytes
  pub onboarding_injected : Bool

abbrev pub is_user : Role → Bool
is_user Role.user = true
is_user _ = false

abbrev pub mode_eq : PermissionMode → PermissionMode → Bool
mode_eq PermissionMode.manual PermissionMode.manual = true
mode_eq PermissionMode.accept_edits PermissionMode.accept_edits = true
mode_eq PermissionMode.plan PermissionMode.plan = true
mode_eq PermissionMode.bypass_permissions PermissionMode.bypass_permissions = true
mode_eq _ _ = false

-- What `append_to_history` adds to the messages that wait to be stored.
abbrev pub push_pending : {J : Type 0} → Message J → Shared J → Shared J
push_pending msg shared =
    if is_system msg.role
    then shared
    else record shared { pending_persist = shared.pending_persist ++ msg ∷ [] }

abbrev pub append_to_history :
    {J : Type 0} → Message J → AgentLoop J → Shared J → AgentLoop J × Shared J
append_to_history msg loop shared =
    (record loop { history = loop.history ++ msg ∷ [] }, push_pending msg shared)

unfoldable pub clear_history : {J : Type 0} → AgentLoop J → Shared J → AgentLoop J × Shared J
clear_history loop shared = (
  record loop { history = []; base_system_prompt = []; system_prompt = []; conversation_id = [] },
  record shared { pending_persist = [] },
)

abbrev pub permission_mode : {J : Type 0} → Shared J → PermissionMode
permission_mode shared = elim shared.permission [ none ↦ PermissionMode.manual | some p ↦ p.mode ]

unfoldable pub legacy_marker : Bytes
legacy_marker = codes "[System note: This is the user's very first message ever."

-- The content in front of the marker, and of an empty line in front of that.
unfoldable pub strip_content : Bytes → Bytes
unfolding legacy_marker find bytes_eq
strip_content content = elim (find legacy_marker content) [
  | none ↦ content
  | some pos ↦
      if leb 2 pos && bytes_eq (take 2 (drop (pos - 2) content)) (codes "\n\n")
      then take (pos - 2) content
      else take pos content
]

unfoldable pub strip_legacy_onboarding_directive :
    {J : Type 0} → List (Message J) → List (Message J)
unfolding strip_content
strip_legacy_onboarding_directive [] = []
strip_legacy_onboarding_directive (msg ∷ messages) =
    let rest = strip_legacy_onboarding_directive messages in
    (if is_user msg.role then record msg { content = strip_content msg.content } else msg) ∷ rest

-- The last message of the user.
abbrev pub last_user : {J : Type 0} → List (Message J) → Option (Message J)
last_user [] = none
last_user (msg ∷ messages) = elim (last_user messages) [
  | some later ↦ some later
  | none ↦ if is_user msg.role then some msg else none
]

abbrev pub clear_prompts : {J : Type 0} → AgentLoop J → AgentLoop J
clear_prompts loop = record loop { base_system_prompt = []; system_prompt = [] }

-- The plan file of the loop and of the shared state.
abbrev pub set_plan_file : {J : Type 0} → Bytes → AgentLoop J → AgentLoop J
set_plan_file path loop = record loop { plan_file = path }

abbrev pub set_permission : {J : Type 0} → PermissionState → Shared J → Shared J
set_permission p shared = record shared { permission = some p }

-- `set_plan_mode(false)` in the plan mode.
abbrev pub leave_plan_mode : PermissionState → PermissionState
leave_plan_mode p = record p { exit_approved = false; mode = restored_mode p.previous }

module _ {J S : Type 0} (os : Posix S) (now : S → ℕ) where
  -- `std::time` is `now`.
  unfoldable pub resolve_plan_file : AgentLoop J → S → Result Bytes
  unfolding find_git_root data_dir
  resolve_plan_file loop s =
      let cwd = value_or (codes ".") (os.getcwd s) in
      let base =
        if not (is_empty loop.config.plan_dir)
        then loop.config.plan_dir
        else elim (find_git_root os cwd s) [
          | ok git ↦ git ++ codes "/.opencode/plans"
          | err e ↦ elim (data_dir os s) [
            | ok dir ↦ dir ++ codes "/plans"
            | err f ↦ cwd ++ codes "/.opencode/plans"
          ]
        ] in
      let slug = if is_empty loop.conversation_id then codes "draft" else loop.conversation_id in
      ok (base ++ codes "/plan-" ++ to_string (now s) ++ codes "-" ++ slug ++ codes ".md")

  -- `set_plan_mode(true)` outside the plan mode, at the plan file that was found.
  unfoldable pub enter_at :
      PermissionState
      → AgentLoop J
      → Shared J
      → S
      → Result Bytes
      → Result (Unit {0}) × AgentLoop J × Shared J × S
  unfolding mkdir_p parent_path
  enter_at p loop shared s (err e) = (err e, loop, shared, s)
  enter_at p loop shared s (ok path) =
      let (dir, t) = mkdir_p os (parent_path path) s in
      elim dir [
        | err e ↦
            (err e, set_plan_file [] loop, set_permission (record p { plan_file = [] }) shared, t)
        | ok u ↦ (
          ok tt,
          clear_prompts (set_plan_file path loop),
          set_permission (record p { mode = PermissionMode.plan; plan_file = path }) shared,
          t,
        )
      ]

  unfoldable pub enter_plan_mode :
      PermissionState → AgentLoop J → Shared J → S → Result (Unit {0}) × AgentLoop J × Shared J × S
  unfolding enter_at resolve_plan_file
  enter_plan_mode p loop shared s = enter_at p loop shared s (resolve_plan_file loop s)

  unfoldable pub set_plan_mode :
      Bool → AgentLoop J → Shared J → S → Result (Unit {0}) × AgentLoop J × Shared J × S
  unfolding enter_plan_mode
  set_plan_mode active loop shared s = elim shared.permission [
    | none ↦ (
      err (error_of ErrorCode.invalid_argument (codes "plan mode is not available")),
      loop,
      shared,
      s,
    )
    | some p ↦
        if active
        then if is_plan p.mode then (ok tt, loop, shared, s) else enter_plan_mode p loop shared s
        else if is_plan p.mode
        then (ok tt, clear_prompts loop, set_permission (leave_plan_mode p) shared, s)
        else (ok tt, loop, shared, s)
  ]

  unfoldable pub set_permission_mode :
      PermissionMode → AgentLoop J → Shared J → S → Result (Unit {0}) × AgentLoop J × Shared J × S
  unfolding set_plan_mode
  set_permission_mode m loop shared s = elim shared.permission [
    | none ↦ (
      err (error_of ErrorCode.invalid_argument (codes "permission modes are not available")),
      loop,
      shared,
      s,
    )
    | some p ↦
        if mode_eq p.mode m
        then (ok tt, loop, shared, s)
        else if is_plan m
        then set_plan_mode true loop shared s
        else (
          ok tt,
          clear_prompts loop,
          set_permission
              (record p {
                exit_approved = if is_plan p.mode then false else p.exit_approved;
                mode = m;
                previous = m;
              })
              shared,
          s,
        )
  ]

  -- The plan mode of a restored conversation whose last message names no plan file.
  unfoldable pub restore_at :
      PermissionState → AgentLoop J → S → Result Bytes → AgentLoop J × PermissionState × S
  unfolding mkdir_p parent_path
  restore_at p loop s (err e) = (loop, record p { mode = PermissionMode.plan }, s)
  restore_at p loop s (ok path) = (
    set_plan_file path loop,
    record p { mode = PermissionMode.plan; plan_file = path },
    (mkdir_p os (parent_path path) s).1,
  )

  -- The permission state and the plan file for a mode and the last message of the user.
  unfoldable pub restore_mode :
      PermissionMode
      → Message J
      → PermissionState
      → AgentLoop J
      → S
      → AgentLoop J × PermissionState × S
  unfolding resolve_plan_file restore_at
  restore_mode pm msg p loop s =
      if is_plan pm
      then if is_empty msg.plan_file then restore_at p loop s (resolve_plan_file loop s) else (
        set_plan_file msg.plan_file loop,
        record p { mode = pm; plan_file = msg.plan_file },
        s,
      )
      else (set_plan_file [] loop, record p { mode = pm; previous = pm; plan_file = [] }, s)

  unfoldable pub restore_conversation :
      Bytes → List (Message J) → AgentLoop J → Shared J → S → AgentLoop J × Shared J × S
  unfolding strip_legacy_onboarding_directive restore_mode permission_mode_from_name
  restore_conversation conversation_id messages loop shared s =
      let restored = record loop {
        conversation_id = conversation_id;
        history = strip_legacy_onboarding_directive messages;
        base_system_prompt = [];
      } in
      let emptied = record shared { pending_persist = [] } in
      elim shared.permission [
        | none ↦ (restored, emptied, s)
        | some p ↦
            let cleared = record p { exit_approved = false } in
            elim (last_user restored.history) [
              | none ↦ (restored, set_permission cleared emptied, s)
              | some msg ↦
                  let (after, q, t) =
                    restore_mode (permission_mode_from_name msg.mode) msg cleared restored s in
                  (after, set_permission q emptied, t)
            ]
      ]
