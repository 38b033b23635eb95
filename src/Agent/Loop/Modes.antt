-- ===== src/Agent/Loop/Modes.antt =====
-- The permission modes over a whole session.
use embedded_agent.Base.{
  ℕ, ◌≡◌, refl, sym, ap, ◌∙◌, Bytes, Bool, true, false, inl, inr, Option, Option-cases, none, some,
  List, [], if-both, arith, is_empty,
}
use embedded_agent.Core.Error.{Result, ok, err, Result-cases}
use embedded_agent.Core.Types.{Message}
use embedded_agent.Io.FileSystem.{Posix, mkdir_p, parent_path}
use embedded_agent.Security.Approval.{ApprovalDecision}
use embedded_agent.Agent.PermissionMode.{PermissionMode, is_plan, permission_mode_from_name}
use embedded_agent.Agent.PlanExitTool.{PermissionState, restored_mode, answer}
use embedded_agent.Agent.Loop.{
  AgentLoop, Shared, set_permission, set_permission_mode, set_plan_mode, enter_plan_mode, enter_at,
  restore_at, leave_plan_mode, mode_eq, restore_conversation, restore_mode, permission_mode,
  last_user, strip_legacy_onboarding_directive, resolve_plan_file,
}
use embedded_agent.Agent.Loop.Run.{hand_over_state}

-- The mode to come back to is not the plan mode, and it is the current one outside the plan mode.
unfoldable pub IsRemembered : PermissionState → Type 0
IsRemembered p = (is_plan p.previous ≡ false) × (is_plan p.mode ≡ false → p.previous ≡ p.mode)

unfoldable pub AllRemembered : Option PermissionState → Type 0
unfolding IsRemembered
AllRemembered none = Unit
AllRemembered (some p) = IsRemembered p

restored_mode-other : (m : PermissionMode) → is_plan m ≡ false → restored_mode m ≡ m
restored_mode-other m h = rw h refl

answer-IsRemembered :
    (decision : ApprovalDecision) (p : PermissionState)
    → IsRemembered p
    → IsRemembered (answer decision p).1
unfolding IsRemembered answer
answer-IsRemembered ApprovalDecision.approved p h =
    (h.0, λ k. sym (restored_mode-other p.previous h.0))
answer-IsRemembered ApprovalDecision.aborted p h = h
answer-IsRemembered ApprovalDecision.rejected p h = h

leave_plan_mode-IsRemembered :
    (p : PermissionState) → IsRemembered p → IsRemembered (leave_plan_mode p)
unfolding IsRemembered
leave_plan_mode-IsRemembered p h = (h.0, λ k. sym (restored_mode-other p.previous h.0))

module _ {J S : Type 0} (os : Posix S) (now : S → ℕ) where
  enter_at-AllRemembered :
      (p : PermissionState) (loop : AgentLoop J) (shared : Shared J) (s : S) (path : Result Bytes)
      → AllRemembered shared.permission
      → IsRemembered p
      → AllRemembered (enter_at os now p loop shared s path).2.permission
  unfolding AllRemembered enter_at
  enter_at-AllRemembered p loop shared s (err e) k h = k
  enter_at-AllRemembered p loop shared s (ok path) k h =
      elim (Result-cases (mkdir_p os (parent_path path) s).0) [
        | inl (u, e) ↦ rw (enter_at, e) (h.0, λ l. cc)
        | inr (f, e) ↦ rw (enter_at, e) h
      ]

  restore_at-IsRemembered :
      (p : PermissionState) (loop : AgentLoop J) (s : S) (path : Result Bytes)
      → IsRemembered p
      → IsRemembered (restore_at os now p loop s path).1
  unfolding IsRemembered restore_at
  restore_at-IsRemembered p loop s (err e) h = (h.0, λ k. cc)
  restore_at-IsRemembered p loop s (ok path) h = (h.0, λ k. cc)

  enter_plan_mode-AllRemembered :
      (p : PermissionState) (loop : AgentLoop J) (shared : Shared J) (s : S)
      → AllRemembered shared.permission
      → IsRemembered p
      → AllRemembered (enter_plan_mode os now p loop shared s).2.permission
  unfolding enter_plan_mode
  enter_plan_mode-AllRemembered p loop shared s k h =
      enter_at-AllRemembered p loop shared s (resolve_plan_file os now loop s) k h

  abbrev Keeps : Result (Unit {0}) × AgentLoop J × Shared J × S → Type 0
  Keeps x = AllRemembered x.2.permission

  abbrev Restores : AgentLoop J × PermissionState × S → Type 0
  Restores x = IsRemembered x.1

  set_plan_mode-some :
      (active : Bool) (p : PermissionState) (loop : AgentLoop J) (shared : Shared J) (s : S)
      → IsRemembered p
      → Keeps (set_plan_mode os now active loop (set_permission p shared) s)
  unfolding AllRemembered set_plan_mode
  set_plan_mode-some true p loop shared s h =
      if-both Keeps (is_plan p.mode) h
        (enter_plan_mode-AllRemembered p loop (set_permission p shared) s h h)
  set_plan_mode-some false p loop shared s h =
      if-both Keeps (is_plan p.mode) (leave_plan_mode-IsRemembered p h) h

  set_permission_mode-some :
      (m : PermissionMode) (p : PermissionState) (loop : AgentLoop J) (shared : Shared J) (s : S)
      → IsRemembered p
      → Keeps (set_permission_mode os now m loop (set_permission p shared) s)
  unfolding AllRemembered IsRemembered set_permission_mode
  set_permission_mode-some PermissionMode.plan p loop shared s h =
      if-both Keeps (mode_eq p.mode PermissionMode.plan) h
        (set_plan_mode-some true p loop shared s h)
  set_permission_mode-some PermissionMode.manual p loop shared s h =
      if-both Keeps (mode_eq p.mode PermissionMode.manual) h (refl, λ k. refl)
  set_permission_mode-some PermissionMode.accept_edits p loop shared s h =
      if-both Keeps (mode_eq p.mode PermissionMode.accept_edits) h (refl, λ k. refl)
  set_permission_mode-some PermissionMode.bypass_permissions p loop shared s h =
      if-both Keeps (mode_eq p.mode PermissionMode.bypass_permissions) h (refl, λ k. refl)

  restore_mode-IsRemembered :
      (m : PermissionMode) (msg : Message J) (p : PermissionState) (loop : AgentLoop J) (s : S)
      → IsRemembered p
      → IsRemembered (restore_mode os now m msg p loop s).1
  unfolding IsRemembered restore_mode
  restore_mode-IsRemembered PermissionMode.plan msg p loop s h =
      if-both Restores (is_empty msg.plan_file)
        (restore_at-IsRemembered p loop s (resolve_plan_file os now loop s) h) (h.0, λ k. cc)
  restore_mode-IsRemembered PermissionMode.manual msg p loop s h = (refl, λ k. refl)
  restore_mode-IsRemembered PermissionMode.accept_edits msg p loop s h = (refl, λ k. refl)
  restore_mode-IsRemembered PermissionMode.bypass_permissions msg p loop s h = (refl, λ k. refl)

  restore_conversation-some :
      (id : Bytes) (messages : List (Message J)) (p : PermissionState) (loop : AgentLoop J)
      (shared : Shared J) (s : S)
      → IsRemembered p
      → AllRemembered
          (restore_conversation os now id messages loop (set_permission p shared) s).1.permission
  unfolding AllRemembered restore_conversation
  restore_conversation-some id messages p loop shared s h =
      let cleared : PermissionState = record p { exit_approved = false } in
      let restored : AgentLoop J = record loop {
        conversation_id = id;
        history = strip_legacy_onboarding_directive messages;
        base_system_prompt = [];
      } in
      elim (Option-cases (last_user (strip_legacy_onboarding_directive messages))) [
        | inl e ↦ rw (restore_conversation, e) h
        | inr (msg, e) ↦
            rw (restore_conversation, e)
              (restore_mode-IsRemembered (permission_mode_from_name msg.mode) msg cleared restored s
                h)
      ]

-- What changes the permission state while the program runs: the methods of the loop, the tool that
-- leaves the plan mode, and the loop's handover of an approved plan. A state without modes stays so.
pub data ModeStep (J : Type 0) {S : Type 0} (os : Posix S) (now : S → ℕ)
    : PermissionState → Option PermissionState → Type 0 where
  mode_set :
      (m : PermissionMode) (p : PermissionState) (loop : AgentLoop J) (shared : Shared J) (s : S)
      → ModeStep J os now p
          (set_permission_mode os now m loop (set_permission p shared) s).2.permission
  plan_set :
      (active : Bool) (p : PermissionState) (loop : AgentLoop J) (shared : Shared J) (s : S)
      → ModeStep J os now p
          (set_plan_mode os now active loop (set_permission p shared) s).2.permission
  restored :
      (id : Bytes) (messages : List (Message J)) (p : PermissionState) (loop : AgentLoop J)
      (shared : Shared J) (s : S)
      → ModeStep J os now p
          (restore_conversation os now id messages loop (set_permission p shared) s).1.permission
  plan_exited :
      (decision : ApprovalDecision) (p : PermissionState)
      → ModeStep J os now p (some (answer decision p).1)
  handed_over :
      (p : PermissionState) (shared : Shared J)
      → ModeStep J os now p (hand_over_state p shared).permission

pub data ModeSteps (J : Type 0) {S : Type 0} (os : Posix S) (now : S → ℕ)
    : PermissionState → PermissionState → Type 0 where
  none_yet : (p : PermissionState) → ModeSteps J os now p p
  another :
      (p q r : PermissionState)
      → ModeStep J os now p (some q)
      → ModeSteps J os now q r
      → ModeSteps J os now p r

module _ {J S : Type 0} (os : Posix S) (now : S → ℕ) where
  step-IsRemembered :
      (p : PermissionState) (q : Option PermissionState)
      → ModeStep J os now p q
      → IsRemembered p
      → AllRemembered q
  unfolding AllRemembered
  step-IsRemembered _ _ (mode_set m p loop shared s) h =
      set_permission_mode-some os now m p loop shared s h
  step-IsRemembered _ _ (plan_set active p loop shared s) h =
      set_plan_mode-some os now active p loop shared s h
  step-IsRemembered _ _ (restored id messages p loop shared s) h =
      restore_conversation-some os now id messages p loop shared s h
  step-IsRemembered _ _ (plan_exited decision p) h = answer-IsRemembered decision p h
  step-IsRemembered _ _ (handed_over p shared) h = leave_plan_mode-IsRemembered p h

  -- In any sequence of these steps the mode to come back to stays one that is not the plan mode, and
  -- outside the plan mode it is the current one.
  pub steps-IsRemembered :
      (p q : PermissionState) → ModeSteps J os now p q → IsRemembered p → IsRemembered q
  unfolding AllRemembered
  steps-IsRemembered p _ (none_yet _) h = h
  steps-IsRemembered p r (another _ q _ step more) h =
      steps-IsRemembered q r more (step-IsRemembered p (some q) step h)

  enter_at-entered :
      (p : PermissionState) (loop : AgentLoop J) (shared : Shared J) (s : S) (path : Result Bytes)
      → (enter_at os now p loop shared s path).0 ≡ ok tt
      → (file : Bytes) × ((enter_at os now p loop shared s path).2.permission
          ≡ some (record p { mode = PermissionMode.plan; plan_file = file }))
  unfolding enter_at
  enter_at-entered p loop shared s (err e) done = cc
  enter_at-entered p loop shared s (ok path) done =
      elim (Result-cases (mkdir_p os (parent_path path) s).0) [
        | inl (u, e) ↦ (path, rw (enter_at, e) refl)
        | inr (f, e) ↦ absurd (ground arith)
      ]

  plan_started :
      (p : PermissionState) (loop : AgentLoop J) (shared : Shared J) (s : S)
      → is_plan p.mode ≡ false
      → set_plan_mode os now true loop (set_permission p shared) s
        ≡ enter_at os now p loop (set_permission p shared) s (resolve_plan_file os now loop s)
  unfolding set_plan_mode enter_plan_mode
  plan_started p loop shared s k = rw (set_plan_mode, k) refl

  plan_entered :
      (p : PermissionState) (loop : AgentLoop J) (shared : Shared J) (s : S)
      → is_plan p.mode ≡ false
      → (set_plan_mode os now true loop (set_permission p shared) s).0 ≡ ok tt
      → (file : Bytes) × ((set_plan_mode os now true loop (set_permission p shared) s).2.permission
          ≡ some (record p { mode = PermissionMode.plan; plan_file = file }))
  plan_entered p loop shared s k done =
      let same = plan_started p loop shared s k in
      let found =
        enter_at-entered p loop (set_permission p shared) s (resolve_plan_file os now loop s)
          (sym (ap (λ x. x.0) same) ∙ done) in
      (found.0, ap (λ x. x.2.permission) same ∙ found.1)

  leave-permission :
      (q : PermissionState) (loop : AgentLoop J) (shared : Shared J) (s : S)
      → shared.permission ≡ some q
      → is_plan q.mode ≡ true
      → (set_plan_mode os now false loop shared s).2.permission ≡ some (leave_plan_mode q)
  unfolding set_plan_mode
  leave-permission q loop shared s e i = rw (set_plan_mode, e, i) refl

  -- Planning and coming back: where the mode was remembered and the plan mode is entered from another
  -- one, the plan mode is on in between, and leaving it gives the permission state that it was entered
  -- from, but that no handoff is pending and that a plan file is set.
  pub plan_mode_roundtrip :
      (p : PermissionState) (loop : AgentLoop J) (shared : Shared J) (s : S)
      → IsRemembered p
      → is_plan p.mode ≡ false
      → (set_plan_mode os now true loop (set_permission p shared) s).0 ≡ ok tt
      → let (r, planning, at, t) = set_plan_mode os now true loop (set_permission p shared) s in
        (permission_mode at ≡ PermissionMode.plan)
        × ((file : Bytes) × ((set_plan_mode os now false planning at t).2.permission
              ≡ some (record p { exit_approved = false; plan_file = file })))
  unfolding IsRemembered
  plan_mode_roundtrip p loop shared s h k done =
      let entered = plan_entered p loop shared s k done in
      let (r, planning, at, t) = set_plan_mode os now true loop (set_permission p shared) s in
      let (path, e) = entered in
      (
        ap (λ o. permission_mode (record shared { permission = o })) e,
        (
          path,
          leave-permission (record p { mode = PermissionMode.plan; plan_file = path }) planning at t
                e refl
              ∙ ap (λ m. some (record p { exit_approved = false; plan_file = path; mode = m }))
                  (restored_mode-other p.previous h.0 ∙ h.1 k),
        ),
      )
