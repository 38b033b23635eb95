-- ===== src/Agent/PlanExitTool/Handoff.antt =====
-- When the tool leaves the plan mode.
use embedded_agent.Base.{◌≡◌, ◌≢◌, ◌⊎◌, true, false}
use embedded_agent.Security.Approval.{ApprovalDecision}
use embedded_agent.Agent.PermissionMode.{PermissionMode, is_plan}
use embedded_agent.Agent.PlanExitTool.{PermissionState, Approval}

-- What the answer makes of the state that the question left: on approval a mode that is not the plan
-- mode, with the handoff noted and the plan file kept; on anything else the same state.
abbrev pub IsAnswered : ApprovalDecision → PermissionState → PermissionState → Type 0
IsAnswered d asked after =
    ((d ≡ ApprovalDecision.approved)
      × (is_plan after.mode ≡ false)
      × (after.exit_approved ≡ true)
      × (after.plan_file ≡ asked.plan_file)
      × (after.previous ≡ asked.previous))
    ⊎ ((d ≢ ApprovalDecision.approved) × (after ≡ asked))
