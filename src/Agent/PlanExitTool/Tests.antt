-- ===== src/Agent/PlanExitTool/Tests.antt =====
-- A user who rejects the first plan and counts the questions.
use embedded_agent.Base.{ℕ, suc, false, some, []}
use embedded_agent.Security.Approval.{ApprovalDecision}
use embedded_agent.Agent.PermissionMode.{PermissionMode}
use embedded_agent.Agent.PlanExitTool.{PermissionState, Approval}

abbrev rejecting : Approval ℕ ℕ
rejecting = some (λ req state s. (ApprovalDecision.rejected, state, suc s))

abbrev planning : PermissionState
planning = record {
  mode = PermissionMode.plan;
  previous = PermissionMode.accept_edits;
  exit_approved = false;
  plan_file = [];
}
