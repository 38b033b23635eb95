-- ===== src/Security/Approval/Tests.antt =====
-- The theorems about the approval handler at concrete histories.
use embedded_agent.Base.{ℕ, ◌≡◌, refl, Bool, true, false, [], ◌∷◌, codes, to_string, bytes_eq}
use embedded_agent.Security.Approval.{
  ApprovalDecision, ApprovalRequest, Phase, PendingApproval, PendingApprovalHandler, Answers, Reach,
  new, begin_request, resolve, pending_count, publish, wake, expire, load, leave, requests,
  advances, resolves, here, next,
}
use embedded_agent.Security.Approval.Safety.{WasGiven, finished-WasGiven}
use embedded_agent.Security.Approval.Ids.{AllDistinct, ids, Reach-ids_distinct}
use embedded_agent.Security.Approval.Races.{rejected_late, resolve_lost}

abbrev shell_request : ApprovalRequest ℕ
shell_request = record { tool_name = codes "shell"; arguments = 0; description = [] }

abbrev call_in : Phase → ApprovalDecision → Bool → PendingApproval ℕ
call_in phase decision resolved = record {
  id = codes "1";
  request = shell_request;
  decision = decision;
  resolved = resolved;
  phase = phase;
}

abbrev with_call : PendingApproval ℕ → PendingApprovalHandler ℕ
with_call a = record { next_id = 2; calls = a ∷ [] }

abbrev answer : Answers
answer = (codes "1", ApprovalDecision.approved) ∷ []

abbrev returned_call : PendingApproval ℕ
returned_call = call_in (Phase.finished ApprovalDecision.approved) ApprovalDecision.approved true

counts_unresolved :
    pending_count (with_call (call_in Phase.waiting ApprovalDecision.rejected false)) ≡ 1
unfolding pending_count
counts_unresolved = refl

-- One call that is asked, answered and returned.
approved_history : Reach (new, []) (with_call returned_call, answer)
unfolding begin_request resolve to_string bytes_eq
approved_history =
    next
      (next
        (next
          (next
            (next (next here (requests new [] shell_request)) (
              advances _ [] [] [] (call_in Phase.created ApprovalDecision.rejected false)
                (call_in Phase.waiting ApprovalDecision.rejected false) refl (publish _ refl)))
            (resolves (with_call (call_in Phase.waiting ApprovalDecision.rejected false)) []
              (codes "1") ApprovalDecision.approved))
          (advances _ answer [] [] (call_in Phase.waiting ApprovalDecision.approved true)
            (call_in Phase.deciding ApprovalDecision.approved true) refl (wake _ refl refl)))
        (advances _ answer [] [] (call_in Phase.deciding ApprovalDecision.approved true)
          (call_in (Phase.loaded ApprovalDecision.approved) ApprovalDecision.approved true) refl
          (load _ refl)))
      (advances _ answer [] []
        (call_in (Phase.loaded ApprovalDecision.approved) ApprovalDecision.approved true)
        returned_call refl (leave _ ApprovalDecision.approved refl))

finished-WasGiven_example : WasGiven (codes "1") ApprovalDecision.approved answer
finished-WasGiven_example =
    finished-WasGiven (with_call returned_call) answer [] [] returned_call ApprovalDecision.approved
      approved_history refl refl (λ e. cc)

Reach-ids_distinct_example : AllDistinct (ids (with_call returned_call).calls)
Reach-ids_distinct_example = Reach-ids_distinct (with_call returned_call) answer approved_history

abbrev expired_call : PendingApproval ℕ
expired_call = call_in Phase.expired ApprovalDecision.rejected false

-- A newer call of the same tool, which has only got its id.
abbrev newer_call : PendingApproval ℕ
newer_call = record (call_in Phase.created ApprovalDecision.rejected false) { id = codes "2" }

abbrev with_newer : PendingApproval ℕ → PendingApprovalHandler ℕ
with_newer a = record { next_id = 3; calls = newer_call ∷ a ∷ [] }

expired_history : Reach (new, []) (with_newer expired_call, [])
unfolding begin_request to_string
expired_history =
    next
      (next
        (next (next here (requests new [] shell_request)) (
          advances _ [] [] [] (call_in Phase.created ApprovalDecision.rejected false)
            (call_in Phase.waiting ApprovalDecision.rejected false) refl (publish _ refl)))
        (advances (with_call (call_in Phase.waiting ApprovalDecision.rejected false)) [] [] []
          (call_in Phase.waiting ApprovalDecision.rejected false) expired_call refl
          (expire _ refl refl)))
      (requests (with_call expired_call) [] shell_request)

resolve_lost_example :
    ((resolve (with_newer expired_call) (codes "1") ApprovalDecision.approved).1 ≡ true)
    × Reach
        (with_newer expired_call, [])
        (with_newer (rejected_late expired_call), (codes "1", ApprovalDecision.approved) ∷ [])
resolve_lost_example =
    resolve_lost (with_newer expired_call) [] (newer_call ∷ []) [] expired_call
      ApprovalDecision.approved expired_history refl refl
