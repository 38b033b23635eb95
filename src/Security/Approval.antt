-- ===== src/Security/Approval.antt =====
-- src/security/IApprovalHandler.h and PendingApprovalHandler.cpp: approvals that one thread waits
-- for and another gives. Every method is cut where it takes or leaves a lock or touches an atomic,
-- so that calls of several threads may interleave between any two of these steps.
pub mod Safety
pub mod Ids
pub mod Races
mod Tests
use embedded_agent.Base.{
  ℕ, suc, ◌+◌, ◌≡◌, Bytes, Bool, true, false, not, List, [], ◌∷◌, ◌++◌, bytes_eq, to_string, length,
  if◌then◌else◌, ◌&&◌, keep,
}

pub data ApprovalDecision : Type 0 where
  approved rejected aborted : ApprovalDecision

pub record ApprovalRequest (J : Type 0) : Type 0 where
  pub tool_name : Bytes
  pub arguments : J
  pub description : Bytes

-- How far a call of `request_approval` is.
pub data Phase : Type 0 where
  -- it has its id, and is not in the map yet
  created : Phase
  -- it is in the map, and waits on the condition variable
  waiting : Phase
  -- `wait_for` has timed out
  expired : Phase
  -- the wait is over, and `decision` is to be read
  deciding : Phase
  -- `decision.load()` has been done
  loaded : ApprovalDecision → Phase
  -- it has left the map and returned
  finished : ApprovalDecision → Phase

-- A `PendingApproval` together with the call that owns it.
pub record PendingApproval (J : Type 0) : Type 0 where
  pub id : Bytes
  pub request : ApprovalRequest J
  pub decision : ApprovalDecision
  pub resolved : Bool
  pub phase : Phase

-- `next_id` is an `int` that goes up by one for each request.
pub record PendingApprovalHandler (J : Type 0) : Type 0 where
  pub next_id : ℕ
  pub calls : List (PendingApproval J)

abbrev pub new : {J : Type 0} → PendingApprovalHandler J
new = record { next_id = 1; calls = [] }

-- Is the approval in `pending_`?
abbrev pub is_pending : Phase → Bool
is_pending created = false
is_pending (finished d) = false
is_pending _ = true

-- The answers that `resolve` took, with the ids that they went to.
abbrev pub Answers : Type 0
Answers = List (Bytes × ApprovalDecision)

-- `resolve` returns `false` where no approval of that id is pending: that is no answer.
abbrev pub record_answer : Bool → Bytes → ApprovalDecision → Answers → Answers
record_answer taken id d given = if taken then (id, d) ∷ given else given

module _ {J : Type 0} where
  -- The first critical section of `request_approval`.
  pub create : PendingApprovalHandler J → ApprovalRequest J → PendingApproval J
  create h req = record {
    id = to_string h.next_id;
    request = req;
    decision = ApprovalDecision.rejected;
    resolved = false;
    phase = created;
  }

  pub begin_request : PendingApprovalHandler J → ApprovalRequest J → PendingApprovalHandler J
  unfolding create
  begin_request h req = record { next_id = suc h.next_id; calls = create h req ∷ h.calls }

  -- `pending_.find(id)` and the three writes behind it.
  pub resolve_in :
      Bytes → ApprovalDecision → List (PendingApproval J) → List (PendingApproval J) × Bool
  resolve_in id decision [] = ([], false)
  resolve_in id decision (a ∷ rest) =
      let later = resolve_in id decision rest in
      if is_pending a.phase && bytes_eq a.id id
      then (record a { decision = decision; resolved = true } ∷ rest, true)
      else (a ∷ later.0, later.1)

  unfoldable pub resolve :
      PendingApprovalHandler J → Bytes → ApprovalDecision → PendingApprovalHandler J × Bool
  unfolding resolve_in
  resolve h id decision = let r = resolve_in id decision h.calls in (record h { calls = r.0 }, r.1)

  -- `pending_list`, as a list in the order of the calls.
  unfoldable pub pending_list : PendingApprovalHandler J → List (PendingApproval J)
  pending_list h = keep (λ a. is_pending a.phase && not a.resolved) h.calls

  unfoldable pub pending_count : PendingApprovalHandler J → ℕ
  unfolding pending_list
  pending_count h = length (pending_list h)

  -- One step of the thread that called `request_approval`.
  pub data Advance : PendingApproval J → PendingApproval J → Type 0 where
    publish : (a : PendingApproval J) → a.phase ≡ created → Advance a (record a { phase = waiting })
    wake :
        (a : PendingApproval J)
        → a.phase ≡ waiting
        → a.resolved ≡ true
        → Advance a (record a { phase = deciding })
    expire :
        (a : PendingApproval J)
        → a.phase ≡ waiting
        → a.resolved ≡ false
        → Advance a (record a { phase = expired })
    reject :
        (a : PendingApproval J)
        → a.phase ≡ expired
        → Advance a (record a { phase = deciding; decision = ApprovalDecision.rejected })
    load :
        (a : PendingApproval J)
        → a.phase ≡ deciding
        → Advance a (record a { phase = loaded a.decision })
    leave :
        (a : PendingApproval J) (d : ApprovalDecision)
        → a.phase ≡ loaded d
        → Advance a (record a { phase = finished d })

  -- A step of the whole handler, with the answers that `resolve` took so far, newest first.
  pub data Step
      : PendingApprovalHandler J × Answers → PendingApprovalHandler J × Answers → Type 0 where
    requests :
        (h : PendingApprovalHandler J) (given : Answers) (req : ApprovalRequest J)
        → Step (h, given) (begin_request h req, given)
    advances :
        (h : PendingApprovalHandler J) (given : Answers) (before after : List (PendingApproval J))
        (a b : PendingApproval J)
        → h.calls ≡ before ++ a ∷ after
        → Advance a b
        → Step (h, given) (record h { calls = before ++ b ∷ after }, given)
    resolves :
        (h : PendingApprovalHandler J) (given : Answers) (id : Bytes) (d : ApprovalDecision)
        → Step (h, given) ((resolve h id d).0, record_answer (resolve h id d).1 id d given)

  pub data Reach (s : PendingApprovalHandler J × Answers)
      : PendingApprovalHandler J × Answers → Type 0 where
    here : Reach s s
    next : {t u : PendingApprovalHandler J × Answers} → Reach s t → Step t u → Reach s u
