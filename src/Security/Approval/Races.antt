-- ===== src/Security/Approval/Races.antt =====
-- An answer that comes between the timeout and the write of the default decision.
use embedded_agent.Base.{
  ◌≡◌, ◌≢◌, refl, ap, subst, true, Bytes, List, [], ◌∷◌, ◌++◌, All, arith, bytes_eq_refl,
  bytes_eq_iff,
}
use embedded_agent.Security.Approval.{
  ApprovalDecision, PendingApproval, PendingApprovalHandler, Answers, Phase, Step, Reach, resolve,
  resolve_in, new, reject, load, leave, advances, resolves, here, next,
}
use embedded_agent.Security.Approval.Ids.{ids, AllDistinct, Reach-ids_distinct}

module _ {J : Type 0} where
  -- The call as the answer leaves it.
  abbrev answered : PendingApproval J → ApprovalDecision → PendingApproval J
  answered a d = record a { decision = d; resolved = true }

  -- The call once it has written its default decision.
  abbrev defaulted : PendingApproval J → PendingApproval J
  defaulted a = record a {
    decision = ApprovalDecision.rejected;
    resolved = true;
    phase = Phase.deciding;
  }

  -- The call as it returns.
  abbrev pub rejected_late : PendingApproval J → PendingApproval J
  rejected_late a = record a {
    decision = ApprovalDecision.rejected;
    resolved = true;
    phase = Phase.finished ApprovalDecision.rejected;
  }

  All-at :
      (P : Bytes → Type 0) (before after : List (PendingApproval J)) (a : PendingApproval J)
      → All P (ids (before ++ a ∷ after))
      → P a.id
  All-at P [] after a h = h.0
  All-at P (c ∷ before) after a h = All-at P before after a h.1

  -- In front of a call, no call has its id.
  others :
      (before after : List (PendingApproval J)) (a : PendingApproval J)
      → AllDistinct (ids (before ++ a ∷ after))
      → All (λ c. c.id ≢ a.id) before
  others [] after a h = tt
  others (c ∷ before) after a h =
      (All-at (λ id. c.id ≢ id) before after a h.0, others before after a h.1)

  resolve_in-reaches :
      (before after : List (PendingApproval J)) (a : PendingApproval J) (d : ApprovalDecision)
      → All (λ c. c.id ≢ a.id) before
      → a.phase ≡ Phase.expired
      → resolve_in a.id d (before ++ a ∷ after) ≡ (before ++ answered a d ∷ after, true)
  unfolding resolve_in
  resolve_in-reaches [] after a d h late = ground (arith, bytes_eq_refl a.id)
  resolve_in-reaches (c ∷ before) after a d h late =
      ground (arith, bytes_eq_iff c.id a.id, resolve_in-reaches before after a d h.1 late)

  resolve_expired :
      (h : PendingApprovalHandler J) (before after : List (PendingApproval J))
      (a : PendingApproval J) (d : ApprovalDecision)
      → h.calls ≡ before ++ a ∷ after
      → All (λ c. c.id ≢ a.id) before
      → a.phase ≡ Phase.expired
      → resolve h a.id d ≡ (record h { calls = before ++ answered a d ∷ after }, true)
  unfolding resolve
  resolve_expired h before after a d at apart late =
      let reached = resolve_in-reaches before after a d apart late in rw (at, reached) refl

  -- In a state that an empty handler can reach, where any call has timed out and has not yet written its
  -- default decision, `resolve` returns `true` for any answer to it, and the call can still go on to
  -- return `Rejected`, the other calls standing where they were.
  pub resolve_lost :
      (h : PendingApprovalHandler J) (given : Answers) (before after : List (PendingApproval J))
      (a : PendingApproval J) (d : ApprovalDecision)
      → Reach (new, []) (h, given)
      → h.calls ≡ before ++ a ∷ after
      → a.phase ≡ Phase.expired
      → ((resolve h a.id d).1 ≡ true)
        × Reach
            (h, given)
            (record h { calls = before ++ rejected_late a ∷ after }, (a.id, d) ∷ given)
  resolve_lost h given before after a d reached at late =
      (ap (λ r. r.1) told, next (next (next (next here answer) default) read) return)
    where
      apart : All (λ c. c.id ≢ a.id) before
      apart =
          others before after a
            (subst (λ l. AllDistinct (ids l)) at (Reach-ids_distinct h given reached))

      told : resolve h a.id d ≡ (record h { calls = before ++ answered a d ∷ after }, true)
      told = resolve_expired h before after a d at apart late

      given' : Answers
      given' = (a.id, d) ∷ given

      with_call : PendingApproval J → PendingApprovalHandler J
      with_call b = record h { calls = before ++ b ∷ after }

      loaded : PendingApproval J
      loaded = record (defaulted a) { phase = Phase.loaded ApprovalDecision.rejected }

      answer : Step (h, given) (with_call (answered a d), given')
      answer = rw told at (resolves h given a.id d)

      default : Step (with_call (answered a d), given') (with_call (defaulted a), given')
      default =
          advances (with_call (answered a d)) given' before after (answered a d) (defaulted a) refl
            (reject (answered a d) late)

      read : Step (with_call (defaulted a), given') (with_call loaded, given')
      read =
          advances (with_call (defaulted a)) given' before after (defaulted a) loaded refl
            (load (defaulted a) refl)

      return : Step (with_call loaded, given') (with_call (rejected_late a), given')
      return =
          advances (with_call loaded) given' before after loaded (rejected_late a) refl
            (leave loaded ApprovalDecision.rejected refl)
