-- ===== src/Security/Approval/Safety.antt =====
-- No call is answered unless somebody answered it, whatever the interleaving.
use embedded_agent.Base.{
  ◌≡◌, ◌≢◌, refl, ◌⊎◌, inl, inr, Bytes, false, List, [], ◌∷◌, ◌++◌, arith, All, bytes_eq,
  bytes_eq_iff, ◌&&◌, Bool-cases, subst,
}
use embedded_agent.Security.Approval.{
  ApprovalDecision, Phase, PendingApproval, PendingApprovalHandler, Answers, Advance, Step, Reach,
  new, begin_request, resolve, resolve_in, record_answer, is_pending, publish, wake, expire, reject,
  load, leave, requests, advances, resolves, here, next,
}

-- `d` was given as the answer to `id`.
abbrev pub WasGiven : Bytes → ApprovalDecision → Answers → Type 0
WasGiven id d [] = ⊥
WasGiven id d ((j, e) ∷ given) = ((j ≡ id) × (e ≡ d)) ⊎ WasGiven id d given

-- A decision is the default, or it was given.
abbrev pub IsBacked : Answers → Bytes → ApprovalDecision → Type 0
IsBacked given id d = (d ≡ ApprovalDecision.rejected) ⊎ WasGiven id d given

abbrev IsPhaseBacked : Answers → Bytes → Phase → Type 0
IsPhaseBacked given id (Phase.loaded d) = IsBacked given id d
IsPhaseBacked given id (Phase.finished d) = IsBacked given id d
IsPhaseBacked given id _ = Unit {0}

module _ {J : Type 0} where
  abbrev Inv : Answers → PendingApproval J → Type 0
  Inv given a = IsBacked given a.id a.decision × IsPhaseBacked given a.id a.phase

  Inv-more :
      (given : Answers) (id : Bytes) (d : ApprovalDecision) (a : PendingApproval J)
      → Inv given a
      → Inv ((id, d) ∷ given) a
  Inv-more given id d a v = ground arith

  All-Inv-more :
      (given : Answers) (id : Bytes) (d : ApprovalDecision) (calls : List (PendingApproval J))
      → All (Inv given) calls
      → All (Inv ((id, d) ∷ given)) calls
  All-Inv-more given id d [] v = tt
  All-Inv-more given id d (a ∷ calls) v =
      (Inv-more given id d a v.0, All-Inv-more given id d calls v.1)

  Advance-Inv :
      {a b : PendingApproval J} (given : Answers) → Advance a b → Inv given a → Inv given b
  Advance-Inv given (publish a p) v = (v.0, tt)
  Advance-Inv given (wake a p r) v = (v.0, tt)
  Advance-Inv given (expire a p r) v = (v.0, tt)
  Advance-Inv given (reject a p) v = (inl refl, tt)
  Advance-Inv given (load a p) v = (v.0, v.0)
  Advance-Inv given (leave a d p) v = (v.0, subst (IsPhaseBacked given a.id) p v.1)

  abbrev Invs : PendingApprovalHandler J × Answers → Type 0
  Invs s = All (Inv s.1) s.0.calls

  All-swap :
      (P : PendingApproval J → Type 0) (before after : List (PendingApproval J))
      (a b : PendingApproval J)
      → (P a → P b)
      → All P (before ++ a ∷ after)
      → All P (before ++ b ∷ after)
  All-swap P [] after a b f v = (f v.0, v.1)
  All-swap P (c ∷ before) after a b f v = (v.0, All-swap P before after a b f v.1)

  All-at :
      (P : PendingApproval J → Type 0) (before after : List (PendingApproval J))
      (a : PendingApproval J)
      → All P (before ++ a ∷ after)
      → P a
  All-at P [] after a v = v.0
  All-at P (c ∷ before) after a v = All-at P before after a v.1

  resolve_in-Inv :
      (given : Answers) (id : Bytes) (d : ApprovalDecision) (calls : List (PendingApproval J))
      → All (Inv given) calls
      → All (Inv ((id, d) ∷ given)) (resolve_in id d calls).0
  unfolding resolve_in
  resolve_in-Inv given id d [] v = tt
  resolve_in-Inv given id d (a ∷ calls) v =
      elim (Bool-cases (is_pending a.phase && bytes_eq a.id id)) [
        | inl e ↦
            rw (e, resolve_in)
              (
                (
                  inr (inl (ground (arith, bytes_eq_iff a.id id), refl)),
                  (Inv-more given id d a v.0).1,
                ),
                All-Inv-more given id d calls v.1,
              )
        | inr e ↦
            rw (e, resolve_in) (Inv-more given id d a v.0, resolve_in-Inv given id d calls v.1)
      ]

  resolve_in_missed :
      (id : Bytes) (d : ApprovalDecision) (calls : List (PendingApproval J))
      → (resolve_in id d calls).1 ≡ false
      → (resolve_in id d calls).0 ≡ calls
  unfolding resolve_in
  resolve_in_missed id d [] e = refl
  resolve_in_missed id d (a ∷ calls) e = ground (arith, resolve_in_missed id d calls)

  resolve-Invs :
      (h : PendingApprovalHandler J) (given : Answers) (id : Bytes) (d : ApprovalDecision)
      → Invs (h, given)
      → Invs ((resolve h id d).0, record_answer (resolve h id d).1 id d given)
  unfolding resolve
  resolve-Invs h given id d v = elim (Bool-cases (resolve_in id d h.calls).1) [
    | inl e ↦ rw e (resolve_in-Inv given id d h.calls v)
    | inr e ↦ rw (e, resolve_in_missed id d h.calls e) v
  ]

  Step-Invs : {s t : PendingApprovalHandler J × Answers} → Step s t → Invs s → Invs t
  unfolding begin_request
  Step-Invs (requests h given req) v = ((inl refl, tt), v)
  Step-Invs (advances h given before after a b e st) v =
      All-swap (Inv given) before after a b (Advance-Inv given st) (subst (All (Inv given)) e v)
  Step-Invs (resolves h given id d) v = resolve-Invs h given id d v

  Reach-Invs : {s t : PendingApprovalHandler J × Answers} → Reach s t → Invs s → Invs t
  Reach-Invs here v = v
  Reach-Invs (next r st) v = Step-Invs st (Reach-Invs r v)

  -- Whatever the interleaving of the threads from an empty handler: a call of `request_approval`
  -- that returns anything but `Rejected` returns a decision that `resolve` took for its id.
  pub finished-WasGiven :
      (h : PendingApprovalHandler J) (given : Answers) (before after : List (PendingApproval J))
      (a : PendingApproval J) (d : ApprovalDecision)
      → Reach (new, []) (h, given)
      → h.calls ≡ before ++ a ∷ after
      → a.phase ≡ Phase.finished d
      → d ≢ ApprovalDecision.rejected
      → WasGiven a.id d given
  finished-WasGiven h given before after a d r at done not_rejected =
      elim (subst (IsPhaseBacked given a.id) done
        (All-at (Inv given) before after a (subst (All (Inv given)) at (Reach-Invs r tt))).1) [
          | inl e ↦ absurd (not_rejected e)
          | inr given_it ↦ given_it
        ]
