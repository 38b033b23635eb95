-- ===== src/Security/Approval/Ids.antt =====
-- The ids of the calls: no two calls share one, so an answer goes to one call at most.
use embedded_agent.Base.{
  ℕ, suc, ◌<◌, ◌≡◌, ◌≢◌, refl, ap, sym, ◌∙◌, subst, Bytes, List, [], ◌∷◌, ◌++◌, map, arith, All,
  to_string, to_string-injective, zero,
}
use embedded_agent.Security.Approval.{
  ApprovalDecision, PendingApproval, PendingApprovalHandler, Answers, Advance, Step, Reach, new,
  begin_request, resolve, resolve_in, publish, wake, expire, reject, load, leave, requests,
  advances, resolves, here, next,
}

-- The ids that a handler has given out, newest first: every number below `n` once.
abbrev ids_below : ℕ → List Bytes
ids_below zero = []
ids_below (suc zero) = []
ids_below (suc (suc n)) = to_string (suc n) ∷ ids_below (suc n)

abbrev pub AllDistinct : List Bytes → Type 0
AllDistinct [] = Unit {0}
AllDistinct (x ∷ xs) = All (λ y. x ≢ y) xs × AllDistinct xs

to_string-ne-below : (k n : ℕ) → n < suc k → All (λ y. to_string k ≢ y) (ids_below n)
to_string-ne-below k zero h = tt
to_string-ne-below k (suc zero) h = tt
to_string-ne-below k (suc (suc n)) h = (
  λ e. absurd (omega (arith, to_string-injective k (suc n) e)),
  to_string-ne-below k (suc n) (omega arith),
)

ids_below-distinct : (n : ℕ) → AllDistinct (ids_below n)
ids_below-distinct zero = tt
ids_below-distinct (suc zero) = tt
ids_below-distinct (suc (suc n)) =
    (to_string-ne-below (suc n) (suc n) (omega arith), ids_below-distinct (suc n))

module _ {J : Type 0} where
  abbrev pub ids : List (PendingApproval J) → List Bytes
  ids calls = map (λ a. a.id) calls

  Advance-id : {a b : PendingApproval J} → Advance a b → b.id ≡ a.id
  Advance-id (publish a p) = refl
  Advance-id (wake a p r) = refl
  Advance-id (expire a p r) = refl
  Advance-id (reject a p) = refl
  Advance-id (load a p) = refl
  Advance-id (leave a d p) = refl

  ids-swap :
      (before after : List (PendingApproval J)) (a b : PendingApproval J)
      → b.id ≡ a.id
      → ids (before ++ b ∷ after) ≡ ids (before ++ a ∷ after)
  ids-swap [] after a b e = ap (λ x. x ∷ ids after) e
  ids-swap (c ∷ before) after a b e = ap (◌∷◌ c.id) (ids-swap before after a b e)

  ids-resolve_in :
      (id : Bytes) (d : ApprovalDecision) (calls : List (PendingApproval J))
      → ids (resolve_in id d calls).0 ≡ ids calls
  unfolding resolve_in
  ids-resolve_in id d [] = refl
  ids-resolve_in id d (a ∷ calls) = ground (arith, ids-resolve_in id d calls)

  -- What every step keeps: the ids are those of the numbers below `next_id`.
  abbrev IdsInv : PendingApprovalHandler J × Answers → Type 0
  IdsInv s = (0 < s.0.next_id) × (ids s.0.calls ≡ ids_below s.0.next_id)

  begin-IdsInv :
      (n : ℕ) (calls : List (PendingApproval J))
      → 0 < n
      → ids calls ≡ ids_below n
      → to_string n ∷ ids calls ≡ ids_below (suc n)
  begin-IdsInv zero calls h e = absurd (omega arith)
  begin-IdsInv (suc n) calls h e = ap (◌∷◌ (to_string (suc n))) e

  Step-IdsInv : {s t : PendingApprovalHandler J × Answers} → Step s t → IdsInv s → IdsInv t
  unfolding begin_request resolve
  Step-IdsInv (requests h given req) v = (omega arith, begin-IdsInv h.next_id h.calls v.0 v.1)
  Step-IdsInv (advances h given before after a b e st) v =
      (v.0, ids-swap before after a b (Advance-id st) ∙ ap ids (sym e) ∙ v.1)
  Step-IdsInv (resolves h given id d) v = (v.0, ids-resolve_in id d h.calls ∙ v.1)

  Reach-IdsInv : {s t : PendingApprovalHandler J × Answers} → Reach s t → IdsInv s → IdsInv t
  Reach-IdsInv here v = v
  Reach-IdsInv (next r st) v = Step-IdsInv st (Reach-IdsInv r v)

  -- In every state that an empty handler can reach, no two calls of `request_approval`, running or
  -- returned, have the same id.
  pub Reach-ids_distinct :
      (h : PendingApprovalHandler J) (given : Answers)
      → Reach (new, []) (h, given)
      → AllDistinct (ids h.calls)
  Reach-ids_distinct h given r =
      subst AllDistinct (sym (Reach-IdsInv r (omega arith, refl)).1) (ids_below-distinct h.next_id)
