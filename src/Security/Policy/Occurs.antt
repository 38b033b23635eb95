-- ===== src/Security/Policy/Occurs.antt =====
-- `find` decides whether a text occurs in another.
use embedded_agent.Base.{
  ℕ, zero, suc, ◌≡◌, refl, ◌≢◌, ap, inl, inr, Bytes, none, some, true, [], ◌∷◌, ◌++◌, find,
  is_prefix, length, drop, arith, Option-cases, Bool-cases,
}

abbrev pub Occurs : Bytes → Bytes → Type 0
Occurs needle s = (before : Bytes) × (after : Bytes) × (s ≡ before ++ needle ++ after)

pub is_prefix-eq : (p s : Bytes) → is_prefix p s ≡ true → s ≡ p ++ drop (length p) s
unfolding is_prefix
is_prefix-eq [] s h = refl
is_prefix-eq (x ∷ p) [] h = cc
is_prefix-eq (x ∷ p) (c ∷ s) h = ground (arith, is_prefix-eq p s)

pub is_prefix-append_self : (p t : Bytes) → is_prefix p (p ++ t) ≡ true
unfolding is_prefix
is_prefix-append_self [] t = refl
is_prefix-append_self (x ∷ p) t = ground (arith, is_prefix-append_self p t)

Occurs-cons : (n s : Bytes) (c : ℕ) → Occurs n s → Occurs n (c ∷ s)
Occurs-cons n s c (before, after, e) = (c ∷ before, after, ap (◌∷◌ c) e)

pub find-Occurs : (n s : Bytes) (pos : ℕ) → find n s ≡ some pos → Occurs n s
unfolding find
find-Occurs n [] pos h = elim (Bool-cases (is_prefix n [])) [
  | inl e ↦ ([], drop (length n) [], is_prefix-eq n [] e)
  | inr e ↦ absurd (ground arith)
]
find-Occurs n (c ∷ s) zero h = elim (Bool-cases (is_prefix n (c ∷ s))) [
  | inl e ↦ ([], drop (length n) (c ∷ s), is_prefix-eq n (c ∷ s) e)
  | inr e ↦
      absurd (elim (Option-cases (find n s)) [ inl f ↦ ground arith | inr (p, f) ↦ ground arith ])
]
find-Occurs n (c ∷ s) (suc pos) h = Occurs-cons n s c (find-Occurs n s pos (ground arith))

find-append_ne : (n before after : Bytes) → find n (before ++ n ++ after) ≢ none
unfolding find
find-append_ne [] [] [] = λ h. cc
find-append_ne [] [] (a ∷ after) = λ h. cc
find-append_ne (x ∷ n) [] after = λ h. ground (arith, is_prefix-append_self (x ∷ n) after)
find-append_ne n (c ∷ before) after = λ h. ground (arith, find-append_ne n before after)

pub Occurs-find : (n s : Bytes) → Occurs n s → find n s ≢ none
Occurs-find n s (before, after, e) = rw e (find-append_ne n before after)
