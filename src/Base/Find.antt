-- ===== src/Base/Find.antt =====
-- What `find_byte`, `is_prefix` and `find` return.
use Prim.Native.Nat.{ℕ, zero, suc, ◌+◌, ◌≤◌, ◌<◌}
use mathlib.Core.Path.{◌≡◌, refl, ◌∙◌}
use mathlib.Core.Logic.{◌≢◌, inl, inr}
use mathlib.Core.Bool.{true}
use mathlib.Core.List.{[], ◌∷◌, ◌++◌}
use mathlib.Core.Option.{none, some}
use native.Mathlib.Omega.{arith}
use embedded_agent.Base.Tests.{Option-cases}
use embedded_agent.Base.Lists.{length, take, drop, All}
use embedded_agent.Base.Text.{Bytes, is_prefix, find, find_byte}

-- The text has no byte `d`.
abbrev pub Lacks : ℕ → Bytes → Type 0
Lacks d = All (λ c. c ≢ d)

pub find_byte-none : (d : ℕ) (s : Bytes) → find_byte d s ≡ none → Lacks d s
unfolding find_byte
find_byte-none d [] h = tt
find_byte-none d (c ∷ s) h = ground (arith, find_byte-none d s)

pub find_byte-some :
    (d : ℕ) (s : Bytes) (pos : ℕ)
    → find_byte d s ≡ some pos
    → (pos < length s) × Lacks d (take pos s) × (s ≡ take pos s ++ d ∷ drop (suc pos) s)
unfolding find_byte
find_byte-some d [] pos h = cc
find_byte-some d (c ∷ s) zero h = elim (Option-cases (find_byte d s)) [
  | inl e ↦ ground arith
  | inr (p, e) ↦ ground arith
]
find_byte-some d (c ∷ s) (suc pos) h = ground (arith, find_byte-some d s pos)

pub find_byte-append :
    (d : ℕ) (p s : Bytes) → Lacks d p → find_byte d (p ++ d ∷ s) ≡ some (length p)
unfolding find_byte
find_byte-append d [] s h = ground arith
find_byte-append d (c ∷ p) s h = ground (arith, find_byte-append d p s)

pub find_byte-Lacks : (d : ℕ) (s : Bytes) → Lacks d s → find_byte d s ≡ none
unfolding find_byte
find_byte-Lacks d [] h = refl
find_byte-Lacks d (c ∷ s) h = ground (arith, find_byte-Lacks d s)

pub is_prefix-le : (p s : Bytes) → is_prefix p s ≡ true → length p ≤ length s
unfolding is_prefix
is_prefix-le [] s h = omega arith
is_prefix-le (x ∷ p) [] h = cc
is_prefix-le (x ∷ p) (c ∷ s) h = ground (arith, is_prefix-le p s)

-- What stands behind a text that is long enough does not matter.
pub is_prefix-append : (p s t : Bytes) → length p ≤ length s → is_prefix p (s ++ t) ≡ is_prefix p s
unfolding is_prefix
is_prefix-append [] s t h = refl
is_prefix-append (x ∷ p) [] t h = absurd (omega arith)
is_prefix-append (x ∷ p) (c ∷ s) t h = ground (arith, is_prefix-append p s t)

pub find-le : (n s : Bytes) (pos : ℕ) → find n s ≡ some pos → pos + length n ≤ length s
unfolding find
find-le n [] pos h = ground (arith, is_prefix-le n [])
find-le n (c ∷ s) zero h = elim (Option-cases (find n s)) [
  | inl e ↦ ground (arith, is_prefix-le n (c ∷ s))
  | inr (p, e) ↦ ground (arith, is_prefix-le n (c ∷ s))
]
find-le n (c ∷ s) (suc pos) h = ground (arith, find-le n s pos)

find-nil : (s : Bytes) → find [] s ≡ some 0
unfolding find
find-nil [] = refl
find-nil (c ∷ s) = refl

-- A match stays the first one when more text arrives.
pub find-append : (n s t : Bytes) (pos : ℕ) → find n s ≡ some pos → find n (s ++ t) ≡ some pos
unfolding find
find-append [] [] t pos h = find-nil t ∙ h
find-append (x ∷ n) [] t pos h = cc
find-append n (c ∷ s) t zero h = elim (Option-cases (find n s)) [
  | inl e ↦ ground (arith, is_prefix-le n (c ∷ s), is_prefix-append n (c ∷ s) t)
  | inr (p, e) ↦ ground (arith, is_prefix-le n (c ∷ s), is_prefix-append n (c ∷ s) t)
]
find-append n (c ∷ s) t (suc pos) h =
    ground (arith, find-le n s pos, is_prefix-append n (c ∷ s) t, find-append n s t pos)
