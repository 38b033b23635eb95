-- ===== src/Provider/CredentialPool/Scan.antt =====
-- What the cyclic search of `acquire` finds.

use embedded_agent.Base.{
  ℕ, zero, suc, ◌+◌, ◌%◌, ◌≤◌, ◌<◌, ◌≡◌, ◌≢◌, refl, ◌⊎◌, inl, inr, true, false, none, some, List,
  [], ◌∷◌, length, get_elem?, ◌==◌, ==_iff, arith, Option-cases, Bool-cases,
}
use embedded_agent.Provider.CredentialPool.{CredentialSlot, scan}

pub get_elem?-lt {ℓ} :
    {A : Type ℓ} (xs : List A) (i : ℕ) → i < length xs → (x : A) × (get_elem? xs i ≡ some x)
get_elem?-lt [] i h = absurd (omega arith)
get_elem?-lt (x ∷ xs) zero h = (x, refl)
get_elem?-lt (x ∷ xs) (suc i) h = get_elem?-lt xs i (omega arith)

-- The next index is one more, or 0 behind the last.
following_cases :
    (i n : ℕ) → i < n → (((i + 1) % n ≡ i + 1) × (i + 1 < n)) ⊎ (((i + 1) % n ≡ 0) × (i + 1 ≡ n))
following_cases i n h = grind arith

-- The slot at `j`, if there is one, is not healthy.
abbrev pub IsDownAt : List CredentialSlot → ℕ → Type 0
IsDownAt slots j = (s : CredentialSlot) → get_elem? slots j ≡ some s → s.healthy ≡ false

-- The search from `start` has passed the index `j`, and now stands at `index`.
abbrev HasPassed : ℕ → ℕ → ℕ → Type 0
HasPassed start index j =
    ((start ≤ index) × (start ≤ j) × (j < index)) ⊎ ((index < start) × ((start ≤ j) ⊎ (j < index)))

-- The rounds that a full turn of the search has left.
abbrev HasRounds : ℕ → ℕ → ℕ → ℕ → Type 0
HasRounds n start rounds index =
    ((start ≤ index) × (rounds + index ≡ n + start)) ⊎ ((index < start) × (rounds + index ≡ start))

abbrev Follows : ℕ → ℕ → ℕ → Type 0
Follows n index f = ((f ≡ index + 1) × (index + 1 < n)) ⊎ ((f ≡ 0) × (index + 1 ≡ n))

step-HasRounds :
    (n start rounds index f : ℕ)
    → start < n
    → Follows n index f
    → f ≢ start
    → HasRounds n start (suc rounds) index
    → HasRounds n start rounds f
step-HasRounds n start rounds index f hs fl ne m = ground arith

step-HasPassed :
    (n start index f j : ℕ)
    → start < n
    → j < n
    → Follows n index f
    → f ≢ start
    → HasPassed start f j
    → (j ≡ index) ⊎ HasPassed start index j
step-HasPassed n start index f j hs hj fl ne p = ground arith

turn-HasPassed :
    (n start index f j : ℕ)
    → start < n
    → j < n
    → Follows n index f
    → f ≡ start
    → (j ≡ index) ⊎ HasPassed start index j
turn-HasPassed n start index f j hs hj fl e = ground arith

module _ (slots : List CredentialSlot) (start : ℕ) where
  -- A slot that is found is healthy, and the search goes on behind it the next time.
  pub scan-some :
      (rounds index : ℕ) (s : CredentialSlot)
      → (scan slots start rounds index).0 ≡ some s
      → (i : ℕ) × (get_elem? slots i ≡ some s)
        × (s.healthy ≡ true)
        × ((scan slots start rounds index).1 ≡ (i + 1) % length slots)
  unfolding scan
  scan-some zero index s h = absurd (ground arith)
  scan-some (suc rounds) index s h = elim (Option-cases (get_elem? slots index)) [
    | inl e ↦ absurd (ground arith)
    | inr (t, e) ↦ elim (Bool-cases t.healthy) [
      | inl up ↦ (index, ground arith, ground arith, ground arith)
      | inr down ↦
          let (i, p, q, r) = scan-some rounds ((index + 1) % length slots) s (ground arith) in
          (i, p, q, ground arith)
    ]
  ]

  IsDownAt-cases :
      (index j : ℕ)
      → IsDownAt slots index
      → (HasPassed start index j → IsDownAt slots j)
      → (j ≡ index) ⊎ HasPassed start index j
      → IsDownAt slots j
  IsDownAt-cases index j down passed (inl e) = rw e down
  IsDownAt-cases index j down passed (inr p) = passed p

  -- A full turn that finds nothing has seen every slot, and none is healthy.
  pub scan-none :
      (rounds index : ℕ)
      → start < length slots
      → index < length slots
      → HasRounds (length slots) start rounds index
      → ((j : ℕ) → j < length slots → HasPassed start index j → IsDownAt slots j)
      → (scan slots start rounds index).0 ≡ none
      → (j : ℕ) → j < length slots
      → IsDownAt slots j
  unfolding scan
  scan-none zero index hs hi m passed h j hj = absurd (omega arith)
  scan-none (suc rounds) index hs hi m passed h j hj =
      let n = length slots in
      let f = (index + 1) % n in
      let (t, e) = get_elem?-lt slots index hi in
      let fl = following_cases index n hi in
      let down : IsDownAt slots index = λ u at. ground arith in
      elim (Bool-cases (f == start)) [
        | inl back ↦
            IsDownAt-cases index j down (passed j hj)
              (turn-HasPassed n start index f j hs hj fl ((==_iff f start).0 back))
        | inr on ↦
            let ne : f ≢ start = λ q. ground arith in
            scan-none rounds f hs (ground arith) (step-HasRounds n start rounds index f hs fl ne m)
              (λ k hk p.
                IsDownAt-cases index k down (passed k hk)
                  (step-HasPassed n start index f k hs hk fl ne p))
              (ground (arith, down t e)) j hj
      ]
