-- ===== src/Agent/ContextCompressor/Tail.antt =====
-- What the cut of the context compressor leaves in the tail.
use embedded_agent.Base.{
  sym, subst, ◌⊎◌, ap, ◌∙◌, ℕ, zero, suc, ◌+◌, ◌-◌, ◌≤◌, ◌<◌, ◌≡◌, refl, min, max, Bool, true,
  false, none, some, Option-cases, Bool-cases, inl, inr, List, [], ◌∷◌, length, drop, any, arith,
}
use embedded_agent.Core.Json.{JsonLib}
use embedded_agent.Core.Types.{Message}
use embedded_agent.Agent.ContextCompressor.{
  ContextCompressor, last_spoken, is_spoken, find_tail_cut,
}

-- With more than one message behind the head, the cut lies behind the head and at least one message
-- further, and the tail keeps the last `protect_last_n` messages, or all but one where there are fewer.
pub find_tail_cut_bounds :
    (L : JsonLib) (c : ContextCompressor) (messages : List (Message L.Json)) (head_end : ℕ)
    → suc head_end < length messages
    → (suc head_end ≤ find_tail_cut L c messages head_end)
      × (find_tail_cut L c messages head_end + min c.protect_last_n (length messages - head_end - 1)
          ≤ length messages)
unfolding find_tail_cut
find_tail_cut_bounds L c messages head_end h =
    elim (Option-cases (last_spoken head_end (drop head_end messages))) [
      | inl e ↦ (ground arith, ground arith)
      | inr (i, e) ↦ (ground arith, ground arith)
    ]

any-drop :
    {A : Type 0} (p : A → Bool) (j k : ℕ) (xs : List A)
    → k ≤ j
    → any p (drop j xs) ≡ true
    → any p (drop k xs) ≡ true
any-drop p zero zero xs h a = a
any-drop p zero (suc k) xs h a = absurd (omega arith)
any-drop p (suc j) zero [] h a = a
any-drop p (suc j) (suc k) [] h a = a
any-drop p (suc j) zero (x ∷ xs) h a = ground (arith, any-drop p j zero xs (omega arith) a)
any-drop p (suc j) (suc k) (x ∷ xs) h a = any-drop p j k xs (omega arith) a

last_spoken-none :
    {J : Type 0} (i : ℕ) (ms : List (Message J))
    → any is_spoken ms ≡ false
    → last_spoken i ms ≡ none
unfolding last_spoken
last_spoken-none i [] h = refl
last_spoken-none i (m ∷ ms) h = ground (arith, last_spoken-none (suc i) ms)

last_spoken-any :
    {J : Type 0} (i : ℕ) (ms : List (Message J))
    → any is_spoken ms ≡ true
    → (k : ℕ) × (last_spoken i ms ≡ some (k + i)) × (any is_spoken (drop k ms) ≡ true)
unfolding last_spoken
last_spoken-any i [] h = cc
last_spoken-any i (m ∷ ms) h = elim (Bool-cases (any is_spoken ms)) [
  | inl a ↦ let (k, e, b) = last_spoken-any (suc i) ms a in (suc k, ground arith, b)
  | inr a ↦ (0, ground (arith, last_spoken-none (suc i) ms a), h)
]

drop-nil : {A : Type 0} (n : ℕ) → drop {A = A} n [] ≡ []
drop-nil zero = refl
drop-nil (suc n) = refl

drop-drop : {A : Type 0} (j k : ℕ) (xs : List A) → drop k (drop j xs) ≡ drop (k + j) xs
drop-drop zero k xs = ap (λ i. drop i xs) (omega arith)
drop-drop (suc j) k [] = drop-nil k ∙ sym (drop-nil (k + suc j))
drop-drop (suc j) k (x ∷ xs) =
    let q : suc (k + j) ≡ k + suc j = omega arith in drop-drop j k xs ∙ ap (λ i. drop i (x ∷ xs)) q

-- The cut is at most a spoken message's place, or right behind the head.
find_tail_cut-le :
    (L : JsonLib) (c : ContextCompressor) (messages : List (Message L.Json)) (head_end i : ℕ)
    → suc head_end < length messages
    → last_spoken head_end (drop head_end messages) ≡ some i
    → find_tail_cut L c messages head_end ≤ max i (suc head_end)
unfolding find_tail_cut
find_tail_cut-le L c messages head_end i h e = ground arith

zero_or_suc : (k : ℕ) → (k ≡ 0) ⊎ (1 ≤ k)
zero_or_suc zero = inl refl
zero_or_suc (suc k) = inr (omega arith)

-- Where more than one message follows the head, and one of those after the first of them is the
-- user's or the assistant's, the tail holds a message of the user or the assistant.
pub find_tail_cut_speaks :
    (L : JsonLib) (c : ContextCompressor) (messages : List (Message L.Json)) (head_end : ℕ)
    → suc head_end < length messages
    → any is_spoken (drop (suc head_end) messages) ≡ true
    → any is_spoken (drop (find_tail_cut L c messages head_end) messages) ≡ true
find_tail_cut_speaks L c messages head_end h a =
    let q : suc head_end ≡ 1 + head_end = omega arith in
    let behind : any is_spoken (drop (1 + head_end) messages) ≡ true =
      subst (λ i. any is_spoken (drop i messages) ≡ true) q a in
    let (k, e, b) = last_spoken-any head_end (drop head_end messages) (
      any-drop is_spoken 1 0 (drop head_end messages) (omega arith)
        (subst (λ ms. any is_spoken ms ≡ true) (sym (drop-drop head_end 1 messages)) behind)) in
    let le = find_tail_cut-le L c messages head_end (k + head_end) h e in
    elim (zero_or_suc k) [
      | inl small ↦
          any-drop is_spoken (suc head_end) (find_tail_cut L c messages head_end) messages
            (omega arith) a
      | inr large ↦
          any-drop is_spoken (k + head_end) (find_tail_cut L c messages head_end) messages
            (omega arith) (subst (λ ms. any is_spoken ms ≡ true) (drop-drop head_end k messages) b)
    ]
