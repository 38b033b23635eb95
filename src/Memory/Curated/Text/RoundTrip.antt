-- ===== src/Memory/Curated/Text/RoundTrip.antt =====
-- Entries that are written to a file are read back.
use embedded_agent.Base.{
  ℕ, zero, suc, ◌+◌, ◌≤◌, ◌<◌, ◌≡◌, ◌≢◌, refl, sym, ap, ◌∙◌, Bytes, false, Bool-cases, inl, inr,
  none, some, Option-cases, List, [], ◌∷◌, ◌++◌, append_assoc, length, length-append, take, drop,
  take-length-append, All, arith, find, is_prefix,
}
use embedded_agent.Memory.Curated.Text.{
  delimiter, is_space, trim, trim_front, trim_back, push_piece, split_rounds, split_entries,
  join_entries, file_text,
}

-- An entry that a file can hold: it is trimmed, not empty, and has no delimiter in it, also not together
-- with a line end behind it.
unfoldable pub IsStorable : Bytes → Type 0
unfolding trim delimiter find
IsStorable e = (trim e ≡ e) × (e ≢ []) × (find delimiter (e ++ 10 ∷ []) ≡ none)

trim_back-le : (s : Bytes) → length (trim_back s) ≤ length s
unfolding trim_back
trim_back-le [] = omega arith
trim_back-le (c ∷ s) = ground (arith, trim_back-le s)

trim_front-le : (s : Bytes) → length (trim_front s) ≤ length s
unfolding trim_front
trim_front-le [] = omega arith
trim_front-le (c ∷ s) = ground (arith, trim_front-le s)

trimmed-front : (c : ℕ) (s : Bytes) → trim (c ∷ s) ≡ c ∷ s → is_space c ≡ false
unfolding trim trim_front
trimmed-front c s h = elim (Bool-cases (is_space c)) [
  | inl e ↦
      let shorter = trim_back-le (trim_front s) in
      let shorter_still = trim_front-le s in
      let same : trim_back (trim_front s) ≡ c ∷ s = sym (rw e refl) ∙ h in
      absurd (omega (arith, ap length same))
  | inr e ↦ e
]

trim_back-newline : (s : Bytes) → trim_back (s ++ 10 ∷ []) ≡ trim_back s
unfolding trim_back
trim_back-newline [] = refl
trim_back-newline (c ∷ s) = rw (trim_back-newline s) refl

trim_front-solid : (c : ℕ) (s : Bytes) → is_space c ≡ false → trim_front (c ∷ s) ≡ c ∷ s
unfolding trim_front
trim_front-solid c s solid = rw solid refl

-- A line end behind a trimmed entry is trimmed off.
trim-newline : (e : Bytes) → trim e ≡ e → e ≢ [] → trim (e ++ 10 ∷ []) ≡ e
unfolding trim
trim-newline [] h k = absurd (k refl)
trim-newline (c ∷ s) h k =
    let solid = trimmed-front c s h in
    ap trim_back (trim_front-solid c (s ++ 10 ∷ []) solid)
    ∙ trim_back-newline (c ∷ s)
    ∙ sym (ap trim_back (trim_front-solid c s solid))
    ∙ h

is_prefix-delimiter :
    (c : ℕ) (e t : Bytes)
    → is_prefix delimiter ((c ∷ e) ++ 10 ∷ []) ≡ false
    → is_prefix delimiter ((c ∷ e) ++ (delimiter ++ t)) ≡ false
unfolding is_prefix delimiter
is_prefix-delimiter c [] t h = ground arith
is_prefix-delimiter c (d ∷ []) t h = ground arith
is_prefix-delimiter c (d ∷ x ∷ []) t h = h
is_prefix-delimiter c (d ∷ x ∷ y ∷ e) t h = h

find-delimiter :
    (e t : Bytes)
    → find delimiter (e ++ 10 ∷ []) ≡ none
    → find delimiter (e ++ (delimiter ++ t)) ≡ some (length e)
unfolding find is_prefix delimiter
find-delimiter [] t h = refl
find-delimiter (c ∷ e) t h = elim (Bool-cases (is_prefix delimiter ((c ∷ e) ++ 10 ∷ []))) [
  | inl p ↦ ground arith
  | inr p ↦
      let q = is_prefix-delimiter c e t p in
      elim (Option-cases (find delimiter (e ++ 10 ∷ []))) [
        | inl none_there ↦ let rest = find-delimiter e t none_there in ground arith
        | inr (pos, found) ↦ ground arith
      ]
]

drop-delimiter : (e t : Bytes) → drop (length e + length delimiter) (e ++ (delimiter ++ t)) ≡ t
unfolding delimiter
drop-delimiter [] t = refl
drop-delimiter (c ∷ e) t =
    let longer : length (c ∷ e) + 4 ≡ suc (length e + 4) = omega arith in
    rw longer (drop-delimiter e t)

push_piece-storable :
    (piece e : Bytes) (rest : List Bytes)
    → trim piece ≡ e
    → e ≢ []
    → push_piece piece rest ≡ e ∷ rest
unfolding push_piece
push_piece-storable piece [] rest h k = absurd (k refl)
push_piece-storable piece (c ∷ e) rest h k = rw (push_piece, h) refl

-- The text of a first entry and of those behind it.
file_text-cons :
    (e f : Bytes) (list : List Bytes)
    → file_text (e ∷ f ∷ list) ≡ e ++ (delimiter ++ file_text (f ∷ list))
unfolding file_text join_entries
file_text-cons e f list =
    append_assoc e (delimiter ++ join_entries (f ∷ list)) (10 ∷ [])
    ∙ ap (λ x. e ++ x) (append_assoc delimiter (join_entries (f ∷ list)) (10 ∷ []))

split_rounds-nil : (fuel : ℕ) → split_rounds (suc fuel) (file_text []) ≡ []
unfolding split_rounds file_text
split_rounds-nil fuel = refl

-- The text behind the first entry is shorter.
drop-delimiter-lt :
    (e f : Bytes) (list : List Bytes) (fuel : ℕ)
    → length (file_text (e ∷ f ∷ list)) < suc fuel
    → length (file_text (f ∷ list)) < fuel
unfolding delimiter
drop-delimiter-lt e f list fuel h =
    let long = ap length (file_text-cons e f list) in
    let longer = length-append e (delimiter ++ file_text (f ∷ list)) in
    let longest = length-append delimiter (file_text (f ∷ list)) in omega arith

file_text-one : (e : Bytes) → file_text (e ∷ []) ≡ e ++ 10 ∷ []
unfolding file_text join_entries
file_text-one e = refl

split_rounds-none :
    (fuel : ℕ) (text : Bytes)
    → find delimiter text ≡ none
    → split_rounds (suc fuel) text ≡ push_piece text []
unfolding split_rounds
split_rounds-none fuel text h = rw (split_rounds, h) refl

split_rounds-some :
    (fuel pos : ℕ) (text : Bytes)
    → find delimiter text ≡ some pos
    → split_rounds (suc fuel) text
      ≡ push_piece (take pos text) (split_rounds fuel (drop (pos + length delimiter) text))
unfolding split_rounds
split_rounds-some fuel pos text h = rw (split_rounds, h) refl

split_rounds-file_text :
    (fuel : ℕ) (entries : List Bytes)
    → length (file_text entries) < fuel
    → All IsStorable entries
    → split_rounds fuel (file_text entries) ≡ entries
unfolding IsStorable
split_rounds-file_text zero entries h k = absurd (omega arith)
split_rounds-file_text (suc fuel) [] h k = split_rounds-nil fuel
split_rounds-file_text (suc fuel) (e ∷ []) h ((trimmed, solid, whole), u) = rw (file_text-one e) (
    split_rounds-none fuel (e ++ 10 ∷ []) whole
    ∙ push_piece-storable (e ++ 10 ∷ []) e [] (trim-newline e trimmed solid) solid)
split_rounds-file_text (suc fuel) (e ∷ f ∷ list) h ((trimmed, solid, whole), k) =
    let rest = file_text (f ∷ list) in
    let text = e ++ (delimiter ++ rest) in
    let shorter = drop-delimiter-lt e f list fuel h in
    rw (file_text-cons e f list) (
      split_rounds-some fuel (length e) text (find-delimiter e rest whole)
      ∙ push_piece-storable (take (length e) text) e
          (split_rounds fuel (drop (length e + length delimiter) text))
          (ap trim (take-length-append e (delimiter ++ rest)) ∙ trimmed) solid
      ∙ ap (◌∷◌ e) (
          ap (split_rounds fuel) (drop-delimiter e rest)
          ∙ split_rounds-file_text fuel (f ∷ list) shorter k))

-- Entries that are trimmed, not empty and free of the delimiter, also of one that a line end behind the
-- entry would complete, are read back from the text that is written for them: the same entries, in the
-- same order.
pub split_entries-file_text :
    (entries : List Bytes) → All IsStorable entries → split_entries (file_text entries) ≡ entries
unfolding split_entries
split_entries-file_text entries h =
    split_rounds-file_text (suc (length (file_text entries))) entries (omega arith) h
