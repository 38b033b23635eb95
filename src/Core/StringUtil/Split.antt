-- ===== src/Core/StringUtil/Split.antt =====
-- `split` cuts a text at every delimiter and loses nothing.
use embedded_agent.Base.{
  ◌≢◌, none, some, ℕ, zero, suc, ◌<◌, ◌≡◌, refl, ap, sym, ◌∙◌, inl, inr, Bytes, some, List, [], ◌∷◌,
  ◌++◌, length, take, drop, find_byte, arith, All, Option-cases, length-drop, Lacks, find_byte-none,
  find_byte-some, find_byte-Lacks, find_byte-append, take-length-append, drop-suc-length-append,
  length-append, ap₂,
}
use embedded_agent.Core.StringUtil.{split, split_loop}

-- The parts with the delimiter between them.
abbrev pub join : ℕ → List Bytes → Bytes
join d [] = []
join d (p ∷ []) = p
join d (p ∷ q ∷ r) = p ++ d ∷ join d (q ∷ r)

-- What is left behind a delimiter fits in the fuel that is left.
drop-lt :
    (fuel : ℕ) (s : Bytes) (d pos : ℕ)
    → length s < suc fuel
    → find_byte d s ≡ some pos
    → length (drop (suc pos) s) < fuel
drop-lt fuel s d pos h e = omega (arith, length-drop (suc pos) s, (find_byte-some d s pos e).0)

split_loop-ne-nil : (fuel : ℕ) (s : Bytes) (d : ℕ) → length s < fuel → split_loop fuel s d ≢ []
unfolding split_loop
split_loop-ne-nil zero s d h = absurd (omega arith)
split_loop-ne-nil (suc fuel) s d h = elim (Option-cases (find_byte d s)) [
  | inl e ↦ rw (e, split_loop) (λ p. cc)
  | inr (pos, e) ↦ rw (e, split_loop) (λ p. cc)
]

join-cons : (d : ℕ) (p : Bytes) (ps : List Bytes) → ps ≢ [] → join d (p ∷ ps) ≡ p ++ d ∷ join d ps
join-cons d p [] h = absurd (h refl)
join-cons d p (x ∷ ps) h = refl

join-split_loop :
    (fuel : ℕ) (s : Bytes) (d : ℕ) → length s < fuel → join d (split_loop fuel s d) ≡ s
unfolding split_loop
join-split_loop zero s d h = absurd (omega arith)
join-split_loop (suc fuel) s d h = elim (Option-cases (find_byte d s)) [
  | inl e ↦ rw (e, split_loop)
  | inr (pos, e) ↦
      let fits = drop-lt fuel s d pos h e in
      let rest = drop (suc pos) s in
      rw (e, split_loop)
        (join-cons d (take pos s) _ (split_loop-ne-nil fuel rest d fits)
          ∙ ap (λ r. take pos s ++ d ∷ r) (join-split_loop fuel rest d fits)
          ∙ sym (find_byte-some d s pos e).2)
]

split_loop-Lacks :
    (fuel : ℕ) (s : Bytes) (d : ℕ) → length s < fuel → All (Lacks d) (split_loop fuel s d)
unfolding split_loop
split_loop-Lacks zero s d h = absurd (omega arith)
split_loop-Lacks (suc fuel) s d h = elim (Option-cases (find_byte d s)) [
  | inl e ↦ rw (e, split_loop) (find_byte-none d s e, tt)
  | inr (pos, e) ↦
      rw (e, split_loop)
        (
          (find_byte-some d s pos e).1,
          split_loop-Lacks fuel (drop (suc pos) s) d (drop-lt fuel s d pos h e),
        )
]

-- Joining the parts of a split with the delimiter gives the text back, there is a part, and no part
-- holds the delimiter.
split_lossless :
    (s : Bytes) (d : ℕ) → (join d (split s d) ≡ s) × (split s d ≢ []) × All (Lacks d) (split s d)
unfolding split
split_lossless s d = (
  join-split_loop (suc (length s)) s d (omega arith),
  split_loop-ne-nil (suc (length s)) s d (omega arith),
  split_loop-Lacks (suc (length s)) s d (omega arith),
)

split_loop-join :
    (fuel : ℕ) (ps : List Bytes) (d : ℕ)
    → length (join d ps) < fuel
    → ps ≢ []
    → All (Lacks d) ps
    → split_loop fuel (join d ps) d ≡ ps
unfolding split_loop
split_loop-join zero ps d h k l = absurd (omega arith)
split_loop-join (suc fuel) [] d h k l = absurd (k refl)
split_loop-join (suc fuel) (p ∷ []) d h k l = rw (find_byte-Lacks d p l.0, split_loop)
split_loop-join (suc fuel) (p ∷ q ∷ r) d h k l =
    let rest = join d (q ∷ r) in
    rw (find_byte-append d p rest l.0, split_loop)
      (ap₂ (λ (x : Bytes) (xs : List Bytes). x ∷ xs) (take-length-append p (d ∷ rest))
        (ap (λ s. split_loop fuel s d) (drop-suc-length-append p d rest)
          ∙ split_loop-join fuel (q ∷ r) d (omega (arith, length-append p (d ∷ rest))) (λ e. cc)
              l.1))

-- Splitting joined parts gives the parts back, if there is a part and none holds the delimiter.
pub split-join : (ps : List Bytes) (d : ℕ) → ps ≢ [] → All (Lacks d) ps → split (join d ps) d ≡ ps
unfolding split
split-join ps d h l = split_loop-join (suc (length (join d ps))) ps d (omega arith) h l

-- The part before the first delimiter, or the whole text.
abbrev pub first_part : ℕ → Bytes → Bytes
first_part d s = elim (find_byte d s) [ none ↦ s | some pos ↦ take pos s ]

pub split-cons : (s : Bytes) (d : ℕ) → (r : List Bytes) × (split s d ≡ first_part d s ∷ r)
unfolding split
split-cons s d = elim (Option-cases (find_byte d s)) [
  | inl e ↦ ([], rw (e, split_loop, first_part))
  | inr (pos, e) ↦ (split_loop (length s) (drop (suc pos) s) d, rw (e, split_loop, first_part))
]
