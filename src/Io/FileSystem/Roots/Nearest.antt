-- ===== src/Io/FileSystem/Roots/Nearest.antt =====
-- The searches find the nearest directory, and their 256 rounds are enough.
use embedded_agent.Base.{
  ℕ, zero, suc, ◌≤◌, ◌<◌, ◌≡◌, ◌≢◌, ◌↔◌, inl, inr, refl, ap, Bytes, Bool, Bool-cases, true, false,
  ◌||◌, Option, Option-cases, none, some, [], ◌∷◌, length, length-take, arith, is_empty, bytes_eq,
  bytes_eq_iff, bytes_eq_refl, rfind_byte, ◌==◌,
}
use embedded_agent.Core.Error.{Result, ok}
use embedded_agent.Io.FileSystem.{
  Posix, parent_path, pop_slashes, drop_slashes, above, mkdir_round, mkdir_rounds,
}
use embedded_agent.Io.FileSystem.Roots.{climb, rounds, git_probe, root_found, find_git_root}

rfind_byte-lt : (d : ℕ) (s : Bytes) (pos : ℕ) → rfind_byte d s ≡ some pos → pos < length s
unfolding rfind_byte
rfind_byte-lt d [] pos h = cc
rfind_byte-lt d (c ∷ s) pos h = elim (Option-cases (rfind_byte d s)) [
  | inl e ↦ ground arith
  | inr (p, e) ↦ ground (arith, rfind_byte-lt d s p)
]

drop_slashes-le : (s : Bytes) → length (drop_slashes s) ≤ length s
drop_slashes-le [] = omega arith
drop_slashes-le (c ∷ s) = ground (arith, drop_slashes-le s)

pop_slashes-le : (s : Bytes) → length (pop_slashes s) ≤ length s
unfolding pop_slashes
pop_slashes-le [] = omega arith
pop_slashes-le (c ∷ s) = omega (arith, drop_slashes-le s)

-- A parent that is another path, and not empty, is shorter.
parent_path-lt :
    (p : Bytes) → parent_path p ≢ [] → parent_path p ≢ p → length (parent_path p) < length p
unfolding parent_path pop_slashes rfind_byte
parent_path-lt [] h k = absurd (h refl)
parent_path-lt (c ∷ []) h k = elim (Bool-cases (c == b'/')) [
  | inl e ↦ absurd (k (ground arith))
  | inr e ↦ absurd (h (ground arith))
]
parent_path-lt (c ∷ d ∷ s) h k = elim (Option-cases (rfind_byte b'/' (pop_slashes (c ∷ d ∷ s)))) [
  | inl e ↦ absurd (h (rw (parent_path, e) refl))
  | inr (zero, e) ↦ rw (parent_path, e) (omega arith)
  | inr (suc pos, e) ↦
      let below = rfind_byte-lt b'/' (pop_slashes (c ∷ d ∷ s)) (suc pos) e in
      let shorter = pop_slashes-le (c ∷ d ∷ s) in
      rw (parent_path, e) (grind (arith, length-take (suc pos) (pop_slashes (c ∷ d ∷ s))))
]

-- The nearest answer above a directory: the probe answers there, or does not and the walk goes on to the
-- parent, where there is another one.
pub data IsNearest (probe : Bytes → Option Bytes) (stop : Bytes → Bool)
    : Bytes → Bytes → Type 0 where
  here : (p answer : Bytes) → probe p ≡ some answer → IsNearest probe stop p answer
  higher :
      (p answer : Bytes)
      → probe p ≡ none
      → stop p ≡ false
      → parent_path p ≢ []
      → parent_path p ≢ p
      → IsNearest probe stop (parent_path p) answer
      → IsNearest probe stop p answer

is_empty_iff : (s : Bytes) → (is_empty s ≡ true) ↔ (s ≡ [])
is_empty_iff [] = ground arith
is_empty_iff (c ∷ s) = ground arith

climb-goes_on :
    (probe : Bytes → Option Bytes) (stop : Bytes → Bool) (fuel : ℕ) (p answer : Bytes)
    → probe p ≡ none
    → climb probe stop (suc fuel) p ≡ some answer
    → (stop p ≡ false)
      × (parent_path p ≢ [])
      × (parent_path p ≢ p)
      × (climb probe stop fuel (parent_path p) ≡ some answer)
unfolding climb
climb-goes_on probe stop fuel p answer e h =
    ground (arith, bytes_eq_iff (parent_path p) p, is_empty_iff (parent_path p))

climb_sound :
    (probe : Bytes → Option Bytes) (stop : Bytes → Bool) (fuel : ℕ) (p answer : Bytes)
    → climb probe stop fuel p ≡ some answer
    → IsNearest probe stop p answer
unfolding climb
climb_sound probe stop zero p answer h = cc
climb_sound probe stop (suc fuel) p answer h = elim (Option-cases (probe p)) [
  | inl e ↦
      let (a, b, c, more) = climb-goes_on probe stop fuel p answer e h in
      higher p answer e a b c (climb_sound probe stop fuel (parent_path p) answer more)
  | inr (x, e) ↦ here p answer (ground arith)
]

climb_complete :
    (probe : Bytes → Option Bytes) (stop : Bytes → Bool) (fuel : ℕ) (p answer : Bytes)
    → length p < fuel
    → IsNearest probe stop p answer
    → climb probe stop fuel p ≡ some answer
unfolding climb
climb_complete probe stop zero p answer h n = absurd (omega arith)
climb_complete probe stop (suc fuel) p answer h (here _ _ e) = ground arith
climb_complete probe stop (suc fuel) p answer h (higher _ _ e f g k n) =
    let shorter = parent_path-lt p g k in
    let rest = climb_complete probe stop fuel (parent_path p) answer (omega arith) n in
    ground (arith, bytes_eq_iff (parent_path p) p, is_empty_iff (parent_path p))

root_found-ok :
    (start_dir root : Bytes) (hit : Option Bytes)
    → (root_found start_dir hit ≡ ok root) ↔ (hit ≡ some root)
unfolding root_found
root_found-ok start_dir root none = ground arith
root_found-ok start_dir root (some other) = ground arith

-- For a path shorter than the 256 rounds, `find_git_root` returns a directory exactly where it is the
-- nearest one with a `.git` in it: the start without its last slashes, or the first above it on the way
-- from parent to parent, which ends at the root or behind the first name of a relative path.
pub find_git_root_iff :
    {S : Type 0} (os : Posix S) (start_dir : Bytes) (s : S) (root : Bytes)
    → length start_dir < rounds
    → (find_git_root os start_dir s ≡ ok root)
      ↔ IsNearest (git_probe os s) (λ current. false) (pop_slashes start_dir) root
unfolding find_git_root
find_git_root_iff os start_dir s root h =
    let sound =
      climb_sound (git_probe os s) (λ current. false) rounds (pop_slashes start_dir) root in
    let complete =
      climb_complete (git_probe os s) (λ current. false) rounds (pop_slashes start_dir) root in
    let shorter = pop_slashes-le start_dir in
    let told =
      root_found-ok start_dir root
        (climb (git_probe os s) (λ current. false) rounds (pop_slashes start_dir)) in
    (λ e. sound (told.0 e), λ n. told.1 (complete (omega arith) n))

above-lt :
    (p : Bytes) → (is_empty (above p) || bytes_eq (above p) p) ≡ false → length (above p) < length p
unfolding above
above-lt p h = elim (Option-cases (rfind_byte b'/' p)) [
  | inl e ↦ ground (arith, bytes_eq_refl p)
  | inr (pos, e) ↦ ground (arith, rfind_byte-lt b'/' p pos e, length-take pos p)
]

-- Without a parent to make, its result does not matter.
mkdir_round-top :
    {S : Type 0} (os : Posix S) (p : Bytes) (s : S) (a b : Result (Unit {0}) × S)
    → (is_empty (above p) || bytes_eq (above p) p) ≡ true
    → mkdir_round os p s a ≡ mkdir_round os p s b
unfolding mkdir_round
mkdir_round-top os p s a b e = rw e refl

-- More rounds than the path has bytes make no difference.
mkdir_rounds-enough :
    {S : Type 0} (os : Posix S) (m n : ℕ) (p : Bytes) (s : S)
    → length p < m
    → length p < n
    → mkdir_rounds os m p s ≡ mkdir_rounds os n p s
unfolding mkdir_rounds
mkdir_rounds-enough os zero n p s h k = absurd (omega arith)
mkdir_rounds-enough os (suc m) zero p s h k = absurd (omega arith)
mkdir_rounds-enough os (suc m) (suc n) p s h k =
    elim (Bool-cases (is_empty (above p) || bytes_eq (above p) p)) [
      | inl e ↦ mkdir_round-top os p s _ _ e
      | inr e ↦
          let shorter = above-lt p e in
          ap (mkdir_round os p s)
            (mkdir_rounds-enough os m n (above p) s (omega arith) (omega arith))
    ]
