-- ===== src/Io/FileSystem/Roots/Ancestors.antt =====
-- The search for a repository, told by the names on the way to a directory.
use embedded_agent.Base.{
  ℕ, ◌<◌, ◌≡◌, ◌≢◌, ◌⊎◌, ◌↔◌, inl, inr, refl, Bool-cases, if◌then◌else◌, sym, ap, subst, ◌∙◌, Bytes,
  Bool, true, false, none, some, List, [], ◌∷◌, ◌++◌, codes, All, Lacks, length, length-append,
  append_assoc, take, take-length-append, is_empty, rfind_byte, ◌==◌, arith,
}
use embedded_agent.Core.Error.{ok}
use embedded_agent.Io.FileSystem.{
  Posix, Stat, parent_path, pop_slashes, drop_slashes, is_there, exists,
}
use embedded_agent.Io.FileSystem.Roots.{rounds, git_probe, find_git_root}
use embedded_agent.Io.FileSystem.Roots.Nearest.{IsNearest, here, higher, find_git_root_iff}

-- The names on the way to a directory, the last one first, each behind a slash.
abbrev pub stem : List Bytes → Bytes
stem [] = []
stem (name ∷ names) = stem names ++ b'/' ∷ name

-- The path of the directory: the root where there is no name.
abbrev pub dir_of : List Bytes → Bytes
dir_of [] = codes "/"
dir_of (name ∷ names) = stem (name ∷ names)

abbrev pub IsName : Bytes → Type 0
IsName name = (name ≢ []) × Lacks b'/' name

drop_slashes-Lacks : (s : Bytes) → Lacks b'/' s → drop_slashes s ≡ s
drop_slashes-Lacks [] h = refl
drop_slashes-Lacks (c ∷ s) h = ground (arith, h.0, drop_slashes-Lacks s h.1)

is_empty-append : (xs n : Bytes) → n ≢ [] → is_empty (xs ++ n) ≡ false
is_empty-append [] [] h = absurd (h refl)
is_empty-append [] (c ∷ n) h = refl
is_empty-append (c ∷ xs) n h = refl

drop_slashes-append : (xs n : Bytes) → IsName n → drop_slashes (xs ++ n) ≡ xs ++ n
drop_slashes-append [] n h = drop_slashes-Lacks n h.1
drop_slashes-append (c ∷ xs) n h =
    ground (arith, drop_slashes-append xs n h, is_empty-append xs n h.0)

pop_slashes-append : (xs n : Bytes) → IsName n → pop_slashes (xs ++ n) ≡ xs ++ n
unfolding pop_slashes
pop_slashes-append [] [] h = refl
pop_slashes-append [] (c ∷ n) h = ap (◌∷◌ c) (drop_slashes-Lacks n h.1.1)
pop_slashes-append (c ∷ xs) n h = ap (◌∷◌ c) (drop_slashes-append xs n h)

rfind_byte-Lacks : (s : Bytes) → Lacks b'/' s → rfind_byte b'/' s ≡ none
unfolding rfind_byte
rfind_byte-Lacks [] h = refl
rfind_byte-Lacks (c ∷ s) h = ground (arith, h.0, rfind_byte-Lacks s h.1)

rfind_byte-last :
    (xs n : Bytes) → Lacks b'/' n → rfind_byte b'/' (xs ++ b'/' ∷ n) ≡ some (length xs)
unfolding rfind_byte
rfind_byte-last [] n h = rw (rfind_byte-Lacks n h) refl
rfind_byte-last (c ∷ xs) n h = rw (rfind_byte-last xs n h) refl

pop_slashes-stem :
    (name : Bytes) (names : List Bytes)
    → IsName name
    → pop_slashes (stem (name ∷ names)) ≡ stem (name ∷ names)
pop_slashes-stem name names h =
    let split = append_assoc (stem names) (b'/' ∷ []) name in
    sym (ap pop_slashes split) ∙ pop_slashes-append (stem names ++ b'/' ∷ []) name h ∙ split

pop_slashes-dir_of :
    (names : List Bytes) → All IsName names → pop_slashes (dir_of names) ≡ dir_of names
pop_slashes-dir_of [] h = unfold pop_slashes in refl
pop_slashes-dir_of (name ∷ names) h = pop_slashes-stem name names h.0

parent_path-at :
    (path base : Bytes) (pos : ℕ)
    → pop_slashes path ≡ base
    → rfind_byte b'/' base ≡ some pos
    → parent_path path ≡ (if pos == 0 then codes "/" else take pos base)
unfolding parent_path
parent_path-at path base pos e f =
    rw (ap (rfind_byte b'/') e ∙ f, parent_path)
      (ap (λ b. if pos == 0 then codes "/" else take pos b) e)

parent_path-root : parent_path (codes "/") ≡ codes "/"
unfolding parent_path pop_slashes rfind_byte
parent_path-root = refl

-- The parent of a directory has one name less.
parent_path-stem :
    (name : Bytes) (names : List Bytes)
    → IsName name
    → parent_path (stem (name ∷ names)) ≡ dir_of names
parent_path-stem name [] h =
    parent_path-at (stem (name ∷ [])) _ _ (pop_slashes-stem name [] h) (rfind_byte-last [] name h.1)
parent_path-stem name (m ∷ names) h =
    let positive = length-append (stem names) (b'/' ∷ m) in
    let whole = take-length-append (stem (m ∷ names)) (b'/' ∷ name) in
    parent_path-at (stem (name ∷ m ∷ names)) _ _ (pop_slashes-stem name (m ∷ names) h)
      (rfind_byte-last (stem (m ∷ names)) name h.1)
    ∙ ground arith

module _ {S : Type 0} (os : Posix S) (s : S) where
  -- There is a file or a directory `.git` in the directory.
  abbrev pub HasGit : Bytes → Type 0
  HasGit path = (directory : Bool) × (os.stat (path ++ codes "/.git") s ≡ Stat.found directory)

  -- `root` is the first of the directory, the one above it, and so on up to the root of the file system
  -- that has a `.git`.
  abbrev pub IsNearestGit : List Bytes → Bytes → Type 0
  IsNearestGit [] root = HasGit (codes "/") × (root ≡ codes "/")
  IsNearestGit (name ∷ names) root =
      (HasGit (stem (name ∷ names)) × (root ≡ stem (name ∷ names)))
      ⊎ ((¬ HasGit (stem (name ∷ names))) × IsNearestGit names root)

  stat_there :
      (v : Stat) (path : Bytes)
      → os.stat path s ≡ v
      → (is_there os path s ≡ true) ↔ ((directory : Bool) × (v ≡ Stat.found directory))
  unfolding exists
  stat_there (Stat.found b) path e = ((λ h. (b, refl)), λ h. rw (e, is_there, exists) refl)
  stat_there (Stat.missing m) path e = ((λ h. absurd (ground arith)), λ h. absurd (ground arith))
  stat_there (Stat.unreadable m) path e = ((λ h. absurd (ground arith)), λ h. absurd (ground arith))

  git_probe-cases :
      (path : Bytes)
      → (HasGit path × (git_probe os s path ≡ some path))
        ⊎ ((¬ HasGit path) × (git_probe os s path ≡ none))
  unfolding git_probe
  git_probe-cases path =
      let there = stat_there (os.stat (path ++ codes "/.git") s) (path ++ codes "/.git") refl in
      elim (Bool-cases (is_there os (path ++ codes "/.git") s)) [
        | inl e ↦ inl (there.0 e, rw (git_probe, e) refl)
        | inr e ↦ inr ((λ h. absurd (ground (arith, there.1 h))), rw (git_probe, e) refl)
      ]

  abbrev Nearest : Bytes → Bytes → Type 0
  Nearest = IsNearest (git_probe os s) (λ current. false)

  -- Where the search stands, it is done or goes on to the parent.
  Nearest-inverse :
      (path root : Bytes)
      → Nearest path root
      → (git_probe os s path ≡ some root)
        ⊎ ((git_probe os s path ≡ none)
            × (parent_path path ≢ path)
            × Nearest (parent_path path) root)
  Nearest-inverse path root (here _ _ e) = inl e
  Nearest-inverse path root (higher _ _ e f g k n) = inr (e, k, n)

  Nearest-IsNearestGit :
      (names : List Bytes) (root : Bytes)
      → All IsName names
      → Nearest (dir_of names) root
      → IsNearestGit names root
  Nearest-IsNearestGit [] root h n = elim (git_probe-cases (codes "/")) [
    | inl (has, e) ↦ elim (Nearest-inverse (codes "/") root n) [
      | inl f ↦ (has, ground arith)
      | inr (f, g, k) ↦ absurd (ground arith)
    ]
    | inr (lacks, e) ↦ elim (Nearest-inverse (codes "/") root n) [
      | inl f ↦ absurd (ground arith)
      | inr (f, g, k) ↦ absurd (g parent_path-root)
    ]
  ]
  Nearest-IsNearestGit (name ∷ names) root h n = elim (git_probe-cases (stem (name ∷ names))) [
    | inl (has, e) ↦ elim (Nearest-inverse (stem (name ∷ names)) root n) [
      | inl f ↦ inl (has, ground arith)
      | inr (f, g, k) ↦ absurd (ground arith)
    ]
    | inr (lacks, e) ↦ elim (Nearest-inverse (stem (name ∷ names)) root n) [
      | inl f ↦ absurd (ground arith)
      | inr (f, g, k) ↦ inr (
        lacks,
        Nearest-IsNearestGit names root h.1
            (subst (λ p. Nearest p root) (parent_path-stem name names h.0) k),
      )
    ]
  ]

  dir_of-ne : (name : Bytes) (names : List Bytes) → IsName name → dir_of names ≢ stem (name ∷ names)
  dir_of-ne [] names h e = h.0 refl
  dir_of-ne (c ∷ name) [] h e = ground arith
  dir_of-ne (c ∷ name) (m ∷ names) h e =
      absurd (omega (arith, ap length e, length-append (stem (m ∷ names)) (b'/' ∷ c ∷ name)))

  dir_of-some : (names : List Bytes) → dir_of names ≢ []
  dir_of-some [] e = cc
  dir_of-some (name ∷ names) e =
      absurd (omega (arith, ap length e, length-append (stem names) (b'/' ∷ name)))

  IsNearestGit-Nearest :
      (names : List Bytes) (root : Bytes)
      → All IsName names
      → IsNearestGit names root
      → Nearest (dir_of names) root
  IsNearestGit-Nearest [] root h (has, e) = elim (git_probe-cases (codes "/")) [
    | inl (also, f) ↦ here (codes "/") root (f ∙ ap some (sym e))
    | inr (lacks, f) ↦ absurd (lacks has)
  ]
  IsNearestGit-Nearest (name ∷ names) root h (inl (has, e)) =
      elim (git_probe-cases (stem (name ∷ names))) [
        | inl (also, f) ↦ here (stem (name ∷ names)) root (f ∙ ap some (sym e))
        | inr (lacks, f) ↦ absurd (lacks has)
      ]
  IsNearestGit-Nearest (name ∷ names) root h (inr (lacks, n)) =
      elim (git_probe-cases (stem (name ∷ names))) [
        | inl (has, f) ↦ absurd (lacks has)
        | inr (also, f) ↦
            let up = parent_path-stem name names h.0 in
            higher (stem (name ∷ names)) root f refl (λ e. dir_of-some names (sym up ∙ e))
              (λ e. dir_of-ne name names h.0 (sym up ∙ e))
              (subst (λ p. Nearest p root) (sym up) (IsNearestGit-Nearest names root h.1 n))
      ]

  -- For an absolute path of names, shorter than the 256 rounds, `find_git_root` returns a directory exactly
  -- where it is the nearest one with a `.git` in it: the directory of the path itself, or the first one
  -- that drops names off its end, the root of the file system being the last that is looked at.
  pub find_git_root-nearest :
      (names : List Bytes) (root : Bytes)
      → All IsName names
      → length (dir_of names) < rounds
      → (find_git_root os (dir_of names) s ≡ ok root) ↔ IsNearestGit names root
  find_git_root-nearest names root h short =
      let told = find_git_root_iff os (dir_of names) s root short in
      let same = pop_slashes-dir_of names h in
      (
        (λ e. Nearest-IsNearestGit names root h (subst (λ p. Nearest p root) same (told.0 e))),
        λ n. told.1 (subst (λ p. Nearest p root) (sym same) (IsNearestGit-Nearest names root h n)),
      )
