-- ===== src/Io/FileSystem/Roots.antt =====
-- src/io/FileSystem.cpp: the searches that walk up from a directory, `find_git_root` and `walk_up_find`.
pub mod Nearest
pub mod Ancestors
use embedded_agent.Base.{
  ℕ, zero, suc, Bytes, Bool, true, false, ◌||◌, Option, none, some, List, [], ◌∷◌, ◌++◌, codes,
  is_empty, bytes_eq, if◌then◌else◌,
}
use embedded_agent.Core.Error.{Result, ok, err, error_of, ErrorCode}
use embedded_agent.Io.FileSystem.{Posix, parent_path, pop_slashes, is_there}

-- The loop that both searches run: `probe` looks at a directory, and `stop` ends the walk behind it.
unfoldable pub climb : (Bytes → Option Bytes) → (Bytes → Bool) → ℕ → Bytes → Option Bytes
unfolding parent_path
climb probe stop zero current = none
climb probe stop (suc fuel) current =
    let higher = climb probe stop fuel (parent_path current) in
    elim (probe current) [
      | some answer ↦ some answer
      | none ↦
          if stop current
          then none
          else if is_empty (parent_path current) || bytes_eq (parent_path current) current
          then none
          else higher
    ]

-- `for (int i = 0; i < 256; ++i)`
unfoldable pub rounds : ℕ
rounds = 256

-- What the search makes of the loop's result.
unfoldable pub root_found : Bytes → Option Bytes → Result Bytes
root_found start_dir none =
    err (error_of ErrorCode.not_found (codes "No .git directory found from: " ++ start_dir))
root_found start_dir (some root) = ok root

module _ {S : Type 0} (os : Posix S) where
  -- A directory with `.git` in it.
  unfoldable pub git_probe : S → Bytes → Option Bytes
  git_probe s current = if is_there os (current ++ codes "/.git") s then some current else none

  unfoldable pub find_git_root : Bytes → S → Result Bytes
  unfolding climb git_probe root_found rounds pop_slashes
  find_git_root start_dir s =
      root_found start_dir (climb (git_probe s) (λ current. false) rounds (pop_slashes start_dir))

  -- The loop over the names.
  unfoldable pub first_there : List Bytes → S → Bytes → Option Bytes
  first_there [] s dir = none
  first_there (name ∷ names) s dir =
      if is_there os (dir ++ codes "/" ++ name) s
      then some (dir ++ codes "/" ++ name)
      else first_there names s dir

  unfoldable pub walk_up_find : Bytes → List Bytes → Bytes → S → Bytes
  unfolding climb first_there rounds pop_slashes
  walk_up_find start_dir filenames stop_at s =
      let hit =
        if is_empty stop_at
        then first_there filenames s start_dir
        else climb (first_there filenames s) (λ current. bytes_eq current (pop_slashes stop_at))
            rounds (pop_slashes start_dir) in
      elim hit [ some candidate ↦ candidate | none ↦ [] ]
