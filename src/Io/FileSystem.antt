-- ===== src/Io/FileSystem.antt =====
-- src/io/FileSystem.cpp. What the functions ask of the operating system and of the C++ streams is the
-- record `Posix` over the state `S` of the system; the log lines are left out.
pub mod Disk
pub mod Roots
mod Tests
use embedded_agent.Base.{
  ℕ, zero, suc, Bytes, Bool, true, false, not, ◌&&◌, ◌||◌, Option, none, some, List, [], ◌∷◌, ◌++◌,
  codes, length, take, drop, is_empty, bytes_eq, rfind_byte, ◌==◌, if◌then◌else◌,
}
use embedded_agent.Core.Error.{Result, ok, err, error_of, ErrorCode, is_ok}

-- `stat`: a directory or another file, `ENOENT`, or another error, each with its `strerror`.
pub data Stat : Type 0 where
  found : Bool → Stat
  missing : Bytes → Stat
  unreadable : Bytes → Stat

-- `mkdir`: success, `EEXIST`, or another error with its `strerror`.
pub data Made : Type 0 where
  made already_there : Made
  not_made : Bytes → Made

-- An `ofstream` that a text is written to: it did not open, it went bad, or the text is in the file.
pub data Written : Type 0 where
  not_opened incomplete written : Written

pub record Posix (S : Type 0) : Type 0 where
  pub getenv : Bytes → S → Option Bytes
  -- `access(path, X_OK) == 0`
  pub executable : Bytes → S → Bool
  pub getcwd : S → Option Bytes
  pub stat : Bytes → S → Stat
  pub mkdir : Bytes → S → Made × S
  -- `::remove`, with the `strerror` where it fails
  pub unlink : Bytes → S → Option Bytes × S
  -- the text of an `ifstream`, if it opens
  pub read : Bytes → S → Option Bytes
  pub write : Bytes → Bytes → S → Written × S
  -- `std::rename(...) == 0`
  pub rename : Bytes → Bytes → S → Bool × S
  -- `open` and `flock(LOCK_EX)`: whether the file could be opened
  pub lock : Bytes → S → Bool × S
  pub unlock : Bytes → S → S
  -- the names that `readdir` gives, if the directory opens
  pub readdir : Bytes → S → Option (List Bytes)

-- The loop that pops slashes off the end.
abbrev pub drop_slashes : Bytes → Bytes
drop_slashes [] = []
drop_slashes (c ∷ s) =
    let rest = drop_slashes s in if is_empty rest && c == b'/' then [] else c ∷ rest

-- `while (p.size() > 1 && p.back() == '/') p.pop_back();`
unfoldable pub pop_slashes : Bytes → Bytes
pop_slashes [] = []
pop_slashes (c ∷ s) = c ∷ drop_slashes s

unfoldable pub parent_path : Bytes → Bytes
unfolding pop_slashes rfind_byte
parent_path path = elim (rfind_byte b'/' (pop_slashes path)) [
  | none ↦ []
  | some pos ↦ if pos == 0 then codes "/" else take pos (pop_slashes path)
]

-- `value && value[0] != '\0'`
abbrev pub is_set : Option Bytes → Bool
is_set none = false
is_set (some value) = not (is_empty value)

abbrev pub value_or : Bytes → Option Bytes → Bytes
value_or other none = other
value_or other (some value) = value

-- `path.substr(0, path.rfind('/'))`
unfoldable pub above : Bytes → Bytes
above path = elim (rfind_byte b'/' path) [ none ↦ path | some pos ↦ take pos path ]

module _ {S : Type 0} (os : Posix S) where
  unfoldable pub android_home_fallback : S → Bytes
  android_home_fallback s =
      let home = os.getenv (codes "TERMUX_HOME") s in
      if is_set home then value_or [] home else codes "/data/local/tmp"

  unfoldable pub home_dir : S → Result Bytes
  unfolding android_home_fallback
  home_dir s =
      let home = os.getenv (codes "HOME") s in
      if is_set home
      then ok (value_or [] home)
      else if os.executable (codes "/system/bin/sh") s
      then ok (android_home_fallback s)
      else err (
          error_of ErrorCode.io_error (codes "HOME not set and no Android home directory detected"))

  unfoldable pub expand_tilde : Bytes → S → Bytes
  unfolding home_dir
  expand_tilde [] s = []
  expand_tilde (c ∷ rest) s = if not (c == b'~') then c ∷ rest else elim (home_dir s) [
    | err e ↦ c ∷ rest
    | ok home ↦ elim rest [
      | [] ↦ home
      | d ∷ more ↦ if d == b'/' then home ++ d ∷ more else c ∷ d ∷ more
    ]
  ]

  -- `dir.value() + suffix`
  abbrev pub below : Result Bytes → Bytes → Result Bytes
  below (err e) suffix = err e
  below (ok dir) suffix = ok (dir ++ suffix)

  unfoldable pub config_dir : S → Result Bytes
  unfolding expand_tilde
  config_dir s =
      let dir = os.getenv (codes "EA_CONFIG_DIR") s in
      if is_set dir
      then ok (expand_tilde (value_or [] dir) s)
      else below (home_dir s) (codes "/.embedded-agent")

  unfoldable pub data_dir : S → Result Bytes
  unfolding config_dir
  data_dir s =
      let data_env = os.getenv (codes "EA_DATA_DIR") s in
      if is_set (os.getenv (codes "EA_CONFIG_DIR") s)
      then below (config_dir s) (codes "/data")
      else if is_set data_env
      then ok (expand_tilde (value_or [] data_env) s)
      else below (config_dir s) (codes "/data")

  unfoldable pub trace_dir : S → Result Bytes
  unfolding config_dir
  trace_dir s =
      let dir = os.getenv (codes "EA_TRACE_DIR") s in
      if is_set dir
      then ok (expand_tilde (value_or [] dir) s)
      else below (config_dir s) (codes "/trace")

  unfoldable pub resolve_data_path : Bytes → S → Result Bytes
  unfolding data_dir
  resolve_data_path filename s = below (data_dir s) (codes "/" ++ filename)

  unfoldable pub exists : Bytes → S → Result Bool
  exists path s = elim (os.stat path s) [
    | found directory ↦ ok true
    | missing message ↦ ok false
    | unreadable message ↦ err (error_of ErrorCode.io_error (codes "stat failed: " ++ message))
  ]

  -- `ex.ok() && ex.value()`
  abbrev pub is_there : Bytes → S → Bool
  is_there path s = elim (exists path s) [ ok there ↦ there | err e ↦ false ]

  unfoldable pub is_dir : Bytes → S → Result Bool
  is_dir path s = elim (os.stat path s) [
    | found directory ↦ ok directory
    | missing message ↦ err (error_of ErrorCode.io_error (codes "stat failed: " ++ message))
    | unreadable message ↦ err (error_of ErrorCode.io_error (codes "stat failed: " ++ message))
  ]

  -- The call of `mkdir` at the end of `mkdir_p`.
  unfoldable pub make : Bytes → S → Result (Unit {0}) × S
  make path s =
      let (done, t) = os.mkdir path s in
      elim done [
        | made ↦ (ok tt, t)
        | already_there ↦ (ok tt, t)
        | not_made message ↦ (
          err (
              error_of ErrorCode.io_error
                (codes "mkdir failed for " ++ path ++ codes ": " ++ message)),
          t,
        )
      ]

  -- `mkdir_p`, where the call for the parent, if it is made, gives `parents`.
  unfoldable pub mkdir_round : Bytes → S → Result (Unit {0}) × S → Result (Unit {0}) × S
  unfolding exists is_dir above make
  mkdir_round path s (parents, t) =
      if is_empty path
      then (err (error_of ErrorCode.invalid_argument (codes "empty path")), s)
      else if is_there path s
      then (
        elim (is_dir path s) [
          | ok directory ↦
              if directory
              then ok tt
              else err
                  (error_of ErrorCode.io_error (path ++ codes " exists but is not a directory"))
          | err e ↦
              err (error_of ErrorCode.io_error (path ++ codes " exists but is not a directory"))
        ],
        s,
      )
      else if (is_empty (above path) || bytes_eq (above path) path) || is_there (above path) s
      then make path s
      else elim parents [ ok u ↦ make path t | err e ↦ (err e, t) ]

  -- On fuel: every call is for a shorter path, so the path's length is enough.
  unfoldable pub mkdir_rounds : ℕ → Bytes → S → Result (Unit {0}) × S
  unfolding mkdir_round
  mkdir_rounds zero path s = (err (error_of ErrorCode.invalid_argument (codes "empty path")), s)
  mkdir_rounds (suc fuel) path s = mkdir_round path s (mkdir_rounds fuel (above path) s)

  unfoldable pub mkdir_p : Bytes → S → Result (Unit {0}) × S
  unfolding mkdir_rounds
  mkdir_p path s = mkdir_rounds (suc (length path)) path s

  unfoldable pub remove : Bytes → S → Result (Unit {0}) × S
  remove path s =
      let (failed, t) = os.unlink path s in
      elim failed [
        | none ↦ (ok tt, t)
        | some message ↦ (
          err (
              error_of ErrorCode.io_error
                (codes "remove failed for " ++ path ++ codes ": " ++ message)),
          t,
        )
      ]

  unfoldable pub read_file : Bytes → S → Result Bytes
  read_file path s = elim (os.read path s) [
    | none ↦ err (error_of ErrorCode.io_error (codes "cannot open: " ++ path))
    | some text ↦ ok text
  ]

  unfoldable pub write_file : Bytes → Bytes → S → Result (Unit {0}) × S
  write_file path content s =
      let (how, t) = os.write path content s in
      elim how [
        | not_opened ↦
            (err (error_of ErrorCode.io_error (codes "cannot open for write: " ++ path)), t)
        | incomplete ↦ (err (error_of ErrorCode.io_error (codes "write failed: " ++ path)), t)
        | written ↦ (ok tt, t)
      ]

  -- The loop of `list_dir`.
  abbrev pub without_dots : List Bytes → List Bytes
  without_dots [] = []
  without_dots (name ∷ names) =
      let rest = without_dots names in
      if bytes_eq name (codes ".") || bytes_eq name (codes "..") then rest else name ∷ rest

  unfoldable pub list_dir : Bytes → S → Result (List Bytes)
  list_dir path s = elim (os.readdir path s) [
    | none ↦ err (error_of ErrorCode.io_error (codes "opendir failed: " ++ path))
    | some names ↦ ok (without_dots names)
  ]
