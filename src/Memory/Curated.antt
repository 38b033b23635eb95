-- ===== src/Memory/Curated.antt =====
-- src/memory/CuratedMemoryStore.cpp. The files are those of `Posix`; the sizes and limits, `int` in the
-- source, are natural numbers.
pub mod Text
pub mod Files
mod Tests
use embedded_agent.Base.{
  ℕ, ◌+◌, Bytes, Bool, true, false, not, ◌&&◌, ◌||◌, Option, none, some, List, [], ◌∷◌, ◌++◌, codes,
  length, any, ltb, is_empty, bytes_eq, find, to_string, if◌then◌else◌,
}
use embedded_agent.Core.Error.{Result, ok, err, error_of, ErrorCode}
use embedded_agent.Io.FileSystem.{Posix, Written, config_dir, mkdir_p, is_there}
use embedded_agent.Memory.Curated.Text.{trim, split_entries, file_text}

pub data MemoryTarget : Type 0 where
  memory user : MemoryTarget

pub record CuratedMemoryConfig : Type 0 where
  pub dir : Bytes
  pub memory_char_limit : ℕ
  pub user_char_limit : ℕ

-- `CuratedMemoryConfig{}`
abbrev pub default_config : CuratedMemoryConfig
default_config = record { dir = []; memory_char_limit = 2200; user_char_limit = 1375 }

pub record CuratedMemoryStore : Type 0 where
  pub config : CuratedMemoryConfig
  pub dir : Bytes
  pub memory_entries : List Bytes
  pub user_entries : List Bytes
  pub opened : Bool

abbrev pub new : CuratedMemoryConfig → CuratedMemoryStore
new config = record {
  config = config;
  dir = [];
  memory_entries = [];
  user_entries = [];
  opened = false;
}

unfoldable pub path_for : CuratedMemoryStore → MemoryTarget → Bytes
path_for c MemoryTarget.user = c.dir ++ codes "/" ++ codes "USER.md"
path_for c MemoryTarget.memory = c.dir ++ codes "/" ++ codes "MEMORY.md"

abbrev pub entries_for : CuratedMemoryStore → MemoryTarget → List Bytes
entries_for c MemoryTarget.user = c.user_entries
entries_for c MemoryTarget.memory = c.memory_entries

-- `entries_for(target) = list`
abbrev pub set_entries : CuratedMemoryStore → MemoryTarget → List Bytes → CuratedMemoryStore
set_entries c MemoryTarget.user list = record c { user_entries = list }
set_entries c MemoryTarget.memory list = record c { memory_entries = list }

abbrev pub char_limit_for : CuratedMemoryStore → MemoryTarget → ℕ
char_limit_for c MemoryTarget.user = c.config.user_char_limit
char_limit_for c MemoryTarget.memory = c.config.memory_char_limit

unfoldable pub entries : CuratedMemoryStore → MemoryTarget → Result (List Bytes)
entries c target =
    if c.opened
    then ok (entries_for c target)
    else err (error_of ErrorCode.db_error (codes "CuratedMemoryStore is not open"))

abbrev pub is_blank_for : CuratedMemoryStore → MemoryTarget → Bool
is_blank_for c target = is_empty (entries_for c target)

-- The loop of `format_for_system_prompt`.
abbrev pub format_onto : Bytes → List Bytes → Bytes
format_onto out [] = out
format_onto out (e ∷ list) =
    format_onto ((if is_empty out then out else out ++ codes "\n") ++ codes "- " ++ e) list

unfoldable pub format_for_system_prompt : CuratedMemoryStore → MemoryTarget → Bytes
format_for_system_prompt c target = format_onto [] (entries_for c target)

-- The sizes of the entries, summed.
abbrev pub total_size : List Bytes → ℕ
total_size [] = 0
total_size (e ∷ list) = length e + total_size list

unfoldable pub has_entry : Bytes → List Bytes → Bool
has_entry entry list = any (λ e. bytes_eq e entry) list

-- The list without the first entry that holds the text, if one does.
unfoldable pub erase_first : Bytes → List Bytes → Option (List Bytes)
erase_first substring [] = none
erase_first substring (e ∷ list) = elim (find substring e) [
  | some pos ↦ some list
  | none ↦ elim (erase_first substring list) [ none ↦ none | some rest ↦ some (e ∷ rest) ]
]

module _ {S : Type 0} (os : Posix S) where
  unfoldable pub read_entries : Bytes → S → Result (List Bytes)
  unfolding split_entries
  read_entries path s = elim (os.read path s) [ none ↦ ok [] | some text ↦ ok (split_entries text) ]

  unfoldable pub write_entries : Bytes → List Bytes → S → Result (Unit {0}) × S
  unfolding file_text
  write_entries path list s =
      let tmp = path ++ codes ".tmp" in
      let (how, t) = os.write tmp (file_text list) s in
      let (renamed, u) = os.rename tmp path t in
      elim how [
        | Written.not_opened ↦ (err (error_of ErrorCode.io_error (codes "cannot write " ++ tmp)), t)
        | _ ↦ if renamed then (ok tt, u) else (
          err (error_of ErrorCode.io_error (codes "cannot rename " ++ tmp ++ codes " -> " ++ path)),
          u,
        )
      ]

  -- `reload` of an open store.
  unfoldable pub load : CuratedMemoryStore → S → Result (Unit {0}) × CuratedMemoryStore
  unfolding read_entries path_for
  load c s = elim (read_entries (path_for c MemoryTarget.memory) s) [
    | err e ↦ (err e, c)
    | ok mem ↦ elim (read_entries (path_for c MemoryTarget.user) s) [
      | err e ↦ (err e, c)
      | ok users ↦ (ok tt, record c { memory_entries = mem; user_entries = users })
    ]
  ]

  -- `std::ofstream(path).close()`, if there is no such file
  abbrev pub touch_unless : Bool → Bytes → S → S
  touch_unless there path s = if there then s else (os.write path [] s).1

  unfoldable pub memory_dir : CuratedMemoryStore → S → Bytes
  unfolding config_dir
  memory_dir c s = if not (is_empty c.config.dir) then c.config.dir else elim (config_dir os s) [
    | ok dir ↦ dir ++ codes "/memories"
    | err e ↦ codes ".embedded-agent/memories"
  ]

  unfoldable pub open_store : CuratedMemoryStore → S → Result (Unit {0}) × CuratedMemoryStore × S
  unfolding load memory_dir path_for mkdir_p
  open_store c s =
      if c.opened
      then (ok tt, c, s)
      else let placed = record c { dir = memory_dir c s } in
        let (mk, t) = mkdir_p os placed.dir s in
        elim mk [
          | err e ↦ (err e, placed, t)
          | ok u ↦
              let mem_path = path_for placed MemoryTarget.memory in
              let user_path = path_for placed MemoryTarget.user in
              let user_ex = is_there os user_path t in
              let touched =
                touch_unless user_ex user_path (touch_unless (is_there os mem_path t) mem_path t) in
              let (r, d) = load (record placed { opened = true }) touched in (r, d, touched)
        ]

  unfoldable pub reload : CuratedMemoryStore → S → Result (Unit {0}) × CuratedMemoryStore × S
  unfolding open_store load
  reload c s =
      let (o, d, t) = open_store c s in
      elim o [ err e ↦ (err e, d, t) | ok u ↦ let (r, loaded) = load d t in (r, loaded, t) ]

  -- `add` under the lock.
  unfoldable pub add_locked :
      CuratedMemoryStore → MemoryTarget → Bytes → S → Result (Unit {0}) × CuratedMemoryStore × S
  unfolding read_entries write_entries has_entry path_for
  add_locked c target entry s =
      let path = path_for c target in
      elim (read_entries path s) [
        | err e ↦ (err e, c, s)
        | ok current ↦
            let longer = current ++ entry ∷ [] in
            let (r, t) = write_entries path longer s in
            if has_entry entry current
            then (ok tt, set_entries c target current, s)
            else (r, set_entries c target longer, t)
      ]

  -- `remove` under the lock.
  unfoldable pub remove_locked :
      CuratedMemoryStore → MemoryTarget → Bytes → S → Result Bool × CuratedMemoryStore × S
  unfolding read_entries write_entries erase_first path_for
  remove_locked c target substring s =
      let path = path_for c target in
      elim (read_entries path s) [
        | err e ↦ (err e, c, s)
        | ok current ↦ elim (erase_first substring current) [
          | none ↦ (ok false, set_entries c target current, s)
          | some rest ↦
              let (w, t) = write_entries path rest s in
              (elim w [ ok u ↦ ok true | err e ↦ err e ], set_entries c target rest, t)
        ]
      ]

  -- `FileLock lock(path + ".lock")` around the rest of a function.
  unfoldable pub locked :
      {R : Type 0}
      → CuratedMemoryStore
      → MemoryTarget
      → (S → Result R × CuratedMemoryStore × S)
      → S
      → Result R × CuratedMemoryStore × S
  unfolding path_for
  locked c target body s =
      let path = path_for c target in
      let (valid, t) = os.lock (path ++ codes ".lock") s in
      let (r, d, u) = body t in
      if valid
      then (r, d, os.unlock (path ++ codes ".lock") u)
      else (err (error_of ErrorCode.io_error (codes "cannot lock " ++ path)), c, t)

  -- `add` of an open store.
  unfoldable pub add_entry :
      CuratedMemoryStore → MemoryTarget → Bytes → S → Result (Unit {0}) × CuratedMemoryStore × S
  unfolding trim has_entry locked add_locked
  add_entry c target content s =
      let entry = trim content in
      let list = entries_for c target in
      let total = (length entry + total_size list) + (if is_empty list then 0 else 2) in
      if is_empty entry
      then (err (error_of ErrorCode.invalid_argument (codes "memory entry is empty")), c, s)
      else if has_entry entry list
      then (ok tt, c, s)
      else if ltb (char_limit_for c target) total
      then (
        err (
            error_of ErrorCode.invalid_argument (
              codes "memory char limit exceeded ("
              ++ to_string (char_limit_for c target)
              ++ codes ")")),
        c,
        s,
      )
      else locked c target (add_locked c target entry) s

  unfoldable pub add :
      CuratedMemoryStore → MemoryTarget → Bytes → S → Result (Unit {0}) × CuratedMemoryStore × S
  unfolding open_store add_entry
  add c target content s =
      let (o, d, t) = open_store c s in
      elim o [ err e ↦ (err e, d, t) | ok u ↦ add_entry d target content t ]

  unfoldable pub remove :
      CuratedMemoryStore → MemoryTarget → Bytes → S → Result Bool × CuratedMemoryStore × S
  unfolding open_store locked remove_locked
  remove c target substring s =
      let (o, d, t) = open_store c s in
      elim o [
        | err e ↦ (err e, d, t)
        | ok u ↦
            if is_empty substring
            then (err (error_of ErrorCode.invalid_argument (codes "substring is empty")), d, t)
            else locked d target (remove_locked d target substring) t
      ]
