-- ===== src/Agent/ContextDiscovery.antt =====
-- src/agent/ContextDiscovery.cpp, over `Posix`. The log lines are left out. `head_of` and `tail_of` are the
-- products of `max_chars` with 0.7 and 0.2, which are `double` in the source.
pub mod Bounds
mod Tests
use embedded_agent.Base.{
  ℕ, suc, ◌+◌, ◌-◌, Bytes, Bool, true, false, ◌&&◌, Option, none, some, List, [], ◌∷◌, ◌++◌, codes,
  length, take, drop, leb, ltb, is_empty, is_prefix, rfind_byte, to_string, if◌then◌else◌,
}
use embedded_agent.Core.Error.{Result, ok, err}
use embedded_agent.Core.StringUtil.{trim}
use embedded_agent.Io.FileSystem.{Posix, config_dir, read_file, is_there}
use embedded_agent.Io.FileSystem.Roots.{find_git_root, walk_up_find, first_there}

pub record ContextDiscoveryConfig : Type 0 where
  pub cwd : Bytes
  pub max_chars : ℕ

pub record ContextFileResult : Type 0 where
  pub filename : Bytes
  pub content : Bytes
  pub rel_path : Bytes

module _ (head_of tail_of : ℕ → ℕ) (config : ContextDiscoveryConfig) where
  unfoldable pub truncate : Bytes → Bytes → Bytes
  truncate content filename =
      let head_len = head_of config.max_chars in
      let tail_len = tail_of config.max_chars in
      let omitted = (length content - head_len) - tail_len in
      if leb (length content) config.max_chars
      then content
      else take head_len content
        ++ (codes "\n... ["
            ++ to_string omitted
            ++ codes " chars truncated from "
            ++ filename
            ++ codes "] ...\n")
        ++ drop (length content - tail_len) content

module _ {S : Type 0} (os : Posix S) (head_of tail_of : ℕ → ℕ)
    (config : ContextDiscoveryConfig) where
  -- The text of a file without the blanks around it, if there is one.
  unfoldable pub trimmed_text : Bytes → S → Option Bytes
  unfolding read_file trim
  trimmed_text path s = elim (read_file os path s) [
    | err e ↦ none
    | ok text ↦ if is_empty (trim text) then none else some (trim text)
  ]

  unfoldable pub read_context_file : Bytes → Bytes → S → Option ContextFileResult
  unfolding trimmed_text truncate
  read_context_file path display_name s = elim (trimmed_text path s) [
    | none ↦ none
    | some text ↦ some (record {
      filename = display_name;
      content = truncate head_of tail_of config text display_name;
      rel_path = path;
    })
  ]

  unfoldable pub load_soul : S → Option Bytes
  unfolding config_dir trimmed_text truncate
  load_soul s = elim (config_dir os s) [
    | err e ↦ none
    | ok dir ↦
        let found : Option Bytes = elim (trimmed_text (dir ++ codes "/SOUL.md") s) [
          | none ↦ none
          | some text ↦ some (truncate head_of tail_of config text (codes "SOUL.md"))
        ] in
        if is_there os (dir ++ codes "/SOUL.md") s then found else none
  ]

  -- `config_.cwd`, or the directory that `getcwd` gives
  unfoldable pub working_dir : S → Option Bytes
  working_dir s = if is_empty config.cwd then os.getcwd s else some config.cwd

  -- The name that is shown: relative to the working directory, or the file's name alone.
  unfoldable pub display_of : Bytes → Bytes → Bytes
  unfolding is_prefix rfind_byte
  display_of cwd path =
      if ltb (length cwd) (length path) && is_prefix cwd path
      then drop (suc (length cwd)) path
      else elim (rfind_byte b'/' path) [ none ↦ path | some pos ↦ drop (suc pos) path ]

  unfoldable pub load_ea_md : S → Option ContextFileResult
  unfolding working_dir find_git_root walk_up_find display_of read_context_file
  load_ea_md s = elim (working_dir s) [
    | none ↦ none
    | some cwd ↦
        let stop_at : Bytes = elim (find_git_root os cwd s) [ ok root ↦ root | err e ↦ [] ] in
        let path = walk_up_find os cwd (codes ".ea.md" ∷ codes "EA.md" ∷ []) stop_at s in
        if is_empty path then none else read_context_file path (display_of cwd path) s
  ]

  -- The loop over the names in the working directory.
  unfoldable pub first_name : Bytes → List Bytes → S → Option ContextFileResult
  unfolding read_context_file
  first_name cwd [] s = none
  first_name cwd (name ∷ names) s =
      if is_there os (cwd ++ codes "/" ++ name) s
      then read_context_file (cwd ++ codes "/" ++ name) name s
      else first_name cwd names s

  unfoldable pub load_named : List Bytes → S → Option ContextFileResult
  unfolding working_dir first_name
  load_named names s = elim (working_dir s) [ none ↦ none | some cwd ↦ first_name cwd names s ]

  -- `if (auto result = ...) return result;`
  abbrev pub or_else :
      Option ContextFileResult → Option ContextFileResult → Option ContextFileResult
  or_else none other = other
  or_else (some result) other = some result

  unfoldable pub discover_project_context : S → Option ContextFileResult
  unfolding load_ea_md load_named
  discover_project_context s = or_else (load_ea_md s) (
      or_else (load_named (codes "AGENTS.md" ∷ codes "agents.md" ∷ []) s) (
        or_else (load_named (codes "CLAUDE.md" ∷ codes "claude.md" ∷ []) s)
          (load_named (codes ".cursorrules" ∷ []) s)))
