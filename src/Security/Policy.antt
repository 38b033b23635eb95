-- ===== src/Security/Policy.antt =====
-- src/security/SecurityPolicy.cpp
mod Occurs
pub mod Commands
pub mod Paths
mod Tests
use embedded_agent.Base.{
  ℕ, suc, Bytes, Bool, true, false, none, some, Option, List, [], ◌∷◌, ◌++◌, is_empty, codes,
  bytes_eq, find, rfind_byte, drop, ◌==◌, if◌then◌else◌, ◌||◌,
}
use embedded_agent.Core.Error.{Result, ok, err, error_of, ErrorCode}
use embedded_agent.Core.StringUtil.{split, starts_with, to_lower}

pub data AutonomyLevel : Type 0 where
  read_only supervised full : AutonomyLevel

pub record SecurityPolicy : Type 0 where
  pub level : AutonomyLevel
  pub workspace : Bytes
  pub allowed_commands : List Bytes

-- The constructor.
abbrev pub new : AutonomyLevel → SecurityPolicy
new level = record { level = level; workspace = []; allowed_commands = [] }

abbrev pub set_workspace : SecurityPolicy → Bytes → SecurityPolicy
set_workspace p path = record p { workspace = path }

abbrev pub set_allowed_commands : SecurityPolicy → List Bytes → SecurityPolicy
set_allowed_commands p cmds = record p { allowed_commands = cmds }

-- `DANGEROUS_COMMANDS`
unfoldable pub dangerous_commands : List Bytes
dangerous_commands =
    codes "rm -rf /"
    ∷ codes "mkfs"
    ∷ codes "dd if="
    ∷ codes ":(){:|:&};:"
    ∷ codes "fork bomb"
    ∷ codes "shutdown"
    ∷ codes "reboot"
    ∷ codes "init 0"
    ∷ codes "init 6"
    ∷ codes "mv / "
    ∷ codes "chmod -R 777 /"
    ∷ codes "chown -R"
    ∷ codes "> /dev/sda"
    ∷ codes "curl | sh"
    ∷ codes "wget | sh"
    ∷ codes "systemctl stop"
    ∷ codes "service stop"
    ∷ []

-- `READONLY_TOOLS`
unfoldable pub readonly_tools : List Bytes
readonly_tools = codes "search_files" ∷ codes "web" ∷ []

-- The loop over the dangerous commands: does one of them occur?
pub has_dangerous : List Bytes → Bytes → Bool
has_dangerous [] lower_cmd = false
has_dangerous (dangerous ∷ rest) lower_cmd =
    let later = has_dangerous rest lower_cmd in
    elim (find (to_lower dangerous) lower_cmd) [ some pos ↦ true | none ↦ later ]

-- The loop over a list of names with `==`.
pub is_listed : Bytes → List Bytes → Bool
is_listed name [] = false
is_listed name (x ∷ xs) = bytes_eq name x || is_listed name xs

-- `base_cmd.substr(slash_pos + 1)`, if there is a slash
pub binary_name : Bytes → Bytes
unfolding rfind_byte
binary_name cmd = elim (rfind_byte b'/' cmd) [ some pos ↦ drop (suc pos) cmd | none ↦ cmd ]

-- The whitelist of the supervised mode: the first word of the command, without its directory.
pub check_whitelist : List Bytes → List Bytes → Result (Unit {0})
unfolding is_listed binary_name
check_whitelist allowed [] = ok tt
check_whitelist allowed (first ∷ rest) =
    if is_listed (binary_name first) allowed
    then ok tt
    else err (
        error_of ErrorCode.security_blocked
          (codes "command not in whitelist: " ++ binary_name first))

blocked : Bytes → Bytes → Result (Unit {0})
blocked why what = err (error_of ErrorCode.security_blocked (why ++ what))

-- What `check_command` does below the level `Full`.
check_limited : SecurityPolicy → AutonomyLevel → Bytes → Result (Unit {0})
unfolding blocked check_whitelist has_dangerous
check_limited p level command =
    if has_dangerous dangerous_commands (to_lower command)
    then blocked (codes "dangerous command blocked: ") command
    else elim level [
      | AutonomyLevel.read_only ↦ blocked (codes "command blocked in read-only mode: ") command
      | _ ↦
          if is_empty p.allowed_commands
          then ok tt
          else check_whitelist p.allowed_commands (split command b' ')
    ]

unfoldable pub check_command : SecurityPolicy → Bytes → Result (Unit {0})
unfolding check_limited
check_command p command = elim p.level [
  | AutonomyLevel.full ↦ ok tt
  | level ↦ check_limited p level command
]

unfoldable pub check_file_path : SecurityPolicy → Bytes → Result (Unit {0})
unfolding blocked
check_file_path p path = elim p.level [
  | AutonomyLevel.full ↦ ok tt
  | AutonomyLevel.read_only ↦ blocked (codes "file access blocked in read-only mode: ") path
  | AutonomyLevel.supervised ↦
      if is_empty p.workspace
      then ok tt
      else if starts_with path p.workspace
      then ok tt
      else blocked (codes "path outside workspace: ") path
]

unfoldable pub check_tool : SecurityPolicy → Bytes → Result (Unit {0})
unfolding blocked is_listed
check_tool p tool_name = elim p.level [
  | AutonomyLevel.read_only ↦
      if is_listed tool_name readonly_tools
      then ok tt
      else blocked (codes "tool blocked in read-only mode: ") tool_name
  | _ ↦ ok tt
]
