-- ===== src/Security/Policy/Tests.antt =====
-- Runs of the policy, and its theorems at concrete commands and paths.
use embedded_agent.Base.{
  ◌≡◌, refl, ◌↔◌, ◌⊎◌, Bytes, [], ◌∷◌, ◌++◌, codes, find, find_byte, bytes_eq, is_prefix,
}
use embedded_agent.Core.Error.{ok, err, error_of, ErrorCode}
use embedded_agent.Core.StringUtil.{split, to_lower, starts_with}
use embedded_agent.Security.Policy.{
  AutonomyLevel, SecurityPolicy, new, set_workspace, set_allowed_commands, check_command,
  check_file_path, dangerous_commands,
}
use embedded_agent.Security.Policy.Commands.{IsOk}
use embedded_agent.Security.Policy.Paths.{check_file_path_iff}

abbrev listing : SecurityPolicy
listing = set_allowed_commands (new AutonomyLevel.supervised) (codes "ls" ∷ codes "git" ∷ [])

abbrev walled : SecurityPolicy
walled = set_workspace (new AutonomyLevel.supervised) (codes "/ws")

whitelisted_run : check_command listing (codes "/bin/ls -l") ≡ ok tt
unfolding check_command find find_byte split to_lower bytes_eq dangerous_commands
whitelisted_run = refl

dangerous_run :
    check_command listing (codes "git; ReBoot")
    ≡ err (error_of ErrorCode.security_blocked (codes "dangerous command blocked: git; ReBoot"))
unfolding check_command find find_byte split to_lower bytes_eq dangerous_commands
dangerous_run = refl

-- The workspace test compares texts: a sibling directory and a climbing path pass it.
sibling_run : check_file_path walled (codes "/ws-other/key") ≡ ok tt
unfolding check_file_path starts_with is_prefix
sibling_run = refl

climbing_run : check_file_path walled (codes "/ws/../etc/passwd") ≡ ok tt
unfolding check_file_path starts_with is_prefix
climbing_run = refl

check_file_path_iff_example : IsOk (check_file_path walled (codes "/ws-other/key")) ↔ (
    (walled.level ≡ AutonomyLevel.full)
    ⊎ ((walled.level ≡ AutonomyLevel.supervised)
        × ((walled.workspace ≡ [])
            ⊎ ((t : Bytes) × (codes "/ws-other/key" ≡ walled.workspace ++ t)))))
check_file_path_iff_example = check_file_path_iff walled (codes "/ws-other/key")
