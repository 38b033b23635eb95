-- ===== src/Security/Policy/Commands.antt =====
-- Which commands and tools the policy lets through, on every level.
use embedded_agent.Base.{◌≡◌, ◌↔◌, ◌⊎◌, Bytes, true, List, [], ◌∷◌, arith, All, bytes_eq_iff}
use embedded_agent.Core.Error.{Result, ok, err}
use embedded_agent.Core.StringUtil.{to_lower}
use embedded_agent.Core.StringUtil.Split.{first_part}
use embedded_agent.Security.Policy.{
  AutonomyLevel, SecurityPolicy, dangerous_commands, readonly_tools, is_listed, binary_name,
  check_tool,
}
use embedded_agent.Security.Policy.Occurs.{Occurs}

-- No listed text occurs in the command, whatever the case of its letters.
abbrev pub IsHarmless : Bytes → Type 0
IsHarmless command = All (λ d. ¬ Occurs (to_lower d) (to_lower command)) dangerous_commands

-- The name is one of the list.
abbrev pub IsOneOf : Bytes → List Bytes → Type 0
IsOneOf name [] = ⊥
IsOneOf name (x ∷ xs) = (name ≡ x) ⊎ IsOneOf name xs

abbrev pub IsOk : Result (Unit {0}) → Type 0
IsOk (ok a) = Unit
IsOk (err e) = ⊥

is_listed_iff : (name : Bytes) (xs : List Bytes) → (is_listed name xs ≡ true) ↔ IsOneOf name xs
unfolding is_listed
is_listed_iff name [] = (λ h. cc, λ h. absurd h)
is_listed_iff name (x ∷ xs) = ground (arith, bytes_eq_iff name x, is_listed_iff name xs)

-- What the supervised level asks of a command, beside being harmless.
abbrev pub IsWhitelisted : SecurityPolicy → Bytes → Type 0
IsWhitelisted p command =
    (p.allowed_commands ≡ []) ⊎ IsOneOf (binary_name (first_part b' ' command)) p.allowed_commands

-- `check_tool` stops a tool exactly on the level `ReadOnly`, where it is not one of the read-only
-- tools.
pub check_tool_iff :
    (p : SecurityPolicy) (name : Bytes)
    → (¬ IsOk (check_tool p name))
      ↔ ((p.level ≡ AutonomyLevel.read_only) × (¬ IsOneOf name readonly_tools))
unfolding check_tool
check_tool_iff p name = ground (arith, is_listed_iff name readonly_tools)
