-- ===== src/Security/Policy/Paths.antt =====
-- Which paths the policy lets through.
use embedded_agent.Base.{◌≡◌, ◌↔◌, ◌⊎◌, Bytes, true, [], ◌++◌, arith, drop, length}
use embedded_agent.Core.StringUtil.{starts_with}
use embedded_agent.Security.Policy.{AutonomyLevel, SecurityPolicy, check_file_path}
use embedded_agent.Security.Policy.Occurs.{is_prefix-eq, is_prefix-append_self}
use embedded_agent.Security.Policy.Commands.{IsOk}

starts_with_iff : (s p : Bytes) → (starts_with s p ≡ true) ↔ ((t : Bytes) × (s ≡ p ++ t))
unfolding starts_with
starts_with_iff s p =
    (λ h. (drop (length p) s, is_prefix-eq p s h), λ (t, e). rw e (is_prefix-append_self p t))

-- `check_file_path` lets a path through exactly on the level `Full`, or on the level `Supervised`
-- where no workspace is set or the path begins with the workspace's text.
pub check_file_path_iff :
    (p : SecurityPolicy) (path : Bytes)
    → IsOk (check_file_path p path) ↔ (
        (p.level ≡ AutonomyLevel.full)
        ⊎ ((p.level ≡ AutonomyLevel.supervised)
            × ((p.workspace ≡ []) ⊎ ((t : Bytes) × (path ≡ p.workspace ++ t)))))
unfolding check_file_path
check_file_path_iff p path = ground (arith, starts_with_iff path p.workspace)
