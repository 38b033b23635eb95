-- ===== src/Agent/PermissionMode/Names.antt =====
-- The names that modes are saved under.
use embedded_agent.Base.{◌≡◌, ◌↔◌, refl, Bytes, arith, codes, bytes_eq, bytes_eq_iff}
use embedded_agent.Agent.PermissionMode.{
  PermissionMode, permission_mode_name, permission_mode_from_name,
}

from_name-name : (m : PermissionMode) → permission_mode_from_name (permission_mode_name m) ≡ m
unfolding permission_mode_name permission_mode_from_name bytes_eq
from_name-name PermissionMode.manual = refl
from_name-name PermissionMode.accept_edits = refl
from_name-name PermissionMode.plan = refl
from_name-name PermissionMode.bypass_permissions = refl

from_name-plan :
    (name : Bytes) → (permission_mode_from_name name ≡ PermissionMode.plan) ↔ (name ≡ codes "plan")
unfolding permission_mode_from_name
from_name-plan name = ground (
  arith,
  bytes_eq_iff name (codes "manual"),
  bytes_eq_iff name (codes "default"),
  bytes_eq_iff name (codes "plan"),
)

-- A mode that is saved under its name is read back as the same mode, and only the name "plan" is
-- read as the plan mode.
pub permission_mode_roundtrip :
    (m : PermissionMode) (name : Bytes)
    → (permission_mode_from_name (permission_mode_name m) ≡ m)
      × ((permission_mode_from_name name ≡ PermissionMode.plan) ↔ (name ≡ codes "plan"))
permission_mode_roundtrip m name = (from_name-name m, from_name-plan name)
