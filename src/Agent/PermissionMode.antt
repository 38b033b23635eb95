-- ===== src/Agent/PermissionMode.antt =====
-- src/agent/PermissionMode.h: the permission modes and their names.
pub mod Names
use embedded_agent.Base.{Bytes, Bool, codes, bytes_eq, ◌||◌, if◌then◌else◌}

pub data PermissionMode : Type 0 where
  manual accept_edits plan bypass_permissions : PermissionMode

unfoldable pub permission_mode_name : PermissionMode → Bytes
permission_mode_name manual = codes "manual"
permission_mode_name accept_edits = codes "acceptEdits"
permission_mode_name plan = codes "plan"
permission_mode_name bypass_permissions = codes "auto"

unfoldable pub permission_mode_from_name : Bytes → PermissionMode
permission_mode_from_name name =
    if bytes_eq name (codes "manual")
    then manual
    else if bytes_eq name (codes "default")
    then manual
    else if bytes_eq name (codes "plan")
    then plan
    else if bytes_eq name (codes "acceptEdits")
    then accept_edits
    else if bytes_eq name (codes "auto")
    then bypass_permissions
    else if bytes_eq name (codes "bypassPermissions") || bytes_eq name (codes "bypass")
    then bypass_permissions
    else manual

-- `mode == PermissionMode::Plan`
abbrev pub is_plan : PermissionMode → Bool
is_plan plan = Bool.true
is_plan _ = Bool.false
