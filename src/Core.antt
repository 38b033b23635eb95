-- ===== src/Core.antt =====
-- src/base: the values that every other part of the agent passes around.
pub mod Error
pub mod Json
pub mod Types
pub mod StringUtil
