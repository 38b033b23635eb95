-- ===== src/Memory.antt =====
-- src/memory: what the agent remembers.
pub mod Curated
pub mod Scoped
pub mod FtsSanitizer
