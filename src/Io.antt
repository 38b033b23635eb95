-- ===== src/Io.antt =====
-- src/io: files and paths.
pub mod FileSystem
