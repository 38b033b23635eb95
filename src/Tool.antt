-- ===== src/Tool.antt =====
-- src/tool: tools, the sets that they come in, and the registry that the agent calls them through.
pub mod Interface
pub mod Output
pub mod Toolset
pub mod Registry
