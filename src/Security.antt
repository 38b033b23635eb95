-- ===== src/Security.antt =====
-- src/security: what the agent may do without asking, and how it asks.
pub mod Policy
pub mod Approval
