-- ===== src/Budget.antt =====
-- src/budget: what the model calls use and cost.
pub mod Tracker
