-- ===== src/Agent/Steps.antt =====
-- src/agent/steps: what a turn does, step by step.
pub mod BuildToolSpecs
pub mod CallProvider
pub mod ParseResponse
pub mod ExecuteTools
pub mod LoopDetect
pub mod CollectResults
pub mod Loops
pub mod Offers
mod Tests
