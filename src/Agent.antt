-- ===== src/Agent.antt =====
-- src/agent: the steps of the agent's turns, and the guards around them.
pub mod LoopDetector
pub mod PermissionMode
pub mod PlanExitTool
pub mod ContextCompressor
pub mod TurnContext
pub mod Steps
pub mod SystemPrompt
pub mod Loop
pub mod ContextDiscovery
pub mod ProgressiveMemory
