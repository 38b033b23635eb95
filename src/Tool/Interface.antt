-- ===== src/Tool/Interface.antt =====
-- src/tool/ITool.h. `S` is the state of everything outside, which a tool may read and change; an
-- exception that leaves `execute` is `thrown`.
use embedded_agent.Base.{Bytes, Bool}
use embedded_agent.Core.Error.{Result, Outcome}
use embedded_agent.Core.Types.{ToolResult}

pub record Tool (J S : Type 0) : Type 0 where
  pub name : Bytes
  pub description : Bytes
  pub parameters_schema : J
  pub is_mutating : Bool
  pub is_dangerous : Bool
  pub execute : J → S → Outcome (Result ToolResult) × S
