-- ===== src/Agent/Steps/LoopDetect.antt =====
-- src/agent/steps/LoopDetectStep.cpp. The log lines are left out.
use embedded_agent.Base.{
  ℕ, Bytes, Option, none, some, true, ◌||◌, List, [], ◌∷◌, ◌++◌, codes, is_empty, ltb,
  if◌then◌else◌,
}
use embedded_agent.Core.Error.{Result, ok, Outcome, returned}
use embedded_agent.Core.Json.{JsonLib}
use embedded_agent.Core.Types.{Role, ToolCall, ToolResult, plain_message}
use embedded_agent.Agent.LoopDetector.{LoopDetector, LoopAction, check}
use embedded_agent.Agent.TurnContext.{TurnContext}

-- The place of an action in its `enum class`.
abbrev pub rank : LoopAction → ℕ
rank LoopAction.continue = 0
rank LoopAction.warn = 1
rank LoopAction.block = 2
rank LoopAction.break = 3

-- The loop over the calls and their results, with the worst action so far.
unfoldable pub worst_of :
    (L : JsonLib)
    → LoopDetector
    → List (ToolCall L.Json)
    → List ToolResult
    → LoopAction
    → LoopAction × LoopDetector
worst_of L d [] results worst = (worst, d)
worst_of L d (c ∷ calls) [] worst = (worst, d)
worst_of L d (c ∷ calls) (r ∷ results) worst =
    let (action, next) = check L d c r in
    worst_of L next calls results (if ltb (rank worst) (rank action) then action else worst)

unfoldable pub react : {J S : Type 0} → LoopAction → TurnContext J S → TurnContext J S
react LoopAction.continue ctx = ctx
react LoopAction.warn ctx = ctx
react LoopAction.block ctx = record ctx {
  pending_tool_calls = [];
  tool_results = [];
  messages =
      ctx.messages
      ++ plain_message Role.system
          (codes "[System: Repeated identical tool call detected. Breaking loop.]")
        ∷ [];
}
react LoopAction.break ctx = record ctx { should_stop = true }

-- `warn_`, which may be null.
unfoldable pub warned : {S : Type 0} → Option (Bytes → S → S) → LoopAction → S → S
warned none action s = s
warned (some warn) LoopAction.warn s =
    warn (codes "Loop detected: alternating tool calls detected") s
warned (some warn) _ s = s

unfoldable pub execute :
    (L : JsonLib) {S : Type 0}
    → Option (Bytes → S → S)
    → LoopDetector
    → TurnContext L.Json S
    → S
    → Outcome (Result (Unit {0})) × TurnContext L.Json S × S × LoopDetector
unfolding worst_of react warned
execute L warn d ctx s =
    if is_empty ctx.pending_tool_calls || is_empty ctx.tool_results
    then (returned (ok tt), ctx, s, d)
    else let (worst, next) =
        worst_of L d ctx.pending_tool_calls ctx.tool_results LoopAction.continue in
      (returned (ok tt), react worst ctx, warned warn worst s, next)
