-- ===== src/Agent/Steps/ExecuteTools/Counts.antt =====
-- How many results the loop over the calls leaves.
use embedded_agent.Base.{
  is_empty, sym, subst, ◌≡◌, refl, ◌+◌, ◌⊎◌, inl, inr, Bytes, Option, true, false, some, List, [],
  ◌∷◌, ◌++◌, length, length-append, arith,
}
use embedded_agent.Core.Error.{Result, ok, Outcome, returned, thrown}
use embedded_agent.Core.Json.{JsonLib}
use embedded_agent.Core.Types.{ToolCall, ToolResult}
use embedded_agent.Security.Policy.{SecurityPolicy}
use embedded_agent.Tool.Registry.{ToolRegistry}
use embedded_agent.Agent.TurnContext.{TurnContext}
use embedded_agent.Agent.Steps.ExecuteTools.{
  CallEnd, Approval, answered, stopped, threw, execute_call, execute_calls, execute,
}

pub CallEnd-cases :
    (end : CallEnd) → ((r : ToolResult) × (end ≡ answered r)) ⊎ ((end ≡ stopped) ⊎ (end ≡ threw))
CallEnd-cases (answered r) = inl (r, refl)
CallEnd-cases stopped = inr (inl refl)
CallEnd-cases threw = inr (inr refl)

-- The loop threw, or the user stopped it, or each of `n` calls more has its result; the calls and the
-- messages are as they were.
abbrev pub Answered :
    {J S : Type 0}
    → List (ToolCall J)
    → TurnContext J S
    → Outcome (Result (Unit {0})) × TurnContext J S × S
    → Type 0
Answered calls ctx (outcome, after, t) =
    (after.pending_tool_calls ≡ ctx.pending_tool_calls)
    × (after.messages ≡ ctx.messages)
    × (after.append_message_fn ≡ ctx.append_message_fn)
    × ((outcome ≡ thrown)
        ⊎ ((outcome ≡ returned (ok tt))
            × ((after.should_stop ≡ true)
                ⊎ (length after.tool_results ≡ length ctx.tool_results + length calls))))

module _ (L : JsonLib) {S : Type 0} (normalize : S → Bytes → Bytes) (policy : Option SecurityPolicy)
    (approval : Approval L.Json S) (r : ToolRegistry L.Json S) where
  abbrev loop :
      List (ToolCall L.Json)
      → TurnContext L.Json S
      → S
      → Outcome (Result (Unit {0})) × TurnContext L.Json S × S
  loop = execute_calls L normalize policy approval r

  abbrev call_of : ToolCall L.Json → TurnContext L.Json S → S → CallEnd × S
  call_of tc ctx s = execute_call L normalize policy approval ctx r tc s

  pub execute_calls-answered :
      (tc : ToolCall L.Json) (calls : List (ToolCall L.Json)) (ctx : TurnContext L.Json S) (s : S)
      (result : ToolResult)
      → (call_of tc ctx s).0 ≡ answered result
      → loop (tc ∷ calls) ctx s
        ≡ loop calls
            (record ctx { tool_results = ctx.tool_results ++ result ∷ [] })
            (call_of tc ctx s).1
  unfolding execute_calls
  execute_calls-answered tc calls ctx s result e = rw (e, execute_calls) refl

  pub execute_calls-stopped :
      (tc : ToolCall L.Json) (calls : List (ToolCall L.Json)) (ctx : TurnContext L.Json S) (s : S)
      → (call_of tc ctx s).0 ≡ stopped
      → loop (tc ∷ calls) ctx s
        ≡ (returned (ok tt), record ctx { should_stop = true }, (call_of tc ctx s).1)
  unfolding execute_calls
  execute_calls-stopped tc calls ctx s e = rw (e, execute_calls) refl

  pub execute_calls-threw :
      (tc : ToolCall L.Json) (calls : List (ToolCall L.Json)) (ctx : TurnContext L.Json S) (s : S)
      → (call_of tc ctx s).0 ≡ threw
      → loop (tc ∷ calls) ctx s ≡ (thrown, ctx, (call_of tc ctx s).1)
  unfolding execute_calls
  execute_calls-threw tc calls ctx s e = rw (e, execute_calls) refl

  one_more :
      (tc : ToolCall L.Json) (calls : List (ToolCall L.Json)) (ctx : TurnContext L.Json S)
      (result : ToolResult) (end : Outcome (Result (Unit {0})) × TurnContext L.Json S × S)
      → Answered calls (record ctx { tool_results = ctx.tool_results ++ result ∷ [] }) end
      → Answered (tc ∷ calls) ctx end
  one_more tc calls ctx result (outcome, after, t) h =
      ground (arith, length-append ctx.tool_results (result ∷ []))

  execute_calls-Answered :
      (calls : List (ToolCall L.Json)) (ctx : TurnContext L.Json S) (s : S)
      → Answered calls ctx (loop calls ctx s)
  unfolding execute_calls
  execute_calls-Answered [] ctx s = ground arith
  execute_calls-Answered (tc ∷ calls) ctx s = elim (CallEnd-cases (call_of tc ctx s).0) [
    | inl (result, e) ↦
        let next = record ctx { tool_results = ctx.tool_results ++ result ∷ [] } in
        subst (Answered (tc ∷ calls) ctx) (sym (execute_calls-answered tc calls ctx s result e)) (
          one_more tc calls ctx result (loop calls next (call_of tc ctx s).1)
            (execute_calls-Answered calls next (call_of tc ctx s).1))
    | inr h ↦ elim h [
      | inl e ↦
          subst (Answered (tc ∷ calls) ctx) (sym (execute_calls-stopped tc calls ctx s e))
            (refl, refl, refl, inr (refl, inl refl))
      | inr e ↦
          subst (Answered (tc ∷ calls) ctx) (sym (execute_calls-threw tc calls ctx s e))
            (refl, refl, refl, inl refl)
    ]
  ]

  -- In a turn that has calls and a registry, the step throws, or the user stops it, or it leaves one
  -- result for each call; it takes no call away and adds no message.
  pub execute-Answered :
      (ctx : TurnContext L.Json S) (s : S)
      → is_empty ctx.pending_tool_calls ≡ false
      → ctx.registry ≡ some r
      → Answered ctx.pending_tool_calls
          (record ctx { tool_results = [] })
          (execute L normalize policy approval ctx s)
  unfolding execute
  execute-Answered ctx s some_calls e =
      rw (some_calls, e)
        (execute_calls-Answered ctx.pending_tool_calls (record ctx { tool_results = [] }) s)
