-- ===== src/Agent/Steps/Loops.antt =====
-- What the loop detection does to a turn.
use embedded_agent.Base.{
  ◌≡◌, refl, ◌⊎◌, inl, inr, Bytes, Option, codes, ◌++◌, Bool, true, false, ◌||◌, List, [], ◌∷◌, any,
  is_empty, arith, ltb, leb, max, if◌then◌else◌,
}
use embedded_agent.Core.Json.{JsonLib}
use embedded_agent.Core.Types.{Role, ToolCall, ToolResult, plain_message}
use embedded_agent.Agent.LoopDetector.{LoopDetector, LoopAction, check}
use embedded_agent.Agent.TurnContext.{TurnContext}
use embedded_agent.Agent.Steps.LoopDetect
use embedded_agent.Agent.Steps.LoopDetect.{rank, worst_of, react}

abbrev pub is_break : LoopAction → Bool
is_break LoopAction.break = true
is_break _ = false

abbrev pub is_block : LoopAction → Bool
is_block LoopAction.block = true
is_block _ = false

-- What the detector answers to the calls and their results, asked in turn.
abbrev pub actions :
    (L : JsonLib) → LoopDetector → List (ToolCall L.Json) → List ToolResult → List LoopAction
actions L d [] results = []
actions L d (c ∷ calls) [] = []
actions L d (c ∷ calls) (r ∷ results) =
    (check L d c r).0 ∷ actions L (check L d c r).1 calls results

abbrev worse : LoopAction → LoopAction → LoopAction
worse worst action = if ltb (rank worst) (rank action) then action else worst

is_break-rank : (a : LoopAction) → is_break a ≡ leb 3 (rank a)
is_break-rank LoopAction.continue = refl
is_break-rank LoopAction.warn = refl
is_break-rank LoopAction.block = refl
is_break-rank LoopAction.break = refl

abbrev is_severe : LoopAction → Bool
is_severe a = is_block a || is_break a

is_severe-rank : (a : LoopAction) → is_severe a ≡ leb 2 (rank a)
is_severe-rank LoopAction.continue = refl
is_severe-rank LoopAction.warn = refl
is_severe-rank LoopAction.block = refl
is_severe-rank LoopAction.break = refl

rank-worse : (w a : LoopAction) → rank (worse w a) ≡ max (rank w) (rank a)
rank-worse w a = ground arith

worse-is_break : (w a : LoopAction) → is_break (worse w a) ≡ (is_break w || is_break a)
worse-is_break w a =
    ground (arith, rank-worse w a, is_break-rank w, is_break-rank a, is_break-rank (worse w a))

worse-is_severe : (w a : LoopAction) → is_severe (worse w a) ≡ (is_severe w || is_severe a)
worse-is_severe w a =
    ground (arith, rank-worse w a, is_severe-rank w, is_severe-rank a, is_severe-rank (worse w a))

-- A test that the worse of two actions passes where one of them does, passes for the worst of all
-- where one of them passes.
worst_of-any :
    (L : JsonLib) (p : LoopAction → Bool) (d : LoopDetector) (calls : List (ToolCall L.Json))
    (results : List ToolResult) (w : LoopAction)
    → ((v a : LoopAction) → p (worse v a) ≡ (p v || p a))
    → p (worst_of L d calls results w).0 ≡ (p w || any p (actions L d calls results))
unfolding worst_of
worst_of-any L p d [] results w h = ground arith
worst_of-any L p d (c ∷ calls) [] w h = ground arith
worst_of-any L p d (c ∷ calls) (r ∷ results) w h =
    let (action, next) = check L d c r in
    ground (arith, worst_of-any L p next calls results (worse w action) h, h w action)

any-severe : (l : List LoopAction) → any is_severe l ≡ (any is_block l || any is_break l)
any-severe [] = refl
any-severe (a ∷ l) = ground (arith, any-severe l)

-- What a context is once its calls are blocked.
abbrev pub blocked : {J S : Type 0} → TurnContext J S → TurnContext J S
blocked ctx = record ctx {
  pending_tool_calls = [];
  tool_results = [];
  messages =
      ctx.messages
      ++ plain_message Role.system
          (codes "[System: Repeated identical tool call detected. Breaking loop.]")
        ∷ [];
}

react_cases :
    {J S : Type 0} (w : LoopAction) (ctx : TurnContext J S)
    → ((is_break w ≡ true) × (react w ctx ≡ record ctx { should_stop = true }))
      ⊎ (((is_break w ≡ false) × (is_block w ≡ true) × (react w ctx ≡ blocked ctx))
          ⊎ ((is_break w ≡ false) × (is_block w ≡ false) × (react w ctx ≡ ctx)))
unfolding react
react_cases LoopAction.continue ctx = inr (inr (refl, refl, refl))
react_cases LoopAction.warn ctx = inr (inr (refl, refl, refl))
react_cases LoopAction.block ctx = inr (inl (refl, refl, refl))
react_cases LoopAction.break ctx = inl (refl, refl)

-- With calls and results at hand the step stops the turn if the detector answers any of them with
-- Break; else, if it answers one with Block, the calls and their results are dropped and a note is
-- added to the messages; else the context stays as it is. The answers are those of the detector asked
-- about each call and its result in turn.
pub detect_reacts :
    (L : JsonLib) {S : Type 0} (warn : Option (Bytes → S → S)) (d : LoopDetector)
    (ctx : TurnContext L.Json S) (s : S)
    → is_empty ctx.pending_tool_calls ≡ false
    → is_empty ctx.tool_results ≡ false
    → ((any is_break (actions L d ctx.pending_tool_calls ctx.tool_results) ≡ true)
        × ((LoopDetect.execute L warn d ctx s).1 ≡ record ctx { should_stop = true }))
      ⊎ (((any is_break (actions L d ctx.pending_tool_calls ctx.tool_results) ≡ false)
            × (any is_block (actions L d ctx.pending_tool_calls ctx.tool_results) ≡ true)
            × ((LoopDetect.execute L warn d ctx s).1 ≡ blocked ctx))
          ⊎ ((any is_break (actions L d ctx.pending_tool_calls ctx.tool_results) ≡ false)
              × (any is_block (actions L d ctx.pending_tool_calls ctx.tool_results) ≡ false)
              × ((LoopDetect.execute L warn d ctx s).1 ≡ ctx)))
unfolding LoopDetect.execute
detect_reacts L warn d ctx s some_calls some_results =
    let calls = ctx.pending_tool_calls in
    let results = ctx.tool_results in
    let w = (worst_of L d calls results LoopAction.continue).0 in
    let breaks = worst_of-any L is_break d calls results LoopAction.continue worse-is_break in
    let severe = worst_of-any L is_severe d calls results LoopAction.continue worse-is_severe in
    let split = any-severe (actions L d calls results) in
    elim (react_cases w ctx) [
      | inl (b, e) ↦ inl (ground arith, ground arith)
      | inr o ↦ elim o [
        | inl (b, k, e) ↦ inr (inl (ground arith, ground arith, ground arith))
        | inr (b, k, e) ↦ inr (inr (ground arith, ground arith, ground arith))
      ]
    ]
