-- ===== src/Agent/Loop/Answers/ChainEnds.antt =====
-- src/agent/ITurnStep.h: how a chain of steps ends, step by step.
use embedded_agent.Base.{
  ◌≡◌, refl, sym, ap, subst, ◌∙◌, ◌⊎◌, inl, inr, Bool-cases, true, false, List, [], ◌∷◌, codes,
  arith,
}
use embedded_agent.Core.Error.{
  Error, ErrorCode, error_of, Result, ok, err, Result-cases, Outcome, Outcome-cases, returned,
  thrown,
}
use embedded_agent.Agent.TurnContext.{TurnContext, Step, run_step_chain}

module _ {J S : Type 0} where
  -- How a chain ends: it throws, or returns an error, or the turn is to stop, or `Q` holds of what it
  -- leaves.
  abbrev pub Ends :
      (TurnContext J S → Type 0) → Outcome (Result (Unit {0})) × TurnContext J S × S → Type 0
  Ends Q x =
      (x.0 ≡ thrown)
      ⊎ (((e : Error) × (x.0 ≡ returned (err e))) ⊎ ((x.1.should_stop ≡ true) ⊎ Q x.1))

  chain_interrupted :
      (step : Step J S) (steps : List (Step J S)) (ctx : TurnContext J S) (s : S)
      → ctx.interrupted s ≡ true
      → (e : Error) × ((run_step_chain (step ∷ steps) ctx s).0 ≡ returned (err e))
  unfolding run_step_chain
  chain_interrupted step steps ctx s i =
      (error_of ErrorCode.timeout (codes "agent loop interrupted"), rw (i, run_step_chain) refl)

  stopped_chain :
      (steps : List (Step J S)) (ctx : TurnContext J S) (s : S)
      → ctx.interrupted s ≡ false
      → ctx.should_stop ≡ true
      → run_step_chain steps ctx s ≡ (returned (ok tt), ctx, s)
  unfolding run_step_chain
  stopped_chain [] ctx s i h = refl
  stopped_chain (step ∷ steps) ctx s i h = ground arith

  -- A step that throws ends the chain, and so does one that returns an error.
  failed_chain :
      (step : Step J S) (steps : List (Step J S)) (ctx : TurnContext J S) (s : S)
      → ctx.interrupted s ≡ false
      → ctx.should_stop ≡ false
      → ((step ctx s).0 ≡ thrown → (run_step_chain (step ∷ steps) ctx s).0 ≡ thrown)
        × ((e : Error)
            → (step ctx s).0 ≡ returned (err e)
            → (run_step_chain (step ∷ steps) ctx s).0 ≡ returned (err e))
        × ((step ctx s).0 ≡ returned (ok tt)
            → run_step_chain (step ∷ steps) ctx s
              ≡ run_step_chain steps (step ctx s).1 (step ctx s).2)
  unfolding run_step_chain
  failed_chain step steps ctx s i h =
      ((λ q. ground arith), (λ e q. ground arith), λ q. ground arith)

  pub chain-stopped :
      (Q : TurnContext J S → Type 0) (steps : List (Step J S)) (ctx : TurnContext J S) (s : S)
      → ctx.should_stop ≡ true
      → Ends Q (run_step_chain steps ctx s)
  chain-stopped Q [] ctx s h = inr (inr (inl (unfold run_step_chain in h)))
  chain-stopped Q (step ∷ steps) ctx s h = elim (Bool-cases (ctx.interrupted s)) [
    | inl i ↦ inr (inl (chain_interrupted step steps ctx s i))
    | inr i ↦
        inr (inr (inl (ap (λ x. x.1.should_stop) (stopped_chain (step ∷ steps) ctx s i h) ∙ h)))
  ]

  -- What the rest of the chain makes of what a step left without an error.
  pub chain-step :
      (Q : TurnContext J S → Type 0) (step : Step J S) (steps : List (Step J S))
      (ctx : TurnContext J S) (s : S)
      → ((step ctx s).0 ≡ returned (ok tt)
          → Ends Q (run_step_chain steps (step ctx s).1 (step ctx s).2))
      → Ends Q (run_step_chain (step ∷ steps) ctx s)
  chain-step Q step steps ctx s h = elim (Bool-cases (ctx.interrupted s)) [
    | inl i ↦ inr (inl (chain_interrupted step steps ctx s i))
    | inr i ↦ elim (Bool-cases ctx.should_stop) [
      | inl stop ↦ chain-stopped Q (step ∷ steps) ctx s stop
      | inr go ↦
          let (threw, failed, went) = failed_chain step steps ctx s i go in
          elim (Outcome-cases (step ctx s).0) [
            | inr e ↦ inl (threw e)
            | inl (r, e) ↦ elim (Result-cases r) [
              | inr (x, q) ↦ inr (inl (x, failed x (e ∙ ap returned q)))
              | inl (u, q) ↦
                  let fine = e ∙ ap returned q in subst (Ends Q) (sym (went fine)) (h fine)
            ]
          ]
    ]
  ]
