-- ===== src/Agent/Loop/Saved.antt =====
-- A run that succeeds leaves no message behind that waits to be stored.
use embedded_agent.Base.{
  ℕ, zero, suc, ◌≡◌, refl, ◌∙◌, Bytes, Bool, true, false, Bool-cases, inl, inr, Option,
  Option-cases, none, some, List, [], if-both, arith, is_empty, ◌&&◌, ◌||◌,
}
use embedded_agent.Core.Error.{Result, ok, err, Outcome, returned, thrown}
use embedded_agent.Agent.LoopDetector
use embedded_agent.Agent.PlanExitTool.{PermissionState}
use embedded_agent.Agent.TurnContext.{TurnContext, Step}
use embedded_agent.Agent.Loop.{AgentLoop, Shared, append_to_history}
use embedded_agent.Agent.Loop.Persist.{
  ConversationStore, store_of, persist_new_messages, persist_or_archive, is_in_place,
}
use embedded_agent.Agent.Loop.Run.{
  Parts, World, end_turn, hand_over, finish, exhausted, stop_or_go, turn_succeeded, turn_ended,
  take_turn, round, rounds, run, begin_run, is_onboarding, user_message, close_run, approved_plan,
  plan_message, hand_over_state, build_system_prompt_once, refresh_prompt, ensure_conversation,
}

module _ {J S : Type 0} where
  persist_new_messages-empties :
      (store : Option (ConversationStore J S)) (st : ConversationStore J S) (loop : AgentLoop J)
      (shared : Shared J) (s : S)
      → store_of store loop ≡ some st
      → (persist_new_messages store loop shared s).0.pending_persist ≡ []
  unfolding persist_new_messages
  persist_new_messages-empties store st loop shared s h = rw (persist_new_messages, h) refl

  persist_or_archive-empties :
      (store : Option (ConversationStore J S)) (st : ConversationStore J S) (compressed : Bool)
      (loop : AgentLoop J) (shared : Shared J) (s : S)
      → store_of store loop ≡ some st
      → (persist_or_archive store compressed loop shared s).0.pending_persist ≡ []
  unfolding persist_or_archive
  persist_or_archive-empties store st compressed loop shared s h =
      let emptied = persist_new_messages-empties store st loop shared s h in
      rw (persist_or_archive, h)
        (if-both {A = Shared J × S} (λ x. x.0.pending_persist ≡ [])
          (compressed && is_in_place shared.compressor) emptied emptied)

module _ {J S : Type 0} (parts : Parts J S) (st : ConversationStore J S) where
  -- What a run leaves if it succeeds.
  abbrev Empties : Outcome (Result (Unit {0})) × AgentLoop J × World J S → Type 0
  Empties x = x.0 ≡ returned (ok tt) → x.2.0.pending_persist ≡ []

  end_turn-store :
      (user_input : Bytes) (loop : AgentLoop J) (s : S)
      → store_of parts.conv_store (end_turn parts user_input loop s).0
        ≡ store_of parts.conv_store loop
  unfolding end_turn
  end_turn-store user_input loop s = elim (Option-cases parts.strategy) [
    | inl e ↦ rw (end_turn, e) refl
    | inr (strategy, e) ↦ elim (Option-cases parts.provider) [
      | inl f ↦ rw (end_turn, e, f) refl
      | inr (provider, f) ↦ rw (end_turn, e, f) refl
    ]
  ]

  refresh_prompt-store :
      (loop : AgentLoop J) (s : S)
      → store_of parts.conv_store (refresh_prompt parts loop s).0 ≡ store_of parts.conv_store loop
  unfolding refresh_prompt
  refresh_prompt-store loop s = elim (Option-cases parts.strategy) [
    | inl e ↦ rw (refresh_prompt, e) refl
    | inr (strategy, e) ↦ rw (refresh_prompt, e) refl
  ]

  build_system_prompt_once-store :
      (loop : AgentLoop J) (shared : Shared J) (s : S)
      → store_of parts.conv_store (build_system_prompt_once parts loop shared s).0
        ≡ store_of parts.conv_store loop
  unfolding build_system_prompt_once
  build_system_prompt_once-store loop shared s =
      if-both {A = AgentLoop J × S}
        (λ x. store_of parts.conv_store x.0 ≡ store_of parts.conv_store loop)
        (is_empty loop.base_system_prompt) refl refl

  hand_over-store :
      (p : PermissionState) (loop : AgentLoop J) (w : World J S)
      → store_of parts.conv_store (hand_over parts p loop w).0 ≡ store_of parts.conv_store loop
  unfolding hand_over
  hand_over-store p loop w =
      let (asked, noted) = append_to_history (plan_message p loop) loop (hand_over_state p w.0) in
      let again : AgentLoop J = record asked { base_system_prompt = [] } in
      let (built, t) = build_system_prompt_once parts again noted w.1 in
      refresh_prompt-store built t ∙ build_system_prompt_once-store again noted w.1

  close_run-empties :
      (user_input : Bytes) (compressed : Bool) (loop : AgentLoop J) (shared : Shared J) (s : S)
      → store_of parts.conv_store loop ≡ some st
      → (close_run parts user_input compressed loop shared s).1.0.pending_persist ≡ []
  unfolding close_run
  close_run-empties user_input compressed loop shared s h =
      let (ended, t) = end_turn parts user_input loop s in
      persist_or_archive-empties parts.conv_store st compressed ended shared t
        (end_turn-store user_input loop s ∙ h)

  finish-empties :
      (user_input : Bytes) (compressed : Bool) (ctx : TurnContext J (World J S))
      (loop : AgentLoop J) (w : World J S)
      → store_of parts.conv_store loop ≡ some st
      → (finish parts user_input compressed ctx loop w).1.0.pending_persist ≡ []
  unfolding finish
  finish-empties user_input compressed ctx loop w h =
      close_run-empties user_input compressed loop w.0 _ h

  turn_succeeded-Empties :
      (again : AgentLoop J → World J S → Outcome (Result (Unit {0})) × AgentLoop J × World J S)
      (user_input : Bytes) (compressed : Bool) (ctx : TurnContext J (World J S))
      (loop : AgentLoop J) (w : World J S) (plan : Option PermissionState) (stop : Bool)
      → ((next : AgentLoop J) (v : World J S)
          → store_of parts.conv_store next ≡ some st
          → Empties (again next v))
      → store_of parts.conv_store loop ≡ some st
      → ctx.should_stop ≡ stop
      → Empties (turn_succeeded parts again user_input compressed ctx loop w plan)
  unfolding turn_succeeded stop_or_go
  turn_succeeded-Empties again user_input compressed ctx loop w (some p) stop ih h e =
      let (over, given) = hand_over parts p loop w in ih over given (hand_over-store p loop w ∙ h)
  turn_succeeded-Empties again user_input compressed ctx loop w none true ih h e =
      rw (turn_succeeded, e) (λ done. finish-empties user_input compressed ctx loop w h)
  turn_succeeded-Empties again user_input compressed ctx loop w none false ih h e =
      rw (turn_succeeded, e) (ih loop w h)

  turn_ended-Empties :
      (again : AgentLoop J → World J S → Outcome (Result (Unit {0})) × AgentLoop J × World J S)
      (user_input : Bytes) (compressed : Bool) (ctx : TurnContext J (World J S))
      (loop : AgentLoop J) (w : World J S) (outcome : Outcome (Result (Unit {0})))
      → ((next : AgentLoop J) (v : World J S)
          → store_of parts.conv_store next ≡ some st
          → Empties (again next v))
      → store_of parts.conv_store loop ≡ some st
      → Empties (turn_ended parts again user_input compressed ctx loop w outcome)
  unfolding turn_ended
  turn_ended-Empties again user_input compressed ctx loop w thrown ih h = λ done. cc
  turn_ended-Empties again user_input compressed ctx loop w (returned (err e)) ih h = λ done. cc
  turn_ended-Empties again user_input compressed ctx loop w (returned (ok u)) ih h =
      turn_succeeded-Empties again user_input compressed ctx loop w (approved_plan w.0)
        ctx.should_stop ih h refl

  round-Empties :
      (again : Bool
        → AgentLoop J
        → World J S
        → Outcome (Result (Unit {0})) × AgentLoop J × World J S)
      (steps : List (Step J (World J S))) (user_input : Bytes) (inject : Bool) (i : ℕ)
      (compressed : Bool) (loop : AgentLoop J) (w : World J S) (interrupted : Bool)
      → ((applied : Bool) (next : AgentLoop J) (v : World J S)
          → store_of parts.conv_store next ≡ some st
          → Empties (again applied next v))
      → store_of parts.conv_store loop ≡ some st
      → Empties (round parts again steps user_input inject i compressed loop w interrupted)
  unfolding round
  round-Empties again steps user_input inject i compressed loop w true ih h = λ done. cc
  round-Empties again steps user_input inject i compressed loop w false ih h =
      let (outcome, end, v) = take_turn parts steps inject i loop w in
      let applied = compressed || end.compression_applied in
      turn_ended-Empties (again applied) user_input applied end
        (record loop { history = end.messages }) v outcome (ih applied) h

  rounds-Empties :
      (steps : List (Step J (World J S))) (user_input : Bytes) (inject : Bool) (left i : ℕ)
      (compressed : Bool) (loop : AgentLoop J) (w : World J S)
      → store_of parts.conv_store loop ≡ some st
      → Empties (rounds parts steps user_input inject left i compressed loop w)
  unfolding rounds exhausted
  rounds-Empties steps user_input inject zero i compressed loop w h =
      λ done. close_run-empties user_input compressed loop w.0 w.1 h
  rounds-Empties steps user_input inject (suc left) i compressed loop w h =
      round-Empties
        (λ applied next v. rounds parts steps user_input inject left (suc i) applied next v) steps
        user_input inject i compressed loop w w.0.interrupted
        (λ applied next v k. rounds-Empties steps user_input inject left (suc i) applied next v k) h

  ensure_conversation-store :
      (loop : AgentLoop J) (s : S)
      → store_of parts.conv_store loop ≡ some st
      → store_of parts.conv_store (ensure_conversation parts loop s).0 ≡ some st
  unfolding ensure_conversation
  ensure_conversation-store loop s h = elim (Option-cases parts.conv_store) [
    | inl e ↦ absurd (ground arith)
    | inr (store, e) ↦ elim (Bool-cases (is_empty loop.conversation_id)) [
      | inl i ↦ absurd (ground arith)
      | inr i ↦ elim (Bool-cases loop.config.auto_persist) [
        | inl a ↦ rw (ensure_conversation, e, i, a) (ground arith)
        | inr a ↦ absurd (ground arith)
      ]
    ]
  ]

  begin_run-store :
      (user_input : Bytes) (loop : AgentLoop J) (w : World J S)
      → store_of parts.conv_store loop ≡ some st
      → store_of parts.conv_store (begin_run parts user_input loop w).0 ≡ some st
  unfolding begin_run
  begin_run-store user_input loop w h =
      let fresh : Shared J = record w.0 {
        interrupted = false;
        loop_detector = LoopDetector.reset w.0.loop_detector;
      } in
      let marked : AgentLoop J = record loop {
        onboarding_injected = loop.onboarding_injected || is_onboarding parts loop;
      } in
      let (asked, noted) = append_to_history (user_message user_input marked fresh) marked fresh in
      let (built, t) = build_system_prompt_once parts asked noted w.1 in
      let (renewed, u) = refresh_prompt parts built t in
      ensure_conversation-store renewed u
        (refresh_prompt-store built t ∙ build_system_prompt_once-store asked noted w.1 ∙ h)

  -- A run that succeeds, by an answer or at the last iteration, leaves no message behind that waits to be
  -- stored, where the conversation has an id, the messages are to be kept and there is a store. This holds
  -- for every chain of steps.
  pub run-saves :
      (steps : List (Step J (World J S))) (user_input : Bytes) (loop : AgentLoop J) (w : World J S)
      → store_of parts.conv_store loop ≡ some st
      → (run parts steps user_input loop w).0 ≡ returned (ok tt)
      → (run parts steps user_input loop w).2.0.pending_persist ≡ []
  unfolding run
  run-saves steps user_input loop w h =
      let (ready, v) = begin_run parts user_input loop w in
      rounds-Empties steps user_input (is_onboarding parts loop) ready.config.max_iterations 0 false
        ready v (begin_run-store user_input loop w h)
