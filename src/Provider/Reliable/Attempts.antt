-- ===== src/Provider/Reliable/Attempts.antt =====
-- How often `try_with_retries` calls the provider, and what it returns.
use embedded_agent.Base.{ℕ, zero, suc, ◌+◌, ◌≤◌, ◌≡◌, ◌≢◌, refl, inl, inr, ◌⊎◌, ◌∙◌, min, arith}
use embedded_agent.Core.Error.{Error, err, Result-cases}
use embedded_agent.Provider.Interface.{Provider, Request}
use embedded_agent.Provider.ErrorClassifier.{ErrorClass, classify_error}
use embedded_agent.Provider.Reliable.{Config, backoff, retry_loop, try_with_retries}

module _ {J S : Type 0} (c : Config J S) (provider : Provider J S) (req : Request J) (calls : S → ℕ)
    (chat_counts : (s : S) → calls (provider.chat req s).1 ≡ suc (calls s))
    (sleep_keeps : (d : ℕ) (s : S) → calls (c.sleep d s) ≡ calls s) where
  -- The state in which the next round begins.
  abbrev next_state : ℕ → S → S
  next_state attempt s = c.sleep (backoff c.scale attempt c.base_delay) (provider.chat req s).1

  next_state_counts : (attempt : ℕ) (s : S) → calls (next_state attempt s) ≡ suc (calls s)
  next_state_counts attempt s =
      sleep_keeps (backoff c.scale attempt c.base_delay) (provider.chat req s).1 ∙ chat_counts s

  retry_loop_bounds :
      (rounds attempt : ℕ) (s : S)
      → (calls (retry_loop c rounds attempt provider req s).1 ≤ calls s + rounds)
        × (calls s + min rounds 1 ≤ calls (retry_loop c rounds attempt provider req s).1)
  unfolding retry_loop
  retry_loop_bounds zero attempt s = (omega arith, omega arith)
  retry_loop_bounds (suc rounds) attempt s = ground (
    arith,
    chat_counts s,
    next_state_counts attempt s,
    retry_loop_bounds rounds (suc attempt) (next_state attempt s),
  )

  retry_loop_exhausts :
      (rounds attempt : ℕ) (s : S) (e : Error)
      → rounds + attempt ≡ suc c.max_retries
      → (retry_loop c rounds attempt provider req s).0 ≡ err e
      → classify_error e ≢ ErrorClass.non_retryable
      → calls (retry_loop c rounds attempt provider req s).1 ≡ calls s + rounds
  unfolding retry_loop
  retry_loop_exhausts zero attempt s e h p q = omega arith
  retry_loop_exhausts (suc rounds) attempt s e h p q = ground (
    arith,
    chat_counts s,
    next_state_counts attempt s,
    retry_loop_exhausts rounds (suc attempt) (next_state attempt s) e,
  )

ErrorClass-cases :
    (k : ErrorClass) → (k ≡ ErrorClass.non_retryable) ⊎ (k ≢ ErrorClass.non_retryable)
ErrorClass-cases ErrorClass.non_retryable = inl refl
ErrorClass-cases ErrorClass.retryable = inr (λ e. cc)
ErrorClass-cases ErrorClass.rate_limit = inr (λ e. cc)

module _ {J S : Type 0} (c : Config J S) (provider : Provider J S) (req : Request J) where
  -- The loop ends with an answer of the provider, never behind its last round.
  retry_loop-answer :
      (rounds attempt : ℕ) (s : S)
      → suc rounds + attempt ≡ suc c.max_retries
      → (t : S) × ((retry_loop c (suc rounds) attempt provider req s).0 ≡ (provider.chat req t).0)
  unfolding retry_loop
  retry_loop-answer zero attempt s k = (s, ground arith)
  retry_loop-answer (suc rounds) attempt s k =
      let t = c.sleep (backoff c.scale attempt c.base_delay) (provider.chat req s).1 in
      let (u, e) = retry_loop-answer rounds (suc attempt) t (omega arith) in
      elim (Result-cases (provider.chat req s).0) [
        | inl (a, ok_eq) ↦ (s, ground arith)
        | inr (failure, err_eq) ↦ elim (ErrorClass-cases (classify_error failure)) [
          | inl final ↦ (s, ground arith)
          | inr again ↦ (u, ground arith)
        ]
      ]

-- `try_with_retries` calls the provider at least once and at most `max_retries + 1` times, and
-- exactly `max_retries + 1` times where it gives back an error that may be retried. `calls` is any
-- count that a call of the provider puts up by one, and a pause leaves alone. What it gives back is
-- what the provider answered in some state.
pub try_with_retries_bounds :
    {J S : Type 0} (c : Config J S) (provider : Provider J S) (req : Request J) (calls : S → ℕ)
    (s : S)
    → ((t : S) → calls (provider.chat req t).1 ≡ suc (calls t))
    → ((d : ℕ) (t : S) → calls (c.sleep d t) ≡ calls t)
    → (suc (calls s) ≤ calls (try_with_retries c provider req s).1)
      × (calls (try_with_retries c provider req s).1 ≤ calls s + suc c.max_retries)
      × ((e : Error)
          → (try_with_retries c provider req s).0 ≡ err e
          → classify_error e ≢ ErrorClass.non_retryable
          → calls (try_with_retries c provider req s).1 ≡ calls s + suc c.max_retries)
      × ((t : S) × ((try_with_retries c provider req s).0 ≡ (provider.chat req t).0))
unfolding try_with_retries
try_with_retries_bounds c provider req calls s counts keeps =
    let (upper, lower) =
      retry_loop_bounds c provider req calls counts keeps (suc c.max_retries) 0 s in
    (
      omega arith,
      upper,
      λ e p q.
          retry_loop_exhausts c provider req calls counts keeps (suc c.max_retries) 0 s e
            (omega arith) p q,
      retry_loop-answer c provider req c.max_retries 0 s (omega arith),
    )
