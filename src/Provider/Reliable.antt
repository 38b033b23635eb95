-- ===== src/Provider/Reliable.antt =====
-- src/provider/ReliableProvider.cpp: retries with growing delays, then fallbacks.
pub mod Attempts
pub mod Fallbacks
mod Tests
use embedded_agent.Base.{ℕ, zero, suc, ◌+◌, Bytes, Bool, List, [], ◌∷◌, codes, ltb, if◌then◌else◌}
use embedded_agent.Core.Error.{Error, Result, ok, err, net_error}
use embedded_agent.Core.Types.{LlmResponse}
use embedded_agent.Provider.Interface.{Provider, Request, Stream}
use embedded_agent.Provider.ErrorClassifier.{ErrorClass, classify_error}

-- `scale d` is `static_cast<long>(d * backoff_multiplier)`, and `sleep` is
-- `std::this_thread::sleep_for`. Milliseconds and retries are not negative.
pub record Config (J S : Type 0) : Type 0 where
  pub max_retries : ℕ
  pub base_delay : ℕ
  pub scale : ℕ → ℕ
  pub sleep : ℕ → S → S
  pub fallbacks : List (Provider J S)

-- The loop `for (int i = 0; i < attempt; ++i) delay = scale(delay)`.
unfoldable pub backoff : (ℕ → ℕ) → ℕ → ℕ → ℕ
backoff scale zero delay = delay
backoff scale (suc i) delay = backoff scale i (scale delay)

-- The loop over the fallbacks; `result` is what is returned if none of them answers.
pub try_fallbacks :
    {J S : Type 0}
    → List (Provider J S)
    → Result (LlmResponse J)
    → Request J
    → S
    → Result (LlmResponse J) × S
try_fallbacks [] result req s = (result, s)
try_fallbacks (fallback ∷ rest) result req s =
    let (fb_result, s') = fallback.chat req s in
    let later = try_fallbacks rest result req s' in
    elim fb_result [ ok response ↦ (ok response, s') | err e ↦ later ]

module _ {J S : Type 0} (c : Config J S) where
  -- The loop over `attempt`, with the rounds left; `max_retries + 1` rounds are enough.
  pub retry_loop : ℕ → ℕ → Provider J S → Request J → S → Result (LlmResponse J) × S
  unfolding backoff
  retry_loop zero attempt provider req s =
      (err (net_error (codes "unexpected retry loop exit") 0), s)
  retry_loop (suc rounds) attempt provider req s =
      let (result, s') = provider.chat req s in
      let again =
        retry_loop rounds (suc attempt) provider req
          (c.sleep (backoff c.scale attempt c.base_delay) s') in
      elim result [
        | ok response ↦ (ok response, s')
        | err e ↦ elim (classify_error e) [
          | ErrorClass.non_retryable ↦ (err e, s')
          | _ ↦ if ltb attempt c.max_retries then again else (err e, s')
        ]
      ]

  unfoldable pub try_with_retries : Provider J S → Request J → S → Result (LlmResponse J) × S
  unfolding retry_loop
  try_with_retries provider req s = retry_loop (suc c.max_retries) 0 provider req s

  unfoldable pub chat : Provider J S → Request J → S → Result (LlmResponse J) × S
  unfolding try_fallbacks
  chat primary req s =
      let (result, s') = try_with_retries primary req s in
      elim result [
        | ok response ↦ (ok response, s')
        | err e ↦ elim (classify_error e) [
          | ErrorClass.retryable ↦ (err e, s')
          | _ ↦ try_fallbacks c.fallbacks (err e) req s'
        ]
      ]

-- `stream_chat` tries the primary provider once.
abbrev pub stream_chat : {J S : Type 0} → Provider J S → Request J → S → Stream J S
stream_chat primary req s = primary.stream_chat req s
