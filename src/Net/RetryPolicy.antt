-- ===== src/Net/RetryPolicy.antt =====
-- src/net/RetryPolicy.h and RetryPolicy.cpp. Delays are in milliseconds; a negative one is not
-- modelled. The multiplication by the `double` `backoff_multiplier`, cut to a `long`, is a parameter.
pub mod Delays
mod Tests
use embedded_agent.Base.{ℕ, zero, suc, Bool, ◌||◌, ◌&&◌, leb, ltb, ◌==◌, if◌then◌else◌}

pub record RetryPolicy : Type 0 where
  pub max_retries : ℕ
  pub base_delay : ℕ
  pub max_delay : ℕ

abbrev pub default_policy : RetryPolicy
default_policy = record { max_retries = 3; base_delay = 1000; max_delay = 30000 }

unfoldable pub should_retry : ℕ → Bool
should_retry status = status == 429 || leb 500 status && ltb status 600

-- The loop of `delay_for`, with `attempt` rounds left.
unfoldable pub grow : (ℕ → ℕ) → ℕ → ℕ → ℕ
grow scale zero delay = delay
grow scale (suc attempt) delay = grow scale attempt (scale delay)

unfoldable pub delay_for : (ℕ → ℕ) → RetryPolicy → ℕ → ℕ
unfolding grow
delay_for scale p attempt =
    let delay = grow scale attempt p.base_delay in
    if ltb p.max_delay delay then p.max_delay else delay
