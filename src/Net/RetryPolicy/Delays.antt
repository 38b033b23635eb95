-- ===== src/Net/RetryPolicy/Delays.antt =====
-- How the delays between retries grow.
use embedded_agent.Base.{ℕ, zero, suc, ◌≤◌, arith}
use embedded_agent.Net.RetryPolicy.{RetryPolicy, grow, delay_for}

grow-le :
    (scale : ℕ → ℕ) (attempt delay : ℕ)
    → ((x : ℕ) → x ≤ scale x)
    → grow scale attempt delay ≤ grow scale (suc attempt) delay
unfolding grow
grow-le scale zero delay h = h delay
grow-le scale (suc attempt) delay h = grow-le scale attempt (scale delay) h

-- A delay is never above `max_delay`, and where the multiplier makes no delay shorter, a later
-- attempt waits at least as long as the one before it.
pub delay_for_grows :
    (scale : ℕ → ℕ) (p : RetryPolicy) (attempt : ℕ)
    → ((x : ℕ) → x ≤ scale x)
    → (delay_for scale p attempt ≤ p.max_delay)
      × (delay_for scale p attempt ≤ delay_for scale p (suc attempt))
unfolding delay_for
delay_for_grows scale p attempt h = ground (arith, grow-le scale attempt p.base_delay h)
