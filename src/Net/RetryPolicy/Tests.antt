-- ===== src/Net/RetryPolicy/Tests.antt =====
-- The delays of the default policy, which doubles them.
use embedded_agent.Base.{◌≡◌, ◌+◌, refl, true, false}
use embedded_agent.Net.RetryPolicy.{default_policy, delay_for, grow, should_retry}

delay_test : delay_for (λ x. x + x) default_policy 3 ≡ 8000
unfolding delay_for grow
delay_test = refl

capped_test : delay_for (λ x. x + x) default_policy 5 ≡ 30000
unfolding delay_for grow
capped_test = refl

retry_test : (should_retry 503 ≡ true) × (should_retry 429 ≡ true) × (should_retry 404 ≡ false)
unfolding should_retry
retry_test = (refl, refl, refl)
