-- ===== src/Budget/Tracker/Tests.antt =====
-- A session of three calls, with a reset behind the first. A cost is a number of tokens.
use embedded_agent.Base.{ℕ, ◌+◌, List, [], ◌∷◌, codes, ltb}
use embedded_agent.Core.Types.{Usage}
use embedded_agent.Budget.Tracker.{Money, BudgetConfig, UsageSnapshot}
use embedded_agent.Budget.Tracker.Sessions.{Event, used, session_reset}

abbrev tokens : Money ℕ
tokens = record {
  nothing = 0;
  add = λ a b. a + b;
  is_above = λ a b. ltb b a;
  price = λ n per_mtok. n;
  overflow = λ n. 0;
}

abbrev config : BudgetConfig ℕ
config = record {
  warn_input_tokens = 10;
  warn_output_tokens = 10;
  warn_cost_usd = 10;
  max_input_tokens = 0;
  max_output_tokens = 0;
  max_cost_usd = 0;
  pricing = [];
}

abbrev call : ℕ → Usage
call n = record {
  input_tokens = n;
  output_tokens = 1;
  cache_read_tokens = 0;
  cache_write_tokens = 0;
}

abbrev events : List Event
events =
    used (call 1) (codes "m")
    ∷ session_reset
    ∷ used (call 2) (codes "m")
    ∷ used (call 3) (codes "m")
    ∷ []

abbrev usage : ℕ → ℕ → UsageSnapshot
usage n m = record {
  input_tokens = n;
  output_tokens = m;
  cache_read_tokens = 0;
  cache_write_tokens = 0;
}
