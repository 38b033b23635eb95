-- ===== src/Budget/Tracker/Sessions.antt =====
-- The session's counter is the sum of what was used since the session began.
use embedded_agent.Base.{
  ◌+◌, ◌≤◌, ◌≡◌, Bytes, Bool, true, false, ◌||◌, List, [], ◌∷◌, if◌then◌else◌,
}
use embedded_agent.Core.Types.{Usage}
use embedded_agent.Budget.Tracker.{
  Money, UsageSnapshot, BudgetTracker, no_usage, int_max, snapshot_of, reset_session, reset_global,
  record_usage,
}

-- The sums of the counts, as numbers.
abbrev pub plus_usage : UsageSnapshot → UsageSnapshot → UsageSnapshot
plus_usage a b = record {
  input_tokens = a.input_tokens + b.input_tokens;
  output_tokens = a.output_tokens + b.output_tokens;
  cache_read_tokens = a.cache_read_tokens + b.cache_read_tokens;
  cache_write_tokens = a.cache_write_tokens + b.cache_write_tokens;
}

-- Each count is an `int`.
pub record Fits (u : UsageSnapshot) : Type 0 where
  pub input : u.input_tokens ≤ int_max
  pub output : u.output_tokens ≤ int_max
  pub cache_read : u.cache_read_tokens ≤ int_max
  pub cache_write : u.cache_write_tokens ≤ int_max

-- What happens to a tracker.
pub data Event : Type 0 where
  used : Usage → Bytes → Event
  session_reset : Event
  global_reset : Event

abbrev pub is_session_reset : Event → Bool
is_session_reset session_reset = true
is_session_reset _ = false

abbrev pub is_global_reset : Event → Bool
is_global_reset global_reset = true
is_global_reset _ = false

-- Whether an event of the kind is among them.
abbrev pub has_event : (Event → Bool) → List Event → Bool
has_event kind [] = false
has_event kind (e ∷ events) = kind e || has_event kind events

-- What one event uses.
abbrev pub usage_of : Event → UsageSnapshot
usage_of (used usage model) = snapshot_of usage
usage_of session_reset = no_usage
usage_of global_reset = no_usage

-- The sum of what is used behind the last event of the kind.
abbrev pub sum_since : (Event → Bool) → List Event → UsageSnapshot
sum_since kind [] = no_usage
sum_since kind (e ∷ events) =
    let rest = sum_since kind events in
    if has_event kind (e ∷ events) then rest else plus_usage (usage_of e) rest

-- The sum of all that is used.
abbrev pub total_usage : List Event → UsageSnapshot
total_usage [] = no_usage
total_usage (e ∷ events) = plus_usage (usage_of e) (total_usage events)

-- What a counter says after the events, where it said `before`.
abbrev Counts : (Event → Bool) → List Event → UsageSnapshot → UsageSnapshot → Type 0
Counts kind events before after = after ≡ (
    if has_event kind events
    then sum_since kind events
    else plus_usage before (sum_since kind events))

module _ {D S : Type 0} (money : Money D) where
  unfoldable pub happen : Event → BudgetTracker D S → S → BudgetTracker D S × S
  unfolding record_usage reset_session reset_global
  happen (used usage model) b s = record_usage money usage model b s
  happen session_reset b s = (reset_session money b, s)
  happen global_reset b s = (reset_global money b, s)

  unfoldable pub run : List Event → BudgetTracker D S → S → BudgetTracker D S × S
  unfolding happen
  run [] b s = (b, s)
  run (e ∷ events) b s = let (c, t) = happen e b s in run events c t
