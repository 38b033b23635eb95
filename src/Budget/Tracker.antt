-- ===== src/Budget/Tracker.antt =====
-- src/budget/BudgetTracker.cpp and Types.h. Costs are `double` in the source: their type `D` and its
-- operations are the parameter `Money`. The warnings of `check_budget` are log lines and are left out.
pub mod Sessions
mod Tests
use embedded_agent.Base.{
  ℕ, ◌+◌, Bytes, Bool, true, false, ◌&&◌, ◌||◌, Option, none, some, List, [], ◌∷◌, ◌++◌, codes,
  is_prefix, leb, ltb, if◌then◌else◌,
}
use embedded_agent.Core.Error.{Result, ok, err, Outcome}
use embedded_agent.Core.Types.{Usage, LlmResponse, StreamChunk, ChunkType}
use embedded_agent.Provider.Interface.{Provider, Request, Stream, emit, close}

-- The operations on `double` that the tracker uses; `price tokens per_mtok` is
-- `tokens * per_mtok / 1000000.0`. `overflow` is what a machine makes of a sum of two `int` above
-- `int_max`, which C++ leaves undefined.
pub record Money (D : Type 0) : Type 0 where
  pub nothing : D
  pub add : D → D → D
  pub is_above : D → D → Bool
  pub price : ℕ → D → D
  pub overflow : ℕ → ℕ

pub record UsageSnapshot : Type 0 where
  pub input_tokens : ℕ
  pub output_tokens : ℕ
  pub cache_read_tokens : ℕ
  pub cache_write_tokens : ℕ

-- `UsageSnapshot{}`
abbrev pub no_usage : UsageSnapshot
no_usage = record {
  input_tokens = 0;
  output_tokens = 0;
  cache_read_tokens = 0;
  cache_write_tokens = 0;
}

-- The largest `int`
unfoldable pub int_max : ℕ
int_max = 2147483647

-- The sum of two counts of type `int`
unfoldable pub int_sum : (ℕ → ℕ) → ℕ → ℕ → ℕ
int_sum overflow a b = if leb (a + b) int_max then a + b else overflow (a + b)

-- `a += b` and `a + b`
unfoldable pub add_usage : (ℕ → ℕ) → UsageSnapshot → UsageSnapshot → UsageSnapshot
unfolding int_sum
add_usage overflow a b = record {
  input_tokens = int_sum overflow a.input_tokens b.input_tokens;
  output_tokens = int_sum overflow a.output_tokens b.output_tokens;
  cache_read_tokens = int_sum overflow a.cache_read_tokens b.cache_read_tokens;
  cache_write_tokens = int_sum overflow a.cache_write_tokens b.cache_write_tokens;
}

pub record CostSnapshot (D : Type 0) : Type 0 where
  pub input_cost : D
  pub output_cost : D
  pub cache_read_cost : D
  pub cache_write_cost : D

pub record ModelPricing (D : Type 0) : Type 0 where
  pub model_id : Bytes
  pub input_per_mtok : D
  pub output_per_mtok : D
  pub cache_read_per_mtok : D
  pub cache_write_per_mtok : D

pub record BudgetConfig (D : Type 0) : Type 0 where
  pub warn_input_tokens : ℕ
  pub warn_output_tokens : ℕ
  pub warn_cost_usd : D
  pub max_input_tokens : ℕ
  pub max_output_tokens : ℕ
  pub max_cost_usd : D
  pub pricing : List (ModelPricing D)

pub record UsageRecord (D : Type 0) : Type 0 where
  pub session_id : Bytes
  pub model : Bytes
  pub usage : UsageSnapshot
  pub cost_usd : D

-- `store_` is `record` of an `IUsageStore`, which may throw.
pub record BudgetTracker (D S : Type 0) : Type 0 where
  pub config : BudgetConfig D
  pub store : Option (UsageRecord D → S → Outcome (Result (Unit {0})) × S)
  pub session_id : Bytes
  pub session_usage : UsageSnapshot
  pub session_cost : CostSnapshot D
  pub global_usage : UsageSnapshot
  pub global_cost : CostSnapshot D

-- The first entry whose id the model's name begins with.
unfoldable pub find_pricing : {D : Type 0} → List (ModelPricing D) → Bytes → Option (ModelPricing D)
unfolding is_prefix
find_pricing [] model = none
find_pricing (mp ∷ pricing) model =
    if is_prefix mp.model_id model then some mp else find_pricing pricing model

-- The conversion of a `Usage`.
abbrev pub snapshot_of : Usage → UsageSnapshot
snapshot_of usage = record {
  input_tokens = usage.input_tokens;
  output_tokens = usage.output_tokens;
  cache_read_tokens = usage.cache_read_tokens;
  cache_write_tokens = usage.cache_write_tokens;
}

module _ {D : Type 0} (money : Money D) where
  -- `CostSnapshot{}`
  abbrev pub no_cost : CostSnapshot D
  no_cost = record {
    input_cost = money.nothing;
    output_cost = money.nothing;
    cache_read_cost = money.nothing;
    cache_write_cost = money.nothing;
  }

  -- `a += b`
  abbrev pub add_cost : CostSnapshot D → CostSnapshot D → CostSnapshot D
  add_cost a b = record {
    input_cost = money.add a.input_cost b.input_cost;
    output_cost = money.add a.output_cost b.output_cost;
    cache_read_cost = money.add a.cache_read_cost b.cache_read_cost;
    cache_write_cost = money.add a.cache_write_cost b.cache_write_cost;
  }

  -- `total()`
  abbrev pub total_cost : CostSnapshot D → D
  total_cost c =
      money.add (money.add (money.add c.input_cost c.output_cost) c.cache_read_cost)
        c.cache_write_cost

  unfoldable pub calculate : ModelPricing D → UsageSnapshot → CostSnapshot D
  calculate pricing usage = record {
    input_cost = money.price usage.input_tokens pricing.input_per_mtok;
    output_cost = money.price usage.output_tokens pricing.output_per_mtok;
    cache_read_cost = money.price usage.cache_read_tokens pricing.cache_read_per_mtok;
    cache_write_cost = money.price usage.cache_write_tokens pricing.cache_write_per_mtok;
  }

  unfoldable pub calculate_cost : List (ModelPricing D) → UsageSnapshot → Bytes → CostSnapshot D
  unfolding find_pricing calculate
  calculate_cost pricing snapshot model = elim (find_pricing pricing model) [
    | none ↦ no_cost
    | some mp ↦ calculate mp snapshot
  ]

module _ {D S : Type 0} (money : Money D) where
  abbrev pub new : BudgetConfig D → BudgetTracker D S
  new config = record {
    config = config;
    store = none;
    session_id = [];
    session_usage = no_usage;
    session_cost = no_cost money;
    global_usage = no_usage;
    global_cost = no_cost money;
  }

  unfoldable pub reset_session : BudgetTracker D S → BudgetTracker D S
  reset_session b = record b { session_usage = no_usage; session_cost = no_cost money }

  unfoldable pub reset_global : BudgetTracker D S → BudgetTracker D S
  reset_global b = record b { global_usage = no_usage; global_cost = no_cost money }

  unfoldable pub is_over_warn : BudgetTracker D S → Bool
  is_over_warn b =
      (money.is_above (total_cost money b.session_cost) b.config.warn_cost_usd
        || ltb b.config.warn_input_tokens b.session_usage.input_tokens)
      || ltb b.config.warn_output_tokens b.session_usage.output_tokens

  -- A limit of 0 is none.
  unfoldable pub is_over_limit : BudgetTracker D S → Bool
  is_over_limit b =
      ((money.is_above b.config.max_cost_usd money.nothing
          && money.is_above (total_cost money b.session_cost) b.config.max_cost_usd)
        || (ltb 0 b.config.max_input_tokens
            && ltb b.config.max_input_tokens b.session_usage.input_tokens))
      || (ltb 0 b.config.max_output_tokens
          && ltb b.config.max_output_tokens b.session_usage.output_tokens)

  -- The counters.
  unfoldable pub count : UsageSnapshot → CostSnapshot D → BudgetTracker D S → BudgetTracker D S
  unfolding add_usage
  count snapshot cost b = record b {
    session_usage = add_usage money.overflow b.session_usage snapshot;
    session_cost = add_cost money b.session_cost cost;
    global_usage = add_usage money.overflow b.global_usage snapshot;
    global_cost = add_cost money b.global_cost cost;
  }

  -- What the store does with the record; an error or an exception is only logged.
  unfoldable pub record_usage : Usage → Bytes → BudgetTracker D S → S → BudgetTracker D S × S
  unfolding calculate_cost count
  record_usage usage model b s =
      let snapshot = snapshot_of usage in
      let cost = calculate_cost money b.config.pricing snapshot model in
      (
        count snapshot cost b,
        elim b.store [
          | none ↦ s
          | some keep ↦
              (keep
                (record {
                  session_id = b.session_id;
                  model = model;
                  usage = snapshot;
                  cost_usd = total_cost money cost;
                })
                s).1
        ],
      )

  -- What the callback does in front of the caller's.
  unfoldable pub note_chunk :
      {J : Type 0} → Bytes → StreamChunk J → BudgetTracker D S × S → BudgetTracker D S × S
  unfolding record_usage
  note_chunk model chunk (b, s) = elim chunk.type [
    | ChunkType.done_chunk ↦ elim chunk.usage [
      | none ↦ (b, s)
      | some usage ↦ record_usage usage model b s
    ]
    | _ ↦ (b, s)
  ]

  -- The stream with the callback wrapped.
  unfoldable pub wrap :
      {J : Type 0} → Bytes → BudgetTracker D S → Stream J S → Stream J (BudgetTracker D S × S)
  unfolding note_chunk
  wrap model b (emit chunk s next) =
      emit chunk (note_chunk model chunk (b, s)) (λ w. wrap model w.0 (next w.1))
  wrap model b (close outcome s) = close outcome (b, s)

  -- The tracker as a provider around another one.
  unfoldable pub tracked : {J : Type 0} → Provider J S → Provider J (BudgetTracker D S × S)
  unfolding record_usage wrap
  tracked inner = record {
    name = codes "budget:" ++ inner.name;
    list_models = inner.list_models;
    capabilities = inner.capabilities;
    chat = λ request w.
        let (answer, t) = inner.chat request w.1 in
        elim answer [
          | err e ↦ (err e, (w.0, t))
          | ok response ↦ (ok response, record_usage response.usage request.model w.0 t)
        ];
    stream_chat = λ request w. wrap request.model w.0 (inner.stream_chat request w.1);
  }
