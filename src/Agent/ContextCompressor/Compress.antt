-- ===== src/Agent/ContextCompressor/Compress.antt =====
-- `compress` of src/agent/ContextCompressor.cpp.
use embedded_agent.Base.{
  ℕ, zero, suc, ◌-◌, ◌*◌, ◌/◌, Bytes, Bool, true, false, not, ◌||◌, ◌&&◌, Option, none, some, List,
  ◌∷◌, ◌++◌, codes, em_dash, get_elem?, take, drop, leb, ltb, if◌then◌else◌,
}
use embedded_agent.Core.Error.{Result, ok, err, Outcome, returned, thrown}
use embedded_agent.Core.Json.{JsonLib}
use embedded_agent.Core.Types.{Message, Role, plain_message}
use embedded_agent.Provider.Interface.{Provider}
use embedded_agent.Agent.ContextCompressor.{
  ContextCompressor, Savings, estimate_tokens, find_tail_cut, protect_head_size,
}
use embedded_agent.Agent.ContextCompressor.Prune.{prune_old_tool_results}
use embedded_agent.Agent.ContextCompressor.Summary.{summarize, static_fallback_summary}

abbrev pub role_or_user : {J : Type 0} → Option (Message J) → Role
role_or_user none = Role.user
role_or_user (some msg) = msg.role

abbrev pub role_eq : Role → Role → Bool
role_eq Role.system Role.system = true
role_eq Role.user Role.user = true
role_eq Role.assistant Role.assistant = true
role_eq Role.tool Role.tool = true
role_eq _ _ = false

-- The role of the summary, between the last role of the head and the first of the tail.
unfoldable pub summary_role : Role → Role → Role
summary_role last_head first_tail =
    let role : Role = elim last_head [ Role.user ↦ Role.assistant | _ ↦ Role.user ] in
    let flipped = if role_eq role Role.user then Role.assistant else Role.user in
    if role_eq role first_tail && not (role_eq flipped last_head) then flipped else role

unfoldable pub summary_message : {J : Type 0} → Role → Bytes → Message J
summary_message role summary = plain_message role (
    codes "[Conversation Summary]\n"
    ++ summary
    ++ codes "\n\n[End of summary "
    ++ em_dash
    ++ codes " respond to the message below]")

-- The role of the last message of the head.
abbrev pub last_head_role : {J : Type 0} → List (Message J) → ℕ → Role
last_head_role pruned zero = Role.user
last_head_role pruned (suc i) = role_or_user (get_elem? pruned i)

-- Head, summary and tail.
unfoldable pub assemble : {J : Type 0} → List (Message J) → ℕ → ℕ → Bytes → List (Message J)
unfolding summary_role summary_message
assemble pruned head_end tail_start summary =
    let first_tail = role_or_user (get_elem? pruned tail_start) in
    take head_end pruned
    ++ summary_message (summary_role (last_head_role pruned head_end) first_tail) summary
      ∷ drop tail_start pruned

-- `100 * (tokens - new_tokens) / tokens`, which is cut towards 0, or 0 where `tokens` is 0.
unfoldable pub savings_of : ℕ → ℕ → Savings
savings_of zero new_tokens = Savings.gained 0
savings_of (suc t) new_tokens =
    if leb new_tokens (suc t)
    then Savings.gained (100 * (suc t - new_tokens) / suc t)
    else Savings.lost (100 * (new_tokens - suc t) / suc t)

-- `last_savings_pct_ < 10`
abbrev pub is_small : Savings → Bool
is_small (Savings.gained pct) = ltb pct 10
is_small (Savings.lost pct) = true

unfoldable pub count_compression :
    (L : JsonLib) → ContextCompressor → ℕ → List (Message L.Json) → ContextCompressor
unfolding savings_of
count_compression L c tokens compressed =
    let savings = savings_of tokens (estimate_tokens L compressed) in
    record c {
      compression_count = suc c.compression_count;
      last_compressed = true;
      last_savings = savings;
      ineffective_count = if is_small savings then suc c.ineffective_count else 0;
    }

-- From the summary's result on; `messages` is what came in.
unfoldable pub finish :
    (L : JsonLib)
    → ContextCompressor
    → List (Message L.Json)
    → List (Message L.Json)
    → ℕ
    → ℕ
    → Result Bytes
    → List (Message L.Json) × ContextCompressor
unfolding assemble count_compression
finish L c messages pruned head_end tail_start (ok summary) =
    let compressed = assemble pruned head_end tail_start summary in
    (compressed, count_compression L c (estimate_tokens L messages) compressed)
finish L c messages pruned head_end tail_start (err e) =
    let middle = drop head_end (take tail_start pruned) in
    let compressed = assemble pruned head_end tail_start (static_fallback_summary middle) in
    if c.abort_on_summary_failure
    then (messages, c)
    else (compressed, count_compression L c (estimate_tokens L messages) compressed)

-- What follows once the tool results are pruned.
unfoldable pub compress_pruned :
    (L : JsonLib) {S : Type 0}
    → Option (Provider L.Json S)
    → ContextCompressor
    → List (Message L.Json)
    → List (Message L.Json)
    → Bytes
    → S
    → Outcome (List (Message L.Json)) × ContextCompressor × S
unfolding finish
compress_pruned L provider c messages pruned focus_topic s =
    let head_end = protect_head_size c pruned in
    let tail_start = find_tail_cut L c pruned head_end in
    if leb tail_start head_end
    then (returned pruned, record c { last_savings = Savings.gained 0 }, s)
    else let (summary, d, t) =
        summarize L provider c (drop head_end (take tail_start pruned)) focus_topic s in
      elim summary [
        | thrown ↦ (thrown, d, t)
        | returned r ↦
            let (compressed, e) = finish L d messages pruned head_end tail_start r in
            (returned compressed, e, t)
      ]

-- `compress` returns no error; what it throws leaves it.
unfoldable pub compress :
    (L : JsonLib) {S : Type 0}
    → Option (Provider L.Json S)
    → ContextCompressor
    → List (Message L.Json)
    → Bytes
    → S
    → Outcome (List (Message L.Json)) × ContextCompressor × S
unfolding compress_pruned
compress L provider c messages focus_topic s =
    let begun = record c { last_compressed = false } in
    if not c.enable || leb (estimate_tokens L messages) c.threshold_tokens
    then (returned messages, begun, s)
    else elim (prune_old_tool_results L begun messages) [
      | thrown ↦ (thrown, begun, s)
      | returned pruned ↦ compress_pruned L provider begun messages pruned focus_topic s
    ]
