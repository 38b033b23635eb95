-- ===== src/Agent/Loop/Persist.antt =====
-- src/agent/AgentLoop.cpp: what the loop hands to the conversation store, and `compress_context`.
use embedded_agent.Base.{
  ℕ, Bytes, Bool, true, false, not, ◌&&◌, Option, none, some, List, [], ◌∷◌, codes, length,
  is_empty, if◌then◌else◌,
}
use embedded_agent.Core.Error.{Result, ok, err, error_of, ErrorCode, Outcome, returned, thrown}
use embedded_agent.Core.Json.{JsonLib}
use embedded_agent.Core.Types.{Message, Role, plain_message}
use embedded_agent.Provider.Interface.{Provider}
use embedded_agent.Agent.ContextCompressor.{ContextCompressor}
use embedded_agent.Agent.ContextCompressor.Compress.{compress}
use embedded_agent.Agent.Steps.CallProvider.{drop_system}
use embedded_agent.Agent.Loop.{AgentLoop, Shared}

-- The methods of `IConversationStore` that the loop calls.
pub record ConversationStore (J S : Type 0) : Type 0 where
  pub create : S → Result Bytes × S
  pub append : Bytes → Message J → S → Result (Unit {0}) × S
  pub archive_and_compact : Bytes → List (Message J) → S → Result (Unit {0}) × S

-- The loop over the messages: a failure is logged, and the loop goes on.
abbrev pub append_all : {J S : Type 0} → ConversationStore J S → Bytes → List (Message J) → S → S
append_all store id [] s = s
append_all store id (msg ∷ messages) s = append_all store id messages (store.append id msg s).1

-- `conv_store_ && config_.auto_persist && !conversation_id_.empty()`
abbrev pub store_of :
    {J S : Type 0} → Option (ConversationStore J S) → AgentLoop J → Option (ConversationStore J S)
store_of store loop =
    if loop.config.auto_persist && not (is_empty loop.conversation_id) then store else none

unfoldable pub persist_new_messages :
    {J S : Type 0} → Option (ConversationStore J S) → AgentLoop J → Shared J → S → Shared J × S
persist_new_messages store loop shared s = elim (store_of store loop) [
  | none ↦ (shared, s)
  | some st ↦ (
    record shared { pending_persist = [] },
    append_all st loop.conversation_id shared.pending_persist s,
  )
]

-- `compressor_ && compressor_->config().in_place`
abbrev pub is_in_place : Option ContextCompressor → Bool
is_in_place none = false
is_in_place (some c) = c.in_place

-- The compaction: the history replaces the stored transcript. A failure is logged.
unfoldable pub persist_or_archive :
    {J S : Type 0}
    → Option (ConversationStore J S)
    → Bool
    → AgentLoop J
    → Shared J
    → S
    → Shared J × S
unfolding persist_new_messages
persist_or_archive store compression_applied loop shared s =
    let (saved, t) = persist_new_messages store loop shared s in
    elim (store_of store loop) [
      | none ↦ (saved, t)
      | some st ↦
          if compression_applied && is_in_place shared.compressor
          then (saved, (st.archive_and_compact loop.conversation_id loop.history t).1)
          else (saved, t)
    ]

pub record CompressionResult : Type 0 where
  pub before : ℕ
  pub after : ℕ
  pub compressed : Bool

-- What `compress_context` does with the compressed messages behind the system prompt.
unfoldable pub adopt :
    {J S : Type 0}
    → Option (ConversationStore J S)
    → List (Message J)
    → AgentLoop J
    → Shared J
    → S
    → Result CompressionResult × AgentLoop J × Shared J × S
unfolding persist_new_messages
adopt store live loop shared s =
    let cr : CompressionResult = record {
      before = length loop.history;
      after = length live;
      compressed = true;
    } in
    let adopted = record loop { history = live } in
    elim (store_of store loop) [
      | none ↦ (ok cr, adopted, record shared { pending_persist = [] }, s)
      | some st ↦
          if not (is_in_place shared.compressor)
          then (ok cr, adopted, record shared { pending_persist = [] }, s)
          else let (saved, t) = persist_new_messages store loop shared s in
            let (ar, u) = st.archive_and_compact loop.conversation_id live t in
            elim ar [
              | err e ↦ (err e, loop, saved, u)
              | ok v ↦ (ok cr, adopted, record saved { pending_persist = [] }, u)
            ]
    ]

unfoldable pub compress_context :
    (L : JsonLib) {S : Type 0}
    → Option (Provider L.Json S)
    → Option (ConversationStore L.Json S)
    → Bytes
    → AgentLoop L.Json
    → Shared L.Json
    → S
    → Outcome (Result CompressionResult) × AgentLoop L.Json × Shared L.Json × S
unfolding adopt
compress_context L summarizer store focus_topic loop shared s = elim shared.compressor [
  | none ↦ (
    returned
        (err (error_of ErrorCode.invalid_argument (codes "Context compression is not enabled"))),
    loop,
    shared,
    s,
  )
  | some c ↦
      let messages =
        if is_empty loop.base_system_prompt
        then loop.history
        else plain_message Role.system loop.base_system_prompt ∷ loop.history in
      let (outcome, d, t) = compress L summarizer c messages focus_topic s in
      let noted = record shared { compressor = some d } in
      let size = length loop.history in
      elim outcome [
        | thrown ↦ (thrown, loop, noted, t)
        | returned compressed ↦
            if not d.last_compressed
            then (
              returned (ok (record { before = size; after = size; compressed = false })),
              loop,
              noted,
              t,
            )
            else let (r, after, kept, u) = adopt store (drop_system compressed) loop noted t in
              (returned r, after, kept, u)
      ]
]
