-- ===== src/Agent/Steps/CallProvider.antt =====
-- src/agent/steps/CallProviderStep.cpp. The compressor is what the step holds a pointer to, with its own
-- provider; the log lines are left out. `what` is the text of an exception that leaves `stream_chat`.
pub mod Streams
mod Tests
use embedded_agent.Base.{
  ℕ, zero, suc, Bytes, Bool, true, false, not, ◌&&◌, Option, none, some, List, [], ◌∷◌, ◌++◌, codes,
  length, map, ltb, is_empty, bytes_eq, if◌then◌else◌,
}
use embedded_agent.Core.Error.{
  Result, ok, err, error_of, net_error, ErrorCode, Outcome, returned, thrown,
}
use embedded_agent.Core.Json.{JsonLib}
use embedded_agent.Core.Types.{
  Message, Role, ToolCall, LlmResponse, StreamChunk, ChunkType, ChatOptions, Usage, plain_message,
}
use embedded_agent.Provider.Interface.{Provider, Request, Stream, emit, close}
use embedded_agent.Agent.ContextCompressor.{ContextCompressor, is_system, update_from_response}
use embedded_agent.Agent.ContextCompressor.Compress.{compress}
use embedded_agent.Agent.ContextCompressor.Summary.{default_options, role_word}
use embedded_agent.Agent.TurnContext.{TurnContext, AgentEvent}

module _ {J S : Type 0} where
  abbrev emit_event : TurnContext J S → AgentEvent J → S → S
  emit_event ctx event s = elim ctx.emit_fn [ none ↦ s | some f ↦ f event s ]

  unfoldable pub emit_llm_request : TurnContext J S → List (Message J) → S → S
  emit_llm_request ctx messages s =
      emit_event ctx
        (AgentEvent.llm_request ctx.iteration ctx.agent_id ctx.model
          (map (λ m. (role_word m.role, m.content)) messages))
        s

  unfoldable pub emit_llm_response : TurnContext J S → S → S
  emit_llm_response ctx s =
      emit_event ctx
        (AgentEvent.llm_response ctx.iteration ctx.agent_id ctx.model ctx.response.content
          ctx.response.usage (length ctx.response.tool_calls))
        s

  -- The messages with the system prompt in front.
  unfoldable pub full_messages : TurnContext J S → List (Message J)
  full_messages ctx =
      (if is_empty ctx.system_prompt then [] else plain_message Role.system ctx.system_prompt ∷ [])
      ++ ctx.messages

  unfoldable pub request_of : TurnContext J S → List (Message J) → Request J
  request_of ctx messages = record {
    messages = messages;
    tools = ctx.tool_specs;
    model = ctx.model;
    options = record default_options { max_tokens = ctx.max_tokens };
  }

-- What comes behind a system message in front.
abbrev pub drop_system : {J : Type 0} → List (Message J) → List (Message J)
drop_system [] = []
drop_system (m ∷ ms) = if is_system m.role then ms else m ∷ ms

-- What the compression makes of the messages, the context and the compressor.
unfoldable pub compress_if_needed :
    (L : JsonLib) {S : Type 0}
    → Option (Provider L.Json S)
    → Option ContextCompressor
    → TurnContext L.Json S
    → List (Message L.Json)
    → S
    → Outcome (List (Message L.Json)) × TurnContext L.Json S × Option ContextCompressor × S
compress_if_needed L summarizer none ctx messages s = (returned messages, ctx, none, s)
compress_if_needed L summarizer (some c) ctx messages s =
    let (outcome, d, t) = compress L summarizer c messages [] s in
    elim outcome [
      | thrown ↦ (thrown, ctx, some d, t)
      | returned compressed ↦
          if d.last_compressed && ltb (length compressed) (length messages)
          then (
            returned compressed,
            record ctx { compression_applied = true; messages = drop_system compressed },
            some d,
            t,
          )
          else (returned compressed, ctx, some d, t)
    ]

-- `if (compressor_ && usage.input_tokens > 0) compressor_->update_from_response(...)`
unfoldable pub feed_back : Option ContextCompressor → Usage → Option ContextCompressor
feed_back none usage = none
feed_back (some c) usage =
    if ltb 0 usage.input_tokens then some (update_from_response c usage.input_tokens) else some c

-- What the callback of the streaming path gathers.
pub record Gathered (J : Type 0) : Type 0 where
  pub content : Bytes
  pub calls : List (ToolCall J)
  pub finish_reason : Bytes

abbrev pub nothing_yet : {J : Type 0} → Gathered J
nothing_yet = record { content = []; calls = []; finish_reason = [] }

abbrev pub is_content : ChunkType → Bool
is_content ChunkType.content_chunk = true
is_content _ = false

abbrev pub is_call_end : ChunkType → Bool
is_call_end ChunkType.tool_call_end = true
is_call_end _ = false

abbrev pub ended_calls : {J : Type 0} → StreamChunk J → List (ToolCall J)
ended_calls chunk =
    if is_call_end chunk.type then elim chunk.tool_call [ none ↦ [] | some tc ↦ tc ∷ [] ] else []

unfoldable pub gather : {J : Type 0} → Gathered J → StreamChunk J → Gathered J
gather g chunk = record {
  content = g.content ++ (if is_content chunk.type then chunk.text else []);
  calls = g.calls ++ ended_calls chunk;
  finish_reason = elim chunk.finish_reason [
    | none ↦ g.finish_reason
    | some reason ↦ if is_empty reason then g.finish_reason else reason
  ];
}

-- How `stream_chat` ends: it returns, the callback's `StreamInterrupted` leaves it, or another
-- exception does.
pub data StreamEnd : Type 0 where
  ended : Result (Unit {0}) → StreamEnd
  interrupted_end : StreamEnd
  broken : StreamEnd

-- The call of `stream_chat` with the lambda as its callback. The provider is taken to let the exception
-- that the lambda throws on an interrupt pass.
unfoldable pub drive :
    {J S : Type 0}
    → (S → Bool)
    → (StreamChunk J → S → S)
    → Stream J S
    → Gathered J
    → StreamEnd × Gathered J × S
unfolding gather
drive interrupted callback (emit chunk s next) g =
    let t = callback chunk s in
    let more = drive interrupted callback (next t) (gather g chunk) in
    if interrupted s then (interrupted_end, g, s) else more
drive interrupted callback (close outcome s) g = elim outcome [
  | thrown ↦ (broken, g, s)
  | returned r ↦ (ended r, g, s)
]

unfoldable pub stop_reason_of : {J : Type 0} → Gathered J → Bytes
stop_reason_of g =
    if not (is_empty g.calls)
    then codes "tool_calls"
    else if is_empty g.finish_reason
    then codes "stop"
    else g.finish_reason

-- The text that tells the user that the answer was cut at `max_tokens`, in UTF-8.
unfoldable pub truncation_note : Bytes
truncation_note =
    226 ∷ 154 ∷ 160 ∷ 32 ∷ 229 ∷ 155 ∷ 158 ∷ 229 ∷ 164 ∷ 141 ∷ 232 ∷ 190 ∷ 190 ∷ 229 ∷ 136 ∷ 176
    ∷ 32 ∷ 109 ∷ 97 ∷ 120 ∷ 95 ∷ 116 ∷ 111 ∷ 107 ∷ 101 ∷ 110 ∷ 115 ∷ 32 ∷ 228 ∷ 184 ∷ 138 ∷ 233
    ∷ 153 ∷ 144 ∷ 232 ∷ 162 ∷ 171 ∷ 230 ∷ 136 ∷ 170 ∷ 230 ∷ 150 ∷ 173 ∷ 239 ∷ 188 ∷ 136 ∷ 102 ∷ 105
    ∷ 110 ∷ 105 ∷ 115 ∷ 104 ∷ 95 ∷ 114 ∷ 101 ∷ 97 ∷ 115 ∷ 111 ∷ 110 ∷ 61 ∷ 108 ∷ 101 ∷ 110 ∷ 103
    ∷ 116 ∷ 104 ∷ 239 ∷ 188 ∷ 137 ∷ 239 ∷ 188 ∷ 140 ∷ 229 ∷ 134 ∷ 133 ∷ 229 ∷ 174 ∷ 185 ∷ 229 ∷ 143
    ∷ 175 ∷ 232 ∷ 131 ∷ 189 ∷ 228 ∷ 184 ∷ 141 ∷ 229 ∷ 174 ∷ 140 ∷ 230 ∷ 149 ∷ 180 ∷ []

abbrev pub chunk_of : {J : Type 0} → ChunkType → Bytes → StreamChunk J
chunk_of type text = record {
  type = type;
  text = text;
  tool_call = none;
  usage = none;
  finish_reason = none;
}

unfoldable pub warn_truncated : {J S : Type 0} → (StreamChunk J → S → S) → Bytes → S → S
unfolding truncation_note
warn_truncated callback finish_reason s =
    if bytes_eq finish_reason (codes "length")
    then callback (chunk_of ChunkType.error_chunk truncation_note) s
    else s

-- What the streaming path makes of the end of `stream_chat`.
unfoldable pub settle :
    {J S : Type 0}
    → Bytes
    → (StreamChunk J → S → S)
    → Option ContextCompressor
    → TurnContext J S
    → StreamEnd
    → Gathered J
    → S
    → Outcome (Result (Unit {0})) × TurnContext J S × Option ContextCompressor × S
settle what callback compressor ctx interrupted_end g s =
    (returned (err (error_of ErrorCode.timeout (codes "stream interrupted"))), ctx, compressor, s)
settle what callback compressor ctx broken g s =
    (returned (err (net_error (codes "stream error: " ++ what) 0)), ctx, compressor, s)
settle what callback compressor ctx (ended (err e)) g s = (returned (err e), ctx, compressor, s)
settle what callback compressor ctx (ended (ok u)) g s =
    let response = record ctx.response {
      content = g.content;
      tool_calls = g.calls;
      stop_reason = stop_reason_of g;
    } in
    let answered = record ctx { response = response } in
    (
      returned (ok tt),
      answered,
      feed_back compressor response.usage,
      emit_llm_response answered (warn_truncated callback g.finish_reason s),
    )

-- The streaming path.
unfoldable pub stream_path :
    {J S : Type 0}
    → Bytes
    → Provider J S
    → (StreamChunk J → S → S)
    → Option ContextCompressor
    → TurnContext J S
    → List (Message J)
    → S
    → Outcome (Result (Unit {0})) × TurnContext J S × Option ContextCompressor × S
unfolding drive settle
stream_path what provider callback compressor ctx messages s =
    let (end, g, t) =
      drive ctx.interrupted callback (provider.stream_chat (request_of ctx messages) s)
        nothing_yet in
    settle what callback compressor ctx end g t

-- The chunks that the degraded path makes up.
unfoldable pub chunks_of : {J : Type 0} → LlmResponse J → List (StreamChunk J)
chunks_of r =
    (if is_empty r.content then [] else chunk_of ChunkType.content_chunk r.content ∷ [])
    ++ (map (λ tc. record (chunk_of ChunkType.tool_call_end []) { tool_call = some tc })
          r.tool_calls
        ++ chunk_of ChunkType.done_chunk [] ∷ [])

abbrev pub deliver : {J S : Type 0} → (StreamChunk J → S → S) → List (StreamChunk J) → S → S
deliver callback [] s = s
deliver callback (chunk ∷ chunks) s = deliver callback chunks (callback chunk s)

abbrev pub deliver_if :
    {J S : Type 0} → Option (StreamChunk J → S → S) → List (StreamChunk J) → S → S
deliver_if none chunks s = s
deliver_if (some callback) chunks s = deliver callback chunks s

-- The paths without streaming: the callback, if there is one, gets the made-up chunks.
unfoldable pub chat_path :
    {J S : Type 0}
    → Provider J S
    → Option (StreamChunk J → S → S)
    → Option ContextCompressor
    → TurnContext J S
    → List (Message J)
    → S
    → Outcome (Result (Unit {0})) × TurnContext J S × Option ContextCompressor × S
unfolding chunks_of
chat_path provider callback compressor ctx messages s =
    let (response, t) = provider.chat (request_of ctx messages) s in
    elim response [
      | err e ↦ (returned (err e), ctx, compressor, t)
      | ok r ↦
          let answered = record ctx { response = r } in
          let shown = deliver_if callback (chunks_of r) t in
          (
            returned (ok tt),
            answered,
            feed_back compressor r.usage,
            emit_llm_response answered shown,
          )
    ]

-- One of the three paths.
unfoldable pub call :
    {J S : Type 0}
    → Bytes
    → Provider J S
    → Option ContextCompressor
    → TurnContext J S
    → List (Message J)
    → S
    → Outcome (Result (Unit {0})) × TurnContext J S × Option ContextCompressor × S
unfolding stream_path chat_path
call what provider compressor ctx messages s = elim ctx.stream_callback [
  | none ↦ chat_path provider none compressor ctx messages s
  | some callback ↦
      if provider.capabilities.streaming
      then stream_path what provider callback compressor ctx messages s
      else chat_path provider (some callback) compressor ctx messages s
]

unfoldable pub execute :
    (L : JsonLib) {S : Type 0}
    → Bytes
    → Option (Provider L.Json S)
    → Option ContextCompressor
    → TurnContext L.Json S
    → S
    → Outcome (Result (Unit {0})) × TurnContext L.Json S × Option ContextCompressor × S
unfolding call compress_if_needed
execute L what summarizer compressor ctx s = elim ctx.provider [
  | none ↦ (
    returned (err (error_of ErrorCode.invalid_argument (codes "No provider configured"))),
    ctx,
    compressor,
    s,
  )
  | some provider ↦
      let (outcome, fitted, kept, t) =
        compress_if_needed L summarizer compressor ctx (full_messages ctx) s in
      elim outcome [
        | thrown ↦ (thrown, fitted, kept, t)
        | returned messages ↦
            call what provider kept fitted messages (emit_llm_request fitted messages t)
      ]
]
