-- ===== src/Agent/Steps/CallProvider/Streams.antt =====
-- What the streaming path makes of the chunks, and how the degraded path imitates them.
use embedded_agent.Base.{
  ◌≡◌, refl, ap, ◌∙◌, ◌⊎◌, Bytes, Bool, Option, some, List, [], ◌∷◌, ◌++◌, append-nil, map,
  is_empty, if◌then◌else◌,
}
use embedded_agent.Core.Error.{Error, Result, ok, err, Outcome, returned}
use embedded_agent.Core.Types.{ToolCall, LlmResponse, StreamChunk, ChunkType}
use embedded_agent.Provider.Interface.{Provider, Stream, emit, close}
use embedded_agent.Agent.ContextCompressor.{ContextCompressor}
use embedded_agent.Agent.TurnContext.{TurnContext}
use embedded_agent.Agent.Steps.CallProvider.{is_content, ended_calls, chunks_of, chunk_of}

-- The texts of the content chunks, joined.
abbrev pub content_of : {J : Type 0} → List (StreamChunk J) → Bytes
content_of [] = []
content_of (chunk ∷ chunks) =
    (if is_content chunk.type then chunk.text else []) ++ content_of chunks

-- The calls of the chunks that end one.
abbrev pub calls_of : {J : Type 0} → List (StreamChunk J) → List (ToolCall J)
calls_of [] = []
calls_of (chunk ∷ chunks) = ended_calls chunk ++ calls_of chunks

-- The chunks that the user's callback gets to see.
abbrev pub delivered :
    {J S : Type 0} → (S → Bool) → (StreamChunk J → S → S) → Stream J S → List (StreamChunk J)
delivered interrupted callback (emit chunk s next) =
    let more = delivered interrupted callback (next (callback chunk s)) in
    if interrupted s then [] else chunk ∷ more
delivered interrupted callback (close outcome s) = []

-- The context after an answer that the chunks make up: nothing but the response is new.
unfoldable pub IsAnswerOf :
    {J S : Type 0} → TurnContext J S → Bytes → List (ToolCall J) → TurnContext J S → Type 0
IsAnswerOf ctx content calls answered = answered ≡ record ctx {
  response = record ctx.response {
    content = content;
    tool_calls = calls;
    stop_reason = answered.response.stop_reason;
  };
}

-- A result of the step: an error that changes nothing, or an answer.
unfoldable pub IsAnswerOrError :
    {J S : Type 0}
    → Option ContextCompressor
    → TurnContext J S
    → Bytes
    → List (ToolCall J)
    → Outcome (Result (Unit {0})) × TurnContext J S × Option ContextCompressor × S
    → Type 0
unfolding IsAnswerOf
IsAnswerOrError compressor ctx content calls (outcome, after, kept, s) =
    ((e : Error) × (outcome ≡ returned (err e)) × (after ≡ ctx) × (kept ≡ compressor))
    ⊎ ((outcome ≡ returned (ok tt)) × IsAnswerOf ctx content calls after)

calls_of-ended :
    {J : Type 0} (calls : List (ToolCall J)) (rest : List (StreamChunk J))
    → (content_of (
          map (λ tc. record (chunk_of ChunkType.tool_call_end []) { tool_call = some tc }) calls
          ++ rest)
        ≡ content_of rest)
      × (calls_of (
            map (λ tc. record (chunk_of ChunkType.tool_call_end []) { tool_call = some tc }) calls
            ++ rest)
          ≡ calls ++ calls_of rest)
calls_of-ended [] rest = (refl, refl)
calls_of-ended (tc ∷ calls) rest =
    let more = calls_of-ended calls rest in (more.0, ap (◌∷◌ tc) more.1)

text-chunk :
    {J : Type 0} (text : Bytes) (rest : List (StreamChunk J))
    → (content_of
          ((if is_empty text then [] else chunk_of ChunkType.content_chunk text ∷ []) ++ rest)
        ≡ text ++ content_of rest)
      × (calls_of
            ((if is_empty text then [] else chunk_of ChunkType.content_chunk text ∷ []) ++ rest)
          ≡ calls_of rest)
text-chunk [] rest = (refl, refl)
text-chunk (c ∷ text) rest = (refl, refl)

-- The chunks that the degraded path makes up for the callback tell the same as the response: their content
-- is its content and their calls are its calls.
pub chunks_of-content-calls :
    {J : Type 0} (r : LlmResponse J)
    → (content_of (chunks_of r) ≡ r.content) × (calls_of (chunks_of r) ≡ r.tool_calls)
unfolding chunks_of
chunks_of-content-calls r =
    let done = chunk_of ChunkType.done_chunk [] ∷ [] in
    let told = calls_of-ended r.tool_calls done in
    let text = text-chunk r.content (
      map (λ tc. record (chunk_of ChunkType.tool_call_end []) { tool_call = some tc }) r.tool_calls
      ++ done) in
    (
      text.0 ∙ ap (λ x. r.content ++ x) told.0 ∙ append-nil r.content,
      text.1 ∙ told.1 ∙ append-nil r.tool_calls,
    )
