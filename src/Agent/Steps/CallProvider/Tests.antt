-- ===== src/Agent/Steps/CallProvider/Tests.antt =====
-- A stream of two texts and a call, and a provider that streams it.
use embedded_agent.Base.{ℕ, suc, ◌≡◌, Bytes, some, [], ◌∷◌, codes}
use embedded_agent.Core.Error.{ok, returned}
use embedded_agent.Core.Types.{StreamChunk, ChunkType, ToolCall, LlmResponse}
use embedded_agent.Provider.Interface.{Provider, Stream, emit, close, default_capabilities}
use embedded_agent.Agent.PermissionMode.{PermissionMode}
use embedded_agent.Agent.Steps.CallProvider.{chunk_of, chunks_of}
use embedded_agent.Agent.Steps.CallProvider.Streams.{content_of, calls_of, chunks_of-content-calls}

abbrev look_call : ToolCall Bytes
look_call = record { id = codes "1"; name = codes "look"; arguments = codes "{}" }

abbrev answer : LlmResponse Bytes
answer = record {
  content = codes "hello";
  tool_calls = look_call ∷ [];
  usage = record {
    input_tokens = 3;
    output_tokens = 1;
    cache_read_tokens = 0;
    cache_write_tokens = 0;
  };
  stop_reason = codes "stop";
}

abbrev three_chunks : ℕ → Stream Bytes ℕ
three_chunks s = emit (chunk_of ChunkType.content_chunk (codes "hel")) s (λ t.
    emit (chunk_of ChunkType.content_chunk (codes "lo")) t (λ u.
      emit (record (chunk_of ChunkType.tool_call_end []) { tool_call = some look_call }) u
        (λ v. close (returned (ok tt)) v)))

abbrev streamer : Provider Bytes ℕ
streamer = record {
  name = codes "p";
  list_models = [];
  capabilities = default_capabilities;
  chat = λ request s. (ok answer, s);
  stream_chat = λ request s. three_chunks s;
}

-- The callback counts the chunks.
abbrev count : StreamChunk Bytes → ℕ → ℕ
count chunk s = suc s

chunks_of-content-calls_example :
    (content_of (chunks_of answer) ≡ codes "hello") × (calls_of (chunks_of answer) ≡ look_call ∷ [])
chunks_of-content-calls_example = chunks_of-content-calls answer
