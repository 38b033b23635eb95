-- ===== src/Core/Types.antt =====
-- src/base/Types.h. `J` is the JSON type.
use embedded_agent.Base.{ℕ, Bytes, Bool, Option, List, ◌||◌, codes, bytes_eq, none, []}

pub data Role : Type 0 where
  system user assistant tool : Role

pub record ToolCall (J : Type 0) : Type 0 where
  pub id : Bytes
  pub name : Bytes
  pub arguments : J

pub record Message (J : Type 0) : Type 0 where
  pub role : Role
  pub content : Bytes
  pub name : Option Bytes
  pub tool_calls : Option (List (ToolCall J))
  pub tool_call_id : Option Bytes
  pub mode : Bytes
  pub plan_file : Bytes

-- `Message{role, content, nullopt, nullopt, nullopt}`
abbrev pub plain_message : {J : Type 0} → Role → Bytes → Message J
plain_message role content = record {
  role = role;
  content = content;
  name = none;
  tool_calls = none;
  tool_call_id = none;
  mode = [];
  plan_file = [];
}

pub record Usage : Type 0 where
  pub input_tokens : ℕ
  pub output_tokens : ℕ
  pub cache_read_tokens : ℕ
  pub cache_write_tokens : ℕ

pub record LlmResponse (J : Type 0) : Type 0 where
  pub content : Bytes
  pub tool_calls : List (ToolCall J)
  pub usage : Usage
  pub stop_reason : Bytes

unfoldable pub is_tool_use : {J : Type 0} → LlmResponse J → Bool
is_tool_use r =
    bytes_eq r.stop_reason (codes "tool_use") || bytes_eq r.stop_reason (codes "tool_calls")

pub data ChunkType : Type 0 where
  content_chunk tool_call_begin tool_call_delta tool_call_end done_chunk error_chunk : ChunkType

pub record StreamChunk (J : Type 0) : Type 0 where
  pub type : ChunkType
  pub text : Bytes
  pub tool_call : Option (ToolCall J)
  pub usage : Option Usage
  pub finish_reason : Option Bytes

pub record ToolSpec (J : Type 0) : Type 0 where
  pub name : Bytes
  pub description : Bytes
  pub parameters : J

pub record ToolResult : Type 0 where
  pub call_id : Bytes
  pub output : Bytes
  pub is_error : Bool

-- `temperature` and `top_p`, which only the HTTP providers read, are left out.
pub record ChatOptions : Type 0 where
  pub max_tokens : ℕ
  pub stop : Option Bytes
  pub stream : Bool
  pub route_hint : Option Bytes
