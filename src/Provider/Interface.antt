-- ===== src/Provider/Interface.antt =====
-- src/provider/IProvider.h and ProviderCapabilities.h. `J` is the JSON type, `S` the state of
-- everything outside: a provider is a record of functions that read and change it.
use embedded_agent.Base.{Bytes, Bool, true, false, List}
use embedded_agent.Core.Error.{Result, Outcome}
use embedded_agent.Core.Types.{Message, ToolSpec, LlmResponse, StreamChunk, ChatOptions}

pub record ProviderCapabilities : Type 0 where
  pub native_tool_calling : Bool
  pub streaming : Bool
  pub vision : Bool
  pub prompt_caching : Bool
  pub extended_thinking : Bool

-- `ProviderCapabilities{}`
abbrev pub default_capabilities : ProviderCapabilities
default_capabilities = record {
  native_tool_calling = true;
  streaming = true;
  vision = false;
  prompt_caching = false;
  extended_thinking = false;
}

-- The arguments of `chat`.
pub record Request (J : Type 0) : Type 0 where
  pub messages : List (Message J)
  pub tools : List (ToolSpec J)
  pub model : Bytes
  pub options : ChatOptions

-- A call of `stream_chat`: the provider calls `on_chunk` in the state `s`, goes on from the state
-- in which the callback returns, and ends with a result or an exception.
pub data Stream (J S : Type 0) : Type 0 where
  emit : StreamChunk J → S → (S → Stream J S) → Stream J S
  close : Outcome (Result (Unit {0})) → S → Stream J S

-- `chat` is taken to return a result always, and not to throw.
pub record Provider (J S : Type 0) : Type 0 where
  pub name : Bytes
  pub list_models : List Bytes
  pub capabilities : ProviderCapabilities
  pub chat : Request J → S → Result (LlmResponse J) × S
  pub stream_chat : Request J → S → Stream J S
