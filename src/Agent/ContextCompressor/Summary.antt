-- ===== src/Agent/ContextCompressor/Summary.antt =====
-- `summarize` and `static_fallback_summary` of src/agent/ContextCompressor.cpp.
use embedded_agent.Base.{
  ℕ, zero, suc, ◌+◌, ◌-◌, Bytes, false, Option, none, some, List, [], ◌∷◌, ◌++◌, codes, em_dash,
  length, take, drop, leb, is_empty, if◌then◌else◌,
}
use embedded_agent.Core.Error.{Result, ok, err, error_of, ErrorCode, Outcome, returned, thrown}
use embedded_agent.Core.Json.{JsonLib}
use embedded_agent.Core.Types.{Message, Role, ToolCall, ChatOptions, plain_message}
use embedded_agent.Provider.Interface.{Provider, Request}
use embedded_agent.Agent.ContextCompressor.{ContextCompressor}

unfoldable pub truncate_middle : Bytes → ℕ → ℕ → ℕ → Bytes
truncate_middle s max_chars head_chars tail_chars =
    if leb (length s) max_chars
    then s
    else if leb (length s) (head_chars + tail_chars)
    then s
    else take head_chars s ++ codes "\n...[truncated]...\n" ++ drop (length s - tail_chars) s

abbrev role_label : Role → Bytes
role_label Role.system = codes "System"
role_label Role.user = codes "User"
role_label Role.assistant = codes "Assistant"
role_label Role.tool = codes "Tool"

-- The lines of the tool calls; the conversion of the arguments to a string may throw.
unfoldable pub calls_text : (L : JsonLib) → List (ToolCall L.Json) → Outcome Bytes
unfolding truncate_middle
calls_text L [] = returned []
calls_text L (tc ∷ calls) = elim (L.to_string tc.arguments) [
  | thrown ↦ thrown
  | returned args ↦ elim (calls_text L calls) [
    | thrown ↦ thrown
    | returned rest ↦ returned (
        codes "  tool_call "
        ++ tc.name
        ++ codes "("
        ++ truncate_middle args 1500 1200 0
        ++ codes ")\n"
        ++ rest)
  ]
]

abbrev tool_calls_text : (L : JsonLib) → Option (List (ToolCall L.Json)) → Outcome Bytes
tool_calls_text L none = returned []
tool_calls_text L (some calls) = calls_text L calls

-- The loop over the messages that are summarised.
unfoldable pub middle_text : (L : JsonLib) → List (Message L.Json) → Outcome Bytes
unfolding calls_text truncate_middle
middle_text L [] = returned []
middle_text L (msg ∷ middle) = elim (tool_calls_text L msg.tool_calls) [
  | thrown ↦ thrown
  | returned calls ↦ elim (middle_text L middle) [
    | thrown ↦ thrown
    | returned rest ↦ returned (
        role_label msg.role
        ++ codes ": "
        ++ truncate_middle msg.content 6000 4000 1500
        ++ codes "\n\n"
        ++ calls
        ++ rest)
  ]
]

-- What the prompt says before the messages.
unfoldable pub prompt_head : Bytes → Bytes → Bytes
prompt_head focus_topic previous_summary =
    codes
      "Summarize the following conversation concisely, preserving key facts, decisions, and outcomes. Omit greetings and repetitions.\n"
    ++ (if is_empty focus_topic then [] else codes "Focus on: " ++ focus_topic ++ codes "\n")
    ++ (if is_empty previous_summary
        then []
        else codes "Previous summary (update it with the new turns below):\n"
          ++ previous_summary
          ++ codes "\n\n")

-- `ChatOptions{}`; its `temperature` and `top_p` are not modelled.
abbrev pub default_options : ChatOptions
default_options = record { max_tokens = 0; stop = none; stream = false; route_hint = none }

abbrev summary_request : {J : Type 0} → Bytes → Request J
summary_request prompt = record {
  messages =
      plain_message Role.system (codes "You are a conversation summarizer. Be concise and factual.")
      ∷ plain_message Role.user prompt
      ∷ [];
  tools = [];
  model = [];
  options = default_options;
}

unfoldable pub summarize :
    (L : JsonLib) {S : Type 0}
    → Option (Provider L.Json S)
    → ContextCompressor
    → List (Message L.Json)
    → Bytes
    → S
    → Outcome (Result Bytes) × ContextCompressor × S
unfolding middle_text prompt_head
summarize L none c middle focus_topic s = (
  returned (err (error_of ErrorCode.invalid_argument (codes "No provider for summarization"))),
  c,
  s,
)
summarize L (some provider) c middle focus_topic s = elim (middle_text L middle) [
  | thrown ↦ (thrown, c, s)
  | returned text ↦
      let (response, t) =
        provider.chat (summary_request (prompt_head focus_topic c.previous_summary ++ text)) s in
      elim response [
        | err e ↦ (returned (err e), c, t)
        | ok r ↦ (returned (ok r.content), record c { previous_summary = r.content }, t)
      ]
]

abbrev pub role_word : Role → Bytes
role_word Role.system = codes "system"
role_word Role.user = codes "user"
role_word Role.assistant = codes "assistant"
role_word Role.tool = codes "tool"

-- The loop over the messages from the last one on, with the places that are left of the 8.
unfoldable pub fallback_lines : {J : Type 0} → ℕ → List (Message J) → Bytes
fallback_lines zero newest = []
fallback_lines (suc left) [] = []
fallback_lines (suc left) (msg ∷ newest) =
    role_word msg.role
    ++ codes ": "
    ++ take 300 msg.content
    ++ codes "\n"
    ++ fallback_lines left newest

abbrev pub backwards {ℓ} : {A : Type ℓ} → List A → List A → List A
backwards [] done = done
backwards (x ∷ xs) done = backwards xs (x ∷ done)

unfoldable pub static_fallback_summary : {J : Type 0} → List (Message J) → Bytes
unfolding fallback_lines
static_fallback_summary middle =
    codes "[Summary unavailable "
    ++ em_dash
    ++ codes " deterministic fallback]\n"
    ++ fallback_lines 8 (backwards middle [])
