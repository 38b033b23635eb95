-- ===== src/Provider/Reliable/Tests.antt =====
-- Providers that fail or answer by a script, and the theorems about retries and fallbacks with
-- them. The state is the number of calls so far; a pause leaves it alone.
use embedded_agent.Base.{
  ℕ, suc, ◌+◌, ◌≤◌, ◌≡◌, ◌≢◌, refl, true, false, [], ◌∷◌, codes, none, ltb, if◌then◌else◌,
}
use embedded_agent.Core.Error.{Error, Result, ok, err, is_ok, error_of, net_error, ErrorCode}
use embedded_agent.Core.Types.{LlmResponse}
use embedded_agent.Provider.Interface.{Provider, ProviderCapabilities, Request, close}
use embedded_agent.Core.Error.{returned}
use embedded_agent.Provider.ErrorClassifier.{ErrorClass, classify_error}
use embedded_agent.Provider.Reliable.{Config, try_with_retries, chat}
use embedded_agent.Provider.Reliable.Attempts.{try_with_retries_bounds}
use embedded_agent.Provider.Reliable.Fallbacks.{chat_falls_back}

abbrev answer : LlmResponse ℕ
answer = record {
  content = codes "hi";
  tool_calls = [];
  usage = record {
    input_tokens = 0;
    output_tokens = 0;
    cache_read_tokens = 0;
    cache_write_tokens = 0;
  };
  stop_reason = codes "stop";
}

abbrev plain : ProviderCapabilities
plain = record {
  native_tool_calling = true;
  streaming = false;
  vision = false;
  prompt_caching = false;
  extended_thinking = false;
}

abbrev scripted : (ℕ → Result (LlmResponse ℕ)) → Provider ℕ ℕ
scripted reply = record {
  name = codes "scripted";
  list_models = [];
  capabilities = plain;
  chat = λ req n. (reply n, suc n);
  stream_chat = λ req n. close (returned (ok tt)) n;
}

abbrev down : Error
down = net_error (codes "503") 503

abbrev denied : Error
denied = error_of ErrorCode.auth_error (codes "denied")

abbrev flaky : Provider ℕ ℕ
flaky = scripted (λ n. if ltb n 2 then err down else ok answer)

abbrev broken : Provider ℕ ℕ
broken = scripted (λ n. err down)

abbrev locked : Provider ℕ ℕ
locked = scripted (λ n. err denied)

abbrev healthy : Provider ℕ ℕ
healthy = scripted (λ n. ok answer)

abbrev config : Config ℕ ℕ
config = record {
  max_retries = 3;
  base_delay = 1000;
  scale = λ d. d + d;
  sleep = λ d n. n;
  fallbacks = broken ∷ healthy ∷ [];
}

abbrev hello : Request ℕ
hello = record {
  messages = [];
  tools = [];
  model = [];
  options = record { max_tokens = 0; stop = none; stream = false; route_hint = none };
}

recovers : try_with_retries config flaky hello 0 ≡ (ok answer, 3)
unfolding try_with_retries classify_error
recovers = refl

gives_up : try_with_retries config broken hello 0 ≡ (err down, 4)
unfolding try_with_retries classify_error
gives_up = refl

-- Four failures of the class `Retryable`: the healthy fallback is not asked.
not_saved : chat config broken hello 0 ≡ (err down, 4)
unfolding chat try_with_retries classify_error
not_saved = refl

denied_at_once : try_with_retries config locked hello 0 ≡ (err denied, 1)
unfolding try_with_retries classify_error
denied_at_once = refl

try_with_retries_bounds_example :
    (1 ≤ (try_with_retries config broken hello 0).1)
    × ((try_with_retries config broken hello 0).1 ≤ 0 + 4)
    × ((e : Error)
        → (try_with_retries config broken hello 0).0 ≡ err e
        → classify_error e ≢ ErrorClass.non_retryable
        → (try_with_retries config broken hello 0).1 ≡ 0 + 4)
    × ((t : ℕ) × ((try_with_retries config broken hello 0).0 ≡ (broken.chat hello t).0))
try_with_retries_bounds_example =
    try_with_retries_bounds config broken hello (λ n. n) 0 (λ t. refl) (λ d t. refl)

chat_in_vain : chat (record config { fallbacks = [] }) locked hello 0 ≡ (err denied, 1)
unfolding chat try_with_retries classify_error
chat_in_vain = refl

chat_falls_back_example : is_ok (chat config locked hello 0).0 ≡ true
unfolding try_with_retries classify_error
chat_falls_back_example =
    chat_falls_back config locked hello 0 (broken ∷ []) [] healthy denied refl (λ t. refl) refl
      (λ e. cc)
