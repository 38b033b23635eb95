-- ===== src/Provider/Router/Tests.antt =====
-- A router with two rules, and the theorems about it.
use embedded_agent.Base.{◌≡◌, refl, ℕ, Bytes, true, false, none, some, [], ◌∷◌, codes, bytes_eq}
use embedded_agent.Core.Error.{ok, err, error_of, ErrorCode, returned, net_error}
use embedded_agent.Core.Types.{ChatOptions}
use embedded_agent.Provider.Interface.{Provider, ProviderCapabilities, Request, close}
use embedded_agent.Provider.Router.{Config, RouteRule, capabilities, list_models, chat}
use embedded_agent.Provider.Router.Routes.{any_provider, capabilities_union}

abbrev mute : ProviderCapabilities
mute = record {
  native_tool_calling = false;
  streaming = false;
  vision = false;
  prompt_caching = false;
  extended_thinking = false;
}

abbrev mute_provider : Provider ℕ ℕ
mute_provider = record {
  name = codes "mute";
  list_models = codes "m1" ∷ [];
  capabilities = mute;
  chat = λ req n. (err (error_of ErrorCode.auth_error []), n);
  stream_chat = λ req n. close (returned (ok tt)) n;
}

abbrev rule_for : Bytes → Bytes → RouteRule ℕ ℕ
rule_for hint model = record {
  model_hint = hint;
  provider_type = [];
  model = model;
  provider = some mute_provider;
}

abbrev router : Config ℕ ℕ
router = record {
  default_provider = none;
  rules = rule_for (codes "code") (codes "big") ∷ rule_for (codes "fast") (codes "small") ∷ [];
}

abbrev fast : ChatOptions
fast = record { max_tokens = 0; stop = none; stream = false; route_hint = some (codes "fast") }

abbrev unrouted : Request ℕ
unrouted = record {
  messages = [];
  tools = [];
  model = [];
  options = record fast { route_hint = some (codes "cheap") };
}

no_provider :
    chat router unrouted 0 ≡ (err (net_error (codes "No provider available for route") 0), 0)
unfolding chat bytes_eq
no_provider = refl

lists_all : list_models router ≡ codes "m1" ∷ codes "m1" ∷ []
unfolding list_models
lists_all = refl

capabilities_union_example :
    ((capabilities router).vision ≡ any_provider (λ k. k.vision) router)
    × ((capabilities router).prompt_caching ≡ any_provider (λ k. k.prompt_caching) router)
    × ((capabilities router).extended_thinking ≡ any_provider (λ k. k.extended_thinking) router)
    × ((capabilities router).streaming ≡ true)
    × ((capabilities router).native_tool_calling ≡ true)
capabilities_union_example = capabilities_union router
