-- ===== src/Provider/Router.antt =====
-- src/provider/RouterProvider.cpp: a provider for each hint.
pub mod Routes
mod Tests
use embedded_agent.Base.{
  ℕ, Bytes, Bool, ◌||◌, Option, none, some, List, [], ◌∷◌, ◌++◌, codes, is_empty, bytes_eq, false,
  if◌then◌else◌,
}
use embedded_agent.Core.Error.{Result, ok, err, net_error, Outcome, returned}
use embedded_agent.Core.Types.{ChatOptions, LlmResponse}
use embedded_agent.Provider.Interface.{
  Provider, ProviderCapabilities, default_capabilities, Request, Stream, close,
}

-- A null pointer is `none`.
pub record RouteRule (J S : Type 0) : Type 0 where
  pub model_hint : Bytes
  pub provider_type : Bytes
  pub model : Bytes
  pub provider : Option (Provider J S)

pub record ResolvedRoute (J S : Type 0) : Type 0 where
  pub provider : Option (Provider J S)
  pub model : Bytes

pub record Config (J S : Type 0) : Type 0 where
  pub default_provider : Option (Provider J S)
  pub rules : List (RouteRule J S)

-- `model.empty() ? route.model : model`
abbrev pub effective : {J : Type 0} → Request J → Bytes → Request J
effective req route_model = if is_empty req.model then record req { model = route_model } else req

module _ {J S : Type 0} where
  -- The loop of `resolve` over the rules: the first rule with the hint.
  pub find_rule : Bytes → List (RouteRule J S) → Option (RouteRule J S)
  find_rule hint [] = none
  find_rule hint (r ∷ rs) =
      let later = find_rule hint rs in if bytes_eq r.model_hint hint then some r else later

  unfoldable pub resolve : Config J S → ChatOptions → ResolvedRoute J S
  unfolding find_rule
  resolve c opts = elim opts.route_hint [
    | none ↦ record { provider = c.default_provider; model = [] }
    | some hint ↦ elim (find_rule hint c.rules) [
      | none ↦ record { provider = c.default_provider; model = [] }
      | some r ↦ record { provider = r.provider; model = r.model }
    ]
  ]

  unfoldable pub chat : Config J S → Request J → S → Result (LlmResponse J) × S
  unfolding resolve
  chat c req s = elim (resolve c req.options).provider [
    | none ↦ (err (net_error (codes "No provider available for route") 0), s)
    | some p ↦ p.chat (effective req (resolve c req.options).model) s
  ]

  unfoldable pub stream_chat : Config J S → Request J → S → Stream J S
  unfolding resolve
  stream_chat c req s = elim (resolve c req.options).provider [
    | none ↦ close (returned (err (net_error (codes "No provider available for route") 0))) s
    | some p ↦ p.stream_chat (effective req (resolve c req.options).model) s
  ]

  models_of : Option (Provider J S) → List Bytes
  models_of none = []
  models_of (some p) = p.list_models

  rule_models : List (RouteRule J S) → List Bytes
  unfolding models_of
  rule_models [] = []
  rule_models (r ∷ rs) = models_of r.provider ++ rule_models rs

  unfoldable pub list_models : Config J S → List Bytes
  unfolding rule_models
  list_models c = models_of c.default_provider ++ rule_models c.rules

  pub merge : ProviderCapabilities → Option (Provider J S) → ProviderCapabilities
  merge result none = result
  merge result (some p) =
      let c = p.capabilities in
      record {
        native_tool_calling = result.native_tool_calling || c.native_tool_calling;
        streaming = result.streaming || c.streaming;
        vision = result.vision || c.vision;
        prompt_caching = result.prompt_caching || c.prompt_caching;
        extended_thinking = result.extended_thinking || c.extended_thinking;
      }

  pub merge_rules : ProviderCapabilities → List (RouteRule J S) → ProviderCapabilities
  unfolding merge
  merge_rules result [] = result
  merge_rules result (r ∷ rs) = merge_rules (merge result r.provider) rs

  -- The accumulator starts with the defaults of the struct.
  unfoldable pub capabilities : Config J S → ProviderCapabilities
  unfolding merge_rules
  capabilities c = merge_rules (merge default_capabilities c.default_provider) c.rules
