-- ===== src/Provider/Router/Routes.antt =====
-- Which route a hint takes, and what the router says of its providers.
use embedded_agent.Base.{
  ◌≡◌, ◌≢◌, refl, Bytes, Bool, true, false, ◌||◌, Option, none, some, List, [], ◌∷◌, ◌++◌,
  bytes_eq_iff, arith, All,
}
use embedded_agent.Core.Types.{ChatOptions}
use embedded_agent.Provider.Interface.{Provider, ProviderCapabilities, default_capabilities}
use embedded_agent.Provider.Router.{
  Config, RouteRule, find_rule, resolve, merge, merge_rules, capabilities,
}

module _ {J S : Type 0} where
  -- The rule is not for the hint.
  abbrev pub Misses : Bytes → RouteRule J S → Type 0
  Misses hint r = r.model_hint ≢ hint

  find_rule_first :
      (hint : Bytes) (before after : List (RouteRule J S)) (r : RouteRule J S)
      → All (Misses hint) before
      → r.model_hint ≡ hint
      → find_rule hint (before ++ r ∷ after) ≡ some r
  unfolding find_rule
  find_rule_first hint [] after r h e = ground (arith, bytes_eq_iff r.model_hint hint)
  find_rule_first hint (b ∷ before) after r h e =
      ground (arith, bytes_eq_iff b.model_hint hint, find_rule_first hint before after r h.1 e)

  find_rule-none :
      (hint : Bytes) (rules : List (RouteRule J S))
      → All (Misses hint) rules
      → find_rule hint rules ≡ none
  unfolding find_rule
  find_rule-none hint [] h = refl
  find_rule-none hint (r ∷ rs) h =
      ground (arith, bytes_eq_iff r.model_hint hint, find_rule-none hint rs h.1)

  -- The route of a hint is that of the first rule with it; with no such rule it is the default
  -- provider with no model of its own.
  pub resolve_first :
      (c : Config J S) (opts : ChatOptions) (hint : Bytes)
      → opts.route_hint ≡ some hint
      → ((before after : List (RouteRule J S)) (r : RouteRule J S)
          → c.rules ≡ before ++ r ∷ after
          → All (Misses hint) before
          → r.model_hint ≡ hint
          → resolve c opts ≡ record { provider = r.provider; model = r.model })
        × (All (Misses hint) c.rules
            → resolve c opts ≡ record { provider = c.default_provider; model = [] })
  unfolding resolve
  resolve_first c opts hint h = (
    (λ before after r at miss hit. ground (arith, find_rule_first hint before after r miss hit)),
    λ miss. ground (arith, find_rule-none hint c.rules miss),
  )

  -- Some provider of the router has the flag.
  abbrev has_flag : (ProviderCapabilities → Bool) → Option (Provider J S) → Bool
  has_flag f none = false
  has_flag f (some p) = f p.capabilities

  abbrev any_rule : (ProviderCapabilities → Bool) → List (RouteRule J S) → Bool
  any_rule f [] = false
  any_rule f (r ∷ rs) = has_flag f r.provider || any_rule f rs

  abbrev pub any_provider : (ProviderCapabilities → Bool) → Config J S → Bool
  any_provider f c = has_flag f c.default_provider || any_rule f c.rules

  -- Each flag of the merged capabilities is that of the start or of some rule's provider.
  merge_rules_fields :
      (start : ProviderCapabilities) (rs : List (RouteRule J S))
      → ((merge_rules start rs).vision ≡ (start.vision || any_rule (λ k. k.vision) rs))
        × ((merge_rules start rs).prompt_caching
            ≡ (start.prompt_caching || any_rule (λ k. k.prompt_caching) rs))
        × ((merge_rules start rs).extended_thinking
            ≡ (start.extended_thinking || any_rule (λ k. k.extended_thinking) rs))
        × ((merge_rules start rs).streaming ≡ (start.streaming || any_rule (λ k. k.streaming) rs))
        × ((merge_rules start rs).native_tool_calling
            ≡ (start.native_tool_calling || any_rule (λ k. k.native_tool_calling) rs))
  unfolding merge_rules
  merge_rules_fields start [] = ground arith
  merge_rules_fields start (r ∷ rs) = ground (arith, merge_rules_fields (merge start r.provider) rs)

  -- Vision, prompt caching and extended thinking are the union of what the providers can do. But
  -- native tool calling and streaming are reported whatever the providers can do, by a router with
  -- no provider too.
  pub capabilities_union :
      (c : Config J S)
      → ((capabilities c).vision ≡ any_provider (λ k. k.vision) c)
        × ((capabilities c).prompt_caching ≡ any_provider (λ k. k.prompt_caching) c)
        × ((capabilities c).extended_thinking ≡ any_provider (λ k. k.extended_thinking) c)
        × ((capabilities c).streaming ≡ true)
        × ((capabilities c).native_tool_calling ≡ true)
  unfolding capabilities
  capabilities_union c =
      ground (arith, merge_rules_fields (merge default_capabilities c.default_provider) c.rules)
