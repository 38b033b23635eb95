-- ===== src/Agent/Steps/Offers.antt =====
-- The tools that the model is shown in the plan mode are tools that it may call there.
use embedded_agent.Base.{
  ◌⊎◌, not, ◌≡◌, ◌≢◌, subst, Bytes, Bool, true, false, Option-cases, Bool-cases, inl, inr, List, [],
  ◌∷◌, codes, arith, map, keep, bytes_eq, bytes_eq_iff,
}
use embedded_agent.Base.Map.{set_has}
use embedded_agent.Core.Error.{returned}
use embedded_agent.Core.Json.{JsonLib}
use embedded_agent.Core.Types.{ToolCall, ToolSpec}
use embedded_agent.Tool.Registry.{ToolRegistry, find, active_specs}
use embedded_agent.Agent.PermissionMode.{is_plan}
use embedded_agent.Agent.TurnContext.{TurnContext}
use embedded_agent.Agent.Steps.BuildToolSpecs.{visible_in_plan, specs_for}
use embedded_agent.Agent.Steps.ExecuteTools.Guards.{plan_mode_allows}

set_has-keep :
    {J : Type 0} (v : Bytes → Bool) (n : Bytes) (specs : List (ToolSpec J))
    → set_has n (map (λ spec. spec.name) (keep (λ spec. v spec.name) specs)) ≡ true
    → v n ≡ true
unfolding set_has
set_has-keep v n [] h = cc
set_has-keep v n (spec ∷ specs) h = elim (Bool-cases (v spec.name)) [
  | inl q ↦ elim (Bool-cases (bytes_eq spec.name n)) [
    | inl e ↦ subst (λ x. v x ≡ true) ((bytes_eq_iff spec.name n).0 e) q
    | inr e ↦ set_has-keep v n specs (ground arith)
  ]
  | inr q ↦ set_has-keep v n specs (ground arith)
]

visible-allowed :
    (L : JsonLib) {S : Type 0} (normalize : Bytes → Bytes) (ctx : TurnContext L.Json S)
    (r : ToolRegistry L.Json S) (tc : ToolCall L.Json)
    → visible_in_plan r tc.name ≡ true
    → tc.name ≢ codes "file"
    → plan_mode_allows L normalize ctx tc (find r tc.name) ≡ returned true
unfolding visible_in_plan plan_mode_allows
visible-allowed L normalize ctx r tc v h =
    ground (arith, bytes_eq_iff tc.name (codes "file"), Option-cases (find r tc.name))

-- In the plan mode, a call of a tool that `BuildToolSpecsStep` has offered is one that
-- `ExecuteToolsStep` lets pass, whatever its arguments; the tool "file" is the exception, where the
-- arguments decide. Outside the plan mode "plan_exit" is not offered.
pub offered-allowed :
    (L : JsonLib) {S : Type 0} (normalize : Bytes → Bytes) (ctx : TurnContext L.Json S)
    (r : ToolRegistry L.Json S) (s : S) (tc : ToolCall L.Json)
    → set_has tc.name (map (λ spec. spec.name) (specs_for ctx r s)) ≡ true
    → tc.name ≢ codes "file"
    → ((is_plan ctx.permission_mode ≡ true)
        × (plan_mode_allows L normalize ctx tc (find r tc.name) ≡ returned true))
      ⊎ ((is_plan ctx.permission_mode ≡ false) × (tc.name ≢ codes "plan_exit"))
unfolding specs_for
offered-allowed L normalize ctx r s tc h f = elim (Bool-cases (is_plan ctx.permission_mode)) [
  | inl p ↦ inl (
    p,
    visible-allowed L normalize ctx r tc
        (set_has-keep (visible_in_plan r) tc.name (active_specs r s) (ground arith)) f,
  )
  | inr p ↦ inr (
    p,
    λ e. ground (
      arith,
      bytes_eq_iff tc.name (codes "plan_exit"),
      set_has-keep (λ n. not (bytes_eq n (codes "plan_exit"))) tc.name (active_specs r s)
          (ground arith),
    ),
  )
]
