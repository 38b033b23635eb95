-- ===== src/Agent/Loop/DefaultSteps.antt =====
-- src/agent/AgentLoop.cpp: the step chain that the constructor builds, over what the steps share.
use embedded_agent.Base.{Bytes, Option, none, List, [], ◌∷◌}
use embedded_agent.Core.Json.{JsonLib}
use embedded_agent.Provider.Interface.{Provider}
use embedded_agent.Security.Policy.{SecurityPolicy}
use embedded_agent.Agent.TurnContext.{Step}
use embedded_agent.Agent.Steps.BuildToolSpecs
use embedded_agent.Agent.Steps.CallProvider
use embedded_agent.Agent.Steps.ParseResponse
use embedded_agent.Agent.Steps.ExecuteTools
use embedded_agent.Agent.Steps.LoopDetect
use embedded_agent.Agent.Steps.CollectResults
use embedded_agent.Agent.Loop.Run.{World}

module _ (L : JsonLib) {S : Type 0} where
  -- `CallProviderStep(compressor_)`
  unfoldable pub call_provider_step :
      Bytes → Option (Provider L.Json (World L.Json S)) → Step L.Json (World L.Json S)
  unfolding CallProvider.execute
  call_provider_step what summarizer ctx w =
      let (outcome, after, compressor, v) =
        CallProvider.execute L what summarizer w.0.compressor ctx w in
      (outcome, after, (record v.0 { compressor = compressor }, v.1))

  -- `LoopDetectStep(loop_detector_)`, without a `warn_`
  unfoldable pub loop_detect_step : Step L.Json (World L.Json S)
  unfolding LoopDetect.execute
  loop_detect_step ctx w =
      let (outcome, after, v, detector) = LoopDetect.execute L none w.0.loop_detector ctx w in
      (outcome, after, (record v.0 { loop_detector = detector }, v.1))

  unfoldable pub default_steps :
      Bytes
      → Option (Provider L.Json (World L.Json S))
      → (World L.Json S → Bytes → Bytes)
      → Option SecurityPolicy
      → ExecuteTools.Approval L.Json (World L.Json S)
      → List (Step L.Json (World L.Json S))
  unfolding BuildToolSpecs.execute call_provider_step ParseResponse.execute ExecuteTools.execute
      loop_detect_step CollectResults.execute
  default_steps what summarizer normalize policy approval =
      BuildToolSpecs.execute
      ∷ call_provider_step what summarizer
      ∷ ParseResponse.execute
      ∷ ExecuteTools.execute L normalize policy approval
      ∷ loop_detect_step
      ∷ CollectResults.execute
      ∷ []
