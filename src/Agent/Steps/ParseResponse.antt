-- ===== src/Agent/Steps/ParseResponse.antt =====
-- src/agent/steps/ParseResponseStep.h
use embedded_agent.Base.{true, not, ◌||◌, some, is_empty, if◌then◌else◌}
use embedded_agent.Core.Error.{ok, returned}
use embedded_agent.Core.Types.{Message, Role, LlmResponse, is_tool_use, plain_message}
use embedded_agent.Agent.TurnContext.{Step}
use embedded_agent.Agent.Steps.CollectResults.{append_message}

unfoldable pub assistant_message : {J : Type 0} → LlmResponse J → Message J
assistant_message r =
    if is_empty r.tool_calls
    then plain_message Role.assistant r.content
    else record (plain_message Role.assistant r.content) { tool_calls = some r.tool_calls }

unfoldable pub execute : {J S : Type 0} → Step J S
unfolding assistant_message
execute ctx s =
    let (messages, t) = append_message ctx (assistant_message ctx.response) ctx.messages s in
    let said = record ctx { messages = messages } in
    (
      returned (ok tt),
      if not (is_tool_use ctx.response) || is_empty ctx.response.tool_calls
          then record said { should_stop = true }
          else record said { pending_tool_calls = ctx.response.tool_calls },
      t,
    )
