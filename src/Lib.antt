-- ===== src/Lib.antt =====
-- embedded-agent: the verification library of the agent, an LLM agent in C++ that runs turns of
-- model calls and tool calls behind a security policy, approvals and a plan mode.
--
-- How the parts interact. The agent's loop (src/agent) takes a text of the user, builds the system prompt,
-- and runs turns until one stops; it hands the new messages to a conversation store, and it keeps the
-- permission mode that it shares with the tool that leaves the plan mode. A turn is a chain of steps over
-- one `TurnContext`: the tools on offer are read from the tool registry (src/tool), the model is called through a provider
-- (src/provider), which may be a router or a provider with retries and fallbacks, the answer is
-- parsed, its tool calls are run behind the guards of `ExecuteToolsStep` with the security policy and
-- the approval handler (src/security), the loop detector looks at the calls and their results, and the
-- results go to the history. Before a call of the model the context compressor may put a summary in the
-- place of the middle of the history. The curated memory (src/memory) keeps notes in two files, which the
-- system prompt shows. Streamed answers arrive as server-sent events (src/net).
--
-- Which file models which part:
-- - Base and its children: bytes, texts, native-number lists and sorted maps, shared by all.
-- - Core/Error, Core/Types, Core/StringUtil: src/base/Error.h, Result.h, Types.h, StringUtil.h. A
--   `Result<T>` is a `Result T`; an exception that leaves a function is `thrown` of `Outcome`.
-- - Core/Json: the calls of nlohmann::json, which is no part of the repository, as a record of
--   parameters. Its `dump` is taken not to throw.
-- - Io/FileSystem: src/io/FileSystem.cpp over `Posix`, a record of what the functions ask of the operating
--   system and the file streams. `mkdir_p` runs on fuel, one round more than the path has bytes, since
--   each call is for a shorter path; Io/FileSystem/Roots has the searches that walk up, with their 256
--   rounds. Io/FileSystem/Disk is an operating system for the examples.
-- - Net/SseParser: src/net/SseParser.cpp, `feed`. The state is the buffer; the callbacks come back as a
--   list. The loop runs on fuel, one more than the bytes of the buffer, and each round takes two.
-- - Net/RetryPolicy: src/net/RetryPolicy.cpp, `should_retry` and `delay_for`.
-- - Security/Policy: src/security/SecurityPolicy.cpp, `check_command`, `check_file_path`, `check_tool`.
-- - Security/Approval: src/security/PendingApprovalHandler.cpp as a step relation. Each critical
--   section and each access of an atomic is one step, so that threads interleave between them.
-- - Provider/Interface: src/provider/IProvider.h. A provider is a record of state-passing functions,
--   and a stream is a sequence of calls of `on_chunk`.
-- - Provider/Reliable, Provider/ErrorClassifier: src/provider/ReliableProvider.cpp and
--   ErrorClassifier.cpp. The retry loop counts its rounds down from `max_retries + 1`, the number of
--   values that `attempt` takes. The multiplication by a `double` and the sleep are parameters.
-- - Provider/Router: src/provider/RouterProvider.cpp.
-- - Provider/CredentialPool: src/provider/CredentialPool.cpp. The search of `acquire` runs on fuel, one
--   round for each slot.
-- - Tool/Interface, Tool/Toolset, Tool/Registry: src/tool/ITool.h, Toolset.cpp, ToolRegistry.cpp. A tool
--   is a record with a state-passing `execute`; `std::map` and `std::set` are lists sorted by key.
-- - Tool/Output: src/tool/ToolOutputConfig.cpp.
-- - Memory/Curated: src/memory/CuratedMemoryStore.cpp, with the files' texts in Memory/Curated/Text. The
--   search for delimiters runs on fuel, one round more than the text has bytes, and a round takes four.
--   Memory/Curated/Files says in `FileLaws` what is asked of a renamed file.
-- - Memory/Scoped: src/memory/ScopedMemory.cpp, the methods that the scope changes. Memory/FtsSanitizer:
--   src/memory/FtsSanitizer.cpp.
-- - Budget/Tracker: src/budget/BudgetTracker.cpp and Types.h, a provider around another one whose state has
--   the counters in front. The doubles of the costs and the overflow of `int` are the
--   parameter `Money`.
-- - Agent/ContextDiscovery: src/agent/ContextDiscovery.cpp.
-- - Agent/ProgressiveMemory: src/agent/ProgressiveMemoryStrategy.cpp, as a strategy of the loop.
-- - Agent/LoopDetector: src/agent/LoopDetector.cpp; the deques stand newest first.
-- - Agent/PermissionMode, Agent/PlanExitTool: src/agent/PermissionMode.h and PlanExitTool.cpp.
-- - Agent/ContextCompressor: src/agent/ContextCompressor.cpp, the estimate, the trigger,
--   `protect_head_size` and `find_tail_cut`; its children Prune, Summary and Compress have
--   `prune_old_tool_results`, `summarize` with the fallback, and `compress`. A savings percentage is
--   `gained` or `lost`, since it may be negative.
-- - Agent/SystemPrompt: src/agent/SystemPrompt.cpp.
-- - Agent/Loop: src/agent/AgentLoop.cpp. Agent/Loop has the state, the history and the permission modes,
--   Agent/Loop/Persist the calls of the store and `compress_context`, Agent/Loop/Run `run`, which counts
--   `max_iterations` down, and Agent/Loop/DefaultSteps the steps that the constructor puts together. What
--   the steps, the tools and other threads share with the loop is the record `Shared`, in front of the
--   state of the outside.
-- - Agent/TurnContext: src/agent/TurnContext.h and ITurnStep.h, with `run_step_chain`.
-- - Agent/Steps: src/agent/steps, a module for each step; ExecuteTools/Guards has the helpers of
--   ExecuteToolsStep.cpp. `S` is the state of everything outside, which tools and callbacks change.
--   CallProvider takes the text of an exception that leaves `stream_chat` as the argument `what`.
--
-- Numbers. Sizes and counters are natural numbers. The token counts of the budget are sums of what
-- providers report: there the bound of `int` is written out, and what overflow makes is a parameter. The
-- other counters go up by one at a time (`next_id_`, the errors of a key, the compressions) and stay far
-- below the width of their types. Negative settings and negative counts are not modelled.
--
-- What is taken of code behind interfaces. A provider's `chat` returns a result and does not throw, as the
-- providers of src/provider report their errors; `stream_chat` may throw, and lets an exception of its
-- callback pass, which ends the stream where the run is interrupted.
--
-- Not modelled: subagents, the memory's stores and retrievers, skills and MCP; the budgets of
-- the compressor, which are computed with `double`; trace ids and costs in the events; what is system
-- calls, SQL, HTTP, TOML or drawing (src/conversation, src/config, src/tui, src/app and the back ends of
-- src/provider); log lines.
pub mod Base
pub mod Core
pub mod Io
pub mod Net
pub mod Security
pub mod Provider
pub mod Tool
pub mod Budget
pub mod Memory
pub mod Agent
