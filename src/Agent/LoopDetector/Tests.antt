-- ===== src/Agent/LoopDetector/Tests.antt =====
-- A tool that is called with one argument and always answers the same.
use embedded_agent.Base.{ℕ, ◌≡◌, ◌↔◌, refl, Bytes, true, false, [], ◌∷◌, codes, zero, suc, none}
use embedded_agent.Core.Json.Texts.{text_json}
use embedded_agent.Core.Types.{ToolCall, ToolResult}
use embedded_agent.Agent.LoopDetector.{
  LoopAction, CallRecord, default_detector, check, is_exact_repeat, is_ping_pong, is_no_progress,
  count_alternations, call_signature, result_signature,
}
use embedded_agent.Agent.LoopDetector.Patterns.{patterns_iff, Newest, Alternates, results_of}
use embedded_agent.Agent.LoopDetector.Escalation.{check_escalates, after}

abbrev a_call : Bytes → ToolCall Bytes
a_call name = record { id = codes "1"; name = name; arguments = codes "{}" }

abbrev a_result : ToolResult
a_result = record { call_id = codes "1"; output = codes "ok"; is_error = false }

abbrev used : Bytes → CallRecord
used name = record { signature = name; result_hash = []; tool_name = name }

-- Four different tools in a row, and a fifth, are taken for a ping-pong of two.
no_ping_pong_test :
    is_ping_pong
      (record default_detector {
        recent_calls =
            used (codes "a") ∷ used (codes "b") ∷ used (codes "c") ∷ used (codes "d") ∷ [];
      })
      (a_call (codes "e"))
    ≡ true
unfolding is_ping_pong count_alternations embedded_agent.Base.bytes_eq
no_ping_pong_test = refl

patterns_iff_example :
    ((is_exact_repeat text_json default_detector (a_call (codes "ls")) ≡ true)
      ↔ Newest
          (λ (it : CallRecord). it.signature ≡ call_signature text_json (a_call (codes "ls")))
          2
          [])
    × ((is_ping_pong default_detector (a_call (codes "ls")) ≡ true) ↔ Alternates (codes "ls") 4 [])
    × ((is_no_progress default_detector (a_call (codes "ls")) a_result ≡ true)
        ↔ Newest (λ r. r ≡ result_signature a_result) 4 (results_of (codes "ls") []))
patterns_iff_example =
    patterns_iff text_json default_detector (a_call (codes "ls")) a_result 2 3 4 refl refl refl

check_escalates_example :
    (check text_json
      (after text_json (a_call (codes "ls")) a_result 3)
      (a_call (codes "ls"))
      a_result).0
    ≡ LoopAction.block
check_escalates_example = check_escalates text_json (a_call (codes "ls")) a_result 3
