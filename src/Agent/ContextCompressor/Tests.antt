-- ===== src/Agent/ContextCompressor/Tests.antt =====
-- A history of a question, an answer and a tool's result.
use embedded_agent.Base.{
  ℕ, none, ◌⊎◌, ◌+◌, ◌-◌, ◌≤◌, ◌≡◌, refl, min, Bytes, true, false, List, [], ◌∷◌, codes, drop, any,
  arith,
}
use embedded_agent.Core.Json.Texts.{text_json}
use embedded_agent.Core.Types.{Message, Role, plain_message}
use embedded_agent.Agent.ContextCompressor.{
  Savings, ContextCompressor, find_tail_cut, is_spoken, soft_loop, last_spoken, estimate_message,
  weighted_chars, protect_head_size, leading_tools, first_head,
}
use embedded_agent.Agent.ContextCompressor.Compress.{compress}
use embedded_agent.Agent.ContextCompressor.Shape.{compress-IsShape, IsShape}
use embedded_agent.Core.Error.{returned, thrown}
use embedded_agent.Agent.ContextCompressor.Tail.{find_tail_cut_bounds, find_tail_cut_speaks}

abbrev history : List (Message Bytes)
history =
    plain_message Role.system (codes "be kind")
    ∷ plain_message Role.user (codes "why?")
    ∷ plain_message Role.assistant (codes "because")
    ∷ plain_message Role.tool (codes "42")
    ∷ []

abbrev compressor : ContextCompressor
compressor = record {
  enable = true;
  in_place = true;
  protect_first_n = 0;
  protect_last_n = 1;
  threshold_tokens = 10;
  tail_token_budget = 1;
  last_prompt_tokens = 0;
  compression_count = 0;
  ineffective_count = 0;
  previous_summary = [];
  abort_on_summary_failure = false;
  last_savings = Savings.gained 0;
  last_compressed = false;
}

head_test : protect_head_size compressor history ≡ 1
unfolding protect_head_size leading_tools first_head
head_test = refl

-- One message would be enough for the tail, but the answer is kept with the result behind it.
cut_test : find_tail_cut text_json compressor history 1 ≡ 2
unfolding find_tail_cut soft_loop last_spoken estimate_message weighted_chars
cut_test = refl

find_tail_cut_bounds_example :
    (2 ≤ find_tail_cut text_json compressor history 1)
    × (find_tail_cut text_json compressor history 1 + min 1 (4 - 1 - 1) ≤ 4)
find_tail_cut_bounds_example = find_tail_cut_bounds text_json compressor history 1 (omega arith)

find_tail_cut_speaks_example :
    any is_spoken (drop (find_tail_cut text_json compressor history 1) history) ≡ true
find_tail_cut_speaks_example =
    find_tail_cut_speaks text_json compressor history 1 (omega arith) refl

-- A provider that cannot be asked, so that the fallback summary is used.
compress-IsShape_example :
    ((compress text_json {S = ℕ} none compressor history [] 0).0 ≡ thrown)
    ⊎ ((out : List (Message Bytes)) × ((compress text_json {S = ℕ} none compressor history [] 0).0
          ≡ returned out)
        × IsShape text_json compressor history out)
compress-IsShape_example = compress-IsShape text_json {S = ℕ} none compressor history [] 0
