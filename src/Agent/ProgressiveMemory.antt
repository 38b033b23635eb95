-- ===== src/Agent/ProgressiveMemory.antt =====
-- src/agent/ProgressiveMemoryStrategy.cpp: the memories that the strategy puts into the prompt of a turn.
-- The text of a trust score is a parameter, since the score is a `double`.
pub mod Sections
mod Tests
use embedded_agent.Base.{
  ℕ, Bytes, Bool, true, false, Option, none, some, List, [], ◌∷◌, ◌++◌, codes, keep, is_empty,
  bytes_eq, if◌then◌else◌,
}
use embedded_agent.Core.Error.{Result, ok, err}
use embedded_agent.Core.Types.{Message}
use embedded_agent.Agent.SystemPrompt.{MemoryEntry}
use embedded_agent.Agent.Loop.{last_user}
use embedded_agent.Agent.Loop.Run.{MemoryStrategy, text_or_empty}

-- The fields of `FactEntry` that the prompt shows.
pub record FactEntry (D : Type 0) : Type 0 where
  pub content : Bytes
  pub trust_score : D

-- The methods of `IMemory` that the strategy calls. `search_facts` is the call with the least trust 0.3.
pub record Memory (D S : Type 0) : Type 0 where
  pub is_holographic : Bool
  pub search_facts : Bytes → Bytes → ℕ → S → Result (List (FactEntry D)) × S
  pub recall : Bytes → ℕ → S → Result (List MemoryEntry) × S
  pub list : ℕ → ℕ → S → Result (List MemoryEntry) × S

abbrev pub entry_lines : List MemoryEntry → Bytes
entry_lines [] = []
entry_lines (entry ∷ entries) = codes "- " ++ entry.content ++ codes "\n" ++ entry_lines entries

unfoldable pub heading : Bytes
heading = codes "# Conversation Context\n"

unfoldable pub is_in : Bytes → MemoryEntry → Bool
is_in category entry = bytes_eq entry.category category

-- The prompt with the long-term memories, where there is any.
unfoldable pub with_facts : List MemoryEntry → Option Bytes
unfolding heading
with_facts [] = none
with_facts (entry ∷ entries) =
    some (heading ++ codes "## Key Facts\n" ++ entry_lines (entry ∷ entries))

-- The key facts of a memory without scores: the prompt so far, where there is any.
unfoldable pub recalled_part : Result (List MemoryEntry) → Option Bytes
unfolding with_facts is_in
recalled_part (err e) = none
recalled_part (ok entries) = with_facts (keep (is_in (codes "long_term")) entries)

-- The prompt so far with the short-term memories behind it.
unfoldable pub with_recent : Option Bytes → List MemoryEntry → Option Bytes
unfolding heading
with_recent prompt [] = prompt
with_recent none (entry ∷ entries) =
    some (heading ++ codes "## Recent Summary\n" ++ entry_lines (entry ∷ entries))
with_recent (some text) (entry ∷ entries) =
    some (text ++ codes "## Recent Summary\n" ++ entry_lines (entry ∷ entries))

-- The recent summary, behind the prompt so far.
unfoldable pub with_summary : Option Bytes → Result (List MemoryEntry) → Option Bytes
unfolding with_recent is_in
with_summary prompt (err e) = prompt
with_summary prompt (ok entries) = with_recent prompt (keep (is_in (codes "short_term")) entries)

module _ {D S : Type 0} (trust_text : D → Bytes) (memory : Memory D S) (short_term_max : ℕ) where
  unfoldable pub fact_lines : List (FactEntry D) → Bytes
  fact_lines [] = []
  fact_lines (fact ∷ facts) =
      codes "- "
      ++ fact.content
      ++ codes " [trust: "
      ++ trust_text fact.trust_score
      ++ codes "]\n"
      ++ fact_lines facts

  -- The key facts of a memory with scores.
  unfoldable pub searched_part : Result (List (FactEntry D)) → Option Bytes
  unfolding fact_lines heading
  searched_part (err e) = none
  searched_part (ok []) = none
  searched_part (ok (fact ∷ facts)) =
      some (heading ++ codes "## Key Facts\n" ++ fact_lines (fact ∷ facts))

  -- The key facts about a text of the user.
  unfoldable pub key_facts : Bytes → S → Option Bytes × S
  unfolding searched_part recalled_part
  key_facts text s =
      let (searched, t) = memory.search_facts text (codes "long_term") 3 s in
      let (recalled, u) = memory.recall text 3 s in
      if is_empty text
      then (none, s)
      else if memory.is_holographic
      then (searched_part searched, t)
      else (recalled_part recalled, u)

  unfoldable pub build_memory_prompt : {J : Type 0} → List (Message J) → S → Bytes × S
  unfolding key_facts with_summary
  build_memory_prompt history s =
      let asked : Bytes = elim (last_user history) [ none ↦ [] | some msg ↦ msg.content ] in
      let (facts, t) = key_facts asked s in
      let (listed, u) = memory.list short_term_max 0 t in
      (text_or_empty (with_summary facts listed), u)

  -- The strategy that the loop is given.
  unfoldable pub progressive_strategy : {J : Type 0} → MemoryStrategy J S
  unfolding build_memory_prompt
  progressive_strategy = record {
    build_memory_prompt = build_memory_prompt;
    on_turn_end = λ history user_input assistant_output s. (history, s);
  }
