-- ===== src/Agent/ProgressiveMemory/Sections.antt =====
-- src/agent/ProgressiveMemoryStrategy.cpp: the prompt as two sections under a heading, and what the
-- strategy leaves alone.
use embedded_agent.Base.{
  ◌≡◌, refl, ap, sym, ℕ, Bytes, none, some, Option, List, [], ◌∷◌, ◌++◌, codes, keep, append-nil,
  append_assoc,
}
use embedded_agent.Core.Error.{ok}
use embedded_agent.Provider.Interface.{Provider}
use embedded_agent.Agent.SystemPrompt.{MemoryEntry}
use embedded_agent.Agent.Loop.{AgentLoop}
use embedded_agent.Agent.Loop.Run.{Parts, World, text_or_empty, end_turn}
use embedded_agent.Agent.ProgressiveMemory.{
  entry_lines, heading, is_in, recalled_part, with_summary, with_facts, with_recent,
  progressive_strategy, Memory,
}

-- A section of the prompt, which is there when it has a line.
unfoldable pub section : Bytes → List MemoryEntry → Bytes
section title [] = []
section title (entry ∷ entries) = title ++ entry_lines (entry ∷ entries)

-- The sections under the heading, which is there when there is a section.
unfoldable pub headed : Bytes → Bytes
unfolding heading
headed [] = []
headed (b ∷ text) = heading ++ b ∷ text

sections :
    (long_term short_term : List MemoryEntry)
    → text_or_empty (with_recent (with_facts long_term) short_term)
      ≡ headed (
          section (codes "## Key Facts\n") long_term
          ++ section (codes "## Recent Summary\n") short_term)
unfolding with_recent with_facts section headed heading
sections [] [] = refl
sections [] (entry ∷ entries) = refl
sections (fact ∷ facts) [] =
    ap (λ t. heading ++ (codes "## Key Facts\n" ++ t))
      (sym (append-nil (entry_lines (fact ∷ facts))))
sections (fact ∷ facts) (entry ∷ entries) =
    ap (λ t. heading ++ (codes "## Key Facts\n" ++ t))
      (append_assoc (entry_lines (fact ∷ facts)) (codes "## Recent Summary\n")
        (entry_lines (entry ∷ entries)))

-- A memory without scores that finds the entries `found` about the text of the user and lists the entries
-- `listed` gives the prompt that has the heading over the two sections, the found entries of the category
-- long_term in the one and the listed entries of the category short_term in the other, where a section
-- without an entry is left out, and the heading with both.
pub with_summary-recalled_part :
    (found listed : List MemoryEntry)
    → text_or_empty (with_summary (recalled_part (ok found)) (ok listed))
      ≡ headed (
          section (codes "## Key Facts\n") (keep (is_in (codes "long_term")) found)
          ++ section (codes "## Recent Summary\n") (keep (is_in (codes "short_term")) listed))
unfolding with_summary recalled_part
with_summary-recalled_part found listed =
    sections (keep (is_in (codes "long_term")) found) (keep (is_in (codes "short_term")) listed)

module _ {J S D : Type 0} (parts : Parts J S) (trust_text : D → Bytes) (memory : Memory D S)
    (max : ℕ) where
  abbrev with_provider : Option (Provider J (World J S)) → Parts J S
  with_provider provider = record parts {
    provider = provider;
    strategy = some (progressive_strategy trust_text memory max);
  }

  end_turn_rests :
      (provider : Option (Provider J (World J S))) (user_input : Bytes) (loop : AgentLoop J) (s : S)
      → end_turn (with_provider provider) user_input loop s ≡ (loop, s)
  unfolding end_turn progressive_strategy
  end_turn_rests none user_input loop s = refl
  end_turn_rests (some provider) user_input loop s = refl

  -- With the strategy, the end of a turn leaves the loop and the outside as they are.
  pub end_turn-progressive_strategy :
      (user_input : Bytes) (loop : AgentLoop J) (s : S)
      → end_turn
          (record parts { strategy = some (progressive_strategy trust_text memory max) })
          user_input
          loop
          s
        ≡ (loop, s)
  end_turn-progressive_strategy = end_turn_rests parts.provider
