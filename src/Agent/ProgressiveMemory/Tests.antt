-- ===== src/Agent/ProgressiveMemory/Tests.antt =====
-- A memory without scores, which has a fact and a note about the conversation.
use embedded_agent.Base.{
  ◌≡◌, refl, ℕ, Bytes, List, [], ◌∷◌, ◌++◌, codes, keep, false, suc, bytes_eq,
}
use embedded_agent.Core.Error.{ok}
use embedded_agent.Core.Types.{Message, Role, plain_message}
use embedded_agent.Agent.SystemPrompt.{MemoryEntry}
use embedded_agent.Agent.ProgressiveMemory.{Memory, is_in}
use embedded_agent.Agent.ProgressiveMemory.Sections.{headed, section}

abbrev noted : List MemoryEntry
noted =
    record { content = codes "uses a tab width of 4"; category = codes "long_term" }
    ∷ record { content = codes "asked for tests"; category = codes "short_term" }
    ∷ []

-- The outside counts the calls.
abbrev notes : Memory Bytes ℕ
notes = record {
  is_holographic = false;
  search_facts = λ query category limit s. (ok [], s);
  recall = λ query limit s. (ok noted, suc s);
  list = λ limit offset s. (ok noted, suc s);
}

abbrev asked : List (Message (Unit {0}))
asked = plain_message Role.user (codes "format this") ∷ plain_message Role.assistant [] ∷ []

shown :
    headed (
      section (codes "## Key Facts\n") (keep (is_in (codes "long_term")) noted)
      ++ section (codes "## Recent Summary\n") (keep (is_in (codes "short_term")) noted))
    ≡ codes
        "# Conversation Context\n## Key Facts\n- uses a tab width of 4\n## Recent Summary\n- asked for tests\n"
unfolding headed section is_in bytes_eq
shown = refl
