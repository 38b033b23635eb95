-- ===== src/Agent/SystemPrompt.antt =====
-- src/agent/SystemPrompt.cpp. The time, which `strftime` writes, is an argument.
use embedded_agent.Base.{Bytes, List, [], ◌∷◌, ◌++◌, codes, is_empty, if◌then◌else◌}

-- The fields of `MemoryEntry` that the prompt shows.
pub record MemoryEntry : Type 0 where
  pub content : Bytes
  pub category : Bytes

pub record PromptContext : Type 0 where
  pub soul : Bytes
  pub tool_guidance : Bytes
  pub platform_info : Bytes
  pub skills_index : Bytes
  pub context_files : Bytes
  pub relevant_memories : List MemoryEntry
  pub curated_memory : Bytes
  pub user_profile : Bytes

pub record SystemPromptParts : Type 0 where
  pub stable : Bytes
  pub context : Bytes
  pub volatile : Bytes

-- `if (!text.empty()) out << heading << text << "\n\n"`
unfoldable pub paragraph : Bytes → Bytes → Bytes
paragraph heading text = if is_empty text then [] else heading ++ text ++ codes "\n\n"

unfoldable pub memory_lines : List MemoryEntry → Bytes
memory_lines [] = []
memory_lines (m ∷ memories) =
    codes "- [" ++ m.category ++ codes "] " ++ m.content ++ codes "\n" ++ memory_lines memories

unfoldable pub build_system_prompt_parts : Bytes → PromptContext → SystemPromptParts
unfolding paragraph memory_lines
build_system_prompt_parts time ctx = record {
  stable =
      codes "# Identity\n"
      ++ paragraph [] ctx.soul
      ++ paragraph (codes "# Tool Guidance\n") ctx.tool_guidance
      ++ paragraph (codes "# Environment\n") ctx.platform_info
      ++ paragraph [] ctx.skills_index;
  context = paragraph (codes "# Project Context\n\n") ctx.context_files;
  volatile =
      (if is_empty ctx.relevant_memories
        then []
        else codes "# Relevant Memories\n" ++ memory_lines ctx.relevant_memories ++ codes "\n")
      ++ paragraph (codes "# Persistent Memory\n") ctx.curated_memory
      ++ paragraph (codes "# User Profile\n") ctx.user_profile
      ++ codes "Current time: "
      ++ time
      ++ codes "\n";
}

-- A part behind what there is, on a line of its own.
unfoldable pub add_part : Bytes → Bytes → Bytes
add_part result part =
    if is_empty part then result else (if is_empty result then [] else result ++ codes "\n") ++ part

unfoldable pub build_system_prompt : Bytes → PromptContext → Bytes
unfolding build_system_prompt_parts add_part
build_system_prompt time ctx =
    let parts = build_system_prompt_parts time ctx in
    add_part (add_part parts.stable parts.context) parts.volatile
