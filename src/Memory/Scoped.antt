-- ===== src/Memory/Scoped.antt =====
-- src/memory/ScopedMemory.cpp: the memory of one agent over a backend that agents share. The methods that
-- only hand their arguments on are those of the backend.
pub mod Isolation
mod Tests
use embedded_agent.Base.{
  ℕ, Bytes, Bool, true, false, ◌||◌, none, some, Option, List, [], ◌∷◌, ◌++◌, codes, find, keep,
  ◌==◌,
}
use embedded_agent.Core.Error.{Result, ok, err}
use embedded_agent.Agent.SystemPrompt.{MemoryEntry}

pub record MemoryScope : Type 0 where
  pub agent_id : Bytes
  pub read_allowlist : List Bytes

-- The methods of `IMemory` that the scope changes: `store` and `add_fact`, `recall` and `list`.
pub record Backend (S : Type 0) : Type 0 where
  pub store : Bytes → Bytes → ℕ → S → Result Bytes × S
  pub add_fact : Bytes → Bytes → Bytes → S → Result ℕ × S
  pub recall : Bytes → ℕ → S → Result (List MemoryEntry) × S
  pub list : ℕ → ℕ → S → Result (List MemoryEntry) × S

-- `agent_id + ":" + category`
unfoldable pub scoped_category : MemoryScope → Bytes → Bytes
scoped_category scope category = scope.agent_id ++ codes ":" ++ category

-- `category.find(id + ":") == 0`
unfoldable pub is_of : Bytes → Bytes → Bool
unfolding find
is_of id category = elim (find (id ++ codes ":") category) [ none ↦ false | some pos ↦ pos == 0 ]

abbrev pub is_unscoped : Bytes → Bool
is_unscoped category = elim (find (codes ":") category) [ none ↦ true | some pos ↦ false ]

-- The loop over the allowlist.
unfoldable pub is_allowed : List Bytes → Bytes → Bool
unfolding is_of
is_allowed [] category = false
is_allowed (id ∷ ids) category = is_of id category || is_allowed ids category

unfoldable pub can_read : MemoryScope → MemoryEntry → Bool
unfolding is_of is_allowed
can_read scope entry =
    (is_of scope.agent_id entry.category || is_allowed scope.read_allowlist entry.category)
    || is_unscoped entry.category

-- The loop that filters a result.
unfoldable pub filtered : MemoryScope → Result (List MemoryEntry) → Result (List MemoryEntry)
unfolding can_read
filtered scope (err e) = err e
filtered scope (ok entries) = ok (keep (can_read scope) entries)

module _ {S : Type 0} (backend : Backend S) (scope : MemoryScope) where
  unfoldable pub store : Bytes → Bytes → ℕ → S → Result Bytes × S
  unfolding scoped_category
  store content category importance s =
      backend.store content (scoped_category scope category) importance s

  unfoldable pub add_fact : Bytes → Bytes → Bytes → S → Result ℕ × S
  unfolding scoped_category
  add_fact content category tags s =
      backend.add_fact content (scoped_category scope category) tags s

  unfoldable pub recall : Bytes → ℕ → S → Result (List MemoryEntry) × S
  unfolding filtered
  recall query limit s = let (found, t) = backend.recall query limit s in (filtered scope found, t)

  unfoldable pub list : ℕ → ℕ → S → Result (List MemoryEntry) × S
  unfolding filtered
  list limit offset s = let (found, t) = backend.list limit offset s in (filtered scope found, t)
