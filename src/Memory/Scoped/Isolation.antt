-- ===== src/Memory/Scoped/Isolation.antt =====
-- What an agent can read of what agents stored.
use embedded_agent.Base.{
  ◌≡◌, ◌↔◌, ◌⊎◌, inl, inr, refl, ◌∙◌, Bytes, Bool-cases, true, false, Option-cases, List, [], ◌∷◌,
  ◌++◌, codes, arith, find, is_prefix, bytes_eq, bytes_eq_iff, Lacks, All,
}
use embedded_agent.Base.Map.{set_has}
use embedded_agent.Memory.Scoped.{
  MemoryScope, scoped_category, is_of, is_allowed, is_unscoped, can_read,
}

-- A colon in a text that one stands in.
colon-unscoped : (s t : Bytes) → is_unscoped (s ++ codes ":" ++ t) ≡ false
unfolding find is_prefix
colon-unscoped [] t = refl
colon-unscoped (c ∷ s) t = elim (Option-cases (find (codes ":") (s ++ codes ":" ++ t))) [
  | inl e ↦ ground (arith, colon-unscoped s t)
  | inr (pos, e) ↦ ground arith
]

-- Two ids without a colon that stand in front of one are the same.
is_prefix-colon :
    (a b t : Bytes)
    → Lacks b':' a
    → Lacks b':' b
    → is_prefix (a ++ codes ":") (b ++ codes ":" ++ t) ≡ bytes_eq a b
unfolding is_prefix bytes_eq
is_prefix-colon [] [] t h k = refl
is_prefix-colon [] (y ∷ b) t h k = ground arith
is_prefix-colon (x ∷ a) [] t h k = ground arith
is_prefix-colon (x ∷ a) (y ∷ b) t h k = ground (arith, is_prefix-colon a b t h.1 k.1)

is_of-prefix : (id category : Bytes) → is_of id category ≡ is_prefix (id ++ codes ":") category
unfolding is_of find
is_of-prefix id [] = elim (Bool-cases (is_prefix (id ++ codes ":") [])) [
  | inl e ↦ ground arith
  | inr e ↦ ground arith
]
is_of-prefix id (c ∷ s) = elim (Bool-cases (is_prefix (id ++ codes ":") (c ∷ s))) [
  | inl e ↦ ground arith
  | inr e ↦ elim (Option-cases (find (id ++ codes ":") s)) [
    | inl f ↦ ground arith
    | inr (pos, f) ↦ ground arith
  ]
]

is_of-owner :
    (id owner category : Bytes)
    → Lacks b':' id
    → Lacks b':' owner
    → is_of id (owner ++ codes ":" ++ category) ≡ bytes_eq id owner
is_of-owner id owner category h k =
    is_of-prefix id (owner ++ codes ":" ++ category) ∙ is_prefix-colon id owner category h k

is_allowed-owner :
    (ids : List Bytes) (owner category : Bytes)
    → All (Lacks b':') ids
    → Lacks b':' owner
    → is_allowed ids (owner ++ codes ":" ++ category) ≡ set_has owner ids
unfolding is_allowed set_has
is_allowed-owner [] owner category h k = refl
is_allowed-owner (id ∷ ids) owner category h k =
    rw (is_of-owner id owner category h.0 k, is_allowed-owner ids owner category h.1 k) refl

-- Where no id has a colon in it, an agent can read an entry that an agent stored exactly if it stored the
-- entry itself, or the other one is on its allowlist.
pub can_read_iff :
    (scope owner : MemoryScope) (content category : Bytes)
    → Lacks b':' scope.agent_id
    → All (Lacks b':') scope.read_allowlist
    → Lacks b':' owner.agent_id
    → (can_read scope (record { content = content; category = scoped_category owner category })
        ≡ true)
      ↔ ((owner.agent_id ≡ scope.agent_id) ⊎ (set_has owner.agent_id scope.read_allowlist ≡ true))
unfolding can_read scoped_category
can_read_iff scope owner content category h k l =
    let own = is_of-owner scope.agent_id owner.agent_id category h l in
    let others = is_allowed-owner scope.read_allowlist owner.agent_id category k l in
    let colon = colon-unscoped owner.agent_id category in
    let same = bytes_eq_iff scope.agent_id owner.agent_id in
    rw (own, others, colon) (ground (arith, same))
