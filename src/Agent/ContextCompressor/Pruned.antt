-- ===== src/Agent/ContextCompressor/Pruned.antt =====
-- What pruning leaves of a history.
use embedded_agent.Base.{
  ℕ, zero, suc, ◌≤◌, ◌≡◌, refl, ap, subst, none, some, inl, inr, Bytes, Bool, true, false,
  if◌then◌else◌, ltb, any, bytes_eq, ◌∙◌, Option, List, [], ◌∷◌, length, take, map, arith,
}
use embedded_agent.Core.Error.{Outcome, returned, thrown, Outcome-cases}
use embedded_agent.Core.Json.{JsonLib}
use embedded_agent.Core.Types.{Message, Role, ToolCall}
use embedded_agent.Agent.ContextCompressor.Prune.{
  duplicate_note, one_line, prune_call, prune_calls, with_calls, prune_assistant, prune_by_role,
  prune_message, prune_loop,
}

module _ {J : Type 0} where
  -- What pruning may make of a message: nothing; of a tool's result of 200 bytes or more the note on a
  -- duplicate or the one line about it; of a message of the assistant with calls the same message with
  -- other arguments in its calls.
  pub data IsPruned : Message J → Message J → Type 0 where
    same : (m : Message J) → IsPruned m m
    duplicate :
        (m : Message J)
        → m.role ≡ Role.tool
        → 200 ≤ length m.content
        → IsPruned m (record m { content = duplicate_note })
    shortened :
        (m : Message J)
        → m.role ≡ Role.tool
        → 200 ≤ length m.content
        → IsPruned m (record m { content = one_line m })
    cut_calls :
        (m : Message J) (calls pruned : List (ToolCall J))
        → m.role ≡ Role.assistant
        → m.tool_calls ≡ some calls
        → map (λ c. c.id) pruned ≡ map (λ c. c.id) calls
        → map (λ c. c.name) pruned ≡ map (λ c. c.name) calls
        → IsPruned m (record m { tool_calls = some pruned })

  -- The first `cut` messages may be pruned, one by one, and the others are as they were.
  pub data ArePruned : ℕ → List (Message J) → List (Message J) → Type 0 where
    the_rest : (ms : List (Message J)) → ArePruned zero ms ms
    no_more : (cut : ℕ) → ArePruned (suc cut) [] []
    one :
        (cut : ℕ) (m p : Message J) (ms ps : List (Message J))
        → IsPruned m p
        → ArePruned cut ms ps
        → ArePruned (suc cut) (m ∷ ms) (p ∷ ps)

  pub ArePruned-length :
      (cut : ℕ) (ms ps : List (Message J)) → ArePruned cut ms ps → length ps ≡ length ms
  ArePruned-length _ _ _ (the_rest ms) = refl
  ArePruned-length _ _ _ (no_more cut) = refl
  ArePruned-length _ _ _ (one cut m p ms ps h more) = ap suc (ArePruned-length cut ms ps more)

prune_call-keeps :
    (L : JsonLib) (tc t : ToolCall L.Json)
    → prune_call L tc ≡ returned t
    → (t.id ≡ tc.id) × (t.name ≡ tc.name)
unfolding prune_call
prune_call-keeps L tc t h = (ground arith, ground arith)

prune_calls-keeps :
    (L : JsonLib) (calls pruned : List (ToolCall L.Json))
    → prune_calls L calls ≡ returned pruned
    → (map (λ c. c.id) pruned ≡ map (λ c. c.id) calls)
      × (map (λ c. c.name) pruned ≡ map (λ c. c.name) calls)
unfolding prune_calls
prune_calls-keeps L [] pruned h =
    let e : [] ≡ pruned = ground arith in
    subst (λ ps. (map (λ c. c.id) ps ≡ []) × (map (λ c. c.name) ps ≡ [])) e (refl, refl)
prune_calls-keeps L (tc ∷ calls) pruned h = elim (Outcome-cases (prune_call L tc)) [
  | inr e ↦ absurd (ground arith)
  | inl (t, e) ↦ elim (Outcome-cases (prune_calls L calls)) [
    | inr f ↦ absurd (ground arith)
    | inl (rest, f) ↦
        let whole : t ∷ rest ≡ pruned = ground arith in
        let (id, name) = prune_call-keeps L tc t e in
        let (ids, names) = prune_calls-keeps L calls rest f in
        subst
          (λ ps.
            (map (λ c. c.id) ps ≡ map (λ c. c.id) (tc ∷ calls))
            × (map (λ c. c.name) ps ≡ map (λ c. c.name) (tc ∷ calls)))
          whole
          (
            ap (λ x. x ∷ map (λ c. c.id) rest) id ∙ ap (◌∷◌ tc.id) ids,
            ap (λ x. x ∷ map (λ c. c.name) rest) name ∙ ap (◌∷◌ tc.name) names,
          )
  ]
]

-- What holds of the value, if there is one.
abbrev After : {A : Type 0} → (A → Type 0) → Outcome A → Type 0
After P thrown = Unit
After P (returned a) = P a

After-returned :
    {A : Type 0} (P : A → Type 0) (o : Outcome A) (a : A) → After P o → o ≡ returned a → P a
After-returned P o a h e = subst (After P) e h

if-split :
    {A : Type 0} (P : A → Type 0) (c : Bool) (a b : A)
    → (c ≡ true → P a)
    → (c ≡ false → P b)
    → P (if c then a else b)
if-split P true a b h k = h refl
if-split P false a b h k = k refl

with_calls-IsPruned :
    (L : JsonLib) (msg : Message L.Json) (calls : List (ToolCall L.Json))
    (o : Outcome (List (ToolCall L.Json)))
    → msg.role ≡ Role.assistant
    → msg.tool_calls ≡ some calls
    → prune_calls L calls ≡ o
    → After (IsPruned msg) (with_calls L msg o)
unfolding with_calls
with_calls-IsPruned L msg calls thrown e f g = tt
with_calls-IsPruned L msg calls (returned pruned) e f g =
    let (ids, names) = prune_calls-keeps L calls pruned g in
    cut_calls msg calls pruned e f ids names

prune_assistant-IsPruned :
    (L : JsonLib) (msg : Message L.Json) (calls : Option (List (ToolCall L.Json)))
    → msg.role ≡ Role.assistant
    → msg.tool_calls ≡ calls
    → After (IsPruned msg) (prune_assistant L msg calls)
unfolding prune_assistant
prune_assistant-IsPruned L msg none e f = same msg
prune_assistant-IsPruned L msg (some calls) e f =
    with_calls-IsPruned L msg calls (prune_calls L calls) e f refl

After-pair :
    {A B : Type 0} (P : A → Type 0) (o : Outcome A) (b : B)
    → After P o
    → After (λ (p : A × B). P p.0) (elim o [ thrown ↦ thrown | returned a ↦ returned (a, b) ])
After-pair P thrown b h = tt
After-pair P (returned a) b h = h

prune_by_role-IsPruned :
    (L : JsonLib) (seen : List Bytes) (msg : Message L.Json) (role : Role)
    → msg.role ≡ role
    → After (λ (p : Message L.Json × List Bytes). IsPruned msg p.0) (prune_by_role L seen msg role)
unfolding prune_by_role
prune_by_role-IsPruned L seen msg Role.tool e =
    if-split (After (λ (p : Message L.Json × List Bytes). IsPruned msg p.0))
      (ltb (length msg.content) 200) _ _ (λ h. same msg)
      (λ long.
        let enough : 200 ≤ length msg.content = ground arith in
        if-split (After (λ (p : Message L.Json × List Bytes). IsPruned msg p.0))
          (any (bytes_eq (take 256 msg.content)) seen) _ _ (λ h. duplicate msg e enough)
          (λ h. shortened msg e enough))
prune_by_role-IsPruned L seen msg Role.assistant e =
    After-pair (IsPruned msg) (prune_assistant L msg msg.tool_calls) seen
      (prune_assistant-IsPruned L msg msg.tool_calls e refl)
prune_by_role-IsPruned L seen msg Role.system e = same msg
prune_by_role-IsPruned L seen msg Role.user e = same msg

prune_message-IsPruned :
    (L : JsonLib) (seen : List Bytes) (msg : Message L.Json)
    → After (λ (p : Message L.Json × List Bytes). IsPruned msg p.0) (prune_message L seen msg)
unfolding prune_message
prune_message-IsPruned L seen msg = prune_by_role-IsPruned L seen msg msg.role refl

-- What the loop gives back is pruned message by message.
pub prune_loop-ArePruned :
    (L : JsonLib) (cut : ℕ) (seen : List Bytes) (ms out : List (Message L.Json))
    → prune_loop L cut seen ms ≡ returned out
    → ArePruned cut ms out
unfolding prune_loop
prune_loop-ArePruned L zero seen ms out h =
    let e : ms ≡ out = ground arith in subst (ArePruned zero ms) e (the_rest ms)
prune_loop-ArePruned L (suc cut) seen [] out h =
    let e : [] ≡ out = ground arith in subst (ArePruned (suc cut) []) e (no_more cut)
prune_loop-ArePruned L (suc cut) seen (msg ∷ ms) out h =
    elim (Outcome-cases (prune_message L seen msg)) [
      | inr e ↦ absurd (ground arith)
      | inl (p, e) ↦ elim (Outcome-cases (prune_loop L cut p.1 ms)) [
        | inr f ↦ absurd (ground arith)
        | inl (rest, f) ↦
            let whole : p.0 ∷ rest ≡ out = ground arith in
            subst (ArePruned (suc cut) (msg ∷ ms)) whole (
              one cut msg p.0 ms rest
                (After-returned (λ (q : Message L.Json × List Bytes). IsPruned msg q.0) _ p
                  (prune_message-IsPruned L seen msg) e)
                (prune_loop-ArePruned L cut p.1 ms rest f))
      ]
    ]
