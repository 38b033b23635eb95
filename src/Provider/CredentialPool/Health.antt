-- ===== src/Provider/CredentialPool/Health.antt =====
-- What every history of a pool keeps, and what `acquire` promises in such a pool.
use native.Mathlib.Nat.{mod-lt}
use native.Mathlib.Decide.{dec_lt}
use embedded_agent.Base.{
  ℕ, zero, suc, ◌+◌, ◌%◌, ◌≤◌, ◌<◌, ◌≡◌, refl, ◌⊎◌, inl, inr, Bool, true, false, ◌&&◌, Bool-cases,
  none, some, bytes_eq, bytes_eq_iff, ap, subst, if◌then◌else◌, ◌++◌, List, [], ◌∷◌, ◌∙◌, length,
  get_elem?, ltb, arith, All, All-append, length-append, is_empty, Option,
}
use embedded_agent.Core.Error.{Error, ok, err}
use embedded_agent.Provider.CredentialPool.{
  CredentialSlot, CredentialPool, add, scan, found, acquire, mark, mark_first, release,
}
use embedded_agent.Provider.CredentialPool.Scan.{IsDownAt, scan-some, scan-none}

pub data Call : Type 0 where
  adds : CredentialSlot → Call
  acquires : Call
  releases : CredentialSlot → Bool → Call

abbrev step : CredentialPool → Call → CredentialPool
step p (adds slot) = add p slot
step p acquires = (acquire p).0
step p (releases slot success) = release p slot success

pub run : CredentialPool → List Call → CredentialPool
run p [] = p
run p (c ∷ cs) = run (step p c) cs

-- A slot is healthy exactly while fewer than three errors have come in a row.
abbrev pub IsConsistent : CredentialSlot → Type 0
IsConsistent s = s.healthy ≡ ltb s.consecutive_errors 3

-- `slots_[current_index_]` exists, unless there are no slots.
abbrev pub IsInRange : CredentialPool → Type 0
IsInRange p = (p.current_index < length p.slots) ⊎ ((p.slots ≡ []) × (p.current_index ≡ 0))

pub record IsValid (p : CredentialPool) : Type 0 where
  pub in_range : IsInRange p
  pub consistent : All IsConsistent p.slots

scan-lt :
    (slots : List CredentialSlot) (start rounds index : ℕ)
    → index < length slots
    → (scan slots start rounds index).1 < length slots
unfolding scan
scan-lt slots start zero index h = h
scan-lt slots start (suc rounds) index h =
    let lt : (index + 1) % length slots < length slots = grind (arith, mod-lt) in
    ground (arith, scan-lt slots start rounds ((index + 1) % length slots))

length-mark_first :
    (slot : CredentialSlot) (b : Bool) (slots : List CredentialSlot)
    → length (mark_first slot b slots) ≡ length slots
unfolding mark_first
length-mark_first slot b [] = refl
length-mark_first slot b (s ∷ rest) = ground (arith, length-mark_first slot b rest)

mark-IsConsistent : (s : CredentialSlot) (b : Bool) → IsConsistent s → IsConsistent (mark s b)
unfolding mark
mark-IsConsistent s true h = refl
mark-IsConsistent s false h = ground arith

mark_first-IsConsistent :
    (slot : CredentialSlot) (b : Bool) (slots : List CredentialSlot)
    → All IsConsistent slots
    → All IsConsistent (mark_first slot b slots)
unfolding mark_first
mark_first-IsConsistent slot b [] h = tt
mark_first-IsConsistent slot b (s ∷ rest) h =
    ground (arith, mark-IsConsistent s b, mark_first-IsConsistent slot b rest h.1)

add-IsValid :
    (p : CredentialPool) (s : CredentialSlot) → IsConsistent s → IsValid p → IsValid (add p s)
unfolding add
add-IsValid p s h v = record {
  in_range = inl (omega (arith, length-append p.slots (s ∷ [])));
  consistent = All-append IsConsistent p.slots (s ∷ []) v.consistent (h, tt);
}

found-IsValid :
    (p : CredentialPool) (r : Option CredentialSlot × ℕ)
    → r.1 < length p.slots
    → IsValid p
    → IsValid (found p r).0
unfolding found
found-IsValid p (none, i) h v = record { in_range = inl h; consistent = v.consistent }
found-IsValid p (some s, i) h v = record { in_range = inl h; consistent = v.consistent }

acquire_empty : (p : CredentialPool) → p.slots ≡ [] → (acquire p).0 ≡ p
unfolding acquire
acquire_empty p e = rw (e, acquire)

is_empty-lt {ℓ} : {A : Type ℓ} (xs : List A) (i : ℕ) → i < length xs → is_empty xs ≡ false
is_empty-lt [] i h = absurd (omega arith)
is_empty-lt (x ∷ xs) i h = refl

acquire-found :
    (p : CredentialPool)
    → p.current_index < length p.slots
    → acquire p ≡ found p (scan p.slots p.current_index (length p.slots) p.current_index)
unfolding acquire
acquire-found p h = rw (is_empty-lt p.slots p.current_index h)

acquire-IsValid : (p : CredentialPool) → IsValid p → IsValid (acquire p).0
acquire-IsValid p v = elim v.in_range [
  | inl h ↦
      rw (acquire-found p h)
        (found-IsValid p _ (scan-lt p.slots p.current_index (length p.slots) p.current_index h) v)
  | inr (e, z) ↦ rw (acquire_empty p e) v
]

mark_first-IsInRange :
    (p : CredentialPool) (s : CredentialSlot) (b : Bool)
    → IsInRange p
    → IsInRange (record p { slots = mark_first s b p.slots })
mark_first-IsInRange p s b (inl h) = inl (omega (arith, length-mark_first s b p.slots))
mark_first-IsInRange p s b (inr (e, z)) = inr (rw e (unfold mark_first in refl), z)

release-IsValid :
    (p : CredentialPool) (s : CredentialSlot) (b : Bool) → IsValid p → IsValid (release p s b)
unfolding release
release-IsValid p s b v = record {
  in_range = mark_first-IsInRange p s b v.in_range;
  consistent = mark_first-IsConsistent s b p.slots v.consistent;
}

-- What a caller adds is consistent, as a fresh slot is.
abbrev pub IsSound : Call → Type 0
IsSound (adds slot) = IsConsistent slot
IsSound _ = Unit {0}

step-IsValid : (p : CredentialPool) (c : Call) → IsSound c → IsValid p → IsValid (step p c)
step-IsValid p (adds slot) h v = add-IsValid p slot h v
step-IsValid p acquires h v = acquire-IsValid p v
step-IsValid p (releases slot success) h v = release-IsValid p slot success v

run_from-IsValid :
    (p : CredentialPool) (cs : List Call) → All IsSound cs → IsValid p → IsValid (run p cs)
unfolding run
run_from-IsValid p [] h v = v
run_from-IsValid p (c ∷ cs) h v = run_from-IsValid (step p c) cs h.1 (step-IsValid p c h.0 v)

-- The key and the model are those of the other slot.
abbrev pub same_key : CredentialSlot → CredentialSlot → Bool
same_key a b = bytes_eq a.api_key b.api_key && bytes_eq a.model b.model

-- The first slot with the key and the model.
unfoldable pub first_of : CredentialSlot → List CredentialSlot → Option CredentialSlot
first_of key [] = none
first_of key (s ∷ slots) = if same_key s key then some s else first_of key slots

-- The errors in a row of a key after the calls, where `n` came before them.
unfoldable pub errors_in_row : CredentialSlot → List Call → ℕ → ℕ
errors_in_row key [] n = n
errors_in_row key (adds slot ∷ cs) n = errors_in_row key cs n
errors_in_row key (acquires ∷ cs) n = errors_in_row key cs n
errors_in_row key (releases slot success ∷ cs) n =
    errors_in_row key cs (if same_key key slot then (if success then 0 else n + 1) else n)

first_of-append :
    (key s slot : CredentialSlot) (slots : List CredentialSlot)
    → first_of key slots ≡ some s
    → first_of key (slots ++ slot ∷ []) ≡ some s
unfolding first_of
first_of-append key s slot [] h = cc
first_of-append key s slot (t ∷ slots) h = ground (arith, first_of-append key s slot slots)

first_of-mark_first :
    (key s slot : CredentialSlot) (b : Bool) (slots : List CredentialSlot)
    → first_of key slots ≡ some s
    → first_of key (mark_first slot b slots) ≡ some (if same_key key slot then mark s b else s)
unfolding first_of mark_first mark
first_of-mark_first key s slot b [] h = cc
first_of-mark_first key s slot true (t ∷ slots) h = ground (
  arith,
  bytes_eq_iff t.api_key key.api_key,
  bytes_eq_iff t.api_key slot.api_key,
  bytes_eq_iff key.api_key slot.api_key,
  bytes_eq_iff t.model key.model,
  bytes_eq_iff t.model slot.model,
  bytes_eq_iff key.model slot.model,
  first_of-mark_first key s slot true slots,
)
first_of-mark_first key s slot false (t ∷ slots) h = ground (
  arith,
  bytes_eq_iff t.api_key key.api_key,
  bytes_eq_iff t.api_key slot.api_key,
  bytes_eq_iff key.api_key slot.api_key,
  bytes_eq_iff t.model key.model,
  bytes_eq_iff t.model slot.model,
  bytes_eq_iff key.model slot.model,
  first_of-mark_first key s slot false slots,
)

found-slots : (p : CredentialPool) (r : Option CredentialSlot × ℕ) → (found p r).0.slots ≡ p.slots
unfolding found
found-slots p (none, i) = refl
found-slots p (some s, i) = refl

acquire-slots : (p : CredentialPool) → (acquire p).0.slots ≡ p.slots
unfolding acquire
acquire-slots p = elim (Bool-cases (is_empty p.slots)) [
  | inl e ↦ rw (acquire, e) refl
  | inr e ↦
      rw (acquire, e)
        (found-slots p (scan p.slots p.current_index (length p.slots) p.current_index))
]

first_of-All :
    (P : CredentialSlot → Type 0) (key s : CredentialSlot) (slots : List CredentialSlot)
    → All P slots
    → first_of key slots ≡ some s
    → P s
unfolding first_of
first_of-All P key s [] h at = cc
first_of-All P key s (t ∷ slots) h at = elim (Bool-cases (same_key t key)) [
  | inl e ↦ subst P (ground arith) h.0
  | inr e ↦ first_of-All P key s slots h.1 (ground arith)
]

-- What the errors in a row become, and the flag with them.
mark-errors :
    (is_it b : Bool) (s : CredentialSlot) (n : ℕ)
    → s.consecutive_errors ≡ n
    → s.healthy ≡ ltb n 3
    → let t = if is_it then mark s b else s in
      let m = if is_it then (if b then 0 else n + 1) else n in
      (t.consecutive_errors ≡ m) × (t.healthy ≡ ltb m 3)
unfolding mark
mark-errors false b s n e f = (e, f)
mark-errors true true s n e f = (refl, refl)
mark-errors true false s n e f = (ground arith, ground arith)

-- Its first slot with the key has as many errors as `n`, and its flag fits them.
abbrev pub HasErrors : CredentialSlot → ℕ → CredentialPool → Type 0
HasErrors key n p =
    (s : CredentialSlot) × (first_of key p.slots ≡ some s)
    × (s.consecutive_errors ≡ n)
    × (s.healthy ≡ ltb n 3)

run_from-HasErrors :
    (key : CredentialSlot) (p : CredentialPool) (cs : List Call) (n : ℕ)
    → HasErrors key n p
    → HasErrors key (errors_in_row key cs n) (run p cs)
unfolding run errors_in_row
run_from-HasErrors key p [] n h = h
run_from-HasErrors key p (adds slot ∷ cs) n (s, at, e, f) =
    run_from-HasErrors key (add p slot) cs n
      (s, unfold add in first_of-append key s slot p.slots at, e, f)
run_from-HasErrors key p (acquires ∷ cs) n (s, at, e, f) =
    run_from-HasErrors key (acquire p).0 cs n (s, ap (first_of key) (acquire-slots p) ∙ at, e, f)
run_from-HasErrors key p (releases slot b ∷ cs) n (s, at, e, f) =
    let marked = mark-errors (same_key key slot) b s n e f in
    run_from-HasErrors key (release p slot b) cs
      (if same_key key slot then (if b then 0 else n + 1) else n)
      (
        if same_key key slot then mark s b else s,
        unfold release in first_of-mark_first key s slot b p.slots at,
        marked.0,
        marked.1,
      )

-- After any history of a pool whose index points at a slot and whose slots fit their errors, to which only
-- such slots are added: that is so again; and where the pool has a slot with a key, the first one has
-- exactly the errors in a row that the history has for the key since the last success, on top of those
-- that it had before where there was none, and it is healthy exactly while they are fewer than three.
pub run-IsValid :
    (p : CredentialPool) (cs : List Call) (key s : CredentialSlot)
    → IsValid p
    → All IsSound cs
    → first_of key p.slots ≡ some s
    → IsValid (run p cs) × HasErrors key (errors_in_row key cs s.consecutive_errors) (run p cs)
run-IsValid p cs key s v h at = (
  run_from-IsValid p cs h v,
  run_from-HasErrors key p cs s.consecutive_errors
      (s, at, refl, first_of-All IsConsistent key s p.slots v.consistent at),
)

found-ok :
    (p : CredentialPool) (r : Option CredentialSlot × ℕ) (s : CredentialSlot)
    → (found p r).1 ≡ ok s
    → (r.0 ≡ some s) × ((found p r).0.current_index ≡ r.1)
unfolding found
found-ok p (none, i) s h = cc
found-ok p (some t, i) s h = ground arith

found-err :
    (p : CredentialPool) (r : Option CredentialSlot × ℕ) (e : Error)
    → (found p r).1 ≡ err e
    → r.0 ≡ none
unfolding found
found-err p (none, i) e h = refl
found-err p (some t, i) e h = cc

get_elem?-ge {ℓ} : {A : Type ℓ} (xs : List A) (i : ℕ) → length xs ≤ i → get_elem? xs i ≡ none
get_elem?-ge [] i h = refl
get_elem?-ge (x ∷ xs) zero h = absurd (omega arith)
get_elem?-ge (x ∷ xs) (suc i) h = get_elem?-ge xs i (omega arith)

IsDownAt-all :
    (slots : List CredentialSlot)
    → ((j : ℕ) → j < length slots → IsDownAt slots j)
    → (j : ℕ) → IsDownAt slots j
IsDownAt-all slots h j = elim (dec_lt j (length slots)) [
  | yes lt ↦ h j lt
  | no ge ↦ λ s at. absurd (ground (arith, get_elem?-ge slots j))
]

-- In a pool whose index points at a slot: what `acquire` gives out is a healthy slot of the pool,
-- and the next search starts behind it; it fails only if no slot of the pool is healthy.
pub acquire_finds :
    (p : CredentialPool)
    → p.current_index < length p.slots
    → ((s : CredentialSlot)
        → (acquire p).1 ≡ ok s
        → (i : ℕ) × (get_elem? p.slots i ≡ some s)
          × (s.healthy ≡ true)
          × ((acquire p).0.current_index ≡ (i + 1) % length p.slots))
      × ((e : Error) → (acquire p).1 ≡ err e → (j : ℕ) → IsDownAt p.slots j)
acquire_finds p h = rw (acquire-found p h) (
  (λ s got.
      let (hit, at) = found-ok p r s got in
      let (i, here, up, next) =
        scan-some p.slots p.current_index (length p.slots) p.current_index s hit in
      (i, here, up, at ∙ next)),
  λ e failed. IsDownAt-all p.slots (
      scan-none p.slots p.current_index (length p.slots) p.current_index h h
        (inl (omega arith, omega arith)) (λ j hj passed. absurd (omega arith))
        (found-err p r e failed)),
)
  where
    r : Option CredentialSlot × ℕ
    r = scan p.slots p.current_index (length p.slots) p.current_index
