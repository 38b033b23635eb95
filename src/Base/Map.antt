-- ===== src/Base/Map.antt =====
-- `std::map<std::string, V>` and `std::set<std::string>`: lists in the order of their keys.
use mathlib.Core.Path.{◌≡◌, refl}
use mathlib.Core.Bool.{Bool, true, false, ◌||◌}
use mathlib.Core.List.{List, [], ◌∷◌, ◌++◌}
use mathlib.Core.Option.{Option, none, some}
use native.Mathlib.Omega.{arith}
use embedded_agent.Base.Tests.{if◌then◌else◌}
use embedded_agent.Base.Text.{Bytes, bytes_eq, bytes_lt, bytes_eq_iff}

module _ {ℓ} {V : Type ℓ} where
  -- `m.find(k)`
  unfoldable pub lookup : Bytes → List (Bytes × V) → Option V
  lookup k [] = none
  lookup k ((j, v) ∷ m) = if bytes_eq j k then some v else lookup k m

  -- `m[k] = v`
  unfoldable pub insert : Bytes → V → List (Bytes × V) → List (Bytes × V)
  insert k v [] = (k, v) ∷ []
  insert k v ((j, w) ∷ m) =
      if bytes_eq j k
      then (k, v) ∷ m
      else if bytes_lt k j
      then (k, v) ∷ (j, w) ∷ m
      else (j, w) ∷ insert k v m

  -- `m.erase(k)`
  unfoldable pub erase : Bytes → List (Bytes × V) → List (Bytes × V)
  erase k [] = []
  erase k ((j, v) ∷ m) = let rest = erase k m in if bytes_eq j k then rest else (j, v) ∷ rest

  pub lookup-insert :
      (k j : Bytes) (v : V) (m : List (Bytes × V))
      → lookup j (insert k v m) ≡ (if bytes_eq k j then some v else lookup j m)
  unfolding lookup insert
  lookup-insert k j v [] = refl
  lookup-insert k j v ((i, w) ∷ m) =
      ground (arith, bytes_eq_iff k j, bytes_eq_iff i k, bytes_eq_iff i j, lookup-insert k j v m)

  pub lookup-erase :
      (k j : Bytes) (m : List (Bytes × V))
      → lookup j (erase k m) ≡ (if bytes_eq k j then none else lookup j m)
  unfolding lookup erase
  lookup-erase k j [] = ground arith
  lookup-erase k j ((i, w) ∷ m) =
      ground (arith, bytes_eq_iff k j, bytes_eq_iff i k, bytes_eq_iff i j, lookup-erase k j m)

-- `s.insert(k)`
unfoldable pub set_insert : Bytes → List Bytes → List Bytes
set_insert k [] = k ∷ []
set_insert k (j ∷ s) =
    if bytes_eq j k then j ∷ s else if bytes_lt k j then k ∷ j ∷ s else j ∷ set_insert k s

-- `s.erase(k)`
unfoldable pub set_erase : Bytes → List Bytes → List Bytes
set_erase k [] = []
set_erase k (j ∷ s) = let rest = set_erase k s in if bytes_eq j k then rest else j ∷ rest

-- `s.count(k) > 0`
unfoldable pub set_has : Bytes → List Bytes → Bool
set_has k [] = false
set_has k (j ∷ s) = bytes_eq j k || set_has k s

pub set_has-insert :
    (k j : Bytes) (s : List Bytes)
    → set_has j (set_insert k s) ≡ (if bytes_eq k j then true else set_has j s)
unfolding set_has set_insert
set_has-insert k j [] = ground arith
set_has-insert k j (i ∷ s) =
    ground (arith, bytes_eq_iff k j, bytes_eq_iff i k, bytes_eq_iff i j, set_has-insert k j s)

pub set_has-erase :
    (k j : Bytes) (s : List Bytes)
    → set_has j (set_erase k s) ≡ (if bytes_eq k j then false else set_has j s)
unfolding set_has set_erase
set_has-erase k j [] = ground arith
set_has-erase k j (i ∷ s) =
    ground (arith, bytes_eq_iff k j, bytes_eq_iff i k, bytes_eq_iff i j, set_has-erase k j s)

pub set_has-append :
    (n : Bytes) (xs ys : List Bytes) → set_has n (xs ++ ys) ≡ (set_has n xs || set_has n ys)
unfolding set_has
set_has-append n [] ys = refl
set_has-append n (x ∷ xs) ys = ground (arith, set_has-append n xs ys)
