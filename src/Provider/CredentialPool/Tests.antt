-- ===== src/Provider/CredentialPool/Tests.antt =====
-- A pool of three keys, one of them down, and the theorems about it.
use embedded_agent.Base.{
  ℕ, ◌+◌, ◌%◌, ◌≡◌, refl, inl, Bytes, true, false, some, List, [], ◌∷◌, codes, arith, get_elem?,
  length, bytes_eq,
}
use embedded_agent.Core.Error.{Error, ok, err}
use embedded_agent.Provider.CredentialPool.{
  CredentialSlot, CredentialPool, acquire, release, healthy_count,
}
use embedded_agent.Provider.CredentialPool.Scan.{IsDownAt}
use embedded_agent.Provider.CredentialPool.Health.{
  Call, adds, acquires, releases, run, IsValid, HasErrors, errors_in_row, first_of, run-IsValid,
  acquire_finds,
}

abbrev key : Bytes → CredentialSlot
key k = record { api_key = k; model = codes "m"; healthy = true; consecutive_errors = 0 }

abbrev down_key : CredentialSlot
down_key = record {
  api_key = codes "b";
  model = codes "m";
  healthy = false;
  consecutive_errors = 3;
}

abbrev pool : CredentialPool
pool = record { slots = key (codes "a") ∷ down_key ∷ key (codes "c") ∷ []; current_index = 1 }

skips_down : acquire pool ≡ (record pool { current_index = 0 }, ok (key (codes "c")))
unfolding acquire
skips_down = refl

counts : healthy_count pool ≡ 2
unfolding healthy_count
counts = refl

recovers : healthy_count (release pool down_key true) ≡ 3
unfolding healthy_count release bytes_eq
recovers = refl

abbrev one_key : CredentialPool
one_key = record { slots = key (codes "a") ∷ []; current_index = 0 }

abbrev history : List Call
history =
    adds (key (codes "b"))
    ∷ releases (key (codes "a")) true
    ∷ releases (key (codes "a")) false
    ∷ releases (key (codes "b")) false
    ∷ acquires
    ∷ releases (key (codes "a")) false
    ∷ []

run-IsValid_example :
    IsValid (run one_key history)
    × HasErrors (key (codes "a")) (errors_in_row (key (codes "a")) history 0) (run one_key history)
unfolding first_of bytes_eq
run-IsValid_example =
    run-IsValid one_key history (key (codes "a")) (key (codes "a"))
      (record { in_range = inl (omega arith); consistent = (refl, tt) })
      (refl, (tt, (tt, (tt, (tt, (tt, tt)))))) refl

two_errors : errors_in_row (key (codes "a")) history 0 ≡ 2
unfolding errors_in_row bytes_eq
two_errors = refl

acquire_finds_example :
    ((s : CredentialSlot)
      → (acquire pool).1 ≡ ok s
      → (i : ℕ) × (get_elem? pool.slots i ≡ some s)
        × (s.healthy ≡ true)
        × ((acquire pool).0.current_index ≡ (i + 1) % length pool.slots))
    × ((e : Error) → (acquire pool).1 ≡ err e → (j : ℕ) → IsDownAt pool.slots j)
acquire_finds_example = acquire_finds pool (omega arith)
