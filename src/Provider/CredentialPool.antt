-- ===== src/Provider/CredentialPool.antt =====
-- src/provider/CredentialPool.cpp: keys used in turn, without those that keep failing. Every method
-- holds the mutex from its first to its last line, so each is one step.
mod Scan
pub mod Health
mod Tests
use embedded_agent.Base.{
  ℕ, zero, suc, ◌+◌, ◌%◌, Bytes, Bool, true, false, ◌&&◌, Option, none, some, List, [], ◌∷◌, ◌++◌,
  codes, bytes_eq, length, get_elem?, leb, ◌==◌, if◌then◌else◌, keep, is_empty,
}
use embedded_agent.Core.Error.{Result, ok, err, error_of, ErrorCode}

pub record CredentialSlot : Type 0 where
  pub api_key : Bytes
  pub model : Bytes
  pub healthy : Bool
  pub consecutive_errors : ℕ

pub record CredentialPool : Type 0 where
  pub slots : List CredentialSlot
  pub current_index : ℕ

abbrev pub empty : CredentialPool
empty = record { slots = []; current_index = 0 }

pub add : CredentialPool → CredentialSlot → CredentialPool
add p slot = record p { slots = p.slots ++ slot ∷ [] }

unfoldable pub size : CredentialPool → ℕ
size p = length p.slots

unfoldable pub healthy_count : CredentialPool → ℕ
healthy_count p = length (keep (λ s. s.healthy) p.slots)

-- The do-while loop of `acquire`, with the rounds left. A round looks at `index`; the loop ends
-- where it is back at `start`, so as many rounds as there are slots are enough.
pub scan : List CredentialSlot → ℕ → ℕ → ℕ → Option CredentialSlot × ℕ
scan slots start zero index = (none, index)
scan slots start (suc rounds) index =
    let following = (index + 1) % length slots in
    let later = scan slots start rounds following in
    elim (get_elem? slots index) [
      | none ↦ (none, index)
      | some slot ↦
          if slot.healthy
          then (some slot, following)
          else if following == start
          then (none, following)
          else later
    ]

-- What `acquire` does with the slot that the loop found.
pub found : CredentialPool → Option CredentialSlot × ℕ → CredentialPool × Result CredentialSlot
found p (none, index) = (
  record p { current_index = index },
  err (error_of ErrorCode.not_found (codes "No healthy credentials available")),
)
found p (some slot, index) = (record p { current_index = index }, ok slot)

unfoldable pub acquire : CredentialPool → CredentialPool × Result CredentialSlot
unfolding scan found
acquire p =
    if is_empty p.slots
    then (p, err (error_of ErrorCode.not_found (codes "No credentials configured")))
    else found p (scan p.slots p.current_index (length p.slots) p.current_index)

-- What `release` does to the slot that matches.
pub mark : CredentialSlot → Bool → CredentialSlot
mark s true = record s { consecutive_errors = 0; healthy = true }
mark s false =
    let errors = s.consecutive_errors + 1 in
    record s { consecutive_errors = errors; healthy = if leb 3 errors then false else s.healthy }

-- The loop of `release`: the first slot with the key and the model.
pub mark_first : CredentialSlot → Bool → List CredentialSlot → List CredentialSlot
unfolding mark
mark_first slot success [] = []
mark_first slot success (s ∷ rest) =
    let later = mark_first slot success rest in
    if bytes_eq s.api_key slot.api_key && bytes_eq s.model slot.model
    then mark s success ∷ rest
    else s ∷ later

unfoldable pub release : CredentialPool → CredentialSlot → Bool → CredentialPool
unfolding mark_first
release p slot success = record p { slots = mark_first slot success p.slots }
