-- ===== src/Core/StringUtil.antt =====
-- src/base/StringUtil.h
pub mod Split
mod Tests
use embedded_agent.Base.{
  ℕ, zero, suc, ◌+◌, ◌-◌, Bytes, Bool, ◌&&◌, ◌||◌, none, some, List, [], ◌∷◌, ◌++◌, length, take,
  drop, bytes_eq, is_prefix, find_byte, find, ltb, leb, ◌==◌, if◌then◌else◌, map,
}

-- The loop of `split`, over the text from `start` on. Each round takes one part and the delimiter
-- behind it; `length s + 1` rounds are enough, since each takes at least one byte but the last.
split_loop : ℕ → Bytes → ℕ → List Bytes
unfolding find_byte
split_loop zero s delim = []
split_loop (suc fuel) s delim = elim (find_byte delim s) [
  | none ↦ s ∷ []
  | some pos ↦ take pos s ∷ split_loop fuel (drop (suc pos) s) delim
]

unfoldable pub split : Bytes → ℕ → List Bytes
unfolding split_loop
split s delim = split_loop (suc (length s)) s delim

unfoldable pub starts_with : Bytes → Bytes → Bool
unfolding is_prefix
starts_with s prefix = is_prefix prefix s

unfoldable pub ends_with : Bytes → Bytes → Bool
unfolding bytes_eq
ends_with s suffix =
    leb (length suffix) (length s) && bytes_eq (drop (length s - length suffix) s) suffix

-- `::tolower` in the C locale
unfoldable pub to_lower_byte : ℕ → ℕ
to_lower_byte c = if leb b'A' c && leb c b'Z' then c + 32 else c

unfoldable pub to_lower : Bytes → Bytes
unfolding to_lower_byte
to_lower s = map to_lower_byte s

-- `" \t\r\n"`
is_blank : ℕ → Bool
is_blank c = c == 32 || c == 9 || c == 13 || c == 10

-- `s.substr(s.find_first_not_of(blanks))`
trim_left : Bytes → Bytes
unfolding is_blank
trim_left [] = []
trim_left (c ∷ s) = let rest = trim_left s in if is_blank c then rest else c ∷ s

-- `s.substr(0, s.find_last_not_of(blanks) + 1)`
trim_right : Bytes → Bytes
unfolding is_blank
trim_right [] = []
trim_right (c ∷ s) = elim (trim_right s) [
  | [] ↦ if is_blank c then [] else c ∷ []
  | d ∷ r ↦ c ∷ d ∷ r
]

unfoldable pub trim : Bytes → Bytes
unfolding trim_left trim_right
trim s = trim_right (trim_left s)

-- The loop of `replace_all` over the text from `pos` on. A round that finds `from` puts `to` in its
-- place and goes on behind it.
replace_loop : ℕ → Bytes → Bytes → Bytes → Bytes
unfolding find
replace_loop zero s from to = s
replace_loop (suc fuel) s from to = elim (find from s) [
  | none ↦ s
  | some pos ↦ take pos s ++ to ++ replace_loop fuel (drop (pos + length from) s) from to
]

-- `from` is not empty: with an empty `from` the source's loop does not end.
unfoldable pub replace_all : Bytes → Bytes → Bytes → Bytes
unfolding replace_loop
replace_all s from to = replace_loop (suc (length s)) s from to
