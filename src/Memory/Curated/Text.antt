-- ===== src/Memory/Curated/Text.antt =====
-- src/memory/CuratedMemoryStore.cpp: how the entries stand in a file.
pub mod RoundTrip
use embedded_agent.Base.{
  ℕ, zero, suc, ◌+◌, Bytes, Bool, ◌&&◌, ◌||◌, none, some, List, [], ◌∷◌, ◌++◌, length, take, drop,
  leb, is_empty, find, ◌==◌, if◌then◌else◌,
}

-- `kDelimiter`, a section sign in UTF-8 on a line of its own
unfoldable pub delimiter : Bytes
delimiter = 10 ∷ 194 ∷ 167 ∷ 10 ∷ []

-- `std::isspace` in the C locale
abbrev pub is_space : ℕ → Bool
is_space c = c == 32 || (leb 9 c && leb c 13)

-- The loop over `b`.
unfoldable pub trim_front : Bytes → Bytes
trim_front [] = []
trim_front (c ∷ s) = let rest = trim_front s in if is_space c then rest else c ∷ s

-- The loop over `e`.
unfoldable pub trim_back : Bytes → Bytes
trim_back [] = []
trim_back (c ∷ s) = let rest = trim_back s in if is_empty rest && is_space c then [] else c ∷ rest

unfoldable pub trim : Bytes → Bytes
unfolding trim_front trim_back
trim s = trim_back (trim_front s)

-- `if (!piece.empty()) out.push_back(piece)`, in front of the pieces that follow
unfoldable pub push_piece : Bytes → List Bytes → List Bytes
unfolding trim
push_piece piece rest = if is_empty (trim piece) then rest else trim piece ∷ rest

-- The loop of `split_entries` over the text from `start` on. A round that finds a delimiter goes on
-- behind it, so that `length text + 1` rounds are enough.
unfoldable pub split_rounds : ℕ → Bytes → List Bytes
unfolding push_piece delimiter find
split_rounds zero text = []
split_rounds (suc fuel) text = elim (find delimiter text) [
  | none ↦ push_piece text []
  | some pos ↦ push_piece (take pos text) (split_rounds fuel (drop (pos + length delimiter) text))
]

unfoldable pub split_entries : Bytes → List Bytes
unfolding split_rounds
split_entries text = split_rounds (suc (length text)) text

unfoldable pub join_entries : List Bytes → Bytes
unfolding delimiter
join_entries [] = []
join_entries (e ∷ []) = e
join_entries (e ∷ f ∷ list) = e ++ (delimiter ++ join_entries (f ∷ list))

-- What `write_file` writes.
unfoldable pub file_text : List Bytes → Bytes
unfolding join_entries
file_text list = join_entries list ++ (if is_empty list then [] else 10 ∷ [])
