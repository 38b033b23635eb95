-- ===== src/Memory/FtsSanitizer/Words.antt =====
-- The sanitised query is made of plain words.
use embedded_agent.Base.{ℕ, ◌≤◌, ◌≡◌, Bytes, true, false, ◌&&◌, List, length, leb, is_empty, All}
use embedded_agent.Base.Map.{set_has}
use embedded_agent.Memory.FtsSanitizer.{is_word, is_operator}

-- A byte of a token: a letter, a digit or an underscore, and no capital.
unfoldable pub IsPlain : ℕ → Type 0
unfolding is_word
IsPlain c = (is_word c ≡ true) × ((leb b'A' c && leb c b'Z') ≡ false)

-- A token: it has a byte, and its bytes are plain.
unfoldable pub IsToken : Bytes → Type 0
unfolding IsPlain
IsToken tok = (is_empty tok ≡ false) × All IsPlain tok

-- A token that is kept: it has two bytes or more, and is neither an operator nor one of the words.
unfoldable pub IsKept : List Bytes → Bytes → Type 0
unfolding IsToken set_has is_operator
IsKept words tok =
    IsToken tok × (2 ≤ length tok) × (is_operator tok ≡ false) × (set_has tok words ≡ false)
