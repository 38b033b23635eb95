-- ===== src/Memory/FtsSanitizer.antt =====
-- src/memory/FtsSanitizer.cpp. `std::isalnum` and `std::tolower` are those of the C locale.
pub mod Words
mod Tests
use embedded_agent.Base.{
  ℕ, ◌+◌, ◌-◌, Bytes, Bool, true, false, not, ◌&&◌, ◌||◌, none, some, List, [], ◌∷◌, ◌++◌, codes,
  length, ltb, leb, is_empty, bytes_eq, ◌==◌, if◌then◌else◌,
}
use embedded_agent.Base.Map.{set_has, set_insert}
use embedded_agent.Core.StringUtil.{to_lower_byte}

-- The words that are stripped from a query.
unfoldable pub stop_words : List Bytes
stop_words =
    codes "a"
    ∷ codes "an"
    ∷ codes "the"
    ∷ codes "and"
    ∷ codes "or"
    ∷ codes "but"
    ∷ codes "in"
    ∷ codes "on"
    ∷ codes "at"
    ∷ codes "to"
    ∷ codes "for"
    ∷ codes "of"
    ∷ codes "with"
    ∷ codes "by"
    ∷ codes "from"
    ∷ codes "is"
    ∷ codes "it"
    ∷ codes "as"
    ∷ codes "be"
    ∷ codes "was"
    ∷ codes "are"
    ∷ codes "were"
    ∷ codes "been"
    ∷ codes "have"
    ∷ codes "has"
    ∷ codes "had"
    ∷ codes "do"
    ∷ codes "does"
    ∷ codes "did"
    ∷ codes "will"
    ∷ codes "would"
    ∷ codes "could"
    ∷ codes "should"
    ∷ codes "may"
    ∷ codes "might"
    ∷ codes "can"
    ∷ codes "this"
    ∷ codes "that"
    ∷ codes "these"
    ∷ codes "those"
    ∷ codes "i"
    ∷ codes "you"
    ∷ codes "he"
    ∷ codes "she"
    ∷ codes "we"
    ∷ codes "they"
    ∷ codes "me"
    ∷ codes "him"
    ∷ codes "her"
    ∷ codes "us"
    ∷ codes "them"
    ∷ codes "my"
    ∷ codes "your"
    ∷ codes "his"
    ∷ codes "its"
    ∷ codes "our"
    ∷ codes "their"
    ∷ codes "what"
    ∷ codes "which"
    ∷ codes "who"
    ∷ codes "when"
    ∷ codes "where"
    ∷ codes "how"
    ∷ codes "not"
    ∷ codes "no"
    ∷ codes "nor"
    ∷ codes "if"
    ∷ codes "then"
    ∷ codes "than"
    ∷ codes "so"
    ∷ codes "just"
    ∷ codes "about"
    ∷ codes "also"
    ∷ codes "very"
    ∷ []

-- `std::isalnum(c) || c == '_'`
unfoldable pub is_word : ℕ → Bool
is_word c =
    (((leb b'0' c && leb c b'9') || (leb b'A' c && leb c b'Z')) || (leb b'a' c && leb c b'z'))
    || c == b'_'

-- `if (!current.empty()) tokens.push_back(current)`, in front of the tokens that follow
abbrev pub push_token : Bytes → List Bytes → List Bytes
push_token current rest = if is_empty current then rest else current ∷ rest

-- The loop of `tokenize`.
unfoldable pub tokens_from : Bytes → Bytes → List Bytes
unfolding is_word to_lower_byte
tokens_from current [] = push_token current []
tokens_from current (c ∷ text) =
    let longer = tokens_from (current ++ to_lower_byte c ∷ []) text in
    let rest = tokens_from [] text in if is_word c then longer else push_token current rest

unfoldable pub tokenize : Bytes → List Bytes
unfolding tokens_from
tokenize text = tokens_from [] text

-- An operator of FTS5.
unfoldable pub is_operator : Bytes → Bool
unfolding bytes_eq
is_operator tok =
    ((bytes_eq tok (codes "AND") || bytes_eq tok (codes "OR")) || bytes_eq tok (codes "NOT"))
    || bytes_eq tok (codes "NEAR")

-- The loop that drops short tokens, operators and the given words.
unfoldable pub clean : List Bytes → List Bytes → List Bytes
unfolding is_operator set_has
clean words [] = []
clean words (tok ∷ tokens) =
    let rest = clean words tokens in
    if ltb (length tok) 2
    then rest
    else if is_operator tok
    then rest
    else if set_has tok words
    then rest
    else tok ∷ rest

unfoldable pub join_or : List Bytes → Bytes
join_or [] = []
join_or (tok ∷ []) = tok
join_or (tok ∷ other ∷ tokens) = tok ++ codes " OR " ++ join_or (other ∷ tokens)

unfoldable pub sanitize : Bytes → Bytes
unfolding tokenize clean stop_words join_or
sanitize raw_query = join_or (clean stop_words (tokenize raw_query))

-- A quotient of two counts.
pub record Ratio : Type 0 where
  pub shared : ℕ
  pub all : ℕ

-- `std::set<std::string>(a.begin(), a.end())`
abbrev pub set_of : List Bytes → List Bytes
set_of [] = []
set_of (tok ∷ tokens) = set_insert tok (set_of tokens)

-- The loop over the first set.
abbrev pub count_shared : List Bytes → List Bytes → ℕ
count_shared [] set_b = 0
count_shared (tok ∷ tokens) set_b = (if set_has tok set_b then 1 else 0) + count_shared tokens set_b

-- The quotient that the source returns as a `double`.
unfoldable pub jaccard_similarity : List Bytes → List Bytes → Ratio
unfolding set_has set_insert
jaccard_similarity [] [] = record { shared = 1; all = 1 }
jaccard_similarity [] (y ∷ b) = record { shared = 0; all = 1 }
jaccard_similarity (x ∷ a) [] = record { shared = 0; all = 1 }
jaccard_similarity (x ∷ a) (y ∷ b) =
    let set_a = set_of (x ∷ a) in
    let set_b = set_of (y ∷ b) in
    let intersection = count_shared set_a set_b in
    record { shared = intersection; all = (length set_a + length set_b) - intersection }
