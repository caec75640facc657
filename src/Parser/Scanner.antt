-- ===== src/Parser/Scanner.antt =====
-- `ContainsVisualiseKeyword` of src/ggsql_parser.cpp. A position `i` in the query is the text
-- before it, last character first, and the text from it on.
use ggsql_duckdb.Prelude.{
  ℕ, zero, suc, ◌+◌, Bool, true, false, not, ◌&&◌, ◌||◌, Option, none, some, List, [], ◌∷◌, ◌==◌,
  leb, length, codes, if◌then◌else◌,
}

abbrev pub Text : Type 0
Text = List ℕ

pub record Cursor : Type 0 where
  pub before : Text
  pub after : Text

abbrev pub is_alnum : ℕ → Bool
is_alnum c = (leb b'0' c && leb c b'9') || (leb b'A' c && leb c b'Z') || (leb b'a' c && leb c b'z')

unfoldable pub is_ident_char : ℕ → Bool
is_ident_char c = is_alnum c || c == b'_'

-- `std::tolower` on a byte, in the C locale
unfoldable pub lower : ℕ → ℕ
lower c = if leb b'A' c && leb c b'Z' then c + 32 else c

abbrev pub starts_ident : Text → Bool
starts_ident [] = false
starts_ident (c ∷ s) = is_ident_char c

-- The loop of `MatchesWholeWord`: what follows the word, or `none` where it is not there.
unfoldable pub match_word : Text → Text → Option Text
match_word [] s = some s
match_word (b ∷ needle) [] = none
match_word (b ∷ needle) (a ∷ s) =
    let rest = match_word needle s in if lower a == lower b then rest else none

unfoldable pub matches_whole_word : Cursor → Text → Bool
matches_whole_word at needle = elim (match_word needle at.after) [
  | none ↦ false
  | some rest ↦ not (starts_ident at.before) && not (starts_ident rest)
]

abbrev pub visualise_keywords : List Text
visualise_keywords = codes "VISUALISE" ∷ codes "VISUALIZE" ∷ []

abbrev pub matches_any : Cursor → List Text → Bool
matches_any at [] = false
matches_any at (keyword ∷ keywords) = matches_whole_word at keyword || matches_any at keywords

abbrev pub cursor : Text → Text → Cursor
cursor before after = record { before = before; after = after }

-- The loop over a line comment: it stops at the end of the line.
unfoldable pub skip_line : Text → Text → Cursor
skip_line before [] = cursor before []
skip_line before (c ∷ s) =
    let rest = skip_line (c ∷ before) s in if c == b'\n' then cursor before (c ∷ s) else rest

-- The loop over a block comment: it stops behind `*/`, or at the end of the query.
unfoldable pub skip_block : Text → Text → Cursor
skip_block before [] = cursor before []
skip_block before (c ∷ []) = cursor (c ∷ before) []
skip_block before (c ∷ d ∷ s) =
    let rest = skip_block (c ∷ before) (d ∷ s) in
    if c == b'*' && d == b'/' then cursor (d ∷ c ∷ before) s else rest

-- The loop over a quoted text, behind its first quote: a doubled quote does not end it.
unfoldable pub skip_quoted : ℕ → Text → Text → Cursor
skip_quoted quote before [] = cursor before []
skip_quoted quote before (c ∷ []) = cursor (c ∷ before) []
skip_quoted quote before (c ∷ d ∷ s) =
    let over = skip_quoted quote (d ∷ c ∷ before) s in
    let rest = skip_quoted quote (c ∷ before) (d ∷ s) in
    if c == quote then (if d == quote then over else cursor (c ∷ before) (d ∷ s)) else rest

unfoldable pub skip_ident : Text → Text → Cursor
skip_ident before [] = cursor before []
skip_ident before (c ∷ s) =
    let rest = skip_ident (c ∷ before) s in if is_ident_char c then rest else cursor before (c ∷ s)

-- Where the loop goes from a position with a character: it has found a keyword, or goes on.
pub data Move : Type 0 where
  found : Move
  on : Cursor → Move

abbrev pub starts_with_char : ℕ → Text → Bool
starts_with_char d [] = false
starts_with_char d (c ∷ s) = c == d

abbrev pub tail : Text → Text
tail [] = []
tail (c ∷ s) = s

-- `i += 2` at a position with two characters
abbrev pub two_on : Text → ℕ → Text → Cursor
two_on before c [] = cursor (c ∷ before) []
two_on before c (d ∷ s) = cursor (d ∷ c ∷ before) s

-- A word is tried as a keyword only where it begins, and is skipped whole.
abbrev pub scan_word : Text → ℕ → Text → Move
scan_word before c s =
    if is_ident_char c && not (starts_ident before)
    then (if matches_any (cursor before (c ∷ s)) visualise_keywords
        then found
        else on (skip_ident before (c ∷ s)))
    else on (cursor (c ∷ before) s)

-- A quoted text, or what comes behind it in the loop.
abbrev pub scan_quoted : Text → ℕ → Text → Move
scan_quoted before c s =
    if c == b'\''
    then on (skip_quoted b'\'' (c ∷ before) s)
    else (if c == b'"' then on (skip_quoted b'"' (c ∷ before) s) else scan_word before c s)

abbrev pub after_line : Text → ℕ → Text → Cursor
after_line before c s = let at = two_on before c s in skip_line at.before at.after

abbrev pub after_block : Text → ℕ → Text → Cursor
after_block before c s = let at = two_on before c s in skip_block at.before at.after

-- The body of the loop, at the character `c`.
unfoldable pub scan_step : Text → ℕ → Text → Move
scan_step before c s =
    if c == b'-' && starts_with_char b'-' s
    then on (after_line before c s)
    else (if c == b'/' && starts_with_char b'*' s
        then on (after_block before c s)
        else scan_quoted before c s)

-- The loop; `none` is the end of the fuel.
unfoldable pub scan : ℕ → Text → Text → Option Bool
scan zero before after = none
scan (suc fuel) before [] = some false
scan (suc fuel) before (c ∷ s) = elim (scan_step before c s) [
  | found ↦ some true
  | on at ↦ scan fuel at.before at.after
]

unfoldable pub contains_visualise_keyword : Text → Option Bool
contains_visualise_keyword query = scan (suc (length query)) [] query

-- `std::isspace` in the C locale
abbrev pub is_space : ℕ → Bool
is_space c = (leb 9 c && leb c 13) || c == b' '

-- `pop_back` while the last character is white space
unfoldable pub trim_end : Text → Text
trim_end [] = []
trim_end (c ∷ s) = elim (trim_end s) [ [] ↦ if is_space c then [] else c ∷ [] | d ∷ r ↦ c ∷ d ∷ r ]

-- `pop_back` if the last character is a semicolon
unfoldable pub drop_semicolon : Text → Text
drop_semicolon [] = []
drop_semicolon (c ∷ []) = if c == b';' then [] else c ∷ []
drop_semicolon (c ∷ d ∷ s) = c ∷ drop_semicolon (d ∷ s)

-- `ParseFunction`: `none` leaves the statement to DuckDB.
abbrev pub parse_found : Text → Option Bool → Option Text
parse_found query (some true) = some (drop_semicolon (trim_end query))
parse_found query _ = none

unfoldable pub parse_function : Text → Option Text
parse_function query = parse_found query (contains_visualise_keyword query)
