-- ===== src/Parser/Tokens.antt =====
-- The lexical elements of a query, and the text of a list of them: what the scanner of
-- src/ggsql_parser.cpp is measured by.
use ggsql_duckdb.Prelude.{
  ℕ, ◌≡◌, ◌≢◌, ◌⊎◌, Bool, true, false, not, ◌&&◌, ◌||◌, List, [], ◌∷◌, ◌++◌, ◌==◌, map, text_eq,
  codes, if◌then◌else◌,
}
use ggsql_duckdb.Parser.Scanner.{Text, is_ident_char, lower, starts_ident, starts_with_char}

pub data Token : Type 0 where
  -- with its end of line
  line_comment : Text → Token
  block_comment : Text → Token
  -- a string or a quoted identifier, by its quote and what it stands for
  quoted : ℕ → Text → Token
  word : Text → Token
  -- white space, an operator, punctuation
  other : ℕ → Token

-- a text within quotes: each quote in it is doubled
abbrev pub double : ℕ → Text → Text
double q [] = []
double q (c ∷ s) = if c == q then q ∷ q ∷ double q s else c ∷ double q s

-- The text of a token in front of a text.
abbrev pub print_token : Token → Text → Text
print_token (line_comment body) rest = b'-' ∷ b'-' ∷ (body ++ (b'\n' ∷ rest))
print_token (block_comment body) rest = b'/' ∷ b'*' ∷ (body ++ (b'*' ∷ b'/' ∷ rest))
print_token (quoted q body) rest = q ∷ (double q body ++ (q ∷ rest))
print_token (word w) rest = w ++ rest
print_token (other c) rest = c ∷ rest

abbrev pub print : List Token → Text
print [] = []
print (t ∷ ts) = print_token t (print ts)

abbrev pub lacks_newline : Text → Bool
lacks_newline [] = true
lacks_newline (c ∷ s) = not (c == b'\n') && lacks_newline s

abbrev pub lacks_close : Text → Bool
lacks_close [] = true
lacks_close (c ∷ s) = not (c == b'*' && starts_with_char b'/' s) && lacks_close s

abbrev pub all_ident_chars : Text → Bool
all_ident_chars [] = true
all_ident_chars (c ∷ s) = is_ident_char c && all_ident_chars s

-- A token is well-formed, and what follows it does not run into it.
abbrev pub IsToken : Token → Text → Type 0
IsToken (line_comment body) rest = lacks_newline body ≡ true
IsToken (block_comment body) rest = lacks_close body ≡ true
IsToken (quoted q body) rest = ((q ≡ b'\'') ⊎ (q ≡ b'"')) × (starts_with_char q rest ≡ false)
IsToken (word w) rest = (w ≢ []) × (all_ident_chars w ≡ true) × (starts_ident rest ≡ false)
IsToken (other c) rest =
    (is_ident_char c ≡ false)
    × (c ≢ b'\'')
    × (c ≢ b'"')
    × ((c == b'-' && starts_with_char b'-' rest) ≡ false)
    × ((c == b'/' && starts_with_char b'*' rest) ≡ false)

abbrev pub AreTokens : List Token → Type 0
AreTokens [] = Unit
AreTokens (t ∷ ts) = IsToken t (print ts) × AreTokens ts

-- The keyword in any case.
abbrev pub is_keyword : Text → Bool
is_keyword w =
    text_eq (map lower w) (codes "visualise") || text_eq (map lower w) (codes "visualize")

abbrev pub is_visualise : Token → Bool
is_visualise (word w) = is_keyword w
is_visualise _ = false

abbrev pub any_visualise : List Token → Bool
any_visualise [] = false
any_visualise (t ∷ ts) = is_visualise t || any_visualise ts
