-- ===== src/Parser/Tests.antt =====
-- Queries for the scanner of src/ggsql_parser.cpp.
use ggsql_duckdb.Prelude.{◌≡◌, refl, inl, true, false, Bool, some, [], ◌∷◌, List, codes}
use ggsql_duckdb.Parser.Scanner.{
  is_ident_char, lower, match_word, matches_whole_word, skip_line, skip_quoted, skip_ident,
  scan_step, scan, contains_visualise_keyword, trim_end, drop_semicolon, parse_function,
}
use ggsql_duckdb.Parser.Tokens.{
  IsToken, Token, line_comment, block_comment, quoted, word, other, print, AreTokens,
}
use ggsql_duckdb.Parser.Scanned.{contains_visualise_keyword-print}
use ggsql_duckdb.Parser.Total.{contains_visualise_keyword-some}
use ggsql_duckdb.Parser.Stripped.{IsTaken, parse_function-IsTaken}

in_comment : contains_visualise_keyword (codes "select 1 -- visualise") ≡ some false
unfolding contains_visualise_keyword scan scan_step skip_line skip_ident is_ident_char lower
    match_word matches_whole_word
in_comment = refl

in_word : contains_visualise_keyword (codes "select visualised, 'VISUALISE'") ≡ some false
unfolding contains_visualise_keyword scan scan_step skip_quoted skip_ident is_ident_char lower
    match_word matches_whole_word
in_word = refl

taken : parse_function (codes "Visualise x ; ") ≡ some (codes "Visualise x ")
unfolding parse_function contains_visualise_keyword scan scan_step is_ident_char lower match_word
    matches_whole_word trim_end drop_semicolon
taken = refl

-- `/*x*/'it''s' visualize --x`, with an end of line
abbrev tokens : List Token
tokens =
    block_comment (codes "x")
    ∷ quoted b'\'' (codes "it's")
    ∷ other b' '
    ∷ word (codes "visualize")
    ∷ other b' '
    ∷ line_comment (codes "x")
    ∷ []

printed : print tokens ≡ codes "/*x*/'it''s' visualize --x\n"
printed = refl

tokens-AreTokens : AreTokens tokens
unfolding is_ident_char
tokens-AreTokens = (refl, ((inl refl, refl), (space, ((λ e. cc, refl, refl), (space, (refl, tt))))))
  where
    space : IsToken (other b' ') []
    space = (refl, λ e. cc, λ e. cc, refl, refl)

contains_visualise_keyword-print_example :
    contains_visualise_keyword (codes "/*x*/'it''s' visualize --x\n") ≡ some true
unfolding lower
contains_visualise_keyword-print_example = contains_visualise_keyword-print tokens tokens-AreTokens

contains_visualise_keyword-some_example :
    (r : Bool) × (contains_visualise_keyword (codes "/* visualise") ≡ some r)
contains_visualise_keyword-some_example = contains_visualise_keyword-some (codes "/* visualise")

parse_function-IsTaken_example :
    (contains_visualise_keyword (codes "Visualise x ; ") ≡ some true)
    × IsTaken (codes "Visualise x ; ") (codes "Visualise x ")
parse_function-IsTaken_example =
    parse_function-IsTaken (codes "Visualise x ; ") (codes "Visualise x ") taken
