-- ===== src/Parser/Loops.antt =====
-- Where each inner loop of `ContainsVisualiseKeyword` (src/ggsql_parser.cpp) stops.
use ggsql_duckdb.Prelude.{
  ℕ, ◌≡◌, refl, ap₂, ◌∙◌, Bool, true, false, not, ◌||◌, none, some, [], ◌∷◌, ◌++◌, ◌==◌, map,
  text_eq, codes, arith, Bool-cases, ==-self, inl, inr,
}
use ggsql_duckdb.Parser.Scanner.{
  Text, Cursor, is_ident_char, lower, starts_ident, starts_with_char, match_word,
  matches_whole_word, visualise_keywords, matches_any, cursor, skip_line, skip_block, skip_quoted,
  skip_ident,
}
use ggsql_duckdb.Parser.Tokens.{double, lacks_newline, lacks_close, all_ident_chars, is_keyword}

pub skip_line-after :
    (before body rest : Text)
    → lacks_newline body ≡ true
    → (skip_line before (body ++ (b'\n' ∷ rest))).after ≡ b'\n' ∷ rest
unfolding skip_line
skip_line-after before [] rest h = refl
skip_line-after before (c ∷ body) rest h = ground (arith, skip_line-after (c ∷ before) body rest)

-- The cursor stands at the text, and no identifier ends just before it.
abbrev pub StandsAt : Cursor → Text → Type 0
StandsAt at rest = (at.after ≡ rest) × (starts_ident at.before ≡ false)

pub skip_block-StandsAt :
    (before body rest : Text)
    → lacks_close body ≡ true
    → StandsAt (skip_block before (body ++ (b'*' ∷ b'/' ∷ rest))) rest
unfolding skip_block is_ident_char
skip_block-StandsAt before [] rest h = (refl, refl)
skip_block-StandsAt before (c ∷ []) rest h =
    ground (arith, skip_block-StandsAt (c ∷ before) [] rest)
skip_block-StandsAt before (c ∷ d ∷ body) rest h =
    ground (arith, skip_block-StandsAt (c ∷ before) (d ∷ body) rest)

pub skip_ident-after :
    (before w rest : Text)
    → all_ident_chars w ≡ true
    → starts_ident rest ≡ false
    → (skip_ident before (w ++ rest)).after ≡ rest
unfolding skip_ident
skip_ident-after before [] [] h n = refl
skip_ident-after before [] (c ∷ rest) h n = ground arith
skip_ident-after before (c ∷ w) rest h n = ground (arith, skip_ident-after (c ∷ before) w rest)

skip_quoted-other :
    (q c : ℕ) (before s : Text)
    → (c == q) ≡ false
    → skip_quoted q before (c ∷ s) ≡ skip_quoted q (c ∷ before) s
unfolding skip_quoted
skip_quoted-other q c before [] h = refl
skip_quoted-other q c before (d ∷ s) h = rw (h)

-- A word that begins like the keyword and goes on with the word at hand.
whole : Text → Text → Bool
whole needle s = elim (match_word needle s) [ none ↦ false | some rest ↦ not (starts_ident rest) ]

lower-ident : (a b : ℕ) → is_ident_char b ≡ true → lower a ≡ lower b → is_ident_char a ≡ true
unfolding is_ident_char lower
lower-ident a b h e = ground arith

whole-word :
    (needle w rest : Text)
    → all_ident_chars needle ≡ true
    → all_ident_chars w ≡ true
    → starts_ident rest ≡ false
    → whole needle (w ++ rest) ≡ text_eq (map lower w) (map lower needle)
unfolding whole match_word
whole-word [] [] [] hn hw n = refl
whole-word [] [] (c ∷ rest) hn hw n = ground arith
whole-word [] (c ∷ w) rest hn hw n = ground arith
whole-word (b ∷ needle) [] [] hn hw n = refl
whole-word (b ∷ needle) [] (c ∷ rest) hn hw n = ground (arith, lower-ident c b)
whole-word (b ∷ needle) (c ∷ w) rest hn hw n = ground (arith, whole-word needle w rest)

pub skip_quoted-StandsAt :
    (q : ℕ) (before body rest : Text)
    → is_ident_char q ≡ false
    → starts_with_char q rest ≡ false
    → StandsAt (skip_quoted q before (double q body ++ (q ∷ rest))) rest
unfolding skip_quoted
skip_quoted-StandsAt q before [] [] h n = ground arith
skip_quoted-StandsAt q before [] (d ∷ rest) h n = ground arith
skip_quoted-StandsAt q before (c ∷ body) rest h n = elim (Bool-cases (c == q)) [
  | inl e ↦ rw (e, ==-self q) (skip_quoted-StandsAt q (q ∷ q ∷ before) body rest h n)
  | inr e ↦
      rw (e, skip_quoted-other q c before _ e) (skip_quoted-StandsAt q (c ∷ before) body rest h n)
]

matches_whole_word-whole :
    (at : Cursor) (needle : Text)
    → starts_ident at.before ≡ false
    → matches_whole_word at needle ≡ whole needle at.after
unfolding matches_whole_word whole
matches_whole_word-whole at needle h = ground arith

keyword_of_two :
    (w : Text)
    → (text_eq (map lower w) (map lower (codes "VISUALISE"))
        || (text_eq (map lower w) (map lower (codes "VISUALIZE")) || false))
      ≡ is_keyword w
unfolding lower
keyword_of_two w = ground arith

-- Where a word begins, the keywords are tested against all of it.
pub matches_any-word :
    (before w rest : Text)
    → starts_ident before ≡ false
    → all_ident_chars w ≡ true
    → starts_ident rest ≡ false
    → matches_any (cursor before (w ++ rest)) visualise_keywords ≡ is_keyword w
unfolding is_ident_char
matches_any-word before w rest h a n =
    let at = cursor before (w ++ rest) in
    ap₂ (λ b c. b || (c || false))
      (matches_whole_word-whole at (codes "VISUALISE") h
        ∙ whole-word (codes "VISUALISE") w rest refl a n)
      (matches_whole_word-whole at (codes "VISUALIZE") h
        ∙ whole-word (codes "VISUALIZE") w rest refl a n)
    ∙ keyword_of_two w
