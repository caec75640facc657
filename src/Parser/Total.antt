-- ===== src/Parser/Total.antt =====
-- `ContainsVisualiseKeyword` of src/ggsql_parser.cpp ends on every query: each round of its loop
-- leaves less of the query.
use ggsql_duckdb.Prelude.{
  ℕ, zero, suc, ◌≤◌, ◌<◌, ◌≡◌, refl, Bool, true, false, not, ◌&&◌, ◌==◌, some, [], ◌∷◌, length,
  arith, if◌then◌else◌,
}
use ggsql_duckdb.Parser.Scanner.{
  Text, Cursor, cursor, is_ident_char, starts_ident, visualise_keywords, matches_any, skip_line,
  skip_block, skip_quoted, skip_ident, Move, found, on, scan_word, scan_quoted, after_line,
  after_block, starts_with_char, scan_step, scan, contains_visualise_keyword,
}

skip_line-le : (b s : Text) → length (skip_line b s).after ≤ length s
unfolding skip_line
skip_line-le b [] = omega arith
skip_line-le b (c ∷ s) = ground (arith, skip_line-le (c ∷ b) s)

skip_block-le : (b s : Text) → length (skip_block b s).after ≤ length s
unfolding skip_block
skip_block-le b [] = omega arith
skip_block-le b (c ∷ []) = omega arith
skip_block-le b (c ∷ d ∷ s) = ground (arith, skip_block-le (c ∷ b) (d ∷ s))

skip_quoted-le : (q : ℕ) (b s : Text) → length (skip_quoted q b s).after ≤ length s
unfolding skip_quoted
skip_quoted-le q b [] = omega arith
skip_quoted-le q b (c ∷ []) = omega arith
skip_quoted-le q b (c ∷ d ∷ s) =
    ground (arith, skip_quoted-le q (d ∷ c ∷ b) s, skip_quoted-le q (c ∷ b) (d ∷ s))

skip_ident-le : (b s : Text) → length (skip_ident b s).after ≤ length s
unfolding skip_ident
skip_ident-le b [] = omega arith
skip_ident-le b (c ∷ s) = ground (arith, skip_ident-le (c ∷ b) s)

skip_ident-lt :
    (b : Text) (c : ℕ) (s : Text)
    → is_ident_char c ≡ true
    → length (skip_ident b (c ∷ s)).after ≤ length s
unfolding skip_ident
skip_ident-lt b c s h = ground (arith, skip_ident-le (c ∷ b) s)

-- A round goes at least one character on.
abbrev Shrinks : Move → Text → Type 0
Shrinks found s = Unit
Shrinks (on at) s = length at.after ≤ length s

if-Shrinks :
    (test : Bool) (m n : Move) (s : Text)
    → (test ≡ true → Shrinks m s)
    → Shrinks n s
    → Shrinks (if test then m else n) s
if-Shrinks true m n s h k = h refl
if-Shrinks false m n s h k = k

and_left : (a b : Bool) → (a && b) ≡ true → a ≡ true
and_left a b e = ground arith

scan_word-Shrinks : (b : Text) (c : ℕ) (s : Text) → Shrinks (scan_word b c s) s
scan_word-Shrinks b c s =
    let same : length s ≤ length s = omega arith in
    let keyword = matches_any (cursor b (c ∷ s)) visualise_keywords in
    let skipped = on (skip_ident b (c ∷ s)) in
    if-Shrinks (is_ident_char c && not (starts_ident b)) (if keyword then found else skipped)
      (on (cursor (c ∷ b) s)) s
      (λ t.
        if-Shrinks keyword found skipped s (λ f. tt)
          (skip_ident-lt b c s (and_left (is_ident_char c) (not (starts_ident b)) t)))
      same

scan_quoted-Shrinks : (b : Text) (c : ℕ) (s : Text) → Shrinks (scan_quoted b c s) s
scan_quoted-Shrinks b c s =
    let double = on (skip_quoted b'"' (c ∷ b) s) in
    if-Shrinks (c == b'\'') (on (skip_quoted b'\'' (c ∷ b) s))
      (if c == b'"' then double else scan_word b c s) s (λ t. skip_quoted-le b'\'' (c ∷ b) s)
      (if-Shrinks (c == b'"') double (scan_word b c s) s (λ t. skip_quoted-le b'"' (c ∷ b) s)
        (scan_word-Shrinks b c s))

after_line-le : (b : Text) (c : ℕ) (s : Text) → length (after_line b c s).after ≤ length s
after_line-le b c [] = skip_line-le (c ∷ b) []
after_line-le b c (d ∷ s) = omega (arith, skip_line-le (d ∷ c ∷ b) s)

after_block-le : (b : Text) (c : ℕ) (s : Text) → length (after_block b c s).after ≤ length s
after_block-le b c [] = skip_block-le (c ∷ b) []
after_block-le b c (d ∷ s) = omega (arith, skip_block-le (d ∷ c ∷ b) s)

scan_step-Shrinks : (b : Text) (c : ℕ) (s : Text) → Shrinks (scan_step b c s) s
unfolding scan_step
scan_step-Shrinks b c s =
    let block = on (after_block b c s) in
    let opens_block = c == b'/' && starts_with_char b'*' s in
    if-Shrinks (c == b'-' && starts_with_char b'-' s) (on (after_line b c s))
      (if opens_block then block else scan_quoted b c s) s (λ t. after_line-le b c s)
      (if-Shrinks opens_block block (scan_quoted b c s) s (λ t. after_block-le b c s)
        (scan_quoted-Shrinks b c s))

scan-some : (fuel : ℕ) (b s : Text) → length s < fuel → (r : Bool) × (scan fuel b s ≡ some r)
unfolding scan
scan-some zero b s h = absurd (omega arith)
scan-some (suc fuel) b [] h = (false, refl)
scan-some (suc fuel) b (c ∷ s) h =
    go (scan_step b c s) (scan_step-Shrinks b c s)
      (λ at l. scan-some fuel at.before at.after (omega arith))
  where
    go :
        (m : Move)
        → Shrinks m s
        → ((at : Cursor)
            → length at.after ≤ length s
            → (r : Bool) × (scan fuel at.before at.after ≡ some r))
        → (r : Bool) × ((elim m [ found ↦ some true | on at ↦ scan fuel at.before at.after ])
            ≡ some r)
    go found l later = (true, refl)
    go (on at) l later = later at l

-- Every query is decided: the fuel of one round for each character, and one more, is enough.
pub contains_visualise_keyword-some :
    (query : Text) → (r : Bool) × (contains_visualise_keyword query ≡ some r)
unfolding contains_visualise_keyword
contains_visualise_keyword-some query = scan-some (suc (length query)) [] query (omega arith)
