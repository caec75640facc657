-- ===== src/Parser/Scanned.antt =====
-- `ContainsVisualiseKeyword` of src/ggsql_parser.cpp sees the words of a query, and neither its
-- comments nor its quoted texts.
use ggsql_duckdb.Prelude.{
  ℕ, zero, suc, ◌<◌, ◌≡◌, refl, ap, ◌∙◌, ◌⊎◌, inl, inr, true, false, ◌&&◌, ◌||◌, some, List, [],
  ◌∷◌, ◌++◌, length, length-append, arith, Bool-cases, if◌then◌else◌,
}
use ggsql_duckdb.Parser.Scanner.{
  Text, Cursor, cursor, is_ident_char, starts_ident, skip_quoted, skip_ident, visualise_keywords,
  matches_any, found, on, scan_step, scan, contains_visualise_keyword,
}
use ggsql_duckdb.Parser.Tokens.{
  Token, line_comment, block_comment, quoted, word, other, double, print, IsToken, AreTokens,
  is_keyword, any_visualise,
}
use ggsql_duckdb.Parser.Loops.{
  skip_line-after, skip_block-StandsAt, skip_quoted-StandsAt, skip_ident-after, matches_any-word,
}

-- No identifier runs across the position.
abbrev IsApart : Text → Text → Type 0
IsApart before after = (starts_ident before && starts_ident after) ≡ false

IsApart-of_start : (before after : Text) → starts_ident before ≡ false → IsApart before after
IsApart-of_start before after e = rw (e) refl

IsApart-of_end : (before after : Text) → starts_ident after ≡ false → IsApart before after
IsApart-of_end before after e = ground arith

scan_step-other :
    (before : Text) (c : ℕ) (rest : Text)
    → IsToken (other c) rest
    → scan_step before c rest ≡ on (cursor (c ∷ before) rest)
unfolding scan_step
scan_step-other before c rest t = ground arith

scan_step-quoted :
    (before : Text) (q : ℕ) (rest : Text)
    → (q ≡ b'\'') ⊎ (q ≡ b'"')
    → scan_step before q rest ≡ on (skip_quoted q (q ∷ before) rest)
unfolding scan_step
scan_step-quoted before q rest (inl e) = ground arith
scan_step-quoted before q rest (inr e) = ground arith

scan_step-word :
    (before : Text) (c : ℕ) (s : Text)
    → is_ident_char c ≡ true
    → starts_ident before ≡ false
    → scan_step before c s ≡ (
        if matches_any (cursor before (c ∷ s)) visualise_keywords
        then found
        else on (skip_ident before (c ∷ s)))
unfolding scan_step is_ident_char
scan_step-word before c s h n = ground arith

scan-on :
    (fuel : ℕ) (before : Text) (c : ℕ) (s rest : Text) (at : Cursor)
    → scan_step before c s ≡ on at
    → at.after ≡ rest
    → scan (suc fuel) before (c ∷ s) ≡ scan fuel at.before rest
unfolding scan
scan-on fuel before c s rest at e f = rw (e, scan) (ap (scan fuel at.before) f)

scan-found :
    (fuel : ℕ) (before : Text) (c : ℕ) (s : Text)
    → scan_step before c s ≡ found
    → scan (suc fuel) before (c ∷ s) ≡ some true
unfolding scan
scan-found fuel before c s e = rw (e, scan) refl

quote_ident : (q : ℕ) → (q ≡ b'\'') ⊎ (q ≡ b'"') → is_ident_char q ≡ false
unfolding is_ident_char
quote_ident q (inl e) = rw (e) refl
quote_ident q (inr e) = rw (e) refl

newline-IsToken : (rest : Text) → IsToken (other b'\n') rest
unfolding is_ident_char
newline-IsToken rest = ground arith

module _ (fuel : ℕ) (b : Text) (ts : List Token)
    (later : (before : Text)
      → IsApart before (print ts)
      → scan fuel before (print ts) ≡ some (any_visualise ts)) where
  scan-block :
      (body : Text)
      → IsToken (block_comment body) (print ts)
      → scan (suc fuel) b (print (block_comment body ∷ ts)) ≡ some (any_visualise ts)
  unfolding scan_step
  scan-block body t =
      let (e, n) = skip_block-StandsAt (b'*' ∷ b'/' ∷ b) body (print ts) t in
      scan-on fuel b _ _ (print ts) _ refl e ∙ later _ (IsApart-of_start _ _ n)

  scan-quoted :
      (q : ℕ) (body : Text)
      → IsToken (quoted q body) (print ts)
      → scan (suc fuel) b (print (quoted q body ∷ ts)) ≡ some (any_visualise ts)
  scan-quoted q body (k, n) =
      let (e, s) = skip_quoted-StandsAt q (q ∷ b) body (print ts) (quote_ident q k) n in
      scan-on fuel b q _ (print ts) _ (scan_step-quoted b q _ k) e
      ∙ later _ (IsApart-of_start _ _ s)

  scan-other :
      (c : ℕ)
      → IsToken (other c) (print ts)
      → scan (suc fuel) b (c ∷ print ts) ≡ some (any_visualise ts)
  scan-other c t =
      scan-on fuel b c _ (print ts) _ (scan_step-other b c (print ts) t) refl
      ∙ later _ (IsApart-of_start (c ∷ b) _ t.0)

  scan-word :
      (c : ℕ) (w : Text)
      → IsToken (word (c ∷ w)) (print ts)
      → starts_ident b ≡ false
      → scan (suc fuel) b (c ∷ (w ++ print ts)) ≡ some (is_keyword (c ∷ w) || any_visualise ts)
  scan-word c w (_, a, n) s =
      let rest = w ++ print ts in
      let step = scan_step-word b c rest (ground arith) s in
      let tested = matches_any-word b (c ∷ w) (print ts) s a n in
      elim (Bool-cases (is_keyword (c ∷ w))) [
        | inl k ↦ rw (k) (scan-found fuel b c rest (step ∙ rw (tested ∙ k) refl))
        | inr k ↦ rw (k) (
            scan-on fuel b c rest (print ts) (skip_ident b (c ∷ rest)) (step ∙ rw (tested ∙ k) refl)
              (skip_ident-after b (c ∷ w) (print ts) a n)
            ∙ later _ (IsApart-of_end _ _ n))
      ]

scan-line :
    (fuel : ℕ) (b body : Text) (ts : List Token)
    → IsToken (line_comment body) (print ts)
    → ((before : Text)
        → IsApart before (print ts)
        → scan fuel before (print ts) ≡ some (any_visualise ts))
    → scan (suc (suc fuel)) b (print (line_comment body ∷ ts)) ≡ some (any_visualise ts)
unfolding scan_step
scan-line fuel b body ts t later =
    scan-on (suc fuel) b _ _ (b'\n' ∷ print ts) _ refl
      (skip_line-after (b'-' ∷ b'-' ∷ b) body (print ts) t)
    ∙ scan-other fuel _ ts later b'\n' (newline-IsToken (print ts))

scan-print :
    (fuel : ℕ) (b : Text) (ts : List Token)
    → length (print ts) < fuel
    → AreTokens ts
    → IsApart b (print ts)
    → scan fuel b (print ts) ≡ some (any_visualise ts)
unfolding scan
scan-print zero b ts h a n = absurd (omega arith)
scan-print (suc fuel) b [] h a n = refl
scan-print (suc zero) b (line_comment body ∷ ts) h (t, a) n = absurd (omega arith)
scan-print (suc (suc fuel)) b (line_comment body ∷ ts) h (t, a) n =
    scan-line fuel b body ts t (λ before s.
      scan-print fuel before ts (omega (arith, length-append body (b'\n' ∷ print ts))) a s)
scan-print (suc fuel) b (block_comment body ∷ ts) h (t, a) n =
    scan-block fuel b ts
      (λ before s.
        scan-print fuel before ts (omega (arith, length-append body (b'*' ∷ b'/' ∷ print ts))) a s)
      body t
scan-print (suc fuel) b (quoted q body ∷ ts) h (t, a) n =
    scan-quoted fuel b ts
      (λ before s.
        scan-print fuel before ts (omega (arith, length-append (double q body) (q ∷ print ts))) a s)
      q body t
scan-print (suc fuel) b (word [] ∷ ts) h (t, a) n = absurd (t.0 refl)
scan-print (suc fuel) b (word (c ∷ w) ∷ ts) h (t, a) n =
    scan-word fuel b ts
      (λ before s. scan-print fuel before ts (omega (arith, length-append w (print ts))) a s) c w t
      (ground arith)
scan-print (suc fuel) b (other c ∷ ts) h (t, a) n =
    scan-other fuel b ts (λ before s. scan-print fuel before ts (omega arith) a s) c t

-- On the text of any tokens the scanner says whether one of the words among them is VISUALISE or
-- VISUALIZE, in any case: no text within a comment, a string or a quoted identifier counts, nor
-- does a part of a longer word.
pub contains_visualise_keyword-print :
    (ts : List Token)
    → AreTokens ts
    → contains_visualise_keyword (print ts) ≡ some (any_visualise ts)
unfolding contains_visualise_keyword
contains_visualise_keyword-print ts a =
    scan-print (suc (length (print ts))) [] ts (omega arith) a refl
