-- ===== src/Bridge/Quoted.antt =====
-- The names of coordinate systems in the SQL of rust/src/dialect.rs stay within their quotes.
use ggsql_duckdb.Prelude.{
  ℕ, ◌≡◌, refl, sym, ap, ◌∙◌, ==_iff, false, inl, inr, Bool-cases, Option, none, some, [], ◌∷◌,
  ◌++◌, codes, ◌==◌, if◌then◌else◌,
}
use ggsql_duckdb.Bridge.Dialect.{Text, double_quotes, sql_st_transform}

abbrev pub with_char : ℕ → Option (Text × Text) → Option (Text × Text)
with_char c none = none
with_char c (some (s, rest)) = some (c ∷ s, rest)

-- A string literal of SQL, read from after its first quote: what it stands for, and the text after it.
-- A quote that is doubled stands for one.
pub read_literal : Text → Option (Text × Text)
read_literal [] = none
read_literal (c ∷ []) = if c == b'\'' then some ([], []) else none
read_literal (c ∷ d ∷ s) =
    let doubled = with_char c (read_literal s) in
    let more = with_char c (read_literal (d ∷ s)) in
    if c == b'\'' then (if d == b'\'' then doubled else some ([], d ∷ s)) else more

read_literal-char :
    (c : ℕ) (t : Text) → (c == b'\'') ≡ false → read_literal (c ∷ t) ≡ with_char c (read_literal t)
unfolding read_literal
read_literal-char c [] h = rw h refl
read_literal-char c (d ∷ s) h = rw h refl

-- A text with its quotes doubled is read as the text.
read_literal-double_quotes :
    (s rest : Text) (d : ℕ)
    → (d == b'\'') ≡ false
    → read_literal (double_quotes s ++ (b'\'' ∷ d ∷ rest)) ≡ some (s, d ∷ rest)
unfolding double_quotes read_literal
read_literal-double_quotes [] rest d h = rw h refl
read_literal-double_quotes (c ∷ s) rest d h =
    let more = read_literal-double_quotes s rest d h in
    elim (Bool-cases (c == b'\'')) [
      | inl e ↦ rw (e, more) (ap (λ x. some (x ∷ s, d ∷ rest)) (sym ((==_iff c b'\'').0 e)))
      | inr e ↦ rw e (read_literal-char c _ e ∙ ap (with_char c) more)
    ]

-- Whatever the names of the two coordinate systems are, also with quotes in them, the call of
-- ST_Transform holds two literals that stand for them, one after the other, and nothing of a name is
-- outside of its literal.
pub sql_st_transform-read :
    (column source target : Text)
    → (t u : Text) × (sql_st_transform column source target
        ≡ codes "ST_Transform(" ++ (column ++ (codes ", '" ++ t)))
      × (read_literal t ≡ some (source, codes ", '" ++ u))
      × (read_literal u ≡ some (target, codes ", always_xy := true)"))
unfolding sql_st_transform
sql_st_transform-read column source target =
    let u = double_quotes target ++ codes "', always_xy := true)" in
    (
      double_quotes source ++ (codes "', '" ++ u),
      u,
      refl,
      read_literal-double_quotes source (codes " '" ++ u) b',' refl,
      read_literal-double_quotes target (codes " always_xy := true)") b',' refl,
    )
