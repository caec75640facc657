-- ===== src/App/Location.antt =====
-- `uuidFromLocation` of rust/assets/app.html. Texts are lists of code points.
use ggsql_duckdb.Prelude.{
  ℕ, ◌≡◌, refl, ◌≢◌, ◌⊎◌, inl, inr, ◌↔◌, ◌∙◌, ap, Bool, true, false, ◌&&◌, ◌||◌, Option, none, some,
  List, [], ◌∷◌, ◌++◌, ◌==◌, leb, if◌then◌else◌, codes, arith, Bool-cases, Option-cases,
}
use mathlib.Core.Path.{subst}

abbrev pub Text : Type 0
Text = List ℕ

-- `[A-Za-z0-9-]`
abbrev pub is_id_char : ℕ → Bool
is_id_char c =
    (leb b'A' c && leb c b'Z')
    || (leb b'a' c && leb c b'z')
    || (leb b'0' c && leb c b'9')
    || (c == b'-')

unfoldable pub strip_prefix : Text → Text → Option Text
strip_prefix [] s = some s
strip_prefix (p ∷ ps) [] = none
strip_prefix (p ∷ ps) (c ∷ s) = let rest = strip_prefix ps s in if p == c then rest else none

-- `([A-Za-z0-9-]+)\/?$`: what the group holds. The first argument says whether the `+` has met a
-- character yet.
unfoldable pub match_id : Bool → Text → Option Text
match_id started [] = if started then some [] else none
match_id started (c ∷ s) =
    let rest = match_id true s in
    elim (is_id_char c) [
      | true ↦ elim rest [ none ↦ none | some id ↦ some (c ∷ id) ]
      | false ↦ elim s [ [] ↦ if started && (c == b'/') then some [] else none | _ ∷ _ ↦ none ]
    ]

-- `s.match(prefix followed by an id)`
unfoldable pub match_plot : Text → Text → Option Text
match_plot prefix s = elim (strip_prefix prefix s) [ none ↦ none | some r ↦ match_id false r ]

unfoldable pub uuid_from_location : Text → Text → Option Text
uuid_from_location hash pathname = elim (match_plot (codes "#plot/") hash) [
  | some id ↦ some id
  | none ↦ match_plot (codes "/plot/") pathname
]

abbrev pub all_id_chars : Text → Bool
all_id_chars [] = true
all_id_chars (c ∷ s) = is_id_char c && all_id_chars s

-- An id as the regular expressions take it: not empty, and of id characters only.
pub record IsPlotId (id : Text) : Type 0 where
  pub not_empty : id ≢ []
  pub id_chars : all_id_chars id ≡ true

abbrev pub slash : Text
slash = b'/' ∷ []

pub strip_prefix-append : (p s : Text) → strip_prefix p (p ++ s) ≡ some s
unfolding strip_prefix
strip_prefix-append [] s = refl
strip_prefix-append (c ∷ p) s = ground (arith, strip_prefix-append p s)

strip_prefix-eq_some : (p s r : Text) → strip_prefix p s ≡ some r → s ≡ p ++ r
unfolding strip_prefix
strip_prefix-eq_some [] s r e = cc
strip_prefix-eq_some (c ∷ p) [] r e = cc
strip_prefix-eq_some (c ∷ p) (d ∷ s) r e = ground (arith, strip_prefix-eq_some p s r)

match_id-id : (id : Text) → all_id_chars id ≡ true → match_id true id ≡ some id
unfolding match_id
match_id-id [] h = refl
match_id-id (c ∷ id) h = ground (arith, match_id-id id)

match_id-slash : (id : Text) → all_id_chars id ≡ true → match_id true (id ++ slash) ≡ some id
unfolding match_id
match_id-slash [] h = refl
match_id-slash (c ∷ id) h = ground (arith, match_id-slash id)

-- What a match says of the text.
abbrev Read : Bool → Text → Text → Type 0
Read b s id = (all_id_chars id ≡ true) × ((b ≡ false) → id ≢ []) × ((s ≡ id) ⊎ (s ≡ id ++ slash))

Read-cons :
    (b : Bool) (c : ℕ) (s id : Text)
    → is_id_char c ≡ true
    → Read true s id
    → Read b (c ∷ s) (c ∷ id)
Read-cons b c s id p (all, _, inl e) = (ground arith, λ _ n. cc, inl (ap (c ∷◌) e))
Read-cons b c s id p (all, _, inr e) = (ground arith, λ _ n. cc, inr (ap (c ∷◌) e))

-- The character that ends the id is the last one, and a slash.
Read-last :
    (b : Bool) (c : ℕ) (s id : Text)
    → is_id_char c ≡ false
    → match_id b (c ∷ s) ≡ some id
    → Read b (c ∷ s) id
unfolding match_id
Read-last true c [] id p e = ground arith
Read-last false c [] id p e = ground arith
Read-last b c (d ∷ s) id p e = absurd (ground arith)

match_id-eq_some : (b : Bool) (s id : Text) → match_id b s ≡ some id → Read b s id
unfolding match_id
match_id-eq_some true [] id e = ground arith
match_id-eq_some false [] id e = ground arith
match_id-eq_some b (c ∷ s) id e = elim (Bool-cases (is_id_char c)) [
  | inl p ↦ elim (Option-cases (match_id true s)) [
    | inl q ↦ absurd (ground arith)
    | inr (r, q) ↦
        let more = Read-cons b c s r p (match_id-eq_some true s r q) in
        let same : c ∷ r ≡ id = ground arith in subst (Read b (c ∷ s)) same more
  ]
  | inr p ↦ Read-last b c s id p e
]

match_id-start : (id r : Text) → id ≢ [] → match_id true r ≡ some id → match_id false r ≡ some id
unfolding match_id
match_id-start id [] n e = absurd (n (ground arith))
match_id-start id (c ∷ []) n e = ground arith
match_id-start id (c ∷ d ∷ s) n e = ground arith

-- A text matches with the id exactly if it is the prefix, an id of at least one character, all
-- of them letters, digits or dashes, and at most one slash after it.
pub match_plot-eq_some :
    (prefix s id : Text)
    → (match_plot prefix s ≡ some id)
      ↔ (IsPlotId id × ((s ≡ prefix ++ id) ⊎ (s ≡ prefix ++ (id ++ slash))))
unfolding match_plot
match_plot-eq_some prefix s id = (reads, prints)
  where
    reads :
        match_plot prefix s ≡ some id
        → IsPlotId id × ((s ≡ prefix ++ id) ⊎ (s ≡ prefix ++ (id ++ slash)))
    reads e = elim (Option-cases (strip_prefix prefix s)) [
      | inl p ↦ absurd (ground arith)
      | inr (r, p) ↦
          let (all, ne, ends) = match_id-eq_some false r id (ground arith) in
          let whole = strip_prefix-eq_some prefix s r p in
          (
            record { not_empty = ne refl; id_chars = all },
            elim ends [
              | inl q ↦ inl (whole ∙ ap (◌++◌ prefix) q)
              | inr q ↦ inr (whole ∙ ap (◌++◌ prefix) q)
            ],
          )
    ]

    prints :
        IsPlotId id × ((s ≡ prefix ++ id) ⊎ (s ≡ prefix ++ (id ++ slash)))
        → match_plot prefix s ≡ some id
    prints (v, inl e) =
        rw (e, match_plot, strip_prefix-append)
          (match_id-start id id v.not_empty (match_id-id id v.id_chars))
    prints (v, inr e) =
        rw (e, match_plot, strip_prefix-append)
          (match_id-start id (id ++ slash) v.not_empty (match_id-slash id v.id_chars))

-- The hash that the page and the server write for an id, `#plot/<id>`, reads back as that id,
-- whatever the path is.
pub uuid_from_location-hash :
    (id pathname : Text)
    → IsPlotId id
    → uuid_from_location (codes "#plot/" ++ id) pathname ≡ some id
unfolding uuid_from_location
uuid_from_location-hash id pathname v =
    let found = (match_plot-eq_some (codes "#plot/") (codes "#plot/" ++ id) id).1 (v, inl refl) in
    rw (found, uuid_from_location)
