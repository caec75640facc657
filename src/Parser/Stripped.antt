-- ===== src/Parser/Stripped.antt =====
-- The text that `ParseFunction` of src/ggsql_parser.cpp takes.
use ggsql_duckdb.Prelude.{
  ℕ, ◌≡◌, refl, ap, ◌∙◌, ◌⊎◌, inl, inr, Bool, true, false, ◌&&◌, Option, none, some, [], ◌∷◌, ◌++◌,
  append_assoc, arith, if◌then◌else◌, ◌==◌,
}
use ggsql_duckdb.Parser.Scanner.{
  Text, is_space, trim_end, drop_semicolon, contains_visualise_keyword, parse_found, parse_function,
}

abbrev pub all_space : Text → Bool
all_space [] = true
all_space (c ∷ s) = is_space c && all_space s

abbrev pub last_is : (ℕ → Bool) → Text → Bool
last_is test [] = false
last_is test (c ∷ []) = test c
last_is test (c ∷ d ∷ s) = last_is test (d ∷ s)

abbrev pub is_semicolon : ℕ → Bool
is_semicolon c = c == b';'

-- What is cut off the end of a text.
pub record IsTrimmed (whole kept : Text) : Type 0 where
  pub cut : Text
  pub joined : whole ≡ kept ++ cut
  pub blank : all_space cut ≡ true
  pub ends : last_is is_space kept ≡ false

one_more :
    (c : ℕ) (s cut : Text)
    → s ≡ cut
    → all_space cut ≡ true
    → (space : Bool) → is_space c ≡ space
    → IsTrimmed (c ∷ s) (if space then [] else c ∷ [])
one_more c s cut e h true q = record {
  cut = c ∷ cut;
  joined = ap (λ r. c ∷ r) e;
  blank = rw (q) h;
  ends = refl;
}
one_more c s cut e h false q = record { cut = cut; joined = ap (λ r. c ∷ r) e; blank = h; ends = q }

longer :
    (c : ℕ) (s kept : Text)
    → IsTrimmed s kept
    → IsTrimmed (c ∷ s) (elim kept [ [] ↦ if is_space c then [] else c ∷ [] | d ∷ r ↦ c ∷ d ∷ r ])
longer c s [] v = one_more c s v.cut v.joined v.blank (is_space c) refl
longer c s (d ∷ r) v = record {
  cut = v.cut;
  joined = ap (λ r. c ∷ r) v.joined;
  blank = v.blank;
  ends = v.ends;
}

trim_end-IsTrimmed : (s : Text) → IsTrimmed s (trim_end s)
unfolding trim_end
trim_end-IsTrimmed [] = record { cut = []; joined = refl; blank = refl; ends = refl }
trim_end-IsTrimmed (c ∷ s) = longer c s (trim_end s) (trim_end-IsTrimmed s)

pub record IsTaken (query taken : Text) : Type 0 where
  pub terminator : Text
  pub blanks : Text
  pub joined : query ≡ taken ++ (terminator ++ blanks)
  pub one : (terminator ≡ []) ⊎ (terminator ≡ b';' ∷ [])
  pub blank : all_space blanks ≡ true
  pub bare :
      terminator ≡ [] → (last_is is_space taken ≡ false) × (last_is is_semicolon taken ≡ false)

record IsDropped (whole kept : Text) : Type 0 where
  terminator : Text
  joined : whole ≡ kept ++ terminator
  one : (terminator ≡ []) ⊎ (terminator ≡ b';' ∷ [])
  bare : terminator ≡ [] → (kept ≡ whole) × (last_is is_semicolon kept ≡ false)

last_one :
    (c : ℕ) (semi : Bool) → (c == b';') ≡ semi → IsDropped (c ∷ []) (if semi then [] else c ∷ [])
last_one c true e = record {
  terminator = b';' ∷ [];
  joined = ground arith;
  one = inr refl;
  bare = λ e. cc;
}
last_one c false e = record {
  terminator = [];
  joined = refl;
  one = inl refl;
  bare = λ _. (refl, e);
}

last_is-drop_semicolon :
    (c d : ℕ) (s : Text)
    → drop_semicolon (d ∷ s) ≡ d ∷ s
    → last_is is_semicolon (drop_semicolon (d ∷ s)) ≡ false
    → last_is is_semicolon (c ∷ drop_semicolon (d ∷ s)) ≡ false
last_is-drop_semicolon c d s e h = rw (e) (rw e at h)

drop_semicolon-IsDropped : (s : Text) → IsDropped s (drop_semicolon s)
unfolding drop_semicolon
drop_semicolon-IsDropped [] = record {
  terminator = [];
  joined = refl;
  one = inl refl;
  bare = λ _. (refl, refl);
}
drop_semicolon-IsDropped (c ∷ []) = last_one c (c == b';') refl
drop_semicolon-IsDropped (c ∷ d ∷ s) =
    let v = drop_semicolon-IsDropped (d ∷ s) in
    record {
      terminator = v.terminator;
      joined = ap (λ r. c ∷ r) v.joined;
      one = v.one;
      bare = λ e.
          let (same, plain) = v.bare e in
          (ap (λ r. c ∷ r) same, last_is-drop_semicolon c d s same plain);
    }

-- A statement that is taken is one in which the scanner finds the keyword, and its text is the
-- query less the white space at its end and one semicolon before that; where there is no such
-- semicolon, the text ends neither in white space nor in a semicolon.
pub parse_function-IsTaken :
    (query taken : Text)
    → parse_function query ≡ some taken
    → (contains_visualise_keyword query ≡ some true) × IsTaken query taken
unfolding parse_function
parse_function-IsTaken query taken e = go (contains_visualise_keyword query) e
  where
    kept : taken ≡ drop_semicolon (trim_end query) → IsTaken query taken
    kept q =
        let t = trim_end-IsTrimmed query in
        let d = drop_semicolon-IsDropped (trim_end query) in
        rw (q) (record {
          terminator = d.terminator;
          blanks = t.cut;
          joined =
              t.joined
              ∙ ap (λ r. r ++ t.cut) d.joined
              ∙ append_assoc (drop_semicolon (trim_end query)) d.terminator t.cut;
          one = d.one;
          blank = t.blank;
          bare = λ none_cut. let (same, plain) = d.bare none_cut in (rw (same) t.ends, plain);
        })

    go :
        (o : Option Bool) → parse_found query o ≡ some taken → (o ≡ some true) × IsTaken query taken
    go none h = cc
    go (some true) h = (refl, kept (cc))
    go (some false) h = cc
