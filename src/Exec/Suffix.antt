-- ===== src/Exec/Suffix.antt =====
-- The writer that src/ggsql_exec.cpp takes from a path.
use ggsql_duckdb.Prelude.{
  ◌≡◌, refl, sym, ap, subst, Bool, true, false, ◌||◌, Option, none, some, [], ◌∷◌, ◌++◌, ◌==◌,
  text_eq, text_eq_iff, codes, arith, if◌then◌else◌,
}
use ggsql_duckdb.Server.Registry.{Text}
use ggsql_duckdb.Exec.Query.{
  Attempt, returned, thrown, extension, writer_for_extension, unsupported, no_extension,
  writer_for_path,
}
use ggsql_duckdb.Exec.Modes.{
  OutputMode, silent_mode, url_mode, spec_mode, html_mode, svg_mode, pdf_mode, hep_mode, name,
}

-- The ending of the files that are written in a mode; two modes write no files.
abbrev pub file_suffix : OutputMode → Option Text
file_suffix silent_mode = none
file_suffix url_mode = none
file_suffix spec_mode = some (codes "json")
file_suffix html_mode = some (codes "html")
file_suffix svg_mode = some (codes "svg")
file_suffix pdf_mode = some (codes "pdf")
file_suffix hep_mode = some (codes "hep")

extension-eq_some :
    (path ext : Text) → extension path ≡ some ext → (stem : Text) × (path ≡ stem ++ (b'.' ∷ ext))
unfolding extension
extension-eq_some [] ext e = cc
extension-eq_some (c ∷ path) ext e = go (extension path) (extension-eq_some path) (c == b'.') refl e
  where
    go :
        (o : Option Text)
        → ((x : Text) → o ≡ some x → (stem : Text) × (path ≡ stem ++ (b'.' ∷ x)))
        → (dot : Bool) → (c == b'.') ≡ dot
        → (elim o [ some x ↦ some x | none ↦ if dot then some path else none ]) ≡ some ext
        → (stem : Text) × (c ∷ path ≡ stem ++ (b'.' ∷ ext))
    go (some x) later dot d h = let (stem, s) = later ext h in (c ∷ stem, ap (λ r. c ∷ r) s)
    go none later true d h = let same : path ≡ ext = cc in ([], rw (same) (ground arith))
    go none later false d h = cc

-- A writer that comes of an ending is the name of the mode with that ending.
abbrev IsWriter : Text → Attempt Text → Type 0
IsWriter ext (returned writer) =
    (mode : OutputMode) × (file_suffix mode ≡ some ext) × (writer ≡ name mode)
IsWriter ext (thrown e) = Unit

writer_for_extension-IsWriter : (path ext : Text) → IsWriter ext (writer_for_extension path ext)
writer_for_extension-IsWriter path ext =
    go (text_eq ext (codes "svg")) (text_eq ext (codes "pdf")) (text_eq ext (codes "hep"))
      (text_eq ext (codes "html")) (text_eq ext (codes "json")) (text_eq_iff ext (codes "svg")).0
      (text_eq_iff ext (codes "pdf")).0 (text_eq_iff ext (codes "hep")).0
      (text_eq_iff ext (codes "html")).0 (text_eq_iff ext (codes "json")).0
  where
    go :
        (s p h m j : Bool)
        → (s ≡ true → ext ≡ codes "svg")
        → (p ≡ true → ext ≡ codes "pdf")
        → (h ≡ true → ext ≡ codes "hep")
        → (m ≡ true → ext ≡ codes "html")
        → (j ≡ true → ext ≡ codes "json")
        → IsWriter ext (
            if s || p || h || m
            then returned ext
            else (if j then returned (codes "spec") else thrown (unsupported ext path)))
    go true p h m j es ep eh em ej = (svg_mode, ap some (sym (es refl)), es refl)
    go false true h m j es ep eh em ej = (pdf_mode, ap some (sym (ep refl)), ep refl)
    go false false true m j es ep eh em ej = (hep_mode, ap some (sym (eh refl)), eh refl)
    go false false false true j es ep eh em ej = (html_mode, ap some (sym (em refl)), em refl)
    go false false false false true es ep eh em ej = (spec_mode, ap some (sym (ej refl)), refl)
    go false false false false false es ep eh em ej = tt

-- The path ends in a dot and the ending of a mode, up to case.
pub record IsNamed (lower_text : Text → Text) (path writer : Text) : Type 0 where
  pub stem : Text
  pub ext : Text
  pub mode : OutputMode
  pub joined : path ≡ stem ++ (b'.' ∷ ext)
  pub suffix : file_suffix mode ≡ some (lower_text ext)
  pub named : writer ≡ name mode

pub writer_for_path-IsNamed :
    (lower_text : Text → Text) (path writer : Text)
    → writer_for_path lower_text path ≡ returned writer
    → IsNamed lower_text path writer
unfolding writer_for_path
writer_for_path-IsNamed lower_text path writer e = go (extension path) (extension-eq_some path) e
  where
    go :
        (o : Option Text)
        → ((x : Text) → o ≡ some x → (stem : Text) × (path ≡ stem ++ (b'.' ∷ x)))
        → (elim o [
          | none ↦ thrown (no_extension path)
          | some [] ↦ thrown (no_extension path)
          | some (c ∷ ext) ↦ writer_for_extension path (lower_text (c ∷ ext))
        ])
          ≡ returned writer
        → IsNamed lower_text path writer
    go none later h = cc
    go (some []) later h = cc
    go (some (c ∷ ext)) later h =
        let (stem, joined) = later (c ∷ ext) refl in
        let (mode, suffix, named) =
          subst (IsWriter (lower_text (c ∷ ext))) h
            (writer_for_extension-IsWriter path (lower_text (c ∷ ext))) in
        record {
          stem = stem;
          ext = c ∷ ext;
          mode = mode;
          joined = joined;
          suffix = suffix;
          named = named;
        }
