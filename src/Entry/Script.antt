-- ===== src/Entry/Script.antt =====
-- What a browser makes of the script that tools/hep-viewer/build.mjs writes: comment lines, and
-- one object literal of strings assigned to `globalThis.ggsqlHepAssets`. A string literal is read up
-- to its quote; one with an escape, and a script of any other form, is outside of this.
use ggsql_duckdb.Prelude.{
  ◌≡◌, refl, sym, ap, ◌∙◌, Bool, true, false, not, ◌&&◌, ◌||◌, Option, none, some, List, [], ◌∷◌,
  ◌++◌, ◌==◌, codes, append_assoc, if◌then◌else◌, arith,
}
use mathlib.Core.Path.{fun_ext}
use ggsql_duckdb.App.Location.{strip_prefix, strip_prefix-append}
use ggsql_duckdb.Entry.Loader.{Face, regular, bold, italic, bolditalic, Assets}
use ggsql_duckdb.Entry.Build.{Text, and_then, font_entry, join_entries, assets_js}

-- Comment lines at the start; the flag is set within one.
unfoldable pub skip_comments : Bool → Text → Text
skip_comments true [] = []
skip_comments true (c ∷ s) =
    let ended = skip_comments false s in
    let more = skip_comments true s in if c == b'\n' then ended else more
skip_comments false [] = []
skip_comments false (c ∷ []) = c ∷ []
skip_comments false (c ∷ d ∷ s) =
    let comment = skip_comments true s in if c == b'/' && d == b'/' then comment else c ∷ d ∷ s

-- A string literal behind its first quote, and what follows it.
unfoldable pub read_string : Text → Option (Text × Text)
read_string [] = none
read_string (c ∷ s) =
    let rest = and_then (read_string s) λ r. some (c ∷ r.0, r.1) in
    if c == b'"' then some ([], s) else (if c == b'\\' || c == b'\n' then none else rest)

-- A text that stands for itself between double quotes.
abbrev pub is_plain : Text → Bool
is_plain [] = true
is_plain (c ∷ s) = not (c == b'"') && not (c == b'\\' || c == b'\n') && is_plain s

-- `name: "…"`
unfoldable pub read_field : Text → Text → Option (Text × Text)
read_field name text = and_then (strip_prefix (name ++ codes ": \"") text) read_string

abbrev pub by_face : Text → Text → Text → Text → Face → Text
by_face r b i j regular = r
by_face r b i j bold = b
by_face r b i j italic = i
by_face r b i j bolditalic = j

-- a field behind a separator
abbrev pub read_next : Text → Text → Text → Option (Text × Text)
read_next separator name text = and_then (strip_prefix separator text) (read_field name)

unfoldable pub read_fonts : Text → Option ((Face → Text) × Text)
read_fonts text = and_then (read_next (codes "{\n    ") (codes "regular") text) λ r.
    and_then (read_next (codes ",\n    ") (codes "bold") r.1) λ b.
      and_then (read_next (codes ",\n    ") (codes "italic") b.1) λ i.
        and_then (read_next (codes ",\n    ") (codes "bolditalic") i.1)
          λ j. some (by_face r.0 b.0 i.0 j.0, j.1)

unfoldable pub evaluate : Text → Option Assets
evaluate text =
    and_then
      (read_next (codes "globalThis.ggsqlHepAssets = {\n  ") (codes "version")
        (skip_comments false text))
      λ v. and_then (read_next (codes ",\n  ") (codes "wasm") v.1) λ w.
        and_then (strip_prefix (codes ",\n  fonts: ") w.1) λ rest.
          and_then (read_fonts rest) λ fonts.
            and_then (strip_prefix (codes "\n  }\n};\n") fonts.1)
              λ _. some (record { wasm = w.0; fonts = fonts.0 })

read_string-append :
    (s rest : Text) → is_plain s ≡ true → read_string (s ++ (b'"' ∷ rest)) ≡ some (s, rest)
unfolding read_string
read_string-append [] rest h = refl
read_string-append (c ∷ s) rest h = ground (arith, read_string-append s rest)

read_field-append :
    (name s rest : Text)
    → is_plain s ≡ true
    → read_field name (font_entry name s ++ rest) ≡ some (s, rest)
unfolding read_field
read_field-append name s rest h =
    let colon = codes ": \"" in
    let shape : font_entry name s ++ rest ≡ (name ++ colon) ++ (s ++ (b'"' ∷ rest)) =
      append_assoc name (colon ++ (s ++ (b'"' ∷ []))) rest
      ∙ ap (λ t. name ++ (colon ++ t)) (append_assoc s (b'"' ∷ []) rest)
      ∙ sym (append_assoc name colon (s ++ (b'"' ∷ rest))) in
    ap (read_field name) shape
    ∙ ap (λ o. and_then o read_string) (strip_prefix-append (name ++ colon) (s ++ (b'"' ∷ rest)))
    ∙ read_string-append s rest h

read_next-append :
    (separator name s rest : Text)
    → is_plain s ≡ true
    → read_next separator name (separator ++ (font_entry name s ++ rest)) ≡ some (s, rest)
read_next-append separator name s rest h =
    ap (λ o. and_then o (read_field name))
      (strip_prefix-append separator (font_entry name s ++ rest))
    ∙ read_field-append name s rest h

skip_comments-append :
    (s rest : Text) → is_plain s ≡ true → skip_comments true (s ++ rest) ≡ skip_comments true rest
unfolding skip_comments
skip_comments-append [] rest h = refl
skip_comments-append (c ∷ s) rest h = ground (arith, skip_comments-append s rest)

closing-closing : strip_prefix (codes "\n  }\n};\n") (codes "\n  }\n};\n") ≡ some []
closing-closing = strip_prefix-append (codes "\n  }\n};\n") []

-- the `fonts` object of the file
abbrev pub fonts_text : (Face → Text) → Text
fonts_text packing = join_entries (
    font_entry (codes "regular") (packing regular)
    ∷ font_entry (codes "bold") (packing bold)
    ∷ font_entry (codes "italic") (packing italic)
    ∷ font_entry (codes "bolditalic") (packing bolditalic)
    ∷ [])

join_entries-append :
    (e f : Text) (es : List Text) (rest : Text)
    → join_entries (e ∷ f ∷ es) ++ rest ≡ e ++ (codes ",\n    " ++ (join_entries (f ∷ es) ++ rest))
join_entries-append e f es rest = append_assoc e (codes ",\n    " ++ join_entries (f ∷ es)) rest

module _ (packing : Face → Text) (plain : (face : Face) → is_plain (packing face) ≡ true) where
  read_fonts-fonts_text :
      (rest : Text)
      → read_fonts (codes "{\n    " ++ (fonts_text packing ++ rest))
        ≡ some
            (by_face (packing regular) (packing bold) (packing italic) (packing bolditalic), rest)
  unfolding read_fonts
  read_fonts-fonts_text rest =
      let comma = codes ",\n    " in
      let r = font_entry (codes "regular") (packing regular) in
      let b = font_entry (codes "bold") (packing bold) in
      let i = font_entry (codes "italic") (packing italic) in
      let j = font_entry (codes "bolditalic") (packing bolditalic) in
      let third = comma ++ (j ++ rest) in
      let second = comma ++ (i ++ third) in
      let first = comma ++ (b ++ second) in
      let shape : fonts_text packing ++ rest ≡ r ++ first =
        join_entries-append r b (i ∷ j ∷ []) rest
        ∙ ap (λ t. r ++ (comma ++ t))
            (join_entries-append b i (j ∷ []) rest
              ∙ ap (λ t. b ++ (comma ++ t)) (join_entries-append i j [] rest)) in
      ap (λ t. read_fonts (codes "{\n    " ++ t)) shape
      ∙ rw
          (
            read_next-append (codes "{\n    ") (codes "regular") (packing regular) first
                (plain regular),
            read_next-append comma (codes "bold") (packing bold) second (plain bold),
            read_next-append comma (codes "italic") (packing italic) third (plain italic),
            read_next-append comma (codes "bolditalic") (packing bolditalic) rest
                (plain bolditalic),
          )
          refl

  by_face_self :
      by_face (packing regular) (packing bold) (packing italic) (packing bolditalic) ≡ packing
  by_face_self = fun_ext go
    where
      go :
          (face : Face)
          → by_face (packing regular) (packing bold) (packing italic) (packing bolditalic) face
            ≡ packing face
      go regular = refl
      go bold = refl
      go italic = refl
      go bolditalic = refl

  skip_comments-assets_js :
      (version wasm : Text)
      → is_plain version ≡ true
      → let closing = codes "\n  }\n};\n" in
        let fonts = codes ",\n  fonts: " ++ (codes "{\n    " ++ (fonts_text packing ++ closing)) in
        skip_comments false (assets_js version wasm (fonts_text packing))
        ≡ codes "globalThis.ggsqlHepAssets = {\n  "
          ++ (font_entry (codes "version") version
              ++ (codes ",\n  " ++ (font_entry (codes "wasm") wasm ++ fonts)))
  unfolding assets_js skip_comments
  skip_comments-assets_js version wasm v = skip_comments-append version _ v

  -- The script of the build gives the object that is written in it.
  pub evaluate-assets_js :
      (version wasm : Text)
      → is_plain version ≡ true
      → is_plain wasm ≡ true
      → evaluate (assets_js version wasm (fonts_text packing))
        ≡ some (record { wasm = wasm; fonts = packing })
  unfolding evaluate
  evaluate-assets_js version wasm v w =
      let closing = codes "\n  }\n};\n" in
      let fonts = codes "{\n    " ++ (fonts_text packing ++ closing) in
      let behind = codes ",\n  fonts: " ++ fonts in
      let second = codes ",\n  " ++ (font_entry (codes "wasm") wasm ++ behind) in
      rw
        (
          skip_comments-assets_js version wasm v,
          read_next-append (codes "globalThis.ggsqlHepAssets = {\n  ") (codes "version") version
              second v,
          read_next-append (codes ",\n  ") (codes "wasm") wasm behind w,
          strip_prefix-append (codes ",\n  fonts: ") fonts,
          read_fonts-fonts_text closing,
          closing-closing,
          by_face_self,
        )
        refl
