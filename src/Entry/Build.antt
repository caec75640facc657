-- ===== src/Entry/Build.antt =====
-- tools/hep-viewer/build.mjs: the text of rust/assets/hep-assets.js. The call of esbuild, which
-- makes the other file, is not part of this.
use ggsql_duckdb.Prelude.{ℕ, Option, none, some, List, [], ◌∷◌, ◌++◌, codes}
use ggsql_duckdb.Entry.Loader.{Bytes}

abbrev pub Text : Type 0
Text = List ℕ

-- What the script takes from Node and from the package hephaestus-svg-wasm: `none` is an
-- exception.
pub record Node : Type 0 where
  pub gzip : Bytes → Bytes
  pub base64 : Bytes → Text
  -- a file of the package
  pub read : Text → Option Bytes
  -- `pkg.version`
  pub version : Option Text

abbrev pub and_then : {A B : Type 0} → Option A → (A → Option B) → Option B
and_then none f = none
and_then (some a) f = f a

abbrev pub wasm_file : Text
wasm_file = codes "hephaestus_svg_wasm_bg.wasm"

abbrev pub font_file : Text → Text
font_file face = codes "fonts/roboto-" ++ (face ++ codes ".ttf")

abbrev pub face_names : List Text
face_names = codes "regular" ∷ codes "bold" ∷ codes "italic" ∷ codes "bolditalic" ∷ []

abbrev pub quoted : Text → Text
quoted text = b'"' ∷ (text ++ (b'"' ∷ []))

abbrev pub font_entry : Text → Text → Text
font_entry face packing = face ++ (codes ": " ++ quoted packing)

-- `entries.join(",\n    ")`
abbrev pub join_entries : List Text → Text
join_entries [] = []
join_entries (e ∷ []) = e
join_entries (e ∷ f ∷ es) = e ++ (codes ",\n    " ++ join_entries (f ∷ es))

-- the template of the file
unfoldable pub assets_js : Text → Text → Text → Text
assets_js version wasm fonts =
    codes "// AUTO-GENERATED by tools/hep-viewer/build.mjs from hephaestus-svg-wasm\n// "
    ++ (version
        ++ (codes " — do not edit. gzip+base64 of the wasm binary and the four\n"
            ++ (codes
                  "// bundled Roboto faces (OFL-1.1, see fonts/OFL-Roboto.txt in the npm package).\n"
                ++ (codes "globalThis.ggsqlHepAssets = {\n  version: "
                    ++ (quoted version
                        ++ (codes ",\n  wasm: "
                            ++ (quoted wasm
                                ++ (codes ",\n  fonts: {\n    "
                                    ++ (fonts ++ codes "\n  }\n};\n")))))))))

module _ (node : Node) where
  open node use {gzip, base64, read, version}

  unfoldable pub asset : Text → Option Text
  asset file = and_then (read file) λ bytes. some (base64 (gzip bytes))

  unfoldable pub font_entries : List Text → Option (List Text)
  font_entries [] = some []
  font_entries (face ∷ faces) =
      and_then (asset (font_file face))
        λ packing. and_then (font_entries faces) λ entries. some (font_entry face packing ∷ entries)

  unfoldable pub build : Option Text
  build = and_then (font_entries face_names) λ fonts.
      and_then version
        λ v. and_then (asset wasm_file) λ wasm. some (assets_js v wasm (join_entries fonts))
