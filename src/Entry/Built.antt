-- ===== src/Entry/Built.antt =====
-- The assets that tools/hep-viewer/build.mjs writes are the ones that tools/hep-viewer/entry.js
-- loads.
use ggsql_duckdb.Prelude.{◌≡◌, refl, ap, ◌∙◌, true, some, [], ◌∷◌, codes}
use ggsql_duckdb.Entry.Base64.{AllBytes, decode_base64-eq_atob}
use ggsql_duckdb.Entry.Loader.{
  Bytes, Face, regular, bold, italic, bolditalic, faces, Assets, Browser, initialised,
  font_registered, style_appended, generic_family_set, done, join_lines, load_module,
}
use ggsql_duckdb.Entry.Loading.{unpacked, face_rules, load_module-done}
use ggsql_duckdb.Entry.Script.{is_plain, fonts_text, evaluate, evaluate-assets_js}
use ggsql_duckdb.Entry.Build.{
  Text, Node, wasm_file, font_file, assets_js, asset, font_entries, build,
}

abbrev pub face_name : Face → Text
face_name regular = codes "regular"
face_name bold = codes "bold"
face_name italic = codes "italic"
face_name bolditalic = codes "bolditalic"

-- What the browser undoes of what Node does, on bytes.
pub record IsUndone (node : Node) (browser : Browser) : Type 0 where
  pub read_binary : (file : Text) (b : Bytes) → node.read file ≡ some b → AllBytes b
  pub gzip_binary : (b : Bytes) → AllBytes b → AllBytes (node.gzip b)
  pub gunzip-gzip : (b : Bytes) → AllBytes b → browser.gunzip (node.gzip b) ≡ some b
  pub base64_plain : (b : Bytes) → AllBytes b → is_plain (node.base64 b) ≡ true
  pub atob-base64 : (b : Bytes) → AllBytes b → browser.atob (node.base64 b) ≡ some b
  pub atob_binary : (s binary : Bytes) → browser.atob s ≡ some binary → AllBytes binary

module _ (node : Node) (browser : Browser) where
  abbrev packed : Bytes → Text
  packed b = node.base64 (node.gzip b)

  unpacked-packed :
      (b : Bytes) → IsUndone node browser → AllBytes b → unpacked browser (packed b) ≡ some b
  unpacked-packed b u a =
      let raw =
        decode_base64-eq_atob browser.atob (packed b) u.atob_binary
        ∙ u.atob-base64 (node.gzip b) (u.gzip_binary b a) in
      rw (raw, unpacked) (u.gunzip-gzip b a)

  packed_plain : (b : Bytes) → IsUndone node browser → AllBytes b → is_plain (packed b) ≡ true
  packed_plain b u a = u.base64_plain (node.gzip b) (u.gzip_binary b a)

  asset-packed :
      (file : Text) (b : Bytes) → node.read file ≡ some b → asset node file ≡ some (packed b)
  unfolding asset
  asset-packed file b e = rw (e) refl

  build-eq_some :
      (version : Text) (binary : Bytes) (font : Face → Bytes)
      → node.version ≡ some version
      → node.read wasm_file ≡ some binary
      → ((face : Face) → node.read (font_file (face_name face)) ≡ some (font face))
      → build node
        ≡ some (assets_js version (packed binary) (fonts_text (λ face. packed (font face))))
  unfolding build font_entries
  build-eq_some version binary font v w f =
      rw
        (
          asset-packed (font_file (codes "regular")) (font regular) (f regular),
          asset-packed (font_file (codes "bold")) (font bold) (f bold),
          asset-packed (font_file (codes "italic")) (font italic) (f italic),
          asset-packed (font_file (codes "bolditalic")) (font bolditalic) (f bolditalic),
          asset-packed wasm_file binary w,
          v,
        )
        refl

  -- The way of the assets from the package into the page. If the files can be read, the version
  -- needs no escapes, the browser undoes what Node does, and the module and the fonts are
  -- accepted: the script writes a text which, run in the page, gives `loadHep` the very bytes of
  -- the wasm binary and of the four faces, and the load initialises the module with the one and
  -- registers the others, each under its own weight and style.
  pub build-load_module :
      (version : Text) (binary : Bytes) (font : Face → Bytes)
      → IsUndone node browser
      → node.version ≡ some version
      → is_plain version ≡ true
      → node.read wasm_file ≡ some binary
      → ((face : Face) → node.read (font_file (face_name face)) ≡ some (font face))
      → browser.init binary ≡ true
      → ((face : Face) → browser.register_font (font face) ≡ true)
      → browser.set_generic_family ≡ true
      → (text : Text) × (build node ≡ some text)
        × (load_module browser (evaluate text) (record { effects = []; urls = 0 }) ≡ (
          done tt,
          record {
            effects =
                initialised binary
                ∷ font_registered (font regular)
                ∷ font_registered (font bold)
                ∷ font_registered (font italic)
                ∷ font_registered (font bolditalic)
                ∷ style_appended (join_lines (face_rules browser 0 faces))
                ∷ generic_family_set
                ∷ [];
            urls = 4;
          },
        ))
  build-load_module version binary font u v p w f i r g =
      let packing : Face → Text = λ face. packed (font face) in
      let assets : Assets = record { wasm = packed binary; fonts = packing } in
      let code = u.read_binary wasm_file binary w in
      let ttf = λ (face : Face). u.read_binary (font_file (face_name face)) (font face) (f face) in
      let read =
        evaluate-assets_js packing (λ face. packed_plain (font face) u (ttf face)) version
          (packed binary) p (packed_plain binary u code) in
      (
        assets_js version (packed binary) (fonts_text packing),
        build-eq_some version binary font v w f,
        ap (λ found. load_module browser found (record { effects = []; urls = 0 })) read
            ∙ load_module-done browser assets binary font (unpacked-packed binary u code) i
                (λ face. unpacked-packed (font face) u (ttf face)) r g,
      )
