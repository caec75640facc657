-- ===== src/Entry/Loading.antt =====
-- What the load of tools/hep-viewer/entry.js does on success and on failure, and how often.
use ggsql_duckdb.Prelude.{
  ℕ, suc, ◌+◌, ◌≡◌, refl, ap, ◌≢◌, true, Option, none, some, List, [], ◌∷◌, ◌++◌, String,
  append_assoc, append-nil, arith,
}
use ggsql_duckdb.Entry.Base64.{decode_base64}
use ggsql_duckdb.Entry.Loader.{
  Bytes, Face, regular, bold, italic, bolditalic, faces, Assets, Browser, LoadError, assets_missing,
  bad_family, Effect, initialised, font_registered, style_appended, generic_family_set, World, done,
  failed, unpack, face_rule, join_lines, load_face, load_faces, load_module, Loader, load_hep,
}

-- Whatever the first call of `loadHep` came to, every later call gives the same result and does
-- nothing more, with whatever assets and browser it finds: the load runs at most once.
pub load_hep-load_hep :
    (browser later_browser : Browser) (found later : Option Assets) (s : Loader)
    → load_hep later_browser later (load_hep browser found s).1 ≡ load_hep browser found s
unfolding load_hep
load_hep-load_hep browser later_browser found later s = ground arith

-- So a first call without the assets is final, also when the assets are there later.
load_hep-assets_missing :
    (browser later_browser : Browser) (later : Option Assets) (s : Loader)
    → s.module_promise ≡ none
    → let r = load_hep browser none s in
      (load_hep later_browser later r.1).0 ≡ failed assets_missing
unfolding load_hep load_module
load_hep-assets_missing browser later_browser later s e = ground arith

-- How many style elements the load has put in the page.
abbrev pub styles : List Effect → ℕ
styles [] = 0
styles (style_appended css ∷ xs) = suc (styles xs)
styles (_ ∷ xs) = styles xs

styles-append : (xs ys : List Effect) → styles (xs ++ ys) ≡ styles xs + styles ys
styles-append [] ys = omega arith
styles-append (style_appended css ∷ xs) ys = omega (arith, styles-append xs ys)
styles-append (initialised b ∷ xs) ys = styles-append xs ys
styles-append (font_registered b ∷ xs) ys = styles-append xs ys
styles-append (generic_family_set ∷ xs) ys = styles-append xs ys

module _ (browser : Browser) where
  styles-load_face :
      (assets : Assets) (face : Face) (weight style : String) (w : World)
      → styles (load_face browser assets face weight style w).1.effects ≡ styles w.effects
  unfolding load_face
  styles-load_face assets face weight style w = grind (arith, styles-append)

  styles-load_faces :
      (assets : Assets) (fs : List (Face × (String × String))) (w : World)
      → styles (load_faces browser assets fs w).1.effects ≡ styles w.effects
  unfolding load_faces
  styles-load_faces assets [] w = refl
  styles-load_faces assets ((face, (weight, style)) ∷ rest) w = ground (
    arith,
    styles-load_face assets face weight style w,
    styles-load_faces assets rest (load_face browser assets face weight style w).1,
  )

  -- A load that fails puts no style element in the page, unless it failed at its last step, the
  -- generic family: the browser never draws with faces that the shaper did not get.
  styles-load_module :
      (found : Option Assets) (w : World) (e : LoadError)
      → (load_module browser found w).0 ≡ failed e
      → e ≢ bad_family
      → styles (load_module browser found w).1.effects ≡ styles w.effects
  unfolding load_module
  styles-load_module none w e h n = refl
  styles-load_module (some assets) w e h n = grind (arith, styles-append, styles-load_faces)

  -- What a face does when its font is good.
  face_done :
      (assets : Assets) (face : Face) (weight style : String) (b : Bytes) (w : World)
      → (unpack browser (assets.fonts face) w).0 ≡ done b
      → browser.register_font b ≡ true
      → load_face browser assets face weight style w ≡ (
        done (face_rule weight style (browser.object_url w.urls)),
        record { effects = w.effects ++ (font_registered b ∷ []); urls = suc w.urls },
      )
  unfolding load_face
  face_done assets face weight style b w u g = ground arith

  -- The bytes in an asset: base64, then gzip.
  abbrev pub unpacked : Bytes → Option Bytes
  unpacked text = elim (decode_base64 browser.atob text) [
    | none ↦ none
    | some packed ↦ browser.gunzip packed
  ]

  unpack-done :
      (text b : Bytes) (w : World) → unpacked text ≡ some b → unpack browser text w ≡ (done b, w)
  unpack-done text b w e = ground arith

  -- The rules of the faces, with the URLs from the n-th on.
  abbrev pub face_rules : ℕ → List (Face × (String × String)) → List (List ℕ)
  face_rules n [] = []
  face_rules n ((face, (weight, style)) ∷ rest) =
      face_rule weight style (browser.object_url n) ∷ face_rules (suc n) rest

  abbrev pub registrations : (Face → Bytes) → List (Face × (String × String)) → List Effect
  registrations font [] = []
  registrations font ((face, _) ∷ rest) = font_registered (font face) ∷ registrations font rest

  abbrev pub count_from : ℕ → List (Face × (String × String)) → ℕ
  count_from n [] = n
  count_from n (_ ∷ rest) = count_from (suc n) rest

  load_faces-done :
      (assets : Assets) (font : Face → Bytes)
      → ((face : Face) → unpacked (assets.fonts face) ≡ some (font face))
      → ((face : Face) → browser.register_font (font face) ≡ true)
      → (fs : List (Face × (String × String))) (w : World)
      → load_faces browser assets fs w ≡ (
        done (face_rules w.urls fs),
        record { effects = w.effects ++ registrations font fs; urls = count_from w.urls fs },
      )
  unfolding load_faces
  load_faces-done assets font good ok [] w = ground (arith, append-nil w.effects)
  load_faces-done assets font good ok ((face, (weight, style)) ∷ rest) w =
      let v : World = record {
        effects = w.effects ++ (font_registered (font face) ∷ []);
        urls = suc w.urls;
      } in
      let first =
        face_done assets face weight style (font face) w
          (ap (λ r. r.0) (unpack-done (assets.fonts face) (font face) w (good face))) (ok face) in
      rw (first, load_faces-done assets font good ok rest v)
        (ap
          (λ xs. (
            done (face_rules w.urls ((face, (weight, style)) ∷ rest)),
            record { effects = xs; urls = count_from (suc w.urls) rest },
          ))
          (append_assoc w.effects (font_registered (font face) ∷ []) (registrations font rest)))

  -- With good assets the load succeeds, and this is all that it does, in this order: the module is
  -- initialised, the four faces are registered in the order of `FACES`, one style element with
  -- their four rules goes into the page, and the generic family is set.
  pub load_module-done :
      (assets : Assets) (binary : Bytes) (font : Face → Bytes)
      → unpacked assets.wasm ≡ some binary
      → browser.init binary ≡ true
      → ((face : Face) → unpacked (assets.fonts face) ≡ some (font face))
      → ((face : Face) → browser.register_font (font face) ≡ true)
      → browser.set_generic_family ≡ true
      → load_module browser (some assets) (record { effects = []; urls = 0 }) ≡ (
        done tt,
        record {
          effects =
              initialised binary
              ∷ font_registered (font regular)
              ∷ font_registered (font bold)
              ∷ font_registered (font italic)
              ∷ font_registered (font bolditalic)
              ∷ style_appended (join_lines (face_rules 0 faces))
              ∷ generic_family_set
              ∷ [];
          urls = 4;
        },
      )
  unfolding load_module
  load_module-done assets binary font u i good ok g =
      let w : World = record { effects = initialised binary ∷ []; urls = 0 } in
      rw (unpack-done assets.wasm binary _ u, i, load_faces-done assets font good ok faces w, g)
