-- ===== src/Entry/Loader.antt =====
-- `loadHep` and `ggsqlRenderHep` of tools/hep-viewer/entry.js: the steps of the load with their
-- errors, and the promise that remembers the load.
use ggsql_duckdb.Prelude.{
  ℕ, suc, Bool, true, false, Option, none, some, List, [], ◌∷◌, ◌++◌, String, codes,
}
use ggsql_duckdb.Entry.Base64.{decode_base64}

abbrev pub Bytes : Type 0
Bytes = List ℕ

-- The keys of `FACES`.
pub data Face : Type 0 where
  regular bold italic bolditalic : Face

-- `FACES`, in its order, with the weight and style of each face.
abbrev pub faces : List (Face × (String × String))
faces =
    (regular, ("400", "normal"))
    ∷ (bold, ("700", "normal"))
    ∷ (italic, ("400", "italic"))
    ∷ (bolditalic, ("700", "italic"))
    ∷ []

-- `globalThis.ggsqlHepAssets`
pub record Assets : Type 0 where
  pub wasm : Bytes
  pub fonts : Face → Bytes

-- What the browser and the wasm module do: `none` and `false` are exceptions.
pub record Browser : Type 0 where
  pub atob : Bytes → Option Bytes
  pub gunzip : Bytes → Option Bytes
  pub init : Bytes → Bool
  pub register_font : Bytes → Bool
  -- the n-th result of `URL.createObjectURL`
  pub object_url : ℕ → List ℕ
  pub set_generic_family : Bool

pub data LoadError : Type 0 where
  assets_missing bad_base64 bad_gzip init_failed bad_font bad_family : LoadError

-- What the load has done to the wasm module and to the page.
pub data Effect : Type 0 where
  initialised : Bytes → Effect
  font_registered : Bytes → Effect
  style_appended : List ℕ → Effect
  generic_family_set : Effect

pub record World : Type 0 where
  -- newest last
  pub effects : List Effect
  pub urls : ℕ

pub data Result (A : Type 0) : Type 0 where
  done : A → Result A
  failed : LoadError → Result A

abbrev pub Load : Type 0 → Type 0
Load A = World → Result A × World

abbrev pub next : {A B : Type 0} → (A → Load B) → Result A → Load B
next f (done a) w = f a w
next f (failed e) w = (failed e, w)

infixl 5 ◌>>=◌ ◌>>◌
abbrev pub ◌>>=◌ : {A B : Type 0} → Load A → (A → Load B) → Load B
◌>>=◌ m f w = next f (m w).0 (m w).1

abbrev pub ◌>>◌ : {B : Type 0} → Load (Unit {0}) → Load B → Load B
m >> k = m >>= λ _. k

abbrev pub pure : {A : Type 0} → A → Load A
pure a w = (done a, w)

abbrev pub need : {A : Type 0} → Option A → LoadError → Load A
need none e w = (failed e, w)
need (some a) e w = (done a, w)

abbrev pub check : Bool → LoadError → Load (Unit {0})
check true e w = (done tt, w)
check false e w = (failed e, w)

abbrev pub emit : Effect → Load (Unit {0})
emit x w = (done tt, record w { effects = w.effects ++ (x ∷ []) })

-- the template of one `@font-face` block
abbrev pub face_rule : String → String → List ℕ → List ℕ
face_rule weight style url =
    codes "@font-face{font-family:'Roboto';font-style:"
    ++ (codes style
        ++ (codes ";font-weight:"
            ++ (codes weight
                ++ (codes ";font-display:block;src:url('"
                    ++ (url ++ codes "') format('truetype');}")))))

-- `lines.join("\n")`
abbrev pub join_lines : List (List ℕ) → List ℕ
join_lines [] = []
join_lines (l ∷ []) = l
join_lines (l ∷ m ∷ ls) = l ++ (10 ∷ join_lines (m ∷ ls))

-- `modulePromise`, as what it comes to, with the world that the load has left
pub record Loader : Type 0 where
  pub module_promise : Option (Result (Unit {0}))
  pub world : World

module _ (browser : Browser) where
  open browser use {atob, gunzip, init, register_font, object_url, set_generic_family}

  -- `await gunzip(decodeBase64(text))`
  abbrev pub unpack : Bytes → Load Bytes
  unpack text = do packed ← need (decode_base64 atob text) bad_base64; need (gunzip packed) bad_gzip

  abbrev pub create_object_url : Load (List ℕ)
  create_object_url w = (done (object_url w.urls), record w { urls = suc w.urls })

  unfoldable pub load_face : Assets → Face → String → String → Load (List ℕ)
  load_face assets face weight style = do
    bytes ← unpack (assets.fonts face)
    check (register_font bytes) bad_font
    emit (font_registered bytes)
    url ← create_object_url
    pure (face_rule weight style url)

  -- the loop over the faces, which collects `faceCss`
  unfoldable pub load_faces : Assets → List (Face × (String × String)) → Load (List (List ℕ))
  load_faces assets [] = pure []
  load_faces assets ((face, (weight, style)) ∷ rest) = do
    rule ← load_face assets face weight style
    rules ← load_faces assets rest
    pure (rule ∷ rules)

  -- the body of the promise
  unfoldable pub load_module : Option Assets → Load (Unit {0})
  load_module found = do
    assets ← need found assets_missing
    binary ← unpack assets.wasm
    check (init binary) init_failed
    emit (initialised binary)
    rules ← load_faces assets faces
    emit (style_appended (join_lines rules))
    check set_generic_family bad_family
    emit generic_family_set

  unfoldable pub load_hep : Option Assets → Loader → Result (Unit {0}) × Loader
  load_hep found s = elim s.module_promise [
    | some r ↦ (r, s)
    | none ↦
        let (r, w) = load_module found s.world in (r, record { module_promise = some r; world = w })
  ]
