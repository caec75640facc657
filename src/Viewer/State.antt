-- ===== src/Viewer/State.antt =====
-- The fields of a `PlotView` of rust/assets/hep-viewer.js with the part of the page and of the
-- wasm side that it touches, and statements that read, write and throw.
use ggsql_duckdb.Prelude.{ℕ, Bool, Option, none, some, List, [], ◌∷◌, String, ◌==◌, if◌then◌else◌}
use ggsql_duckdb.Viewer.Host.{IdPrefix}

-- The argument of `setColorScheme`, by the strings that the code tells apart.
pub data ColorScheme : Type 0 where
  light dark auto : ColorScheme
  other : String → ColorScheme

pub data Exn : Type 0 where
  unknown_color_scheme : String → Exn
  -- the wasm glue was handed a document pointer that `free` has set to 0
  null_pointer : Exn
  wasm_trap : Exn
  unreadable : Exn

pub record State (Num Doc : Type 0) : Type 0 where
  -- `plot`, as the document behind its pointer; `none` once the pointer is 0
  pub plot : Option Doc
  pub warnings : List String
  pub id_prefix : IdPrefix
  pub aspect : Option Num
  -- `_frame`: the id of the requested animation frame
  pub frame : Option ℕ
  -- whether `_observer` is set
  pub observer : Bool
  -- `_media` and `_onMedia`, by the id of the listener
  pub media : Option ℕ
  pub scheme : ColorScheme
  pub last_size : Option (Num × Num)
  pub freed : Bool
  -- the page: the container, the OS theme, and what is registered with the browser for this view
  pub client_width : Num
  pub client_height : Num
  pub inner_html : Option String
  pub prefers_dark : Bool
  pub next_id : ℕ
  pub frames : List ℕ
  pub listeners : List ℕ
  pub observing : Bool
  -- the wasm side: the `SvgRender`s not yet freed, and the documents freed
  pub renders : ℕ
  pub documents_freed : ℕ

pub data Outcome (A : Type 0) : Type 0 where
  ok : A → Outcome A
  throws : Exn → Outcome A

abbrev pub M : Type 0 → Type 0 → Type 0 → Type 0
M Num Doc A = State Num Doc → Outcome A × State Num Doc

module _ {Num Doc : Type 0} where
  abbrev pub next :
      {A B : Type 0}
      → (A → State Num Doc → Outcome B × State Num Doc)
      → Outcome A
      → State Num Doc
      → Outcome B × State Num Doc
  next f (ok a) s = f a s
  next f (throws e) s = (throws e, s)

  infixl 5 ◌>>=◌ ◌>>◌
  abbrev pub ◌>>=◌ : {A B : Type 0} → M Num Doc A → (A → M Num Doc B) → M Num Doc B
  ◌>>=◌ m f s = next f (m s).0 (m s).1

  abbrev pub ◌>>◌ : {B : Type 0} → M Num Doc (Unit {0}) → M Num Doc B → M Num Doc B
  m >> k = m >>= λ _. k

  abbrev pub pure : {A : Type 0} → A → M Num Doc A
  pure a s = (ok a, s)

  abbrev pub skip : M Num Doc (Unit {0})
  skip s = (ok tt, s)

  abbrev pub throw : {A : Type 0} → Exn → M Num Doc A
  throw e s = (throws e, s)

  abbrev pub get : M Num Doc (State Num Doc)
  get s = (ok s, s)

  abbrev pub modify : (State Num Doc → State Num Doc) → M Num Doc (Unit {0})
  modify f s = (ok tt, f s)

  abbrev pub or_trap : {A : Type 0} → Option A → M Num Doc A
  or_trap none = throw wasm_trap
  or_trap (some a) = pure a

  -- `try { m } finally { f }`, where the last block cannot throw
  abbrev pub finally : {A : Type 0} → M Num Doc A → (State Num Doc → State Num Doc) → M Num Doc A
  finally m f s = ((m s).0, f (m s).1)

  -- every access to the document goes through its pointer
  abbrev pub document : M Num Doc Doc
  document s = elim s.plot [ none ↦ (throws null_pointer, s) | some d ↦ (ok d, s) ]

abbrev pub remove : ℕ → List ℕ → List ℕ
remove k [] = []
remove k (j ∷ js) = let rest = remove k js in if j == k then rest else j ∷ rest

-- `if (id !== null)` before `cancelAnimationFrame(id)` or `removeEventListener`, on the ids that
-- are registered.
abbrev pub cancel : Option ℕ → List ℕ → List ℕ
cancel none js = js
cancel (some k) js = remove k js
