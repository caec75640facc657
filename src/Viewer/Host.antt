-- ===== src/Viewer/Host.antt =====
-- What `PlotView` of rust/assets/hep-viewer.js takes from outside the repository's code: the
-- numbers of JavaScript and the exports of the wasm module that draw a plot document.
use ggsql_duckdb.Prelude.{ℕ, Bool, ◌≡◌, Option, List, String}

-- The numbers of JavaScript, as far as the view uses them.
pub record Numbers (Num : Type 0) : Type 0 where
  pub one : Num
  -- a number as a condition: false at 0 and at NaN
  pub is_truthy : Num → Bool
  -- `===`
  pub same : Num → Num → Bool
  pub round : Num → Num
  pub max : Num → Num → Num
  pub div : Num → Num → Num

-- The prefix of the ids in one view's markup: the caller's, or `hep<n>-` for the n-th view.
pub data IdPrefix : Type 0 where
  given : String → IdPrefix
  generated : ℕ → IdPrefix

-- An `SvgRender` of the wasm side. Each getter may trap, which is `none`.
pub record Render : Type 0 where
  pub warnings : Option (List String)
  pub svg : Option String

-- The wasm exports behind `PlotDocument`, over the documents on the wasm side. `none` is the
-- error result of `load`, and a trap of `to_svg`.
pub record Wasm (Num Doc : Type 0) : Type 0 where
  pub load : List ℕ → Option Doc
  pub set_dark : Bool → Doc → Doc
  pub set_pick_ids : Bool → Doc → Doc
  pub set_transparent : Bool → Doc → Doc
  pub is_dark : Doc → Bool
  pub hint_width : Doc → Option Num
  pub hint_height : Doc → Option Num
  pub hint_dpi : Doc → Option Num
  pub to_svg : Doc → Num → Num → IdPrefix → Option Render
  -- "Whether the inverted theme is in use": the theme set last.
  pub is_dark-set_dark : (b : Bool) (d : Doc) → is_dark (set_dark b d) ≡ b
