-- ===== src/Viewer/Asked.antt =====
-- `colorScheme`, `isDark`, `hints` and `toSvgString` of `PlotView` (rust/assets/hep-viewer.js).
use ggsql_duckdb.Prelude.{◌≡◌, Bool, Option, none, some, String, arith}
use ggsql_duckdb.Viewer.Host.{Numbers, Wasm}
use ggsql_duckdb.Viewer.State.{State, M, ok, ColorScheme, ◌>>=◌, pure, document, skip}

pub record Hints (Num : Type 0) : Type 0 where
  pub width : Option Num
  pub height : Option Num
  pub dpi : Option Num

module _ {Num Doc : Type 0} (js : Numbers Num) (wasm : Wasm Num Doc) where
  unfoldable pub view_scheme : M Num Doc ColorScheme
  view_scheme s = (ok s.scheme, s)

  unfoldable pub view_is_dark : M Num Doc Bool
  view_is_dark = do d ← document; pure (wasm.is_dark d)

  unfoldable pub hints : M Num Doc (Hints Num)
  hints = do
    for_width ← document
    for_height ← document
    for_dpi ← document
    pure (record {
      width = wasm.hint_width for_width;
      height = wasm.hint_height for_height;
      dpi = wasm.hint_dpi for_dpi;
    })

  -- The browser gives the `outerHTML` of the first element of the container, whose content the view
  -- has set or found.
  unfoldable pub to_svg_string : (Option String → Option String) → M Num Doc String
  to_svg_string outer_html s = elim (outer_html s.inner_html) [
    | none ↦ (ok "", s)
    | some markup ↦ (ok markup, s)
  ]

  pub view_is_dark-same : (s : State Num Doc) → ((view_is_dark >>= λ _. skip) s).1 ≡ s
  unfolding view_is_dark
  view_is_dark-same s = ground arith

  pub hints-same : (s : State Num Doc) → ((hints >>= λ _. skip) s).1 ≡ s
  unfolding hints
  hints-same s = ground arith
