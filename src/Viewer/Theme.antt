-- ===== src/Viewer/Theme.antt =====
-- The color scheme of `PlotView` of rust/assets/hep-viewer.js, and its media listener.
use ggsql_duckdb.Prelude.{suc, Bool, true, false, none, some, ◌∷◌, if◌then◌else◌}
use ggsql_duckdb.Viewer.Host.{Numbers, Wasm}
use ggsql_duckdb.Viewer.State.{
  M, ColorScheme, dark, auto, other, unknown_color_scheme, ◌>>=◌, ◌>>◌, skip, throw, get, modify,
  document, cancel,
}
use ggsql_duckdb.Viewer.Draw.{schedule}

module _ {Num Doc : Type 0} (js : Numbers Num) (wasm : Wasm Num Doc) where
  -- `this.plot.setDark(b)`
  abbrev pub set_dark : Bool → M Num Doc (Unit {0})
  set_dark b = document >>= λ d. modify (λ s. record s { plot = some (wasm.set_dark b d) })

  unfoldable pub detach_media : M Num Doc (Unit {0})
  detach_media = modify (λ s. record s { listeners = cancel s.media s.listeners; media = none })

  -- the listener that `auto` attaches
  unfoldable pub on_media : Bool → M Num Doc (Unit {0})
  on_media matches = do set_dark matches; schedule js wasm

  -- the branches of `setColorScheme` on a scheme that it knows
  abbrev pub apply_scheme : ColorScheme → M Num Doc (Unit {0})
  apply_scheme auto = do
    modify (λ t. record t {
      media = some t.next_id;
      listeners = t.next_id ∷ t.listeners;
      next_id = suc t.next_id;
    })
    s ← get
    set_dark s.prefers_dark
  apply_scheme dark = set_dark true
  apply_scheme _ = set_dark false

  abbrev pub known_scheme : ColorScheme → M Num Doc (Unit {0})
  known_scheme (other name) = throw (unknown_color_scheme name)
  known_scheme _ = skip

  unfoldable pub set_color_scheme : ColorScheme → M Num Doc (Unit {0})
  set_color_scheme scheme = do
    s ← get
    if s.freed then skip else do
      known_scheme scheme
      detach_media
      modify (λ t. record t { scheme = scheme })
      apply_scheme scheme
      schedule js wasm
