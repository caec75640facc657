-- ===== src/Viewer/Getters.antt =====
-- What `colorScheme`, `isDark` and `hints` give of `PlotView` (rust/assets/hep-viewer.js).
use ggsql_duckdb.Prelude.{
  ◌≡◌, refl, inl, inr, ◌⊎◌, Bool, true, false, none, some, List, [], ◌∷◌, arith,
}
use mathlib.Core.Option
use ggsql_duckdb.Viewer.Host.{Numbers, Wasm}
use ggsql_duckdb.Viewer.State.{State, ok, throws, null_pointer}
use ggsql_duckdb.Viewer.Asked.{view_scheme, view_is_dark, hints}
use ggsql_duckdb.Viewer.Lifecycle.{Event, run}
use ggsql_duckdb.Viewer.Invariant.{IsValid}
use ggsql_duckdb.Viewer.Safety.{dispatch-IsValid}
use ggsql_duckdb.Viewer.History.{run-IsValid}
use ggsql_duckdb.Viewer.Themed.{wants_dark, IsThemed, dispatch-IsThemed}

module _ {Num Doc : Type 0} (js : Numbers Num) (wasm : Wasm Num Doc) where
  run-IsThemed :
      (es : List (Event Num)) (s : State Num Doc)
      → IsValid s
      → IsThemed js wasm s
      → IsThemed js wasm (run js wasm es s)
  unfolding run
  run-IsThemed [] s v w = w
  run-IsThemed (e ∷ es) s v w =
      run-IsThemed es _ (dispatch-IsValid js wasm e s v).0 (dispatch-IsThemed js wasm e s v w)

  -- What `isDark` gives follows from the document's theme.
  view_is_dark-ok :
      (t : State Num Doc) (b : Bool)
      → Option.map wasm.is_dark t.plot ≡ some b
      → view_is_dark js wasm t ≡ (ok b, t)
  unfolding view_is_dark
  view_is_dark-ok t b e = ground arith

  freed_getters :
      (t : State Num Doc)
      → t.plot ≡ none
      → (view_is_dark js wasm t ≡ (throws null_pointer, t))
        × (hints js wasm t ≡ (throws null_pointer, t))
  unfolding view_is_dark hints
  freed_getters t e = (ground arith, ground arith)

  -- After any calls and browser events on a valid view whose theme is in step: while the view is in
  -- use, `isDark` gives the theme that `colorScheme` and the theme of the OS ask for, and changes
  -- nothing; once it is freed, `isDark` and `hints` throw, as the pointer is null.
  pub view_is_dark-run :
      (es : List (Event Num)) (s : State Num Doc)
      → IsValid s
      → IsThemed js wasm s
      → let t = run js wasm es s in
        ((t.freed ≡ false)
          × (view_scheme js wasm t ≡ (ok t.scheme, t))
          × (view_is_dark js wasm t ≡ (ok (wants_dark t.scheme t.prefers_dark), t)))
        ⊎ ((t.freed ≡ true)
            × (view_is_dark js wasm t ≡ (throws null_pointer, t))
            × (hints js wasm t ≡ (throws null_pointer, t)))
  unfolding view_scheme view_is_dark hints
  view_is_dark-run es s v w = elim (run-IsValid js wasm es s v) [
    | inl live ↦
        let t = run js wasm es s in
        inl (
          live.in_use,
          refl,
          view_is_dark-ok t (wants_dark t.scheme t.prefers_dark)
              ((run-IsThemed es s v w).theme live.in_use),
        )
    | inr gone ↦
        let (no_theme, no_hints) = freed_getters (run js wasm es s) gone.no_document in
        inr (gone.out_of_use, no_theme, no_hints)
  ]
