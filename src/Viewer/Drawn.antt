-- ===== src/Viewer/Drawn.antt =====
-- What a `PlotView` (rust/assets/hep-viewer.js) shows from `create` on.
use ggsql_duckdb.Prelude.{ℕ, ◌≡◌, refl, inl, Option, none, some, List, [], ◌∷◌}
use ggsql_duckdb.Viewer.Host.{Numbers, Wasm}
use ggsql_duckdb.Viewer.State.{State, M, ok, ◌>>◌}
use ggsql_duckdb.Viewer.Draw.{render_now}
use ggsql_duckdb.Viewer.Lifecycle.{
  Event, ViewOptions, Surroundings, blank, picking_option, transparent_option, scheme_option,
  resize_option, construct, view_of, create, dispatch, run,
}
use ggsql_duckdb.Viewer.Invariant.{IsValid}
use ggsql_duckdb.Viewer.Safety.{dispatch-IsValid}
use ggsql_duckdb.Viewer.History.{view_of-IsLive}
use ggsql_duckdb.Viewer.Fresh.{IsFresh, Draws, then-Draws, render_now-Draws, dispatch-IsFresh}

module _ {Num Doc : Type 0} (js : Numbers Num) (wasm : Wasm Num Doc) where
  construct-Draws :
      (opts : ViewOptions Num) (s : State Num Doc) → Draws js wasm (construct js wasm opts s)
  unfolding construct
  construct-Draws opts s = then-Draws js wasm (picking_option js wasm opts) after_picking s λ t.
      then-Draws js wasm (transparent_option js wasm opts) after_transparent t λ u.
        then-Draws js wasm (scheme_option js wasm opts) after_scheme u λ x.
          then-Draws js wasm (resize_option js wasm opts) (render_now js wasm) x
            (render_now-Draws js wasm)
    where
      after_scheme : M Num Doc (Unit {0})
      after_scheme = resize_option js wasm opts >> render_now js wasm

      after_transparent : M Num Doc (Unit {0})
      after_transparent = scheme_option js wasm opts >> after_scheme

      after_picking : M Num Doc (Unit {0})
      after_picking = transparent_option js wasm opts >> after_transparent

  view_of-IsFresh :
      (opts : ViewOptions Num) (at : Surroundings Num) (r : Option Doc) (s : State Num Doc)
      → view_of js wasm opts at r ≡ some (ok tt, s)
      → IsFresh js wasm s
  view_of-IsFresh opts at none s h = cc
  view_of-IsFresh opts at (some d) s h =
      let q : construct js wasm opts (blank js wasm opts at d) ≡ (ok tt, s) = cc in
      let drawn : Draws js wasm (ok tt, s) =
        rw q at (construct-Draws opts (blank js wasm opts at d)) in
      drawn refl

  -- Each of the events returns without an error.
  abbrev pub ReturnsAll : List (Event Num) → State Num Doc → Type 0
  ReturnsAll [] s = Unit
  ReturnsAll (e ∷ es) s =
      ((dispatch js wasm e s).0 ≡ ok tt) × ReturnsAll es (dispatch js wasm e s).1

  run-IsFresh :
      (es : List (Event Num)) (s : State Num Doc)
      → IsValid s
      → IsFresh js wasm s
      → ReturnsAll es s
      → IsFresh js wasm (run js wasm es s)
  unfolding run
  run-IsFresh [] s v f h = f
  run-IsFresh (e ∷ es) s v f (h, hs) =
      run-IsFresh es _ (dispatch-IsValid js wasm e s v).0 (dispatch-IsFresh js wasm e s v f h) hs

  -- After a `create` that returns and any calls and browser events that each return without an error:
  -- a view that is in use and waits for no frame shows its current document at the size drawn last.
  -- Once a call or an event has thrown, nothing is said.
  pub run-create-IsFresh :
      (opts : ViewOptions Num) (at : Surroundings Num) (bytes : List ℕ) (es : List (Event Num))
      (s : State Num Doc)
      → create js wasm opts at bytes ≡ some (ok tt, s)
      → ReturnsAll es s
      → IsFresh js wasm (run js wasm es s)
  unfolding create
  run-create-IsFresh opts at bytes es s h hs =
      run-IsFresh es s (inl (view_of-IsLive js wasm opts at (wasm.load bytes) (ok tt) s h))
        (view_of-IsFresh opts at (wasm.load bytes) s h) hs
