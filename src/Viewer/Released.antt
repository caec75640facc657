-- ===== src/Viewer/Released.antt =====
-- A freed view of rust/assets/hep-viewer.js for the rest of its history, and under the pointer.
use ggsql_duckdb.Prelude.{◌≡◌, refl, inl, inr, none, List, [], ◌∷◌, arith}
use ggsql_duckdb.Viewer.Host.{Numbers, Wasm}
use ggsql_duckdb.Viewer.State.{State}
use ggsql_duckdb.Viewer.Lifecycle.{Event, frees, dispatch, run}
use ggsql_duckdb.Viewer.Invariant.{IsFreed, IsValid}
use ggsql_duckdb.Viewer.Safety.{free-live, freed_state-IsFreed, dispatch-freed}
use ggsql_duckdb.Viewer.Picking.{Browser, Container, element_at, pick}

module _ {Num Doc : Type 0} (js : Numbers Num) (wasm : Wasm Num Doc) where
  run-IsFreed : (es : List (Event Num)) (s : State Num Doc) → IsFreed s → IsFreed (run js wasm es s)
  unfolding run
  run-IsFreed [] s v = v
  run-IsFreed (e ∷ es) s v =
      let after : IsFreed (dispatch js wasm e s).1 =
        rw (dispatch-freed js wasm e v) (ground arith) in
      run-IsFreed es _ after

  frees-IsFreed : (s : State Num Doc) → IsValid s → IsFreed (dispatch js wasm frees s).1
  unfolding dispatch
  frees-IsFreed s (inl v) = rw (free-live js wasm v) (freed_state-IsFreed js wasm v)
  frees-IsFreed s (inr v) = rw (dispatch-freed js wasm frees v) (ground arith)

  pick-IsFreed :
      (browser : Browser Num) (c : Container Num) (s : State Num Doc) (x y : Num)
      → IsFreed s
      → pick browser c s x y ≡ none
  unfolding pick element_at
  pick-IsFreed browser c s x y v = rw (v.out_of_use) refl

  -- Once `free` has been called on a valid view, no point is a hit any more, whatever calls and
  -- browser events follow: also where the markup is still in the container.
  pick-run :
      (browser : Browser Num) (c : Container Num) (es : List (Event Num)) (s : State Num Doc)
      (x y : Num)
      → IsValid s
      → pick browser c (run js wasm es (dispatch js wasm frees s).1) x y ≡ none
  pick-run browser c es s x y v =
      pick-IsFreed browser c _ x y (run-IsFreed es _ (frees-IsFreed s v))
