-- ===== src/Viewer/History.antt =====
-- The invariant of `PlotView` (rust/assets/hep-viewer.js) from `create` on, over any history.
use ggsql_duckdb.Prelude.{ℕ, ◌≡◌, inl, Bool, true, Option, none, some, List, [], ◌∷◌, arith}
use ggsql_duckdb.Viewer.Host.{Numbers, Wasm}
use ggsql_duckdb.Viewer.State.{State, M, Outcome, ok, throws, null_pointer, next, ◌>>◌}
use ggsql_duckdb.Viewer.Draw.{render_now}
use ggsql_duckdb.Viewer.Lifecycle.{
  Event, ViewOptions, Surroundings, blank, set_flag, picking_option, transparent_option,
  scheme_option, resize_option, construct, view_of, create, dispatch, run,
}
use ggsql_duckdb.Viewer.Invariant.{IsLive, IsValid, Runs, render_now-Runs}
use ggsql_duckdb.Viewer.Safety.{set_color_scheme-Runs, dispatch-IsValid, asks_document}

module _ {Num Doc : Type 0} (js : Numbers Num) (wasm : Wasm Num Doc) where
  flag-Runs :
      (b : Bool) (f : Doc → Doc) {s : State Num Doc} → IsLive s → Runs (set_flag js wasm b f s)
  flag-Runs b f v = ground arith

  -- Statements run one after the other.
  seq-Runs :
      (m k : M Num Doc (Unit {0})) (s : State Num Doc)
      → Runs (m s)
      → ((t : State Num Doc) → IsLive t → Runs (k t))
      → Runs ((m >> k) s)
  seq-Runs m k s r rest = go (m s) r
    where
      go : (o : Outcome (Unit {0}) × State Num Doc) → Runs o → Runs (next (λ _. k) o.0 o.1)
      go (ok tt, t) r = rest t r.live
      go (throws e, t) r = ground arith

  resize_option-Runs :
      (opts : ViewOptions Num) {s : State Num Doc} → IsLive s → Runs (resize_option js wasm opts s)
  resize_option-Runs opts v = ground arith

  pub construct-Runs :
      (opts : ViewOptions Num) (s : State Num Doc) → IsLive s → Runs (construct js wasm opts s)
  unfolding construct
  construct-Runs opts s v =
      seq-Runs (picking_option js wasm opts) after_picking s (flag-Runs _ _ v) λ t v1.
        seq-Runs (transparent_option js wasm opts) after_transparent t (flag-Runs _ _ v1) λ u v2.
          seq-Runs (scheme_option js wasm opts) after_scheme u (set_color_scheme-Runs js wasm _ v2)
            λ x v3.
              seq-Runs (resize_option js wasm opts) (render_now js wasm) x
                (resize_option-Runs opts v3) λ y v4. render_now-Runs js wasm v4
    where
      after_scheme : M Num Doc (Unit {0})
      after_scheme = resize_option js wasm opts >> render_now js wasm

      after_transparent : M Num Doc (Unit {0})
      after_transparent = scheme_option js wasm opts >> after_scheme

      after_picking : M Num Doc (Unit {0})
      after_picking = transparent_option js wasm opts >> after_transparent

  pub blank-IsLive :
      (opts : ViewOptions Num) (at : Surroundings Num) (d : Doc) → IsLive (blank js wasm opts at d)
  blank-IsLive opts at d = ground arith

  pub run-IsValid :
      (es : List (Event Num)) (s : State Num Doc) → IsValid s → IsValid (run js wasm es s)
  unfolding run
  run-IsValid [] s v = v
  run-IsValid (e ∷ es) s v = run-IsValid es _ (dispatch-IsValid js wasm e s v).0

  pub view_of-IsLive :
      (opts : ViewOptions Num) (at : Surroundings Num) (r : Option Doc) (o : Outcome (Unit {0}))
      (s : State Num Doc)
      → view_of js wasm opts at r ≡ some (o, s)
      → IsLive s
  view_of-IsLive opts at none o s h = cc
  view_of-IsLive opts at (some d) o s h =
      let q : construct js wasm opts (blank js wasm opts at d) ≡ (o, s) = cc in
      rw q at (construct-Runs opts _ (blank-IsLive opts at d)).live

  -- After `create` on a readable document and any calls and browser events, in any order, the view is
  -- valid: in use with at most one frame and one listener, which it knows, or freed with nothing
  -- registered and its document released once. The next event hands the pointer of a freed document
  -- to wasm, and throws for it, only if it is a call of `isDark` or `hints` on a freed view.
  pub run-create-IsValid :
      (opts : ViewOptions Num) (at : Surroundings Num) (bytes : List ℕ) (es : List (Event Num))
      (e : Event Num) (o : Outcome (Unit {0})) (s : State Num Doc)
      → create js wasm opts at bytes ≡ some (o, s)
      → IsValid (run js wasm es s)
        × ((dispatch js wasm e (run js wasm es s)).0 ≡ throws null_pointer
            → ((run js wasm es s).freed ≡ true) × (asks_document js wasm e ≡ true))
  unfolding create
  run-create-IsValid opts at bytes es e o s h =
      let v = run-IsValid es s (inl (view_of-IsLive opts at (wasm.load bytes) o s h)) in
      (v, (dispatch-IsValid js wasm e _ v).1)
