-- ===== src/Viewer/Invariant.antt =====
-- The invariant of `PlotView` (rust/assets/hep-viewer.js): what a view in use and a freed view
-- keep registered with the browser and hold on the wasm side.
use ggsql_duckdb.Prelude.{
  ℕ, ◌≡◌, ◌≢◌, ◌⊎◌, inl, inr, Bool, true, false, Option, none, some, List, [], ◌∷◌, is_some,
  if◌then◌else◌, arith, Bool-cases,
}
use ggsql_duckdb.Viewer.Host.{Numbers, Wasm}
use ggsql_duckdb.Viewer.State.{State, M, Outcome, throws, null_pointer, skip, remove, cancel}
use ggsql_duckdb.Viewer.Draw.{
  emit, draw, size_and_emit, render_now, schedule, on_frame, resize, on_observed,
}
use ggsql_duckdb.Viewer.Lifecycle.{frame_due, contains, dispatch}

-- The one id that a field of the view names.
abbrev pub registered : Option ℕ → List ℕ
registered none = []
registered (some k) = k ∷ []

module _ {Num Doc : Type 0} where
  -- In use: the document is there, the browser has the frame and the listener that the view
  -- knows of and no other, and every `SvgRender` is released.
  pub record IsLive (s : State Num Doc) : Type 0 where
    pub in_use : s.freed ≡ false
    pub has_document : is_some s.plot ≡ true
    pub one_frame : s.frames ≡ registered s.frame
    pub one_listener : s.listeners ≡ registered s.media
    pub observed : s.observing ≡ s.observer
    pub no_render : s.renders ≡ 0
    pub kept : s.documents_freed ≡ 0

  -- Freed: nothing is registered any more, and the document was released once.
  pub record IsFreed (s : State Num Doc) : Type 0 where
    pub out_of_use : s.freed ≡ true
    pub no_document : s.plot ≡ none
    pub no_frame : s.frames ≡ []
    pub no_listener : s.listeners ≡ []
    pub no_media : s.media ≡ none
    pub not_observed : s.observing ≡ false
    pub no_render : s.renders ≡ 0
    pub freed_once : s.documents_freed ≡ 1

  abbrev pub IsValid : State Num Doc → Type 0
  IsValid s = IsLive s ⊎ IsFreed s

  -- A run from a view in use leaves it in use, and never hands a dead pointer to wasm.
  pub record Runs (r : Outcome (Unit {0}) × State Num Doc) : Type 0 where
    pub live : IsLive r.1
    pub no_null : r.0 ≢ throws null_pointer

module _ {Num Doc : Type 0} (js : Numbers Num) (wasm : Wasm Num Doc) where
  pub emit-Runs : (w h : Num) {s : State Num Doc} → IsLive s → Runs (emit js wasm w h s)
  unfolding emit
  emit-Runs w h v = ground arith

  -- The shape of the guards: `if (test) return;` before the rest of a method.
  pub guarded-Runs :
      (b : Bool) (m : M Num Doc (Unit {0})) {s : State Num Doc}
      → IsLive s
      → Runs (m s)
      → Runs ((if b then skip else m) s)
  guarded-Runs true m v r = ground arith
  guarded-Runs false m v r = r

  pub when-Runs :
      (b : Bool) (m : M Num Doc (Unit {0})) {s : State Num Doc}
      → IsLive s
      → Runs (m s)
      → Runs ((if b then m else skip) s)
  when-Runs true m v r = r
  when-Runs false m v r = ground arith

  pub draw-Runs : (w h : Num) {s : State Num Doc} → IsLive s → Runs (draw js wasm w h s)
  unfolding draw
  draw-Runs w h v = guarded-Runs _ (emit js wasm w _) v (emit-Runs w _ v)

  pub size_and_emit-Runs : {s : State Num Doc} → IsLive s → Runs (size_and_emit js wasm s)
  unfolding size_and_emit
  size_and_emit-Runs v = grind (arith, emit-Runs)

  pub schedule-Runs : {s : State Num Doc} → IsLive s → Runs (schedule js wasm s)
  unfolding schedule
  schedule-Runs v = ground arith

  pub cancel-IsLive :
      {s : State Num Doc}
      → IsLive s
      → IsLive (record s { frames = cancel s.frame s.frames; frame = none })
  cancel-IsLive v = ground arith

  pub render_now-Runs : {s : State Num Doc} → IsLive s → Runs (render_now js wasm s)
  unfolding render_now
  render_now-Runs {s} v = guarded-Runs s.freed _ v (size_and_emit-Runs (cancel-IsLive v))

  pub resize-Runs : (w h : Num) {s : State Num Doc} → IsLive s → Runs (resize js wasm w h s)
  unfolding resize
  resize-Runs w h {s} v = guarded-Runs s.freed _ v (draw-Runs _ _ v)

  pub on_observed-Runs :
      (box : Option (Num × Num)) {s : State Num Doc} → IsLive s → Runs (on_observed js wasm box s)
  unfolding on_observed
  on_observed-Runs none {s} v = guarded-Runs s.freed _ v (draw-Runs _ _ v)
  on_observed-Runs (some (w, h)) {s} v = guarded-Runs s.freed _ v (draw-Runs _ _ v)

  -- A frame that is due was the one requested.
  frame_due-IsLive :
      (k : ℕ) {s : State Num Doc}
      → IsLive s
      → contains k s.frames ≡ true
      → IsLive (record s { frames = remove k s.frames; frame = none })
  frame_due-IsLive k v h = ground arith

  pub frame_due-Runs :
      (k : ℕ) {s : State Num Doc} → IsLive s → Runs (dispatch js wasm (frame_due k) s)
  unfolding dispatch on_frame
  frame_due-Runs k {s} v = elim (Bool-cases (contains k s.frames)) [
    | inl e ↦ rw e (
        guarded-Runs s.freed _ (frame_due-IsLive k v e)
          (size_and_emit-Runs (frame_due-IsLive k v e)))
    | inr e ↦ rw e (record { live = v; no_null = λ p. cc })
  ]
