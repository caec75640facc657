-- ===== src/Viewer/Keeps.antt =====
-- What the drawing operations of `PlotView` (rust/assets/hep-viewer.js) leave alone.
use ggsql_duckdb.Prelude.{◌≡◌, Bool, true, false, Option, none, some, arith, if◌then◌else◌}
use ggsql_duckdb.Viewer.Host.{Numbers, Wasm}
use ggsql_duckdb.Viewer.State.{State, M, skip, cancel}
use ggsql_duckdb.Viewer.Draw.{
  emit, draw, size_and_emit, render_now, schedule, on_frame, resize, on_observed,
}
use ggsql_duckdb.Viewer.Theme.{set_dark}

module _ {Num Doc : Type 0} where
  -- What drawing leaves alone.
  pub record Keeps (s t : State Num Doc) : Type 0 where
    pub plot_kept : t.plot ≡ s.plot
    pub scheme_kept : t.scheme ≡ s.scheme
    pub os_kept : t.prefers_dark ≡ s.prefers_dark
    pub media_kept : t.media ≡ s.media
    pub freed_kept : t.freed ≡ s.freed

module _ {Num Doc : Type 0} (js : Numbers Num) (wasm : Wasm Num Doc) where
  pub emit-Keeps : (w h : Num) (s : State Num Doc) → Keeps s (emit js wasm w h s).1
  unfolding emit
  emit-Keeps w h s = ground arith

  guarded-Keeps :
      (b : Bool) (m : M Num Doc (Unit {0})) (s : State Num Doc)
      → Keeps s (m s).1
      → Keeps s ((if b then skip else m) s).1
  guarded-Keeps true m s k = ground arith
  guarded-Keeps false m s k = k

  draw-Keeps : (w h : Num) (s : State Num Doc) → Keeps s (draw js wasm w h s).1
  unfolding draw
  draw-Keeps w h s = guarded-Keeps _ (emit js wasm w _) s (emit-Keeps w _ s)

  size_and_emit-Keeps : (s : State Num Doc) → Keeps s (size_and_emit js wasm s).1
  unfolding size_and_emit
  size_and_emit-Keeps s = grind (arith, emit-Keeps)

  pub render_now-Keeps : (s : State Num Doc) → Keeps s (render_now js wasm s).1
  unfolding render_now
  render_now-Keeps s = guarded-Keeps s.freed _ s (
      ground
        (arith, size_and_emit-Keeps (record s { frames = cancel s.frame s.frames; frame = none })))

  pub resize-Keeps : (w h : Num) (s : State Num Doc) → Keeps s (resize js wasm w h s).1
  unfolding resize
  resize-Keeps w h s = guarded-Keeps s.freed _ s (draw-Keeps _ _ s)

  pub on_observed-Keeps :
      (box : Option (Num × Num)) (s : State Num Doc) → Keeps s (on_observed js wasm box s).1
  unfolding on_observed
  on_observed-Keeps none s = guarded-Keeps s.freed _ s (draw-Keeps _ _ s)
  on_observed-Keeps (some (w, h)) s = guarded-Keeps s.freed _ s (draw-Keeps _ _ s)

  pub on_frame-Keeps : (s : State Num Doc) → Keeps s (on_frame js wasm s).1
  unfolding on_frame
  on_frame-Keeps s = ground (arith, size_and_emit-Keeps (record s { frame = none }))

  pub schedule-Keeps : (s : State Num Doc) → Keeps s (schedule js wasm s).1
  unfolding schedule
  schedule-Keeps s = ground arith

  pub set_dark-Keeps :
      (b : Bool) (s : State Num Doc)
      → let t = (set_dark js wasm b s).1 in
        (t.scheme ≡ s.scheme) × (t.prefers_dark ≡ s.prefers_dark) × (t.media ≡ s.media)
  set_dark-Keeps b s = ground arith
