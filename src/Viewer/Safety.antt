-- ===== src/Viewer/Safety.antt =====
-- Which events keep the invariant of `PlotView` (rust/assets/hep-viewer.js), and what is left once
-- the view is freed.
use ggsql_duckdb.Prelude.{
  ℕ, suc, ap, ◌≡◌, refl, ◌≢◌, inl, inr, Bool, true, false, Option, none, List, [], ◌∷◌, arith,
  if◌then◌else◌,
}
use ggsql_duckdb.Viewer.Host.{Numbers, Wasm}
use ggsql_duckdb.Viewer.State.{
  State, M, Outcome, ok, throws, null_pointer, next, cancel, ◌>>◌, ColorScheme, light, dark, auto,
  other,
}
use ggsql_duckdb.Viewer.Draw.{schedule, redraw, resize, render_now}
use ggsql_duckdb.Viewer.Asked.{view_scheme, view_is_dark, hints}
use ggsql_duckdb.Viewer.Theme.{set_dark, on_media, detach_media, apply_scheme, set_color_scheme}
use ggsql_duckdb.Viewer.Lifecycle.{
  Event, redraws, resizes, sets_scheme, frees, asks_scheme, asks_dark, asks_hints, frame_due,
  container_change, media_change, notify, free, dispatch,
}
use ggsql_duckdb.Viewer.Invariant.{
  IsLive, IsFreed, IsValid, Runs, registered, guarded-Runs, when-Runs, schedule-Runs,
  render_now-Runs, resize-Runs, on_observed-Runs, frame_due-Runs,
}

module _ {Num Doc : Type 0} (js : Numbers Num) (wasm : Wasm Num Doc) where
  set_dark-Runs : (b : Bool) {s : State Num Doc} → IsLive s → Runs (set_dark js wasm b s)
  set_dark-Runs b v = ground arith

  then_schedule-Runs :
      (m : M Num Doc (Unit {0})) (s : State Num Doc) → Runs (m s) → Runs ((m >> schedule js wasm) s)
  then_schedule-Runs m s r = go (m s) r
    where
      go :
          (o : Outcome (Unit {0}) × State Num Doc)
          → Runs o
          → Runs (next (λ _. schedule js wasm) o.0 o.1)
      go (ok tt, t) r = schedule-Runs js wasm r.live
      go (throws e, t) r = ground arith

  pub on_media-Runs : (b : Bool) {s : State Num Doc} → IsLive s → Runs (on_media js wasm b s)
  unfolding on_media
  on_media-Runs b {s} v = then_schedule-Runs (set_dark js wasm b) s (set_dark-Runs b v)

  apply_scheme-Runs :
      (c : ColorScheme) {s : State Num Doc}
      → IsLive s
      → s.media ≡ none
      → Runs (apply_scheme js wasm c s)
  apply_scheme-Runs auto v e = ground arith
  apply_scheme-Runs dark v e = ground arith
  apply_scheme-Runs light v e = ground arith
  apply_scheme-Runs (other n) v e = ground arith

  -- The view once the old listener is off and the new scheme is noted.
  abbrev pub chosen : ColorScheme → State Num Doc → State Num Doc
  chosen c s = record s { listeners = cancel s.media s.listeners; media = none; scheme = c }

  chosen-IsLive : (c : ColorScheme) {s : State Num Doc} → IsLive s → IsLive (chosen c s)
  chosen-IsLive c v = ground arith

  chosen-Runs :
      (c : ColorScheme) (s : State Num Doc)
      → IsLive s
      → Runs ((apply_scheme js wasm c >> schedule js wasm) (chosen c s))
  chosen-Runs c s v =
      then_schedule-Runs (apply_scheme js wasm c) (chosen c s)
        (apply_scheme-Runs c (chosen-IsLive c v) refl)

  pub set_color_scheme-Runs :
      (c : ColorScheme) {s : State Num Doc} → IsLive s → Runs (set_color_scheme js wasm c s)
  unfolding set_color_scheme detach_media
  set_color_scheme-Runs (other n) {s} v =
      guarded-Runs js wasm s.freed _ v (record { live = v; no_null = λ e. cc })
  set_color_scheme-Runs auto {s} v = guarded-Runs js wasm s.freed _ v (chosen-Runs auto s v)
  set_color_scheme-Runs dark {s} v = guarded-Runs js wasm s.freed _ v (chosen-Runs dark s v)
  set_color_scheme-Runs light {s} v = guarded-Runs js wasm s.freed _ v (chosen-Runs light s v)

  os_theme-IsLive :
      (b : Bool) {s : State Num Doc} → IsLive s → IsLive (record s { prefers_dark = b })
  os_theme-IsLive b v = ground arith

  notify-Runs :
      (ids : List ℕ) (b : Bool) {s : State Num Doc}
      → IsLive s
      → Runs (notify js wasm ids (on_media js wasm b) s)
  notify-Runs [] b v = record { live = v; no_null = λ e. cc }
  notify-Runs (_ ∷ _) b v = on_media-Runs b v

  -- The view that `free` leaves.
  abbrev pub freed_state : State Num Doc → State Num Doc
  freed_state s = record s {
    freed = true;
    frames = cancel s.frame s.frames;
    observing = if s.observer then false else s.observing;
    listeners = cancel s.media s.listeners;
    media = none;
    plot = none;
    documents_freed = suc s.documents_freed;
  }

  cancel-registered : (o : Option ℕ) (ids : List ℕ) → ids ≡ registered o → cancel o ids ≡ []
  cancel-registered o ids e = ground arith

  pub freed_state-IsFreed : {s : State Num Doc} → IsLive s → IsFreed (freed_state s)
  freed_state-IsFreed {s} v = record {
    out_of_use = refl;
    no_document = refl;
    no_frame = cancel-registered s.frame s.frames v.one_frame;
    no_listener = cancel-registered s.media s.listeners v.one_listener;
    no_media = refl;
    not_observed = not_observed s.observer s.observing v.observed;
    no_render = v.no_render;
    freed_once = ap suc v.kept;
  }
    where
      not_observed : (a b : Bool) → b ≡ a → (if a then false else b) ≡ false
      not_observed true b e = refl
      not_observed false b e = e

  -- `free` on a view in use succeeds.
  pub free-live : {s : State Num Doc} → IsLive s → free js wasm s ≡ (ok tt, freed_state s)
  unfolding free detach_media
  free-live v = ground arith

  -- The OS theme after an event.
  abbrev pub os_theme : Event Num → Bool → Bool
  os_theme (media_change b) _ = b
  os_theme _ b = b

  -- Events that reach the document without a look at `_freed`.
  abbrev pub asks_document : Event Num → Bool
  asks_document asks_dark = true
  asks_document asks_hints = true
  asks_document _ = false

  -- What an event of a freed view comes to.
  abbrev pub freed_outcome : Event Num → Outcome (Unit {0})
  freed_outcome e = if asks_document e then throws null_pointer else ok tt

  -- Once a view is freed, every later call and browser event changes nothing of it: the state is the
  -- same but for the theme that the OS reports. All return without an error but `isDark` and `hints`.
  pub dispatch-freed :
      (e : Event Num) {s : State Num Doc}
      → IsFreed s
      → dispatch js wasm e s
        ≡ (freed_outcome e, record s { prefers_dark = os_theme e s.prefers_dark })
  unfolding dispatch redraw render_now resize set_color_scheme free view_scheme view_is_dark hints
  dispatch-freed redraws v = ground arith
  dispatch-freed (resizes w h) v = ground arith
  dispatch-freed (sets_scheme c) v = ground arith
  dispatch-freed frees v = ground arith
  dispatch-freed asks_scheme v = ground arith
  dispatch-freed asks_dark v = ground arith
  dispatch-freed asks_hints v = ground arith
  dispatch-freed (frame_due k) v = ground arith
  dispatch-freed (container_change box) v = ground arith
  dispatch-freed (media_change b) v = ground arith

  pub dispatch-IsLive :
      (e : Event Num) {s : State Num Doc}
      → IsLive s
      → IsValid (dispatch js wasm e s).1 × ((dispatch js wasm e s).0 ≢ throws null_pointer)
  unfolding dispatch redraw view_scheme view_is_dark hints
  dispatch-IsLive redraws v = let r = render_now-Runs js wasm v in (inl r.live, r.no_null)
  dispatch-IsLive (resizes w h) v = let r = resize-Runs js wasm w h v in (inl r.live, r.no_null)
  dispatch-IsLive (sets_scheme c) v = let r = set_color_scheme-Runs c v in (inl r.live, r.no_null)
  dispatch-IsLive frees v = rw (free-live v) (inr (freed_state-IsFreed v), λ p. cc)
  dispatch-IsLive asks_scheme v = (inl v, λ p. cc)
  dispatch-IsLive asks_dark v = ground arith
  dispatch-IsLive asks_hints v = ground arith
  dispatch-IsLive (frame_due k) v = let r = frame_due-Runs js wasm k v in (inl r.live, r.no_null)
  dispatch-IsLive (container_change box) {s} v =
      let r = when-Runs js wasm s.observing _ v (on_observed-Runs js wasm box v) in
      (inl r.live, r.no_null)
  dispatch-IsLive (media_change b) v =
      let r = notify-Runs _ b (os_theme-IsLive b v) in (inl r.live, r.no_null)

  freed_outcome-null :
      (e : Event Num) → freed_outcome e ≡ throws null_pointer → asks_document e ≡ true
  freed_outcome-null e = go (asks_document e)
    where
      go : (b : Bool) → (if b then throws null_pointer else ok tt) ≡ throws null_pointer → b ≡ true
      go true p = refl
      go false p = cc

  -- Every call and browser event keeps the invariant of a valid view, in use or freed, and only `isDark`
  -- and `hints` of a freed view hand the pointer of a freed document to wasm.
  pub dispatch-IsValid :
      (e : Event Num) (s : State Num Doc)
      → IsValid s
      → IsValid (dispatch js wasm e s).1
        × ((dispatch js wasm e s).0 ≡ throws null_pointer
            → (s.freed ≡ true) × (asks_document e ≡ true))
  dispatch-IsValid e s (inl v) = let r = dispatch-IsLive e v in (r.0, λ p. absurd (r.1 p))
  dispatch-IsValid e s (inr v) =
      rw (dispatch-freed e v) (inr (ground arith), λ p. (v.out_of_use, freed_outcome-null e p))
