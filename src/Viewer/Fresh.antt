-- ===== src/Viewer/Fresh.antt =====
-- What `PlotView` (rust/assets/hep-viewer.js) shows after calls and events that return.
use ggsql_duckdb.Prelude.{
  ℕ, ◌≡◌, refl, sym, subst, inl, inr, Bool, true, false, Option, none, some, List, [], ◌∷◌, String,
  is_some, arith, if◌then◌else◌,
}
use ggsql_duckdb.Viewer.Host.{Numbers, Wasm, IdPrefix, Render}
use ggsql_duckdb.Viewer.State.{
  State, M, Outcome, ok, throws, skip, next, ◌>>◌, ColorScheme, light, dark, auto, other,
}
use ggsql_duckdb.Viewer.Draw.{
  emit, draw, size_and_emit, render_now, schedule, on_frame, redraw, resize, on_observed,
}
use ggsql_duckdb.Viewer.Theme.{set_dark, on_media, detach_media, apply_scheme, set_color_scheme}
use ggsql_duckdb.Viewer.Lifecycle.{
  Event, redraws, resizes, sets_scheme, frees, asks_scheme, asks_dark, asks_hints, frame_due,
  container_change, media_change, contains, notify, free, dispatch,
}
use ggsql_duckdb.Viewer.Asked.{view_scheme, view_is_dark-same, hints-same}
use ggsql_duckdb.Viewer.Invariant.{IsLive, IsValid}
use ggsql_duckdb.Viewer.Safety.{chosen, free-live, dispatch-freed}

module _ {Num Doc : Type 0} (js : Numbers Num) (wasm : Wasm Num Doc) where
  abbrev pub svg_of : Option Render → Option String
  svg_of none = none
  svg_of (some r) = r.svg

  -- The markup of a document at a size.
  abbrev pub markup : Option Doc → Option (Num × Num) → IdPrefix → Option String
  markup none size p = none
  markup (some d) none p = none
  markup (some d) (some (w, h)) p = svg_of (wasm.to_svg d w h p)

  -- The page shows the document as it now is, at the size drawn last.
  abbrev pub Shows : State Num Doc → Type 0
  Shows s = (markup s.plot s.last_size s.id_prefix ≡ s.inner_html) × (is_some s.inner_html ≡ true)

  -- A view in use that waits for no frame shows its document.
  abbrev pub IsFresh : State Num Doc → Type 0
  IsFresh s = s.freed ≡ false → s.frame ≡ none → Shows s

  abbrev pub Draws : Outcome (Unit {0}) × State Num Doc → Type 0
  Draws r = r.0 ≡ ok tt → IsFresh r.1

  guarded-Draws :
      (b : Bool) (m : M Num Doc (Unit {0})) (s : State Num Doc)
      → IsFresh s
      → Draws (m s)
      → Draws ((if b then skip else m) s)
  guarded-Draws true m s v r = λ e. v
  guarded-Draws false m s v r = r

  when-Draws :
      (b : Bool) (m : M Num Doc (Unit {0})) (s : State Num Doc)
      → IsFresh s
      → Draws (m s)
      → Draws ((if b then m else skip) s)
  when-Draws true m s v r = r
  when-Draws false m s v r = λ e. v

  emit-Shows :
      (w h : Num) (s : State Num Doc)
      → (emit js wasm w h s).0 ≡ ok tt
      → Shows (emit js wasm w h s).1
  unfolding emit
  emit-Shows w h s e = ground arith

  emit-Draws : (w h : Num) (s : State Num Doc) → Draws (emit js wasm w h s)
  emit-Draws w h s e _ _ = emit-Shows w h s e

  draw-Draws : (w h : Num) (s : State Num Doc) → IsFresh s → Draws (draw js wasm w h s)
  unfolding draw
  draw-Draws w h s v = guarded-Draws _ (emit js wasm w _) s v (emit-Draws w _ s)

  size_and_emit-Shows :
      (s : State Num Doc) → (size_and_emit js wasm s).0 ≡ ok tt → Shows (size_and_emit js wasm s).1
  unfolding size_and_emit
  size_and_emit-Shows s e = grind (arith, emit-Shows)

  size_and_emit-Draws : (s : State Num Doc) → Draws (size_and_emit js wasm s)
  size_and_emit-Draws s e _ _ = size_and_emit-Shows s e

  schedule-Draws : (s : State Num Doc) → Draws (schedule js wasm s)
  unfolding schedule
  schedule-Draws s e f n = absurd (ground arith)

  -- What comes first does not matter where the rest draws.
  pub then-Draws :
      (m k : M Num Doc (Unit {0})) (s : State Num Doc)
      → ((t : State Num Doc) → Draws (k t))
      → Draws ((m >> k) s)
  then-Draws m k s rest = go (m s)
    where
      go : (o : Outcome (Unit {0}) × State Num Doc) → Draws (next (λ _. k) o.0 o.1)
      go (ok u, t) = rest t
      go (throws x, t) = λ e. cc

  then_schedule-Draws :
      (m : M Num Doc (Unit {0})) (s : State Num Doc) → Draws ((m >> schedule js wasm) s)
  then_schedule-Draws m s = then-Draws m (schedule js wasm) s schedule-Draws

  freed-Draws :
      (m : M Num Doc (Unit {0})) (s : State Num Doc)
      → Draws (m s)
      → Draws ((if s.freed then skip else m) s)
  freed-Draws m s r = go s.freed refl
    where
      go : (b : Bool) → s.freed ≡ b → Draws ((if b then skip else m) s)
      go true p = λ e f. absurd (ground arith)
      go false p = r

  pub render_now-Draws : (s : State Num Doc) → Draws (render_now js wasm s)
  unfolding render_now
  render_now-Draws s = freed-Draws _ s (size_and_emit-Draws _)

  resize-Draws : (w h : Num) (s : State Num Doc) → IsFresh s → Draws (resize js wasm w h s)
  unfolding resize
  resize-Draws w h s v = guarded-Draws s.freed _ s v (draw-Draws _ _ s v)

  on_observed-Draws :
      (box : Option (Num × Num)) (s : State Num Doc) → IsFresh s → Draws (on_observed js wasm box s)
  unfolding on_observed
  on_observed-Draws none s v = guarded-Draws s.freed _ s v (draw-Draws _ _ s v)
  on_observed-Draws (some (w, h)) s v = guarded-Draws s.freed _ s v (draw-Draws _ _ s v)

  on_frame-Draws : (s : State Num Doc) → Draws (on_frame js wasm s)
  unfolding on_frame
  on_frame-Draws s = go s.freed refl
    where
      go :
          (b : Bool)
          → s.freed ≡ b
          → Draws ((if b then skip else size_and_emit js wasm) (record s { frame = none }))
      go true p = λ e f. absurd (ground arith)
      go false p = size_and_emit-Draws _

  set_color_scheme-Draws :
      (c : ColorScheme) (s : State Num Doc) → IsFresh s → Draws (set_color_scheme js wasm c s)
  unfolding set_color_scheme detach_media
  set_color_scheme-Draws (other n) s v = guarded-Draws s.freed _ s v (λ e. cc)
  set_color_scheme-Draws auto s v =
      guarded-Draws s.freed _ s v
        (then_schedule-Draws (apply_scheme js wasm auto) (chosen js wasm auto s))
  set_color_scheme-Draws dark s v =
      guarded-Draws s.freed _ s v
        (then_schedule-Draws (apply_scheme js wasm dark) (chosen js wasm dark s))
  set_color_scheme-Draws light s v =
      guarded-Draws s.freed _ s v
        (then_schedule-Draws (apply_scheme js wasm light) (chosen js wasm light s))

  notify-Draws :
      (ids : List ℕ) (b : Bool) (s : State Num Doc)
      → IsFresh s
      → Draws (notify js wasm ids (on_media js wasm b) s)
  unfolding on_media
  notify-Draws [] b s v = λ e. v
  notify-Draws (_ ∷ _) b s v = then_schedule-Draws (set_dark js wasm b) s

  frees-Draws : (s : State Num Doc) → IsLive s → Draws (free js wasm s)
  frees-Draws s v = rw (free-live js wasm v) (λ e f n. cc)

  -- A call or browser event that returns without an error keeps a view fresh.
  pub dispatch-IsFresh :
      (e : Event Num) (s : State Num Doc)
      → IsValid s
      → IsFresh s
      → (dispatch js wasm e s).0 ≡ ok tt
      → IsFresh (dispatch js wasm e s).1
  unfolding dispatch redraw view_scheme
  dispatch-IsFresh redraws s v f = render_now-Draws s
  dispatch-IsFresh (resizes w h) s v f = resize-Draws w h s f
  dispatch-IsFresh (sets_scheme c) s v f = set_color_scheme-Draws c s f
  dispatch-IsFresh frees s (inl v) f = frees-Draws s v
  dispatch-IsFresh frees s (inr v) f = rw (dispatch-freed js wasm frees v) (λ _ n. cc v.out_of_use)
  dispatch-IsFresh asks_scheme s v f = λ _. f
  dispatch-IsFresh asks_dark s v f = λ _. subst IsFresh (sym (view_is_dark-same js wasm s)) f
  dispatch-IsFresh asks_hints s v f = λ _. subst IsFresh (sym (hints-same js wasm s)) f
  dispatch-IsFresh (frame_due k) s v f = when-Draws (contains k s.frames) _ s f (on_frame-Draws _)
  dispatch-IsFresh (container_change box) s v f =
      when-Draws s.observing _ s f (on_observed-Draws box s f)
  dispatch-IsFresh (media_change b) s v f =
      notify-Draws s.listeners b (record s { prefers_dark = b }) f
