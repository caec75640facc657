-- ===== src/App/Overlap.antt =====
-- Views that rust/assets/app.html loses: of two calls of `renderPlot` that overlap, and of a
-- constructor that fails in its first drawing.
use ggsql_duckdb.Prelude.{
  ℕ, ◌≡◌, refl, ◌≢◌, ◌<◌, Bool, true, false, ◌||◌, Option, none, some, List, [], ◌∷◌, ◌==◌, arith,
}
use ggsql_duckdb.App.Location.{Text}
use ggsql_duckdb.App.Page.{
  Page, Task, fetching, rendering, Caller, location, poll, PlotResponse, bytes, not_ok, rejected,
  Rendering, viewed, no_view, undrawn, LatestResponse, latest, refused, broken, render_plot, fail,
  on_response, on_rendered, render_for_current_location, on_latest, without, free_view,
}
use ggsql_duckdb.App.Steps.{
  Event, popstate, answered, polled, responded, rendered, on_poll, resume_fetch, resume_render,
  step, advance, task_at, drop_task,
}

abbrev pub contains : ℕ → List ℕ → Bool
contains v [] = false
contains v (w ∷ ws) = w == v || contains v ws

-- A view that is alive, though the page no longer holds it.
pub record IsLeaked (v : ℕ) (p : Page) : Type 0 where
  pub alive : contains v p.live ≡ true
  pub not_held : p.view ≢ some v
  pub created : v < p.next_view

unfoldable pub run : List Event → Page → Page
run [] p = p
run (e ∷ es) p = run es (step e p)

module _ (v : ℕ) where
  contains-without :
      (w : ℕ) (ws : List ℕ) → w ≢ v → contains v ws ≡ true → contains v (without w ws) ≡ true
  contains-without w [] n e = e
  contains-without w (x ∷ ws) n e = ground (arith, contains-without w ws n)

  render_plot-IsLeaked :
      (c : Caller) (u : Text) (p : Page) → IsLeaked v p → IsLeaked v (render_plot c u p)
  unfolding render_plot
  render_plot-IsLeaked c u p l = ground arith

  location-IsLeaked : (p : Page) → IsLeaked v p → IsLeaked v (render_for_current_location p)
  unfolding render_for_current_location
  location-IsLeaked p l = grind (arith, render_plot-IsLeaked)

  answered-IsLeaked : (r : LatestResponse) (p : Page) → IsLeaked v p → IsLeaked v (on_latest r p)
  unfolding on_latest
  answered-IsLeaked (latest a) p l = grind (arith, render_plot-IsLeaked)
  answered-IsLeaked refused p l = ground arith
  answered-IsLeaked broken p l = ground arith

  advance-IsLeaked : (u : Text) (p : Page) → IsLeaked v p → IsLeaked v (advance u p)
  advance-IsLeaked u p l = grind (arith, render_plot-IsLeaked)

  polled-IsLeaked : (r : LatestResponse) (p : Page) → IsLeaked v p → IsLeaked v (on_poll r p)
  unfolding on_poll
  polled-IsLeaked (latest a) p l = grind (arith, advance-IsLeaked)
  polled-IsLeaked refused p l = l
  polled-IsLeaked broken p l = l

  fail-IsLeaked : (c : Caller) (p : Page) → IsLeaked v p → IsLeaked v (fail c p)
  fail-IsLeaked location p l = ground arith
  fail-IsLeaked poll p l = l

  -- The views left when `view` is freed.
  kept : (o : Option ℕ) (p : Page) → p.view ≡ o → IsLeaked v p → IsLeaked v (free_view p)
  kept none p e l = rw (e, free_view) l
  kept (some w) p e l =
      let other : w ≢ v = λ q. l.not_held (ground arith) in
      let alive = contains-without w p.live other l.alive in ground arith

  response-IsLeaked :
      (c : Caller) (u : Text) (r : PlotResponse) (p : Page)
      → IsLeaked v p
      → IsLeaked v (on_response c u r p)
  unfolding on_response
  response-IsLeaked c u bytes p l =
      let shown = record p { empty_hidden = true; vis_hidden = false } in
      let k =
        kept p.view shown refl
          (record { alive = l.alive; not_held = l.not_held; created = l.created }) in
      record { alive = k.alive; not_held = k.not_held; created = k.created }
  response-IsLeaked c u (not_ok code) p l = record {
    alive = l.alive;
    not_held = l.not_held;
    created = l.created;
  }
  response-IsLeaked c u rejected p l = fail-IsLeaked c p l

  rendered-IsLeaked :
      (c : Caller) (u : Text) (done : Rendering) (p : Page)
      → IsLeaked v p
      → IsLeaked v (on_rendered c u done p)
  unfolding on_rendered
  rendered-IsLeaked c u viewed p l = ground arith
  rendered-IsLeaked c u no_view p l = fail-IsLeaked c p l
  rendered-IsLeaked c u undrawn p l =
      fail-IsLeaked c _
        (record { alive = ground arith; not_held = l.not_held; created = ground arith })

  dropped-IsLeaked :
      (ts : List Task) (p : Page) → IsLeaked v p → IsLeaked v (record p { tasks = ts })
  dropped-IsLeaked ts p l = record { alive = l.alive; not_held = l.not_held; created = l.created }

  responded-IsLeaked :
      (t : Option Task) (r : PlotResponse) (p q : Page)
      → IsLeaked v p
      → IsLeaked v q
      → IsLeaked v (resume_fetch t r p q)
  responded-IsLeaked (some (fetching c u)) r p q l m = response-IsLeaked c u r q m
  responded-IsLeaked (some (rendering c u)) r p q l m = l
  responded-IsLeaked none r p q l m = l

  rendered_at-IsLeaked :
      (t : Option Task) (done : Rendering) (p q : Page)
      → IsLeaked v p
      → IsLeaked v q
      → IsLeaked v (resume_render t done p q)
  rendered_at-IsLeaked (some (rendering c u)) done p q l m = rendered-IsLeaked c u done q m
  rendered_at-IsLeaked (some (fetching c u)) done p q l m = l
  rendered_at-IsLeaked none done p q l m = l

  step-IsLeaked : (e : Event) (p : Page) → IsLeaked v p → IsLeaked v (step e p)
  unfolding step
  step-IsLeaked (popstate pathname hash) p l =
      location-IsLeaked _ (record { alive = l.alive; not_held = l.not_held; created = l.created })
  step-IsLeaked (answered r) p l = answered-IsLeaked r p l
  step-IsLeaked (polled r) p l = polled-IsLeaked r p l
  step-IsLeaked (responded k r) p l = responded-IsLeaked _ r p _ l (dropped-IsLeaked _ p l)
  step-IsLeaked (rendered k done) p l = rendered_at-IsLeaked _ done p _ l (dropped-IsLeaked _ p l)

  run-IsLeaked : (es : List Event) (p : Page) → IsLeaked v p → IsLeaked v (run es p)
  unfolding run
  run-IsLeaked [] p l = l
  run-IsLeaked (e ∷ es) p l = run-IsLeaked es (step e p) (step-IsLeaked e p l)

both-IsLeaked :
    (p : Page) (c d : Caller) (a b : Text)
    → p.tasks ≡ rendering c a ∷ rendering d b ∷ []
    → IsLeaked p.next_view (step (rendered 0 viewed) (step (rendered 1 viewed) p))
unfolding step on_rendered
both-IsLeaked p c d a b e = ground arith

-- If two calls of `renderPlot` both wait for the renderer and both get their views, the first
-- view is lost: the page holds the second, and whatever happens later, no call frees the first.
pub overlap-IsLeaked :
    (p : Page) (c d : Caller) (a b : Text) (es : List Event)
    → p.tasks ≡ rendering c a ∷ rendering d b ∷ []
    → IsLeaked p.next_view (run es (step (rendered 0 viewed) (step (rendered 1 viewed) p)))
overlap-IsLeaked p c d a b es e = run-IsLeaked p.next_view es _ (both-IsLeaked p c d a b e)

undrawn-IsLeaked :
    (c : Caller) (u : Text) (p : Page)
    → p.view ≡ none
    → IsLeaked p.next_view (on_rendered c u undrawn p)
unfolding on_rendered
undrawn-IsLeaked c u p e =
    fail-IsLeaked p.next_view c _
      (record { alive = ground arith; not_held = ground arith; created = ground arith })

-- If the constructor of a view fails in its first drawing, with no view held by the page, as it is
-- once the old one is freed, the new view stays alive: whatever happens later, the page does not hold
-- it and no call frees it.
pub undrawn_run-IsLeaked :
    (p : Page) (k : ℕ) (c : Caller) (u : Text) (es : List Event)
    → task_at k p.tasks ≡ some (rendering c u)
    → p.view ≡ none
    → IsLeaked p.next_view (run es (step (rendered k undrawn) p))
unfolding step
undrawn_run-IsLeaked p k c u es e n =
    run-IsLeaked p.next_view es _
      (rw e (undrawn-IsLeaked c u (record p { tasks = drop_task k p.tasks }) n))
