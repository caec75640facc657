-- ===== src/App/Tidy.antt =====
-- Which views of rust/assets/app.html are alive: the one in `view`, as long as calls of
-- `renderPlot` do not overlap.
use ggsql_duckdb.Prelude.{
  ℕ, zero, suc, ◌≡◌, refl, Bool, true, false, Option, none, some, List, [], ◌∷◌, arith, ◌⊎◌, inl,
  inr,
}
use ggsql_duckdb.App.Location.{Text}
use ggsql_duckdb.App.Page.{
  Page, Task, fetching, rendering, Caller, location, poll, PlotResponse, bytes, not_ok, rejected,
  Rendering, viewed, no_view, undrawn, LatestResponse, latest, refused, broken, render_plot, fail,
  on_response, on_rendered, render_for_current_location, on_latest, without,
}
use ggsql_duckdb.App.Steps.{
  Event, popstate, answered, polled, responded, rendered, on_poll, resume_fetch, resume_render,
  task_at, drop_task, step, advance,
}

-- The view that the page holds.
abbrev pub held : Option ℕ → List ℕ
held none = []
held (some v) = v ∷ []

-- At most one call waits, and while it renders the old view is gone.
abbrev pub Serial : List Task → Option ℕ → Type 0
Serial [] v = Unit
Serial (fetching c u ∷ []) v = Unit
Serial (rendering c u ∷ []) v = v ≡ none
Serial (_ ∷ _ ∷ _) v = ⊥

pub record IsOrderly (p : Page) : Type 0 where
  pub tidy : p.live ≡ held p.view
  pub serial : Serial p.tasks p.view

-- The events that may call `renderPlot`.
abbrev pub opens : Event → Bool
opens (responded _ _) = false
opens (rendered _ _) = false
opens _ = true

render_plot-IsOrderly :
    (c : Caller) (u : Text) (p : Page)
    → p.tasks ≡ []
    → p.live ≡ held p.view
    → IsOrderly (render_plot c u p)
unfolding render_plot
render_plot-IsOrderly c u p e v = ground arith

location-IsOrderly :
    (p : Page) → p.tasks ≡ [] → p.live ≡ held p.view → IsOrderly (render_for_current_location p)
unfolding render_for_current_location
location-IsOrderly p e v = grind (arith, render_plot-IsOrderly)

answered-IsOrderly :
    (r : LatestResponse) (p : Page) → p.tasks ≡ [] → IsOrderly p → IsOrderly (on_latest r p)
unfolding on_latest
answered-IsOrderly (latest a) p e v = grind (arith, render_plot-IsOrderly)
answered-IsOrderly refused p e v = record { tidy = v.tidy; serial = v.serial }
answered-IsOrderly broken p e v = record { tidy = v.tidy; serial = v.serial }

advance-IsOrderly : (u : Text) (p : Page) → p.tasks ≡ [] → IsOrderly p → IsOrderly (advance u p)
advance-IsOrderly u p e v = grind (arith, render_plot-IsOrderly)

polled-IsOrderly :
    (r : LatestResponse) (p : Page) → p.tasks ≡ [] → IsOrderly p → IsOrderly (on_poll r p)
unfolding on_poll
polled-IsOrderly (latest a) p e v = grind (arith, advance-IsOrderly)
polled-IsOrderly refused p e v = v
polled-IsOrderly broken p e v = v

without-held :
    (o : Option ℕ) (live : List ℕ)
    → live ≡ held o
    → held none ≡ live ⊎ ((v : ℕ) × (o ≡ some v) × (without v live ≡ []))
without-held none live e = inl (ground arith)
without-held (some v) live e = inr (v, refl, ground arith)

fail-IsOrderly : (c : Caller) (p : Page) → IsOrderly p → IsOrderly (fail c p)
fail-IsOrderly location p v = record { tidy = v.tidy; serial = v.serial }
fail-IsOrderly poll p v = v

-- The end of a fetch, with no other call under way.
response-IsOrderly :
    (c : Caller) (u : Text) (r : PlotResponse) (p : Page)
    → p.tasks ≡ []
    → IsOrderly p
    → IsOrderly (on_response c u r p)
unfolding on_response
response-IsOrderly c u bytes p e v = ground (arith, without-held p.view p.live)
response-IsOrderly c u (not_ok code) p e v = record { tidy = v.tidy; serial = v.serial }
response-IsOrderly c u rejected p e v = fail-IsOrderly c p v

-- The event is not a constructor that fails in its first drawing.
abbrev pub IsDrawn : Event → Type 0
IsDrawn (rendered k undrawn) = ⊥
IsDrawn _ = Unit

rendered-IsOrderly :
    (c : Caller) (u : Text) (k : ℕ) (done : Rendering) (p : Page)
    → IsDrawn (rendered k done)
    → p.tasks ≡ []
    → p.view ≡ none
    → IsOrderly p
    → IsOrderly (on_rendered c u done p)
unfolding on_rendered
rendered-IsOrderly c u k viewed p d e n v = ground arith
rendered-IsOrderly c u k no_view p d e n v = fail-IsOrderly c p v
rendered-IsOrderly c u k undrawn p d e n v = absurd d

responded-IsOrderly :
    (ts : List Task) (k : ℕ) (r : PlotResponse) (p : Page)
    → p.tasks ≡ ts
    → IsOrderly p
    → IsOrderly (resume_fetch (task_at k ts) r p (record p { tasks = drop_task k ts }))
responded-IsOrderly [] k r p e v = v
responded-IsOrderly (t ∷ u ∷ ts) k r p e v = absurd (rw e at v.serial)
responded-IsOrderly (fetching c u ∷ []) zero r p e v =
    response-IsOrderly c u r _ refl (record { tidy = v.tidy; serial = tt })
responded-IsOrderly (rendering c u ∷ []) zero r p e v = v
responded-IsOrderly (t ∷ []) (suc k) r p e v = v

rendered_at-IsOrderly :
    (ts : List Task) (k : ℕ) (done : Rendering) (p : Page)
    → IsDrawn (rendered k done)
    → p.tasks ≡ ts
    → IsOrderly p
    → IsOrderly (resume_render (task_at k ts) done p (record p { tasks = drop_task k ts }))
rendered_at-IsOrderly [] k done p d e v = v
rendered_at-IsOrderly (t ∷ u ∷ ts) k done p d e v = absurd (rw e at v.serial)
rendered_at-IsOrderly (fetching c u ∷ []) zero done p d e v = v
rendered_at-IsOrderly (rendering c u ∷ []) zero done p d e v =
    rendered-IsOrderly c u 0 done _ d refl (rw e at v.serial)
      (record { tidy = v.tidy; serial = tt })
rendered_at-IsOrderly (t ∷ []) (suc k) done p d e v = v

-- While no call of `renderPlot` begins during another, and no view's constructor fails in its first
-- drawing, the views alive are exactly the one that the page holds, and a call that waits for the
-- renderer has freed the old one: where that holds, it holds after the next event.
pub step-IsOrderly :
    (e : Event) (p : Page)
    → (opens e ≡ true → p.tasks ≡ [])
    → IsDrawn e
    → IsOrderly p
    → IsOrderly (step e p)
unfolding step
step-IsOrderly (popstate pathname hash) p alone d v = location-IsOrderly _ (alone refl) v.tidy
step-IsOrderly (answered r) p alone d v = answered-IsOrderly r p (alone refl) v
step-IsOrderly (polled r) p alone d v = polled-IsOrderly r p (alone refl) v
step-IsOrderly (responded k r) p alone d v = responded-IsOrderly p.tasks k r p refl v
step-IsOrderly (rendered k done) p alone d v = rendered_at-IsOrderly p.tasks k done p d refl v
