-- ===== src/App/Overtaken.antt =====
-- A call of the poller that is under way when the user moves (rust/assets/app.html).
use ggsql_duckdb.Prelude.{◌≡◌, refl, sym, ap, ◌≢◌, ◌∙◌, some, List, [], ◌∷◌, arith}
use ggsql_duckdb.App.Location.{Text, IsPlotId}
use ggsql_duckdb.App.Page.{
  Page, Task, fetching, rendering, Caller, location, poll, bytes, viewed, latest, on_response,
  on_rendered, plot_hash,
}
use ggsql_duckdb.App.Steps.{
  popstate, polled, responded, rendered, resume_fetch, resume_render, task_at, drop_task, step,
}
use ggsql_duckdb.App.Polling.{visit-new, polled-known, present-some}

responded_first :
    (p : Page) (c : Caller) (u : Text) (ts : List Task)
    → p.tasks ≡ fetching c u ∷ ts
    → step (responded 0 bytes) p ≡ on_response c u bytes (record p { tasks = ts })
unfolding step
responded_first p c u ts e =
    ap (λ us. resume_fetch (task_at 0 us) bytes p (record p { tasks = drop_task 0 us })) e

rendered_first :
    (p : Page) (c : Caller) (u : Text) (ts : List Task)
    → p.tasks ≡ rendering c u ∷ ts
    → step (rendered 0 viewed) p ≡ on_rendered c u viewed (record p { tasks = ts })
unfolding step
rendered_first p c u ts e =
    ap (λ us. resume_render (task_at 0 us) viewed p (record p { tasks = drop_task 0 us })) e

on_response-keeps :
    (c : Caller) (u : Text) (p : Page)
    → let q = on_response c u bytes p in
      (q.tasks ≡ rendering c u ∷ p.tasks) × (q.hash ≡ p.hash) × (q.latest_known ≡ p.latest_known)
unfolding on_response
on_response-keeps c u p = ground arith

-- The call that waits first gets its bytes and its view.
drawn_first :
    (p : Page) (c : Caller) (u : Text) (ts : List Task)
    → p.tasks ≡ fetching c u ∷ ts
    → let q = step (rendered 0 viewed) (step (responded 0 bytes) p) in
      (q.tasks ≡ ts)
      × (q.current_uuid ≡ some u)
      × (q.hash ≡ p.hash)
      × (q.latest_known ≡ p.latest_known)
unfolding on_rendered
drawn_first p c u ts e =
    let (waits, hash, known) = on_response-keeps c u (record p { tasks = ts }) in
    let q = on_response c u bytes (record p { tasks = ts }) in
    rw (responded_first p c u ts e, rendered_first q c u ts waits) (refl, refl, hash, known)

-- A poll under way overtakes the user's move. The poller has asked for a plot, and the user moves to
-- another one that is not on screen. That plot is drawn; then the answer to the poller comes, and its
-- plot is drawn over the user's, while the location still names the user's. Later rounds of the
-- poller that find the plot still the latest change nothing.
pub popstate-overtaken :
    (p : Page) (u v pathname : Text)
    → p.tasks ≡ fetching poll u ∷ []
    → p.latest_known ≡ some u
    → u ≢ []
    → IsPlotId v
    → p.current_uuid ≢ some v
    → let moved = step (popstate pathname (plot_hash v)) p in
      let drawn = step (rendered 0 viewed) (step (responded 0 bytes) moved) in
      let over = step (rendered 0 viewed) (step (responded 0 bytes) drawn) in
      ((drawn.current_uuid ≡ some v) × (drawn.hash ≡ plot_hash v))
      × ((over.current_uuid ≡ some u) × (over.hash ≡ plot_hash v))
      × (step (polled (latest (some u))) over ≡ over)
popstate-overtaken p u v pathname ts known full vv n =
    let asks = visit-new p v pathname vv n in
    let moved = step (popstate pathname (plot_hash v)) p in
    let drawn = step (rendered 0 viewed) (step (responded 0 bytes) moved) in
    let (left, current, hash, latest_one) =
      drawn_first moved location v (fetching poll u ∷ [])
        (ap (λ q. q.tasks) asks ∙ ap (fetching location v ∷◌) ts) in
    let (done, current', hash', latest_two) = drawn_first drawn poll u [] left in
    let at_v = hash ∙ ap (λ q. q.hash) asks in
    let knows = latest_two ∙ (latest_one ∙ (ap (λ q. q.latest_known) asks ∙ known)) in
    (
      (current, at_v),
      (current', hash' ∙ at_v),
      polled-known (some u) _ (present-some u full ∙ sym knows),
    )
