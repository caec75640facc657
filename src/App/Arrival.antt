-- ===== src/App/Arrival.antt =====
-- The page of rust/assets/app.html when all goes well: a new plot is fetched and drawn.
use ggsql_duckdb.Prelude.{◌≡◌, refl, ap, ◌≢◌, false, some, [], ◌∷◌, arith}
use ggsql_duckdb.App.Location.{Text}
use ggsql_duckdb.App.Page.{
  Page, fetching, rendering, Caller, poll, bytes, viewed, latest, on_response, on_rendered,
}
use ggsql_duckdb.App.Steps.{polled, responded, rendered, step, resume_render, task_at, drop_task}
use ggsql_duckdb.App.Polling.{polled-asks, fetched}

drawn_last :
    (p : Page) (c : Caller) (u : Text)
    → p.tasks ≡ rendering c u ∷ []
    → step (rendered 0 viewed) p ≡ on_rendered c u viewed (record p { tasks = [] })
unfolding step
drawn_last p c u e =
    ap (λ ts. resume_render (task_at 0 ts) viewed p (record p { tasks = drop_task 0 ts })) e

on_response-bytes :
    (c : Caller) (u : Text) (p : Page)
    → p.tasks ≡ []
    → ((on_response c u bytes p).tasks ≡ rendering c u ∷ [])
      × ((on_response c u bytes p).vis_hidden ≡ false)
unfolding on_response
on_response-bytes c u p e = ground arith

-- An idle page that is told of a new plot asks for it, draws it, and then shows it.
pub polled-drawn :
    (p : Page) (u : Text)
    → u ≢ []
    → p.tasks ≡ []
    → p.latest_known ≢ some u
    → p.current_uuid ≢ some u
    → let asking = step (polled (latest (some u))) p in
      let drawing = step (responded 0 bytes) asking in
      let drawn = step (rendered 0 viewed) drawing in
      (asking.tasks ≡ fetching poll u ∷ [])
      × (drawing.tasks ≡ rendering poll u ∷ [])
      × (drawn.tasks ≡ [])
      × (drawn.current_uuid ≡ some u)
      × (drawn.vis_hidden ≡ false)
      × (drawn.view ≡ some drawing.next_view)
unfolding on_rendered
polled-drawn p u e ts n m =
    let asking = step (polled (latest (some u))) p in
    let (asked, known, current) = polled-asks p u e ts n m in
    let got = fetched asking poll u bytes asked in
    let drawing = on_response poll u bytes (record asking { tasks = [] }) in
    let (draws, shown) = on_response-bytes poll u (record asking { tasks = [] }) refl in
    rw (got, drawn_last drawing poll u draws) (asked, draws, refl, refl, shown, refl)
