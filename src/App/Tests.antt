-- ===== src/App/Tests.antt =====
-- Sessions of rust/assets/app.html.
use ggsql_duckdb.Prelude.{◌≡◌, refl, ◌++◌, true, false, none, some, List, [], ◌∷◌, codes, ◌⊎◌}
use ggsql_duckdb.App.Location.{
  Text, IsPlotId, slash, match_plot, match_plot-eq_some, uuid_from_location, strip_prefix, match_id,
}
use ggsql_duckdb.App.Page.{
  Page, fetching, rendering, location, poll, bytes, not_ok, rejected, viewed, undrawn, latest,
  plot_hash, plot_not_found, waiting, plot, initial, render_plot, on_response, on_rendered,
  render_for_current_location, on_latest,
}
use ggsql_duckdb.App.Steps.{Event, popstate, answered, polled, responded, rendered, step, on_poll}
use ggsql_duckdb.App.Tidy.{IsOrderly, step-IsOrderly}
use ggsql_duckdb.App.Overlap.{IsLeaked, run, overlap-IsLeaked, undrawn_run-IsLeaked}
use ggsql_duckdb.App.Overtaken.{popstate-overtaken}
use ggsql_duckdb.App.Polling.{rejected-polled, back-not_found}

abbrev first : Text
first = codes "a1"

abbrev second : Text
second = codes "b-2"

first-IsPlotId : IsPlotId first
first-IsPlotId = record { not_empty = λ e. cc; id_chars = refl }

second-IsPlotId : IsPlotId second
second-IsPlotId = record { not_empty = λ e. cc; id_chars = refl }

abbrev opened : Page
opened = record {
  current_uuid = some first;
  latest_known = some first;
  view = some 0;
  vis_hidden = false;
  empty_hidden = true;
  empty_text = waiting;
  status = plot first;
  status_error = false;
  hash = [];
  pathname = codes "/";
  back = [];
  tasks = [];
  live = 0 ∷ [];
  next_view = 1;
}

-- The page opens on the latest plot.
opens_latest :
    (run
      (answered (latest (some first)) ∷ responded 0 bytes ∷ rendered 0 viewed ∷ [])
      (initial (codes "/") [])).current_uuid
    ≡ some first
unfolding run step initial render_plot on_response on_rendered on_latest
opens_latest = refl

match_plot-eq_some_example :
    (match_plot (codes "/plot/") (codes "/plot/a1/") ≡ some first
      → IsPlotId first
        × ((codes "/plot/a1/" ≡ codes "/plot/" ++ first)
            ⊎ (codes "/plot/a1/" ≡ codes "/plot/" ++ (first ++ slash))))
    × (IsPlotId first
          × ((codes "/plot/a1/" ≡ codes "/plot/" ++ first)
              ⊎ (codes "/plot/a1/" ≡ codes "/plot/" ++ (first ++ slash)))
        → match_plot (codes "/plot/") (codes "/plot/a1/") ≡ some first)
match_plot-eq_some_example = match_plot-eq_some (codes "/plot/") (codes "/plot/a1/") first

step-IsOrderly_example : IsOrderly (step (polled (latest (some second))) opened)
step-IsOrderly_example =
    step-IsOrderly (polled (latest (some second))) opened (λ _. refl) tt
      (record { tidy = refl; serial = tt })

-- The user goes to one plot while the poller fetches another; both answers arrive, then both
-- renderings end.
abbrev crossing : List Event
crossing =
    popstate (codes "/") (plot_hash second)
    ∷ polled (latest (some (codes "c3")))
    ∷ responded 1 bytes
    ∷ responded 1 bytes
    ∷ rendered 1 viewed
    ∷ rendered 0 viewed
    ∷ []

crossing_leaves_two : (run crossing opened).live ≡ 2 ∷ 1 ∷ []
unfolding run step render_plot on_response on_rendered on_poll render_for_current_location
    uuid_from_location match_plot strip_prefix match_id
crossing_leaves_two = refl

overlap-IsLeaked_example : IsLeaked 1 (
    run (popstate (codes "/") (plot_hash first) ∷ []) (
      step (rendered 0 viewed) (
        step
          (rendered 1 viewed)
          (record opened { tasks = rendering poll first ∷ rendering location second ∷ [] }))))
overlap-IsLeaked_example =
    overlap-IsLeaked
      (record opened { tasks = rendering poll first ∷ rendering location second ∷ [] }) poll
      location first second (popstate (codes "/") (plot_hash first) ∷ []) refl

-- The poller has asked for the plot that is the latest, and the user goes to another.
abbrev asking : Page
asking = record opened { latest_known = some (codes "c3"); tasks = fetching poll (codes "c3") ∷ [] }

popstate-overtaken_example :
    let moved = step (popstate (codes "/") (plot_hash second)) asking in
    let drawn = step (rendered 0 viewed) (step (responded 0 bytes) moved) in
    let over = step (rendered 0 viewed) (step (responded 0 bytes) drawn) in
    ((drawn.current_uuid ≡ some second) × (drawn.hash ≡ plot_hash second))
    × ((over.current_uuid ≡ some (codes "c3")) × (over.hash ≡ plot_hash second))
    × (step (polled (latest (some (codes "c3")))) over ≡ over)
popstate-overtaken_example =
    popstate-overtaken asking (codes "c3") second (codes "/") refl refl (λ e. cc) second-IsPlotId
      (λ e. cc)

undrawn_run-IsLeaked_example : IsLeaked 1 (
    run (popstate (codes "/") (plot_hash second) ∷ []) (
      step
        (rendered 0 undrawn)
        (record opened { view = none; live = []; tasks = rendering poll first ∷ [] })))
undrawn_run-IsLeaked_example =
    undrawn_run-IsLeaked
      (record opened { view = none; live = []; tasks = rendering poll first ∷ [] }) 0 poll first
      (popstate (codes "/") (plot_hash second) ∷ []) refl refl

rejected-polled_example :
    let q = step (responded 0 rejected) (step (polled (latest (some second))) opened) in
    (q.current_uuid ≡ some first) × (q.tasks ≡ []) × (step (polled (latest (some second))) q ≡ q)
rejected-polled_example = rejected-polled opened second (λ e. cc) refl (λ e. cc) (λ e. cc)

back-not_found_example :
    let q = step (popstate (codes "/") (plot_hash second)) opened in
    let r = step (responded 0 (not_ok 404)) q in
    let s = step (popstate (codes "/") (plot_hash first)) r in
    (s.current_uuid ≡ some first)
    × (s.vis_hidden ≡ true)
    × (s.empty_hidden ≡ false)
    × (s.empty_text ≡ plot_not_found)
    × (s.tasks ≡ [])
back-not_found_example =
    back-not_found opened first second (codes "/") first-IsPlotId second-IsPlotId (λ e. cc) refl
      refl
