-- ===== src/App/Steps.antt =====
-- `pollLoop` of rust/assets/app.html, and what happens to the page, one piece of code at a time.
use ggsql_duckdb.Prelude.{
  ℕ, zero, suc, Bool, true, false, ◌||◌, Option, none, some, List, [], ◌∷◌, if◌then◌else◌,
}
use ggsql_duckdb.App.Location.{Text}
use ggsql_duckdb.App.Page.{
  Page, Task, fetching, rendering, poll, PlotResponse, Rendering, LatestResponse, latest, plot_hash,
  option_text_eq, present, replace_state, push_state, render_plot, on_response, on_rendered,
  render_for_current_location, on_latest,
}

-- One round of `pollLoop` from the server's answer on. It waits for its own `renderPlot`, so a
-- round with a call of the poller under way does not occur, and is passed over.
abbrev pub is_poll : Task → Bool
is_poll (fetching poll _) = true
is_poll (rendering poll _) = true
is_poll _ = false

abbrev pub poll_waits : List Task → Bool
poll_waits [] = false
poll_waits (t ∷ ts) = is_poll t || poll_waits ts

abbrev pub to_new_plot : Text → Page → Page
to_new_plot uuid p = elim p.latest_known [
  | none ↦ replace_state p.pathname (plot_hash uuid) p
  | some _ ↦ push_state (plot_hash uuid) p
]

abbrev pub advance : Text → Page → Page
advance uuid p =
    if option_text_eq (some uuid) p.latest_known
    then p
    else render_plot poll uuid (record (to_new_plot uuid p) { latest_known = some uuid })

unfoldable pub on_poll : LatestResponse → Page → Page
on_poll (latest answer) p =
    if poll_waits p.tasks
    then p
    else elim (present answer) [ none ↦ p | some uuid ↦ advance uuid p ]
on_poll _ p = p

-- What happens to the page, one piece of code at a time.
pub data Event : Type 0 where
  -- the user went back or forward to a location, which fires `popstate`
  popstate : Text → Text → Event
  answered : LatestResponse → Event
  polled : LatestResponse → Event
  -- the fetch, or the rendering, of the waiting call with this index has ended
  responded : ℕ → PlotResponse → Event
  rendered : ℕ → Rendering → Event

abbrev pub task_at : ℕ → List Task → Option Task
task_at k [] = none
task_at zero (t ∷ ts) = some t
task_at (suc k) (t ∷ ts) = task_at k ts

abbrev pub drop_task : ℕ → List Task → List Task
drop_task k [] = []
drop_task zero (t ∷ ts) = ts
drop_task (suc k) (t ∷ ts) = t ∷ drop_task k ts

abbrev pub resume_fetch : Option Task → PlotResponse → Page → Page → Page
resume_fetch (some (fetching caller uuid)) resp p q = on_response caller uuid resp q
resume_fetch _ resp p q = p

abbrev pub resume_render : Option Task → Rendering → Page → Page → Page
resume_render (some (rendering caller uuid)) done p q = on_rendered caller uuid done q
resume_render _ done p q = p

unfoldable pub step : Event → Page → Page
step (popstate pathname hash) p = render_for_current_location (replace_state pathname hash p)
step (answered r) p = on_latest r p
step (polled r) p = on_poll r p
step (responded k resp) p =
    resume_fetch (task_at k p.tasks) resp p (record p { tasks = drop_task k p.tasks })
step (rendered k done) p =
    resume_render (task_at k p.tasks) done p (record p { tasks = drop_task k p.tasks })
