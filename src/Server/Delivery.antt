-- ===== src/Server/Delivery.antt =====
-- The server of rust/src/server.rs and the page of rust/assets/app.html together: a plot that is
-- registered reaches the screen.
use ggsql_duckdb.Prelude.{
  ℕ, ◌≡◌, refl, ◌≢◌, Bool, false, Option, none, some, [], ◌∷◌, leb, ◌&&◌, if◌then◌else◌,
}
use ggsql_duckdb.App.Location.{IsPlotId}
use ggsql_duckdb.App.Page.{
  Page, fetching, rendering, poll, PlotResponse, bytes, not_ok, viewed, LatestResponse, latest,
  refused, broken,
}
use ggsql_duckdb.App.Steps.{polled, responded, rendered, step}
use ggsql_duckdb.App.Arrival.{polled-drawn}
use ggsql_duckdb.Server.Registry.{
  Text, Bytes, ServerHandle, ok, Call, registered, running, register_plot,
}
use ggsql_duckdb.Server.Route.{Response, Files, route, latest_json}
use ggsql_duckdb.Server.Answers.{IsWorking, plot_path, latest_path, route-register_plot}

-- What `fetch` makes of a response, for the two requests of the page; `response.ok` is a status
-- from 200 to 299. `read_json` is `response.json()` with its field `uuid`; `none` is a body that
-- is no such JSON.
abbrev pub is_ok : Response → Bool
is_ok r = leb 200 r.status && leb r.status 299

abbrev pub plot_answer : Response → PlotResponse
plot_answer r = if is_ok r then bytes else not_ok r.status

abbrev pub latest_answer : (Bytes → Option (Option Text)) → Response → LatestResponse
latest_answer read_json r =
    if is_ok r then elim (read_json r.body) [ none ↦ broken | some uuid ↦ latest uuid ] else refused

-- From the call that registers a plot to the screen, on a server that runs or starts and whose
-- locks are not poisoned, with an idle page that does not know the id, which is one of letters,
-- digits and dashes, and that can read the JSON of the server: the next poll of the page finds
-- the id, the page asks for it and gets the bytes, and once the viewer has drawn them, the plot
-- is the current one.
pub register_plot-step :
    (files : Files) (call : Call) (hep : Bytes) (server : Option ServerHandle) (h : ServerHandle)
    (now : ℕ) (p : Page) (read_json : Bytes → Option (Option Text))
    → running call server ≡ ok h
    → IsWorking h.state
    → IsPlotId call.id
    → read_json (latest_json (some call.id)) ≡ some (some call.id)
    → p.tasks ≡ []
    → p.latest_known ≢ some call.id
    → p.current_uuid ≢ some call.id
    → (g : ServerHandle) × (register_plot call hep server ≡ (ok (registered g call), some g))
      × (let answer = (route files latest_path now g.state).0 in
          let asking = step (polled (latest_answer read_json answer)) p in
          let plot = (route files (plot_path call.id) now g.state).0 in
          let drawing = step (responded 0 (plot_answer plot)) asking in
          let drawn = step (rendered 0 viewed) drawing in
          (asking.tasks ≡ fetching poll call.id ∷ [])
          × (plot.body ≡ hep)
          × (drawing.tasks ≡ rendering poll call.id ∷ [])
          × (drawn.tasks ≡ [])
          × (drawn.current_uuid ≡ some call.id)
          × (drawn.vis_hidden ≡ false)
          × (drawn.view ≡ some drawing.next_view))
register_plot-step files call hep server h now p read_json e w v j ts n m =
    let (g, done, plot, found, others, works) =
      route-register_plot files call hep server h now e w v.id_chars in
    let d = polled-drawn p call.id v.not_empty ts n m in
    (g, done, rw (found, plot, j) (d.0, refl, d.1, d.2, d.3, d.4, d.5))
