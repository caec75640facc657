-- ===== src/Server/Tests.antt =====
-- Runs of the server of rust/src/server.rs.
use ggsql_duckdb.Prelude.{
  ℕ, ◌≡◌, refl, true, false, Option, none, some, List, [], ◌∷◌, codes, text_eq, if◌then◌else◌,
}
use ggsql_duckdb.App.Location.{IsPlotId, strip_prefix}
use ggsql_duckdb.App.Page.{Page, fetching, rendering, poll, viewed, initial}
use ggsql_duckdb.App.Steps.{polled, responded, rendered, step}
use ggsql_duckdb.Server.Registry.{
  Bytes, lookup, insert, State, fresh_state, ServerHandle, ok, Call, registered, running,
  register_plot, start_server,
}
use ggsql_duckdb.Server.Route.{
  Files, html_response, not_found, binary_response, latest_json, before_query, route, serve,
}
use ggsql_duckdb.Server.Answers.{IsWorking, latest_path, plot_path}
use ggsql_duckdb.Server.Delivery.{latest_answer, plot_answer, register_plot-step}
use ggsql_duckdb.Server.Interleaving.{
  Session, opening, stores, announces, here, next, Reach, Reach-read_latest,
}

abbrev files : Files
files = record {
  hep_assets_js = codes "assets";
  hep_viewer_js = codes "viewer";
  app_html = codes "page";
}

abbrev call : Call
call = record {
  binds = some (some (codes "127.0.0.1", codes "8080"));
  spawns = true;
  id = codes "7-a";
  now = 9000;
}

abbrev handle : ServerHandle
handle = record { base_url = codes "http://127.0.0.1:8080"; state = fresh_state }

starts : start_server call ≡ ok handle
unfolding start_server
starts = refl

serves_page : (route files (codes "/plot/7?x") 0 fresh_state).0 ≡ html_response (codes "page")
unfolding route before_query strip_prefix
serves_page = refl

unknown_plot : (route files (codes "/api/plot/7-a") 0 fresh_state).0 ≡ not_found
unfolding route before_query lookup strip_prefix
unknown_plot = refl

fresh_state-IsWorking : IsWorking fresh_state
fresh_state-IsWorking = record { plots = refl; latest = refl }

first_call : running call none ≡ ok handle
unfolding start_server
first_call = refl

-- A poll at 3000, and another request.
abbrev requests : List (List ℕ × ℕ)
requests = (codes "/api/latest", 3000) ∷ (codes "/", 4000) ∷ []

abbrev polled_handle : ServerHandle
polled_handle = record handle { state = (serve files requests fresh_state).1 }

opens_again : (registered polled_handle call).should_open ≡ true
unfolding serve route before_query
opens_again = refl

abbrev page : Page
page = initial (codes "/") []

-- A JSON reader that knows one text.
abbrev read_json : Bytes → Option (Option (List ℕ))
read_json body =
    if text_eq body (latest_json (some (codes "7-a"))) then some (some (codes "7-a")) else none

seven-IsPlotId : IsPlotId (codes "7-a")
seven-IsPlotId = record { not_empty = λ e. cc; id_chars = refl }

register_plot-step_example :
    (g : ServerHandle) × (register_plot call (1 ∷ 2 ∷ []) none ≡ (ok (registered g call), some g))
    × (let answer = (route files latest_path 0 g.state).0 in
        let asking = step (polled (latest_answer read_json answer)) page in
        let plot = (route files (plot_path (codes "7-a")) 0 g.state).0 in
        let drawing = step (responded 0 (plot_answer plot)) asking in
        let drawn = step (rendered 0 viewed) drawing in
        (asking.tasks ≡ fetching poll (codes "7-a") ∷ [])
        × (plot.body ≡ 1 ∷ 2 ∷ [])
        × (drawing.tasks ≡ rendering poll (codes "7-a") ∷ [])
        × (drawn.tasks ≡ [])
        × (drawn.current_uuid ≡ some (codes "7-a"))
        × (drawn.vis_hidden ≡ false)
        × (drawn.view ≡ some drawing.next_view))
unfolding initial
register_plot-step_example =
    register_plot-step files call (1 ∷ 2 ∷ []) none handle 0 page read_json first_call
      fresh_state-IsWorking seven-IsPlotId refl refl (λ e. cc) (λ e. cc)

-- The plot is stored and announced, and then a page is asked for.
abbrev stored : State
stored = record fresh_state {
  plots = record { value = (codes "7-a", 5 ∷ []) ∷ []; poisoned = false };
}

abbrev announced : Session
announced = record {
  state = record stored { latest = record { value = some (codes "7-a"); poisoned = false } };
  pending = [];
}

announced-Reach : Reach files opening announced
unfolding insert
announced-Reach = next (next here (stores opening (codes "7-a") (5 ∷ []) stored refl)) (
    announces (record { state = stored; pending = codes "7-a" ∷ [] }) [] [] (codes "7-a")
      announced.state refl refl)

Reach-read_latest_example :
    (hep : Bytes) × (route files (plot_path (codes "7-a")) 0 announced.state
      ≡ (binary_response hep, announced.state))
Reach-read_latest_example =
    Reach-read_latest files announced announced (codes "7-a") 0 announced-Reach refl here refl refl
