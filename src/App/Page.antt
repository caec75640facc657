-- ===== src/App/Page.antt =====
-- The state of rust/assets/app.html and its functions, cut at the points where they wait.
use ggsql_duckdb.Prelude.{
  ℕ, zero, suc, Bool, true, false, not, ◌&&◌, Option, none, some, List, [], ◌∷◌, ◌++◌, ◌==◌,
  if◌then◌else◌, codes, text_eq,
}
use ggsql_duckdb.App.Location.{Text, uuid_from_location}

-- What `#empty` says.
pub data EmptyText : Type 0 where
  waiting : EmptyText
  plot_not_found : EmptyText
  error_code : ℕ → EmptyText

-- What `#status` says: `ggsql · idle`, `ggsql · not found`, the first 8 characters of an id, or
-- the text of an exception.
pub data StatusText : Type 0 where
  idle not_found exception : StatusText
  plot : Text → StatusText

-- Who called `renderPlot`: `renderForCurrentLocation`, which shows an exception in the status, or
-- `pollLoop`, which drops it.
pub data Caller : Type 0 where
  location poll : Caller

-- A call of `renderPlot` that waits: for the plot's bytes, or for `ggsqlRenderHep`.
pub data Task : Type 0 where
  fetching : Caller → Text → Task
  rendering : Caller → Text → Task

pub record Page : Type 0 where
  pub current_uuid : Option Text
  pub latest_known : Option Text
  -- the number of the `PlotView` in `view`
  pub view : Option ℕ
  pub vis_hidden : Bool
  pub empty_hidden : Bool
  pub empty_text : EmptyText
  pub status : StatusText
  pub status_error : Bool
  pub hash : Text
  pub pathname : Text
  -- the entries of the tab's history before the current one
  pub back : List (Text × Text)
  pub tasks : List Task
  -- the views that were set up and not freed, and the number of the next
  pub live : List ℕ
  pub next_view : ℕ

-- What `fetch` of a plot gives: bytes, a status that is not ok, or a rejection.
pub data PlotResponse : Type 0 where
  bytes : PlotResponse
  not_ok : ℕ → PlotResponse
  rejected : PlotResponse

-- What `ggsqlRenderHep` comes to: a view; an error before there is one that watches the container; or
-- the error of a constructor whose first drawing failed, after its observer was set up: its view
-- watches the container, and the page does not get it.
pub data Rendering : Type 0 where
  viewed no_view undrawn : Rendering

-- What `fetch("/api/latest")` with its JSON gives: an id or `null`, a status that is not ok with a
-- body that is no JSON, or a rejection.
pub data LatestResponse : Type 0 where
  latest : Option Text → LatestResponse
  refused : LatestResponse
  broken : LatestResponse

abbrev pub plot_hash : Text → Text
plot_hash uuid = codes "#plot/" ++ uuid

abbrev pub option_text_eq : Option Text → Option Text → Bool
option_text_eq none none = true
option_text_eq (some a) (some b) = text_eq a b
option_text_eq _ _ = false

-- `if (uuid)`: `null` and the empty string count as false
abbrev pub present : Option Text → Option Text
present none = none
present (some []) = none
present (some (c ∷ s)) = some (c ∷ s)

abbrev pub take : ℕ → Text → Text
take zero s = []
take (suc n) [] = []
take (suc n) (c ∷ s) = c ∷ take n s

abbrev pub set_status : StatusText → Bool → Page → Page
set_status text is_error p = record p { status = text; status_error = is_error }

abbrev pub replace_state : Text → Text → Page → Page
replace_state pathname hash p = record p { pathname = pathname; hash = hash }

abbrev pub push_state : Text → Page → Page
push_state hash p = record p { back = (p.pathname, p.hash) ∷ p.back; hash = hash }

-- `renderPlot` up to its first wait
unfoldable pub render_plot : Caller → Text → Page → Page
render_plot caller uuid p =
    if option_text_eq (some uuid) p.current_uuid
    then p
    else record p { tasks = fetching caller uuid ∷ p.tasks }

-- An exception in `renderPlot`, as its caller handles it.
abbrev pub fail : Caller → Page → Page
fail location p = set_status exception true p
fail poll p = p

abbrev pub without : ℕ → List ℕ → List ℕ
without v [] = []
without v (w ∷ ws) = let rest = without v ws in if w == v then rest else w ∷ rest

-- `if (view) { view.free(); view = null; }`
abbrev pub free_view : Page → Page
free_view p = elim p.view [ none ↦ p | some v ↦ record p { live = without v p.live; view = none } ]

-- `renderPlot` from the response to the next wait, or to its end
unfoldable pub on_response : Caller → Text → PlotResponse → Page → Page
on_response caller uuid bytes p =
    let q = free_view (record p { empty_hidden = true; vis_hidden = false }) in
    record q { tasks = rendering caller uuid ∷ q.tasks }
on_response caller uuid (not_ok code) p = set_status not_found true (record p {
  empty_hidden = false;
  vis_hidden = true;
  empty_text = if code == 404 then plot_not_found else error_code code;
})
on_response caller uuid rejected p = fail caller p

-- `renderPlot` from the result of `ggsqlRenderHep` on: a new view, or an exception
unfoldable pub on_rendered : Caller → Text → Rendering → Page → Page
on_rendered caller uuid viewed p = set_status (plot (take 8 uuid)) false (record p {
  view = some p.next_view;
  live = p.next_view ∷ p.live;
  next_view = suc p.next_view;
  current_uuid = some uuid;
})
on_rendered caller uuid no_view p = fail caller p
on_rendered caller uuid undrawn p =
    fail caller (record p { live = p.next_view ∷ p.live; next_view = suc p.next_view })

-- `renderForCurrentLocation` up to its first wait. Without an id in the location it asks the
-- server, and goes on in `on_latest`.
abbrev pub normalise : Text → Page → Page
normalise uuid p =
    if not (text_eq p.pathname (codes "/")) && text_eq p.hash []
    then replace_state (codes "/") (plot_hash uuid) p
    else p

unfoldable pub render_for_current_location : Page → Page
render_for_current_location p = elim (uuid_from_location p.hash p.pathname) [
  | none ↦ p
  | some uuid ↦ render_plot location uuid (normalise uuid p)
]

unfoldable pub on_latest : LatestResponse → Page → Page
on_latest (latest answer) p = elim (present answer) [
  | some uuid ↦
      render_plot location uuid
        (record (replace_state p.pathname (plot_hash uuid) p) { latest_known = some uuid })
  | none ↦
      set_status idle false
        (record p { vis_hidden = true; empty_hidden = false; empty_text = waiting })
]
on_latest _ p = set_status exception true p

-- The page as its script starts, at a location.
unfoldable pub initial : Text → Text → Page
initial pathname hash = record {
  current_uuid = none;
  latest_known = none;
  view = none;
  vis_hidden = true;
  empty_hidden = false;
  empty_text = waiting;
  status = idle;
  status_error = false;
  hash = hash;
  pathname = pathname;
  back = [];
  tasks = [];
  live = [];
  next_view = 0;
}
