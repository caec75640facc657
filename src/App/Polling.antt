-- ===== src/App/Polling.antt =====
-- The poller and the back button of rust/assets/app.html: what moves the page, and what fails to.
use ggsql_duckdb.Prelude.{
  ◌≡◌, refl, sym, ◌≢◌, ◌∙◌, Bool, true, false, not, ◌&&◌, Option, none, some, [], ◌∷◌,
  if◌then◌else◌, arith, ◌↔◌, ap, codes, text_eq, text_eq_iff,
}
use ggsql_duckdb.App.Location.{Text, uuid_from_location-hash, IsPlotId}
use ggsql_duckdb.App.Page.{
  Page, fetching, Caller, location, poll, PlotResponse, not_ok, rejected, latest, render_plot, fail,
  on_response, render_for_current_location, present, option_text_eq, replace_state, plot_hash,
  plot_not_found,
}
use ggsql_duckdb.App.Steps.{
  popstate, polled, responded, on_poll, resume_fetch, task_at, drop_task, step, advance, poll_waits,
}

some_inj : {a b : Text} → ◌≡◌ {A = Option Text} (some a) (some b) → a ≡ b
some_inj e = cc

option_text_eq_iff : (a b : Option Text) → (option_text_eq a b ≡ true) ↔ (a ≡ b)
option_text_eq_iff none none = ground arith
option_text_eq_iff none (some b) = ground arith
option_text_eq_iff (some a) none = ground arith
option_text_eq_iff (some a) (some b) = ground (arith, text_eq_iff a b)

option_text_eq-ne : (a b : Option Text) → b ≢ a → option_text_eq a b ≡ false
option_text_eq-ne a b n = ground (arith, option_text_eq_iff a b)

if-same {ℓ} : {A : Type ℓ} (b : Bool) (x y : A) → y ≡ x → (if b then x else y) ≡ x
if-same true x y e = refl
if-same false x y e = e

advance-known : (u : Text) (p : Page) → some u ≡ p.latest_known → advance u p ≡ p
advance-known u p e = rw ((option_text_eq_iff (some u) p.latest_known).1 e)

found_known :
    (o : Option Text) (p : Page)
    → o ≡ p.latest_known
    → (elim o [ none ↦ p | some uuid ↦ advance uuid p ]) ≡ p
found_known none p e = refl
found_known (some u) p e = advance-known u p e

-- The poller leaves the page alone as long as the server's latest plot is the one it knows.
pub polled-known :
    (r : Option Text) (p : Page) → present r ≡ p.latest_known → step (polled (latest r)) p ≡ p
unfolding step on_poll
polled-known r p e = if-same (poll_waits p.tasks) p _ (found_known (present r) p e)

-- A poll that finds a newer plot asks for it and moves the tab to it. The very first plot takes
-- the place of the current entry of the history, a later one leaves the entry to go back to.
polled-new :
    (p : Page) (u : Text)
    → u ≢ []
    → poll_waits p.tasks ≡ false
    → p.latest_known ≢ some u
    → p.current_uuid ≢ some u
    → let q = step (polled (latest (some u))) p in
      (q.tasks ≡ fetching poll u ∷ p.tasks)
      × (q.latest_known ≡ some u)
      × (q.hash ≡ plot_hash u)
      × (q.back ≡ elim p.latest_known [ none ↦ p.back | some _ ↦ (p.pathname, p.hash) ∷ p.back ])
unfolding step on_poll render_plot
polled-new p [] e w n m = absurd (e refl)
polled-new p (x ∷ u) e w n m = ground (
  arith,
  option_text_eq-ne (some (x ∷ u)) p.latest_known n,
  option_text_eq-ne (some (x ∷ u)) p.current_uuid m,
)

pub polled-asks :
    (p : Page) (u : Text)
    → u ≢ []
    → p.tasks ≡ []
    → p.latest_known ≢ some u
    → p.current_uuid ≢ some u
    → let q = step (polled (latest (some u))) p in
      (q.tasks ≡ fetching poll u ∷ [])
      × (q.latest_known ≡ some u)
      × (q.current_uuid ≡ p.current_uuid)
unfolding step on_poll render_plot
polled-asks p [] e w n m = absurd (e refl)
polled-asks p (x ∷ u) e w n m = ground (
  arith,
  option_text_eq-ne (some (x ∷ u)) p.latest_known n,
  option_text_eq-ne (some (x ∷ u)) p.current_uuid m,
)

pub present-some : (u : Text) → u ≢ [] → present (some u) ≡ some u
present-some [] e = absurd (e refl)
present-some (x ∷ u) e = refl

pub fetched :
    (p : Page) (c : Caller) (u : Text) (r : PlotResponse)
    → p.tasks ≡ fetching c u ∷ []
    → step (responded 0 r) p ≡ on_response c u r (record p { tasks = [] })
unfolding step
fetched p c u r e =
    ap (λ ts. resume_fetch (task_at 0 ts) r p (record p { tasks = drop_task 0 ts })) e

fetch_failed :
    (p : Page) (c : Caller) (u : Text)
    → p.tasks ≡ fetching c u ∷ []
    → step (responded 0 rejected) p ≡ fail c (record p { tasks = [] })
unfolding on_response
fetch_failed p c u e = fetched p c u rejected e

visit :
    (p : Page) (id pathname : Text)
    → IsPlotId id
    → step (popstate pathname (plot_hash id)) p
      ≡ render_plot location id (replace_state pathname (plot_hash id) p)
unfolding step render_for_current_location
visit p id pathname v =
    rw (uuid_from_location-hash id pathname v, render_for_current_location)
      (ap (render_plot location id) (normal (not (text_eq pathname (codes "/")))))
  where
    q : Page
    q = replace_state pathname (plot_hash id) p

    normal : (b : Bool) → (if b && false then replace_state (codes "/") (plot_hash id) q else q) ≡ q
    normal true = refl
    normal false = refl

visit-current :
    (p : Page) (id pathname : Text)
    → IsPlotId id
    → p.current_uuid ≡ some id
    → step (popstate pathname (plot_hash id)) p ≡ replace_state pathname (plot_hash id) p
unfolding render_plot
visit-current p id pathname v c =
    visit p id pathname v ∙ rw ((option_text_eq_iff (some id) p.current_uuid).1 (sym c))

pub visit-new :
    (p : Page) (id pathname : Text)
    → IsPlotId id
    → p.current_uuid ≢ some id
    → step (popstate pathname (plot_hash id)) p
      ≡ record (replace_state pathname (plot_hash id) p) { tasks = fetching location id ∷ p.tasks }
unfolding render_plot
visit-new p id pathname v n =
    visit p id pathname v ∙ rw (option_text_eq-ne (some id) p.current_uuid n)

-- A plot whose fetch fails is not asked for again: the rounds of the poller that find it still
-- the latest change nothing, and the page keeps the plot that it had.
pub rejected-polled :
    (p : Page) (u : Text)
    → u ≢ []
    → p.tasks ≡ []
    → p.latest_known ≢ some u
    → p.current_uuid ≢ some u
    → let q = step (responded 0 rejected) (step (polled (latest (some u))) p) in
      (q.current_uuid ≡ p.current_uuid) × (q.tasks ≡ []) × (step (polled (latest (some u))) q ≡ q)
rejected-polled p u e ts n m =
    let (asked, known, current) = polled-asks p u e ts n m in
    let q = step (polled (latest (some u))) p in
    let same = fetch_failed q poll u asked in
    rw same (current, refl, polled-known (some u) _ (present-some u e ∙ sym known))

-- From a plot on screen to an unknown one and back: the page still says that the plot was not
-- found. It has asked for nothing, since the plot's id is still the current one.
pub back-not_found :
    (p : Page) (a b pathname : Text)
    → IsPlotId a
    → IsPlotId b
    → a ≢ b
    → p.tasks ≡ []
    → p.current_uuid ≡ some a
    → let q = step (popstate pathname (plot_hash b)) p in
      let r = step (responded 0 (not_ok 404)) q in
      let s = step (popstate pathname (plot_hash a)) r in
      (s.current_uuid ≡ some a)
      × (s.vis_hidden ≡ true)
      × (s.empty_hidden ≡ false)
      × (s.empty_text ≡ plot_not_found)
      × (s.tasks ≡ [])
unfolding on_response
back-not_found p a b pathname va vb n ts c =
    let asks = visit-new p b pathname vb (λ e. n (some_inj (sym c ∙ e))) in
    let q = record (replace_state pathname (plot_hash b) p) {
      tasks = fetching location b ∷ p.tasks;
    } in
    let missing = fetched q location b (not_ok 404) (ap (fetching location b ∷◌) ts) in
    let r = on_response location b (not_ok 404) (record q { tasks = [] }) in
    rw (asks, missing, visit-current r a pathname va c) (c, refl, refl, refl, refl)
