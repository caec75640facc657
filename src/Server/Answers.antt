-- ===== src/Server/Answers.antt =====
-- What the server of rust/src/server.rs answers about the plots that were registered.
use ggsql_duckdb.Prelude.{
  ℕ, ◌≡◌, refl, ap, ◌∙◌, ◌≢◌, true, false, Option, some, [], ◌∷◌, ◌++◌, text_eq, text_eq_iff,
  text_eq_self, codes, if◌then◌else◌, arith,
}
use ggsql_duckdb.App.Location.{all_id_chars, strip_prefix}
use ggsql_duckdb.Server.Registry.{
  Text, Bytes, Plots, lookup, insert, State, ServerHandle, Result, Registered, ok, err, Call,
  register_with, register_plot, registered, running, unlocked,
}
use ggsql_duckdb.Server.Route.{
  Files, binary_response, json_response, before_query, trim_slashes, latest_json, route,
  read_latest, read_plot, plot_response,
}

pub lookup-insert :
    (id j : Text) (hep : Bytes) (plots : Plots)
    → lookup j (insert id hep plots) ≡ (if text_eq id j then some hep else lookup j plots)
unfolding lookup insert
lookup-insert id j hep [] = refl
lookup-insert id j hep ((key, old) ∷ plots) =
    ground
      (arith, text_eq_iff key id, text_eq_iff key j, text_eq_iff id j, lookup-insert id j hep plots)

pub before_query-id : (id : Text) → all_id_chars id ≡ true → before_query id ≡ id
unfolding before_query
before_query-id [] h = refl
before_query-id (c ∷ id) h = ground (arith, before_query-id id)

pub trim_slashes-id : (id : Text) → all_id_chars id ≡ true → trim_slashes id ≡ id
unfolding trim_slashes
trim_slashes-id [] h = refl
trim_slashes-id (c ∷ []) h = ground arith
trim_slashes-id (c ∷ d ∷ id) h = ground (arith, trim_slashes-id (d ∷ id))

-- No thread has panicked while it held one of the two locks.
pub record IsWorking (s : State) : Type 0 where
  pub plots : s.plots.poisoned ≡ false
  pub latest : s.latest.poisoned ≡ false

abbrev pub latest_path : Text
latest_path = codes "/api/latest"

abbrev pub plot_path : Text → Text
plot_path id = codes "/api/plot/" ++ id

-- What a registration leaves.
abbrev pub with_plot : Call → Bytes → ServerHandle → ServerHandle
with_plot call hep h = record h {
  state = record h.state {
    plots = unlocked (insert call.id hep h.state.plots.value);
    latest = unlocked (some call.id);
  };
}

register_with-eq_ok :
    (call : Call) (hep : Bytes) (h : ServerHandle)
    → IsWorking h.state
    → register_with call hep h ≡ (ok (registered (with_plot call hep h) call), with_plot call hep h)
unfolding register_with
register_with-eq_ok call hep h w = rw (w.plots, w.latest) refl

pub register_plot-eq_ok :
    (call : Call) (hep : Bytes) (server : Option ServerHandle) (h : ServerHandle)
    → running call server ≡ ok h
    → IsWorking h.state
    → register_plot call hep server
      ≡ (ok (registered (with_plot call hep h) call), some (with_plot call hep h))
unfolding register_plot
register_plot-eq_ok call hep server h e w =
    ap
      (λ r. elim r as (λ _. Result Registered × Option ServerHandle) [
        | err x ↦ (err x, server)
        | ok k ↦ ((register_with call hep k).0, some (register_with call hep k).1)
      ])
      e
    ∙ ap (λ (r : Result Registered × ServerHandle). (r.0, some r.1))
        (register_with-eq_ok call hep h w)

read_plot_self :
    (call : Call) (hep : Bytes) (h : ServerHandle)
    → read_plot call.id (with_plot call hep h).state ≡ some hep
read_plot_self call hep h =
    lookup-insert call.id call.id hep h.state.plots.value ∙ rw (text_eq_self call.id) refl

read_plot_other :
    (call : Call) (hep : Bytes) (h : ServerHandle) (j : Text)
    → h.state.plots.poisoned ≡ false
    → j ≢ call.id
    → read_plot j (with_plot call hep h).state ≡ read_plot j h.state
read_plot_other call hep h j w n =
    lookup-insert call.id j hep h.state.plots.value ∙ ground (arith, text_eq_iff call.id j)

module _ (files : Files) where
  pub route-plot_path :
      (id : Text) (now : ℕ) (s : State)
      → all_id_chars id ≡ true
      → route files (plot_path id) now s ≡ (plot_response (read_plot id s), s)
  unfolding route before_query strip_prefix
  route-plot_path id now s h = rw (before_query-id id h, trim_slashes-id id h)

  pub route-latest_path :
      (now : ℕ) (s : State)
      → (route files latest_path now s).0 ≡ json_response (latest_json (read_latest s))
  unfolding route before_query
  route-latest_path now s = ground arith

  -- A plot that is registered is served. On a server that runs, or that this call starts, with
  -- neither of the locks of the plots and of the latest id poisoned, and with a new id of
  -- letters, digits and dashes, the call returns the URLs of the id; from then on the bytes are
  -- the answer for the id, and the id is the latest; what the server answers for any other such
  -- id is what it answered before.
  pub route-register_plot :
      (call : Call) (hep : Bytes) (server : Option ServerHandle) (h : ServerHandle) (now : ℕ)
      → running call server ≡ ok h
      → IsWorking h.state
      → all_id_chars call.id ≡ true
      → (g : ServerHandle) × (register_plot call hep server ≡ (ok (registered g call), some g))
        × (route files (plot_path call.id) now g.state ≡ (binary_response hep, g.state))
        × ((route files latest_path now g.state).0 ≡ json_response (latest_json (some call.id)))
        × ((j : Text)
            → all_id_chars j ≡ true
            → j ≢ call.id
            → (route files (plot_path j) now g.state).0 ≡ (route files (plot_path j) now h.state).0)
        × IsWorking g.state
  route-register_plot call hep server h now e w v = (
    with_plot call hep h,
    register_plot-eq_ok call hep server h e w,
    route-plot_path call.id now _ v
        ∙ ap (λ found. (plot_response found, (with_plot call hep h).state))
            (read_plot_self call hep h),
    route-latest_path now _,
    λ j a n.
        rw (route-plot_path j now (with_plot call hep h).state a, route-plot_path j now h.state a)
          (ap plot_response (read_plot_other call hep h j w.plots n)),
    record { plots = refl; latest = refl },
  )
