-- ===== src/Server/Interleaving.antt =====
-- The threads of rust/src/server.rs: queries that register plots, and the thread that answers
-- requests, in any order of their critical sections.
use ggsql_duckdb.Prelude.{
  ℕ, ◌≡◌, refl, sym, ap, ◌∙◌, Bool, true, false, none, some, List, [], ◌∷◌, ◌++◌, text_eq,
  text_eq_self, arith,
}
use ggsql_duckdb.App.Location.{all_id_chars}
use ggsql_duckdb.Server.Registry.{
  Text, Bytes, Plots, lookup, insert, State, fresh_state, store, announce,
}
use ggsql_duckdb.Server.Route.{Files, binary_response, read_latest, route}
use ggsql_duckdb.Server.Answers.{lookup-insert, plot_path, route-plot_path}

-- The state with the ids of the calls of `register_plot` that have stored their plot and not yet
-- set `latest`.
pub record Session : Type 0 where
  pub state : State
  pub pending : List Text

abbrev pub opening : Session
opening = record { state = fresh_state; pending = [] }

pub data Step (files : Files) : Session → Session → Type 0 where
  -- the first critical section of a call of `register_plot`
  stores :
      (s : Session) (id : Text) (hep : Bytes) (t : State)
      → store id hep s.state ≡ some t
      → Step files s (record { state = t; pending = id ∷ s.pending })
  -- its second one, or the error of the poisoned lock
  announces :
      (s : Session) (before after : List Text) (id : Text) (t : State)
      → s.pending ≡ before ++ (id ∷ after)
      → announce id s.state ≡ some t
      → Step files s (record { state = t; pending = before ++ after })
  gives_up :
      (s : Session) (before after : List Text) (id : Text)
      → s.pending ≡ before ++ (id ∷ after)
      → announce id s.state ≡ none
      → Step files s (record s { pending = before ++ after })
  -- a request; all that it writes is the time of a poll
  answers :
      (s : Session) (url : Text) (now : ℕ)
      → Step files s (record s { state = (route files url now s.state).1 })
  -- a thread panics in a critical section
  panics :
      (s : Session) (plots latest last_poll : Bool)
      → Step files s (record s {
        state = record {
          plots = record { value = s.state.plots.value; poisoned = plots };
          latest = record { value = s.state.latest.value; poisoned = latest };
          last_poll = record { value = s.state.last_poll.value; poisoned = last_poll };
        };
      })

pub data Reach (files : Files) (s : Session) : Session → Type 0 where
  here : Reach files s s
  next : {t u : Session} → Reach files s t → Step files t u → Reach files s u

abbrev pub IsStored : Text → Plots → Type 0
IsStored id plots = (hep : Bytes) × (lookup id plots ≡ some hep)

abbrev AllStored : List Text → Plots → Type 0
AllStored [] plots = Unit
AllStored (id ∷ ids) plots = IsStored id plots × AllStored ids plots

-- Every plot that is announced, or about to be, is stored.
record IsSound (s : Session) : Type 0 where
  announced : (id : Text) → s.state.latest.value ≡ some id → IsStored id s.state.plots.value
  stored : AllStored s.pending s.state.plots.value

IsStored-insert :
    (id j : Text) (hep : Bytes) (plots : Plots)
    → IsStored j plots
    → IsStored j (insert id hep plots)
IsStored-insert id j hep plots (old, e) = choose (text_eq id j) refl
  where
    choose : (b : Bool) → text_eq id j ≡ b → IsStored j (insert id hep plots)
    choose true q = (hep, lookup-insert id j hep plots ∙ rw q)
    choose false q = (old, lookup-insert id j hep plots ∙ rw q e)

AllStored-insert :
    (id : Text) (hep : Bytes) (ids : List Text) (plots : Plots)
    → AllStored ids plots
    → AllStored ids (insert id hep plots)
AllStored-insert id hep [] plots a = tt
AllStored-insert id hep (j ∷ ids) plots (h, a) =
    (IsStored-insert id j hep plots h, AllStored-insert id hep ids plots a)

AllStored-middle :
    (before after : List Text) (id : Text) (plots : Plots)
    → AllStored (before ++ (id ∷ after)) plots
    → IsStored id plots × AllStored (before ++ after) plots
AllStored-middle [] after id plots a = a
AllStored-middle (j ∷ before) after id plots (h, a) =
    let (found, rest) = AllStored-middle before after id plots a in (found, (h, rest))

store-eq_some :
    (id : Text) (hep : Bytes) (s t : State)
    → store id hep s ≡ some t
    → (t.plots.value ≡ insert id hep s.plots.value) × (t.latest.value ≡ s.latest.value)
store-eq_some id hep s t e = ground arith

announce-eq_some :
    (id : Text) (s t : State)
    → announce id s ≡ some t
    → (t.plots.value ≡ s.plots.value) × (t.latest.value ≡ some id)
announce-eq_some id s t e = ground arith

module _ (files : Files) where
  route-registry :
      (url : Text) (now : ℕ) (s : State)
      → ((route files url now s).1.plots ≡ s.plots) × ((route files url now s).1.latest ≡ s.latest)
  unfolding route
  route-registry url now s = ground arith

  Step-IsStored :
      {s t : Session} (id : Text)
      → Step files s t
      → IsStored id s.state.plots.value
      → IsStored id t.state.plots.value
  Step-IsStored j (stores s id hep t e) h =
      rw ((store-eq_some id hep s.state t e).0) (IsStored-insert id j hep s.state.plots.value h)
  Step-IsStored j (announces s before after id t e f) h = rw ((announce-eq_some id s.state t f).0) h
  Step-IsStored j (gives_up s before after id e f) h = h
  Step-IsStored j (answers s url now) h = rw ((route-registry url now s.state).0) h
  Step-IsStored j (panics s plots latest last_poll) h = h

  Reach-IsStored :
      {s t : Session} (id : Text)
      → Reach files s t
      → IsStored id s.state.plots.value
      → IsStored id t.state.plots.value
  Reach-IsStored id here h = h
  Reach-IsStored id (next r st) h = Step-IsStored id st (Reach-IsStored id r h)

  Step-IsSound : {s t : Session} → Step files s t → IsSound s → IsSound t
  Step-IsSound (stores s id hep t e) v =
      let (p, l) = store-eq_some id hep s.state t e in
      let old = s.state.plots.value in
      let own : IsStored id (insert id hep old) =
        (hep, lookup-insert id id hep old ∙ rw (text_eq_self id)) in
      record {
        announced = λ j q. rw (p) (IsStored-insert id j hep old (v.announced j (sym l ∙ q)));
        stored = rw (p) (own, AllStored-insert id hep s.pending old v.stored);
      }
  Step-IsSound (announces s before after id t e f) v =
      let (p, l) = announce-eq_some id s.state t f in
      let (found, rest) =
        AllStored-middle before after id s.state.plots.value (rw e at (v.stored)) in
      record {
        announced = λ j q. let same : id ≡ j = cc in rw (p, ← same) found;
        stored = rw (p) rest;
      }
  Step-IsSound (gives_up s before after id e f) v =
      let (_, rest) = AllStored-middle before after id s.state.plots.value (rw e at (v.stored)) in
      record { announced = v.announced; stored = rest }
  Step-IsSound (answers s url now) v =
      let (p, l) = route-registry url now s.state in
      record {
        announced = λ j q. rw (p) (v.announced j (ap (λ m. m.value) (sym l) ∙ q));
        stored = rw (p) (v.stored);
      }
  Step-IsSound (panics s plots latest last_poll) v = record {
    announced = v.announced;
    stored = v.stored;
  }

  Reach-IsSound : {s t : Session} → Reach files s t → IsSound s → IsSound t
  Reach-IsSound here v = v
  Reach-IsSound (next r st) v = Step-IsSound st (Reach-IsSound r v)

  -- In whatever order the threads come, and whatever threads panic: an id of letters, digits and
  -- dashes that the server ever gives as the latest is at that moment, and at every later one,
  -- the id of a plot that it serves, unless the lock of the plots is poisoned then.
  pub Reach-read_latest :
      (s t : Session) (id : Text) (now : ℕ)
      → Reach files opening s
      → read_latest s.state ≡ some id
      → Reach files s t
      → t.state.plots.poisoned ≡ false
      → all_id_chars id ≡ true
      → (hep : Bytes) × (route files (plot_path id) now t.state ≡ (binary_response hep, t.state))
  Reach-read_latest s t id now r e later works a =
      let sound = Reach-IsSound r (record { announced = λ j q. cc; stored = tt }) in
      let (hep, found) = Reach-IsStored id later (sound.announced id (ground arith)) in
      (hep, route-plot_path files id now t.state a ∙ rw (works, found) refl)
