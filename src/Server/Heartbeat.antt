-- ===== src/Server/Heartbeat.antt =====
-- When rust/src/server.rs asks for a browser: only if no page has polled of late.
use ggsql_duckdb.Prelude.{
  ℕ, ◌+◌, ◌≤◌, ◌≡◌, refl, ap, ◌∙◌, ◌↔◌, Bool, false, Option, none, some, List, [], ◌∷◌, text_eq,
  text_eq_iff, codes, if◌then◌else◌, arith,
}
use ggsql_duckdb.Server.Registry.{
  Text, State, ServerHandle, Call, fresh_state, is_stale, unlocked, registered,
}
use ggsql_duckdb.Server.Route.{Files, before_query, route, serve}
use ggsql_duckdb.Server.Answers.{latest_path}

-- A request of the poller, whatever its query string is.
abbrev pub is_poll : Text → Bool
is_poll url = text_eq (before_query url) latest_path

-- The time of the last poll among the requests, or the one before them.
abbrev pub last_poll_time : List (Text × ℕ) → Option ℕ → Option ℕ
last_poll_time [] before = before
last_poll_time ((url, now) ∷ requests) before =
    last_poll_time requests (if is_poll url then some now else before)

is_stale_iff :
    (o : Option ℕ) (now : ℕ)
    → (is_stale (some o) now ≡ false) ↔ ((t : ℕ) × (o ≡ some t) × (now ≤ t + 5000))
is_stale_iff none now = (λ e. cc, λ (t, e, l). cc)
is_stale_iff (some t) now = (λ e. (t, refl, ground arith), λ (u, e, l). ground arith)

module _ (files : Files) where
  -- Only the polls leave a trace in the state.
  route-state :
      (url : Text) (now : ℕ) (s : State)
      → s.last_poll.poisoned ≡ false
      → (route files url now s).1 ≡ record s {
        last_poll = record {
          value = if is_poll url then some now else s.last_poll.value;
          poisoned = false;
        };
      }
  unfolding route
  route-state url now s u =
      let path = before_query url in
      ground (
        arith,
        text_eq_iff path (codes "/assets/hep-assets.js"),
        text_eq_iff path (codes "/assets/hep-viewer.js"),
        text_eq_iff path latest_path,
      )

  pub serve-state :
      (requests : List (Text × ℕ)) (s : State)
      → s.last_poll.poisoned ≡ false
      → (serve files requests s).1 ≡ record s {
        last_poll = record { value = last_poll_time requests s.last_poll.value; poisoned = false };
      }
  unfolding serve
  serve-state [] s u = ground arith
  serve-state ((url, now) ∷ requests) s u =
      let e = route-state url now s u in
      let t : State = record s {
        last_poll = record {
          value = if is_poll url then some now else s.last_poll.value;
          poisoned = false;
        };
      } in
      ap (λ t. (serve files requests t).1) e ∙ serve-state requests t refl

  -- After any requests to a server that has just started, a plot that is registered opens no
  -- browser exactly if there was a poll and the last one is at most five seconds old.
  should_open-serve :
      (requests : List (Text × ℕ)) (call : Call) (h : ServerHandle)
      → h.state ≡ (serve files requests fresh_state).1
      → ((registered h call).should_open ≡ false)
        ↔ ((t : ℕ) × (last_poll_time requests none ≡ some t) × (call.now ≤ t + 5000))
  should_open-serve requests call h e =
      let poll : h.state.last_poll ≡ unlocked (last_poll_time requests none) =
        ap (λ s. s.last_poll) (e ∙ serve-state requests fresh_state refl) in
      rw (poll) (is_stale_iff (last_poll_time requests none) call.now)
