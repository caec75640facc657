-- ===== src/Bridge/OnceOpened.antt =====
-- The inner connection of a bridge (src/ggsql_bridge.cpp) over the queries of a run, and queries of
-- an outer query that is interrupted.
use ggsql_duckdb.Prelude.{
  ℕ, suc, ◌≡◌, refl, true, false, Option, none, some, List, [], ◌∷◌, if◌then◌else◌, arith,
}
use ggsql_duckdb.Bridge.Buffer.{Text, null_buffer}
use ggsql_duckdb.Bridge.Callback.{
  Thrown, State, QueryResult, throws, null_result, has_error, result, Host, fail, wrap_result,
  query_inner, get_inner_connection, exec_sql_callback, InnerStream, inner_get_schema,
  inner_get_next, inner_release,
}

module _ {Outcome Source Schema Array : Type 0} (host : Host Outcome Source Schema Array) where
  -- A call on the bridge: a query, or a callback of one of its streams.
  pub data Event : Type 0 where
    executes : Text → Event
    gets_schema gets_next : InnerStream Source → Event
    releases : ℕ → Event

  unfoldable pub react : Event → State Source → State Source
  react (executes sql) s = (exec_sql_callback host true (some sql) true (some null_buffer) s).1
  react (gets_schema self) s = (inner_get_schema host self s).1
  react (gets_next self) s = (inner_get_next host self s).1
  react (releases stream) s = inner_release host stream s

  unfoldable pub react_all : List Event → State Source → State Source
  react_all [] s = s
  react_all (e ∷ es) s = react_all es (react e s)

  -- The connection is counted once if it is there, and has its forwarder.
  pub record IsBridge (s : State Source) : Type 0 where
    pub opened : s.opened ≡ (if s.inner then 1 else 0)
    pub forwarder : s.forwarder ≡ s.inner

  module _ (starts : host.start_forwarder ≡ none) where
    get_inner_connection-IsBridge :
        (s : State Source) → IsBridge s → IsBridge (get_inner_connection host s).1
    unfolding get_inner_connection
    get_inner_connection-IsBridge s v = ground (arith, starts)

    query_inner-IsBridge :
        (sql : Text) (e : Option Thrown) (s : State Source)
        → IsBridge s
        → IsBridge (query_inner host sql (e, s)).1
    query_inner-IsBridge sql none s v = ground arith
    query_inner-IsBridge sql (some e) s v = v

    wrap_result-IsBridge :
        (r : QueryResult Outcome) (s : State Source)
        → IsBridge s
        → IsBridge (wrap_result host (some null_buffer) r s).1
    wrap_result-IsBridge (throws e) s v = ground arith
    wrap_result-IsBridge null_result s v = ground arith
    wrap_result-IsBridge (has_error e) s v = ground arith
    wrap_result-IsBridge (result r) s v = ground arith

    react-IsBridge : (e : Event) (s : State Source) → IsBridge s → IsBridge (react e s)
    unfolding react exec_sql_callback inner_get_schema inner_get_next inner_release
    react-IsBridge (executes sql) s v =
        let (e, t) = get_inner_connection host s in
        let (r, u) = query_inner host sql (e, t) in
        wrap_result-IsBridge r u (query_inner-IsBridge sql e t (get_inner_connection-IsBridge s v))
    react-IsBridge (gets_schema self) s v = ground arith
    react-IsBridge (gets_next self) s v = ground arith
    react-IsBridge (releases stream) s v = ground arith

    -- However many queries run over a bridge and whatever becomes of them, also where its streams are
    -- read and released in between, it opens one connection at most, and forwards the
    -- interruptions to it as long as it has it. The system starts the thread of the forwarder.
    pub react_all-IsBridge :
        (es : List Event) (s : State Source) → IsBridge s → IsBridge (react_all es s)
    unfolding react_all
    react_all-IsBridge [] s v = v
    react_all-IsBridge (e ∷ es) s v = react_all-IsBridge es (react e s) (react-IsBridge e s v)

  -- Where the connection opens but the thread of its forwarder does not start, the call throws what
  -- the system says and keeps the connection. A later call returns this connection, without a
  -- forwarder, so that no interruption reaches the queries on it.
  pub get_inner_connection-unforwarded :
      (s : State Source) (e : Thrown)
      → s.inner ≡ false
      → s.forwarder ≡ false
      → host.connect ≡ none
      → host.start_forwarder ≡ some e
      → host.is_interrupted s.clock ≡ false
      → host.is_interrupted (suc s.clock) ≡ false
      → let (r, t) = get_inner_connection host s in
        let (q, u) = get_inner_connection host t in
        (r ≡ some e)
        × (q ≡ none)
        × (u.inner ≡ true)
        × (u.forwarder ≡ false)
        × (u.opened ≡ suc s.opened)
  unfolding get_inner_connection
  get_inner_connection-unforwarded s e inner forwarder connect starts first second = ground arith

  -- A query of an outer query that is interrupted already fails without the database.
  pub exec_sql_callback-interrupted :
      (sql : Text) (s : State Source)
      → host.is_interrupted s.clock ≡ true
      → exec_sql_callback host true (some sql) true (some null_buffer) s
        ≡ fail host (some null_buffer) host.interrupt_text (record s { clock = suc s.clock })
  unfolding exec_sql_callback get_inner_connection
  exec_sql_callback-interrupted sql s h = rw h refl
