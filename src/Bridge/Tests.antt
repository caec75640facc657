-- ===== src/Bridge/Tests.antt =====
-- Queries over a toy bridge of src/ggsql_bridge.cpp and rust/src/reader.rs.
use ggsql_duckdb.Prelude.{
  ℕ, suc, ◌≡◌, ◌⊎◌, refl, true, false, none, some, List, [], ◌∷◌, codes, arith,
}
use ggsql_duckdb.Bridge.Buffer.{write_error, cpp_free_buffer}
use ggsql_duckdb.Bridge.Callback.{
  exception, unknown, State, has_error, result, Host, get_inner_connection, exec_sql_callback,
}
use ggsql_duckdb.Bridge.Normalise.{
  decimal128, other_type, Batch, Result, ok, reader_error, Arrow, Normalised, needs_cast, IsOutcome,
  normalize_arrow_types, normalize_arrow_types-Normalised,
}
use ggsql_duckdb.Bridge.Reader.{Crate, batches, read_err_buffer, exec_sql_via_bridge}
use ggsql_duckdb.Bridge.Cleaned.{IsClean, exec_sql_via_bridge-IsClean}
use ggsql_duckdb.Bridge.OnceOpened.{
  executes, releases, react_all, IsBridge, react_all-IsBridge, get_inner_connection-unforwarded,
}
use ggsql_duckdb.Bridge.Forwarder
use ggsql_duckdb.Bridge.Forwarder.{
  Action, works, interrupts, starts_query, ends_query, stops, joins, act_all, act,
}
use ggsql_duckdb.Bridge.Forwarded.{IsForwarder, act_all-inner}
use ggsql_duckdb.Bridge.Joined.{act_all-ended}
use ggsql_duckdb.Bridge.Dialect.{sql_greatest}

-- Every query fails, but for the empty one; nothing is interrupted.
abbrev host : Host ℕ ℕ ℕ ℕ
host = record {
  is_interrupted = λ clock. false;
  connect = none;
  start_forwarder = none;
  query = λ clock sql. elim sql [ [] ↦ result 1 | ◌∷◌ c s ↦ has_error (codes "no") ];
  wrap = λ r. some r;
  wrap_error = λ r. unknown;
  get_schema = λ s. ((0, 1), s);
  get_next = λ s. ((0, 1), s);
  get_last_error = λ s. [];
  no_schema = 0;
  no_array = 0;
  malloc_fails = λ n. false;
  eintr = 4;
  interrupt_text = codes "Interrupted!";
}

-- No batch without columns is accepted.
abbrev try_new : Batch ℕ → Result (Batch ℕ)
try_new [] = reader_error (codes "no columns")
try_new (c ∷ b) = ok (c ∷ b)

try_new-same : (d e : Batch ℕ) → try_new d ≡ ok e → e ≡ d
try_new-same [] e h = cc
try_new-same (c ∷ d) e h = cc

abbrev arrow : Arrow ℕ
arrow = record { cast = λ c. ok (suc c); try_new = try_new }

abbrev crate : Crate ℕ ℕ
crate = record {
  arrow = arrow;
  read_stream = λ stream s. (batches [] [], s);
  concat_batches = λ bs. ok [];
  from_utf8_lossy = λ s. s;
}

abbrev start : State ℕ
start = record {
  inner = false;
  forwarder = false;
  opened = 0;
  clock = 0;
  blocks = [];
  streams = [];
}

fails :
    exec_sql_via_bridge host crate (1 ∷ []) start
    ≡ some (
      reader_error (codes "no"),
      record start { inner = true; forwarder = true; opened = 1; clock = 2; blocks = none ∷ [] },
    )
unfolding exec_sql_via_bridge exec_sql_callback get_inner_connection write_error cpp_free_buffer
    read_err_buffer
fails = refl

exec_sql_via_bridge-IsClean_example :
    IsClean host crate start (exec_sql_via_bridge host crate (1 ∷ []) start)
exec_sql_via_bridge-IsClean_example =
    exec_sql_via_bridge-IsClean host crate (λ stream s. refl) (1 ∷ []) start

react_all-IsBridge_example :
    IsBridge host (react_all host (executes (1 ∷ []) ∷ executes [] ∷ releases 0 ∷ []) start)
react_all-IsBridge_example =
    react_all-IsBridge host refl (executes (1 ∷ []) ∷ executes [] ∷ releases 0 ∷ []) start
      (record { opened = refl; forwarder = refl })

abbrev no_threads : Host ℕ ℕ ℕ ℕ
no_threads = record host { start_forwarder = some (exception (codes "no thread")) }

get_inner_connection-unforwarded_example :
    let (r, t) = get_inner_connection no_threads start in
    let (q, u) = get_inner_connection no_threads t in
    (r ≡ some (exception (codes "no thread")))
    × (q ≡ none)
    × (u.inner ≡ true)
    × (u.forwarder ≡ false)
    × (u.opened ≡ 1)
get_inner_connection-unforwarded_example =
    get_inner_connection-unforwarded no_threads start (exception (codes "no thread")) refl refl refl
      refl refl refl

-- A decimal column and one of another type.
abbrev two_columns : Batch ℕ
two_columns =
    (record { name = codes "x"; data_type = decimal128 3 1; is_nullable = true }, 7)
    ∷ (record { name = codes "y"; data_type = other_type 2; is_nullable = false }, 8)
    ∷ []

normalize_arrow_types-Normalised_example :
    (d : Batch ℕ) × Normalised arrow two_columns d
    × (((needs_cast arrow two_columns ≡ false)
          × (d ≡ two_columns)
          × (normalize_arrow_types arrow two_columns ≡ ok two_columns))
        ⊎ ((needs_cast arrow two_columns ≡ true)
            × IsOutcome arrow (try_new d) d (normalize_arrow_types arrow two_columns)))
normalize_arrow_types-Normalised_example =
    normalize_arrow_types-Normalised arrow two_columns try_new-same
      (λ h. (8, refl), (λ h. (9, refl), tt))

one_expression : sql_greatest (codes "a" ∷ []) ≡ codes "a"
unfolding sql_greatest
one_expression = refl

two_expressions : sql_greatest (codes "a" ∷ codes "b" ∷ []) ≡ codes "GREATEST(a, b)"
unfolding sql_greatest
two_expressions = refl

start-IsForwarder : IsForwarder Forwarder.start
start-IsForwarder = record {
  inner = λ e. e;
  stopped = refl;
  idle = λ e. refl;
  set_out = λ e. cc;
  done = λ e. cc;
  over = λ e. cc;
}

-- A query starts, the user interrupts, and the destructor comes when the query has ended.
abbrev actions : List Action
actions =
    starts_query ∷ works ∷ interrupts ∷ works ∷ works ∷ works ∷ ends_query ∷ stops ∷ works ∷ works
    ∷ joins ∷ []

abbrev interrupted : Forwarder.State
interrupted = record Forwarder.start { running = true; outer = true }

act_all-inner_example :
    (act_all (works ∷ works ∷ interrupts ∷ works ∷ works ∷ []) interrupted).inner ≡ true
act_all-inner_example =
    act_all-inner (works ∷ works ∷ interrupts ∷ works ∷ works ∷ []) interrupted
      (record {
        inner = λ e. cc;
        stopped = refl;
        idle = λ e. cc;
        set_out = λ e. refl;
        done = λ e. cc;
        over = λ e. cc;
      })
      refl refl tt (omega arith)

abbrev stopping : Forwarder.State
stopping = record Forwarder.start { stopped = true; destructor = Forwarder.joining }

act_all-ended_example :
    (act_all (works ∷ joins ∷ works ∷ works ∷ works ∷ []) stopping).phase ≡ Forwarder.ended
act_all-ended_example =
    act_all-ended (works ∷ joins ∷ works ∷ works ∷ works ∷ []) stopping refl (omega arith)
