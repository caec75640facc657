-- ===== src/Bridge/Callback.antt =====
-- `ExecSqlCallback`, `BridgeCtx::GetInnerConnection` and the callbacks of a stream, of
-- src/ggsql_bridge.cpp.
use ggsql_duckdb.Prelude.{
  ℕ, suc, Bool, true, false, not, ◌||◌, Option, none, some, List, [], ◌∷◌, ◌++◌, codes, length, set,
  if◌then◌else◌,
}
use ggsql_duckdb.Bridge.Buffer.{Text, ByteBuffer, null_buffer, Blocks, write_error}

-- What is thrown: a `std::exception` with its text, or anything else.
pub data Thrown : Type 0 where
  exception : Text → Thrown
  unknown : Thrown

-- `InnerStream`: whether it has refused a call, and what the database wraps.
pub record InnerStream (Source : Type 0) : Type 0 where
  pub interrupted : Bool
  pub source : Source

-- The `BridgeCtx` with the heap of the C++ side. `opened` counts the connections, `clock` the reads of
-- `IsInterrupted`, and `streams` holds every stream that was handed out until it is released.
pub record State (Source : Type 0) : Type 0 where
  pub inner : Bool
  pub forwarder : Bool
  pub opened : ℕ
  pub clock : ℕ
  pub blocks : Blocks
  pub streams : List (Option (InnerStream Source))

-- How a query ends; its result is wrapped as a stream.
pub data QueryResult (Result : Type 0) : Type 0 where
  throws : Thrown → QueryResult Result
  null_result : QueryResult Result
  has_error : Text → QueryResult Result
  result : Result → QueryResult Result

-- What the database and the system do: `none` where a constructor does not throw. An array is what
-- `get_next` gives, a schema what `get_schema` gives, each with its code.
pub record Host (Result Source Schema Array : Type 0) : Type 0 where
  -- `IsInterrupted` of the outer connection, at each time it is read
  pub is_interrupted : ℕ → Bool
  pub connect : Option Thrown
  pub start_forwarder : Option Thrown
  -- at a time
  pub query : ℕ → Text → QueryResult Result
  pub wrap : Result → Option Source
  -- what the constructor of the wrapper throws where `wrap` gives none
  pub wrap_error : Result → Thrown
  pub get_schema : Source → (ℕ × Schema) × Source
  pub get_next : Source → (ℕ × Array) × Source
  pub get_last_error : Source → Text
  -- the schema and the array whose `release` is null
  pub no_schema : Schema
  pub no_array : Array
  pub malloc_fails : ℕ → Bool
  pub eintr : ℕ
  -- `InterruptException().what()`
  pub interrupt_text : Text

-- The return code, the number of the stream if one is set, and the error buffer.
pub record Reply : Type 0 where
  pub code : ℕ
  pub out_stream : Option ℕ
  pub out_err : Option ByteBuffer

module _ {Result Source Schema Array : Type 0} (host : Host Result Source Schema Array) where
  open host use {
    is_interrupted, connect, start_forwarder, query, wrap, wrap_error, malloc_fails, interrupt_text,
  }

  -- `outer.IsInterrupted()`
  abbrev pub read_interrupted : State Source → Bool × State Source
  read_interrupted s = (is_interrupted s.clock, record s { clock = suc s.clock })

  -- the lines under `if (!inner)`: the connection is kept also if the forwarder does not start
  abbrev pub open_inner : State Source → Option Thrown × State Source
  open_inner s = elim connect [
    | some e ↦ (some e, s)
    | none ↦ elim start_forwarder [
      | some e ↦ (some e, record s { inner = true; opened = suc s.opened })
      | none ↦ (none, record s { inner = true; opened = suc s.opened; forwarder = true })
    ]
  ]

  -- `GetInnerConnection`: `none` if it returns
  unfoldable pub get_inner_connection : State Source → Option Thrown × State Source
  get_inner_connection s =
      let (stop, t) = read_interrupted s in
      if stop
      then (some (exception interrupt_text), t)
      else (if t.inner then (none, t) else open_inner t)

  -- The error that a catch block reports.
  abbrev pub caught : Text → Thrown → Text
  caught other (exception what) = what
  caught other unknown = other

  -- `WriteError(out_err, …); return 1;`
  abbrev pub fail : Option ByteBuffer → Text → State Source → Reply × State Source
  fail out_err msg s =
      let (err, blocks) = write_error (malloc_fails (length s.blocks)) out_err msg s.blocks in
      (record { code = 1; out_stream = none; out_err = err }, record s { blocks = blocks })

  -- the stream that the caller gets
  abbrev pub hand_out : Option ByteBuffer → Source → State Source → Reply × State Source
  hand_out out_err source s = (
    record { code = 0; out_stream = some (length s.streams); out_err = out_err },
    record s {
      streams = s.streams ++ (some (record { interrupted = false; source = source }) ∷ []);
    },
  )

  -- the second `try`, from what the constructor of the wrapper gives
  abbrev pub wrap_source :
      Option ByteBuffer → Result → Option Source → State Source → Reply × State Source
  wrap_source out_err r (some source) s = hand_out out_err source s
  wrap_source out_err r none s =
      fail out_err
        (caught (codes "ggsql bridge: unknown exception building arrow stream") (wrap_error r)) s

  -- from the tests of the result on
  abbrev pub wrap_result :
      Option ByteBuffer → QueryResult Result → State Source → Reply × State Source
  wrap_result out_err (throws e) s =
      fail out_err (caught (codes "ggsql bridge: unknown exception running SQL") e) s
  wrap_result out_err null_result s = fail out_err (codes "ggsql bridge: Query returned null") s
  wrap_result out_err (has_error e) s = fail out_err e s
  wrap_result out_err (result r) s = wrap_source out_err r (wrap r) s

  -- the query itself, and the test after it
  abbrev pub run_query : Text → State Source → QueryResult Result × State Source
  run_query sql s = elim (query s.clock sql) [
    | throws e ↦ (throws e, s)
    | r ↦
        let (stop, t) = read_interrupted s in
        (if stop then throws (exception interrupt_text) else r, t)
  ]

  abbrev pub query_inner : Text → Option Thrown × State Source → QueryResult Result × State Source
  query_inner sql (some e, s) = (throws e, s)
  query_inner sql (none, s) = run_query sql s

  -- The buffer as the callback resets it; `none` if the caller has passed none.
  abbrev pub reset_buffer : Option ByteBuffer → Option ByteBuffer
  reset_buffer none = none
  reset_buffer (some b) = some null_buffer

  -- The pointers are given as whether they are not null.
  unfoldable pub exec_sql_callback :
      Bool → Option Text → Bool → Option ByteBuffer → State Source → Reply × State Source
  exec_sql_callback ctx none out_stream out_err s =
      fail (reset_buffer out_err) (codes "ggsql bridge: null pointer in exec_sql callback") s
  exec_sql_callback ctx (some sql) out_stream out_err s =
      if not ctx || not out_stream
      then fail (reset_buffer out_err) (codes "ggsql bridge: null pointer in exec_sql callback") s
      else (let (r, t) = query_inner sql (get_inner_connection s) in
          wrap_result (reset_buffer out_err) r t)

  -- `InnerGetSchema` and `InnerGetNext` of a stream: the code with what is written to `out`, and the
  -- stream.
  unfoldable pub inner_get_schema :
      InnerStream Source → State Source → ((ℕ × Schema) × InnerStream Source) × State Source
  inner_get_schema self s =
      let (stop, t) = read_interrupted s in
      let (r, source) = host.get_schema self.source in
      (
        if stop
            then ((host.eintr, host.no_schema), record self { interrupted = true })
            else (r, record self { source = source }),
        t,
      )

  unfoldable pub inner_get_next :
      InnerStream Source → State Source → ((ℕ × Array) × InnerStream Source) × State Source
  inner_get_next self s =
      let (stop, t) = read_interrupted s in
      let (r, source) = host.get_next self.source in
      (
        if stop
            then ((host.eintr, host.no_array), record self { interrupted = true })
            else (r, record self { source = source }),
        t,
      )

  unfoldable pub inner_get_last_error : InnerStream Source → Text
  inner_get_last_error self =
      if self.interrupted then codes "Interrupted!" else host.get_last_error self.source

  -- `InnerRelease`, after which the stream has no `release` any more
  unfoldable pub inner_release : ℕ → State Source → State Source
  inner_release stream s = record s { streams = set s.streams stream none }
