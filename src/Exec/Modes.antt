-- ===== src/Exec/Modes.antt =====
-- What each output mode promises: the contract that src/ggsql_exec.cpp and rust/src/lib.rs keep
-- with the names of the modes as texts.
use ggsql_duckdb.Prelude.{Bool, true, false, Option, none, some, [], codes, if◌then◌else◌}
use ggsql_duckdb.Server.Registry.{Text, Bytes, Registered, register_plot}
use ggsql_duckdb.Server.Standalone.{standalone_html}
use ggsql_duckdb.Exec.Run.{
  Outcome, done, failed, panicked, prefixed, ◌>>=◌, svg_format, pdf_format, hep_format, Crates,
  World, from_utf8, render_with, render_spec, settle,
}
use ggsql_duckdb.Exec.Query.{
  interrupt, invalid_input, Attempt, returned, thrown, Moment, ColumnType, blob_type, varchar_type,
  Value, blob, varchar,
}

pub data OutputMode : Type 0 where
  silent_mode url_mode spec_mode html_mode svg_mode pdf_mode hep_mode : OutputMode

abbrev pub name : OutputMode → Text
name silent_mode = codes "silent"
name url_mode = codes "url"
name spec_mode = codes "spec"
name html_mode = codes "html"
name svg_mode = codes "svg"
name pdf_mode = codes "pdf"
name hep_mode = codes "hep"

-- Two modes give bytes, the others text.
abbrev pub is_binary : OutputMode → Bool
is_binary pdf_mode = true
is_binary hep_mode = true
is_binary _ = false

abbrev pub column_type : OutputMode → ColumnType
column_type mode = if is_binary mode then blob_type else varchar_type

abbrev pub row_of : OutputMode → Bytes → Option Value
row_of silent_mode payload = none
row_of pdf_mode payload = some (blob payload)
row_of hep_mode payload = some (blob payload)
row_of _ payload = some (varchar payload)

-- Cancellation comes before any error, and an error is the user's with its own text.
abbrev pub judged : Bool → Outcome Bytes → Attempt Bytes
judged true r = thrown interrupt
judged false (done payload) = returned payload
judged false (failed e) = thrown (invalid_input e)
judged false panicked = thrown (invalid_input (codes "ggsql: panic in Rust side"))

abbrev pub emitted_row : OutputMode → Attempt Bytes × World → Attempt (Option Value) × Bool × World
emitted_row mode (thrown e, v) = (thrown e, false, v)
emitted_row mode (returned payload, v) = (returned (row_of mode payload), true, v)

module _ {Spec Options Writer : Type 0} (crates : Crates Spec Options Writer) where
  open crates use {utf8_error, execute, encode, files}

  -- The plot goes to the server, and to the browser if the server asks for one.
  abbrev pub publish : Moment → (Registered → Bytes) → Outcome Bytes → World → Outcome Bytes × World
  publish m payload (failed e) w = (failed e, w)
  publish m payload panicked w = (panicked, w)
  publish m payload (done hep) w =
      settle crates m.no_open (λ r. done (payload r)) w (register_plot m.call hep w.server)

  -- What a mode makes of a result that can be drawn.
  abbrev pub display : Moment → OutputMode → Text → World → Spec → Outcome Bytes × World
  display m silent_mode options w spec =
      publish m (λ r. []) (render_with crates hep_format spec options) w
  display m url_mode options w spec =
      publish m (λ r. r.plot_url) (render_with crates hep_format spec options) w
  display m spec_mode options w spec = (render_spec crates spec options, w)
  display m html_mode options w spec = (
    do hep ← render_with crates hep_format spec options; done (standalone_html files encode hep),
    w,
  )
  display m svg_mode options w spec = (render_with crates svg_format spec options, w)
  display m pdf_mode options w spec = (render_with crates pdf_format spec options, w)
  display m hep_mode options w spec = (render_with crates hep_format spec options, w)

  -- The query is run: its text and the options are texts, and the engine accepts it.
  abbrev pub queried : Text → Text → Outcome Spec
  queried query options = do
    text ← from_utf8 crates (codes "query is not valid UTF-8: ") query
    _ ← from_utf8 crates (codes "writer options are not valid UTF-8: ") options
    prefixed (codes "ggsql: ") (execute text)

  abbrev pub performed : Moment → OutputMode → Text → World → Outcome Spec → Outcome Bytes × World
  performed m mode options w (done spec) = display m mode options w spec
  performed m mode options w (failed e) = (failed e, w)
  performed m mode options w panicked = (panicked, w)

  abbrev pub perform : Moment → OutputMode → Text → Text → World → Outcome Bytes × World
  perform m mode query options w = performed m mode options w (queried query options)

  abbrev pub evaluated : Moment → OutputMode → Text → Text → World → Attempt Bytes × World
  evaluated m mode query options w =
      if m.interrupted_before
      then (thrown interrupt, w)
      else (let (r, v) = perform m mode query options w in (judged m.interrupted_after r, v))
