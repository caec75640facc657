-- ===== src/Exec/Refined.antt =====
-- The names of the output modes are read in the same way everywhere: the code keeps the contract of
-- Exec/Modes.
use ggsql_duckdb.Prelude.{
  ◌≡◌, refl, ap, ◌∙◌, Bool, true, false, Option, none, some, [], codes, if◌then◌else◌,
}
use ggsql_duckdb.Server.Registry.{
  Text, Bytes, Registered, Result, ServerHandle, ok, err, register_plot,
}
use ggsql_duckdb.Exec.Run.{
  answer, Outcome, done, failed, panicked, prefixed, is_ascii, Crates, World, from_utf8, hep_format,
  settle, served, ◌>>=◌, render_with, serve_plot, then_serve, run_writer, run, prepare,
  run_prepared,
}
use ggsql_duckdb.Exec.Query.{
  interrupt, Attempt, returned, thrown, Settings, OutputConfig, or_empty, to_string, is_known_name,
  is_binary_name, resolve_output_config, Moment, BindData, ggsql_run_bind, payload_of,
  run_ggsql_query, row, emit_row, ggsql_run_exec,
}
use ggsql_duckdb.Exec.Errors.{perform-HasText, HasText}
use ggsql_duckdb.Exec.Modes.{
  OutputMode, silent_mode, url_mode, spec_mode, html_mode, svg_mode, pdf_mode, hep_mode, name,
  is_binary, column_type, row_of, publish, display, queried, performed, perform, judged, evaluated,
  emitted_row,
}

abbrev pub config : OutputMode → Text → OutputConfig
config mode options = record { writer = name mode; options = options; binary = is_binary mode }

name-ascii : (mode : OutputMode) → is_ascii (name mode) ≡ true
name-ascii silent_mode = refl
name-ascii url_mode = refl
name-ascii spec_mode = refl
name-ascii html_mode = refl
name-ascii svg_mode = refl
name-ascii pdf_mode = refl
name-ascii hep_mode = refl

is_known_name-name : (mode : OutputMode) → is_known_name (name mode) ≡ true
is_known_name-name silent_mode = refl
is_known_name-name url_mode = refl
is_known_name-name spec_mode = refl
is_known_name-name html_mode = refl
is_known_name-name svg_mode = refl
is_known_name-name pdf_mode = refl
is_known_name-name hep_mode = refl

pub is_binary_name-name : (mode : OutputMode) → is_binary_name (name mode) ≡ is_binary mode
is_binary_name-name silent_mode = refl
is_binary_name-name url_mode = refl
is_binary_name-name spec_mode = refl
is_binary_name-name html_mode = refl
is_binary_name-name svg_mode = refl
is_binary_name-name pdf_mode = refl
is_binary_name-name hep_mode = refl

row-row_of :
    (mode : OutputMode) (options payload : Text)
    → row (config mode options) payload ≡ row_of mode payload
row-row_of silent_mode options payload = refl
row-row_of url_mode options payload = refl
row-row_of spec_mode options payload = refl
row-row_of html_mode options payload = refl
row-row_of svg_mode options payload = refl
row-row_of pdf_mode options payload = refl
row-row_of hep_mode options payload = refl

emit_row-emitted_row :
    (mode : OutputMode) (options : Text) (r : Attempt Bytes × World)
    → emit_row (config mode options) r ≡ emitted_row mode r
emit_row-emitted_row mode options (thrown e, v) = refl
emit_row-emitted_row mode options (returned payload, v) = rw (row-row_of mode options payload) refl

module _ {Spec Options Writer : Type 0} (crates : Crates Spec Options Writer) where
  settle-done :
      (no_open : Bool) (f : Registered → Outcome Bytes) (payload : Registered → Bytes) (w : World)
      (found : Result Registered × Option ServerHandle)
      → ((r : Registered) → f r ≡ done (payload r))
      → settle crates no_open f w found ≡ settle crates no_open (λ r. done (payload r)) w found
  settle-done no_open f payload w (err x, server) e = refl
  settle-done no_open f payload w (ok r, server) e = rw (e r) refl

  -- The two modes that publish differ in what they return.
  then_serve-publish :
      (m : Moment) (mode : Text) (payload : Registered → Bytes)
      → ((r : Registered) → served crates mode r ≡ done (payload r))
      → (o : Outcome Bytes) (w : World)
      → then_serve crates m.call m.no_open mode o w ≡ publish crates m payload o w
  unfolding serve_plot
  then_serve-publish m mode payload e (failed x) w = refl
  then_serve-publish m mode payload e panicked w = refl
  then_serve-publish m mode payload e (done hep) w =
      settle-done m.no_open (served crates mode) payload w (register_plot m.call hep w.server) e

  run_writer-name :
      (m : Moment) (mode : OutputMode) (spec : Spec) (options : Text) (w : World)
      → run_writer crates m.call m.no_open spec (name mode) options w
        ≡ display crates m mode options w spec
  unfolding run_writer serve_plot
  run_writer-name m silent_mode spec options w =
      then_serve-publish m (codes "silent") (λ r. []) (λ r. refl)
        (render_with crates hep_format spec options) w
  run_writer-name m url_mode spec options w =
      then_serve-publish m (codes "url") (λ r. r.plot_url) (λ r. refl)
        (render_with crates hep_format spec options) w
  run_writer-name m spec_mode spec options w = refl
  run_writer-name m html_mode spec options w = refl
  run_writer-name m svg_mode spec options w = refl
  run_writer-name m pdf_mode spec options w = refl
  run_writer-name m hep_mode spec options w = refl

  from_utf8-name :
      (what : Text) (mode : OutputMode) → from_utf8 crates what (name mode) ≡ done (name mode)
  from_utf8-name what mode =
      rw (crates.utf8_error-ascii (name mode) (name-ascii mode), from_utf8) refl

  prepare-name :
      (mode : OutputMode) (query options : Text)
      → prepare crates query (name mode) options ≡ queried crates query options
  prepare-name mode query options = go (from_utf8 crates (codes "query is not valid UTF-8: ") query)
    where
      behind : Text → Outcome Spec
      behind text = do
        _ ← from_utf8 crates (codes "writer options are not valid UTF-8: ") options
        prefixed (codes "ggsql: ") (crates.execute text)

      go :
          (o : Outcome Text)
          → (do
            text ← o
            _ ← from_utf8 crates (codes "writer name is not valid UTF-8: ") (name mode)
            behind text)
            ≡ (o >>= behind)
      go (done text) = rw (from_utf8-name (codes "writer name is not valid UTF-8: ") mode) refl
      go (failed e) = refl
      go panicked = refl

  run-name :
      (m : Moment) (mode : OutputMode) (query options : Text) (w : World)
      → run crates m.call m.no_open query (name mode) options w
        ≡ perform crates m mode query options w
  unfolding run
  run-name m mode query options w =
      rw (prepare-name mode query options) (go (queried crates query options))
    where
      go :
          (o : Outcome Spec)
          → run_prepared crates m.call m.no_open o (name mode) options w
            ≡ (performed crates m mode options w o)
      go (done spec) = run_writer-name m mode spec options w
      go (failed e) = refl
      go panicked = refl

  -- What the C++ side makes of the answer.
  payload_of-answer :
      (interrupted : Bool) (o : Outcome Bytes)
      → HasText o
      → payload_of interrupted (answer o) ≡ judged interrupted o
  payload_of-answer true o h = refl
  payload_of-answer false (done payload) h = refl
  payload_of-answer false (failed e) h = rw (h) refl
  payload_of-answer false panicked h = refl

  pub run_ggsql_query-evaluated :
      (m : Moment) (mode : OutputMode) (query options : Text) (w : World)
      → run_ggsql_query crates m query (config mode options) w
        ≡ evaluated crates m mode query options w
  unfolding run_ggsql_query
  run_ggsql_query-evaluated m mode query options w =
      let e = run-name m mode query options w in
      let h = perform-HasText crates m mode query options w in
      go m.interrupted_before (
        rw (e) (
          ap (λ r. (r, (perform crates m mode query options w).1))
            (payload_of-answer m.interrupted_after (perform crates m mode query options w).0 h)))
    where
      go :
          {x y : Attempt Bytes × World} (before : Bool)
          → x ≡ y
          → (if before then (thrown interrupt, w) else x)
            ≡ (if before then (thrown interrupt, w) else y)
      go true e = refl
      go false e = e

  pub resolve_output_config-config :
      (lower_text : Text → Text) (settings : Settings) (mode : OutputMode)
      → lower_text (to_string settings.ggsql_output) ≡ name mode
      → resolve_output_config lower_text settings
        ≡ returned (config mode (or_empty settings.ggsql_writer_options))
  unfolding resolve_output_config
  resolve_output_config-config lower_text settings mode e =
      rw (e, is_known_name-name mode, is_binary_name-name mode) refl

  -- In every output mode that the setting names, `ggsql_run` keeps the contract of the mode: it
  -- binds a column of the mode's type, its first call runs the query and gives the row of the mode
  -- or the error, and a later call gives no row and does nothing. So no name that the settings let
  -- through is unknown further on, and the row has the type of its column.
  pub ggsql_run-refines :
      (lower_text : Text → Text) (settings : Settings) (mode : OutputMode) (query : Text)
      (m later : Moment) (w : World)
      → lower_text (to_string settings.ggsql_output) ≡ name mode
      → let options = or_empty settings.ggsql_writer_options in
        let bind_data : BindData = record { query = query; cfg = config mode options } in
        (ggsql_run_bind lower_text settings (some query) ≡ returned (column_type mode, bind_data))
        × (ggsql_run_exec crates m bind_data false w
            ≡ emitted_row mode (evaluated crates m mode query options w))
        × (ggsql_run_exec crates later bind_data true w ≡ (returned none, true, w))
  unfolding ggsql_run_bind ggsql_run_exec
  ggsql_run-refines lower_text settings mode query m later w e =
      let options = or_empty settings.ggsql_writer_options in
      (
        rw (resolve_output_config-config lower_text settings mode e, ggsql_run_bind) refl,
        ap (emit_row (config mode options)) (run_ggsql_query-evaluated m mode query options w)
            ∙ emit_row-emitted_row mode options (evaluated crates m mode query options w),
        refl,
      )
