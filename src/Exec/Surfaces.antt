-- ===== src/Exec/Surfaces.antt =====
-- The ways to run a query (src/ggsql_parser.cpp, src/ggsql_exec.cpp) agree: the statement, `ggsql`,
-- `ggsql_run` and `ggsql_save`.
use ggsql_duckdb.Prelude.{
  ◌≡◌, refl, ap, ◌∙◌, Bool, true, false, Option, some, [], ◌∷◌, text_eq, codes, is_some,
}
use ggsql_duckdb.Server.Registry.{Text, Bytes}
use ggsql_duckdb.Parser.Scanner.{parse_function}
use ggsql_duckdb.Exec.Run.{Crates, World}
use ggsql_duckdb.Exec.Query.{
  returned, thrown, Settings, or_empty, to_string, is_known_name, unrecognised,
  resolve_output_config, Moment, BindData, untouched, ggsql_run_bind, ggsql_run_exec,
  writer_for_path, save_payload, ggsql_save,
}
use ggsql_duckdb.Exec.Modes.{
  OutputMode, silent_mode, url_mode, spec_mode, html_mode, svg_mode, pdf_mode, hep_mode, name,
  column_type, row_of, evaluated, emitted_row,
}
use ggsql_duckdb.Exec.Refined.{
  config, is_binary_name-name, run_ggsql_query-evaluated, resolve_output_config-config,
  ggsql_run-refines,
}
use ggsql_duckdb.Exec.Statement.{
  StatementReturnType, nothing, query_result, PlanResult, first_input, ggsql_run_init, planned,
  silent_config, is_silent_output_mode, plan_function, scalar_with, ggsql_scalar,
}

abbrev pub return_type_of : OutputMode → StatementReturnType
return_type_of silent_mode = nothing
return_type_of _ = query_result

abbrev pub has_rows : StatementReturnType → Bool
has_rows nothing = false
has_rows query_result = true

abbrev pub plan_of : OutputMode → Text → PlanResult
plan_of mode query = record {
  parameters = some query ∷ [];
  requires_valid_transaction = false;
  return_type = return_type_of mode;
}

has_rows-row_of :
    (mode : OutputMode) (payload : Bytes)
    → has_rows (return_type_of mode) ≡ is_some (row_of mode payload)
has_rows-row_of silent_mode payload = refl
has_rows-row_of url_mode payload = refl
has_rows-row_of spec_mode payload = refl
has_rows-row_of html_mode payload = refl
has_rows-row_of svg_mode payload = refl
has_rows-row_of pdf_mode payload = refl
has_rows-row_of hep_mode payload = refl

planned-name :
    (mode : OutputMode) (query : Text)
    → planned query (returned (text_eq (name mode) (codes "silent")))
      ≡ returned (plan_of mode query)
planned-name silent_mode query = refl
planned-name url_mode query = refl
planned-name spec_mode query = refl
planned-name html_mode query = refl
planned-name svg_mode query = refl
planned-name pdf_mode query = refl
planned-name hep_mode query = refl

module _ (lower_text : Text → Text) (settings : Settings) where
  module _ {Spec Options Writer : Type 0} (crates : Crates Spec Options Writer) where
    plan_function-name :
        (mode : OutputMode) (query : Text)
        → lower_text (to_string settings.ggsql_output) ≡ name mode
        → plan_function lower_text settings query ≡ returned (plan_of mode query)
    unfolding plan_function is_silent_output_mode
    plan_function-name mode query e =
        ap (λ cfg. planned query (silent_config cfg))
          (resolve_output_config-config crates lower_text settings mode e)
        ∙ planned-name mode query

    -- A statement that the parser takes, in an output mode that the setting names: its plan passes the
    -- text without the end of the statement to `ggsql_run`, which binds a column of the mode's type
    -- and gives the row of the mode, or the error. The plan says that there is nothing to show exactly
    -- if the mode gives no row, whatever the payload.
    pub plan_function-refines :
        (mode : OutputMode) (statement query : Text) (m : Moment) (w : World)
        → parse_function statement ≡ some query
        → lower_text (to_string settings.ggsql_output) ≡ name mode
        → let options = or_empty settings.ggsql_writer_options in
          let bind_data : BindData = record { query = query; cfg = config mode options } in
          (plan : PlanResult) × (plan_function lower_text settings query ≡ returned plan)
          × (ggsql_run_bind lower_text settings (first_input plan.parameters)
              ≡ returned (column_type mode, bind_data))
          × (ggsql_run_exec crates m bind_data ggsql_run_init w
              ≡ emitted_row mode (evaluated crates m mode query options w))
          × ((payload : Bytes) → has_rows plan.return_type ≡ is_some (row_of mode payload))
    plan_function-refines mode statement query m w p e =
        let (bound, first, _) = ggsql_run-refines crates lower_text settings mode query m m w e in
        (plan_of mode query, plan_function-name mode query e, bound, first, has_rows-row_of mode)

    ggsql_scalar-evaluated :
        (mode : OutputMode) (query : Text) (m : Moment) (w : World)
        → lower_text (to_string settings.ggsql_output) ≡ name mode
        → ggsql_scalar lower_text crates settings m query w
          ≡ evaluated crates m mode query (or_empty settings.ggsql_writer_options) w
    unfolding ggsql_scalar
    ggsql_scalar-evaluated mode query m w e =
        ap (λ cfg. scalar_with lower_text crates m cfg query w)
          (resolve_output_config-config crates lower_text settings mode e)
        ∙ run_ggsql_query-evaluated crates m mode query (or_empty settings.ggsql_writer_options) w

    ggsql_save-scalar :
        (mode : OutputMode) (query path : Text) (m : Moment) (w : World)
        → lower_text (to_string settings.ggsql_output) ≡ name mode
        → writer_for_path lower_text path ≡ returned (name mode)
        → ggsql_save crates lower_text settings m query path w
          ≡ save_payload m path (ggsql_scalar lower_text crates settings m query w)
    unfolding ggsql_save ggsql_scalar
    ggsql_save-scalar mode query path m w e f =
        let r = resolve_output_config-config crates lower_text settings mode e in
        rw (r, f, is_binary_name-name mode) refl

    -- In an output mode that the setting names, the three functions make the same of a query: the row
    -- of `ggsql_run` is the one of the mode for what `ggsql` returns, and `ggsql_save` to a path of
    -- that mode's extension writes what `ggsql` returns; an error of the query is the same error,
    -- and the server and the browser are left alike.
    pub ggsql_scalar-surfaces :
        (mode : OutputMode) (query path : Text) (m : Moment) (w : World)
        → lower_text (to_string settings.ggsql_output) ≡ name mode
        → writer_for_path lower_text path ≡ returned (name mode)
        → let options = or_empty settings.ggsql_writer_options in
          let bind_data : BindData = record { query = query; cfg = config mode options } in
          let answer = ggsql_scalar lower_text crates settings m query w in
          (ggsql_run_exec crates m bind_data ggsql_run_init w ≡ emitted_row mode answer)
          × (ggsql_save crates lower_text settings m query path w ≡ save_payload m path answer)
    ggsql_scalar-surfaces mode query path m w e f =
        let (_, first, _) = ggsql_run-refines crates lower_text settings mode query m m w e in
        (
          rw (ggsql_scalar-evaluated mode query m w e) first,
          ggsql_save-scalar mode query path m w e f,
        )

    -- A name of a mode that is none of the seven is refused with the same text by the plan of a
    -- statement, by `ggsql`, `ggsql_run` and `ggsql_save`, before a query runs, a server starts, a
    -- browser opens or a file is touched.
    pub plan_function-unrecognised :
        (query path : Text) (input : Option Text) (m : Moment) (w : World)
        → is_known_name (lower_text (to_string settings.ggsql_output)) ≡ false
        → let e = unrecognised (lower_text (to_string settings.ggsql_output)) in
          (plan_function lower_text settings query ≡ thrown e)
          × (ggsql_run_bind lower_text settings input ≡ thrown e)
          × (ggsql_scalar lower_text crates settings m query w ≡ (thrown e, w))
          × (ggsql_save crates lower_text settings m query path w ≡ (thrown e, untouched, w))
    unfolding plan_function is_silent_output_mode ggsql_run_bind ggsql_scalar ggsql_save
        resolve_output_config
    plan_function-unrecognised query path input m w u =
        (rw u refl, rw (u, ggsql_run_bind) refl, rw u refl, rw u refl)
