-- ===== src/Exec/SurfaceTests.antt =====
-- Statements and buffers of src/ggsql_parser.cpp, src/ggsql_exec.cpp and rust/src/lib.rs with toy crates.
use ggsql_duckdb.Prelude.{
  ◌+◌, ◌≡◌, refl, ◌⊎◌, none, some, [], ◌∷◌, ◌++◌, codes, length, is_some, arith,
}
use ggsql_duckdb.Server.Registry.{Text, Bytes}
use ggsql_duckdb.Parser.Scanner.{
  parse_function, contains_visualise_keyword, scan, scan_step, lower, trim_end, drop_semicolon,
  is_ident_char, matches_whole_word, match_word, skip_ident,
}
use ggsql_duckdb.Exec.Query.{returned, BindData, ggsql_run_bind, ggsql_run_exec, run_ggsql_query}
use ggsql_duckdb.Exec.Modes.{silent_mode, pdf_mode, column_type, row_of, evaluated, emitted_row}
use ggsql_duckdb.Exec.Refined.{config}
use ggsql_duckdb.Exec.Buffer.{RustHeap, Capacity, run_ggsql_query_raw}
use ggsql_duckdb.Exec.Released.{run_ggsql_query_raw-run_ggsql_query}
use ggsql_duckdb.Exec.Statement.{
  PlanResult, default_settings, first_input, ggsql_run_init, plan_function,
}
use ggsql_duckdb.Exec.Surfaces.{has_rows, plan_function-refines}
use ggsql_duckdb.Exec.Tests.{crates, lower_text, moment, idle}

-- A capacity of four bytes more than the content.
abbrev roomy : Capacity
roomy = record { of = λ s. length s + 4; length-le-of = λ s. omega arith }

abbrev statement : Text
statement = codes "FROM t VISUALISE x; "

abbrev taken : Text
taken = codes "FROM t VISUALISE x"

parse_function-statement : parse_function statement ≡ some taken
unfolding parse_function contains_visualise_keyword scan scan_step lower trim_end drop_semicolon
    is_ident_char matches_whole_word match_word skip_ident
parse_function-statement = refl

plan_function-refines_example :
    let bind_data : BindData = record { query = taken; cfg = config silent_mode [] } in
    (plan : PlanResult) × (plan_function lower_text default_settings taken ≡ returned plan)
    × (ggsql_run_bind lower_text default_settings (first_input plan.parameters)
        ≡ returned (column_type silent_mode, bind_data))
    × (ggsql_run_exec crates moment bind_data ggsql_run_init idle
        ≡ emitted_row silent_mode (evaluated crates moment silent_mode taken [] idle))
    × ((payload : Bytes) → has_rows plan.return_type ≡ is_some (row_of silent_mode payload))
unfolding lower
plan_function-refines_example =
    plan_function-refines lower_text default_settings crates silent_mode statement taken moment idle
      parse_function-statement refl

run_ggsql_query_raw-run_ggsql_query_example :
    (after : RustHeap) × (run_ggsql_query_raw roomy crates moment taken (config pdf_mode []) [] idle
      ≡ some (run_ggsql_query crates moment taken (config pdf_mode []) idle, after))
    × ((after ≡ []) ⊎ (after ≡ [] ++ (none ∷ [])))
run_ggsql_query_raw-run_ggsql_query_example =
    run_ggsql_query_raw-run_ggsql_query roomy crates moment taken (config pdf_mode []) [] idle
