-- ===== src/Exec/Tests.antt =====
-- Queries through src/ggsql_exec.cpp and rust/src/lib.rs with toy crates.
use ggsql_duckdb.Prelude.{
  ℕ, ◌≡◌, refl, true, false, not, ◌&&◌, none, some, [], ◌∷◌, ◌++◌, map, codes,
}
use ggsql_duckdb.App.Location.{IsPlotId, uuid_from_location}
use ggsql_duckdb.App.Page.{plot_hash}
use ggsql_duckdb.Parser.Scanner.{lower}
use ggsql_duckdb.Server.Registry.{Text, ServerHandle, fresh_state, registered, start_server}
use ggsql_duckdb.Server.Route.{Files, binary_response, route}
use ggsql_duckdb.Server.Standalone.{standalone_html}
use ggsql_duckdb.Server.Answers.{IsWorking, plot_path}
use ggsql_duckdb.Exec.Run.{
  Format, svg_format, hep_format, pdf_format, done, Crates, World, render_with, run, run_writer,
}
use ggsql_duckdb.Exec.Query.{
  returned, thrown, interrupt, Settings, Moment, BindData, blob, extension, resolve_output_config,
  writer_for_path, ggsql_run_bind, run_ggsql_query, ggsql_run_exec, ggsql_save, written, untouched,
  no_extension,
}
use ggsql_duckdb.Exec.Modes.{url_mode, pdf_mode, evaluated, emitted_row, column_type}
use ggsql_duckdb.Exec.Refined.{config, ggsql_run-refines}
use ggsql_duckdb.Exec.Saved.{IsVerdict, ggsql_save-IsVerdict}
use ggsql_duckdb.Exec.Link.{opened_by, run_ggsql_query-link}

abbrev pub files : Files
files = record {
  hep_assets_js = codes "assets";
  hep_viewer_js = codes "viewer";
  app_html = codes "page";
}

-- A document is its format and the query.
abbrev pub format_code : Format → ℕ
format_code svg_format = 1
format_code pdf_format = 2
format_code hep_format = 3

abbrev pub crates : Crates Text Text Format
crates = record {
  utf8_error = λ s. none;
  utf8_error-ascii = λ s a. refl;
  trim = λ s. s;
  execute = λ s. done s;
  parse_options = λ s. done s;
  from_options = λ f s. done f;
  render = λ f s. done (format_code f ∷ s);
  render_vegalite = λ s. done s;
  encode = λ s. s;
  files = files;
  server_error = λ e. codes "no server";
}

abbrev pub lower_text : Text → Text
lower_text s = map lower s

abbrev pub moment : Moment
moment = record {
  interrupted_before = false;
  interrupted_after = false;
  no_open = false;
  call = record {
    binds = some (some (codes "127.0.0.1", codes "8080"));
    spawns = true;
    id = codes "7-a";
    now = 9000;
  };
  file_opens = true;
  file_writes = true;
}

abbrev pub settings : Settings
settings = record { ggsql_output = some (codes "PDF"); ggsql_writer_options = none }

abbrev pub idle : World
idle = record { server = none; opened = [] }

pdf_row :
    ggsql_run_exec crates moment (record { query = codes "q"; cfg = config pdf_mode [] }) false idle
    ≡ (returned (some (blob (2 ∷ codes "q"))), true, idle)
unfolding ggsql_run_exec run_ggsql_query run run_writer render_with
pdf_row = refl

saved_html :
    (ggsql_save crates lower_text settings moment (codes "q") (codes "a.b/c.HTML") idle).1
    ≡ written (standalone_html files (λ s. s) (3 ∷ codes "q"))
unfolding ggsql_save resolve_output_config writer_for_path extension run_ggsql_query run run_writer
    render_with lower
saved_html = refl

no_ending :
    ggsql_save crates lower_text settings moment (codes "q") (codes "plot.") idle
    ≡ (thrown (no_extension (codes "plot.")), untouched, idle)
unfolding ggsql_save resolve_output_config writer_for_path extension lower
no_ending = refl

cancelled :
    (run_ggsql_query crates
      (record moment { interrupted_after = true })
      (codes "q")
      (config pdf_mode [])
      idle).0
    ≡ thrown interrupt
unfolding run_ggsql_query
cancelled = refl

ggsql_run-refines_example :
    let bind_data : BindData = record { query = codes "q"; cfg = config pdf_mode [] } in
    (ggsql_run_bind lower_text settings (some (codes "q"))
      ≡ returned (column_type pdf_mode, bind_data))
    × (ggsql_run_exec crates moment bind_data false idle
        ≡ emitted_row pdf_mode (evaluated crates moment pdf_mode (codes "q") [] idle))
    × (ggsql_run_exec crates moment bind_data true idle ≡ (returned none, true, idle))
unfolding lower
ggsql_run-refines_example =
    ggsql_run-refines crates lower_text settings pdf_mode (codes "q") moment moment idle refl

ggsql_save-IsVerdict_example :
    let (r, file, v) =
      ggsql_save crates lower_text settings moment (codes "q") (codes "plot.svg") idle in
    (v ≡ idle) × IsVerdict crates lower_text moment (codes "q") [] (codes "plot.svg") idle r file
ggsql_save-IsVerdict_example =
    ggsql_save-IsVerdict crates lower_text settings moment (codes "q") (codes "plot.svg") idle

abbrev handle : ServerHandle
handle = record { base_url = codes "http://127.0.0.1:8080"; state = fresh_state }

handle-IsWorking : IsWorking handle.state
handle-IsWorking = record { plots = refl; latest = refl }

id-IsPlotId : IsPlotId (codes "7-a")
id-IsPlotId = record { not_empty = λ e. cc; id_chars = refl }

run_ggsql_query-link_example :
    (g : ServerHandle) × (let hash = plot_hash (codes "7-a") in
      let opens = (registered g moment.call).should_open && not false in
      (run_ggsql_query crates moment (codes "q") (config url_mode []) idle ≡ (
        returned (g.base_url ++ (codes "/" ++ hash)),
        record { server = some g; opened = opened_by opens (g.base_url ++ codes "/") [] },
      ))
      × (uuid_from_location hash (codes "/") ≡ some (codes "7-a"))
      × (route files (plot_path (codes "7-a")) 0 g.state
          ≡ (binary_response (3 ∷ codes "q"), g.state)))
unfolding render_with start_server
run_ggsql_query-link_example =
    run_ggsql_query-link crates moment (codes "q") [] (3 ∷ codes "q") (codes "q") idle handle 0 refl
      refl refl refl refl handle-IsWorking id-IsPlotId
