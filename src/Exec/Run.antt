-- ===== src/Exec/Run.antt =====
-- `ggsql_execute` of rust/src/lib.rs: a query with the name of its writer, to the payload.
use ggsql_duckdb.Prelude.{
  ℕ, ◌≡◌, ltb, Bool, true, false, not, ◌&&◌, ◌||◌, Option, none, some, List, [], ◌∷◌, ◌++◌, text_eq,
  codes, if◌then◌else◌,
}
use ggsql_duckdb.Server.Registry.{
  Text, Bytes, ServerHandle, ServerError, Result, ok, err, Registered, Call, register_plot,
}
use ggsql_duckdb.Server.Route.{Files}
use ggsql_duckdb.Server.Standalone.{standalone_html}

-- What a call comes to: an error is a text, and a panic unwinds.
pub data Outcome (A : Type 0) : Type 0 where
  done : A → Outcome A
  failed : Text → Outcome A
  panicked : Outcome A

infixl 5 ◌>>=◌
abbrev pub ◌>>=◌ : {A B : Type 0} → Outcome A → (A → Outcome B) → Outcome B
done a >>= f = f a
failed e >>= f = failed e
panicked >>= f = panicked

-- `map_err(|e| format!("…{}", e))`
abbrev pub prefixed : {A : Type 0} → Text → Outcome A → Outcome A
prefixed text (failed e) = failed (text ++ e)
prefixed text m = m

abbrev pub is_ascii : Bytes → Bool
is_ascii [] = true
is_ascii (c ∷ s) = ltb c 128 && is_ascii s

pub data Format : Type 0 where
  svg_format pdf_format hep_format : Format

-- The ggsql crate with the reader that it calls back, what the code uses of std and base64, and
-- the files that are compiled in.
pub record Crates (Spec Options Writer : Type 0) : Type 0 where
  -- the error of `from_utf8`
  pub utf8_error : Bytes → Option Text
  -- ASCII is UTF-8.
  pub utf8_error-ascii : (s : Bytes) → is_ascii s ≡ true → utf8_error s ≡ none
  pub trim : Text → Text
  pub execute : Text → Outcome Spec
  pub parse_options : Text → Outcome Options
  pub from_options : Format → Options → Outcome Writer
  pub render : Writer → Spec → Outcome Bytes
  pub render_vegalite : Spec → Outcome Bytes
  -- base64
  pub encode : Bytes → Text
  pub files : Files
  pub server_error : ServerError → Text

-- The server of the process, and the URLs given to the browser, newest first.
pub record World : Type 0 where
  pub server : Option ServerHandle
  pub opened : List Text

-- What `ggsql_execute` leaves: its result and `out`.
pub record Answer : Type 0 where
  pub code : ℕ
  pub out : Bytes

abbrev pub answer : Outcome Bytes → Answer
answer (done payload) = record { code = 0; out = payload }
answer (failed message) = record { code = 1; out = message }
answer panicked = record { code = 2; out = codes "ggsql: panic in Rust side" }

abbrev pub spec_options_error : Text
spec_options_error =
    codes
      "ggsql: ggsql_writer_options does not apply to the 'spec' output mode (options are for the native writers and the browser display)"

abbrev pub is_empty : Text → Bool
is_empty [] = true
is_empty (c ∷ s) = false

module _ {Spec Options Writer : Type 0} (crates : Crates Spec Options Writer) where
  open crates use {
    utf8_error, trim, execute, parse_options, from_options, render, render_vegalite, encode, files,
    server_error,
  }

  abbrev pub from_utf8 : Text → Bytes → Outcome Text
  from_utf8 what bytes = elim (utf8_error bytes) [
    | none ↦ done bytes
    | some e ↦ failed (codes "ggsql: " ++ (what ++ e))
  ]

  unfoldable pub render_with : Format → Spec → Text → Outcome Bytes
  render_with format spec options = do
    parsed ← prefixed (codes "ggsql: ") (parse_options options)
    writer ← prefixed (codes "ggsql: ") (from_options format parsed)
    prefixed (codes "ggsql: render failed: ") (render writer spec)

  abbrev pub open_browser : Bool → Registered → World → World
  open_browser no_open r w =
      if r.should_open && not no_open then record w { opened = r.open_url ∷ w.opened } else w

  -- What follows the registration, with the payload that the mode returns. `no_open` is that
  -- GGSQL_NO_OPEN_BROWSER is set.
  abbrev pub settle :
      Bool
      → (Registered → Outcome Bytes)
      → World
      → Result Registered × Option ServerHandle
      → Outcome Bytes × World
  settle no_open payload w (err e, server) =
      (failed (codes "ggsql: serve failed: " ++ server_error e), record w { server = server })
  settle no_open payload w (ok r, server) =
      (payload r, open_browser no_open r (record w { server = server }))

  -- any other mode is `unreachable!()`
  abbrev pub served : Text → Registered → Outcome Bytes
  served mode r =
      if text_eq mode (codes "url")
      then done r.plot_url
      else (if text_eq mode (codes "silent") then done [] else panicked)

  unfoldable pub serve_plot : Call → Bool → Bytes → Text → World → Outcome Bytes × World
  serve_plot call no_open hep mode w =
      settle no_open (served mode) w (register_plot call hep w.server)

  abbrev pub then_serve : Call → Bool → Text → Outcome Bytes → World → Outcome Bytes × World
  then_serve call no_open mode (done hep) w = serve_plot call no_open hep mode w
  then_serve call no_open mode (failed e) w = (failed e, w)
  then_serve call no_open mode panicked w = (panicked, w)

  abbrev pub render_spec : Spec → Text → Outcome Bytes
  render_spec spec options =
      if is_empty (trim options)
      then prefixed (codes "ggsql: render failed: ") (render_vegalite spec)
      else failed spec_options_error

  abbrev pub render_html : Spec → Text → Outcome Bytes
  render_html spec options = do
    hep ← render_with hep_format spec options
    done (standalone_html files encode hep)

  -- the `match` on the name of the writer
  unfoldable pub run_writer : Call → Bool → Spec → Text → Text → World → Outcome Bytes × World
  run_writer call no_open spec writer options w =
      if text_eq writer (codes "svg")
      then (render_with svg_format spec options, w)
      else (if text_eq writer (codes "pdf")
          then (render_with pdf_format spec options, w)
          else (if text_eq writer (codes "hep")
              then (render_with hep_format spec options, w)
              else (if text_eq writer (codes "html")
                  then (render_html spec options, w)
                  else (if text_eq writer (codes "url") || text_eq writer (codes "silent")
                      then then_serve call no_open writer (render_with hep_format spec options) w
                      else (if text_eq writer (codes "spec")
                          then (render_spec spec options, w)
                          else (
                            failed (codes "ggsql: unknown writer '" ++ (writer ++ codes "'")),
                            w,
                          ))))))

  -- `run` up to the result of the query
  abbrev pub prepare : Bytes → Bytes → Bytes → Outcome Spec
  prepare query writer options = do
    text ← from_utf8 (codes "query is not valid UTF-8: ") query
    _ ← from_utf8 (codes "writer name is not valid UTF-8: ") writer
    _ ← from_utf8 (codes "writer options are not valid UTF-8: ") options
    prefixed (codes "ggsql: ") (execute text)

  abbrev pub run_prepared : Call → Bool → Outcome Spec → Text → Text → World → Outcome Bytes × World
  run_prepared call no_open (done spec) writer options w =
      run_writer call no_open spec writer options w
  run_prepared call no_open (failed e) writer options w = (failed e, w)
  run_prepared call no_open panicked writer options w = (panicked, w)

  unfoldable pub run : Call → Bool → Bytes → Bytes → Bytes → World → Outcome Bytes × World
  run call no_open query writer options w =
      run_prepared call no_open (prepare query writer options) writer options w

  -- With pointers that are not null, as the caller has them.
  abbrev pub ggsql_execute : Call → Bool → Bytes → Bytes → Bytes → World → Answer × World
  ggsql_execute call no_open query writer options w =
      let (r, v) = run call no_open query writer options w in (answer r, v)
