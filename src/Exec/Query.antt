-- ===== src/Exec/Query.antt =====
-- src/ggsql_exec.cpp: the settings, `ggsql_run` and `ggsql_save`.
use ggsql_duckdb.Prelude.{
  Bool, true, false, ◌||◌, Option, none, some, [], ◌∷◌, ◌++◌, ◌==◌, text_eq, codes, if◌then◌else◌,
}
use ggsql_duckdb.Server.Registry.{Text, Bytes, Call}
use ggsql_duckdb.Server.Standalone.{em_dash}
use ggsql_duckdb.Exec.Run.{Crates, World, Answer, is_empty, ggsql_execute}

pub data Exception : Type 0 where
  interrupt : Exception
  invalid_input io_error : Text → Exception

pub data Attempt (A : Type 0) : Type 0 where
  returned : A → Attempt A
  thrown : Exception → Attempt A

-- The two settings; `none` is NULL.
pub record Settings : Type 0 where
  pub ggsql_output : Option Text
  pub ggsql_writer_options : Option Text

pub record OutputConfig : Type 0 where
  pub writer : Text
  pub options : Text
  pub binary : Bool

abbrev pub to_string : Option Text → Text
to_string none = codes "NULL"
to_string (some s) = s

abbrev pub or_empty : Option Text → Text
or_empty none = []
or_empty (some s) = s

abbrev pub is_binary_name : Text → Bool
is_binary_name mode = text_eq mode (codes "pdf") || text_eq mode (codes "hep")

abbrev pub is_known_name : Text → Bool
is_known_name mode =
    text_eq mode (codes "silent")
    || text_eq mode (codes "url")
    || text_eq mode (codes "spec")
    || text_eq mode (codes "html")
    || is_binary_name mode
    || text_eq mode (codes "svg")

abbrev pub unrecognised : Text → Exception
unrecognised mode = invalid_input (
    codes "ggsql: unrecognised value for ggsql_output '"
    ++ (mode ++ codes "' (expected 'silent', 'url', 'spec', 'html', 'svg', 'pdf', or 'hep')"))

-- What one evaluation meets: the cancellation flag before and after the query, the environment
-- variable, what the server is given, and whether the file can be opened and written.
pub record Moment : Type 0 where
  pub interrupted_before : Bool
  pub interrupted_after : Bool
  pub no_open : Bool
  pub call : Call
  pub file_opens : Bool
  pub file_writes : Bool

pub data ColumnType : Type 0 where
  blob_type varchar_type : ColumnType

pub data Value : Type 0 where
  blob varchar : Bytes → Value

pub record BindData : Type 0 where
  pub query : Text
  pub cfg : OutputConfig

-- The text behind the last dot.
unfoldable pub extension : Text → Option Text
extension [] = none
extension (c ∷ path) = elim (extension path) [
  | some ext ↦ some ext
  | none ↦ if c == b'.' then some path else none
]

abbrev pub no_extension : Text → Exception
no_extension path = invalid_input (
    codes "ggsql: cannot infer an output format from '"
    ++ (path
        ++ (codes "' "
            ++ (em_dash
                ++ codes
                    " the path has no extension (supported: .svg, .pdf, .hep, .html, .json)"))))

abbrev pub unsupported : Text → Text → Exception
unsupported ext path = invalid_input (
    codes "ggsql: unsupported output format '."
    ++ (ext ++ (codes "' in '" ++ (path ++ codes "' (supported: .svg, .pdf, .hep, .html, .json)"))))

-- What a save does to the file at its path.
pub data FileEffect : Type 0 where
  untouched : FileEffect
  -- opened and truncated, and then a write or the close failed: what it holds is not known
  unknown_content : FileEffect
  written : Bytes → FileEffect

abbrev pub writer_for_extension : Text → Text → Attempt Text
writer_for_extension path ext =
    if text_eq ext (codes "svg")
      || text_eq ext (codes "pdf")
      || text_eq ext (codes "hep")
      || text_eq ext (codes "html")
    then returned ext
    else (if text_eq ext (codes "json")
        then returned (codes "spec")
        else thrown (unsupported ext path))

-- `StringUtil::Lower` is DuckDB's.
module _ (lower_text : Text → Text) where
  unfoldable pub resolve_output_config : Settings → Attempt OutputConfig
  resolve_output_config settings =
      let mode = lower_text (to_string settings.ggsql_output) in
      if is_known_name mode
      then returned (record {
        writer = mode;
        options = or_empty settings.ggsql_writer_options;
        binary = is_binary_name mode;
      })
      else thrown (unrecognised mode)

  unfoldable pub writer_for_path : Text → Attempt Text
  writer_for_path path = elim (extension path) [
    | none ↦ thrown (no_extension path)
    | some [] ↦ thrown (no_extension path)
    | some (c ∷ ext) ↦ writer_for_extension path (lower_text (c ∷ ext))
  ]

  -- `GgsqlRunBind`, with the argument of the call
  unfoldable pub ggsql_run_bind : Settings → Option Text → Attempt (ColumnType × BindData)
  ggsql_run_bind settings input = elim (resolve_output_config settings) [
    | thrown e ↦ thrown e
    | returned cfg ↦ elim input [
      | none ↦ thrown (invalid_input (codes "ggsql_run requires a non-null query argument"))
      | some query ↦
          returned
            (if cfg.binary then blob_type else varchar_type, record { query = query; cfg = cfg })
    ]
  ]

abbrev pub error_text : Bytes → Text
error_text payload = if is_empty payload then codes "ggsql: unknown error" else payload

abbrev pub payload_of : Bool → Answer → Attempt Bytes
payload_of interrupted a =
    if interrupted
    then thrown interrupt
    else (if a.code == 0 then returned a.out else thrown (invalid_input (error_text a.out)))

abbrev pub row : OutputConfig → Bytes → Option Value
row cfg payload =
    if text_eq cfg.writer (codes "silent")
    then none
    else some (if cfg.binary then blob payload else varchar payload)

-- `GgsqlRunExec` behind the query: the row, if there is one, and `emitted`
abbrev pub emit_row : OutputConfig → Attempt Bytes × World → Attempt (Option Value) × Bool × World
emit_row cfg (thrown e, v) = (thrown e, false, v)
emit_row cfg (returned payload, v) = (returned (row cfg payload), true, v)

abbrev pub write_file : Moment → Text → Bytes → Attempt Text × FileEffect
write_file m path payload =
    if m.file_opens
    then (if m.file_writes then (returned path, written payload) else (
      thrown (io_error (codes "ggsql: failed while writing '" ++ (path ++ codes "'"))),
      unknown_content,
    ))
    else (
      thrown (io_error (codes "ggsql: cannot open '" ++ (path ++ codes "' for writing"))),
      untouched,
    )

-- `GgsqlSaveFun` behind the query
abbrev pub save_payload : Moment → Text → Attempt Bytes × World → Attempt Text × FileEffect × World
save_payload m path (thrown e, v) = (thrown e, untouched, v)
save_payload m path (returned payload, v) =
    let (s, file) = write_file m path payload in (s, file, v)

module _ {Spec Options Writer : Type 0} (crates : Crates Spec Options Writer) where
  unfoldable pub run_ggsql_query : Moment → Text → OutputConfig → World → Attempt Bytes × World
  run_ggsql_query m query cfg w =
      if m.interrupted_before
      then (thrown interrupt, w)
      else (let (a, v) = ggsql_execute crates m.call m.no_open query cfg.writer cfg.options w in
          (payload_of m.interrupted_after a, v))

  unfoldable pub ggsql_run_exec :
      Moment → BindData → Bool → World → Attempt (Option Value) × Bool × World
  ggsql_run_exec m bind_data emitted w =
      if emitted
      then (returned none, true, w)
      else emit_row bind_data.cfg (run_ggsql_query m bind_data.query bind_data.cfg w)

  -- One row of `GgsqlSaveFun`, with the writer of its path.
  abbrev pub save_with :
      Moment → OutputConfig → Text → Text → World → Attempt Text × FileEffect × World
  save_with m cfg query path w = save_payload m path (run_ggsql_query m query cfg w)

  abbrev pub save_resolved :
      Moment
      → Attempt OutputConfig
      → Attempt Text
      → Text
      → Text
      → World
      → Attempt Text × FileEffect × World
  save_resolved m (thrown e) writer query path w = (thrown e, untouched, w)
  save_resolved m (returned session_cfg) (thrown e) query path w = (thrown e, untouched, w)
  save_resolved m (returned session_cfg) (returned writer) query path w =
      save_with m
        (record { writer = writer; options = session_cfg.options; binary = is_binary_name writer })
        query path w

  unfoldable pub ggsql_save :
      (Text → Text) → Settings → Moment → Text → Text → World → Attempt Text × FileEffect × World
  ggsql_save lower_text settings m query path w =
      save_resolved m (resolve_output_config lower_text settings) (writer_for_path lower_text path)
        query path w
