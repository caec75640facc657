-- ===== src/Bridge/Reader.antt =====
-- `CallbackReader` of rust/src/reader.rs: a query through the callback of the bridge, and the buffer of
-- its error.
use ggsql_duckdb.Prelude.{
  ℕ, zero, suc, true, Option, none, some, List, [], ◌∷◌, ◌++◌, codes, get_elem?, if◌then◌else◌,
  ◌==◌,
}
use ggsql_duckdb.Bridge.Buffer.{Text, ByteBuffer, null_buffer, Blocks, cpp_free_buffer}
use ggsql_duckdb.Bridge.Callback.{State, Host, Reply, exec_sql_callback}
use ggsql_duckdb.Bridge.Normalise.{Batch, Arrow, Result, ok, reader_error, normalize_arrow_types}

-- What the arrow crate makes of a stream, which it takes: `try_new` or a read fails, or it gives the
-- batches and the columns of the schema.
pub data Read (Column : Type 0) : Type 0 where
  init_failed : Text → Read Column
  read_failed : Text → Read Column
  batches : Batch Column → List (Batch Column) → Read Column

pub record Crate (Source Column : Type 0) : Type 0 where
  pub arrow : Arrow Column
  -- by the number of the stream: the callbacks of the stream change the state
  pub read_stream : ℕ → State Source → Read Column × State Source
  pub concat_batches : List (Batch Column) → Result (Batch Column)
  -- `String::from_utf8_lossy`
  pub from_utf8_lossy : Text → Text

-- `slice::from_raw_parts`: `none` where the bytes are not in a block that is out.
abbrev pub prefix : ℕ → Text → Option Text
prefix zero content = some []
prefix (suc n) [] = none
prefix (suc n) (c ∷ content) = elim (prefix n content) [ none ↦ none | some s ↦ some (c ∷ s) ]

abbrev pub from_raw_parts : ℕ → ℕ → Blocks → Option Text
from_raw_parts ptr len blocks = elim (get_elem? blocks ptr) [
  | some (some content) ↦ prefix len content
  | _ ↦ none
]

abbrev pub unwrap_or {ℓ} : {A : Type ℓ} → Option A → A → A
unwrap_or none a = a
unwrap_or (some b) a = b

module _ {Outcome Source Schema Array Column : Type 0} (host : Host Outcome Source Schema Array)
    (crate : Crate Source Column) where
  open crate use {arrow, read_stream, concat_batches, from_utf8_lossy}

  -- Reading a buffer and giving it back: the outer `none` is a read or a free of a block that is not
  -- out, which has no defined behaviour.
  abbrev pub given_back :
      Text → Option (ByteBuffer × Blocks) → State Source → Option (Option Text × State Source)
  given_back msg none s = none
  given_back msg (some (buf, blocks)) s = some (some msg, record s { blocks = blocks })

  abbrev pub read_buffer : ByteBuffer → ℕ → State Source → Option (Option Text × State Source)
  read_buffer err ptr s = elim (from_raw_parts ptr err.len s.blocks) [
    | none ↦ none
    | some bytes ↦ given_back (from_utf8_lossy bytes) (cpp_free_buffer err s.blocks) s
  ]

  unfoldable pub read_err_buffer : ByteBuffer → State Source → Option (Option Text × State Source)
  read_err_buffer err s = elim err.ptr [ none ↦ some (none, s) | some ptr ↦ read_buffer err ptr s ]

  abbrev pub concat_error : Result (Batch Column) → Result (Batch Column)
  concat_error (ok b) = ok b
  concat_error (reader_error e) = reader_error (codes "arrow concat_batches failed: " ++ e)

  -- one batch of all, or an empty one of the schema
  abbrev pub concat_all : Batch Column → List (Batch Column) → Result (Batch Column)
  concat_all schema [] = ok schema
  concat_all schema (b ∷ bs) = concat_error (concat_batches (b ∷ bs))

  abbrev pub normalise_ok : Result (Batch Column) → Result (Batch Column)
  normalise_ok (ok b) = normalize_arrow_types arrow b
  normalise_ok (reader_error e) = reader_error e

  abbrev pub frame_of : Read Column → Result (Batch Column)
  frame_of (init_failed e) = reader_error (codes "arrow stream init failed: " ++ e)
  frame_of (read_failed e) = reader_error (codes "arrow stream read failed: " ++ e)
  frame_of (batches schema bs) = normalise_ok (concat_all schema bs)

  abbrev pub no_message : Text
  no_message = codes "ggsql: exec_sql callback failed with no error message"

  -- the error of a callback that failed
  abbrev pub report :
      Option (Option Text × State Source) → Option (Result (Batch Column) × State Source)
  report none = none
  report (some (msg, s)) = some (reader_error (unwrap_or msg no_message), s)

  abbrev pub answered : Reply × State Source → Option (Result (Batch Column) × State Source)
  answered (reply, s) =
      if reply.code == 0
      then (let (r, t) = read_stream (unwrap_or reply.out_stream 0) s in some (frame_of r, t))
      else report (read_err_buffer (unwrap_or reply.out_err null_buffer) s)

  -- The bridge passes its own context, and pointers that are not null.
  unfoldable pub exec_sql_via_bridge :
      Text → State Source → Option (Result (Batch Column) × State Source)
  exec_sql_via_bridge sql s =
      answered (exec_sql_callback host true (some sql) true (some null_buffer) s)

  -- `Reader::register`
  unfoldable pub register : State Source → Result (Batch Column) × State Source
  register s = (
    reader_error (
        codes
          "ggsql-duckdb reader does not implement register; the visualise path should not call it"),
    s,
  )
