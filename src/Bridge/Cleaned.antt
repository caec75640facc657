-- ===== src/Bridge/Cleaned.antt =====
-- A query through the bridge, from rust/src/reader.rs to src/ggsql_bridge.cpp and back: the buffer of an
-- error is read while it is out, and given back.
use ggsql_duckdb.Prelude.{
  ℕ, ◌≡◌, refl, ap, ◌∙◌, true, ◌⊎◌, inl, inr, Option, none, some, [], ◌∷◌, ◌++◌, length,
  get_elem?-last, set-last, arith,
}
use ggsql_duckdb.Bridge.Buffer.{
  Text, ByteBuffer, null_buffer, Blocks, free, filled, freed, cpp_free_buffer,
}
use ggsql_duckdb.Bridge.Callback.{State, Host, Reply, exec_sql_callback}
use ggsql_duckdb.Bridge.Normalise.{Batch, Result, reader_error}
use ggsql_duckdb.Bridge.Reader.{
  Crate, prefix, from_raw_parts, unwrap_or, read_buffer, read_err_buffer, frame_of, no_message,
  report, answered, exec_sql_via_bridge,
}
use ggsql_duckdb.Bridge.Answered.{Tells, IsReply, exec_sql_callback-IsReply}

pub prefix-length : (s : Text) → prefix (length s) s ≡ some s
prefix-length [] = refl
prefix-length (c ∷ s) = rw (prefix-length s) refl

free-last :
    (blocks : Blocks) (msg : Text)
    → free (length blocks) (blocks ++ (some msg ∷ [])) ≡ some (blocks ++ (none ∷ []))
free-last blocks msg =
    ground (arith, get_elem?-last blocks (some msg), set-last blocks (some msg) none)

from_raw_parts-last :
    (blocks : Blocks) (msg : Text)
    → from_raw_parts (length blocks) (length msg) (blocks ++ (some msg ∷ [])) ≡ some msg
from_raw_parts-last blocks msg = ground (arith, get_elem?-last blocks (some msg), prefix-length msg)

cpp_free_buffer-last :
    (blocks : Blocks) (msg : Text)
    → cpp_free_buffer (filled (some (length blocks)) msg) (blocks ++ (some msg ∷ []))
      ≡ some (null_buffer, blocks ++ (none ∷ []))
unfolding cpp_free_buffer
cpp_free_buffer-last blocks msg = ap freed (free-last blocks msg)

module _ {Outcome Source Schema Array Column : Type 0} (host : Host Outcome Source Schema Array)
    (crate : Crate Source Column) where
  open crate use {from_utf8_lossy}

  -- How a query ends that began at `s`: what the code does is defined, so that no block is read or
  -- freed that is not out; and each block that is out was out before.
  pub record IsClean (s : State Source) (o : Option (Result (Batch Column) × State Source))
      : Type 0 where
    pub ended : Result (Batch Column)
    pub after : State Source
    pub defined : o ≡ some (ended, after)
    pub blocks : (after.blocks ≡ s.blocks) ⊎ (after.blocks ≡ s.blocks ++ (none ∷ []))

  -- The error buffer of a reply is read and given back.
  report-filled :
      (s t : State Source) (msg : Text)
      → t.blocks ≡ s.blocks ++ (some msg ∷ [])
      → report host crate (read_err_buffer host crate (filled (some (length s.blocks)) msg) t)
        ≡ some (reader_error (from_utf8_lossy msg), record t { blocks = s.blocks ++ (none ∷ []) })
  unfolding read_err_buffer
  report-filled s t msg e =
      let read =
        ap (from_raw_parts (length s.blocks) (length msg)) e ∙ from_raw_parts-last s.blocks msg in
      let left =
        ap (cpp_free_buffer (filled (some (length s.blocks)) msg)) e
        ∙ cpp_free_buffer-last s.blocks msg in
      rw (read_buffer, read, left) refl

  module _
      (keeps : (stream : ℕ) (s : State Source)
        → (crate.read_stream stream s).1.blocks ≡ s.blocks) where
    answered-IsClean :
        (s t : State Source) (reply : Reply)
        → IsReply host s (reply, t)
        → IsClean s (answered host crate (reply, t))
    answered-IsClean s t reply (inl (code, stream, err, blocks, more)) =
        let (r, u) = crate.read_stream (unwrap_or reply.out_stream 0) t in
        record {
          ended = frame_of host crate r;
          after = u;
          defined = rw code refl;
          blocks = inl (keeps (unwrap_or reply.out_stream 0) t ∙ blocks);
        }
    answered-IsClean s t reply (inr (code, stream, streams, (msg, told))) =
        rw (answered, code) (failed reply.out_err told)
      where
        null_pointer :
            (u : State Source) → read_err_buffer host crate null_buffer u ≡ some (none, u)
        null_pointer u = unfold read_err_buffer in refl

        failed :
            (o : Option ByteBuffer)
            → Tells msg o s.blocks t.blocks
            → IsClean s (report host crate (read_err_buffer host crate (unwrap_or o null_buffer) t))
        failed none same = record {
          ended = reader_error (no_message host crate);
          after = t;
          defined = rw (null_pointer t) refl;
          blocks = inl same;
        }
        failed (some b) (inl (null, same)) = record {
          ended = reader_error (no_message host crate);
          after = t;
          defined = rw (null, null_pointer t) refl;
          blocks = inl same;
        }
        failed (some b) (inr (full, more)) = record {
          ended = reader_error (from_utf8_lossy msg);
          after = record t { blocks = s.blocks ++ (none ∷ []) };
          defined = rw (full) (report-filled s t msg more);
          blocks = inr refl;
        }

    -- A query through the bridge, whatever the database answers and whenever the outer query is
    -- interrupted: the buffer of an error is read only while its block is out, and is given back
    -- exactly once to the side that has allocated it, so that no block stays out. Reading a stream
    -- leaves these buffers alone.
    pub exec_sql_via_bridge-IsClean :
        (sql : Text) (s : State Source) → IsClean s (exec_sql_via_bridge host crate sql s)
    unfolding exec_sql_via_bridge
    exec_sql_via_bridge-IsClean sql s =
        let (reply, t) = exec_sql_callback host true (some sql) true (some null_buffer) s in
        answered-IsClean s t reply (exec_sql_callback-IsReply host sql s)
