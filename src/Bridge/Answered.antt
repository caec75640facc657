-- ===== src/Bridge/Answered.antt =====
-- What the callback of src/ggsql_bridge.cpp answers, and that the buffer of an error is given back.
use ggsql_duckdb.Prelude.{
  suc, ◌≡◌, refl, ap, ◌∙◌, subst, Bool, true, false, ◌⊎◌, inl, inr, Option, none, some, [], ◌∷◌,
  ◌++◌, length, arith, length-append,
}
use ggsql_duckdb.Bridge.Buffer.{Text, ByteBuffer, null_buffer, Blocks, filled, write_error}
use ggsql_duckdb.Bridge.Callback.{
  Thrown, State, QueryResult, throws, null_result, has_error, result, Host, Reply, fail, hand_out,
  wrap_source, wrap_result, query_inner, run_query, get_inner_connection, exec_sql_callback,
}

-- The error that a buffer holds: its text in a block of its own, or none.
abbrev pub Tells : Text → Option ByteBuffer → Blocks → Blocks → Type 0
Tells msg none old new = new ≡ old
Tells msg (some b) old new =
    ((b ≡ null_buffer) × (new ≡ old))
    ⊎ ((b ≡ filled (some (length old)) msg) × (new ≡ old ++ (some msg ∷ [])))

write_error-Tells :
    (fails : Bool) (out_err : Option ByteBuffer) (msg : Text) (blocks : Blocks)
    → let (b, after) = write_error fails out_err msg blocks in Tells msg b blocks after
unfolding write_error
write_error-Tells fails none msg blocks = refl
write_error-Tells fails (some b) [] blocks = inl (refl, refl)
write_error-Tells true (some b) (c ∷ msg) blocks = inl (refl, refl)
write_error-Tells false (some b) (c ∷ msg) blocks = inr (refl, refl)

module _ {Outcome Source Schema Array : Type 0} (host : Host Outcome Source Schema Array) where
  -- What a reply means: 0 with a new stream and nothing allocated, or 1 with the text of some error.
  abbrev pub IsReply : State Source → Reply × State Source → Type 0
  IsReply s (r, t) =
      ((r.code ≡ 0)
        × (r.out_stream ≡ some (length s.streams))
        × (r.out_err ≡ some null_buffer)
        × (t.blocks ≡ s.blocks)
        × (length t.streams ≡ suc (length s.streams)))
      ⊎ ((r.code ≡ 1)
          × (r.out_stream ≡ none)
          × (t.streams ≡ s.streams)
          × ((msg : Text) × Tells msg r.out_err s.blocks t.blocks))

  -- The heap and the streams are as they were.
  abbrev pub Same : State Source → State Source → Type 0
  Same s t = (t.blocks ≡ s.blocks) × (t.streams ≡ s.streams)

  fail-IsReply :
      (s t : State Source) (msg : Text) → Same s t → IsReply s (fail host (some null_buffer) msg t)
  fail-IsReply s t msg (blocks, streams) =
      let fails = host.malloc_fails (length t.blocks) in
      let told = write_error-Tells fails (some null_buffer) msg t.blocks in
      inr (
        refl,
        refl,
        streams,
        (
          msg,
          subst
              (λ old.
                Tells msg (write_error fails (some null_buffer) msg t.blocks).0 old
                  (write_error fails (some null_buffer) msg t.blocks).1)
              blocks told,
        ),
      )

  hand_out-IsReply :
      (s t : State Source) (source : Source)
      → Same s t
      → IsReply s (hand_out host (some null_buffer) source t)
  hand_out-IsReply s t source (blocks, streams) =
      let more =
        length-append t.streams (some (record { interrupted = false; source = source }) ∷ []) in
      let size = ap length streams in inl (refl, ap (λ n. some n) size, refl, blocks, omega arith)

  wrap_source-IsReply :
      (s t : State Source) (r : Outcome) (o : Option Source)
      → Same s t
      → IsReply s (wrap_source host (some null_buffer) r o t)
  wrap_source-IsReply s t r none h = fail-IsReply s t _ h
  wrap_source-IsReply s t r (some source) h = hand_out-IsReply s t source h

  wrap_result-IsReply :
      (s t : State Source) (r : QueryResult Outcome)
      → Same s t
      → IsReply s (wrap_result host (some null_buffer) r t)
  wrap_result-IsReply s t (throws e) h = fail-IsReply s t _ h
  wrap_result-IsReply s t null_result h = fail-IsReply s t _ h
  wrap_result-IsReply s t (has_error e) h = fail-IsReply s t e h
  wrap_result-IsReply s t (result r) h = wrap_source-IsReply s t r (host.wrap r) h

  get_inner_connection-Same : (s : State Source) → Same s (get_inner_connection host s).1
  unfolding get_inner_connection
  get_inner_connection-Same s = ground arith

  run_query-Same : (sql : Text) (s : State Source) → Same s (run_query host sql s).1
  run_query-Same sql s = ground arith

  query_inner-Same :
      (sql : Text) (s t : State Source) (e : Option Thrown)
      → Same s t
      → Same s (query_inner host sql (e, t)).1
  query_inner-Same sql s t none (b, c) = let (d, f) = run_query-Same sql t in (d ∙ b, f ∙ c)
  query_inner-Same sql s t (some e) h = h

  -- The callback, as the reader calls it.
  pub exec_sql_callback-IsReply :
      (sql : Text) (s : State Source)
      → IsReply s (exec_sql_callback host true (some sql) true (some null_buffer) s)
  unfolding exec_sql_callback
  exec_sql_callback-IsReply sql s =
      let (e, t) = get_inner_connection host s in
      let (r, u) = query_inner host sql (e, t) in
      wrap_result-IsReply s u r (query_inner-Same sql s t e (get_inner_connection-Same s))
