-- ===== src/Exec/Released.antt =====
-- The buffer of a payload (rust/src/lib.rs, src/ggsql_exec.cpp) is read while it is out and given back
-- once, so that a query is what it is without buffers.
use ggsql_duckdb.Prelude.{
  ℕ, suc, ◌≡◌, refl, ap, ◌∙◌, ◌⊎◌, inl, inr, ltb, leb, true, Option, none, some, [], ◌∷◌, ◌++◌,
  ◌==◌, ==-self, length, get_elem?-last, set-last, Bool-cases, if◌then◌else◌, arith,
}
use ggsql_duckdb.Server.Registry.{Bytes, Text}
use ggsql_duckdb.Bridge.Cleaned.{prefix-length}
use ggsql_duckdb.Exec.Run.{Crates, World, Answer, ggsql_execute}
use ggsql_duckdb.Exec.Query.{OutputConfig, Moment, payload_of, run_ggsql_query}
use ggsql_duckdb.Exec.Buffer.{
  RustHeap, RustBuffer, block, empty_buffer, Capacity, read_payload, ggsql_free_buffer, from_vec,
  store_answer, ggsql_execute_raw, take_payload, after_call, run_ggsql_query_raw,
}

module _ (capacity : Capacity) where
  -- What a payload leaves on the heap once its buffer is given back.
  abbrev pub released : Bytes → RustHeap → RustHeap
  released v heap = if capacity.of v == 0 then heap else heap ++ (none ∷ [])

  no_capacity : (v : Bytes) → (capacity.of v == 0) ≡ true → v ≡ []
  no_capacity [] e = refl
  no_capacity (c ∷ s) e = absurd (ground (arith, capacity.length-le-of (c ∷ s)))

  read_payload-from_vec :
      (v : Bytes) (heap : RustHeap)
      → read_payload (from_vec capacity v heap).0 (from_vec capacity v heap).1 ≡ some v
  unfolding from_vec
  read_payload-from_vec v heap = elim (Bool-cases (capacity.of v == 0)) [
    | inl e ↦ rw e (rw (no_capacity v e) refl)
    | inr e ↦ rw e (go v (capacity.of v))
  ]
    where
      go :
          (u : Bytes) (room : ℕ)
          → read_payload
              (record { ptr = block (length heap); len = length u; cap = room })
              (heap ++ (some (u, room) ∷ []))
            ≡ some u
      go [] room = refl
      go (c ∷ s) room =
          let holds_some : ltb 0 (suc (length s)) ≡ true = ground arith in
          rw (get_elem?-last heap (some (c ∷ s, room)), holds_some) (prefix-length (c ∷ s))

  ggsql_free_buffer-block :
      (v : Bytes) (room : ℕ) (heap : RustHeap)
      → ltb 0 room ≡ true
      → leb (length v) room ≡ true
      → ggsql_free_buffer
          (some (record { ptr = block (length heap); len = length v; cap = room }))
          (heap ++ (some (v, room) ∷ []))
        ≡ some (some empty_buffer, heap ++ (none ∷ []))
  unfolding ggsql_free_buffer
  ggsql_free_buffer-block v room heap some_room fits =
      rw (some_room, get_elem?-last heap (some (v, room)), ==-self room, fits)
        (ap (λ h. some (some empty_buffer, h)) (set-last heap (some (v, room)) none))

  ggsql_free_buffer-from_vec :
      (v : Bytes) (heap : RustHeap)
      → ggsql_free_buffer (some (from_vec capacity v heap).0) (from_vec capacity v heap).1
        ≡ some (some empty_buffer, released v heap)
  unfolding from_vec ggsql_free_buffer
  ggsql_free_buffer-from_vec v heap = elim (Bool-cases (capacity.of v == 0)) [
    | inl e ↦ rw e refl
    | inr e ↦ rw e (
        ggsql_free_buffer-block v (capacity.of v) heap (ground arith)
          (ground (arith, capacity.length-le-of v)))
  ]

  module _ {Spec Options Writer : Type 0} (crates : Crates Spec Options Writer) where
    after_store :
        (m : Moment) (r : Answer × World) (heap : RustHeap)
        → after_call capacity crates m (store_answer capacity crates r heap)
          ≡ some ((payload_of m.interrupted_after r.0, r.1), released r.0.out heap)
    after_store m (a, v) heap =
        let rest = λ (payload : Option Bytes) (freed : Option (Option RustBuffer × RustHeap)).
          take_payload capacity crates m a.code payload freed v in
        ap
          (λ p. rest p (
            ggsql_free_buffer (some (from_vec capacity a.out heap).0)
              (from_vec capacity a.out heap).1))
          (read_payload-from_vec a.out heap)
        ∙ ap (rest (some a.out)) (ggsql_free_buffer-from_vec a.out heap)

    -- With the buffers on the heap, `RunGgsqlQuery` has defined behaviour and gives what it gives when
    -- the payload is handed over as it is; the heap is the one from before, with at most one more
    -- block, which is freed.
    pub run_ggsql_query_raw-run_ggsql_query :
        (m : Moment) (query : Text) (cfg : OutputConfig) (heap : RustHeap) (w : World)
        → (after : RustHeap) × (run_ggsql_query_raw capacity crates m query cfg heap w
            ≡ some (run_ggsql_query crates m query cfg w, after))
          × ((after ≡ heap) ⊎ (after ≡ heap ++ (none ∷ [])))
    unfolding run_ggsql_query_raw run_ggsql_query ggsql_execute_raw
    run_ggsql_query_raw-run_ggsql_query m query cfg heap w =
        elim (Bool-cases m.interrupted_before) [
          | inl e ↦ (heap, rw e refl, inl refl)
          | inr e ↦
              let r = ggsql_execute crates m.call m.no_open query cfg.writer cfg.options w in
              (released r.0.out heap, rw e (after_store m r heap), kept r.0.out)
        ]
      where
        kept : (v : Bytes) → (released v heap ≡ heap) ⊎ (released v heap ≡ heap ++ (none ∷ []))
        kept v = elim (Bool-cases (capacity.of v == 0)) [
          | inl e ↦ inl (rw e refl)
          | inr e ↦ inr (rw e refl)
        ]
