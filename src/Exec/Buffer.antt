-- ===== src/Exec/Buffer.antt =====
-- The buffer that carries the payload of a query from rust/src/lib.rs to src/ggsql_exec.cpp, on the heap of
-- the Rust side: `ByteBuffer::from_vec`, `ggsql_execute` with its pointers, `ggsql_free_buffer`, and
-- `RunGgsqlQuery` between them.
use ggsql_duckdb.Prelude.{
  ℕ, ◌≤◌, ltb, leb, Bool, true, false, not, ◌&&◌, Option, none, some, List, [], ◌∷◌, ◌++◌, ◌==◌,
  length, get_elem?, set, if◌then◌else◌,
}
use ggsql_duckdb.Server.Registry.{Bytes, Text, Call}
use ggsql_duckdb.Bridge.Reader.{prefix}
use ggsql_duckdb.Exec.Run.{Crates, World, Answer, ggsql_execute}
use ggsql_duckdb.Exec.Query.{interrupt, Attempt, thrown, OutputConfig, Moment, payload_of}

-- The blocks of the Rust side, each with its content and its capacity until it is freed.
abbrev pub RustHeap : Type 0
RustHeap = List (Option (Bytes × ℕ))

-- A `Vec` without capacity has a pointer that is not null and points to no block.
pub data RustPointer : Type 0 where
  null dangling : RustPointer
  block : ℕ → RustPointer

pub record RustBuffer : Type 0 where
  pub ptr : RustPointer
  pub len : ℕ
  pub cap : ℕ

abbrev pub empty_buffer : RustBuffer
empty_buffer = record { ptr = null; len = 0; cap = 0 }

-- The capacity of the `Vec` that holds a payload: at least its length.
pub record Capacity : Type 0 where
  pub of : Bytes → ℕ
  pub length-le-of : (s : Bytes) → length s ≤ of s

-- `Vec::from_raw_parts` with the drop of the `Vec`: `none` where the parts are not those of a block.
abbrev pub drop_block : ℕ → ℕ → Option (Option (Bytes × ℕ)) → RustHeap → ℕ → Option RustHeap
drop_block len cap (some (some (content, capacity))) heap k =
    if capacity == cap && leb len cap then some (set heap k none) else none
drop_block len cap _ heap k = none

abbrev pub drop_vec : RustPointer → ℕ → ℕ → RustHeap → Option RustHeap
drop_vec (block k) len cap heap = drop_block len cap (get_elem? heap k) heap k
drop_vec _ len cap heap = none

abbrev pub is_null : RustPointer → Bool
is_null null = true
is_null _ = false

-- `*b = ByteBuffer::EMPTY`
abbrev pub emptied : Option RustHeap → Option (Option RustBuffer × RustHeap)
emptied none = none
emptied (some heap) = some (some empty_buffer, heap)

-- `none` is a drop of what is no `Vec`.
unfoldable pub ggsql_free_buffer :
    Option RustBuffer → RustHeap → Option (Option RustBuffer × RustHeap)
ggsql_free_buffer none heap = some (none, heap)
ggsql_free_buffer (some b) heap =
    emptied
      (if not (is_null b.ptr) && ltb 0 b.cap then drop_vec b.ptr b.len b.cap heap else some heap)

-- `payload.assign(out.ptr, out.len)`: `none` where the bytes are not in a block.
abbrev pub read_block : ℕ → Option (Option (Bytes × ℕ)) → Option Bytes
read_block len (some (some (content, capacity))) = prefix len content
read_block len _ = none

abbrev pub read_pointer : RustPointer → ℕ → RustHeap → Option Bytes
read_pointer (block k) len heap = read_block len (get_elem? heap k)
read_pointer _ len heap = none

abbrev pub read_payload : RustBuffer → RustHeap → Option Bytes
read_payload b heap =
    if not (is_null b.ptr) && ltb 0 b.len then read_pointer b.ptr b.len heap else some []

module _ (capacity : Capacity) where
  -- `ByteBuffer::from_vec`, with the block of the `Vec`
  unfoldable pub from_vec : Bytes → RustHeap → RustBuffer × RustHeap
  from_vec v heap =
      if capacity.of v == 0 then (record { ptr = dangling; len = length v; cap = 0 }, heap) else (
        record { ptr = block (length heap); len = length v; cap = capacity.of v },
        heap ++ (some (v, capacity.of v) ∷ []),
      )

  module _ {Spec Options Writer : Type 0} (crates : Crates Spec Options Writer) where
    -- The code, `out`, the heap and the world that `ggsql_execute` leaves.
    abbrev pub Executed : Type 0
    Executed = ℕ × Option RustBuffer × RustHeap × World

    abbrev pub store_answer : Answer × World → RustHeap → Executed
    store_answer (a, v) heap = let (b, after) = from_vec a.out heap in (a.code, some b, after, v)

    abbrev pub execute_into :
        Call
        → Bool
        → Option Bytes
        → Option Bytes
        → Option Bytes
        → Option RustBuffer
        → RustHeap
        → World
        → Executed
    execute_into call no_open (some query) (some writer) (some options) (some out) heap w =
        store_answer (ggsql_execute crates call no_open query writer options w) heap
    execute_into call no_open _ _ _ out heap w = (1, out, heap, w)

    -- `ggsql_execute` with its pointers, which are null where there is `none` or `false`
    unfoldable pub ggsql_execute_raw :
        Call
        → Bool
        → Option Bytes
        → Bool
        → Option Bytes
        → Option Bytes
        → Option RustBuffer
        → RustHeap
        → World
        → Executed
    ggsql_execute_raw call no_open query bridge writer options out heap w =
        if bridge
        then execute_into call no_open query writer options out heap w
        else (1, out, heap, w)

    -- what follows the call in `RunGgsqlQuery`: `none` is an access that has no defined behaviour
    abbrev pub take_payload :
        Moment
        → ℕ
        → Option Bytes
        → Option (Option RustBuffer × RustHeap)
        → World
        → Option ((Attempt Bytes × World) × RustHeap)
    take_payload m rc (some payload) (some (out, heap)) w =
        some ((payload_of m.interrupted_after (record { code = rc; out = payload }), w), heap)
    take_payload m rc _ _ w = none

    abbrev pub payload_in : Option RustBuffer → RustHeap → Option Bytes
    payload_in none heap = some []
    payload_in (some b) heap = read_payload b heap

    abbrev pub after_call : Moment → Executed → Option ((Attempt Bytes × World) × RustHeap)
    after_call m (rc, out, heap, w) =
        take_payload m rc (payload_in out heap) (ggsql_free_buffer out heap) w

    unfoldable pub run_ggsql_query_raw :
        Moment
        → Text
        → OutputConfig
        → RustHeap
        → World
        → Option ((Attempt Bytes × World) × RustHeap)
    run_ggsql_query_raw m query cfg heap w =
        if m.interrupted_before
        then some ((thrown interrupt, w), heap)
        else after_call m (
            ggsql_execute_raw m.call m.no_open (some query) true (some cfg.writer)
              (some cfg.options) (some empty_buffer) heap w)
