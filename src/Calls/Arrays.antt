-- ===== src/Calls/Arrays.antt =====
-- Arrays of values that the wasm side of rust/assets/hep-viewer.js leaves as words in its memory, each the
-- index of a value.
use ggsql_duckdb.Prelude.{
  ℕ, ◌+◌, ◌*◌, ◌%◌, ◌<◌, ◌≡◌, refl, sym, ap, subst, ◌∙◌, some, List, [], ◌∷◌, ◌++◌, length, arith,
}
use ggsql_duckdb.Boot.Init.{Bytes}
use ggsql_duckdb.Boot.Views.{IsCurrent}
use ggsql_duckdb.Glue.Heap.{JsValue, take_object, take_all}
use ggsql_duckdb.Glue.FreeList.{IsHeap}
use ggsql_duckdb.Glue.Passing.{Holds, dropped, take_all-dropped}
use ggsql_duckdb.Calls.Machine.{
  pos, to_int32, Block, Machine, World, answer, returned, warnings, Exports, Browser,
}
use ggsql_duckdb.Calls.Access.{
  word_at, data_view_memory, get_uint32, take_value, take_words, get_array_js_value,
}
use ggsql_duckdb.Calls.Document.{free_block, array_block, read_pair, receive_array, warnings_getter}
use ggsql_duckdb.Calls.Keeps.{moved}
use ggsql_duckdb.Calls.Methods.{KeepsStack}
use ggsql_duckdb.Calls.Runs.{
  same_word, small_word, bind-returned, viewed, with_heap, data_view_memory-viewed,
  get_uint32-returned, take_value-returned, frame-ended,
}
use ggsql_duckdb.Calls.Received.{read_pair-returned}

-- The words from an address on.
abbrev pub Words : Bytes → ℕ → List ℕ → Type 0
Words content at [] = Unit
Words content at (i ∷ is) = (word_at at content ≡ some i) × Words content (at + 4) is

module _ (browser : Browser) where
  pub take_words-take_all :
      (ids : List ℕ) (at : ℕ) (w : World)
      → Words w.machine.memory.content at ids
      → take_words browser w.machine.memory.buffer at (length ids) w
        ≡ (returned (take_all ids w.machine.heap).0, with_heap (take_all ids w.machine.heap).1 w)
  unfolding take_words take_all
  take_words-take_all [] at w h = refl
  take_words-take_all (idx ∷ ids) at w (first, rest) =
      let (v, heap) = take_object idx w.machine.heap in
      let taken = with_heap heap w in
      let vs = (take_all ids heap).0 in
      let left = with_heap (take_all ids heap).1 w in
      bind-returned (get_uint32 browser w.machine.memory.buffer at) _ w w idx
        (get_uint32-returned browser at idx w first)
      ∙ bind-returned (take_value browser (pos idx)) _ w taken v (take_value-returned browser idx w)
      ∙ bind-returned (take_words browser w.machine.memory.buffer (at + 4) (length ids)) _ taken
          left vs (take_words-take_all ids (at + 4) taken rest)

  pub get_array_js_value-take_all :
      (ids : List ℕ) (at : ℕ) (w : World)
      → IsCurrent w.machine.memory w.machine.globals
      → at < 4294967296
      → length ids < 2147483648
      → Words w.machine.memory.content at ids
      → get_array_js_value browser (to_int32 at) (to_int32 (length ids)) w ≡ (
        returned (take_all ids w.machine.heap).0,
        with_heap (take_all ids w.machine.heap).1 (viewed w),
      )
  unfolding get_array_js_value
  get_array_js_value-take_all ids at w v l h words =
      bind-returned (data_view_memory browser) _ w (viewed w) w.machine.memory.buffer
        (data_view_memory-viewed browser w v)
      ∙ rw (same_word at l, small_word (length ids) h) (take_words-take_all ids at (viewed w) words)

  module _ (exports : Exports) (k : KeepsStack exports) where
    -- From the words of an array to its values.
    receive_array-returned :
        (ids : List ℕ) (at n : ℕ) (v : World) (m : Machine)
        → IsCurrent v.machine.memory v.machine.globals
        → at < 4294967296
        → length ids < 536870912
        → Words v.machine.memory.content at ids
        → let given = with_heap (take_all ids v.machine.heap).1 (viewed v) in
          exports.free at (length ids * 4) 4 given.machine ≡ (answer n, m)
          → receive_array exports browser (to_int32 at) (to_int32 (length ids)) v ≡ (
            returned (take_all ids v.machine.heap).0,
            record {
              machine = m;
              frees =
                  v.frees ++ (record { address = at; size = length ids * 4; alignment = 4 } ∷ []);
            },
          )
    unfolding free_block
    receive_array-returned ids at n v m current l h words freed =
        let vs = (take_all ids v.machine.heap).0 in
        let given = with_heap (take_all ids v.machine.heap).1 (viewed v) in
        let small : length ids * 4 % 4294967296 ≡ length ids * 4 = omega arith in
        let block : Block = record { address = at; size = length ids * 4; alignment = 4 } in
        let after : World = record { machine = m; frees = v.frees ++ (block ∷ []) } in
        bind-returned (get_array_js_value browser (to_int32 at) (to_int32 (length ids))) _ v given
          vs (get_array_js_value-take_all ids at v current l (omega arith) words)
        ∙ bind-returned (free_block exports (array_block (to_int32 at) (to_int32 (length ids)))) _
            given after n
            (rw (same_word at l, small_word (length ids) (omega arith), small, freed) refl)

-- The getter `warnings` gives the values that lie at the indices which the export has left, in order.
-- It takes them out of the table: the table is well-formed after it, its free entries being those
-- that were free before and, in front of them, each of these indices once. It gives the block of the
-- indices back once, with its size in bytes. The export that frees leaves the table alone.
pub warnings_getter-Holds :
    (exports : Exports) (browser : Browser) (ptr : ℕ) (w : World) (n : Machine) (at : ℕ)
    (ids free : List ℕ) (vs : List JsValue)
    → KeepsStack exports
    → ((address size alignment : ℕ) (m : Machine)
        → (z : ℕ) × ((exports.free address size alignment m).0 ≡ answer z)
          × ((exports.free address size alignment m).1.heap ≡ m.heap))
    → let m = (moved w).machine in
      exports.run (warnings m.stack_pointer ptr) m ≡ (answer 0, n)
      → IsCurrent n.memory n.globals
      → IsHeap n.heap free
      → word_at m.stack_pointer n.memory.content ≡ some at
      → word_at (m.stack_pointer + 4) n.memory.content ≡ some (length ids)
      → at < 4294967296
      → length ids < 536870912
      → Words n.memory.content at ids
      → Holds n.heap free ids vs
      → let (r, v) = warnings_getter exports browser ptr w in
        (r ≡ returned vs)
        × (v.frees
            ≡ w.frees ++ (record { address = at; size = length ids * 4; alignment = 4 } ∷ []))
        × IsHeap v.machine.heap (dropped ids free)
unfolding warnings_getter
warnings_getter-Holds exports browser ptr w n at ids free vs k f ran current heap first second l h
      words holds =
    let request = λ (p : ℕ). warnings p ptr in
    let retptr = (moved w).machine.stack_pointer in
    let seen = viewed (record w { machine = n }) in
    let taken = take_all-dropped ids vs n.heap free heap holds in
    let given = with_heap (take_all ids n.heap).1 seen in
    let m = (exports.free at (length ids * 4) 4 given.machine).1 in
    let (z, freed, same) = f at (length ids * 4) 4 given.machine in
    let still : IsCurrent seen.machine.memory seen.machine.globals = record {
      data_view = refl;
      uint8_array = current.uint8_array;
    } in
    let after : World = record {
      machine = m;
      frees = w.frees ++ (record { address = at; size = length ids * 4; alignment = 4 } ∷ []);
    } in
    let run_to =
      bind-returned (read_pair exports browser request retptr) _ (moved w) seen
        (to_int32 at, to_int32 (length ids))
        (read_pair-returned browser exports request retptr (moved w) n at (length ids) ran current
          first second)
      ∙ receive_array-returned browser exports k ids at z seen m still l h words
          (ap (λ a. (a, m)) freed) in
    rw (frame-ended exports k browser _ w after (returned (take_all ids n.heap).0) run_to)
      (ap returned taken.0, refl, subst (λ g. IsHeap g (dropped ids free)) (sym same) taken.1)
