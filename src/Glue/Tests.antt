-- ===== src/Glue/Tests.antt =====
-- The object table of rust/assets/hep-viewer.js at its start.
use ggsql_duckdb.Prelude.{ℕ, ◌≡◌, refl, true, false, some, [], ◌∷◌, ◌++◌, get_elem?, arith}
use mathlib.Core.Option
use ggsql_duckdb.Glue.Owned.{
  Wrapper, of_block, wrap, free_object, collect, destroy_into_raw, no_blocks, Reach, here, next,
  wraps,
}
use ggsql_duckdb.Glue.FreedOnce.{holders, Reach-free_object}
use ggsql_duckdb.Glue.Heap.{
  undefined, null, boolean, number, object, Heap, replicate, initial_heap, grow, add_heap_object,
  drop_object,
}
use ggsql_duckdb.Glue.FreeList.{IsHeap}

initial_heap-IsHeap : IsHeap initial_heap []
unfolding initial_heap
initial_heap-IsHeap = record { chain = refl; distinct = tt; has_reserved = omega arith }

-- Two values in the table, at the indices 1028 and 1029.
abbrev two_values : Heap
two_values = record {
  slots =
      replicate 1024 undefined
      ++ (undefined ∷ null ∷ boolean true ∷ boolean false ∷ object 5 ∷ number 7 ∷ []);
  heap_next = 1030;
}

reuses_index :
    Option.map (λ r. r.0) (add_heap_object null (drop_object 1028 two_values)) ≡ some 1028
unfolding add_heap_object drop_object grow
reuses_index = refl

-- One object, with its block at 64.
abbrev first : Wrapper
first = record { ptr = 64; held = some 64; collected = false }

first-Reach : Reach (wrap 64 no_blocks)
first-Reach = next here (wraps no_blocks 64 (λ e. cc) refl)

Reach-free_object_example :
    let s = wrap 64 no_blocks in
    ((p : ℕ) → s.live p ≡ holders s.objects p)
    × ((free_object 0 first s).0 ≡ of_block)
    × (get_elem? (free_object 0 first s).1.objects 0 ≡ some (destroy_into_raw first).1)
    × ((collect 0 first s).0 ≡ some of_block)
Reach-free_object_example = Reach-free_object (wrap 64 no_blocks) 0 first first-Reach refl refl
