-- ===== src/Calls/Written.antt =====
-- `passArrayJsValueToWasm0` of rust/assets/hep-viewer.js: the words that it writes are the indices of the
-- values, so that an array that is passed comes back.
use ggsql_duckdb.Prelude.{
  ℕ, zero, suc, ◌+◌, ◌*◌, ◌%◌, ◌<◌, ◌≤◌, ◌≡◌, refl, sym, ap, subst, ◌∙◌, true, some, List, [], ◌∷◌,
  length, leb, arith, inl, inr, Option-cases,
}
use ggsql_duckdb.Boot.Init.{Bytes}
use ggsql_duckdb.Boot.Memory.{overwrite}
use ggsql_duckdb.Boot.Views.{IsCurrent, same_buffer_eq, length-overwrite}
use ggsql_duckdb.Glue.Heap.{JsValue, Heap, add_heap_object, add_all, take_all}
use ggsql_duckdb.Glue.FreeList.{IsHeap}
use ggsql_duckdb.Glue.Passing.{Holds, add_all-IsAllAdded, take_all-Holds}
use ggsql_duckdb.Calls.Machine.{to_int32, World, returned, Exports, Browser}
use ggsql_duckdb.Calls.Access.{
  word_bytes, word_at, data_view_memory, set_uint32, add_object, add_words, get_array_js_value,
  pass_array_js_value_to_wasm,
}
use ggsql_duckdb.Calls.Runs.{bind-returned, viewed, with_heap, data_view_memory-viewed}
use ggsql_duckdb.Calls.Arrays.{Words, get_array_js_value-take_all}

-- A word that is written is read.
pub word_at-overwrite :
    (at v : ℕ) (bs : Bytes)
    → at + 4 ≤ length bs
    → v < 4294967296
    → word_at at (overwrite at (word_bytes v) bs) ≡ some v
unfolding word_at
word_at-overwrite zero v (a ∷ b ∷ c ∷ d ∷ bs) h l = ap some (omega arith)
word_at-overwrite zero v (a ∷ b ∷ c ∷ []) h l = absurd (omega arith)
word_at-overwrite zero v (a ∷ b ∷ []) h l = absurd (omega arith)
word_at-overwrite zero v (a ∷ []) h l = absurd (omega arith)
word_at-overwrite zero v [] h l = absurd (omega arith)
word_at-overwrite (suc at) v (a ∷ bs) h l = word_at-overwrite at v bs (omega arith) l
word_at-overwrite (suc at) v [] h l = absurd (omega arith)

-- A word that lies before what is written stays.
pub word_at-overwrite_after :
    (from at : ℕ) (w bs : Bytes)
    → from + 4 ≤ at
    → word_at from (overwrite at w bs) ≡ word_at from bs
unfolding word_at
word_at-overwrite_after from at [] bs h = refl
word_at-overwrite_after from at (x ∷ w) [] h = refl
word_at-overwrite_after (suc from) (suc at) (x ∷ w) (b ∷ bs) h =
    word_at-overwrite_after from at (x ∷ w) bs (omega arith)
word_at-overwrite_after zero (suc (suc (suc (suc at)))) (x ∷ w) (a ∷ b ∷ c ∷ d ∷ bs) h = refl
word_at-overwrite_after zero (suc (suc (suc (suc at)))) (x ∷ w) (a ∷ b ∷ c ∷ []) h = refl
word_at-overwrite_after zero (suc (suc (suc (suc at)))) (x ∷ w) (a ∷ b ∷ []) h = refl
word_at-overwrite_after zero (suc (suc (suc (suc at)))) (x ∷ w) (a ∷ []) h = refl
word_at-overwrite_after zero (suc (suc (suc zero))) (x ∷ w) (b ∷ bs) h = absurd (omega arith)
word_at-overwrite_after zero (suc (suc zero)) (x ∷ w) (b ∷ bs) h = absurd (omega arith)
word_at-overwrite_after zero (suc zero) (x ∷ w) (b ∷ bs) h = absurd (omega arith)
word_at-overwrite_after from zero (x ∷ w) (b ∷ bs) h = absurd (omega arith)

-- What the loop leaves in the memory: the words, and what lay before them.
record IsWritten (at : ℕ) (ids : List ℕ) (old new : Bytes) : Type 0 where
  size : length new ≡ length old
  words : Words new at ids
  before : (from : ℕ) → from + 4 ≤ at → word_at from new ≡ word_at from old

-- The indices are 32-bit numbers.
abbrev pub AreSmall : List ℕ → Type 0
AreSmall [] = Unit
AreSmall (i ∷ is) = (i < 4294967296) × AreSmall is

abbrev pub with_content : Bytes → World → World
with_content bs w = record w {
  machine = record w.machine { memory = record w.machine.memory { content = bs } };
}

add_all-inv :
    (v : JsValue) (vs : List JsValue) (h g : Heap) (ids : List ℕ)
    → add_all (v ∷ vs) h ≡ some (ids, g)
    → (i : ℕ) × (is : List ℕ) × (k : Heap) × (add_heap_object v h ≡ some (i, k))
      × (add_all vs k ≡ some (is, g))
      × (ids ≡ i ∷ is)
unfolding add_all
add_all-inv v vs h g ids e = elim (Option-cases (add_heap_object v h)) [
  | inl failed ↦ absurd (ground (arith, e, failed))
  | inr ((i, k), added) ↦ elim (Option-cases (add_all vs k)) [
    | inl failed ↦ absurd (ground (arith, e, failed, added))
    | inr ((is, f), rest) ↦
        let same : (f ≡ g) × (ids ≡ i ∷ is) = ground (arith, e, added, rest) in
        (i, is, k, added, rest ∙ ap (λ x. some (is, x)) same.0, same.1)
  ]
]

module _ (browser : Browser) where
  pub set_uint32-returned :
      (at v : ℕ) (w : World)
      → at + 4 ≤ length w.machine.memory.content
      → set_uint32 browser w.machine.memory.buffer at v w
        ≡ (returned tt, with_content (overwrite at (word_bytes v) w.machine.memory.content) w)
  set_uint32-returned at v w h =
      let fits : leb (at + 4) (length w.machine.memory.content) ≡ true = ground arith in
      rw ((same_buffer_eq w.machine.memory.buffer w.machine.memory.buffer).1 refl, fits) refl

  add_object-returned :
      (obj : JsValue) (w : World) (i : ℕ) (g : Heap)
      → add_heap_object obj w.machine.heap ≡ some (i, g)
      → add_object browser obj w ≡ (returned i, with_heap g w)
  unfolding add_object
  add_object-returned obj w i g e = rw e refl

  add_words-IsWritten :
      (vs : List JsValue) (at : ℕ) (w : World) (ids : List ℕ) (g : Heap)
      → at + 4 * length vs ≤ length w.machine.memory.content
      → add_all vs w.machine.heap ≡ some (ids, g)
      → AreSmall ids
      → (bs : Bytes) × (add_words browser w.machine.memory.buffer at vs w
          ≡ (returned tt, with_content bs (with_heap g w)))
        × IsWritten at ids w.machine.memory.content bs
  unfolding add_words add_all
  add_words-IsWritten [] at w ids g h e small =
      let same : (w.machine.heap ≡ g) × (ids ≡ []) = ground (arith, e) in
      (
        w.machine.memory.content,
        ap (λ f. (returned tt, with_heap f w)) same.0,
        record {
          size = refl;
          words = subst (Words w.machine.memory.content at) (sym same.1) tt;
          before = λ from f. refl;
        },
      )
  add_words-IsWritten (v ∷ vs) at w ids g h e small =
      let (i, is, k, added, rest, split) = add_all-inv v vs w.machine.heap g ids e in
      let (l, ls) = subst AreSmall split small in
      let buffer = w.machine.memory.buffer in
      let content = w.machine.memory.content in
      let next = overwrite at (word_bytes i) content in
      let size = length-overwrite at (word_bytes i) content in
      let put = with_content next (with_heap k w) in
      let (bs, ran, done) = add_words-IsWritten vs (at + 4) put is g (omega arith) rest ls in
      (
        bs,
        bind-returned (add_object browser v) _ w (with_heap k w) i
              (add_object-returned v w i k added)
            ∙ bind-returned (set_uint32 browser buffer at i) _ (with_heap k w) put tt
                (set_uint32-returned at i (with_heap k w) (omega arith))
            ∙ ran,
        record {
          size = done.size ∙ size;
          words = subst (Words bs at) (sym split) (
            done.before at (omega arith) ∙ word_at-overwrite at i content (omega arith) l,
            done.words,
          );
          before = λ from f.
              done.before from (omega arith)
              ∙ word_at-overwrite_after from at (word_bytes i) content f;
        },
      )

length-Holds :
    (ids : List ℕ) (vs : List JsValue) (h : Heap) (free : List ℕ)
    → Holds h free ids vs
    → length ids ≡ length vs
length-Holds [] [] h free s = refl
length-Holds (i ∷ ids) (v ∷ vs) h free (k, e, n, s) = ap suc (length-Holds ids vs h free s)
length-Holds [] (v ∷ vs) h free s = absurd s
length-Holds (i ∷ ids) [] h free s = absurd s

-- An array that is passed to the wasm side and received from it again, through the words in its memory,
-- comes back equal, whatever its values are. Both calls succeed, and the table is well-formed after
-- them. The allocator gives a block in the memory, and the indices in the table fit into 32 bits.
pub get_array_js_value-pass :
    (exports : Exports) (browser : Browser) (array : List JsValue) (w : World) (free : List ℕ)
    → let (raw, grown) = exports.malloc (length array * 4) 4 w.machine.memory in
      let ptr = raw % 4294967296 in
      IsHeap w.machine.heap free
      → IsCurrent grown w.machine.globals
      → ptr + 4 * length array ≤ length grown.content
      → length array < 2147483648
      → ((ids : List ℕ) (g : Heap) → add_all array w.machine.heap ≡ some (ids, g) → AreSmall ids)
      → (v u : World) × (pass_array_js_value_to_wasm browser exports array w ≡ (returned ptr, v))
        × (get_array_js_value browser (to_int32 ptr) (to_int32 v.machine.globals.vector_len) v
            ≡ (returned array, u))
        × ((free' : List ℕ) × IsHeap u.machine.heap free')
unfolding pass_array_js_value_to_wasm
get_array_js_value-pass exports browser array w free heap current fits short small =
    let (ids, free', g, added, a) = add_all-IsAllAdded array w.machine.heap free heap in
    let (raw, grown) = exports.malloc (length array * 4) 4 w.machine.memory in
    let ptr = raw % 4294967296 in
    let given : World = record w { machine = record w.machine { memory = grown } } in
    let seen = viewed given in
    let (bs, ran, done) =
      add_words-IsWritten browser array ptr seen ids g fits added (small ids g added) in
    let put = with_content bs (with_heap g seen) in
    let v : World = record put {
      machine = record put.machine {
        globals = record put.machine.globals { vector_len = length array };
      };
    } in
    let same = length-Holds ids array g free' a.holds in
    let (taken, rest) = take_all-Holds ids array g free' a.heap a.holds in
    (
      v,
      with_heap (take_all ids g).1 (viewed v),
      bind-returned _ _ w given raw refl
          ∙ bind-returned (data_view_memory browser) _ given seen grown.buffer
              (data_view_memory-viewed browser given current)
          ∙ bind-returned (add_words browser grown.buffer ptr array) _ seen put tt ran,
      subst
            (λ n.
              get_array_js_value browser (to_int32 ptr) (to_int32 n) v
              ≡ (returned (take_all ids g).0, with_heap (take_all ids g).1 (viewed v)))
            same
            (get_array_js_value-take_all browser ids ptr v
              (record { data_view = refl; uint8_array = current.uint8_array }) (omega arith)
              (omega arith) done.words)
          ∙ ap (λ vs. (returned vs, with_heap (take_all ids g).1 (viewed v))) taken,
      rest,
    )
