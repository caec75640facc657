-- ===== src/Calls/Loaded.antt =====
-- `PlotDocument.load` of rust/assets/hep-viewer.js, against what the wasm side makes of the bytes of a
-- document.
use ggsql_duckdb.Prelude.{
  ℕ, ◌+◌, ◌<◌, ◌≤◌, ◌≡◌, refl, ap, ◌∙◌, subst, some, ◌⊎◌, inl, inr, List, ◌∷◌, length, arith,
}
use mathlib.Core.Path.{subst₂}
use ggsql_duckdb.Boot.Init.{Bytes}
use ggsql_duckdb.Boot.Memory.{subarray}
use ggsql_duckdb.Boot.Views.{IsCurrent, subarray-overwrite}
use ggsql_duckdb.Glue.Heap.{JsValue, Heap, add_heap_object, get_object, drop_object, take_object}
use ggsql_duckdb.Glue.FreeList.{IsHeap, IsHandle, drop_object-IsHeap, rest_of}
use ggsql_duckdb.Glue.Adding.{IsAdded, add_heap_object-IsAdded}
use ggsql_duckdb.Glue.Passing.{drop_object-unchanged}
use ggsql_duckdb.Glue.Owned.{Wrapper}
use ggsql_duckdb.Calls.Machine.{
  to_int32, to_uint32, Machine, World, answer, Outcome, returned, thrown, Call, load, Exports,
  Browser, pure, ◌>>=◌,
}
use ggsql_duckdb.Calls.Access.{word_at, get_int32, take_value, pass_array8_to_wasm, wasm_vector_len}
use ggsql_duckdb.Calls.Document.{wrapped, throw_taken, read_document, load_document, run}
use ggsql_duckdb.Calls.Keeps.{moved}
use ggsql_duckdb.Calls.Methods.{KeepsStack}
use ggsql_duckdb.Calls.Runs.{
  same_word, small_word, bind-returned, viewed, with_heap, get_int32-returned, sent, sent_at,
  pass_array8_to_wasm-returned, run-returned, raised, frame-ended,
}

-- What the export leaves at `retptr` on a machine `m`, from what the wasm side makes of the bytes: the
-- address of a document, or an error, which it puts into the table of objects.
abbrev pub Answers : ℕ → ℕ ⊎ JsValue → Machine → Machine → Type 0
Answers retptr (inl ptr) m n =
    (ptr < 4294967296)
    × (word_at retptr n.memory.content ≡ some ptr)
    × (word_at (retptr + 8) n.memory.content ≡ some 0)
    × (n.heap ≡ m.heap)
Answers retptr (inr e) m n =
    (i : ℕ) × (word_at (retptr + 4) n.memory.content ≡ some i)
    × (word_at (retptr + 8) n.memory.content ≡ some 1)
    × (i < 2147483648)
    × (add_heap_object e m.heap ≡ some (i, n.heap))

pub record IsAnswer (retptr : ℕ) (parsed : ℕ ⊎ JsValue) (m n : Machine) : Type 0 where
  pub answers : Answers retptr parsed m n
  -- all three words can be read
  pub first : (a : ℕ) × (word_at retptr n.memory.content ≡ some a)
  pub second : (b : ℕ) × (word_at (retptr + 4) n.memory.content ≡ some b)
  pub current : IsCurrent n.memory n.globals
  pub stack : n.stack_pointer ≡ m.stack_pointer

-- How a call ends that got a document, or an error: with an object that wraps the document, and the
-- table of objects as it was; or by throwing the error, with the table well-formed and each value
-- in use where it was.
abbrev pub Ends : ℕ ⊎ JsValue → Heap → List ℕ → Outcome Wrapper × World → Type 0
Ends (inl ptr) h free r = (r.0 ≡ returned (wrapped ptr)) × (r.1.machine.heap ≡ h)
Ends (inr e) h free r =
    (r.0 ≡ thrown e)
    × ((free' : List ℕ) × IsHeap r.1.machine.heap free'
        × ((j : ℕ)
            → IsHandle h free j
            → (get_object j r.1.machine.heap ≡ get_object j h) × IsHandle r.1.machine.heap free' j))

-- From the words on.
finish : Browser → ℕ → ℕ → ℕ → Call Wrapper
finish browser a b c =
    throw_taken browser (to_int32 c) (to_int32 b) >>= λ _. pure (wrapped (to_uint32 (to_int32 a)))

module _ (exports : Exports) (browser : Browser) (doc : Bytes) (w : World) (n : Machine) where
  abbrev after_run : World
  after_run = record w { machine = n }

  read_document-finish :
      (a b c : ℕ)
      → let m = (moved w).machine in
        let grown = (exports.malloc (length doc) 1 m.memory).1 in
        IsCurrent grown m.globals
        → sent_at browser exports doc m + length doc ≤ length grown.content
        → exports.run
            (load m.stack_pointer (sent_at browser exports doc m) (length doc))
            (sent browser exports doc m)
          ≡ (answer 0, n)
        → IsCurrent n.memory n.globals
        → word_at m.stack_pointer n.memory.content ≡ some a
        → word_at (m.stack_pointer + 4) n.memory.content ≡ some b
        → word_at (m.stack_pointer + 8) n.memory.content ≡ some c
        → read_document exports browser doc m.stack_pointer (moved w)
          ≡ finish browser a b c (viewed after_run)
  unfolding finish
  read_document-finish a b c current fits ran current' first second third =
      let m = (moved w).machine in
      let retptr = m.stack_pointer in
      let at = sent_at browser exports doc m in
      let passed : World = record w { machine = sent browser exports doc m } in
      let seen = viewed after_run in
      let still : IsCurrent seen.machine.memory seen.machine.globals = record {
        data_view = refl;
        uint8_array = current'.uint8_array;
      } in
      bind-returned (pass_array8_to_wasm browser exports doc) _ (moved w) passed at
        (pass_array8_to_wasm-returned browser exports doc (moved w) current fits)
      ∙ bind-returned (wasm_vector_len browser exports) _ passed passed (length doc) refl
      ∙ bind-returned (run exports (load retptr at (length doc))) _ passed after_run 0
          (run-returned exports _ passed 0 n ran)
      ∙ bind-returned (get_int32 browser retptr) _ after_run seen (to_int32 a)
          (get_int32-returned browser retptr a after_run current' first)
      ∙ bind-returned (get_int32 browser (retptr + 4)) _ seen seen (to_int32 b)
          (get_int32-returned browser (retptr + 4) b seen still second)
      ∙ bind-returned (get_int32 browser (retptr + 8)) _ seen seen (to_int32 c)
          (get_int32-returned browser (retptr + 8) c seen still third)

finish-returned :
    (browser : Browser) (a b : ℕ) (v : World)
    → a < 4294967296
    → finish browser a b 0 v ≡ (returned (wrapped a), v)
unfolding finish ◌>>=◌
finish-returned browser a b v l = rw (same_word a l) refl

finish-thrown :
    (browser : Browser) (a i : ℕ) (v : World)
    → i < 2147483648
    → finish browser a i 1 v
      ≡ (thrown (get_object i v.machine.heap), with_heap (drop_object i v.machine.heap) v)
unfolding finish ◌>>=◌ take_value take_object
finish-thrown browser a i v l = rw (small_word i l) refl

-- An error put into the table and taken out again: the table is well-formed, and the values that
-- were in use still are, where they were.
taken_again :
    (e : JsValue) (h g : Heap) (free : List ℕ) (i : ℕ)
    → IsHeap h free
    → add_heap_object e h ≡ some (i, g)
    → (get_object i g ≡ e)
      × ((free' : List ℕ) × IsHeap (drop_object i g) free'
          × ((j : ℕ)
              → IsHandle h free j
              → (get_object j (drop_object i g) ≡ get_object j h)
                × IsHandle (drop_object i g) free' j))
taken_again e h g free i v p =
    let (i', g', q, a) = add_heap_object-IsAdded e h free v in
    let same : (i' ≡ i) × (g' ≡ g) = ground (arith, p, q) in
    let b = subst₂ (λ k f. IsAdded h free e k f) same.0 same.1 a in
    (
      b.stored,
      (
        i ∷ rest_of free,
        drop_object-IsHeap g (rest_of free) i b.heap b.handle,
        λ j l.
            let (kept, handle) =
              drop_object-unchanged g (rest_of free) i j b.handle (b.still_handle j l)
                (b.fresh j l) in
            (kept ∙ b.unchanged j l, handle),
      ),
    )

module _ (exports : Exports) (browser : Browser) (k : KeepsStack exports) where
  load_document-finish :
      (doc : Bytes) (w : World) (n : Machine) (a b c : ℕ) (r : Outcome Wrapper) (v : World)
      → let m = (moved w).machine in
        let grown = (exports.malloc (length doc) 1 m.memory).1 in
        IsCurrent grown m.globals
        → sent_at browser exports doc m + length doc ≤ length grown.content
        → exports.run
            (load m.stack_pointer (sent_at browser exports doc m) (length doc))
            (sent browser exports doc m)
          ≡ (answer 0, n)
        → IsCurrent n.memory n.globals
        → word_at m.stack_pointer n.memory.content ≡ some a
        → word_at (m.stack_pointer + 4) n.memory.content ≡ some b
        → word_at (m.stack_pointer + 8) n.memory.content ≡ some c
        → finish browser a b c (viewed (record w { machine = n })) ≡ (r, v)
        → load_document exports browser doc w ≡ (r, raised exports v)
  unfolding load_document
  load_document-finish doc w n a b c r v current fits ran current' first second third ended =
      frame-ended exports k browser (read_document exports browser doc) w v r (
        read_document-finish exports browser doc w n a b c current fits ran current' first second
          third
        ∙ ended)

  Ends-answer :
      (doc : Bytes) (w : World) (n : Machine) (free : List ℕ) (parsed : ℕ ⊎ JsValue)
      → let m = (moved w).machine in
        let grown = (exports.malloc (length doc) 1 m.memory).1 in
        IsHeap w.machine.heap free
        → IsCurrent grown m.globals
        → sent_at browser exports doc m + length doc ≤ length grown.content
        → exports.run
            (load m.stack_pointer (sent_at browser exports doc m) (length doc))
            (sent browser exports doc m)
          ≡ (answer 0, n)
        → IsAnswer m.stack_pointer parsed (sent browser exports doc m) n
        → Ends parsed w.machine.heap free (load_document exports browser doc w)
  Ends-answer doc w n free (inl ptr) heap current fits ran left =
      let (l, first, third, same) = left.answers in
      let (b, second) = left.second in
      rw
        (load_document-finish doc w n ptr b 0 (returned (wrapped ptr)) _ current fits ran
          left.current first second third (finish-returned browser ptr b _ l))
        (refl, same)
  Ends-answer doc w n free (inr e) heap current fits ran left =
      let (i, second, third, l, added) = left.answers in
      let (a, first) = left.first in
      let (stored, rest) = taken_again e w.machine.heap n.heap free i heap added in
      rw
        (load_document-finish doc w n a i 1 _ _ current fits ran left.current first second third
          (finish-thrown browser a i (viewed (record w { machine = n })) l))
        (ap thrown stored, rest)

-- `PlotDocument.load` is what the wasm side makes of the bytes that it is given. Where it makes a
-- document of them, the call returns an object for it and leaves the table of objects as it was.
-- Where it makes an error, the call throws this error; the table is well-formed, and each value in
-- use is where it was. The block for the bytes lies in the memory, the views that are cached are of
-- it, and the export, on the bytes at its address, leaves the words of its answer where it is told.
pub load_document-Ends :
    (exports : Exports) (browser : Browser) (parse : Bytes → ℕ ⊎ JsValue) (doc : Bytes) (w : World)
    (free : List ℕ) (n : Machine)
    → KeepsStack exports
    → let m = (moved w).machine in
      let grown = (exports.malloc (length doc) 1 m.memory).1 in
      let at = sent_at browser exports doc m in
      let given = sent browser exports doc m in
      IsHeap w.machine.heap free
      → IsCurrent grown m.globals
      → at + length doc ≤ length grown.content
      → exports.run (load m.stack_pointer at (length doc)) given ≡ (answer 0, n)
      → IsAnswer m.stack_pointer (parse (subarray at (length doc) given.memory.content)) given n
      → Ends (parse doc) w.machine.heap free (load_document exports browser doc w)
load_document-Ends exports browser parse doc w free n k heap current fits ran left =
    let arrived = subarray-overwrite (sent_at browser exports doc (moved w).machine) doc _ fits in
    Ends-answer exports browser k doc w n free (parse doc) heap current fits ran (
      subst
        (λ p.
          IsAnswer (moved w).machine.stack_pointer p (sent browser exports doc (moved w).machine) n)
        (ap parse arrived) left)
