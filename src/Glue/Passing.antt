-- ===== src/Glue/Passing.antt =====
-- Arrays of values across the wasm boundary of rust/assets/hep-viewer.js: what is passed in comes
-- back.
use ggsql_duckdb.Prelude.{
  ℕ, ◌≡◌, refl, sym, ap₂, ◌∙◌, ◌≢◌, some, List, [], ◌∷◌, arith, ltb, false, ◌≤◌,
}
use ggsql_duckdb.Glue.Heap.{
  JsValue, number, Heap, reserved, add_heap_object, get_object, drop_object, take_object, add_all,
  take_all,
}
use ggsql_duckdb.Glue.FreeList.{
  NotIn, IsHeap, IsHandle, length-write, read-write_ne, drop_object-IsHeap, rest_of,
}
use ggsql_duckdb.Glue.Adding.{add_heap_object-IsAdded}

-- Every other value in use stays where it is when a handle is dropped.
pub drop_object-unchanged :
    (h : Heap) (free : List ℕ) (i j : ℕ)
    → IsHandle h free i
    → IsHandle h free j
    → j ≢ i
    → (get_object j (drop_object i h) ≡ get_object j h) × IsHandle (drop_object i h) (i ∷ free) j
unfolding drop_object get_object
drop_object-unchanged h free i j k l n = rw (not_below i k.not_reserved) (
  read-write_ne h.slots i j _ (λ e. n (sym e)),
  record {
    not_reserved = l.not_reserved;
    within = rw (length-write h.slots i (number h.heap_next) k.within) l.within;
    not_free = (n, l.not_free);
  },
)
  where
    not_below : (x : ℕ) → reserved ≤ x → ltb x reserved ≡ false
    not_below x r = ground arith

-- The indices hold the values, in order, and no index occurs twice.
abbrev pub Holds : Heap → List ℕ → List ℕ → List JsValue → Type 0
Holds h free [] [] = Unit
Holds h free (i ∷ is) (v ∷ vs) =
    IsHandle h free i × (get_object i h ≡ v) × NotIn i is × Holds h free is vs
Holds h free _ _ = ⊥

pub record IsAllAdded (h : Heap) (free : List ℕ) (vs : List JsValue) (ids free' : List ℕ) (g : Heap)
    : Type 0 where
  pub heap : IsHeap g free'
  pub holds : Holds g free' ids vs
  pub fresh : (j : ℕ) → IsHandle h free j → NotIn j ids
  pub unchanged : (j : ℕ) → IsHandle h free j → get_object j g ≡ get_object j h
  pub still_handle : (j : ℕ) → IsHandle h free j → IsHandle g free' j

add_all-cons :
    (x : JsValue) (vs : List JsValue) (h g k : Heap) (i : ℕ) (ids : List ℕ)
    → add_heap_object x h ≡ some (i, g)
    → add_all vs g ≡ some (ids, k)
    → add_all (x ∷ vs) h ≡ some (i ∷ ids, k)
unfolding add_all
add_all-cons x vs h g k i ids p q = ground arith

-- Passing an array in succeeds on a well-formed table, and leaves it well-formed with the values
-- at the indices given.
pub add_all-IsAllAdded :
    (vs : List JsValue) (h : Heap) (free : List ℕ)
    → IsHeap h free
    → (ids free' : List ℕ) × (g : Heap) × (add_all vs h ≡ some (ids, g))
      × IsAllAdded h free vs ids free' g
unfolding add_all
add_all-IsAllAdded [] h free v = (
  [],
  free,
  h,
  refl,
  record {
    heap = v;
    holds = tt;
    fresh = λ j l. tt;
    unchanged = λ j l. refl;
    still_handle = λ j l. l;
  },
)
add_all-IsAllAdded (x ∷ vs) h free v =
    let (i, g, p, a) = add_heap_object-IsAdded x h free v in
    let (ids, free', k, q, b) = add_all-IsAllAdded vs g (rest_of free) a.heap in
    (
      i ∷ ids,
      free',
      k,
      add_all-cons x vs h g k i ids p q,
      record {
        heap = b.heap;
        holds = (
          b.still_handle i a.handle,
          b.unchanged i a.handle ∙ a.stored,
          b.fresh i a.handle,
          b.holds,
        );
        fresh = λ j l. (a.fresh j l, b.fresh j (a.still_handle j l));
        unchanged = λ j l. b.unchanged j (a.still_handle j l) ∙ a.unchanged j l;
        still_handle = λ j l. b.still_handle j (a.still_handle j l);
      },
    )

Holds-drop_object :
    (h : Heap) (free : List ℕ) (i : ℕ) (ids : List ℕ) (vs : List JsValue)
    → IsHandle h free i
    → NotIn i ids
    → Holds h free ids vs
    → Holds (drop_object i h) (i ∷ free) ids vs
Holds-drop_object h free i [] [] k n s = tt
Holds-drop_object h free i (j ∷ ids) (v ∷ vs) k (n, ns) (l, e, d, s) =
    let (same, handle) = drop_object-unchanged h free i j k l (λ q. n (sym q)) in
    (handle, same ∙ e, d, Holds-drop_object h free i ids vs k ns s)
Holds-drop_object h free i [] (v ∷ vs) k n s = s
Holds-drop_object h free i (j ∷ ids) [] k n s = s

-- The free list once the indices are dropped, one after the other: the last one dropped comes first.
abbrev pub dropped : List ℕ → List ℕ → List ℕ
dropped [] free = free
dropped (i ∷ ids) free = dropped ids (i ∷ free)

-- Taking the values out at their indices gives them in order, and puts the indices, each once, in
-- front of the free list.
pub take_all-dropped :
    (ids : List ℕ) (vs : List JsValue) (h : Heap) (free : List ℕ)
    → IsHeap h free
    → Holds h free ids vs
    → ((take_all ids h).0 ≡ vs) × IsHeap (take_all ids h).1 (dropped ids free)
unfolding take_all take_object
take_all-dropped [] [] h free v s = (refl, v)
take_all-dropped (i ∷ ids) (x ∷ vs) h free v (k, e, n, s) =
    let (same, rest) =
      take_all-dropped ids vs (drop_object i h) (i ∷ free) (drop_object-IsHeap h free i v k)
        (Holds-drop_object h free i ids vs k n s) in
    (ap₂ ◌∷◌ e same, rest)
take_all-dropped [] (x ∷ vs) h free v s = absurd s
take_all-dropped (i ∷ ids) [] h free v s = absurd s

pub take_all-Holds :
    (ids : List ℕ) (vs : List JsValue) (h : Heap) (free : List ℕ)
    → IsHeap h free
    → Holds h free ids vs
    → ((take_all ids h).0 ≡ vs) × ((free' : List ℕ) × IsHeap (take_all ids h).1 free')
take_all-Holds ids vs h free v s =
    let (same, rest) = take_all-dropped ids vs h free v s in (same, (dropped ids free, rest))

-- An array passed in and taken out again comes back equal, whatever the values are, and the table
-- is well-formed again.
take_all-add_all :
    (vs : List JsValue) (h : Heap) (free : List ℕ)
    → IsHeap h free
    → (ids : List ℕ) × (g : Heap) × (add_all vs h ≡ some (ids, g))
      × ((take_all ids g).0 ≡ vs)
      × ((free' : List ℕ) × IsHeap (take_all ids g).1 free')
take_all-add_all vs h free v =
    let (ids, free', g, p, a) = add_all-IsAllAdded vs h free v in
    let (same, rest) = take_all-Holds ids vs g free' a.heap a.holds in (ids, g, p, same, rest)
