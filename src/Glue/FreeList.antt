-- ===== src/Glue/FreeList.antt =====
-- The free list of the object table of rust/assets/hep-viewer.js, and what its operations keep.
use ggsql_duckdb.Prelude.{
  ℕ, zero, suc, ◌≤◌, ◌<◌, ◌≡◌, refl, sym, ap, ◌∙◌, ◌≢◌, false, List, [], ◌∷◌, ltb, length, arith,
}
use ggsql_duckdb.Glue.Heap.{JsValue, number, Heap, read, write, reserved, drop_object}

abbrev pub NotIn : ℕ → List ℕ → Type 0
NotIn i [] = Unit
NotIn i (j ∷ js) = (i ≢ j) × NotIn i js

abbrev pub Distinct : List ℕ → Type 0
Distinct [] = Unit
Distinct (j ∷ js) = NotIn j js × Distinct js

-- From `next` on the free entries are those of the list, in order, each holding the next one; the
-- last holds the length of the array.
abbrev pub Chain : List JsValue → ℕ → List ℕ → Type 0
Chain vs next [] = next ≡ length vs
Chain vs next (i ∷ is) =
    (next ≡ i)
    × (reserved ≤ i)
    × (i < length vs)
    × ((after : ℕ) × (read vs i ≡ number after) × Chain vs after is)

pub record IsHeap (h : Heap) (free : List ℕ) : Type 0 where
  pub chain : Chain h.slots h.heap_next free
  pub distinct : Distinct free
  pub has_reserved : reserved ≤ length h.slots

-- An index that was handed out and not yet dropped.
pub record IsHandle (h : Heap) (free : List ℕ) (i : ℕ) : Type 0 where
  pub not_reserved : reserved ≤ i
  pub within : i < length h.slots
  pub not_free : NotIn i free

pub length-write :
    (vs : List JsValue) (i : ℕ) (v : JsValue) → i < length vs → length (write vs i v) ≡ length vs
length-write [] i v h = elim h [ ]
length-write (x ∷ vs) zero v h = refl
length-write (x ∷ vs) (suc i) v h = ap suc (length-write vs i v (omega arith))

pub read-write_self : (vs : List JsValue) (i : ℕ) (v : JsValue) → read (write vs i v) i ≡ v
read-write_self [] zero v = refl
read-write_self [] (suc i) v = read-write_self [] i v
read-write_self (x ∷ vs) zero v = refl
read-write_self (x ∷ vs) (suc i) v = read-write_self vs i v

pub read-write_ne :
    (vs : List JsValue) (i j : ℕ) (v : JsValue) → i ≢ j → read (write vs i v) j ≡ read vs j
read-write_ne [] zero zero v n = absurd (n refl)
read-write_ne [] zero (suc j) v n = refl
read-write_ne [] (suc i) zero v n = refl
read-write_ne [] (suc i) (suc j) v n = read-write_ne [] i j v (λ e. n (ap suc e))
read-write_ne (x ∷ vs) zero zero v n = absurd (n refl)
read-write_ne (x ∷ vs) zero (suc j) v n = refl
read-write_ne (x ∷ vs) (suc i) zero v n = refl
read-write_ne (x ∷ vs) (suc i) (suc j) v n = read-write_ne vs i j v (λ e. n (ap suc e))

-- A write at an entry that is not free leaves the free list alone.
pub Chain-write :
    (vs : List JsValue) (i : ℕ) (v : JsValue) (next : ℕ) (free : List ℕ)
    → i < length vs
    → NotIn i free
    → Chain vs next free
    → Chain (write vs i v) next free
Chain-write vs i v next [] h n c = c ∙ sym (length-write vs i v h)
Chain-write vs i v next (j ∷ js) h (n, ns) (e, r, w, (after, q, c)) = (
  e,
  r,
  rw (length-write vs i v h) w,
  (after, read-write_ne vs i j v n ∙ q, Chain-write vs i v after js h ns c),
)

-- Dropping a handle makes it the first free entry, and touches no other.
pub drop_object-IsHeap :
    (h : Heap) (free : List ℕ) (i : ℕ)
    → IsHeap h free
    → IsHandle h free i
    → IsHeap (drop_object i h) (i ∷ free)
unfolding drop_object
drop_object-IsHeap h free i v k = rw (not_below i k.not_reserved) (record {
  chain = (
    refl,
    k.not_reserved,
    rw (length-write h.slots i (number h.heap_next) k.within) k.within,
    (
      h.heap_next,
      read-write_self h.slots i (number h.heap_next),
      Chain-write h.slots i (number h.heap_next) h.heap_next free k.within k.not_free v.chain,
    ),
  );
  distinct = (k.not_free, v.distinct);
  has_reserved = rw (length-write h.slots i (number h.heap_next) k.within) v.has_reserved;
})
  where
    not_below : (j : ℕ) → reserved ≤ j → ltb j reserved ≡ false
    not_below j r = ground arith

-- The indices that are free after an addition.
abbrev pub rest_of : List ℕ → List ℕ
rest_of [] = []
rest_of (i ∷ is) = is
