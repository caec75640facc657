-- ===== src/Glue/Adding.antt =====
-- `addHeapObject` and `takeObject` of rust/assets/hep-viewer.js: what is stored comes back, and no
-- value in use is overwritten.
use ggsql_duckdb.Prelude.{
  ℕ, zero, suc, ◌≤◌, ◌<◌, ◌≡◌, refl, sym, ◌∙◌, ◌≢◌, some, List, [], ◌∷◌, ◌++◌, length, arith,
  length-append,
}
use mathlib.Core.Path.{subst₂}
use ggsql_duckdb.Glue.Heap.{
  JsValue, number, Heap, read, write, reserved, grow, add_heap_object, get_object,
}
use ggsql_duckdb.Glue.FreeList.{
  NotIn, Distinct, Chain, IsHeap, IsHandle, length-write, read-write_self, read-write_ne,
  Chain-write, rest_of,
}

read-append_length : (vs : List JsValue) (x : JsValue) → read (vs ++ (x ∷ [])) (length vs) ≡ x
read-append_length [] x = refl
read-append_length (v ∷ vs) x = read-append_length vs x

read-append_lt : (vs ws : List JsValue) (j : ℕ) → j < length vs → read (vs ++ ws) j ≡ read vs j
read-append_lt [] ws j h = elim h [ ]
read-append_lt (v ∷ vs) ws zero h = refl
read-append_lt (v ∷ vs) ws (suc j) h = read-append_lt vs ws j (omega arith)

length-snoc : (vs : List JsValue) (x : JsValue) → length (vs ++ (x ∷ [])) ≡ suc (length vs)
length-snoc vs x = omega (arith, length-append vs (x ∷ []))

grow-full :
    (h : Heap)
    → h.heap_next ≡ length h.slots
    → grow h ≡ h.slots ++ (number (suc (length h.slots)) ∷ [])
unfolding grow
grow-full h e = ground arith

grow-room : (h : Heap) → h.heap_next < length h.slots → grow h ≡ h.slots
unfolding grow
grow-room h l = ground arith

add_heap_object-eq_some :
    (obj : JsValue) (h : Heap) (m : ℕ)
    → read (grow h) h.heap_next ≡ number m
    → add_heap_object obj h
      ≡ some (h.heap_next, record { slots = write (grow h) h.heap_next obj; heap_next = m })
unfolding add_heap_object
add_heap_object-eq_some obj h m e = ground arith

-- The array `vs` that an addition writes to, at its entry `n` that holds `m`: it has room there,
-- and all the values of the array `old` of before.
record IsGrown (old : List JsValue) (free : List ℕ) (vs : List JsValue) (n m : ℕ) : Type 0 where
  entry : read vs n ≡ number m
  room : n < length vs
  above : reserved ≤ n
  chain : Chain vs m (rest_of free)
  not_free : NotIn n (rest_of free)
  distinct : Distinct (rest_of free)
  longer : length old ≤ length vs
  kept : (j : ℕ) → j < length old → read vs j ≡ read old j
  other : (j : ℕ) → j < length old → NotIn j free → j ≢ n
  still_used : (j : ℕ) → NotIn j free → NotIn j (rest_of free)

IsGrown-nil :
    (vs : List JsValue)
    → reserved ≤ length vs
    → IsGrown vs [] (vs ++ (number (suc (length vs)) ∷ [])) (length vs) (suc (length vs))
IsGrown-nil vs r =
    let longer = length-snoc vs (number (suc (length vs))) in
    record {
      entry = read-append_length vs _;
      room = omega arith;
      above = r;
      chain = sym longer;
      not_free = tt;
      distinct = tt;
      longer = omega arith;
      kept = λ j l. read-append_lt vs _ j l;
      other = λ j l n. omega arith;
      still_used = λ j n. n;
    }

IsGrown-cons :
    (vs : List JsValue) (i : ℕ) (is : List ℕ)
    → Chain vs i (i ∷ is)
    → Distinct (i ∷ is)
    → (m : ℕ) × IsGrown vs (i ∷ is) vs i m
IsGrown-cons vs i is (e, r, w, (after, q, c)) (n, d) = (
  after,
  record {
    entry = q;
    room = w;
    above = r;
    chain = c;
    not_free = n;
    distinct = d;
    longer = omega arith;
    kept = λ j l. refl;
    other = λ j l k. k.0;
    still_used = λ j k. k.1;
  },
)

grown :
    (h : Heap) (free : List ℕ)
    → IsHeap h free
    → (m : ℕ) × IsGrown h.slots free (grow h) h.heap_next m
grown h [] v = (
  suc (length h.slots),
  subst₂ (λ vs n. IsGrown h.slots [] vs n (suc (length h.slots))) (sym (grow-full h v.chain))
      (sym v.chain) (IsGrown-nil h.slots v.has_reserved),
)
grown h (i ∷ is) v =
    let (e, r, w, rest) = v.chain in
    let (m, g) = IsGrown-cons h.slots i is (refl, r, w, rest) v.distinct in
    (
      m,
      subst₂ (λ vs n. IsGrown h.slots (i ∷ is) vs n m) (sym (grow-room h (omega arith))) (sym e) g,
    )

-- What an addition that gave index `i` and the heap `g` has done.
pub record IsAdded (h : Heap) (free : List ℕ) (obj : JsValue) (i : ℕ) (g : Heap) : Type 0 where
  pub heap : IsHeap g (rest_of free)
  pub handle : IsHandle g (rest_of free) i
  pub stored : get_object i g ≡ obj
  pub fresh : (j : ℕ) → IsHandle h free j → j ≢ i
  pub unchanged : (j : ℕ) → IsHandle h free j → get_object j g ≡ get_object j h
  pub still_handle : (j : ℕ) → IsHandle h free j → IsHandle g (rest_of free) j

-- On a well-formed table the addition of any value succeeds. It gives an index that no value in
-- use has and that holds the new value; every value in use stays where it is.
pub add_heap_object-IsAdded :
    (obj : JsValue) (h : Heap) (free : List ℕ)
    → IsHeap h free
    → (i : ℕ) × (g : Heap) × (add_heap_object obj h ≡ some (i, g)) × IsAdded h free obj i g
unfolding get_object
add_heap_object-IsAdded obj h free v =
    let (m, k) = grown h free v in
    let n = h.heap_next in
    let len = length-write (grow h) n obj k.room in
    (
      n,
      record { slots = write (grow h) n obj; heap_next = m },
      add_heap_object-eq_some obj h m k.entry,
      record {
        heap = record {
          chain = Chain-write (grow h) n obj m (rest_of free) k.room k.not_free k.chain;
          distinct = k.distinct;
          has_reserved = omega (arith, k.longer, v.has_reserved);
        };
        handle = record {
          not_reserved = k.above;
          within = omega (arith, k.room);
          not_free = k.not_free;
        };
        stored = read-write_self (grow h) n obj;
        fresh = λ j l. k.other j l.within l.not_free;
        unchanged = λ j l.
            read-write_ne (grow h) n j obj (λ e. k.other j l.within l.not_free (sym e))
            ∙ k.kept j l.within;
        still_handle = λ j l. record {
          not_reserved = l.not_reserved;
          within = omega (arith, k.longer, l.within);
          not_free = k.still_used j l.not_free;
        };
      },
    )
