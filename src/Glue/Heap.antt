-- ===== src/Glue/Heap.antt =====
-- `heap` and `heap_next` of rust/assets/hep-viewer.js: an array of values whose free entries form
-- a linked list.
use ggsql_duckdb.Prelude.{
  ℕ, zero, suc, Bool, true, false, Option, none, some, List, [], ◌∷◌, ◌++◌, ◌==◌, ltb, length,
  if◌then◌else◌,
}

-- The values of JavaScript; `object` is any value of another kind.
pub data JsValue : Type 0 where
  undefined null : JsValue
  boolean : Bool → JsValue
  number : ℕ → JsValue
  object : ℕ → JsValue

pub record Heap : Type 0 where
  pub slots : List JsValue
  pub heap_next : ℕ

abbrev pub replicate : ℕ → JsValue → List JsValue
replicate zero v = []
replicate (suc n) v = v ∷ replicate n v

-- `array[i]`: `undefined` past the end
abbrev pub read : List JsValue → ℕ → JsValue
read [] i = undefined
read (v ∷ vs) zero = v
read (v ∷ vs) (suc i) = read vs i

-- `array[i] = v`: past the end the array grows
abbrev pub write : List JsValue → ℕ → JsValue → List JsValue
write [] zero v = v ∷ []
write [] (suc i) v = undefined ∷ write [] i v
write (x ∷ xs) zero v = v ∷ xs
write (x ∷ xs) (suc i) v = x ∷ write xs i v

-- The first index that `drop_object` gives back: below lie 1024 spare entries and four constants.
abbrev pub reserved : ℕ
reserved = 1028

unfoldable pub initial_heap : Heap
initial_heap = record {
  slots = replicate 1024 undefined ++ (undefined ∷ null ∷ boolean true ∷ boolean false ∷ []);
  heap_next = 1028;
}

-- `if (heap_next === heap.length) heap.push(heap.length + 1);`
unfoldable pub grow : Heap → List JsValue
grow h =
    if h.heap_next == length h.slots
    then h.slots ++ (number (suc (length h.slots)) ∷ [])
    else h.slots

-- `none`: the entry holds no number, so `heap_next` would be no index any more.
unfoldable pub add_heap_object : JsValue → Heap → Option (ℕ × Heap)
add_heap_object obj h = elim (read (grow h) h.heap_next) [
  | number next ↦
      some (h.heap_next, record { slots = write (grow h) h.heap_next obj; heap_next = next })
  | _ ↦ none
]

unfoldable pub get_object : ℕ → Heap → JsValue
get_object idx h = read h.slots idx

unfoldable pub drop_object : ℕ → Heap → Heap
drop_object idx h =
    if ltb idx reserved
    then h
    else record { slots = write h.slots idx (number h.heap_next); heap_next = idx }

unfoldable pub take_object : ℕ → Heap → JsValue × Heap
take_object idx h = (get_object idx h, drop_object idx h)

-- The loop of `passArrayJsValueToWasm0`: the index of each value, in order.
unfoldable pub add_all : List JsValue → Heap → Option (List ℕ × Heap)
add_all [] h = some ([], h)
add_all (v ∷ vs) h = elim (add_heap_object v h) [
  | none ↦ none
  | some (idx, g) ↦ elim (add_all vs g) [ none ↦ none | some (ids, k) ↦ some (idx ∷ ids, k) ]
]

-- The loop of `getArrayJsValueFromWasm0`: the value at each index, which it takes.
unfoldable pub take_all : List ℕ → Heap → List JsValue × Heap
take_all [] h = ([], h)
take_all (idx ∷ ids) h =
    let (v, g) = take_object idx h in let (vs, k) = take_all ids g in (v ∷ vs, k)
