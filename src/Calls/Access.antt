-- ===== src/Calls/Access.antt =====
-- Words, doubles, texts and arrays of values across the wasm boundary of rust/assets/hep-viewer.js, as
-- steps of a call.
use ggsql_duckdb.Prelude.{
  ℕ, zero, suc, ◌+◌, ◌*◌, ◌/◌, ◌%◌, ◌&&◌, Option, none, some, List, [], ◌∷◌, leb, length,
  if◌then◌else◌,
}
use ggsql_duckdb.Boot.Init.{Bytes, Text, Buffer, Globals}
use ggsql_duckdb.Boot.Memory.{
  Memory, same_buffer, overwrite, subarray, get_data_view, get_string, pass_array8,
}
use ggsql_duckdb.Boot.Text.{pass_string}
use ggsql_duckdb.Glue.Heap.{JsValue, undefined, Heap, add_heap_object, take_object}
use ggsql_duckdb.Calls.Machine.{
  ℤ, pos, negsuc, to_int32, to_uint32, Machine, World, Outcome, returned, thrown, Call, Exports,
  Browser, pure, ◌>>=◌, ◌>>◌, modify, gets, or_throw,
}

-- The four bytes of a 32-bit number, lowest first, and the number that starts at an index.
abbrev pub word_bytes : ℕ → Bytes
word_bytes v = (v % 256) ∷ (v / 256 % 256) ∷ (v / 65536 % 256) ∷ (v / 16777216 % 256) ∷ []

abbrev pub first_word : Bytes → Option ℕ
first_word (a ∷ b ∷ c ∷ d ∷ bs) = some (a + 256 * b + 65536 * c + 16777216 * d)
first_word _ = none

unfoldable pub word_at : ℕ → Bytes → Option ℕ
word_at at [] = none
word_at zero (b ∷ bs) = first_word (b ∷ bs)
word_at (suc at) (b ∷ bs) = word_at at bs

-- A read through a view of a buffer that is not the memory's any more is an error, as is one past
-- the end.
abbrev pub uint32_through : Buffer → ℕ → Machine → Option ℕ
uint32_through view at m =
    if same_buffer view m.memory.buffer then word_at at m.memory.content else none

abbrev pub set_uint32_through : Buffer → ℕ → ℕ → Machine → Option (Unit {0} × Machine)
set_uint32_through view at v m =
    if same_buffer view m.memory.buffer && leb (at + 4) (length m.memory.content)
    then some (
      tt,
      record m {
        memory = record m.memory { content = overwrite at (word_bytes v) m.memory.content };
      },
    )
    else none

-- A step that may fail with an error. What a failed step has changed before its error is not kept.
abbrev pub attempted : {A : Type 0} → JsValue → World → Option (A × Machine) → Outcome A × World
attempted e w none = (thrown e, w)
attempted e w (some (a, m)) = (returned a, record w { machine = m })

abbrev pub attempt : {A : Type 0} → JsValue → (Machine → Option (A × Machine)) → Call A
attempt e f w = attempted e w (f w.machine)

-- `addHeapObject`. That its `none` does not occur is shown in Glue/Adding.
abbrev pub added : Option (ℕ × Heap) → Machine → Option (ℕ × Machine)
added none m = none
added (some (idx, h)) m = some (idx, record m { heap = h })

-- `getObject` and `takeObject` at a signed index: the array has no negative entries, and below 1028
-- nothing is dropped.
abbrev pub take_at : ℤ → Heap → JsValue × Heap
take_at (pos idx) h = take_object idx h
take_at (negsuc n) h = (undefined, h)

-- What `pass_array8` and `pass_string` leave.
abbrev pub passed : ℕ × (Memory × Globals ℕ ℕ) → Machine → ℕ × Machine
passed (ptr, (memory, globals)) m = (ptr, record m { memory = memory; globals = globals })

abbrev pub passed_array : Option (ℕ × (Memory × Globals ℕ ℕ)) → Machine → Option (ℕ × Machine)
passed_array none m = none
passed_array (some r) m = some (passed r m)

-- The size of a text or an array. The wasm side makes none of 2 ^ 31 bytes, so the word is not
-- negative. With a negative one the loop over an array has no round, as here; that `decodeText` would
-- lower its count by it, and what it would cut out of the memory, is not modelled.
abbrev pub as_length : ℤ → ℕ
as_length (pos n) = n
as_length (negsuc n) = 0

module _ (browser : Browser) where
  open browser use {has_detached, other_length, decode, range_error, type_error, encoder}

  -- `getDataViewMemory0()`
  abbrev pub data_view_memory : Call Buffer
  data_view_memory = modify λ m.
      let (view, g) = get_data_view has_detached m.memory m.globals in
      (view, record m { globals = g })

  -- `view.getUint32(at, true)` and `view.setUint32(at, v, true)`
  abbrev pub get_uint32 : Buffer → ℕ → Call ℕ
  get_uint32 view at w = or_throw (uint32_through view at w.machine) range_error w

  abbrev pub set_uint32 : Buffer → ℕ → ℕ → Call (Unit {0})
  set_uint32 view at v = attempt range_error (set_uint32_through view at v)

  -- `getDataViewMemory0().getInt32(at, true)` and `….getFloat64(at, true)`
  unfoldable pub get_int32 : ℕ → Call ℤ
  get_int32 at = do view ← data_view_memory; v ← get_uint32 view at; pure (to_int32 v)

  unfoldable pub get_float64 : ℕ → Call Bytes
  get_float64 at = do
    view ← data_view_memory
    v ← get_uint32 view (at + 4)
    gets λ m. subarray at 8 m.memory.content

  unfoldable pub add_object : JsValue → Call ℕ
  add_object obj = attempt type_error λ m. added (add_heap_object obj m.heap) m

  unfoldable pub take_value : ℤ → Call JsValue
  take_value idx = modify λ m. let (v, h) = take_at idx m.heap in (v, record m { heap = h })

  -- The loop of `getArrayJsValueFromWasm0`, from an index on.
  unfoldable pub take_words : Buffer → ℕ → ℕ → Call (List JsValue)
  take_words view at zero = pure []
  take_words view at (suc n) = do
    idx ← get_uint32 view at
    v ← take_value (pos idx)
    vs ← take_words view (at + 4) n
    pure (v ∷ vs)

  unfoldable pub get_array_js_value : ℤ → ℤ → Call (List JsValue)
  get_array_js_value ptr len = do
    view ← data_view_memory
    take_words view (to_uint32 ptr) (as_length len)

  -- `getStringFromWasm0`: bytes that are no UTF-8 are an error of the decoder.
  unfoldable pub get_text : ℤ → ℤ → Call Text
  get_text ptr len = do
    bytes ← modify λ m.
        let (bytes, g) =
          get_string other_length (to_uint32 ptr) (as_length len) m.memory m.globals in
        (bytes, record m { globals = g })
    or_throw (decode bytes) type_error

  -- The loop of `passArrayJsValueToWasm0`.
  unfoldable pub add_words : Buffer → ℕ → List JsValue → Call (Unit {0})
  add_words view at [] = pure tt
  add_words view at (v ∷ vs) = do
    idx ← add_object v
    set_uint32 view at idx
    add_words view (at + 4) vs

  module _ (exports : Exports) where
    -- `WASM_VECTOR_LEN`
    abbrev pub wasm_vector_len : Call ℕ
    wasm_vector_len = gets λ m. m.globals.vector_len

    unfoldable pub pass_array8_to_wasm : Bytes → Call ℕ
    pass_array8_to_wasm arg = attempt type_error λ m.
        passed_array (pass_array8 (λ n. exports.malloc n 1) other_length arg m.memory m.globals) m

    unfoldable pub pass_string_to_wasm : Text → Call ℕ
    pass_string_to_wasm arg = modify λ m.
        passed
          (pass_string (λ n. exports.malloc n 1) exports.realloc encoder other_length arg m.memory
            m.globals)
          m

    unfoldable pub pass_array_js_value_to_wasm : List JsValue → Call ℕ
    pass_array_js_value_to_wasm array = do
      raw ← modify λ m.
          let (raw, memory) = exports.malloc (length array * 4) 4 m.memory in
          (raw, record m { memory = memory })
      view ← data_view_memory
      add_words view (raw % 4294967296) array
      modify λ m.
          (raw % 4294967296, record m { globals = record m.globals { vector_len = length array } })
