-- ===== src/Boot/Memory.antt =====
-- The cached views of the wasm memory in rust/assets/hep-viewer.js, and bytes passed through them.
use ggsql_duckdb.Prelude.{
  ℕ, zero, suc, ◌+◌, ◌%◌, Bool, not, ◌&&◌, Option, none, some, List, [], ◌∷◌, ◌==◌, leb, length,
  if◌then◌else◌,
}
use ggsql_duckdb.Boot.Init.{Bytes, Buffer, Globals}

-- A memory of the wasm side: the buffer it has now, and its bytes.
pub record Memory : Type 0 where
  pub buffer : Buffer
  pub content : Bytes

-- The old buffers of a memory are detached. A buffer of another memory is not.
abbrev pub is_detached : Memory → Buffer → Bool
is_detached m b = b.memory == m.buffer.memory && not (b.generation == m.buffer.generation)

abbrev pub same_buffer : Buffer → Buffer → Bool
same_buffer a b = a.memory == b.memory && a.generation == b.generation

-- `byteLength` of a view of the whole buffer; for a buffer of another memory a length of its own
abbrev pub byte_length : ℕ → Memory → Buffer → ℕ
byte_length other_length m b =
    if same_buffer b m.buffer
    then length m.content
    else (if is_detached m b then 0 else other_length)

-- Whether `ArrayBuffer` has the property `detached`.
abbrev pub data_view_is_stale : Bool → Memory → Buffer → Bool
data_view_is_stale has_detached m b =
    if has_detached then is_detached m b else not (same_buffer b m.buffer)

abbrev pub overwrite : ℕ → Bytes → Bytes → Bytes
overwrite at [] bs = bs
overwrite at arg [] = []
overwrite zero (a ∷ arg) (b ∷ bs) = a ∷ overwrite zero arg bs
overwrite (suc at) (a ∷ arg) (b ∷ bs) = b ∷ overwrite at (a ∷ arg) bs

-- `subarray(from, from + n)`
abbrev pub subarray : ℕ → ℕ → Bytes → Bytes
subarray from n [] = []
subarray zero zero (b ∷ bs) = []
subarray zero (suc n) (b ∷ bs) = b ∷ subarray zero n bs
subarray (suc from) n (b ∷ bs) = subarray from n bs

abbrev pub max_safari_decode_bytes : ℕ
max_safari_decode_bytes = 2146435072

-- The decoder in use gets a text.
abbrev pub give_decoder : ℕ → List ℕ → List ℕ
give_decoder len [] = []
give_decoder len (given ∷ others) = (given + len) ∷ others

-- The view that is cached after `getDataViewMemory0`, from the one cached before.
abbrev pub renew_data_view : Bool → Memory → Option Buffer → Buffer
renew_data_view has_detached m none = m.buffer
renew_data_view has_detached m (some b) =
    if data_view_is_stale has_detached m b then m.buffer else b

-- The same for `getUint8ArrayMemory0`, which renews a view with no bytes.
abbrev pub renew_uint8_array : ℕ → Memory → Option Buffer → Buffer
renew_uint8_array other_length m none = m.buffer
renew_uint8_array other_length m (some b) =
    if byte_length other_length m b == 0 then m.buffer else b

module _ {Module Instance : Type 0} where
  -- `decodeText` up to its last line: `numBytesDecoded` with one more text, and at the limit a new
  -- decoder, for which the count starts again with that text.
  abbrev pub count_decoded : ℕ → Globals Module Instance → Globals Module Instance
  count_decoded len s =
      let full = leb max_safari_decode_bytes (s.bytes_decoded + len) in
      record s {
        bytes_decoded = if full then len else s.bytes_decoded + len;
        decoders = if full then 0 ∷ s.decoders else s.decoders;
      }

  unfoldable pub get_data_view :
      Bool → Memory → Globals Module Instance → Buffer × Globals Module Instance
  get_data_view has_detached m s =
      let view = renew_data_view has_detached m s.cached_data_view in
      (view, record s { cached_data_view = some view })

  unfoldable pub get_uint8_array :
      ℕ → Memory → Globals Module Instance → Buffer × Globals Module Instance
  get_uint8_array other_length m s =
      let view = renew_uint8_array other_length m s.cached_uint8_array in
      (view, record s { cached_uint8_array = some view })

  -- `passArray8ToWasm0`: `none` is the error of `set`, past the end or through a view of a buffer
  -- that is not the memory's. `malloc` is the wasm side's, and may grow the memory.
  unfoldable pub pass_array8 :
      (ℕ → Memory → ℕ × Memory)
      → ℕ
      → Bytes
      → Memory
      → Globals Module Instance
      → Option (ℕ × (Memory × Globals Module Instance))
  pass_array8 malloc other_length arg m s =
      let (raw, grown) = malloc (length arg) m in
      let ptr = raw % 4294967296 in
      let (view, t) = get_uint8_array other_length grown s in
      if same_buffer view grown.buffer && leb (ptr + length arg) (length grown.content)
      then some (
        ptr,
        (
          record grown { content = overwrite ptr arg grown.content },
          record t { vector_len = length arg },
        ),
      )
      else none

  -- `decodeText`: the bytes that go to the decoder. The bytes of a buffer that is not the memory's
  -- are not modelled; no view is of one while `IsCurrent` of Boot/Views holds.
  unfoldable pub decode_text :
      ℕ → ℕ → ℕ → Memory → Globals Module Instance → Bytes × Globals Module Instance
  decode_text other_length ptr len m s =
      let (view, t) = get_uint8_array other_length m (count_decoded len s) in
      (
        if same_buffer view m.buffer then subarray ptr len m.content else [],
        record t { decoders = give_decoder len t.decoders },
      )

  -- `getStringFromWasm0`, before the decoder
  unfoldable pub get_string :
      ℕ → ℕ → ℕ → Memory → Globals Module Instance → Bytes × Globals Module Instance
  get_string other_length ptr len m s = decode_text other_length (ptr % 4294967296) len m s
