-- ===== src/Boot/Encoding.antt =====
-- Texts on browsers without `encodeInto`, and `passStringToWasm0` without `realloc`
-- (rust/assets/hep-viewer.js).
use ggsql_duckdb.Prelude.{
  ℕ, ◌*◌, ◌%◌, ◌≤◌, ◌≡◌, refl, ◌∙◌, sym, ◌&&◌, Option, none, some, [], ◌∷◌, leb, length,
  if◌then◌else◌, arith,
}
use ggsql_duckdb.Boot.Init.{Bytes, Text, Globals}
use ggsql_duckdb.Boot.Memory.{Memory, same_buffer, overwrite, subarray, get_uint8_array}
use ggsql_duckdb.Boot.Views.{
  IsCurrent, same_buffer_eq, renew_uint8_array-buffer, subarray-overwrite,
}
use ggsql_duckdb.Boot.Text.{Encoder, pass_string}
use ggsql_duckdb.Boot.Arrives.{Fits, Reallocates, length-subarray, subarray-pass_string}

-- A `TextEncoder` that has `encode` only.
pub record OldEncoder : Type 0 where
  pub encode : Text → Bytes
  pub encode-nil : encode [] ≡ []
  pub encode-ascii : (c : ℕ) (s : Text) → c ≤ 127 → encode (c ∷ s) ≡ c ∷ encode s
  pub length-encode : (s : Text) → length (encode s) ≤ length s * 3

-- What `encodeInto` gives, with the bytes that it sets at the start of the view.
pub record Encoded : Type 0 where
  pub read : ℕ
  pub written : ℕ
  pub bytes : Bytes

-- The `encodeInto` that the bundle defines: `none` is the error of `set` on a view that is too short.
unfoldable pub fallback_encode_into : OldEncoder → Text → ℕ → Option Encoded
fallback_encode_into old arg view_length =
    let buf = old.encode arg in
    if leb (length buf) view_length
    then some (record { read = length arg; written = length buf; bytes = buf })
    else none

abbrev pub bytes_set : Option Encoded → Bytes
bytes_set none = []
bytes_set (some encoded) = encoded.bytes

pub fallback-fits :
    (old : OldEncoder) (s : Text) (n : ℕ)
    → length (old.encode s) ≤ n
    → bytes_set (fallback_encode_into old s n) ≡ old.encode s
unfolding fallback_encode_into
fallback-fits old s n h = ground arith

-- `cachedTextEncoder` afterwards
abbrev pub with_encode_into : OldEncoder → Encoder
with_encode_into old = record {
  encode = old.encode;
  encode_into = λ s n. bytes_set (fallback_encode_into old s n);
  encode-nil = old.encode-nil;
  encode-ascii = old.encode-ascii;
  length-encode = old.length-encode;
  encode_into-fits = fallback-fits old;
}

module _ {Module Instance : Type 0} where
  -- `passStringToWasm0` where `realloc` is `undefined`; `none` is the error of `set`.
  unfoldable pub pass_whole_string :
      (ℕ → Memory → ℕ × Memory)
      → (Text → Bytes)
      → ℕ
      → Text
      → Memory
      → Globals Module Instance
      → Option (ℕ × (Memory × Globals Module Instance))
  pass_whole_string malloc encode other_length arg m s =
      let buf = encode arg in
      let (raw, grown) = malloc (length buf) m in
      let ptr = raw % 4294967296 in
      let (view, t) = get_uint8_array other_length grown s in
      if same_buffer view grown.buffer
        && leb (length buf) (length (subarray ptr (length buf) grown.content))
      then some (
        ptr,
        (
          record grown { content = overwrite ptr buf grown.content },
          record t { vector_len = length buf },
        ),
      )
      else none

  pass_whole_string-some :
      (malloc : ℕ → Memory → ℕ × Memory) (encode : Text → Bytes) (other_length : ℕ) (arg : Text)
      (m : Memory) (s : Globals Module Instance)
      → IsCurrent (malloc (length (encode arg)) m).1 s
      → let grown = (malloc (length (encode arg)) m).1 in
        let ptr = (malloc (length (encode arg)) m).0 % 4294967296 in
        Fits ptr (length (encode arg)) grown
        → pass_whole_string malloc encode other_length arg m s
          ≡ some (
            ptr,
            (
              record grown { content = overwrite ptr (encode arg) grown.content },
              record s { cached_uint8_array = some grown.buffer; vector_len = length (encode arg) },
            ),
          )
  unfolding pass_whole_string get_uint8_array
  pass_whole_string-some malloc encode other_length arg m s v h =
      let grown = (malloc (length (encode arg)) m).1 in
      let ptr = (malloc (length (encode arg)) m).0 % 4294967296 in
      let u = renew_uint8_array-buffer other_length grown s.cached_uint8_array v.uint8_array in
      let room = length-subarray ptr (length (encode arg)) grown.content h in
      rw (u, (same_buffer_eq grown.buffer grown.buffer).1 refl, room) (ground arith)

  -- With any encoder, the `encodeInto` of which is the browser's or the one that the bundle defines,
  -- what lies at the pointer that `passStringToWasm0` returns is the same with and without `realloc`,
  -- where the views are of the memory in use, the allocator gives blocks in it, and `realloc` keeps
  -- their content. The `encodeInto` that the bundle defines for an older browser is such a one: in
  -- the room that `passStringToWasm0` makes, three bytes for each code unit, it does not throw and
  -- reads the whole text.
  pub pass_whole_string-pass_string :
      (malloc : ℕ → Memory → ℕ × Memory) (realloc : ℕ → ℕ → ℕ → Memory → ℕ × Memory)
      (encoder : Encoder) (old : OldEncoder) (other_length : ℕ) (arg rest : Text) (room : ℕ)
      (m : Memory) (s : Globals Module Instance)
      → length rest * 3 ≤ room
      → IsCurrent (malloc (length (encoder.encode arg)) m).1 s
      → Fits ((malloc (length arg) m).0 % 4294967296) (length arg) (malloc (length arg) m).1
      → Fits
          ((malloc (length (encoder.encode arg)) m).0 % 4294967296)
          (length (encoder.encode arg))
          (malloc (length (encoder.encode arg)) m).1
      → Reallocates realloc
      → let r = pass_string malloc realloc encoder other_length arg m s in
        (fallback_encode_into old rest room
          ≡ some (record {
            read = length rest;
            written = length (old.encode rest);
            bytes = old.encode rest;
          }))
        × ((at : ℕ) × (after : Memory) × (t : Globals Module Instance) × (pass_whole_string malloc
                encoder.encode other_length arg m s
              ≡ some (at, (after, t)))
            × (subarray at t.vector_len after.content
                ≡ subarray r.0 r.1.1.vector_len r.1.0.content))
  unfolding fallback_encode_into
  pass_whole_string-pass_string malloc realloc encoder old other_length arg rest room m s large v h
        k r =
      let grown = (malloc (length (encoder.encode arg)) m).1 in
      let ptr = (malloc (length (encoder.encode arg)) m).0 % 4294967296 in
      (
        ground (arith, old.length-encode rest),
        (
          ptr,
          _,
          _,
          pass_whole_string-some malloc encoder.encode other_length arg m s v k,
          subarray-overwrite ptr (encoder.encode arg) grown.content k
              ∙ sym (subarray-pass_string malloc realloc encoder other_length arg m s h r),
        ),
      )
