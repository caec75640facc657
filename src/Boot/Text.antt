-- ===== src/Boot/Text.antt =====
-- `passStringToWasm0` of rust/assets/hep-viewer.js: a text is passed as UTF-8, ASCII first.
use ggsql_duckdb.Prelude.{
  ℕ, suc, ◌+◌, ◌*◌, ◌%◌, ◌≤◌, ◌≡◌, [], ◌∷◌, ◌==◌, leb, length, set, if◌then◌else◌,
}
use ggsql_duckdb.Boot.Init.{Bytes, Text, Globals}
use ggsql_duckdb.Boot.Memory.{Memory, overwrite, subarray, get_uint8_array}

-- `TextEncoder`, on texts as UTF-16 code units: an ASCII unit is its own byte, and a unit takes
-- three bytes at most. `encodeInto` stops where the array is full.
pub record Encoder : Type 0 where
  pub encode : Text → Bytes
  pub encode_into : Text → ℕ → Bytes
  pub encode-nil : encode [] ≡ []
  pub encode-ascii : (c : ℕ) (s : Text) → c ≤ 127 → encode (c ∷ s) ≡ c ∷ encode s
  pub length-encode : (s : Text) → length (encode s) ≤ length s * 3
  pub encode_into-fits : (s : Text) (n : ℕ) → length (encode s) ≤ n → encode_into s n ≡ encode s

-- What the loop over the ASCII units leaves: `offset`, the rest of the text, and the memory.
pub record Copied : Type 0 where
  pub offset : ℕ
  pub rest : Text
  pub content : Bytes

-- The loop `for (; offset < len; offset++)`.
unfoldable pub copy_ascii : ℕ → ℕ → Text → Bytes → Copied
copy_ascii ptr offset [] content = record { offset = offset; rest = []; content = content }
copy_ascii ptr offset (code ∷ arg) content =
    let next = copy_ascii ptr (suc offset) arg (set content (ptr + offset) code) in
    if leb code 127 then next else record { offset = offset; rest = code ∷ arg; content = content }

module _ {Module Instance : Type 0} where
  -- The views through which the text is written are of the memory as it is (Boot/Views), so the
  -- writes are written to the memory.

  -- From the end of the loop on: the block grows to the most that the rest may take, and shrinks
  -- to what it took. The allocator is the wasm side's.
  abbrev pub pass_rest :
      (ℕ → ℕ → ℕ → Memory → ℕ × Memory)
      → Encoder
      → ℕ
      → ℕ
      → ℕ
      → Text
      → ℕ
      → Memory
      → Globals Module Instance
      → ℕ × (Memory × Globals Module Instance)
  pass_rest realloc encoder other_length len offset rest ptr m s =
      let room = offset + length rest * 3 in
      let (raw, grown) = realloc ptr len room m in
      let at = raw % 4294967296 in
      let bytes =
        encoder.encode_into rest
          (length (subarray (at + offset) (length rest * 3) grown.content)) in
      let written : Memory = record grown {
        content = overwrite (at + offset) bytes grown.content;
      } in
      let (last, shrunk) = realloc at room (offset + length bytes) written in
      (
        last % 4294967296,
        (
          shrunk,
          record (get_uint8_array other_length grown s).1 { vector_len = offset + length bytes },
        ),
      )

  unfoldable pub pass_string :
      (ℕ → Memory → ℕ × Memory)
      → (ℕ → ℕ → ℕ → Memory → ℕ × Memory)
      → Encoder
      → ℕ
      → Text
      → Memory
      → Globals Module Instance
      → ℕ × (Memory × Globals Module Instance)
  pass_string malloc realloc encoder other_length arg m s =
      let (raw, grown) = malloc (length arg) m in
      let ptr = raw % 4294967296 in
      let t = (get_uint8_array other_length grown s).1 in
      let copied = copy_ascii ptr 0 arg grown.content in
      let copy : Memory = record grown { content = copied.content } in
      if copied.offset == length arg
      then (ptr, (copy, record t { vector_len = copied.offset }))
      else pass_rest realloc encoder other_length (length arg) copied.offset copied.rest ptr copy t
