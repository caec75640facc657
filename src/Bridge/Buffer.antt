-- ===== src/Bridge/Buffer.antt =====
-- `ggsql_byte_buffer_t`, `WriteError` and `CppFreeBuffer` of src/ggsql_bridge.cpp, on the heap of the
-- C++ side.
use ggsql_duckdb.Prelude.{
  ℕ, Bool, true, false, Option, none, some, List, [], ◌∷◌, ◌++◌, length, get_elem?, set,
}

abbrev pub Text : Type 0
Text = List ℕ

-- `ptr` is `none` if it is null.
pub record ByteBuffer : Type 0 where
  pub ptr : Option ℕ
  pub len : ℕ
  pub cap : ℕ

abbrev pub null_buffer : ByteBuffer
null_buffer = record { ptr = none; len = 0; cap = 0 }

-- Every block that `malloc` has given, by its number, with its content until it is freed.
abbrev pub Blocks : Type 0
Blocks = List (Option Text)

-- `std::malloc` fails if the system says so.
abbrev pub malloc : Bool → Text → Blocks → Option ℕ × Blocks
malloc true content blocks = (none, blocks)
malloc false content blocks = (some (length blocks), blocks ++ (some content ∷ []))

-- `std::free`: `none` is a free of a block that is not out.
abbrev pub free : ℕ → Blocks → Option Blocks
free ptr blocks = elim (get_elem? blocks ptr) [
  | some (some content) ↦ some (set blocks ptr none)
  | _ ↦ none
]

abbrev pub filled : Option ℕ → Text → ByteBuffer
filled none msg = null_buffer
filled (some ptr) msg = record { ptr = some ptr; len = length msg; cap = length msg }

-- The error goes nowhere if the caller has passed no buffer.
unfoldable pub write_error : Bool → Option ByteBuffer → Text → Blocks → Option ByteBuffer × Blocks
write_error fails none msg blocks = (none, blocks)
write_error fails (some out_err) [] blocks = (some null_buffer, blocks)
write_error fails (some out_err) (c ∷ msg) blocks =
    let (ptr, after) = malloc fails (c ∷ msg) blocks in (some (filled ptr (c ∷ msg)), after)

-- `none` is the free of a block that is not out.
abbrev pub freed : Option Blocks → Option (ByteBuffer × Blocks)
freed none = none
freed (some blocks) = some (null_buffer, blocks)

unfoldable pub cpp_free_buffer : ByteBuffer → Blocks → Option (ByteBuffer × Blocks)
cpp_free_buffer buf blocks = elim buf.ptr [
  | none ↦ some (buf, blocks)
  | some ptr ↦ freed (free ptr blocks)
]
