-- ===== src/Boot/Views.antt =====
-- The cached views of rust/assets/hep-viewer.js show the memory as it is, so that bytes passed
-- through them arrive.
use ggsql_duckdb.Prelude.{
  ℕ, zero, suc, ◌+◌, ◌%◌, ◌<◌, ◌≤◌, ◌≡◌, refl, ap, ap₂, ◌↔◌, ◌⊎◌, Bool, true, Option, none, some,
  [], ◌∷◌, length, get_elem?, arith,
}
use ggsql_duckdb.Boot.Init.{Bytes, Buffer, Globals, finalize_init}
use ggsql_duckdb.Boot.Memory.{
  Memory, same_buffer, overwrite, subarray, renew_data_view, renew_uint8_array, get_data_view,
  get_uint8_array, pass_array8, decode_text, get_string,
}

-- A cached view is of the memory that is in use, though maybe of an old buffer.
abbrev pub IsOf : Memory → Option Buffer → Type 0
IsOf m none = Unit
IsOf m (some b) = b.memory ≡ m.buffer.memory

buffer_ext : (a b : Buffer) → a.memory ≡ b.memory → a.generation ≡ b.generation → a ≡ b
buffer_ext a b e f = ap₂ (λ m g. record { memory = m; generation = g }) e f

pub same_buffer_eq : (a b : Buffer) → (same_buffer a b ≡ true) ↔ (a ≡ b)
same_buffer_eq a b = ground arith

pub renew_data_view-buffer :
    (has_detached : Bool) (m : Memory) (o : Option Buffer)
    → IsOf m o
    → renew_data_view has_detached m o ≡ m.buffer
renew_data_view-buffer has_detached m none v = refl
renew_data_view-buffer has_detached m (some b) v = grind (arith, buffer_ext b m.buffer v)

pub renew_uint8_array-buffer :
    (other_length : ℕ) (m : Memory) (o : Option Buffer)
    → IsOf m o
    → renew_uint8_array other_length m o ≡ m.buffer
renew_uint8_array-buffer other_length m none v = refl
renew_uint8_array-buffer other_length m (some b) v = grind (arith, buffer_ext b m.buffer v)

pub length-overwrite : (at : ℕ) (arg bs : Bytes) → length (overwrite at arg bs) ≡ length bs
length-overwrite at [] bs = refl
length-overwrite at (a ∷ arg) [] = refl
length-overwrite zero (a ∷ arg) (b ∷ bs) = ap suc (length-overwrite zero arg bs)
length-overwrite (suc at) (a ∷ arg) (b ∷ bs) = ap suc (length-overwrite at (a ∷ arg) bs)

pub subarray_zero : (at : ℕ) (bs : Bytes) → subarray at 0 bs ≡ []
subarray_zero zero [] = refl
subarray_zero (suc at) [] = refl
subarray_zero zero (b ∷ bs) = refl
subarray_zero (suc at) (b ∷ bs) = subarray_zero at bs

pub subarray-overwrite :
    (at : ℕ) (arg bs : Bytes)
    → at + length arg ≤ length bs
    → subarray at (length arg) (overwrite at arg bs) ≡ arg
subarray-overwrite at [] bs h = subarray_zero at bs
subarray-overwrite at (a ∷ arg) [] h = absurd (omega arith)
subarray-overwrite zero (a ∷ arg) (b ∷ bs) h =
    ap (λ r. a ∷ r) (subarray-overwrite zero arg bs (omega arith))
subarray-overwrite (suc at) (a ∷ arg) (b ∷ bs) h = subarray-overwrite at (a ∷ arg) bs (omega arith)

-- What is not written stays.
get_elem?-overwrite :
    (at : ℕ) (arg bs : Bytes) (j : ℕ)
    → (j < at) ⊎ (at + length arg ≤ j)
    → get_elem? (overwrite at arg bs) j ≡ get_elem? bs j
get_elem?-overwrite at [] bs j h = refl
get_elem?-overwrite at (a ∷ arg) [] j h = refl
get_elem?-overwrite zero (a ∷ arg) (b ∷ bs) zero h = ground arith
get_elem?-overwrite zero (a ∷ arg) (b ∷ bs) (suc j) h =
    get_elem?-overwrite zero arg bs j (ground arith)
get_elem?-overwrite (suc at) (a ∷ arg) (b ∷ bs) zero h = refl
get_elem?-overwrite (suc at) (a ∷ arg) (b ∷ bs) (suc j) h =
    get_elem?-overwrite at (a ∷ arg) bs j (ground arith)

module _ {Module Instance : Type 0} where
  pub record IsCurrent (m : Memory) (s : Globals Module Instance) : Type 0 where
    pub data_view : IsOf m s.cached_data_view
    pub uint8_array : IsOf m s.cached_uint8_array

  -- The start drops the views of whatever memory there was.
  pub finalize_init-IsCurrent :
      (m : Memory) (i : Instance) (w : Module) (s : Globals Module Instance)
      → IsCurrent m (finalize_init i w s).1
  unfolding finalize_init
  finalize_init-IsCurrent m i w s = record { data_view = tt; uint8_array = tt }

  -- The views are of the buffer that the memory has now, whether or not buffers have the property
  -- `detached`, and however the memory has grown since they were cached.
  get_data_view-IsCurrent :
      (has_detached : Bool) (other_length : ℕ) (m : Memory) (s : Globals Module Instance)
      → IsCurrent m s
      → ((get_data_view has_detached m s).0 ≡ m.buffer)
        × ((get_uint8_array other_length m s).0 ≡ m.buffer)
        × IsCurrent m (get_data_view has_detached m s).1
        × IsCurrent m (get_uint8_array other_length m s).1
  unfolding get_data_view get_uint8_array
  get_data_view-IsCurrent has_detached other_length m s v =
      let d = renew_data_view-buffer has_detached m s.cached_data_view v.data_view in
      let u = renew_uint8_array-buffer other_length m s.cached_uint8_array v.uint8_array in
      (
        d,
        u,
        record { data_view = ap (λ b. b.memory) d; uint8_array = v.uint8_array },
        record { data_view = v.data_view; uint8_array = ap (λ b. b.memory) u },
      )

  pub pass_array8-some :
      (malloc : ℕ → Memory → ℕ × Memory) (other_length : ℕ) (arg : Bytes) (m : Memory)
      (s : Globals Module Instance)
      → IsCurrent (malloc (length arg) m).1 s
      → let grown = (malloc (length arg) m).1 in
        let ptr = (malloc (length arg) m).0 % 4294967296 in
        ptr + length arg ≤ length grown.content
        → pass_array8 malloc other_length arg m s
          ≡ some (
            ptr,
            (
              record grown { content = overwrite ptr arg grown.content },
              record s { cached_uint8_array = some grown.buffer; vector_len = length arg },
            ),
          )
  unfolding pass_array8 get_uint8_array
  pass_array8-some malloc other_length arg m s v h =
      let grown = (malloc (length arg) m).1 in
      let u = renew_uint8_array-buffer other_length grown s.cached_uint8_array v.uint8_array in
      rw (u, (same_buffer_eq grown.buffer grown.buffer).1 refl) (ground arith)

  -- Bytes passed to the wasm side arrive: where the allocator of the wasm side gives a block in the
  -- memory in use, which may have grown for it, the call succeeds, leaves the length in
  -- `WASM_VECTOR_LEN`, changes no byte outside the block, and the bytes read back at the pointer
  -- are those passed.
  get_string-pass_array8 :
      (malloc : ℕ → Memory → ℕ × Memory) (other_length : ℕ) (arg : Bytes) (m : Memory)
      (s : Globals Module Instance)
      → IsCurrent (malloc (length arg) m).1 s
      → let grown = (malloc (length arg) m).1 in
        let ptr = (malloc (length arg) m).0 % 4294967296 in
        ptr + length arg ≤ length grown.content
        → (after : Memory) × (t : Globals Module Instance) × (pass_array8 malloc other_length arg m
              s
            ≡ some (ptr, (after, t)))
          × (t.vector_len ≡ length arg)
          × ((get_string other_length ptr t.vector_len after t).0 ≡ arg)
          × ((j : ℕ)
              → (j < ptr) ⊎ (ptr + length arg ≤ j)
              → get_elem? after.content j ≡ get_elem? grown.content j)
  unfolding get_string decode_text get_uint8_array
  get_string-pass_array8 malloc other_length arg m s v h =
      let grown = (malloc (length arg) m).1 in
      let raw = (malloc (length arg) m).0 in
      let after : Memory = record grown {
        content = overwrite (raw % 4294967296) arg grown.content;
      } in
      let t : Globals Module Instance = record s {
        cached_uint8_array = some grown.buffer;
        vector_len = length arg;
      } in
      let wrapped : (raw % 4294967296) % 4294967296 ≡ raw % 4294967296 = omega arith in
      (
        after,
        t,
        pass_array8-some malloc other_length arg m s v h,
        refl,
        rw
            (
              renew_uint8_array-buffer other_length after (some grown.buffer) refl,
              (same_buffer_eq grown.buffer grown.buffer).1 refl,
              wrapped,
            )
            (subarray-overwrite (raw % 4294967296) arg grown.content h),
        λ j out. get_elem?-overwrite (raw % 4294967296) arg grown.content j out,
      )
