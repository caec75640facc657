-- ===== src/Boot/Arrives.antt =====
-- A text passed by `passStringToWasm0` of rust/assets/hep-viewer.js arrives as its UTF-8.
use ggsql_duckdb.Prelude.{
  ℕ, zero, suc, ◌+◌, ◌*◌, ◌%◌, ◌<◌, ◌≤◌, ◌≡◌, refl, sym, ap, ◌∙◌, [], ◌∷◌, ◌++◌, ◌==◌, ==_iff, leb,
  inl, inr, Bool-cases, length, set, length-set, append_assoc, append-nil, arith,
}
use ggsql_duckdb.Boot.Init.{Bytes, Text, Globals}
use ggsql_duckdb.Boot.Memory.{Memory, overwrite, subarray, get_uint8_array}
use ggsql_duckdb.Boot.Views.{subarray_zero, subarray-overwrite, length-overwrite}
use ggsql_duckdb.Boot.Text.{Encoder, Copied, copy_ascii, pass_rest, pass_string}

-- The block at a pointer lies in the memory.
abbrev pub Fits : ℕ → ℕ → Memory → Type 0
Fits ptr n m = ptr + n ≤ length m.content

-- What `realloc` does: the new block lies in the memory, and has the old content as far as it goes.
pub record Reallocates (realloc : ℕ → ℕ → ℕ → Memory → ℕ × Memory) : Type 0 where
  pub fits :
      (ptr old new : ℕ) (m : Memory)
      → Fits ptr old m
      → Fits ((realloc ptr old new m).0 % 4294967296) new (realloc ptr old new m).1
  pub keeps :
      (ptr old new n : ℕ) (m : Memory)
      → Fits ptr old m
      → n ≤ old
      → n ≤ new
      → subarray ((realloc ptr old new m).0 % 4294967296) n (realloc ptr old new m).1.content
        ≡ subarray ptr n m.content

subarray-set :
    (at n i v : ℕ) (bs : Bytes)
    → i ≡ at + n
    → i < length bs
    → subarray at (suc n) (set bs i v) ≡ subarray at n bs ++ (v ∷ [])
subarray-set at n i v [] e h = absurd (omega arith)
subarray-set zero zero zero v (b ∷ bs) e h = ap (λ r. v ∷ r) (subarray_zero zero bs)
subarray-set zero zero (suc i) v (b ∷ bs) e h = absurd (omega arith)
subarray-set zero (suc n) zero v (b ∷ bs) e h = absurd (omega arith)
subarray-set zero (suc n) (suc i) v (b ∷ bs) e h =
    ap (λ r. b ∷ r) (subarray-set zero n i v bs (omega arith) (omega arith))
subarray-set (suc at) n zero v (b ∷ bs) e h = absurd (omega arith)
subarray-set (suc at) n (suc i) v (b ∷ bs) e h =
    subarray-set at n i v bs (omega arith) (omega arith)

subarray-overwrite_after :
    (at n i k : ℕ) (w bs : Bytes)
    → i ≡ at + n
    → k ≡ n + length w
    → i + length w ≤ length bs
    → subarray at k (overwrite i w bs) ≡ subarray at n bs ++ w
subarray-overwrite_after at n i k [] bs e f h =
    let same : k ≡ n = omega arith in rw (same) (sym (append-nil (subarray at n bs)))
subarray-overwrite_after at n i k (a ∷ w) [] e f h = absurd (omega arith)
subarray-overwrite_after zero zero zero k (a ∷ w) (b ∷ bs) e f h =
    let same : k ≡ length (a ∷ w) = omega arith in
    rw (same) (subarray-overwrite zero (a ∷ w) (b ∷ bs) (omega arith))
subarray-overwrite_after zero zero (suc i) k (a ∷ w) (b ∷ bs) e f h = absurd (omega arith)
subarray-overwrite_after zero (suc n) zero k (a ∷ w) (b ∷ bs) e f h = absurd (omega arith)
subarray-overwrite_after zero (suc n) (suc i) zero (a ∷ w) (b ∷ bs) e f h = absurd (omega arith)
subarray-overwrite_after zero (suc n) (suc i) (suc k) (a ∷ w) (b ∷ bs) e f h =
    ap (λ r. b ∷ r)
      (subarray-overwrite_after zero n i k (a ∷ w) bs (omega arith) (omega arith) (omega arith))
subarray-overwrite_after (suc at) n zero k (a ∷ w) (b ∷ bs) e f h = absurd (omega arith)
subarray-overwrite_after (suc at) n (suc i) k (a ∷ w) (b ∷ bs) e f h =
    subarray-overwrite_after at n i k (a ∷ w) bs (omega arith) f (omega arith)

pub length-subarray : (at n : ℕ) (bs : Bytes) → at + n ≤ length bs → length (subarray at n bs) ≡ n
length-subarray at n [] h = omega arith
length-subarray zero zero (b ∷ bs) h = refl
length-subarray zero (suc n) (b ∷ bs) h = ap suc (length-subarray zero n bs (omega arith))
length-subarray (suc at) n (b ∷ bs) h = length-subarray at n bs (omega arith)

length_zero : (s : Text) → length s ≡ 0 → s ≡ []
length_zero [] e = refl
length_zero (c ∷ s) e = absurd (omega arith)

-- What the loop has done.
record IsCopied (encoder : Encoder) (ptr offset : ℕ) (arg : Text) (content : Bytes) (c : Copied)
    : Type 0 where
  size : length c.content ≡ length content
  counts : c.offset + length c.rest ≡ offset + length arg
  bytes :
      subarray ptr c.offset c.content ++ encoder.encode c.rest
      ≡ subarray ptr offset content ++ encoder.encode arg

copy_ascii-IsCopied :
    (encoder : Encoder) (ptr offset : ℕ) (arg : Text) (content : Bytes)
    → ptr + (offset + length arg) ≤ length content
    → IsCopied encoder ptr offset arg content (copy_ascii ptr offset arg content)
unfolding copy_ascii
copy_ascii-IsCopied encoder ptr offset [] content h = record {
  size = refl;
  counts = refl;
  bytes = refl;
}
copy_ascii-IsCopied encoder ptr offset (code ∷ arg) content h =
    let bs = set content (ptr + offset) code in
    let size = length-set content (ptr + offset) code in
    let next = copy_ascii-IsCopied encoder ptr (suc offset) arg bs (omega arith) in
    elim (Bool-cases (leb code 127)) [
      | inl e ↦ rw (e) (record {
        size = next.size ∙ size;
        counts = omega arith;
        bytes =
            next.bytes
            ∙ ap (λ r. r ++ encoder.encode arg)
                (subarray-set ptr offset (ptr + offset) code content refl (omega arith))
            ∙ append_assoc (subarray ptr offset content) (code ∷ []) (encoder.encode arg)
            ∙ ap (λ r. subarray ptr offset content ++ r)
                (sym (encoder.encode-ascii code arg (ground arith)));
      })
      | inr e ↦ rw (e) (record { size = refl; counts = refl; bytes = refl })
    ]

module _ {Module Instance : Type 0} where
  subarray-pass_rest :
      (realloc : ℕ → ℕ → ℕ → Memory → ℕ × Memory) (encoder : Encoder) (other_length len offset : ℕ)
      (rest : Text) (ptr : ℕ) (m : Memory) (s : Globals Module Instance)
      → Reallocates realloc
      → Fits ptr len m
      → offset ≤ len
      → let r = pass_rest realloc encoder other_length len offset rest ptr m s in
        subarray r.0 r.1.1.vector_len r.1.0.content
        ≡ subarray ptr offset m.content ++ encoder.encode rest
  subarray-pass_rest realloc encoder other_length len offset rest ptr m s r h o =
      let room = offset + length rest * 3 in
      let grown = (realloc ptr len room m).1 in
      let at = (realloc ptr len room m).0 % 4294967296 in
      let fits = r.fits ptr len room m h in
      let w = encoder.encode rest in
      let short = encoder.length-encode rest in
      let capacity = length-subarray (at + offset) (length rest * 3) grown.content (omega arith) in
      let written : Memory = record grown { content = overwrite (at + offset) w grown.content } in
      let size = length-overwrite (at + offset) w grown.content in
      rw (capacity, encoder.encode_into-fits rest (length rest * 3) short)
        (r.keeps at room (offset + length w) (offset + length w) written (omega arith) (omega arith)
            (omega arith)
          ∙ subarray-overwrite_after at offset (at + offset) (offset + length w) w grown.content
              refl refl (omega arith)
          ∙ ap (λ b. b ++ w) (r.keeps ptr len room offset m h o (omega arith)))

  -- A text arrives: at the pointer that is returned lie `WASM_VECTOR_LEN` bytes, and they are its
  -- UTF-8, whether or not it is ASCII. The allocator of the wasm side gives blocks in its memory,
  -- and its `realloc` keeps their content.
  pub subarray-pass_string :
      (malloc : ℕ → Memory → ℕ × Memory) (realloc : ℕ → ℕ → ℕ → Memory → ℕ × Memory)
      (encoder : Encoder) (other_length : ℕ) (arg : Text) (m : Memory) (s : Globals Module Instance)
      → Fits ((malloc (length arg) m).0 % 4294967296) (length arg) (malloc (length arg) m).1
      → Reallocates realloc
      → let r = pass_string malloc realloc encoder other_length arg m s in
        subarray r.0 r.1.1.vector_len r.1.0.content ≡ encoder.encode arg
  unfolding pass_string
  subarray-pass_string malloc realloc encoder other_length arg m s h r =
      let ptr = (malloc (length arg) m).0 % 4294967296 in
      let grown = (malloc (length arg) m).1 in
      let c = copy_ascii ptr 0 arg grown.content in
      let v = copy_ascii-IsCopied encoder ptr 0 arg grown.content (omega arith) in
      let counts = v.counts in
      let size = v.size in
      let all = v.bytes ∙ ap (λ b. b ++ encoder.encode arg) (subarray_zero ptr grown.content) in
      elim (Bool-cases (c.offset == length arg)) [
        | inl e ↦
            let ended : c.rest ≡ [] =
              length_zero c.rest (ground (arith, (==_iff c.offset (length arg)).0 e)) in
            rw (e) (
              sym (append-nil (subarray ptr c.offset c.content))
              ∙ ap (λ b. subarray ptr c.offset c.content ++ b)
                  (sym encoder.encode-nil ∙ ap encoder.encode (sym ended))
              ∙ all)
        | inr e ↦ rw (e) (
            subarray-pass_rest realloc encoder other_length (length arg) c.offset c.rest ptr
              (record grown { content = c.content }) (get_uint8_array other_length grown s).1 r
              (omega arith) (omega arith)
            ∙ all)
      ]
