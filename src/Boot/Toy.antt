-- ===== src/Boot/Toy.antt =====
-- An allocator for tests of the calls of rust/assets/hep-viewer.js.
use ggsql_duckdb.Prelude.{
  ℕ, zero, suc, ◌+◌, ◌≤◌, ◌≡◌, refl, sym, ap, ◌∙◌, [], ◌∷◌, ◌++◌, length, length-append, arith,
}
use ggsql_duckdb.Boot.Init.{Bytes}
use ggsql_duckdb.Boot.Memory.{Memory, subarray}
use ggsql_duckdb.Boot.Views.{subarray_zero}
use ggsql_duckdb.Boot.Arrives.{Reallocates}

abbrev pub blanks : ℕ → Bytes
blanks zero = []
blanks (suc n) = 0 ∷ blanks n

length-blanks : (n : ℕ) → length (blanks n) ≡ n
length-blanks zero = refl
length-blanks (suc n) = ap suc (length-blanks n)

-- A `realloc` that moves the block to the start of a memory with room for it.
abbrev pub move : ℕ → ℕ → ℕ → Memory → ℕ × Memory
move ptr old new m = (0, record m { content = subarray ptr old m.content ++ blanks new })

zero_len :
    (ptr old : ℕ) (bs rest : Bytes) → subarray 0 0 (subarray ptr old bs ++ rest) ≡ subarray ptr 0 bs
zero_len ptr old bs rest =
    subarray_zero 0 (subarray ptr old bs ++ rest) ∙ sym (subarray_zero ptr bs)

subarray-move :
    (ptr old n : ℕ) (bs rest : Bytes)
    → ptr + old ≤ length bs
    → n ≤ old
    → subarray 0 n (subarray ptr old bs ++ rest) ≡ subarray ptr n bs
subarray-move ptr old zero bs rest h l = zero_len ptr old bs rest
subarray-move ptr old (suc n) [] rest h l = absurd (omega arith)
subarray-move zero zero (suc n) (b ∷ bs) rest h l = absurd (omega arith)
subarray-move zero (suc old) (suc n) (b ∷ bs) rest h l =
    ap (λ r. b ∷ r) (subarray-move zero old n bs rest (omega arith) (omega arith))
subarray-move (suc ptr) old (suc n) (b ∷ bs) rest h l =
    subarray-move ptr old (suc n) bs rest (omega arith) l

pub move-Reallocates : Reallocates move
move-Reallocates = record {
  fits = λ ptr old new m h.
      omega (arith, length-append (subarray ptr old m.content) (blanks new), length-blanks new);
  keeps = λ ptr old new n m h l k. subarray-move ptr old n m.content (blanks new) h l;
}
