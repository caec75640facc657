-- ===== src/Entry/Base64.antt =====
-- `decodeBase64` of tools/hep-viewer/entry.js.
use ggsql_duckdb.Prelude.{
  ℕ, zero, suc, ◌%◌, ◌<◌, ◌≡◌, refl, sym, ap, ◌∙◌, Option, none, some, List, [], ◌∷◌, ◌++◌, map,
  append_assoc, length, set, arith,
}

-- `new Uint8Array(n)`
abbrev pub zeros : ℕ → List ℕ
zeros zero = []
zeros (suc n) = 0 ∷ zeros n

-- The loop `bytes[i] = binary.charCodeAt(i)`, from index `i` on; an element of a `Uint8Array`
-- keeps the low 8 bits.
unfoldable pub copy_codes : ℕ → List ℕ → List ℕ → List ℕ
copy_codes i [] bytes = bytes
copy_codes i (c ∷ binary) bytes = copy_codes (suc i) binary (set bytes i (c % 256))

-- `atob` is the browser's: it gives a binary string, or throws.
unfoldable pub decode_base64 : (List ℕ → Option (List ℕ)) → List ℕ → Option (List ℕ)
decode_base64 atob base64 = elim (atob base64) [
  | none ↦ none
  | some binary ↦ some (copy_codes 0 binary (zeros (length binary)))
]

abbrev pub low_byte : ℕ → ℕ
low_byte c = c % 256

set-append :
    (done rest : List ℕ) (i x y : ℕ)
    → length done ≡ i
    → set (done ++ (x ∷ rest)) i y ≡ done ++ (y ∷ rest)
set-append [] rest zero x y e = refl
set-append [] rest (suc i) x y e = absurd (omega arith)
set-append (d ∷ done) rest zero x y e = absurd (omega arith)
set-append (d ∷ done) rest (suc i) x y e = ground (arith, set-append done rest i x y)

length-snoc : (done : List ℕ) (y : ℕ) → length (done ++ (y ∷ [])) ≡ suc (length done)
length-snoc [] y = refl
length-snoc (d ∷ done) y = ground (arith, length-snoc done y)

copy_codes-append :
    (done binary : List ℕ) (i : ℕ)
    → length done ≡ i
    → copy_codes i binary (done ++ zeros (length binary)) ≡ done ++ map low_byte binary
unfolding copy_codes
copy_codes-append done [] i e = refl
copy_codes-append done (c ∷ binary) i e =
    let b = c % 256 in
    let zs = zeros (length binary) in
    rw (set-append done zs i 0 b e) (
      ap (copy_codes (suc i) binary) (sym (append_assoc done (b ∷ []) zs))
      ∙ copy_codes-append (done ++ (b ∷ [])) binary (suc i) (length-snoc done b ∙ ap suc e)
      ∙ append_assoc done (b ∷ []) (map low_byte binary))

abbrev pub AllBytes : List ℕ → Type 0
AllBytes [] = Unit
AllBytes (c ∷ s) = (c < 256) × AllBytes s

map-low_byte : (s : List ℕ) → AllBytes s → map low_byte s ≡ s
map-low_byte [] h = refl
map-low_byte (c ∷ s) h = ground (arith, map-low_byte s)

-- The loop over the characters gives exactly the bytes of the binary string that `atob` gives, and
-- an error exactly where `atob` throws. What `atob` gives is a binary string: every character of
-- it is below 256.
pub decode_base64-eq_atob :
    (atob : List ℕ → Option (List ℕ)) (base64 : List ℕ)
    → ((s binary : List ℕ) → atob s ≡ some binary → AllBytes binary)
    → decode_base64 atob base64 ≡ atob base64
unfolding decode_base64
decode_base64-eq_atob atob base64 is_binary = go (atob base64) refl
  where
    go :
        (o : Option (List ℕ))
        → atob base64 ≡ o
        → (elim o [
          | none ↦ none
          | some binary ↦ some (copy_codes 0 binary (zeros (length binary)))
        ])
          ≡ o
    go none e = refl
    go (some binary) e =
        ap some
          (copy_codes-append [] binary 0 refl ∙ map-low_byte binary (is_binary base64 binary e))
