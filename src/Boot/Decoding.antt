-- ===== src/Boot/Decoding.antt =====
-- How much the decoders of `decodeText` (rust/assets/hep-viewer.js) are given.
use ggsql_duckdb.Prelude.{
  ℕ, ◌+◌, ◌<◌, ◌≡◌, refl, subst, Bool, true, false, List, [], ◌∷◌, leb, arith,
}
use ggsql_duckdb.Boot.Init.{Globals}
use ggsql_duckdb.Boot.Memory.{Memory, get_uint8_array, max_safari_decode_bytes, decode_text}

abbrev pub AreBelow : List ℕ → Type 0
AreBelow [] = Unit
AreBelow (given ∷ others) = (given < max_safari_decode_bytes) × AreBelow others

-- A text to decode: the memory as it then is, the pointer and the length.
abbrev pub AreShort : List (Memory × ℕ × ℕ) → Type 0
AreShort [] = Unit
AreShort ((m, ptr, len) ∷ texts) = (len < max_safari_decode_bytes) × AreShort texts

module _ {Module Instance : Type 0} where
  -- `numBytesDecoded` is what the decoder in use was given, and no decoder was given as much as the limit.
  pub record IsCounted (s : Globals Module Instance) : Type 0 where
    pub others : List ℕ
    pub in_use : s.decoders ≡ s.bytes_decoded ∷ others
    pub below : AreBelow s.decoders

  counted :
      (other_length ptr len : ℕ) (m : Memory) (s : Globals Module Instance) (others : List ℕ)
      → len < max_safari_decode_bytes
      → s.decoders ≡ s.bytes_decoded ∷ others
      → AreBelow (s.bytes_decoded ∷ others)
      → IsCounted (decode_text other_length ptr len m s).1
  unfolding decode_text get_uint8_array
  counted other_length ptr len m s others h e (b, r) =
      go (leb max_safari_decode_bytes (s.bytes_decoded + len)) refl
    where
      go :
          (full : Bool)
          → leb max_safari_decode_bytes (s.bytes_decoded + len) ≡ full
          → IsCounted (decode_text other_length ptr len m s).1
      go true p = record {
        others = s.bytes_decoded ∷ others;
        in_use = rw (p, e) (ground arith);
        below = rw (p, e) (ground arith);
      }
      go false p = record {
        others = others;
        in_use = rw (p, e) refl;
        below = rw (p, e) (ground arith);
      }

  decode_text-IsCounted :
      (other_length ptr len : ℕ) (m : Memory) (s : Globals Module Instance)
      → len < max_safari_decode_bytes
      → IsCounted s
      → IsCounted (decode_text other_length ptr len m s).1
  decode_text-IsCounted other_length ptr len m s h v =
      counted other_length ptr len m s v.others h v.in_use (subst AreBelow v.in_use v.below)

  -- Texts decoded one after the other.
  abbrev pub decode_all :
      ℕ → List (Memory × ℕ × ℕ) → Globals Module Instance → Globals Module Instance
  decode_all other_length [] s = s
  decode_all other_length ((m, ptr, len) ∷ texts) s =
      decode_all other_length texts (decode_text other_length ptr len m s).1

  -- Whatever texts are decoded, one after the other and each shorter than the limit of Safari, no
  -- decoder is given as many bytes as the limit, and `numBytesDecoded` is what the one in use was
  -- given: where that holds to begin with, it holds at the end.
  pub decode_all-IsCounted :
      (other_length : ℕ) (texts : List (Memory × ℕ × ℕ)) (s : Globals Module Instance)
      → AreShort texts
      → IsCounted s
      → IsCounted (decode_all other_length texts s)
  decode_all-IsCounted other_length [] s h v = v
  decode_all-IsCounted other_length ((m, ptr, len) ∷ texts) s (h, hs) v =
      decode_all-IsCounted other_length texts _ hs
        (decode_text-IsCounted other_length ptr len m s h v)
