-- ===== src/Boot/TextTests.antt =====
-- A text passed by `passStringToWasm0` of rust/assets/hep-viewer.js with a toy encoder.
use ggsql_duckdb.Prelude.{
  ℕ, ◌*◌, ◌%◌, ◌≤◌, ◌≡◌, refl, none, some, [], ◌∷◌, leb, length, if◌then◌else◌, arith,
}
use ggsql_duckdb.Boot.Init.{Bytes, Text, Globals}
use ggsql_duckdb.Boot.Memory.{Memory, subarray, get_uint8_array}
use ggsql_duckdb.Boot.Text.{Encoder, copy_ascii, pass_string}
use ggsql_duckdb.Boot.Encoding.{
  OldEncoder, fallback_encode_into, with_encode_into, pass_whole_string,
  pass_whole_string-pass_string,
}
use ggsql_duckdb.Boot.Toy.{blanks, move, move-Reallocates}

-- Other units than ASCII take two bytes.
abbrev encode : Text → Bytes
encode [] = []
encode (c ∷ s) = if leb c 127 then c ∷ encode s else 195 ∷ c % 64 ∷ encode s

length_encode : (s : Text) → length (encode s) ≤ length s * 3
length_encode [] = omega arith
length_encode (c ∷ s) = ground (arith, length_encode s)

encode_ascii : (c : ℕ) (s : Text) → c ≤ 127 → encode (c ∷ s) ≡ c ∷ encode s
encode_ascii c s h = ground arith

abbrev old : OldEncoder
old = record {
  encode = encode;
  encode-nil = refl;
  encode-ascii = encode_ascii;
  length-encode = length_encode;
}

abbrev encode_into : Text → ℕ → Bytes
encode_into s n = if leb (length (encode s)) n then encode s else []

encode_into_all : (s : Text) (n : ℕ) → length (encode s) ≤ n → encode_into s n ≡ encode s
encode_into_all s n h = ground arith

abbrev encoder : Encoder
encoder = record {
  encode = encode;
  encode_into = encode_into;
  encode-nil = refl;
  encode-ascii = encode_ascii;
  length-encode = length_encode;
  encode_into-fits = encode_into_all;
}

abbrev eight_bytes : Memory
eight_bytes = record { buffer = record { memory = 0; generation = 0 }; content = blanks 8 }

abbrev globals : Globals ℕ ℕ
globals = record {
  wasm = none;
  wasm_instance = none;
  wasm_module = none;
  cached_data_view = none;
  cached_uint8_array = none;
  vector_len = 0;
  bytes_decoded = 0;
  decoders = 0 ∷ [];
  warnings = [];
}

abbrev at_two : ℕ → Memory → ℕ × Memory
at_two n m = (2, m)

mixed :
    (pass_string at_two move encoder 9 (65 ∷ 233 ∷ 66 ∷ []) eight_bytes globals).1.1.vector_len ≡ 4
unfolding pass_string copy_ascii get_uint8_array
mixed = refl

-- One letter with an accent, on a browser with its own `encodeInto`.
pass_whole_string-pass_string_example :
    let arg : Text = 65 ∷ 233 ∷ [] in
    let r = pass_string at_two move encoder 9 arg eight_bytes globals in
    (fallback_encode_into old (233 ∷ []) 3
      ≡ some (record { read = 1; written = 2; bytes = encode (233 ∷ []) }))
    × ((at : ℕ) × (after : Memory) × (t : Globals ℕ ℕ) × (pass_whole_string at_two encode 9 arg
            eight_bytes globals
          ≡ some (at, (after, t)))
        × (subarray at t.vector_len after.content ≡ subarray r.0 r.1.1.vector_len r.1.0.content))
pass_whole_string-pass_string_example =
    pass_whole_string-pass_string at_two move encoder old 9 (65 ∷ 233 ∷ []) (233 ∷ []) 3 eight_bytes
      globals (omega arith) (record { data_view = tt; uint8_array = tt }) (omega arith)
      (omega arith) move-Reallocates

-- The same text on a browser without it.
accent_without_encode_into :
    (pass_string at_two move
      (with_encode_into old)
      9
      (65 ∷ 233 ∷ [])
      eight_bytes
      globals).1.1.vector_len
    ≡ 3
unfolding pass_string copy_ascii get_uint8_array fallback_encode_into
accent_without_encode_into = refl
