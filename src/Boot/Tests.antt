-- ===== src/Boot/Tests.antt =====
-- Starts of the wasm module of rust/assets/hep-viewer.js on a toy platform.
use ggsql_duckdb.Prelude.{ℕ, ◌≡◌, refl, true, false, none, some, [], ◌∷◌, arith}
use ggsql_duckdb.Boot.Init.{
  Response, basic, bytes, omitted, deprecated, Platform, rejected, deprecated_parameters,
  not_served_as_wasm, Globals, done, failed, finalize_init, load, init,
}
use ggsql_duckdb.Boot.Memory.{Memory, decode_text, get_uint8_array}
use ggsql_duckdb.Boot.Decoding.{IsCounted, decode_all, decode_all-IsCounted}

abbrev served : Response
served = record { is_ok = true; response_type = basic; is_wasm = false; body = some (7 ∷ []) }

-- Streaming fails, and an instance is the first byte of the module.
abbrev platform : Platform ℕ ℕ
platform = record {
  fetch = λ address. some served;
  has_streaming = true;
  instantiate_streaming = λ r. none;
  instantiate_bytes = λ b. elim b [ [] ↦ none | ◌∷◌ x _ ↦ some (x, 0) ];
  instantiate_module = λ m. some m;
  default_url = 1 ∷ [];
}

abbrev unset : Globals ℕ ℕ
unset = record {
  wasm = none;
  wasm_instance = none;
  wasm_module = none;
  cached_data_view = none;
  cached_uint8_array = none;
  vector_len = 0;
  bytes_decoded = 0;
  decoders = 0 ∷ [];
  warnings = [];
}

abbrev started : Globals ℕ ℕ
started = record unset {
  wasm = some 7;
  wasm_instance = some 7;
  wasm_module = some 0;
  warnings = not_served_as_wasm ∷ [];
}

falls_back : init platform omitted unset ≡ (done 7, started)
unfolding init load finalize_init
falls_back = refl

warns :
    init platform (deprecated (bytes [])) unset
    ≡ (failed rejected, record unset { warnings = deprecated_parameters ∷ [] })
unfolding init load
warns = refl

-- A memory of four bytes that has grown once, with views of its old buffer.
abbrev memory : Memory
memory = record { buffer = record { memory = 0; generation = 1 }; content = 0 ∷ 0 ∷ 0 ∷ 0 ∷ [] }

abbrev old_views : Globals ℕ ℕ
old_views = record started {
  cached_data_view = some (record { memory = 0; generation = 0 });
  cached_uint8_array = some (record { memory = 0; generation = 0 });
}

-- The second of two texts needs a new decoder.
abbrev nearly_full : Globals ℕ ℕ
nearly_full = record old_views { bytes_decoded = 2146435066; decoders = 2146435066 ∷ [] }

decode_all-IsCounted_example :
    IsCounted (decode_all 9 ((memory, 0, 4) ∷ (memory, 0, 4) ∷ []) nearly_full)
decode_all-IsCounted_example =
    decode_all-IsCounted 9 ((memory, 0, 4) ∷ (memory, 0, 4) ∷ []) nearly_full
      (omega arith, (omega arith, tt))
      (record { others = []; in_use = refl; below = (omega arith, tt) })

new_decoder :
    (decode_all 9 ((memory, 0, 4) ∷ (memory, 0, 4) ∷ []) nearly_full).decoders ≡ 4 ∷ 2146435070 ∷ []
unfolding decode_text get_uint8_array
new_decoder = refl
