-- ===== src/Calls/Tests.antt =====
-- Calls of rust/assets/hep-viewer.js on a toy wasm side with a memory of 24 bytes.
use ggsql_duckdb.Prelude.{
  ℕ, ◌+◌, ◌%◌, ◌≡◌, refl, subst, true, false, some, none, inr, List, [], ◌∷◌, ◌++◌, arith,
}
use ggsql_duckdb.Boot.Init.{Bytes}
use ggsql_duckdb.Boot.Memory.{Memory, overwrite, get_data_view, get_uint8_array}
use ggsql_duckdb.Boot.Text.{Encoder, copy_ascii, pass_string}
use ggsql_duckdb.Boot.Toy.{move, move-Reallocates}
use ggsql_duckdb.Glue.Heap.{
  undefined, null, boolean, number, object, Heap, replicate, grow, add_heap_object, add_all,
  get_object,
}
use ggsql_duckdb.Glue.FreeList.{IsHeap}
use ggsql_duckdb.Calls.Machine.{
  to_int32, Machine, World, answer, returned, Request, load, svg, warnings, Exports, Browser, ◌>>=◌,
}
use ggsql_duckdb.Calls.Access.{
  word_bytes, word_at, get_int32, get_array_js_value, pass_array_js_value_to_wasm,
}
use ggsql_duckdb.Calls.Document.{load_document, svg_getter, warnings_getter}
use ggsql_duckdb.Calls.Methods.{from_bytes, perform_method, StackIs, KeepsStack}
use ggsql_duckdb.Calls.Balanced.{perform_method-StackIs}
use ggsql_duckdb.Calls.Loaded.{Ends, load_document-Ends}
use ggsql_duckdb.Calls.Given.{frees-svg_getter}
use ggsql_duckdb.Calls.Arrays.{warnings_getter-Holds}
use ggsql_duckdb.Calls.Imports.{string_get}
use ggsql_duckdb.Calls.Imported.{Tells, string_get-Tells}
use ggsql_duckdb.Calls.Written.{AreSmall, get_array_js_value-pass}

-- Two values in the table, at the indices 1028 and 1029.
abbrev two_values : Heap
two_values = record {
  slots =
      replicate 1024 undefined
      ++ (undefined ∷ null ∷ boolean true ∷ boolean false ∷ object 5 ∷ number 7 ∷ []);
  heap_next = 1030;
}

two_values-IsHeap : IsHeap two_values []
two_values-IsHeap = record { chain = refl; distinct = tt; has_reserved = omega arith }

-- A document is refused with `object 3`; the text and the array lie at 16.
abbrev words_of : Request → ℕ × Bytes
words_of (load retptr ptr len) = (retptr, word_bytes 0 ++ (word_bytes 1030 ++ word_bytes 1))
words_of (svg retptr ptr) = (retptr, word_bytes 16 ++ word_bytes 2)
words_of (warnings retptr ptr) = (retptr, word_bytes 16 ++ word_bytes 1)
words_of _ = (0, [])

abbrev table_of : Request → Heap → Heap
table_of (load retptr ptr len) h = elim (add_heap_object (object 3) h) [
  | none ↦ h
  | some (i, g) ↦ g
]
table_of _ h = h

abbrev written : ℕ × Bytes → Memory → Memory
written (at, bs) m = record m { content = overwrite at bs m.content }

abbrev exports : Exports
exports = record {
  run = λ r m.
      (answer 0, record m { memory = written (words_of r) m.memory; heap = table_of r m.heap });
  add_to_stack_pointer = λ n m.
      let sp = (m.stack_pointer + n) % 4294967296 in (answer sp, record m { stack_pointer = sp });
  free = λ address size alignment m. (answer 0, m);
  malloc = λ size alignment m. (20, m);
  realloc = move;
}

exports-KeepsStack : KeepsStack exports
exports-KeepsStack = record {
  run = λ r m. refl;
  free = λ address size alignment m. refl;
  moves = λ n m. refl;
}

abbrev encoder : Encoder
encoder = record {
  encode = λ s. s;
  encode_into = λ s n. s;
  encode-nil = refl;
  encode-ascii = λ c s h. refl;
  length-encode = λ s. omega arith;
  encode_into-fits = λ s n h. refl;
}

abbrev browser : Browser
browser = record {
  has_detached = true;
  other_length = 9;
  decode = λ bs. some bs;
  encoder = encoder;
  range_error = object 1;
  type_error = object 2;
  error = λ s. object 4;
  string = λ s. object 5;
  text_of = λ v. elim v [ object n ↦ some (65 ∷ n ∷ []) | _ ↦ none ];
}

abbrev world : World
world = record {
  machine = record {
    stack_pointer = 16;
    memory = record {
      buffer = record { memory = 0; generation = 0 };
      content =
          0 ∷ 0 ∷ 0 ∷ 0 ∷ 0 ∷ 0 ∷ 0 ∷ 0 ∷ 0 ∷ 0 ∷ 0 ∷ 0 ∷ 0 ∷ 0 ∷ 0 ∷ 0 ∷ 4 ∷ 4 ∷ 0 ∷ 0 ∷ 0 ∷ 0 ∷ 0
          ∷ 0 ∷ [];
    };
    globals = record {
      wasm = some 7;
      wasm_instance = some 7;
      wasm_module = some 0;
      cached_data_view = none;
      cached_uint8_array = none;
      vector_len = 0;
      bytes_decoded = 0;
      decoders = 0 ∷ [];
      warnings = [];
    };
    heap = two_values;
  };
  frees = [];
}

perform_method-StackIs_example :
    let (r, v) = perform_method exports browser (from_bytes (9 ∷ 9 ∷ [])) world in
    StackIs 16 r v.machine
perform_method-StackIs_example =
    perform_method-StackIs exports browser (from_bytes (9 ∷ 9 ∷ [])) world exports-KeepsStack
      (omega arith)

frees-svg_getter_example :
    (svg_getter exports browser 8 world).1.frees
    ≡ record { address = 16; size = 2; alignment = 1 } ∷ []
unfolding get_int32 word_at get_data_view ◌>>=◌
frees-svg_getter_example = frees-svg_getter browser exports exports-KeepsStack 8 world

warnings_getter-Holds_example :
    let (r, v) = warnings_getter exports browser 8 world in
    (r ≡ returned (object 5 ∷ []))
    × (v.frees ≡ record { address = 16; size = 4; alignment = 4 } ∷ [])
    × IsHeap v.machine.heap (1028 ∷ [])
unfolding word_at get_object
warnings_getter-Holds_example =
    warnings_getter-Holds exports browser 8 world
      (exports.run (warnings 0 8) (record world.machine { stack_pointer = 0 })).1 16 (1028 ∷ []) []
      (object 5 ∷ []) exports-KeepsStack (λ address size alignment m. (0, refl, refl)) refl
      (record { data_view = tt; uint8_array = tt }) two_values-IsHeap refl refl (omega arith)
      (omega arith) (refl, tt)
      (record { not_reserved = omega arith; within = omega arith; not_free = tt }, refl, tt, tt)

-- The machine on which `load` runs, and the one that it leaves.
abbrev given : Machine
given = record world.machine {
  stack_pointer = 0;
  memory = record world.machine.memory {
    content =
        0 ∷ 0 ∷ 0 ∷ 0 ∷ 0 ∷ 0 ∷ 0 ∷ 0 ∷ 0 ∷ 0 ∷ 0 ∷ 0 ∷ 0 ∷ 0 ∷ 0 ∷ 0 ∷ 4 ∷ 4 ∷ 0 ∷ 0 ∷ 9 ∷ 9 ∷ 0
        ∷ 0 ∷ [];
  };
  globals = record world.machine.globals {
    cached_uint8_array = some (record { memory = 0; generation = 0 });
    vector_len = 2;
  };
}

load_document-Ends_example :
    Ends (inr (object 3)) two_values [] (load_document exports browser (9 ∷ 9 ∷ []) world)
unfolding word_at add_heap_object grow
load_document-Ends_example =
    load_document-Ends exports browser (λ bs. inr (object 3)) (9 ∷ 9 ∷ []) world []
      (exports.run (load 0 20 2) given).1 exports-KeepsStack two_values-IsHeap
      (record { data_view = tt; uint8_array = tt }) (omega arith) refl
      (record {
        answers = (1030, refl, refl, omega arith, refl);
        first = (0, refl);
        second = (1030, refl);
        current = record { data_view = tt; uint8_array = refl };
        stack = refl;
      })

small_indices :
    (ids : List ℕ) (g : Heap) → add_all (null ∷ []) two_values ≡ some (ids, g) → AreSmall ids
unfolding add_all add_heap_object grow
small_indices ids g e = subst AreSmall (indices e) (omega arith)
  where
    indices : add_all (null ∷ []) two_values ≡ some (ids, g) → (1030 ∷ []) ≡ ids
    indices p = cc

get_array_js_value-pass_example :
    (v u : World) × (pass_array_js_value_to_wasm browser exports (null ∷ []) world
      ≡ (returned 20, v))
    × (get_array_js_value browser (to_int32 20) (to_int32 v.machine.globals.vector_len) v
        ≡ (returned (null ∷ []), u))
    × ((free' : List ℕ) × IsHeap u.machine.heap free')
get_array_js_value-pass_example =
    get_array_js_value-pass exports browser (null ∷ []) world [] two_values-IsHeap
      (record { data_view = tt; uint8_array = tt }) (omega arith) (omega arith) small_indices

-- The value at 1028 is a text of two units.
string_get-Tells_example :
    let (r, v) = string_get browser exports 8 1028 world in
    (r ≡ returned tt) × Tells browser exports 8 (some (65 ∷ 5 ∷ [])) v.machine.memory.content
unfolding get_object pass_string copy_ascii get_uint8_array
string_get-Tells_example =
    string_get-Tells browser exports 8 1028 world (some (65 ∷ 5 ∷ [])) refl move-Reallocates
      (omega arith, inr (omega arith), omega arith, omega arith)
      (record { data_view = tt; uint8_array = refl }) (omega arith)
