-- ===== src/Calls/Imports.antt =====
-- `__wbg_get_imports` of rust/assets/hep-viewer.js: the functions through which the wasm side makes,
-- reads and drops JavaScript values.
use ggsql_duckdb.Prelude.{ℕ, ◌+◌, Option, none, some}
use ggsql_duckdb.Boot.Init.{Text}
use ggsql_duckdb.Glue.Heap.{get_object}
use ggsql_duckdb.Calls.Machine.{ℤ, Call, Exports, Browser, pure, throw, ◌>>=◌, ◌>>◌, gets}
use ggsql_duckdb.Calls.Access.{
  data_view_memory, set_uint32, add_object, take_value, get_text, wasm_vector_len,
  pass_string_to_wasm,
}

module _ (browser : Browser) where
  open browser use {error, string, text_of}

  -- `__wbg_Error`: an error with a text of the wasm side
  unfoldable pub make_error : ℤ → ℤ → Call ℕ
  make_error arg0 arg1 = do s ← get_text browser arg0 arg1; add_object browser (error s)

  -- `__wbindgen_generic`: a text of the wasm side as a value
  unfoldable pub make_string : ℤ → ℤ → Call ℕ
  make_string arg0 arg1 = do s ← get_text browser arg0 arg1; add_object browser (string s)

  -- `__wbg___wbindgen_throw`
  unfoldable pub wbindgen_throw : ℤ → ℤ → Call (Unit {0})
  wbindgen_throw arg0 arg1 = do s ← get_text browser arg0 arg1; throw (error s)

  -- `__wbindgen_object_drop_ref`
  unfoldable pub object_drop_ref : ℤ → Call (Unit {0})
  object_drop_ref arg0 = do take_value browser arg0; pure tt

  module _ (exports : Exports) where
    -- the address of the text, or 0 if the value is none
    abbrev pub pass_option : Option Text → Call ℕ
    pass_option none = pure 0
    pass_option (some s) = pass_string_to_wasm browser exports s

    -- `__wbg___wbindgen_string_get`, of a value that is in the table
    unfoldable pub string_get : ℕ → ℕ → Call (Unit {0})
    string_get arg0 arg1 = do
      obj ← gets λ m. get_object arg1 m.heap
      ptr1 ← pass_option (text_of obj)
      len1 ← wasm_vector_len browser exports
      view ← data_view_memory browser
      set_uint32 browser view (arg0 + 4) len1
      again ← data_view_memory browser
      set_uint32 browser again arg0 ptr1
