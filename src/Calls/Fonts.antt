-- ===== src/Calls/Fonts.antt =====
-- `hasFonts`, `registerFont` and `setGenericFamily` of rust/assets/hep-viewer.js.
use ggsql_duckdb.Prelude.{ℕ, ◌+◌, Bool, List}
use ggsql_duckdb.Boot.Init.{Bytes, Text}
use ggsql_duckdb.Glue.Heap.{JsValue}
use ggsql_duckdb.Calls.Machine.{
  Call, has_fonts, register_font, set_generic_family, Exports, Browser, ◌>>=◌, ◌>>◌,
}
use ggsql_duckdb.Calls.Access.{
  get_int32, wasm_vector_len, pass_array8_to_wasm, pass_string_to_wasm, pass_array_js_value_to_wasm,
}
use ggsql_duckdb.Calls.Document.{run, frame, get_flag, throw_taken, receive_array}

module _ (exports : Exports) where
  unfoldable pub get_has_fonts : Call Bool
  get_has_fonts = get_flag exports has_fonts

  module _ (browser : Browser) where
    abbrev pub read_families : Bytes → ℕ → Call (List JsValue)
    read_families bytes retptr = do
      ptr0 ← pass_array8_to_wasm browser exports bytes
      len0 ← wasm_vector_len browser exports
      run exports (register_font retptr ptr0 len0)
      r0 ← get_int32 browser retptr
      r1 ← get_int32 browser (retptr + 4)
      r2 ← get_int32 browser (retptr + 8)
      r3 ← get_int32 browser (retptr + 12)
      throw_taken browser r3 r2
      receive_array exports browser r0 r1

    -- `registerFont`
    unfoldable pub register_font_bytes : Bytes → Call (List JsValue)
    register_font_bytes bytes = frame exports (read_families bytes)

    abbrev pub pass_family : Text → List JsValue → ℕ → Call (Unit {0})
    pass_family kind families retptr = do
      ptr0 ← pass_string_to_wasm browser exports kind
      len0 ← wasm_vector_len browser exports
      ptr1 ← pass_array_js_value_to_wasm browser exports families
      len1 ← wasm_vector_len browser exports
      run exports (set_generic_family retptr ptr0 len0 ptr1 len1)
      r0 ← get_int32 browser retptr
      r1 ← get_int32 browser (retptr + 4)
      throw_taken browser r1 r0

    -- `setGenericFamily`
    unfoldable pub set_family : Text → List JsValue → Call (Unit {0})
    set_family kind families = frame exports (pass_family kind families)
