-- ===== src/Calls/Methods.antt =====
-- The calls of the wasm side of rust/assets/hep-viewer.js as one type, with what the wasm side says of
-- its stack pointer.
use ggsql_duckdb.Prelude.{ℕ, ◌+◌, ◌%◌, ◌≡◌, Bool, List}
use ggsql_duckdb.Boot.Init.{Bytes, Text}
use ggsql_duckdb.Glue.Heap.{JsValue}
use ggsql_duckdb.Calls.Machine.{
  Machine, Outcome, answer, outcome_of, trapped, Call, Request, Exports, Browser, pure, ◌>>◌,
}
use ggsql_duckdb.Calls.Document.{
  get_is_dark, get_is_transparent, get_pick_ids, call_set_dark, call_set_pick_ids,
  call_set_transparent, get_hint_dpi, get_hint_height, get_hint_width, load_document, draw_svg,
  svg_getter, warnings_getter,
}
use ggsql_duckdb.Calls.Fonts.{get_has_fonts, register_font_bytes, set_family}

-- A method of `PlotDocument` or `SvgRender`, with its `__wbg_ptr`, or a function for fonts.
pub data Method : Type 0 where
  dpi_hint height_hint width_hint : ℕ → Method
  dark_flag transparent_flag pick_flag : ℕ → Method
  put_dark put_pick_ids put_transparent : ℕ → Bool → Method
  from_bytes : Bytes → Method
  drawing : ℕ → Bytes → Bytes → Text → Method
  markup warning_list : ℕ → Method
  any_fonts : Method
  font : Bytes → Method
  family : Text → List JsValue → Method

module _ (exports : Exports) (browser : Browser) where
  unfoldable pub perform_method : Method → Call (Unit {0})
  perform_method (dpi_hint ptr) = get_hint_dpi exports browser ptr >> pure tt
  perform_method (height_hint ptr) = get_hint_height exports browser ptr >> pure tt
  perform_method (width_hint ptr) = get_hint_width exports browser ptr >> pure tt
  perform_method (dark_flag ptr) = get_is_dark exports ptr >> pure tt
  perform_method (transparent_flag ptr) = get_is_transparent exports ptr >> pure tt
  perform_method (pick_flag ptr) = get_pick_ids exports ptr >> pure tt
  perform_method (put_dark ptr dark) = call_set_dark exports ptr dark >> pure tt
  perform_method (put_pick_ids ptr on) = call_set_pick_ids exports ptr on >> pure tt
  perform_method (put_transparent ptr on) = call_set_transparent exports ptr on >> pure tt
  perform_method (from_bytes doc) = load_document exports browser doc >> pure tt
  perform_method (drawing ptr width height prefix) =
      draw_svg exports browser ptr width height prefix >> pure tt
  perform_method (markup ptr) = svg_getter exports browser ptr >> pure tt
  perform_method (warning_list ptr) = warnings_getter exports browser ptr >> pure tt
  perform_method any_fonts = get_has_fonts exports >> pure tt
  perform_method (font bytes) = register_font_bytes exports browser bytes >> pure tt
  perform_method (family kind families) = set_family exports browser kind families

-- After an end of an export that is not a trap the stack pointer is this one.
abbrev pub StackIs : {A : Type 0} → ℕ → Outcome A → Machine → Type 0
StackIs n (trapped e) m = Unit
StackIs n _ m = m.stack_pointer ≡ n

-- The wasm side: an export that returns has its stack pointer back, and
-- `__wbindgen_add_to_stack_pointer` adds to it, as to any 32-bit number.
pub record KeepsStack (exports : Exports) : Type 0 where
  pub run :
      (r : Request) (m : Machine)
      → StackIs m.stack_pointer (outcome_of (exports.run r m).0) (exports.run r m).1
  pub free :
      (address size alignment : ℕ) (m : Machine)
      → let r = exports.free address size alignment m in
        StackIs m.stack_pointer (outcome_of r.0) r.1
  pub moves :
      (n : ℕ) (m : Machine)
      → let sp = (m.stack_pointer + n) % 4294967296 in
        exports.add_to_stack_pointer n m ≡ (answer sp, record m { stack_pointer = sp })
