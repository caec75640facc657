-- ===== src/Calls/Document.antt =====
-- `PlotDocument` and `SvgRender` of rust/assets/hep-viewer.js: each method as a call of its export.
use ggsql_duckdb.Prelude.{
  ℕ, ◌*◌, ◌%◌, Bool, true, false, not, Option, none, some, List, [], ◌∷◌, ◌++◌, ◌==◌, ◌+◌,
  if◌then◌else◌,
}
use ggsql_duckdb.Boot.Init.{Bytes, Text}
use ggsql_duckdb.Glue.Heap.{JsValue}
use ggsql_duckdb.Glue.Owned.{Wrapper}
use ggsql_duckdb.Calls.Machine.{
  ℤ, pos, negsuc, to_uint32, Block, Outcome, returned, Call, Request, hint_dpi, hint_height,
  hint_width, is_dark, is_transparent, pick_ids, set_dark, set_pick_ids, set_transparent, load,
  to_svg, svg, warnings, Exports, Browser, pure, throw, bind_outcome, ◌>>=◌, ◌>>◌, after_finally,
  try_finally, call,
}
use ggsql_duckdb.Calls.Access.{
  get_int32, get_float64, take_value, get_array_js_value, get_text, wasm_vector_len,
  pass_array8_to_wasm, pass_string_to_wasm,
}

-- `r !== 0`, and a number as a condition
abbrev pub truthy : ℤ → Bool
truthy (pos n) = not (n == 0)
truthy (negsuc n) = true

-- `__wrap`: the object that holds the address. The blocks of all objects are in Glue/Owned.
abbrev pub wrapped : ℕ → Wrapper
wrapped ptr = record { ptr = ptr; held = some ptr; collected = false }

-- The block of a text, and of an array of `len` indices.
abbrev pub text_block : ℤ → ℤ → Block
text_block ptr len = record { address = to_uint32 ptr; size = to_uint32 len; alignment = 1 }

abbrev pub array_block : ℤ → ℤ → Block
array_block ptr len = record {
  address = to_uint32 ptr;
  size = to_uint32 len * 4 % 4294967296;
  alignment = 4;
}

-- `deferred1_0` and `deferred1_1` as the wasm side takes them: `undefined` is taken as 0.
abbrev pub deferred : Outcome (ℤ × ℤ) → ℤ × ℤ
deferred (returned r) = r
deferred _ = (pos 0, pos 0)

-- `throw takeObject(r)` if the flag is set
abbrev pub throw_taken : Browser → ℤ → ℤ → Call (Unit {0})
throw_taken browser flag r = if truthy flag then (do e ← take_value browser r; throw e) else pure tt

module _ (exports : Exports) where
  abbrev pub run : Request → Call ℕ
  run r = call (exports.run r)

  -- `wasm.__wbindgen_add_to_stack_pointer(…)`; -16 is 4294967280 as 32 bits
  abbrev pub move_stack : ℕ → Call ℕ
  move_stack n = call (exports.add_to_stack_pointer n)

  -- `wasm.__wbindgen_export3(…)`
  unfoldable pub free_block : Block → Call ℕ
  free_block b w =
      call (exports.free b.address b.size b.alignment) (record w { frees = w.frees ++ (b ∷ []) })

  -- `try { const retptr = …(-16); … } finally { …(16); }`
  unfoldable pub frame : {A : Type 0} → (ℕ → Call A) → Call A
  frame body = try_finally (move_stack 4294967280 >>= body) (move_stack 16)

  -- `isDark`, `isTransparent`, `pickIds` and `hasFonts`, each with its export
  unfoldable pub get_flag : Request → Call Bool
  get_flag r = do ret ← run r; pure (not (ret == 0))

  unfoldable pub get_is_dark : ℕ → Call Bool
  get_is_dark ptr = get_flag (is_dark ptr)

  unfoldable pub get_is_transparent : ℕ → Call Bool
  get_is_transparent ptr = get_flag (is_transparent ptr)

  unfoldable pub get_pick_ids : ℕ → Call Bool
  get_pick_ids ptr = get_flag (pick_ids ptr)

  -- `setDark`, `setPickIds` and `setTransparent`
  unfoldable pub call_set_dark : ℕ → Bool → Call ℕ
  call_set_dark ptr dark = run (set_dark ptr dark)

  unfoldable pub call_set_pick_ids : ℕ → Bool → Call ℕ
  call_set_pick_ids ptr on = run (set_pick_ids ptr on)

  unfoldable pub call_set_transparent : ℕ → Bool → Call ℕ
  call_set_transparent ptr transparent = run (set_transparent ptr transparent)

  module _ (browser : Browser) where
    -- what the three hints do between the stack moves
    abbrev pub read_hint : (ℕ → Request) → ℕ → Call (Option Bytes)
    read_hint request retptr = do
      run (request retptr)
      r0 ← get_int32 browser retptr
      r2 ← get_float64 browser (retptr + 8)
      pure (if truthy r0 then some r2 else none)

    unfoldable pub get_hint_dpi : ℕ → Call (Option Bytes)
    get_hint_dpi ptr = frame (read_hint λ retptr. hint_dpi retptr ptr)

    unfoldable pub get_hint_height : ℕ → Call (Option Bytes)
    get_hint_height ptr = frame (read_hint λ retptr. hint_height retptr ptr)

    unfoldable pub get_hint_width : ℕ → Call (Option Bytes)
    get_hint_width ptr = frame (read_hint λ retptr. hint_width retptr ptr)

    abbrev pub read_document : Bytes → ℕ → Call Wrapper
    read_document doc retptr = do
      ptr0 ← pass_array8_to_wasm browser exports doc
      len0 ← wasm_vector_len browser exports
      run (load retptr ptr0 len0)
      r0 ← get_int32 browser retptr
      r1 ← get_int32 browser (retptr + 4)
      r2 ← get_int32 browser (retptr + 8)
      throw_taken browser r2 r1
      pure (wrapped (to_uint32 r0))

    -- `PlotDocument.load`
    unfoldable pub load_document : Bytes → Call Wrapper
    load_document doc = frame (read_document doc)

    -- `toSvg`
    unfoldable pub draw_svg : ℕ → Bytes → Bytes → Text → Call Wrapper
    draw_svg ptr width height id_prefix = do
      ptr0 ← pass_string_to_wasm browser exports id_prefix
      len0 ← wasm_vector_len browser exports
      ret ← run (to_svg ptr width height ptr0 len0)
      pure (wrapped ret)

    -- The two words that an export leaves.
    abbrev pub read_pair : (ℕ → Request) → ℕ → Call (ℤ × ℤ)
    read_pair request retptr = do
      run (request retptr)
      r0 ← get_int32 browser retptr
      r1 ← get_int32 browser (retptr + 4)
      pure (r0, r1)

    -- The getter `svg`: from the assignment of the deferred values on, or from the error that has
    -- come before it, the rest of the `try` and the `finally`.
    unfoldable pub finish_svg : Outcome (ℤ × ℤ) → Call Text
    finish_svg r v =
        let (s, u) = bind_outcome r (λ p. get_text browser p.0 p.1) v in
        let (t, x) = (move_stack 16 >> free_block (text_block (deferred r).0 (deferred r).1)) u in
        (after_finally s t, x)

    unfoldable pub svg_getter : ℕ → Call Text
    svg_getter ptr w =
        let (r, v) = (move_stack 4294967280 >>= read_pair λ retptr. svg retptr ptr) w in
        finish_svg r v

    -- From the words of an array of values to the values, with the block given back.
    abbrev pub receive_array : ℤ → ℤ → Call (List JsValue)
    receive_array r0 r1 = do
      v1 ← get_array_js_value browser r0 r1
      free_block (array_block r0 r1)
      pure v1

    -- The getter `warnings`
    unfoldable pub warnings_getter : ℕ → Call (List JsValue)
    warnings_getter ptr =
        frame λ retptr. read_pair (λ p. warnings p ptr) retptr >>= λ r. receive_array r.0 r.1
