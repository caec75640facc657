-- ===== src/Calls/Balanced.antt =====
-- The calls of rust/assets/hep-viewer.js give back the stack of the wasm side.
use ggsql_duckdb.Prelude.{ℕ, ◌+◌, ◌%◌, ◌<◌, ◌∙◌, List, arith, inl, inr, Bool-cases}
use ggsql_duckdb.Boot.Init.{Bytes, Text}
use ggsql_duckdb.Glue.Heap.{JsValue}
use ggsql_duckdb.Calls.Machine.{
  ℤ, Block, Machine, World, Answer, answer, trap, outcome_of, Outcome, returned, thrown, trapped,
  Call, Request, svg, hint_dpi, hint_height, hint_width, is_dark, is_transparent, pick_ids,
  set_dark, set_pick_ids, set_transparent, load, to_svg, warnings, has_fonts, register_font,
  set_generic_family, Exports, Browser, pure, bind_outcome, ◌>>=◌, ◌>>◌, after_finally,
}
use ggsql_duckdb.Calls.Access.{get_text}
use ggsql_duckdb.Calls.Document.{
  truthy, move_stack, free_block, get_flag, get_is_dark, get_is_transparent, get_pick_ids,
  call_set_dark, call_set_pick_ids, call_set_transparent, throw_taken, read_hint, read_document,
  read_pair, receive_array, get_hint_dpi, get_hint_height, get_hint_width, load_document, draw_svg,
  svg_getter, finish_svg, warnings_getter, frame, run,
}
use ggsql_duckdb.Calls.Fonts.{get_has_fonts, register_font_bytes, set_family}
use ggsql_duckdb.Calls.Keeps.{
  Kept, Keeps, Kept-bind_outcome, Keeps-bind, Keeps-pure, Keeps-throw, Keeps-get_int32,
  Keeps-get_float64, Keeps-take_value, Keeps-get_array_js_value, Keeps-get_text,
  Keeps-wasm_vector_len, Keeps-pass_array8, Keeps-pass_string, Keeps-pass_array_js_value, Keeps-run,
  Keeps-free_block, restored, Keeps-frame, moved, move_stack-bind,
}
use ggsql_duckdb.Calls.Methods.{
  Method, dpi_hint, height_hint, width_hint, dark_flag, transparent_flag, pick_flag, put_dark,
  put_pick_ids, put_transparent, from_bytes, drawing, markup, warning_list, any_fonts, font, family,
  perform_method, StackIs, KeepsStack,
}

module _ (exports : Exports) (browser : Browser) (k : KeepsStack exports) where
  Keeps-get_flag : (r : Request) → Keeps (get_flag exports r)
  unfolding get_flag
  Keeps-get_flag r = Keeps-bind (Keeps-run browser exports k r) λ ret. Keeps-pure _

  Keeps-read_hint : (r : ℕ → Request) (retptr : ℕ) → Keeps (read_hint exports browser r retptr)
  Keeps-read_hint r retptr = Keeps-bind (Keeps-run browser exports k (r retptr)) λ _.
      Keeps-bind (Keeps-get_int32 browser retptr)
        λ r0. Keeps-bind (Keeps-get_float64 browser (retptr + 8)) λ r2. Keeps-pure _

  Keeps-throw_taken : (flag r : ℤ) → Keeps (throw_taken browser flag r)
  Keeps-throw_taken flag r = elim (Bool-cases (truthy flag)) [
    | inl e ↦ rw e (Keeps-bind (Keeps-take_value browser r) λ v. Keeps-throw v)
    | inr e ↦ rw e (Keeps-pure tt)
  ]

  Keeps-read_document :
      (doc : Bytes) (retptr : ℕ) → Keeps (read_document exports browser doc retptr)
  Keeps-read_document doc retptr = Keeps-bind (Keeps-pass_array8 browser exports k doc) λ ptr0.
      Keeps-bind (Keeps-wasm_vector_len browser exports k) λ len0.
        Keeps-bind (Keeps-run browser exports k (load retptr ptr0 len0)) λ _.
          Keeps-bind (Keeps-get_int32 browser retptr) λ r0.
            Keeps-bind (Keeps-get_int32 browser (retptr + 4)) λ r1.
              Keeps-bind (Keeps-get_int32 browser (retptr + 8))
                λ r2. Keeps-bind (Keeps-throw_taken r2 r1) λ _. Keeps-pure _

  Keeps-read_pair : (r : ℕ → Request) (retptr : ℕ) → Keeps (read_pair exports browser r retptr)
  Keeps-read_pair r retptr = Keeps-bind (Keeps-run browser exports k (r retptr)) λ _.
      Keeps-bind (Keeps-get_int32 browser retptr)
        λ r0. Keeps-bind (Keeps-get_int32 browser (retptr + 4)) λ r1. Keeps-pure _

  Keeps-receive_array : (r0 r1 : ℤ) → Keeps (receive_array exports browser r0 r1)
  Keeps-receive_array r0 r1 =
      Keeps-bind (Keeps-get_array_js_value browser r0 r1)
        λ v1. Keeps-bind (Keeps-free_block browser exports k _) λ _. Keeps-pure v1

  -- the `finally` of the getter `svg`
  Kept-svg_finally :
      (n : ℕ) (s : Outcome Text) (u : World) (b : Block)
      → n < 4294967296
      → StackIs ((n + 4294967280) % 4294967296) s u.machine
      → let (t, x) = (move_stack exports 16 >> free_block exports b) u in
        Kept n (after_finally s t, x)
  unfolding ◌>>=◌ free_block
  Kept-svg_finally n s u b l h =
      let sp = (u.machine.stack_pointer + 16) % 4294967296 in
      let m : Machine = record u.machine { stack_pointer = sp } in
      rw (k.moves 16 u.machine) (
        freed s (exports.free b.address b.size b.alignment m).0 _
          (k.free b.address b.size b.alignment m) h)
    where
      freed :
          (s : Outcome Text) (t : Answer) (m : Machine)
          → StackIs ((u.machine.stack_pointer + 16) % 4294967296) (outcome_of t) m
          → StackIs ((n + 4294967280) % 4294967296) s u.machine
          → StackIs n (after_finally s (outcome_of t)) m
      freed (returned a) (answer t) m e g = e ∙ rw g (restored browser exports k n l)
      freed (thrown a) (answer t) m e g = e ∙ rw g (restored browser exports k n l)
      freed (trapped a) (answer t) m e g = tt
      freed s (trap t) m e g = tt

  Kept-finish_svg :
      (n : ℕ) (r : Outcome (ℤ × ℤ)) (v : World)
      → n < 4294967296
      → StackIs ((n + 4294967280) % 4294967296) r v.machine
      → Kept n (finish_svg exports browser r v)
  unfolding finish_svg
  Kept-finish_svg n r v l h =
      let (s, u) = bind_outcome r (λ p. get_text browser p.0 p.1) v in
      Kept-svg_finally n s u _ l (
        Kept-bind_outcome ((n + 4294967280) % 4294967296) r (λ p. get_text browser p.0 p.1) v
          (omega arith) h (λ p. Keeps-get_text browser p.0 p.1))

  Keeps-svg_getter : (ptr : ℕ) → Keeps (svg_getter exports browser ptr)
  unfolding svg_getter
  Keeps-svg_getter ptr = record {
    at = λ w l.
        let before = moved w in
        let body = read_pair exports browser (λ retptr. svg retptr ptr) in
        let sp = before.machine.stack_pointer in
        rw (move_stack-bind browser exports k body w) (
          Kept-finish_svg w.machine.stack_pointer (body sp before).0 (body sp before).1 l
            ((Keeps-read_pair (λ retptr. svg retptr ptr) sp).at before (omega arith)));
  }

  Keeps-drop : {A : Type 0} {m : Call A} → Keeps m → Keeps (m >> pure tt)
  Keeps-drop h = Keeps-bind h λ _. Keeps-pure tt

  Keeps-load_document : (doc : Bytes) → Keeps (load_document exports browser doc)
  unfolding load_document
  Keeps-load_document doc = Keeps-frame browser exports k (Keeps-read_document doc)

  Keeps-draw_svg :
      (ptr : ℕ) (width height : Bytes) (prefix : Text)
      → Keeps (draw_svg exports browser ptr width height prefix)
  unfolding draw_svg
  Keeps-draw_svg ptr width height prefix =
      Keeps-bind (Keeps-pass_string browser exports k prefix) λ ptr0.
        Keeps-bind (Keeps-wasm_vector_len browser exports k) λ len0.
          Keeps-bind (Keeps-run browser exports k (to_svg ptr width height ptr0 len0))
            λ ret. Keeps-pure _

  Keeps-warnings_getter : (ptr : ℕ) → Keeps (warnings_getter exports browser ptr)
  unfolding warnings_getter
  Keeps-warnings_getter ptr = Keeps-frame browser exports k λ retptr.
      Keeps-bind (Keeps-read_pair (λ p. warnings p ptr) retptr) λ r. Keeps-receive_array r.0 r.1

  Keeps-register_font_bytes : (bytes : Bytes) → Keeps (register_font_bytes exports browser bytes)
  unfolding register_font_bytes
  Keeps-register_font_bytes bytes = Keeps-frame browser exports k λ retptr.
      Keeps-bind (Keeps-pass_array8 browser exports k bytes) λ ptr0.
        Keeps-bind (Keeps-wasm_vector_len browser exports k) λ len0.
          Keeps-bind (Keeps-run browser exports k (register_font retptr ptr0 len0)) λ _.
            Keeps-bind (Keeps-get_int32 browser retptr) λ r0.
              Keeps-bind (Keeps-get_int32 browser (retptr + 4)) λ r1.
                Keeps-bind (Keeps-get_int32 browser (retptr + 8)) λ r2.
                  Keeps-bind (Keeps-get_int32 browser (retptr + 12))
                    λ r3. Keeps-bind (Keeps-throw_taken r3 r2) λ _. Keeps-receive_array r0 r1

  Keeps-set_family :
      (kind : Text) (families : List JsValue) → Keeps (set_family exports browser kind families)
  unfolding set_family
  Keeps-set_family kind families = Keeps-frame browser exports k λ retptr.
      Keeps-bind (Keeps-pass_string browser exports k kind) λ ptr0.
        Keeps-bind (Keeps-wasm_vector_len browser exports k) λ len0.
          Keeps-bind (Keeps-pass_array_js_value browser exports k families) λ ptr1.
            Keeps-bind (Keeps-wasm_vector_len browser exports k) λ len1.
              Keeps-bind
                (Keeps-run browser exports k (set_generic_family retptr ptr0 len0 ptr1 len1))
                λ _. Keeps-bind (Keeps-get_int32 browser retptr) λ r0.
                  Keeps-bind (Keeps-get_int32 browser (retptr + 4)) λ r1. Keeps-throw_taken r1 r0

  Keeps-flag : (r : Request) → Keeps (get_flag exports r >> pure tt)
  Keeps-flag r = Keeps-drop (Keeps-get_flag r)

  Keeps-hint : (r : ℕ → Request) → Keeps (frame exports (read_hint exports browser r) >> pure tt)
  Keeps-hint r = Keeps-drop (Keeps-frame browser exports k (Keeps-read_hint r))

  Keeps-call : (r : Request) → Keeps (run exports r >> pure tt)
  Keeps-call r = Keeps-drop (Keeps-run browser exports k r)

  Keeps-perform_method : (m : Method) → Keeps (perform_method exports browser m)
  unfolding perform_method get_hint_dpi get_hint_height get_hint_width get_is_dark
      get_is_transparent get_pick_ids call_set_dark call_set_pick_ids call_set_transparent
      get_has_fonts
  Keeps-perform_method (dpi_hint ptr) = Keeps-hint λ retptr. hint_dpi retptr ptr
  Keeps-perform_method (height_hint ptr) = Keeps-hint λ retptr. hint_height retptr ptr
  Keeps-perform_method (width_hint ptr) = Keeps-hint λ retptr. hint_width retptr ptr
  Keeps-perform_method (dark_flag ptr) = Keeps-flag (is_dark ptr)
  Keeps-perform_method (transparent_flag ptr) = Keeps-flag (is_transparent ptr)
  Keeps-perform_method (pick_flag ptr) = Keeps-flag (pick_ids ptr)
  Keeps-perform_method (put_dark ptr dark) = Keeps-call (set_dark ptr dark)
  Keeps-perform_method (put_pick_ids ptr on) = Keeps-call (set_pick_ids ptr on)
  Keeps-perform_method (put_transparent ptr on) = Keeps-call (set_transparent ptr on)
  Keeps-perform_method (from_bytes doc) = Keeps-drop (Keeps-load_document doc)
  Keeps-perform_method (drawing ptr width height prefix) =
      Keeps-drop (Keeps-draw_svg ptr width height prefix)
  Keeps-perform_method (markup ptr) = Keeps-drop (Keeps-svg_getter ptr)
  Keeps-perform_method (warning_list ptr) = Keeps-drop (Keeps-warnings_getter ptr)
  Keeps-perform_method any_fonts = Keeps-flag has_fonts
  Keeps-perform_method (font bytes) = Keeps-drop (Keeps-register_font_bytes bytes)
  Keeps-perform_method (family kind families) = Keeps-set_family kind families

-- Every method of `PlotDocument` and `SvgRender` and every function for fonts leaves the stack
-- pointer of the wasm side as it was, whether it returns or throws, but for an error that comes out
-- of an export. The stack pointer is a 32-bit number, an export that returns keeps it, and
-- `__wbindgen_add_to_stack_pointer` adds to it.
pub perform_method-StackIs :
    (exports : Exports) (browser : Browser) (m : Method) (w : World)
    → KeepsStack exports
    → w.machine.stack_pointer < 4294967296
    → let (r, v) = perform_method exports browser m w in StackIs w.machine.stack_pointer r v.machine
perform_method-StackIs exports browser m w k l = (Keeps-perform_method exports browser k m).at w l
