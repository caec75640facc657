-- ===== src/Calls/Imported.antt =====
-- `__wbindgen_string_get` of rust/assets/hep-viewer.js: how the wasm side gets the text of a value.
use ggsql_duckdb.Prelude.{
  ℕ, zero, suc, ◌+◌, ◌%◌, ◌<◌, ◌≤◌, ◌≡◌, refl, ap, ◌∙◌, ◌⊎◌, Option, none, some, [], ◌∷◌, length,
  arith,
}
use ggsql_duckdb.Boot.Init.{Bytes, Text}
use ggsql_duckdb.Boot.Memory.{overwrite, subarray}
use ggsql_duckdb.Boot.Views.{IsCurrent, length-overwrite}
use ggsql_duckdb.Boot.Text.{pass_string}
use ggsql_duckdb.Boot.Arrives.{Fits, Reallocates, subarray-pass_string}
use ggsql_duckdb.Glue.Heap.{get_object}
use ggsql_duckdb.Calls.Machine.{Machine, World, returned, Exports, Browser, ◌>>=◌, ◌>>◌, gets}
use ggsql_duckdb.Calls.Access.{
  word_bytes, word_at, data_view_memory, set_uint32, pass_string_to_wasm, wasm_vector_len, passed,
}
use ggsql_duckdb.Calls.Imports.{pass_option, string_get}
use ggsql_duckdb.Calls.Runs.{bind-returned, viewed, data_view_memory-viewed}
use ggsql_duckdb.Calls.Written.{with_content, set_uint32-returned, word_at-overwrite}

-- Bytes beside what is written stay.
subarray-overwrite_beside :
    (from n at : ℕ) (w bs : Bytes)
    → (from + n ≤ at) ⊎ (at + length w ≤ from)
    → subarray from n (overwrite at w bs) ≡ subarray from n bs
subarray-overwrite_beside from n at [] bs h = refl
subarray-overwrite_beside from n at (x ∷ w) [] h = refl
subarray-overwrite_beside zero zero zero (x ∷ w) (b ∷ bs) h = refl
subarray-overwrite_beside zero zero (suc at) (x ∷ w) (b ∷ bs) h = refl
subarray-overwrite_beside zero (suc n) zero (x ∷ w) (b ∷ bs) h = absurd (ground arith)
subarray-overwrite_beside zero (suc n) (suc at) (x ∷ w) (b ∷ bs) h =
    ap (λ r. b ∷ r) (subarray-overwrite_beside zero n at (x ∷ w) bs (ground arith))
subarray-overwrite_beside (suc from) n zero (x ∷ w) (b ∷ bs) h =
    subarray-overwrite_beside from n zero w bs (ground arith)
subarray-overwrite_beside (suc from) n (suc at) (x ∷ w) (b ∷ bs) h =
    subarray-overwrite_beside from n at (x ∷ w) bs (ground arith)

word_at-overwrite_before :
    (from at : ℕ) (w bs : Bytes)
    → at + length w ≤ from
    → word_at from (overwrite at w bs) ≡ word_at from bs
unfolding word_at
word_at-overwrite_before from at [] bs h = refl
word_at-overwrite_before from at (x ∷ w) [] h = refl
word_at-overwrite_before zero at (x ∷ w) (b ∷ bs) h = absurd (omega arith)
word_at-overwrite_before (suc from) zero (x ∷ w) (b ∷ bs) h =
    word_at-overwrite_before from zero w bs (omega arith)
word_at-overwrite_before (suc from) (suc at) (x ∷ w) (b ∷ bs) h =
    word_at-overwrite_before from at (x ∷ w) bs (omega arith)

module _ (browser : Browser) (exports : Exports) (w : World) (arg0 : ℕ) where
  -- The end of the function, from the address and the size on.
  abbrev put_words : ℕ → ℕ → Bytes → Bytes
  put_words ptr len bs = overwrite arg0 (word_bytes ptr) (overwrite (arg0 + 4) (word_bytes len) bs)

  write_words :
      (ptr len : ℕ)
      → IsCurrent w.machine.memory w.machine.globals
      → arg0 + 8 ≤ length w.machine.memory.content
      → (do
        view ← data_view_memory browser
        set_uint32 browser view (arg0 + 4) len
        again ← data_view_memory browser
        set_uint32 browser again arg0 ptr)
          w
        ≡ (returned tt, with_content (put_words ptr len w.machine.memory.content) (viewed w))
  write_words ptr len current fits =
      let buffer = w.machine.memory.buffer in
      let seen = viewed w in
      let next = overwrite (arg0 + 4) (word_bytes len) w.machine.memory.content in
      let half = with_content next seen in
      let size = length-overwrite (arg0 + 4) (word_bytes len) w.machine.memory.content in
      let still : IsCurrent half.machine.memory half.machine.globals = record {
        data_view = refl;
        uint8_array = current.uint8_array;
      } in
      bind-returned (data_view_memory browser) _ w seen buffer
        (data_view_memory-viewed browser w current)
      ∙ bind-returned (set_uint32 browser buffer (arg0 + 4) len) _ seen half tt
          (set_uint32-returned browser (arg0 + 4) len seen (omega arith))
      ∙ bind-returned (data_view_memory browser) _ half half buffer
          (data_view_memory-viewed browser half still)
      ∙ set_uint32-returned browser arg0 ptr half (omega arith)

module _ (browser : Browser) (exports : Exports) where
  -- The address of a text that is passed, and the machine after it.
  abbrev pub pass_text : Option Text → Machine → ℕ × Machine
  pass_text none m = (0, m)
  pass_text (some s) m =
      passed
        (pass_string (λ n. exports.malloc n 1) exports.realloc browser.encoder browser.other_length
          s m.memory m.globals)
        m

  pass_option-pass_text :
      (o : Option Text) (w : World)
      → pass_option browser exports o w
        ≡ (returned (pass_text o w.machine).0, record w { machine = (pass_text o w.machine).1 })
  unfolding pass_string_to_wasm
  pass_option-pass_text none w = refl
  pass_option-pass_text (some s) w = refl

  string_get-put_words :
      (arg0 arg1 : ℕ) (w : World) (o : Option Text)
      → browser.text_of (get_object arg1 w.machine.heap) ≡ o
      → let (ptr, m) = pass_text o w.machine in
        IsCurrent m.memory m.globals
        → arg0 + 8 ≤ length m.memory.content
        → string_get browser exports arg0 arg1 w ≡ (
          returned tt,
          with_content
              (put_words browser exports w arg0 ptr m.globals.vector_len m.memory.content)
              (viewed (record w { machine = m })),
        )
  unfolding string_get
  string_get-put_words arg0 arg1 w o text current fits =
      let obj = get_object arg1 w.machine.heap in
      let (ptr, m) = pass_text o w.machine in
      let after : World = record w { machine = m } in
      bind-returned (gets λ m. get_object arg1 m.heap) _ w w obj refl
      ∙ bind-returned (pass_option browser exports (browser.text_of obj)) _ w after ptr
          (ap (λ t. pass_option browser exports t w) text ∙ pass_option-pass_text o w)
      ∙ bind-returned (wasm_vector_len browser exports) _ after after m.globals.vector_len refl
      ∙ write_words browser exports after arg0 ptr m.globals.vector_len current fits

  -- What the wasm side finds at an address: no text, or the UTF-8 of one.
  abbrev pub Tells : ℕ → Option Text → Bytes → Type 0
  Tells at none bs = word_at at bs ≡ some 0
  Tells at (some s) bs =
      (ptr len : ℕ) × (word_at at bs ≡ some ptr)
      × (word_at (at + 4) bs ≡ some len)
      × (subarray ptr len bs ≡ browser.encoder.encode s)

  -- Where a text is passed: the allocator gives a block in the memory, the text does not meet the two
  -- words at `arg0`, and its address and its size fit into 32 bits.
  abbrev pub IsPlaced : ℕ → Option Text → Machine → Type 0
  IsPlaced arg0 none w = Unit
  IsPlaced arg0 (some s) w =
      let (raw, grown) = exports.malloc (length s) 1 w.memory in
      let (ptr, m) = pass_text (some s) w in
      Fits (raw % 4294967296) (length s) grown
      × ((ptr + m.globals.vector_len ≤ arg0) ⊎ (arg0 + 8 ≤ ptr))
      × (ptr < 4294967296)
      × (m.globals.vector_len < 4294967296)

  Tells-put_words :
      (arg0 : ℕ) (w : World) (o : Option Text)
      → Reallocates exports.realloc
      → let (ptr, m) = pass_text o w.machine in
        IsPlaced arg0 o w.machine
        → arg0 + 8 ≤ length m.memory.content
        → Tells arg0 o (put_words browser exports w arg0 ptr m.globals.vector_len m.memory.content)
  Tells-put_words arg0 w none moves placed room =
      let n = w.machine.globals.vector_len in
      let size = length-overwrite (arg0 + 4) (word_bytes n) w.machine.memory.content in
      word_at-overwrite arg0 0 _ (omega arith) (omega arith)
  Tells-put_words arg0 w (some s) moves (fits, beside, l, h) room =
      let (ptr, m) = pass_text (some s) w.machine in
      let n = m.globals.vector_len in
      let bs = m.memory.content in
      let next = overwrite (arg0 + 4) (word_bytes n) bs in
      let size = length-overwrite (arg0 + 4) (word_bytes n) bs in
      (
        ptr,
        n,
        word_at-overwrite arg0 ptr next (omega arith) l,
        word_at-overwrite_before (arg0 + 4) arg0 (word_bytes ptr) next (omega arith)
            ∙ word_at-overwrite (arg0 + 4) n bs (omega arith) h,
        subarray-overwrite_beside ptr n arg0 (word_bytes ptr) next (omega (arith, beside))
            ∙ subarray-overwrite_beside ptr n (arg0 + 4) (word_bytes n) bs (omega (arith, beside))
            ∙ subarray-pass_string (λ k. exports.malloc k 1) exports.realloc browser.encoder
                browser.other_length s w.machine.memory w.machine.globals fits moves,
      )

  -- The text of a value arrives at the wasm side: after the function, the word at `arg0` is 0 if the
  -- value is no text, and else `arg0` has the address and the size of its UTF-8. The two words lie
  -- in the memory, the views that are cached are of it, and `realloc` keeps the content of a block.
  pub string_get-Tells :
      (arg0 arg1 : ℕ) (w : World) (o : Option Text)
      → browser.text_of (get_object arg1 w.machine.heap) ≡ o
      → Reallocates exports.realloc
      → let m = (pass_text o w.machine).1 in
        IsPlaced arg0 o w.machine
        → IsCurrent m.memory m.globals
        → arg0 + 8 ≤ length m.memory.content
        → let (r, v) = string_get browser exports arg0 arg1 w in
          (r ≡ returned tt) × Tells arg0 o v.machine.memory.content
  string_get-Tells arg0 arg1 w o text moves placed current room =
      rw (string_get-put_words arg0 arg1 w o text current room)
        (refl, Tells-put_words arg0 w o moves placed room)
