-- ===== src/Calls/Received.antt =====
-- What the getter `svg` of rust/assets/hep-viewer.js gives, from what the wasm side has left in its
-- memory.
use ggsql_duckdb.Prelude.{ℕ, ◌+◌, ◌%◌, ◌<◌, ◌≡◌, refl, ◌∙◌, Option, none, some, arith}
use ggsql_duckdb.Boot.Init.{Text}
use ggsql_duckdb.Boot.Memory.{subarray, get_string, decode_text, get_uint8_array}
use ggsql_duckdb.Boot.Views.{IsCurrent, renew_uint8_array-buffer, same_buffer_eq}
use ggsql_duckdb.Calls.Machine.{
  to_int32, Block, Machine, World, answer, Outcome, returned, thrown, Request, svg, Exports,
  Browser, ◌>>=◌, or_throw,
}
use ggsql_duckdb.Calls.Access.{word_at, get_int32, get_text}
use ggsql_duckdb.Calls.Document.{run, read_pair, svg_getter}
use ggsql_duckdb.Calls.Keeps.{moved, move_stack-bind}
use ggsql_duckdb.Calls.Methods.{KeepsStack}
use ggsql_duckdb.Calls.Runs.{
  same_word, small_word, bind-returned, viewed, get_int32-returned, run-returned,
}
use ggsql_duckdb.Calls.Given.{text-finish_svg}

-- What the decoder's result comes to.
abbrev pub decoded : Browser → Option Text → Outcome Text
decoded browser none = thrown browser.type_error
decoded browser (some s) = returned s

or_throw-decoded :
    (browser : Browser) (o : Option Text) (w : World)
    → (or_throw o browser.type_error w).0 ≡ decoded browser o
or_throw-decoded browser none w = refl
or_throw-decoded browser (some s) w = refl

module _ (browser : Browser) where
  get_text-decoded :
      (a b : ℕ) (w : World)
      → IsCurrent w.machine.memory w.machine.globals
      → a < 4294967296
      → b < 2147483648
      → (get_text browser (to_int32 a) (to_int32 b) w).0
        ≡ decoded browser (browser.decode (subarray a b w.machine.memory.content))
  unfolding get_text ◌>>=◌ get_string decode_text get_uint8_array
  get_text-decoded a b w v l h =
      let m = w.machine.memory in
      let same : a % 4294967296 ≡ a = omega arith in
      rw
        (
          renew_uint8_array-buffer browser.other_length m w.machine.globals.cached_uint8_array
              v.uint8_array,
          (same_buffer_eq m.buffer m.buffer).1 refl,
          same_word a l,
          same,
          small_word b h,
        )
        (or_throw-decoded browser (browser.decode (subarray a b m.content)) _)

  module _ (exports : Exports) (request : ℕ → Request) (retptr : ℕ) (w : World) (n : Machine) where
    pub read_pair-returned :
        (a b : ℕ)
        → exports.run (request retptr) w.machine ≡ (answer 0, n)
        → IsCurrent n.memory n.globals
        → word_at retptr n.memory.content ≡ some a
        → word_at (retptr + 4) n.memory.content ≡ some b
        → read_pair exports browser request retptr w
          ≡ (returned (to_int32 a, to_int32 b), viewed (record w { machine = n }))
    read_pair-returned a b ran current first second =
        let after : World = record w { machine = n } in
        let seen = viewed after in
        let still : IsCurrent seen.machine.memory seen.machine.globals = record {
          data_view = refl;
          uint8_array = current.uint8_array;
        } in
        bind-returned (run exports (request retptr)) _ w after 0 (run-returned exports _ w 0 n ran)
        ∙ bind-returned (get_int32 browser retptr) _ after seen (to_int32 a)
            (get_int32-returned browser retptr a after current first)
        ∙ bind-returned (get_int32 browser (retptr + 4)) _ seen seen (to_int32 b)
            (get_int32-returned browser (retptr + 4) b seen still second)

-- The getter `svg` gives the text whose bytes lie where the export says, or the error of the decoder
-- if they are no UTF-8: the block is given back only after they were read.
pub svg_getter-decoded :
    (exports : Exports) (browser : Browser) (ptr : ℕ) (w : World) (n : Machine) (a b : ℕ)
    → KeepsStack exports
    → ((block : Block) (m : Machine)
        → (n : ℕ) × ((exports.free block.address block.size block.alignment m).0 ≡ answer n))
    → let m = (moved w).machine in
      exports.run (svg m.stack_pointer ptr) m ≡ (answer 0, n)
      → IsCurrent n.memory n.globals
      → word_at m.stack_pointer n.memory.content ≡ some a
      → word_at (m.stack_pointer + 4) n.memory.content ≡ some b
      → a < 4294967296
      → b < 2147483648
      → (svg_getter exports browser ptr w).0
        ≡ decoded browser (browser.decode (subarray a b n.memory.content))
unfolding svg_getter
svg_getter-decoded exports browser ptr w n a b k f ran current first second l h =
    let sp = (moved w).machine.stack_pointer in
    let seen = viewed (record w { machine = n }) in
    rw
      (
        move_stack-bind browser exports k (read_pair exports browser (λ retptr. svg retptr ptr)) w,
        read_pair-returned browser exports (λ retptr. svg retptr ptr) sp (moved w) n a b ran current
            first second,
      )
      (text-finish_svg browser exports k a b seen f
        ∙ get_text-decoded browser a b seen
            (record { data_view = refl; uint8_array = current.uint8_array }) l h)
