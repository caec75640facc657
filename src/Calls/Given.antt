-- ===== src/Calls/Given.antt =====
-- The block of a text that the getter `svg` of rust/assets/hep-viewer.js receives, and when it is given
-- back.
use ggsql_duckdb.Prelude.{ℕ, ◌+◌, ◌%◌, ◌≡◌, refl, ap, ◌∙◌, Option, none, some, [], ◌∷◌, ◌++◌}
use ggsql_duckdb.Boot.Init.{Buffer}
use ggsql_duckdb.Calls.Machine.{
  ℤ, to_int32, Block, Machine, World, answer, Outcome, returned, thrown, trapped, Call, Request,
  svg, Exports, Browser, bind_outcome, ◌>>=◌, or_throw,
}
use ggsql_duckdb.Calls.Access.{uint32_through, data_view_memory, get_uint32, get_int32, get_text}
use ggsql_duckdb.Calls.Document.{
  text_block, deferred, run, free_block, read_pair, finish_svg, svg_getter,
}
use ggsql_duckdb.Calls.Keeps.{moved, move_stack-bind}
use ggsql_duckdb.Calls.Methods.{KeepsStack}

-- A call that frees no block.
abbrev pub FreesNone : {A : Type 0} → Call A → Type 0
FreesNone m = (w : World) → (m w).1.frees ≡ w.frees

frees-bind_outcome :
    {A B : Type 0} (r : Outcome A) (f : A → Call B) (w : World)
    → ((a : A) → FreesNone (f a))
    → (bind_outcome r f w).1.frees ≡ w.frees
frees-bind_outcome (returned a) f w k = k a w
frees-bind_outcome (thrown e) f w k = refl
frees-bind_outcome (trapped e) f w k = refl

pub FreesNone-bind :
    {A B : Type 0} (m : Call A) (f : A → Call B)
    → FreesNone m
    → ((a : A) → FreesNone (f a))
    → FreesNone (m >>= f)
unfolding ◌>>=◌
FreesNone-bind m f h k w = frees-bind_outcome (m w).0 f (m w).1 k ∙ h w

FreesNone-or_throw :
    {A : Type 0} (o : Option A) (w : World) (e : _) → (or_throw o e w).1.frees ≡ w.frees
FreesNone-or_throw none w e = refl
FreesNone-or_throw (some a) w e = refl

module _ (browser : Browser) where
  pub FreesNone-get_uint32 : (view : Buffer) (at : ℕ) → FreesNone (get_uint32 browser view at)
  FreesNone-get_uint32 view at w = FreesNone-or_throw (uint32_through view at w.machine) w _

  pub FreesNone-get_int32 : (at : ℕ) → FreesNone (get_int32 browser at)
  unfolding get_int32
  FreesNone-get_int32 at =
      FreesNone-bind (data_view_memory browser) _ (λ w. refl)
        λ view.
          FreesNone-bind (get_uint32 browser view at) _ (FreesNone-get_uint32 view at) λ v w. refl

  FreesNone-get_text : (ptr len : ℤ) → FreesNone (get_text browser ptr len)
  unfolding get_text
  FreesNone-get_text ptr len =
      FreesNone-bind _ _ (λ w. refl) λ bytes w. FreesNone-or_throw (browser.decode bytes) w _

  module _ (exports : Exports) where
    FreesNone-read_pair :
        (request : ℕ → Request) (retptr : ℕ) → FreesNone (read_pair exports browser request retptr)
    FreesNone-read_pair request retptr =
        FreesNone-bind (run exports (request retptr)) _ (λ w. refl)
          λ _. FreesNone-bind (get_int32 browser retptr) _ (FreesNone-get_int32 retptr) λ r0.
            FreesNone-bind (get_int32 browser (retptr + 4)) _ (FreesNone-get_int32 (retptr + 4))
              λ r1 w. refl

    module _ (k : KeepsStack exports) where
      frees-finish_svg :
          (r : Outcome (ℤ × ℤ)) (v : World)
          → (finish_svg exports browser r v).1.frees
            ≡ v.frees ++ (text_block (deferred r).0 (deferred r).1 ∷ [])
      unfolding finish_svg free_block ◌>>=◌
      frees-finish_svg r v =
          let u = (bind_outcome r (λ p. get_text browser p.0 p.1) v).1 in
          let kept =
            frees-bind_outcome r (λ p. get_text browser p.0 p.1) v
              (λ p. FreesNone-get_text p.0 p.1) in
          rw (k.moves 16 u.machine)
            (ap (λ f. f ++ (text_block (deferred r).0 (deferred r).1 ∷ [])) kept)

      -- The text once the words of its block are read.
      pub text-finish_svg :
          (a b : ℕ) (v : World)
          → ((block : Block) (m : Machine)
              → (n : ℕ) × ((exports.free block.address block.size block.alignment m).0 ≡ answer n))
          → (finish_svg exports browser (returned (to_int32 a, to_int32 b)) v).0
            ≡ (get_text browser (to_int32 a) (to_int32 b) v).0
      unfolding finish_svg free_block ◌>>=◌
      text-finish_svg a b v f =
          let u = (get_text browser (to_int32 a) (to_int32 b) v).1 in
          let m : Machine = record u.machine {
            stack_pointer = (u.machine.stack_pointer + 16) % 4294967296;
          } in
          let (n, freed) = f (text_block (to_int32 a) (to_int32 b)) m in
          rw (k.moves 16 u.machine, freed) refl

      -- However the getter `svg` ends, also where the export, a read or the decoder fails, it calls
      -- `__wbindgen_export3` exactly once: on the block of the text if its two words were read, else
      -- on the null pointer and size 0.
      pub frees-svg_getter :
          (ptr : ℕ) (w : World)
          → let r =
              (read_pair exports browser
                (λ retptr. svg retptr ptr)
                (moved w).machine.stack_pointer
                (moved w)).0 in
            (svg_getter exports browser ptr w).1.frees
            ≡ w.frees ++ (text_block (deferred r).0 (deferred r).1 ∷ [])
      unfolding svg_getter
      frees-svg_getter ptr w =
          let body = read_pair exports browser (λ retptr. svg retptr ptr) in
          let sp = (moved w).machine.stack_pointer in
          let r = (body sp (moved w)).0 in
          rw (move_stack-bind browser exports k body w) (
            frees-finish_svg r (body sp (moved w)).1
            ∙ ap (λ f. f ++ (text_block (deferred r).0 (deferred r).1 ∷ []))
                (FreesNone-read_pair (λ retptr. svg retptr ptr) sp (moved w)))
