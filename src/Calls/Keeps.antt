-- ===== src/Calls/Keeps.antt =====
-- What the steps of a call leave of the stack pointer of the wasm side.
use ggsql_duckdb.Prelude.{
  ℕ, zero, suc, ◌+◌, ◌%◌, ◌<◌, ◌≡◌, refl, sym, subst, Option, none, some, List, [], ◌∷◌, arith,
}
use ggsql_duckdb.Boot.Init.{Bytes, Text, Buffer, Globals}
use ggsql_duckdb.Boot.Memory.{Memory, get_data_view}
use ggsql_duckdb.Glue.Heap.{JsValue, Heap, add_heap_object}
use ggsql_duckdb.Calls.Machine.{
  ℤ, pos, to_int32, to_uint32, Block, Machine, World, Outcome, returned, thrown, trapped, Call,
  Request, Exports, Browser, pure, throw, bind_outcome, ◌>>=◌, after_finally, try_finally, or_throw,
}
use ggsql_duckdb.Calls.Access.{
  attempted, attempt, uint32_through, set_uint32_through, added, passed_array, as_length,
  wasm_vector_len, data_view_memory, get_uint32, get_int32, get_float64, take_value, take_words,
  get_array_js_value, get_text, add_object, add_words, pass_array8_to_wasm, pass_string_to_wasm,
  pass_array_js_value_to_wasm,
}
use ggsql_duckdb.Calls.Document.{move_stack, free_block, frame, run}
use ggsql_duckdb.Calls.Methods.{StackIs, KeepsStack}

-- What a call leaves of the stack pointer, unless it ends by a trap.
abbrev pub Kept : {A : Type 0} → ℕ → Outcome A × World → Type 0
Kept n r = StackIs n r.0 r.1.machine

pub record Keeps {A : Type 0} (m : Call A) : Type 0 where
  pub at : (w : World) → w.machine.stack_pointer < 4294967296 → Kept w.machine.stack_pointer (m w)

pub Kept-bind_outcome :
    {A B : Type 0} (n : ℕ) (r : Outcome A) (f : A → Call B) (w : World)
    → n < 4294967296
    → StackIs n r w.machine
    → ((a : A) → Keeps (f a))
    → Kept n (bind_outcome r f w)
Kept-bind_outcome n (returned a) f w l h k =
    subst (λ i. Kept i (f a w)) h ((k a).at w (subst (λ i. i < 4294967296) (sym h) l))
Kept-bind_outcome n (thrown e) f w l h k = h
Kept-bind_outcome n (trapped e) f w l h k = tt

pub Keeps-bind :
    {A B : Type 0} {m : Call A} {f : A → Call B}
    → Keeps m
    → ((a : A) → Keeps (f a))
    → Keeps (m >>= f)
unfolding ◌>>=◌
Keeps-bind {m} {f} h k = record {
  at = λ w l. Kept-bind_outcome w.machine.stack_pointer (m w).0 f (m w).1 l (h.at w l) k;
}

pub Keeps-pure : {A : Type 0} (a : A) → Keeps (pure a)
Keeps-pure a = record { at = λ w l. refl }

pub Keeps-throw : {A : Type 0} (e : JsValue) → Keeps (throw {A = A} e)
Keeps-throw e = record { at = λ w l. refl }

pub Kept-or_throw :
    {A : Type 0} (o : Option A) (e : JsValue) (w : World)
    → Kept w.machine.stack_pointer (or_throw o e w)
Kept-or_throw none e w = refl
Kept-or_throw (some a) e w = refl

-- What a step that may fail leaves of the stack pointer, if it does not fail.
abbrev pub SameStack : {A : Type 0} → Machine → Option (A × Machine) → Type 0
SameStack m none = Unit
SameStack m (some (a, n)) = n.stack_pointer ≡ m.stack_pointer

pub Kept-attempted :
    {A : Type 0} (e : JsValue) (w : World) (o : Option (A × Machine))
    → SameStack w.machine o
    → Kept w.machine.stack_pointer (attempted e w o)
Kept-attempted e w none k = refl
Kept-attempted e w (some (a, n)) k = k

pub Keeps-attempt :
    {A : Type 0} (e : JsValue) (f : Machine → Option (A × Machine))
    → ((m : Machine) → SameStack m (f m))
    → Keeps (attempt e f)
Keeps-attempt e f h = record { at = λ w l. Kept-attempted e w (f w.machine) (h w.machine) }

-- How a call goes on after `__wbindgen_add_to_stack_pointer(-16)`.
abbrev pub moved : World → World
moved w = record w {
  machine = record w.machine {
    stack_pointer = (w.machine.stack_pointer + 4294967280) % 4294967296;
  };
}

module _ (browser : Browser) where
  pub Keeps-get_uint32 : (view : Buffer) (at : ℕ) → Keeps (get_uint32 browser view at)
  Keeps-get_uint32 view at = record {
    at = λ w l. Kept-or_throw (uint32_through view at w.machine) _ w;
  }

  pub Keeps-data_view_memory : Keeps (data_view_memory browser)
  unfolding get_data_view
  Keeps-data_view_memory = record { at = λ w l. refl }

  pub Keeps-get_int32 : (at : ℕ) → Keeps (get_int32 browser at)
  unfolding get_int32
  Keeps-get_int32 at =
      Keeps-bind Keeps-data_view_memory
        λ view. Keeps-bind (Keeps-get_uint32 view at) λ a. Keeps-pure (to_int32 a)

  pub Keeps-get_float64 : (at : ℕ) → Keeps (get_float64 browser at)
  unfolding get_float64
  Keeps-get_float64 at =
      Keeps-bind Keeps-data_view_memory
        λ view. Keeps-bind (Keeps-get_uint32 view (at + 4)) λ a. record { at = λ w l. refl }

  pub Keeps-take_value : (idx : ℤ) → Keeps (take_value browser idx)
  unfolding take_value
  Keeps-take_value idx = record { at = λ w l. refl }

  pub Keeps-take_words : (view : Buffer) (at n : ℕ) → Keeps (take_words browser view at n)
  unfolding take_words
  Keeps-take_words view at zero = Keeps-pure []
  Keeps-take_words view at (suc n) = Keeps-bind (Keeps-get_uint32 view at) λ idx.
      Keeps-bind (Keeps-take_value (pos idx))
        λ v. Keeps-bind (Keeps-take_words view (at + 4) n) λ vs. Keeps-pure (v ∷ vs)

  pub Keeps-get_array_js_value : (ptr len : ℤ) → Keeps (get_array_js_value browser ptr len)
  unfolding get_array_js_value
  Keeps-get_array_js_value ptr len =
      Keeps-bind Keeps-data_view_memory
        λ view. Keeps-take_words view (to_uint32 ptr) (as_length len)

  pub Keeps-get_text : (ptr len : ℤ) → Keeps (get_text browser ptr len)
  unfolding get_text
  Keeps-get_text ptr len =
      Keeps-bind (record { at = λ w l. refl })
        λ bytes. record { at = λ w l. Kept-or_throw (browser.decode bytes) _ w }

  pub SameStack-added : (o : Option (ℕ × Heap)) (m : Machine) → SameStack m (added o m)
  SameStack-added none m = tt
  SameStack-added (some (idx, h)) m = refl

  pub Keeps-add_object : (obj : JsValue) → Keeps (add_object browser obj)
  unfolding add_object
  Keeps-add_object obj = Keeps-attempt _ _ λ m. SameStack-added (add_heap_object obj m.heap) m

  pub SameStack-set_uint32 :
      (view : Buffer) (at v : ℕ) (m : Machine) → SameStack m (set_uint32_through view at v m)
  SameStack-set_uint32 view at v m = ground arith

  pub Keeps-add_words :
      (view : Buffer) (at : ℕ) (vs : List JsValue) → Keeps (add_words browser view at vs)
  unfolding add_words
  Keeps-add_words view at [] = Keeps-pure tt
  Keeps-add_words view at (v ∷ vs) = Keeps-bind (Keeps-add_object v) λ idx.
      Keeps-bind (Keeps-attempt _ _ (SameStack-set_uint32 view at idx))
        λ _. Keeps-add_words view (at + 4) vs

  pub SameStack-passed_array :
      (o : Option (ℕ × (Memory × Globals ℕ ℕ))) (m : Machine) → SameStack m (passed_array o m)
  SameStack-passed_array none m = tt
  SameStack-passed_array (some r) m = refl

  module _ (exports : Exports) (k : KeepsStack exports) where
    pub Keeps-wasm_vector_len : Keeps (wasm_vector_len browser exports)
    Keeps-wasm_vector_len = record { at = λ w l. refl }

    pub Keeps-pass_array8 : (arg : Bytes) → Keeps (pass_array8_to_wasm browser exports arg)
    unfolding pass_array8_to_wasm
    Keeps-pass_array8 arg = Keeps-attempt _ _ λ m. SameStack-passed_array _ m

    pub Keeps-pass_string : (arg : Text) → Keeps (pass_string_to_wasm browser exports arg)
    unfolding pass_string_to_wasm
    Keeps-pass_string arg = record { at = λ w l. refl }

    pub Keeps-pass_array_js_value :
        (array : List JsValue) → Keeps (pass_array_js_value_to_wasm browser exports array)
    unfolding pass_array_js_value_to_wasm
    Keeps-pass_array_js_value array =
        Keeps-bind (record { at = λ w l. refl })
          λ raw. Keeps-bind Keeps-data_view_memory λ view.
            Keeps-bind (Keeps-add_words view (raw % 4294967296) array)
              λ _. record { at = λ w l. refl }

    pub Keeps-run : (r : Request) → Keeps (run exports r)
    Keeps-run r = record { at = λ w l. k.run r w.machine }

    pub Keeps-free_block : (b : Block) → Keeps (free_block exports b)
    unfolding free_block
    Keeps-free_block b = record { at = λ w l. k.free b.address b.size b.alignment w.machine }

    -- From the frame's own stack pointer back to that of before.
    pub restored : (n : ℕ) → n < 4294967296 → ((n + 4294967280) % 4294967296 + 16) % 4294967296 ≡ n
    restored n l = omega arith

    pub Kept-finally :
        {A : Type 0} (n : ℕ) (r : Outcome A) (w : World)
        → n < 4294967296
        → StackIs ((n + 4294967280) % 4294967296) r w.machine
        → let (s, u) = move_stack exports 16 w in Kept n (after_finally r s, u)
    Kept-finally n (returned a) w l h = rw (k.moves 16 w.machine, h) (restored n l)
    Kept-finally n (thrown e) w l h = rw (k.moves 16 w.machine, h) (restored n l)
    Kept-finally n (trapped e) w l h = rw (k.moves 16 w.machine) tt

    pub move_stack-bind :
        {A : Type 0} (body : ℕ → Call A) (w : World)
        → (move_stack exports 4294967280 >>= body) w
          ≡ body (moved w).machine.stack_pointer (moved w)
    unfolding ◌>>=◌
    move_stack-bind body w = rw (k.moves 4294967280 w.machine) refl

    pub Keeps-frame :
        {A : Type 0} {body : ℕ → Call A} → ((r : ℕ) → Keeps (body r)) → Keeps (frame exports body)
    unfolding frame try_finally
    Keeps-frame {body} h = record {
      at = λ w l.
          let sp = (moved w).machine.stack_pointer in
          rw (move_stack-bind body w) (
            Kept-finally w.machine.stack_pointer (body sp (moved w)).0 (body sp (moved w)).1 l
              ((h sp).at (moved w) (omega arith)));
    }
