-- ===== src/Calls/Runs.antt =====
-- How the steps of a call in rust/assets/hep-viewer.js end, one equation for each.
use ggsql_duckdb.Prelude.{ℕ, ◌<◌, ◌+◌, ◌%◌, ◌≤◌, ◌≡◌, refl, ◌∙◌, arith, some, length}
use ggsql_duckdb.Boot.Init.{Bytes}
use ggsql_duckdb.Boot.Memory.{overwrite, get_data_view}
use ggsql_duckdb.Boot.Views.{IsCurrent, renew_data_view-buffer, same_buffer_eq, pass_array8-some}
use ggsql_duckdb.Glue.Heap.{JsValue, Heap, take_object}
use ggsql_duckdb.Calls.Machine.{
  pos, to_int32, to_uint32, Machine, World, answer, Outcome, returned, thrown, Call, Request,
  Exports, Browser, ◌>>=◌, try_finally,
}
use ggsql_duckdb.Calls.Access.{
  word_at, data_view_memory, get_uint32, get_int32, take_value, pass_array8_to_wasm,
}
use ggsql_duckdb.Calls.Document.{frame, run}
use ggsql_duckdb.Calls.Keeps.{moved, move_stack-bind}
use ggsql_duckdb.Calls.Methods.{KeepsStack}

pub same_word : (n : ℕ) → n < 4294967296 → to_uint32 (to_int32 n) ≡ n
same_word n l = ground arith

pub small_word : (n : ℕ) → n < 2147483648 → to_int32 n ≡ pos n
small_word n l = ground arith

pub bind-returned :
    {A B : Type 0} (m : Call A) (f : A → Call B) (w v : World) (a : A)
    → m w ≡ (returned a, v)
    → (m >>= f) w ≡ f a v
unfolding ◌>>=◌
bind-returned m f w v a e = rw e refl

pub bind-thrown :
    {A B : Type 0} (m : Call A) (f : A → Call B) (w v : World) (x : JsValue)
    → m w ≡ (thrown x, v)
    → (m >>= f) w ≡ (thrown x, v)
unfolding ◌>>=◌
bind-thrown m f w v x e = rw e refl

-- The state with the memory's own buffer as the cached `DataView`.
abbrev pub viewed : World → World
viewed w = record w {
  machine = record w.machine {
    globals = record w.machine.globals { cached_data_view = some w.machine.memory.buffer };
  };
}

-- The state with another table of objects.
abbrev pub with_heap : Heap → World → World
with_heap h w = record w { machine = record w.machine { heap = h } }

module _ (browser : Browser) where
  pub data_view_memory-viewed :
      (w : World)
      → IsCurrent w.machine.memory w.machine.globals
      → data_view_memory browser w ≡ (returned w.machine.memory.buffer, viewed w)
  unfolding get_data_view
  data_view_memory-viewed w v =
      rw
        (renew_data_view-buffer browser.has_detached w.machine.memory
          w.machine.globals.cached_data_view v.data_view)
        refl

  pub get_uint32-returned :
      (at v : ℕ) (w : World)
      → word_at at w.machine.memory.content ≡ some v
      → get_uint32 browser w.machine.memory.buffer at w ≡ (returned v, w)
  get_uint32-returned at v w e =
      rw ((same_buffer_eq w.machine.memory.buffer w.machine.memory.buffer).1 refl, e) refl

  pub get_int32-returned :
      (at v : ℕ) (w : World)
      → IsCurrent w.machine.memory w.machine.globals
      → word_at at w.machine.memory.content ≡ some v
      → get_int32 browser at w ≡ (returned (to_int32 v), viewed w)
  unfolding get_int32
  get_int32-returned at v w c e =
      let buffer = w.machine.memory.buffer in
      bind-returned (data_view_memory browser) _ w (viewed w) buffer (data_view_memory-viewed w c)
      ∙ bind-returned (get_uint32 browser buffer at) _ (viewed w) (viewed w) v
          (get_uint32-returned at v (viewed w) e)

  pub take_value-returned :
      (idx : ℕ) (w : World)
      → take_value browser (pos idx) w ≡ (
        returned (take_object idx w.machine.heap).0,
        with_heap (take_object idx w.machine.heap).1 w,
      )
  unfolding take_value
  take_value-returned idx w = refl

  module _ (exports : Exports) where
    -- The state after the bytes were passed, from the block that the allocator gave.
    abbrev pub sent : Bytes → Machine → Machine
    sent arg m =
        let (raw, grown) = exports.malloc (length arg) 1 m.memory in
        record m {
          memory = record grown { content = overwrite (raw % 4294967296) arg grown.content };
          globals = record m.globals {
            cached_uint8_array = some grown.buffer;
            vector_len = length arg;
          };
        }

    -- The address at which they lie.
    abbrev pub sent_at : Bytes → Machine → ℕ
    sent_at arg m = (exports.malloc (length arg) 1 m.memory).0 % 4294967296

    pub pass_array8_to_wasm-returned :
        (arg : Bytes) (w : World)
        → let grown = (exports.malloc (length arg) 1 w.machine.memory).1 in
          IsCurrent grown w.machine.globals
          → sent_at arg w.machine + length arg ≤ length grown.content
          → pass_array8_to_wasm browser exports arg w
            ≡ (returned (sent_at arg w.machine), record w { machine = sent arg w.machine })
    unfolding pass_array8_to_wasm
    pass_array8_to_wasm-returned arg w c h =
        rw
          (pass_array8-some (λ n. exports.malloc n 1) browser.other_length arg w.machine.memory
            w.machine.globals c h)
          refl

module _ (exports : Exports) where
  pub run-returned :
      (r : Request) (w : World) (n : ℕ) (m : Machine)
      → exports.run r w.machine ≡ (answer n, m)
      → run exports r w ≡ (returned n, record w { machine = m })
  run-returned r w n m e = rw e refl

  -- The state after `__wbindgen_add_to_stack_pointer(16)`.
  abbrev pub raised : World → World
  raised w = record w {
    machine = record w.machine { stack_pointer = (w.machine.stack_pointer + 16) % 4294967296 };
  }

  module _ (k : KeepsStack exports) where
    -- The frame ends as its body does.
    pub frame-ended :
        {A : Type 0} (browser : Browser) (body : ℕ → Call A) (w v : World) (r : Outcome A)
        → body (moved w).machine.stack_pointer (moved w) ≡ (r, v)
        → frame exports body w ≡ (r, raised v)
    unfolding frame try_finally
    frame-ended browser body w v r e =
        rw (move_stack-bind browser exports k body w, e, k.moves 16 v.machine) refl
