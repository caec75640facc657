-- ===== src/Calls/Machine.antt =====
-- A call of an export of the wasm module in rust/assets/hep-viewer.js: the state that it works on, how
-- it can end, and `try … finally`.
use ggsql_duckdb.Prelude.{ℕ, ◌-◌, Bool, Option, none, some, List, ltb, if◌then◌else◌}
use ggsql_duckdb.Boot.Init.{Bytes, Text, Globals}
use ggsql_duckdb.Boot.Memory.{Memory}
use ggsql_duckdb.Boot.Text.{Encoder}
use ggsql_duckdb.Glue.Heap.{JsValue, Heap}

-- A number as `getInt32` gives it. `negsuc n` is -(n + 1).
pub data ℤ : Type 0 where
  pos : ℕ → ℤ
  negsuc : ℕ → ℤ

-- 32 bits read as a signed number, and `>>> 0`, which is also how the wasm side takes an argument.
abbrev pub to_int32 : ℕ → ℤ
to_int32 n = if ltb n 2147483648 then pos n else negsuc (4294967295 - n)

abbrev pub to_uint32 : ℤ → ℕ
to_uint32 (pos n) = n
to_uint32 (negsuc n) = 4294967295 - n

-- What an export works on: the stack pointer and the memory of the wasm side and, through the
-- functions that it imports, the variables of the bundle and the table of objects. There is one
-- module with one instance, which are numbered.
pub record Machine : Type 0 where
  pub stack_pointer : ℕ
  pub memory : Memory
  pub globals : Globals ℕ ℕ
  pub heap : Heap

-- The arguments of a call of `__wbindgen_export3`, which frees a block: address, size, alignment.
pub record Block : Type 0 where
  pub address : ℕ
  pub size : ℕ
  pub alignment : ℕ

-- With the calls of `__wbindgen_export3` so far, newest last.
pub record World : Type 0 where
  pub machine : Machine
  pub frees : List Block

-- `thrown` is an error that the bundle raises, `trapped` one that comes out of an export: a trap, or
-- the error of `__wbindgen_throw`.
pub data Outcome (A : Type 0) : Type 0 where
  returned : A → Outcome A
  thrown : JsValue → Outcome A
  trapped : JsValue → Outcome A

abbrev pub Call : Type 0 → Type 0
Call A = World → Outcome A × World

-- The names of the exports with their arguments. A number of 64 bits is its eight bytes.
pub data Request : Type 0 where
  hint_dpi hint_height hint_width : ℕ → ℕ → Request
  is_dark is_transparent pick_ids : ℕ → Request
  set_dark set_pick_ids set_transparent : ℕ → Bool → Request
  load : ℕ → ℕ → ℕ → Request
  to_svg : ℕ → Bytes → Bytes → ℕ → ℕ → Request
  svg warnings : ℕ → ℕ → Request
  has_fonts : Request
  register_font : ℕ → ℕ → ℕ → Request
  set_generic_family : ℕ → ℕ → ℕ → ℕ → ℕ → Request

-- How a call of an export ends. An answer is 32 bits, 0 where there is none.
pub data Answer : Type 0 where
  answer : ℕ → Answer
  trap : JsValue → Answer

abbrev pub outcome_of : Answer → Outcome ℕ
outcome_of (answer n) = returned n
outcome_of (trap e) = trapped e

-- The exports.
pub record Exports : Type 0 where
  pub run : Request → Machine → Answer × Machine
  -- `__wbindgen_add_to_stack_pointer`, on a 32-bit number
  pub add_to_stack_pointer : ℕ → Machine → Answer × Machine
  -- `__wbindgen_export3`
  pub free : ℕ → ℕ → ℕ → Machine → Answer × Machine
  -- `__wbindgen_export` at a size and an alignment, and `__wbindgen_export2` at alignment 1
  pub malloc : ℕ → ℕ → Memory → ℕ × Memory
  pub realloc : ℕ → ℕ → ℕ → Memory → ℕ × Memory

-- What the browser gives, and the errors that it raises.
pub record Browser : Type 0 where
  pub has_detached : Bool
  pub other_length : ℕ
  -- `TextDecoder` with `fatal`: `none` is its error
  pub decode : Bytes → Option Text
  pub encoder : Encoder
  pub range_error : JsValue
  pub type_error : JsValue
  -- `Error(…)`
  pub error : Text → JsValue
  -- a text as a value, and the text of a value that is one
  pub string : Text → JsValue
  pub text_of : JsValue → Option Text

module _ {A : Type 0} where
  abbrev pub pure : A → Call A
  pure a w = (returned a, w)

  abbrev pub throw : JsValue → Call A
  throw e w = (thrown e, w)

infixl 5 ◌>>=◌ ◌>>◌
abbrev pub bind_outcome : {A B : Type 0} → Outcome A → (A → Call B) → Call B
bind_outcome (returned a) f w = f a w
bind_outcome (thrown e) f w = (thrown e, w)
bind_outcome (trapped e) f w = (trapped e, w)

unfoldable pub ◌>>=◌ : {A B : Type 0} → Call A → (A → Call B) → Call B
◌>>=◌ m f w = bind_outcome (m w).0 f (m w).1

abbrev pub ◌>>◌ : {A B : Type 0} → Call A → Call B → Call B
m >> k = m >>= λ _. k

-- How `try { m } finally { k }` ends, from the end of each: an error of `k` takes the place of the
-- other.
abbrev pub after_finally : {A B : Type 0} → Outcome A → Outcome B → Outcome A
after_finally r (returned b) = r
after_finally r (thrown e) = thrown e
after_finally r (trapped e) = trapped e

unfoldable pub try_finally : {A B : Type 0} → Call A → Call B → Call A
try_finally m k w = let (r, v) = m w in let (s, u) = k v in (after_finally r s, u)

-- A call of an export, from the bundle.
abbrev pub call : (Machine → Answer × Machine) → Call ℕ
call e w = let (r, m) = e w.machine in (outcome_of r, record w { machine = m })

-- A step of the bundle itself on the state.
abbrev pub modify : {A : Type 0} → (Machine → A × Machine) → Call A
modify f w = let (a, m) = f w.machine in (returned a, record w { machine = m })

abbrev pub gets : {A : Type 0} → (Machine → A) → Call A
gets f w = (returned (f w.machine), w)

abbrev pub or_throw : {A : Type 0} → Option A → JsValue → Call A
or_throw none e = throw e
or_throw (some a) e = pure a
