-- ===== src/Glue/Owned.antt =====
-- Who frees a block of the wasm side: `PlotDocument` and `SvgRender` of rust/assets/hep-viewer.js,
-- which wrap one each, and the FinalizationRegistry of their class. The two classes are written in
-- the same way, and so are modelled once.
use ggsql_duckdb.Prelude.{
  ℕ, suc, ◌-◌, ◌≡◌, ◌≢◌, Bool, true, false, Option, none, some, List, [], ◌∷◌, ◌++◌, ◌==◌,
  get_elem?, set, if◌then◌else◌,
}

-- An object of the class: its field `__wbg_ptr`, the value that the registry holds for it, and
-- whether it has become unreachable and been collected.
pub record Wrapper : Type 0 where
  pub ptr : ℕ
  pub held : Option ℕ
  pub collected : Bool

-- The objects in the order of their creation, and how many blocks at each address the wasm side has
-- given out and not got back.
pub record Blocks : Type 0 where
  pub objects : List Wrapper
  pub live : ℕ → ℕ

-- A call of the export that frees a block, by the account of what has been given out and given back:
-- it passes a block that is out, the null pointer, or an address of no block.
pub data Account : Type 0 where
  of_block of_null of_no_block : Account

abbrev pub give_back : ℕ → (ℕ → ℕ) → ℕ → ℕ
give_back ptr live p = if p == ptr then live p - 1 else live p

-- `wasm.__wbg_plotdocument_free(ptr, …)`, and the counts behind it
abbrev pub account : ℕ → (ℕ → ℕ) → Account × (ℕ → ℕ)
account ptr live =
    if ptr == 0
    then (of_null, live)
    else (if live ptr == 0 then (of_no_block, live) else (of_block, give_back ptr live))

-- `__wrap`, on the block that the wasm side gives out
abbrev pub wrap : ℕ → Blocks → Blocks
wrap ptr s = record {
  objects = s.objects ++ (record { ptr = ptr; held = some ptr; collected = false } ∷ []);
  live = λ p. if p == ptr then suc (s.live p) else s.live p;
}

-- `__destroy_into_raw`, which unregisters the object
abbrev pub destroy_into_raw : Wrapper → ℕ × Wrapper
destroy_into_raw w = (w.ptr, record w { ptr = 0; held = none })

-- `free` of the i-th object
unfoldable pub free_object : ℕ → Wrapper → Blocks → Account × Blocks
free_object i w s =
    let (ptr, v) = destroy_into_raw w in
    let (r, live) = account ptr s.live in (r, record { objects = set s.objects i v; live = live })

-- The callback of the registry, if it holds a pointer for the object.
abbrev pub finalize : Option ℕ → (ℕ → ℕ) → Option Account × (ℕ → ℕ)
finalize none live = (none, live)
finalize (some ptr) live = let (r, left) = account ptr live in (some r, left)

-- The collector takes the i-th object.
unfoldable pub collect : ℕ → Wrapper → Blocks → Option Account × Blocks
collect i w s =
    let (r, live) = finalize w.held s.live in
    (
      r,
      record {
        objects = set s.objects i (record w { held = none; collected = true });
        live = live;
      },
    )

abbrev pub no_blocks : Blocks
no_blocks = record { objects = []; live = λ p. 0 }

pub data Step : Blocks → Blocks → Type 0 where
  -- the wasm side gives out a block: at an address that is in no use
  wraps : (s : Blocks) (ptr : ℕ) → ptr ≢ 0 → s.live ptr ≡ 0 → Step s (wrap ptr s)
  -- a call of `free`, whether it returns or throws; only on an object that can be reached
  frees :
      (s : Blocks) (i : ℕ) (w : Wrapper)
      → get_elem? s.objects i ≡ some w
      → w.collected ≡ false
      → Step s (free_object i w s).1
  collects :
      (s : Blocks) (i : ℕ) (w : Wrapper)
      → get_elem? s.objects i ≡ some w
      → w.collected ≡ false
      → Step s (collect i w s).1

pub data Reach : Blocks → Type 0 where
  here : Reach no_blocks
  next : {s t : Blocks} → Reach s → Step s t → Reach t
