-- ===== src/Viewer/Tests.antt =====
-- Runs of `PlotView` (rust/assets/hep-viewer.js) over whole-number sizes and a toy document.
use Prim.Native.Nat.{max}
use ggsql_duckdb.Prelude.{
  ℕ, ◌/◌, ◌≡◌, refl, inl, Bool, true, false, Option, none, some, List, [], ◌∷◌, ◌==◌, if◌then◌else◌,
  arith,
}
use ggsql_duckdb.Viewer.Host.{Numbers, Wasm}
use ggsql_duckdb.Viewer.State.{State, throws, null_pointer, auto}
use ggsql_duckdb.Viewer.Draw.{
  emit, draw, size_and_emit, render_now, schedule, on_frame, redraw, resize,
}
use ggsql_duckdb.Viewer.Asked.{view_is_dark}
use ggsql_duckdb.Viewer.Theme.{detach_media, set_color_scheme}
use ggsql_duckdb.Viewer.Lifecycle.{
  redraws, resizes, sets_scheme, frees, asks_dark, frame_due, ViewOptions, Surroundings, blank,
  construct, create, free, dispatch, run,
}
use ggsql_duckdb.Viewer.Invariant.{IsLive, IsValid}
use ggsql_duckdb.Viewer.History.{blank-IsLive, run-create-IsValid}
use ggsql_duckdb.Viewer.Fresh.{IsFresh}
use ggsql_duckdb.Viewer.Drawn.{run-create-IsFresh}
use ggsql_duckdb.Viewer.Themed.{IsThemed}

pub record ToyDoc : Type 0 where
  pub dark_theme : Bool
  pub pick_ids : Bool
  pub see_through : Bool

abbrev pub whole : Numbers ℕ
whole = record {
  one = 1;
  is_truthy = λ n. if n == 0 then false else true;
  same = ◌==◌;
  round = λ n. n;
  max = max;
  div = ◌/◌;
}

abbrev pub toy_load : List ℕ → Option ToyDoc
toy_load [] = none
toy_load (_ ∷ _) = some (record { dark_theme = false; pick_ids = true; see_through = false })

-- Width 13 makes the toy trap.
abbrev pub toy : Wasm ℕ ToyDoc
toy = record {
  load = toy_load;
  set_dark = λ b d. record d { dark_theme = b };
  set_pick_ids = λ b d. record d { pick_ids = b };
  set_transparent = λ b d. record d { see_through = b };
  is_dark = λ d. d.dark_theme;
  hint_width = λ _. some 640;
  hint_height = λ _. none;
  hint_dpi = λ _. none;
  to_svg = λ d w h p.
      if w == 13
      then none
      else some
          (record { warnings = some []; svg = some (if d.dark_theme then "dark" else "light") });
  is_dark-set_dark = λ b d. refl;
}

abbrev pub defaults : ViewOptions ℕ
defaults = record {
  id_prefix = none;
  aspect = none;
  picking = none;
  transparent = none;
  color_scheme = none;
  auto_resize = none;
}

abbrev pub page : Surroundings ℕ
page = record {
  client_width = 800;
  client_height = 0;
  prefers_dark = true;
  next_id = 0;
  next_view_id = 0;
}

abbrev pub start : State ℕ ToyDoc
start =
    blank whole toy defaults page
      (record { dark_theme = false; pick_ids = true; see_through = false })

drawn : (dispatch whole toy redraws start).1.last_size ≡ some (800, 1)
unfolding dispatch redraw render_now size_and_emit emit
drawn = refl

-- `auto` under a dark OS, the frame that follows, and a trap at width 13.
followed :
    (run whole toy (sets_scheme auto ∷ frame_due 1 ∷ resizes 13 5 ∷ []) start).inner_html
    ≡ some "dark"
unfolding run dispatch set_color_scheme detach_media schedule on_frame size_and_emit emit resize
    draw
followed = refl

start-IsLive : IsLive start
start-IsLive = blank-IsLive whole toy defaults page _

-- The view follows the OS, is freed, and is then asked whether it is dark.
run-create-IsValid_example :
    let t = run whole toy (sets_scheme auto ∷ frees ∷ []) (construct whole toy defaults start).1 in
    IsValid t
    × ((dispatch whole toy asks_dark t).0 ≡ throws null_pointer → (t.freed ≡ true) × (true ≡ true))
unfolding create
run-create-IsValid_example =
    run-create-IsValid whole toy defaults page (1 ∷ []) (sets_scheme auto ∷ frees ∷ []) asks_dark
      (construct whole toy defaults start).0 (construct whole toy defaults start).1 refl

asks_dark_of_freed :
    (dispatch whole toy asks_dark (run whole toy (frees ∷ []) start)).0 ≡ throws null_pointer
unfolding run dispatch free detach_media view_is_dark
asks_dark_of_freed = refl

-- The view after its first drawing.
abbrev pub shown : State ℕ ToyDoc
shown = record start { last_size = some (800, 1); inner_html = some "light" }

pub shown-IsValid : IsValid shown
shown-IsValid = inl (ground arith)

pub shown-IsThemed : IsThemed whole toy shown
shown-IsThemed = record { theme = λ _. refl; listens = λ _. refl }

run-create-IsFresh_example : IsFresh whole toy (
    run whole toy
      (sets_scheme auto ∷ resizes 40 30 ∷ frame_due 1 ∷ [])
      (construct whole toy defaults start).1)
unfolding create construct run dispatch set_color_scheme detach_media schedule on_frame
    size_and_emit emit resize draw render_now
run-create-IsFresh_example =
    run-create-IsFresh whole toy defaults page (1 ∷ [])
      (sets_scheme auto ∷ resizes 40 30 ∷ frame_due 1 ∷ []) (construct whole toy defaults start).1
      refl (refl, (refl, (refl, tt)))
