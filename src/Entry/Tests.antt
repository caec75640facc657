-- ===== src/Entry/Tests.antt =====
-- Loads of tools/hep-viewer/entry.js with a toy browser.
use ggsql_duckdb.Prelude.{
  ℕ, Bool, ◌==◌, false, ◌≡◌, refl, true, Option, none, some, [], ◌∷◌, codes, arith,
}
use ggsql_duckdb.Entry.Base64.{AllBytes, copy_codes, decode_base64}
use ggsql_duckdb.Entry.Loader.{
  Bytes, Assets, Browser, load_face, load_faces, load_module, Loader, load_hep,
}
use ggsql_duckdb.Entry.Render.{show, after_load, render_hep, IsShown, render_hep-IsShown}
use ggsql_duckdb.Viewer.Host.{Numbers, Wasm}
use ggsql_duckdb.Viewer.Draw.{emit, size_and_emit, schedule, render_now}
use ggsql_duckdb.Viewer.Theme.{detach_media, set_color_scheme}
use ggsql_duckdb.Viewer.Lifecycle.{Surroundings, construct, create}

-- An `atob` that knows one text.
abbrev one_text : Bytes → Option Bytes
one_text [] = none
one_text (_ ∷ _) = some (1 ∷ 255 ∷ [])

one_text-bytes : (s binary : Bytes) → one_text s ≡ some binary → AllBytes binary
one_text-bytes [] binary e = cc
one_text-bytes (x ∷ s) binary e = let q : 1 ∷ 255 ∷ [] ≡ binary = cc in rw (← q) (omega arith)

abbrev browser : Browser
browser = record {
  atob = one_text;
  gunzip = λ b. some b;
  init = λ b. true;
  register_font = λ b. true;
  object_url = λ n. codes "blob:";
  set_generic_family = true;
}

abbrev no_fonts : Browser
no_fonts = record browser { register_font = λ b. false }

abbrev assets : Assets
assets = record { wasm = 1 ∷ []; fonts = λ f. 2 ∷ [] }

abbrev fresh : Loader
fresh = record { module_promise = none; world = record { effects = []; urls = 0 } }

decodes : decode_base64 (λ s. some s) (7 ∷ 300 ∷ []) ≡ some (7 ∷ 44 ∷ [])
unfolding decode_base64 copy_codes
decodes = refl

abbrev sizes : Numbers ℕ
sizes = record {
  one = 1;
  is_truthy = λ n. true;
  same = λ a b. a == b;
  round = λ n. n;
  max = λ a b. b;
  div = λ a b. a;
}

-- A document is its theme; drawing it gives one warning.
abbrev drawing : Wasm ℕ Bool
drawing = record {
  load = λ bytes. some false;
  set_dark = λ b d. b;
  set_pick_ids = λ b d. d;
  set_transparent = λ b d. d;
  is_dark = λ d. d;
  hint_width = λ d. none;
  hint_height = λ d. none;
  hint_dpi = λ d. none;
  to_svg = λ d w h p. some (record { warnings = some ("w" ∷ []); svg = some "svg" });
  is_dark-set_dark = λ b d. refl;
}

abbrev place : Surroundings ℕ
place = record {
  client_width = 800;
  client_height = 600;
  prefers_dark = false;
  next_id = 0;
  next_view_id = 0;
}

warned : (render_hep sizes drawing browser (some assets) place (1 ∷ []) fresh).0.1 ≡ "w" ∷ []
unfolding render_hep show create construct render_now size_and_emit emit set_color_scheme
    detach_media schedule load_hep load_module load_faces load_face decode_base64 copy_codes
warned = refl

render_hep-IsShown_example :
    let (first, left) = render_hep sizes drawing browser (some assets) place (1 ∷ []) fresh in
    IsShown first
    × (render_hep sizes drawing no_fonts none place (2 ∷ []) left
        ≡ (after_load sizes drawing (load_hep browser (some assets) fresh).0 place (2 ∷ []), left))
render_hep-IsShown_example =
    render_hep-IsShown sizes drawing browser no_fonts (some assets) none place place (1 ∷ [])
      (2 ∷ []) fresh
