-- ===== src/Entry/Render.antt =====
-- `ggsqlRenderHep` of tools/hep-viewer/entry.js: the load, the view, and its warnings on the console.
use ggsql_duckdb.Prelude.{◌≡◌, refl, Option, none, some, List, [], String}
use ggsql_duckdb.Viewer.Host.{Numbers, Wasm}
use ggsql_duckdb.Viewer.State.{State, Exn, Outcome, ok, throws}
use ggsql_duckdb.Viewer.Lifecycle.{ViewOptions, Surroundings, create}
use ggsql_duckdb.Viewer.Invariant.{IsLive}
use ggsql_duckdb.Viewer.History.{view_of-IsLive}
use ggsql_duckdb.Entry.Loader.{
  Bytes, Assets, Browser, LoadError, Result, done, failed, Loader, load_hep,
}
use ggsql_duckdb.Entry.Loading.{load_hep-load_hep}

-- What the promise comes to: the errors of the load, of the document, and of its first drawing. With
-- the last one comes the view that the constructor leaves: it may watch the container, though the
-- promise does not give it to anyone.
pub data Rendered (Num Doc : Type 0) : Type 0 where
  not_loaded : LoadError → Rendered Num Doc
  unreadable : Rendered Num Doc
  not_drawn : Exn → State Num Doc → Rendered Num Doc
  rendered : State Num Doc → Rendered Num Doc

-- `{ defaultFont: false }`
abbrev pub no_options : {Num : Type 0} → ViewOptions Num
no_options = record {
  id_prefix = none;
  aspect = none;
  picking = none;
  transparent = none;
  color_scheme = none;
  auto_resize = none;
}

-- the view, and the warnings on the console
abbrev pub shown :
    {Num Doc : Type 0}
    → Option (Outcome (Unit {0}) × State Num Doc)
    → Rendered Num Doc × List String
shown none = (unreadable, [])
shown (some (throws e, view)) = (not_drawn e view, [])
shown (some (ok _, view)) = (rendered view, view.warnings)

-- A view that is returned is in use, and the console has its warnings; no other outcome says
-- anything there.
abbrev pub IsShown : {Num Doc : Type 0} → Rendered Num Doc × List String → Type 0
IsShown (rendered view, console) = IsLive view × (console ≡ view.warnings)
IsShown (_, console) = console ≡ []

module _ {Num Doc : Type 0} (js : Numbers Num) (wasm : Wasm Num Doc) where
  unfoldable pub show : Surroundings Num → Bytes → Rendered Num Doc × List String
  show at bytes = shown (create js wasm no_options at bytes)

  abbrev pub after_load :
      Result (Unit {0}) → Surroundings Num → Bytes → Rendered Num Doc × List String
  after_load (failed e) at bytes = (not_loaded e, [])
  after_load (done _) at bytes = show at bytes

  unfoldable pub render_hep :
      Browser
      → Option Assets
      → Surroundings Num
      → Bytes
      → Loader
      → (Rendered Num Doc × List String) × Loader
  render_hep browser found at bytes loader =
      let (r, left) = load_hep browser found loader in (after_load r at bytes, left)

  show-IsShown : (at : Surroundings Num) (bytes : Bytes) → IsShown (show at bytes)
  unfolding show create
  show-IsShown at bytes =
      go (create js wasm no_options at bytes)
        (λ o s e. view_of-IsLive js wasm no_options at (wasm.load bytes) o s e)
    where
      go :
          (found : Option (Outcome (Unit {0}) × State Num Doc))
          → ((o : Outcome (Unit {0})) (s : State Num Doc) → found ≡ some (o, s) → IsLive s)
          → IsShown (shown found)
      go none live = refl
      go (some (throws e, view)) live = refl
      go (some (ok x, view)) live = (live (ok x) view refl, refl)

  after_load-IsShown :
      (r : Result (Unit {0})) (at : Surroundings Num) (bytes : Bytes)
      → IsShown (after_load r at bytes)
  after_load-IsShown (failed e) at bytes = refl
  after_load-IsShown (done _) at bytes = show-IsShown at bytes

  -- A call gives a view in use, whose warnings go to the console, or an error with nothing there. And
  -- a later call, for whatever document, gives what its document gives by itself after the result
  -- of the one load, and loads nothing again.
  pub render_hep-IsShown :
      (browser later_browser : Browser) (found later : Option Assets)
      (at next_at : Surroundings Num) (bytes next_bytes : Bytes) (loader : Loader)
      → let (first, left) = render_hep browser found at bytes loader in
        IsShown first
        × (render_hep later_browser later next_at next_bytes left
            ≡ (after_load (load_hep browser found loader).0 next_at next_bytes, left))
  unfolding render_hep
  render_hep-IsShown browser later_browser found later at next_at bytes next_bytes loader = (
    after_load-IsShown (load_hep browser found loader).0 at bytes,
    rw (load_hep-load_hep browser later_browser found later loader) refl,
  )
