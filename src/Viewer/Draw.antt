-- ===== src/Viewer/Draw.antt =====
-- The drawing half of `PlotView` of rust/assets/hep-viewer.js: sizes, `_emit`, and the frames.
use ggsql_duckdb.Prelude.{
  suc, ◌-◌, Bool, false, ◌&&◌, ◌||◌, Option, none, some, ◌∷◌, if◌then◌else◌, is_some,
}
use ggsql_duckdb.Viewer.Host.{Numbers, Wasm, Render}
use ggsql_duckdb.Viewer.State.{
  M, ◌>>=◌, ◌>>◌, pure, skip, get, modify, or_trap, finally, document, cancel,
}

module _ {Num Doc : Type 0} (js : Numbers Num) (wasm : Wasm Num Doc) where
  open js use {one, is_truthy, same, round, max, div}

  -- `Math.max(1, Math.round(x))`
  abbrev pub at_least_one : Num → Num
  at_least_one x = max one (round x)

  -- `this._aspect ? Math.max(1, Math.round(width / this._aspect)) : height`
  abbrev pub aspect_height : Option Num → Num → Num → Num
  aspect_height none width height = height
  aspect_height (some a) width height = if is_truthy a then at_least_one (div width a) else height

  -- whether `_aspect` is a number that counts as true
  abbrev pub has_aspect : Option Num → Bool
  has_aspect none = false
  has_aspect (some a) = is_truthy a

  abbrev pub same_size : Option (Num × Num) → Num → Num → Bool
  same_size none w h = false
  same_size (some (w', h')) w h = same w' w && same h' h

  -- `hint || 1`
  abbrev pub or_one : Option Num → Num
  or_one none = one
  or_one (some x) = if is_truthy x then x else one

  -- `client || this.plot.hint() || 1`: the document is asked only for a container with no size
  abbrev pub measure : Num → (Doc → Option Num) → M Num Doc Num
  measure client hint =
      if is_truthy client then pure client else (document >>= λ d. pure (or_one (hint d)))

  abbrev pub place : Render → Num → Num → M Num Doc (Unit {0})
  place render width height = do
    ws ← or_trap render.warnings
    modify (λ s. record s { warnings = ws })
    svg ← or_trap render.svg
    modify (λ s. record s { inner_html = some svg; last_size = some (width, height) })

  unfoldable pub emit : Num → Num → M Num Doc (Unit {0})
  emit width height = do
    s ← get
    d ← document
    render ← or_trap (wasm.to_svg d width height s.id_prefix)
    modify (λ t. record t { renders = suc t.renders })
    finally (place render width height) (λ t. record t { renders = t.renders - 1 })

  unfoldable pub draw : Num → Num → M Num Doc (Unit {0})
  draw width height = do
    s ← get
    let h = aspect_height s.aspect width height
    if same_size s.last_size width h then skip else emit width h

  unfoldable pub size_and_emit : M Num Doc (Unit {0})
  size_and_emit = do
    s ← get
    w ← measure s.client_width wasm.hint_width
    let width = at_least_one w
    h ← if has_aspect s.aspect then pure width else measure s.client_height wasm.hint_height
    emit width (aspect_height s.aspect width (at_least_one h))

  unfoldable pub render_now : M Num Doc (Unit {0})
  render_now = do
    s ← get
    if s.freed then skip else do
      modify (λ t. record t { frames = cancel s.frame t.frames; frame = none })
      size_and_emit

  unfoldable pub schedule : M Num Doc (Unit {0})
  schedule = do
    s ← get
    if s.freed || is_some s.frame
        then skip
        else modify (λ t. record t {
          frame = some t.next_id;
          frames = t.next_id ∷ t.frames;
          next_id = suc t.next_id;
        })

  -- the callback that `schedule` hands to `requestAnimationFrame`
  unfoldable pub on_frame : M Num Doc (Unit {0})
  on_frame = do
    modify (λ t. record t { frame = none })
    s ← get
    if s.freed then skip else size_and_emit

  unfoldable pub redraw : M Num Doc (Unit {0})
  redraw = render_now

  unfoldable pub resize : Num → Num → M Num Doc (Unit {0})
  resize width height = do
    s ← get
    if s.freed then skip else draw (at_least_one width) (at_least_one height)

  -- `_onObserved`, given the first `contentBoxSize` of the last entry, where the browser has one
  unfoldable pub on_observed : Option (Num × Num) → M Num Doc (Unit {0})
  on_observed box = do
    s ← get
    if s.freed then skip else elim box [
      | none ↦ draw (at_least_one s.client_width) (at_least_one s.client_height)
      | some (inline_size, block_size) ↦ draw (at_least_one inline_size) (at_least_one block_size)
    ]
