-- ===== src/Viewer/Lifecycle.antt =====
-- Creation and release of a `PlotView` of rust/assets/hep-viewer.js, and the events that reach it.
use ggsql_duckdb.Prelude.{
  ℕ, suc, Bool, true, false, ◌||◌, Option, none, some, List, [], ◌∷◌, ◌==◌, if◌then◌else◌,
}
use ggsql_duckdb.Viewer.Host.{Numbers, Wasm, IdPrefix, generated}
use ggsql_duckdb.Viewer.State.{
  State, M, Outcome, ColorScheme, light, ◌>>=◌, ◌>>◌, skip, get, modify, document, remove, cancel,
}
use ggsql_duckdb.Viewer.Draw.{render_now, on_frame, redraw, resize, on_observed}
use ggsql_duckdb.Viewer.Asked.{view_scheme, view_is_dark, hints}
use ggsql_duckdb.Viewer.Theme.{detach_media, on_media, set_color_scheme}

-- `PlotViewOptions`; a field left out is `none`.
pub record ViewOptions (Num : Type 0) : Type 0 where
  pub id_prefix : Option IdPrefix
  pub aspect : Option Num
  pub picking : Option Bool
  pub transparent : Option Bool
  pub color_scheme : Option ColorScheme
  pub auto_resize : Option Bool

-- What a view finds on the page: the container's size, the OS theme, the next free id of a
-- browser callback, and `nextViewId`.
pub record Surroundings (Num : Type 0) : Type 0 where
  pub client_width : Num
  pub client_height : Num
  pub prefers_dark : Bool
  pub next_id : ℕ
  pub next_view_id : ℕ

-- `a ?? b`
abbrev pub or_default : {A : Type 0} → Option A → A → A
or_default none b = b
or_default (some a) b = a

-- `opts.x !== false` and `opts.x === true`
abbrev pub is_not_false : Option Bool → Bool
is_not_false none = true
is_not_false (some b) = b

abbrev pub is_true : Option Bool → Bool
is_true none = false
is_true (some b) = b

pub data Event (Num : Type 0) : Type 0 where
  redraws : Event Num
  resizes : Num → Num → Event Num
  sets_scheme : ColorScheme → Event Num
  frees : Event Num
  -- the getters and methods that only ask
  asks_scheme asks_dark asks_hints : Event Num
  -- from the browser: a frame is due, the container or the OS theme changed
  frame_due : ℕ → Event Num
  container_change : Option (Num × Num) → Event Num
  media_change : Bool → Event Num

abbrev pub contains : ℕ → List ℕ → Bool
contains k [] = false
contains k (j ∷ js) = j == k || contains k js

module _ {Num Doc : Type 0} (js : Numbers Num) (wasm : Wasm Num Doc) where
  -- The fields as the constructor sets them, before its first call.
  abbrev pub blank : ViewOptions Num → Surroundings Num → Doc → State Num Doc
  blank opts at d = record {
    plot = some d;
    warnings = [];
    id_prefix = or_default opts.id_prefix (generated at.next_view_id);
    aspect = opts.aspect;
    frame = none;
    observer = false;
    media = none;
    scheme = light;
    last_size = none;
    freed = false;
    client_width = at.client_width;
    client_height = at.client_height;
    inner_html = none;
    prefers_dark = at.prefers_dark;
    next_id = at.next_id;
    frames = [];
    listeners = [];
    observing = false;
    renders = 0;
    documents_freed = 0;
  }

  abbrev pub set_flag : Bool → (Doc → Doc) → M Num Doc (Unit {0})
  set_flag b f =
      if b then (document >>= λ d. modify (λ s. record s { plot = some (f d) })) else skip

  abbrev pub picking_option : ViewOptions Num → M Num Doc (Unit {0})
  picking_option opts =
      set_flag (if is_not_false opts.picking then false else true) (wasm.set_pick_ids false)

  abbrev pub transparent_option : ViewOptions Num → M Num Doc (Unit {0})
  transparent_option opts = set_flag (is_true opts.transparent) (wasm.set_transparent true)

  abbrev pub scheme_option : ViewOptions Num → M Num Doc (Unit {0})
  scheme_option opts = set_color_scheme js wasm (or_default opts.color_scheme light)

  abbrev pub resize_option : ViewOptions Num → M Num Doc (Unit {0})
  resize_option opts =
      if is_not_false opts.auto_resize
      then modify (λ s. record s { observer = true; observing = true })
      else skip

  -- The calls of the constructor, in their order.
  unfoldable pub construct : ViewOptions Num → M Num Doc (Unit {0})
  construct opts = do
    picking_option opts
    transparent_option opts
    scheme_option opts
    resize_option opts
    render_now js wasm

  abbrev pub view_of :
      ViewOptions Num → Surroundings Num → Option Doc → Option (Outcome (Unit {0}) × State Num Doc)
  view_of opts at none = none
  view_of opts at (some d) = some (construct opts (blank opts at d))

  -- `PlotView.create` with `defaultFont: false`. `none` is the error of an unreadable document.
  unfoldable pub create :
      ViewOptions Num → Surroundings Num → List ℕ → Option (Outcome (Unit {0}) × State Num Doc)
  create opts at bytes = view_of opts at (wasm.load bytes)

  -- `PlotDocument.free`: the pointer becomes 0, and the wasm side drops the document.
  abbrev pub free_document : M Num Doc (Unit {0})
  free_document = document >>= λ _.
      modify (λ s. record s { plot = none; documents_freed = suc s.documents_freed })

  -- `this._observer?.disconnect()`
  abbrev pub disconnect : State Num Doc → State Num Doc
  disconnect s = record s { observing = if s.observer then false else s.observing }

  unfoldable pub free : M Num Doc (Unit {0})
  free = do
    s ← get
    if s.freed then skip else do
      modify (λ t. record t { freed = true })
      modify (λ t. record t { frames = cancel s.frame t.frames })
      modify disconnect
      detach_media js wasm
      free_document

  -- An event of the media query calls the listener that is attached.
  abbrev pub notify : List ℕ → M Num Doc (Unit {0}) → M Num Doc (Unit {0})
  notify [] m = skip
  notify (_ ∷ _) m = m

  -- A call of a public method, or a callback of the browser: it reaches the view only while it is
  -- registered. `toSvgString` and the methods that pick are not events: they read the page, and neither
  -- change the view nor reach its document.
  unfoldable pub dispatch : Event Num → M Num Doc (Unit {0})
  dispatch redraws = redraw js wasm
  dispatch (resizes w h) = resize js wasm w h
  dispatch (sets_scheme scheme) = set_color_scheme js wasm scheme
  dispatch frees = free
  dispatch asks_scheme = view_scheme js wasm >>= λ _. skip
  dispatch asks_dark = view_is_dark js wasm >>= λ _. skip
  dispatch asks_hints = hints js wasm >>= λ _. skip
  dispatch (frame_due k) = do
    s ← get
    if contains k s.frames
        then (modify (λ t. record t { frames = remove k t.frames }) >> on_frame js wasm)
        else skip
  dispatch (container_change box) = do
    s ← get
    if s.observing then on_observed js wasm box else skip
  dispatch (media_change b) = do
    modify (λ t. record t { prefers_dark = b })
    s ← get
    notify s.listeners (on_media js wasm b)

  -- A history of events: an error ends one event, not the view.
  unfoldable pub run : List (Event Num) → State Num Doc → State Num Doc
  run [] s = s
  run (e ∷ es) s = run es (dispatch e s).1
