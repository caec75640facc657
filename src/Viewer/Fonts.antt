-- ===== src/Viewer/Fonts.antt =====
-- The default fonts of rust/assets/hep-viewer.js: `registerFontFromUrl`, `registerDefaultFonts`, the
-- style sheet of the faces, and `PlotView.create` where it waits for them. The asynchronous functions
-- are cut where they wait, so that the calls of several views overlap in any order.
pub mod Texts
pub mod Kept
pub mod Promise
pub mod Going
pub mod Registered
pub mod Awaited
use ggsql_duckdb.Prelude.{
  ℕ, Bool, false, ◌||◌, Option, none, some, List, [], ◌∷◌, ◌++◌, map, codes, text_eq, get_elem?,
  set, if◌then◌else◌,
}
use ggsql_duckdb.Boot.Init.{Bytes, Text}
use ggsql_duckdb.Entry.Loader.{join_lines}

-- What the browser and the wasm side do: `none` and `false` are exceptions. `href` is the URL of a
-- relative one at `document.baseURI`, and `decimal` writes a number.
pub record FontHost : Type 0 where
  pub register_font : Bytes → Option (List Text)
  pub set_generic_family : Text → List Text → Bool
  pub href : Text → Text
  pub decimal : ℕ → Text

-- A `Set` of texts, in the order of insertion.
abbrev pub contains_text : Text → List Text → Bool
contains_text x [] = false
contains_text x (y ∷ ys) = text_eq x y || contains_text x ys

abbrev pub add_text : Text → List Text → List Text
add_text x s = if contains_text x s then s else s ++ (x ∷ [])

abbrev pub add_texts : List Text → List Text → List Text
add_texts [] s = s
add_texts (x ∷ xs) s = add_texts xs (add_text x s)

-- The url of a call of `registerFontFromUrl`, with its options.
pub record FontRequest : Type 0 where
  pub url : Text
  pub key : Option Text
  pub generic_for : Option Text

-- `opts.key ?? url`
abbrev pub key_of : FontRequest → Text
key_of q = elim q.key [ none ↦ q.url | some key ↦ key ]

pub data FontError : Type 0 where
  fetch_rejected body_rejected font_refused family_refused : FontError
  fetch_failed : Text → FontError

-- Where a call of `registerFontFromUrl` waits, or what it comes to.
pub data LoadState : Type 0 where
  fetching reading : LoadState
  loaded : List Text → LoadState
  load_failed : FontError → LoadState

pub record FaceLoad : Type 0 where
  pub request : FontRequest
  pub at : LoadState

pub data Settled : Type 0 where
  waiting : Settled
  fulfilled : List Text → Settled
  rejected : FontError → Settled

-- A call of `registerDefaultFonts`, with the calls that its `Promise.all` waits for.
pub record Registration : Type 0 where
  pub loads : List FaceLoad
  pub outcome : Settled

-- `registered`, the fonts that `registerFont` of the wasm side has taken with the key of the call, the elements of the page by id and text, and the
-- calls of `registerDefaultFonts`.
pub record FontState : Type 0 where
  pub registered : List Text
  pub shaped : List (Text × Bytes)
  pub generic : List (Text × List Text)
  pub elements : List (Text × Text)
  pub registrations : List Registration

pub record FontResponse : Type 0 where
  pub ok : Bool
  pub status : ℕ
  pub status_text : Text

-- `fetch` settles, or `response.arrayBuffer()` does; `none` is a rejection.
pub data Arrival : Type 0 where
  response : Option FontResponse → Arrival
  body : Option Bytes → Arrival

-- A view asks for the default fonts, or something arrives for a call of a registration.
pub data FontEvent : Type 0 where
  asks : FontEvent
  arrives : ℕ → ℕ → Arrival → FontEvent

abbrev pub style_id : Text
style_id = codes "hephaestus-svg-default-faces"

abbrev pub default_styles : List (Text × Text × Text)
default_styles =
    (codes "regular", codes "400", codes "normal")
    ∷ (codes "bold", codes "700", codes "normal")
    ∷ (codes "italic", codes "400", codes "italic")
    ∷ (codes "bolditalic", codes "700", codes "italic")
    ∷ []

abbrev pub has_element : Text → List (Text × Text) → Bool
has_element name [] = false
has_element name ((other, _) ∷ rest) = text_eq name other || has_element name rest

-- What every call of a `Promise.all` has come to, once they are all fulfilled.
abbrev pub all_loaded : List FaceLoad → Option (List Text)
all_loaded [] = some []
all_loaded (load ∷ loads) = elim load.at [
  | loaded families ↦ elim (all_loaded loads) [ none ↦ none | some more ↦ some (families ++ more) ]
  | _ ↦ none
]

-- `registerFontFromUrl` up to where it waits
abbrev pub begin_load : List Text → FontRequest → FaceLoad
begin_load registered q = record {
  request = q;
  at = if contains_text (key_of q) registered then loaded [] else fetching;
}

abbrev pub default_request : Text → FontRequest
default_request url = record { url = url; key = some url; generic_for = none }

abbrev pub put_registration : ℕ → List FaceLoad → Settled × FontState → FontState
put_registration i loads (outcome, p) = record p {
  registrations = set p.registrations i (record { loads = loads; outcome = outcome });
}

module _ (host : FontHost) where
  open host use {register_font, set_generic_family, href, decimal}

  abbrev pub face_url : Text → Text
  face_url face = href (codes "./fonts/roboto-" ++ (face ++ codes ".ttf"))

  abbrev pub default_face : Text × Text × Text → Text
  default_face (face, weight, style) = face_url face

  abbrev pub default_faces : List Text
  default_faces = map default_face default_styles

  abbrev pub default_rule : Text × Text × Text → Text
  default_rule (face, weight, style) =
      codes "@font-face{font-family:'Roboto';font-style:"
      ++ (style
          ++ (codes ";font-weight:"
              ++ (weight
                  ++ (codes ";font-display:block;src:url('"
                      ++ (face_url face ++ codes "') format('truetype');}")))))

  abbrev pub default_face_css : Text
  default_face_css = join_lines (map default_rule default_styles)

  -- `installDefaultFaceCss`; there is a document, since the bundle has read its `baseURI`.
  abbrev pub install_css : List (Text × Text) → List (Text × Text)
  install_css elements =
      if has_element style_id elements
      then elements
      else elements ++ ((style_id, default_face_css) ∷ [])

  abbrev pub font_status_error : FontRequest → FontResponse → FontError
  font_status_error q r = fetch_failed (
      codes "font fetch failed: "
      ++ (decimal r.status ++ (codes " " ++ (r.status_text ++ (codes " for " ++ q.url)))))

  -- `if (opts.genericFor) …`, with the families of the font
  abbrev pub set_generic_for : Option Text → List Text → FontState → LoadState × FontState
  set_generic_for none families p = (loaded families, p)
  set_generic_for (some []) families p = (loaded families, p)
  set_generic_for (some (c ∷ name)) families p =
      if set_generic_family (c ∷ name) families
      then (loaded families, record p { generic = p.generic ++ ((c ∷ name, families) ∷ []) })
      else (load_failed family_refused, p)

  abbrev pub accept_font :
      FontRequest → Bytes → Option (List Text) → FontState → LoadState × FontState
  accept_font q bytes none p = (load_failed font_refused, p)
  accept_font q bytes (some families) p = set_generic_for q.generic_for families (record p {
    registered = add_text (key_of q) p.registered;
    shaped = p.shaped ++ ((key_of q, bytes) ∷ []);
  })

  -- `registerFontFromUrl` from where it waits on; `none` if it does not wait for this.
  unfoldable pub resume_load :
      FontRequest → LoadState → Arrival → FontState → Option (LoadState × FontState)
  resume_load q fetching (response none) p = some (load_failed fetch_rejected, p)
  resume_load q fetching (response (some r)) p =
      some (if r.ok then reading else load_failed (font_status_error q r), p)
  resume_load q reading (body none) p = some (load_failed body_rejected, p)
  resume_load q reading (body (some bytes)) p = some (accept_font q bytes (register_font bytes) p)
  resume_load q _ _ p = none

  -- `registerDefaultFonts` behind its `Promise.all`
  abbrev pub finish_registration : List Text → FontState → Settled × FontState
  finish_registration families p =
      if set_generic_family (codes "sans-serif") (codes "Roboto" ∷ [])
      then (
        fulfilled (add_texts families []),
        record p {
          generic = p.generic ++ ((codes "sans-serif", codes "Roboto" ∷ []) ∷ []);
          elements = install_css p.elements;
        },
      )
      else (rejected family_refused, p)

  abbrev pub when_loaded : Option (List Text) → FontState → Settled × FontState
  when_loaded none p = (waiting, p)
  when_loaded (some families) p = finish_registration families p

  -- What becomes of the promise when one of its calls has gone on: it settles once.
  abbrev pub settle_registration :
      Settled → LoadState → List FaceLoad → FontState → Settled × FontState
  settle_registration waiting (load_failed e) loads p = (rejected e, p)
  settle_registration waiting (loaded _) loads p = when_loaded (all_loaded loads) p
  settle_registration waiting _ loads p = (waiting, p)
  settle_registration outcome _ loads p = (outcome, p)

  unfoldable pub begin_registration : FontState → FontState
  begin_registration p =
      let loads = map (begin_load p.registered) (map default_request default_faces) in
      let (outcome, q) = when_loaded (all_loaded loads) p in
      record q {
        registrations = q.registrations ++ (record { loads = loads; outcome = outcome } ∷ []);
      }

  abbrev pub put_load :
      ℕ → ℕ → Registration → FontRequest → Option (LoadState × FontState) → FontState → FontState
  put_load i j r q none p = p
  put_load i j r q (some (at, t)) p =
      let loads = set r.loads j (record { request = q; at = at }) in
      put_registration i loads (settle_registration r.outcome at loads t)

  abbrev pub arrive_in : ℕ → ℕ → Arrival → Option Registration → FontState → FontState
  arrive_in i j a none p = p
  arrive_in i j a (some r) p = elim (get_elem? r.loads j) [
    | none ↦ p
    | some load ↦ put_load i j r load.request (resume_load load.request load.at a p) p
  ]

  unfoldable pub handle_fonts : FontEvent → FontState → FontState
  handle_fonts asks p = begin_registration p
  handle_fonts (arrives i j a) p = arrive_in i j a (get_elem? p.registrations i) p

  unfoldable pub handle_all : List FontEvent → FontState → FontState
  handle_all [] p = p
  handle_all (e ∷ es) p = handle_all es (handle_fonts e p)
