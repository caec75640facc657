-- ===== src/Viewer/Picking.antt =====
-- `pick` of `PlotView` of rust/assets/hep-viewer.js: what the markup knows about a point.
use ggsql_duckdb.Prelude.{
  ℕ, Bool, true, false, not, ◌&&◌, ◌||◌, ◌≡◌, Option, none, some, is_some, List, [], ◌∷◌, ◌==◌,
  if◌then◌else◌,
}
use ggsql_duckdb.Viewer.State.{State}

abbrev pub Text : Type 0
Text = List ℕ

-- An element of the page, with the attributes that the view reads: `none` where it has none.
pub record Element : Type 0 where
  -- tells elements apart
  pub node : ℕ
  pub pick_block : Option Text
  pub pick_id : Option Text
  pub pick_kind : Option Text
  pub pick_name : Option Text
  pub pick_index : Option Text

-- An element with its ancestors, the nearest first.
abbrev pub Lineage : Type 0
Lineage = List Element

-- What the picking takes from the browser.
pub record Browser (Num : Type 0) : Type 0 where
  pub plus : Num → Num → Num
  -- `Number(text)` and `Number.isFinite`
  pub to_number : Text → Num
  pub nan : Num
  pub is_finite : Num → Bool
  pub is_finite-nan : is_finite nan ≡ false
  -- `document.elementFromPoint`: the topmost element at a point of the viewport
  pub element_from_point : Num → Num → Option Lineage

-- The container of a view: its element, and where `getBoundingClientRect` finds it.
pub record Container (Num : Type 0) : Type 0 where
  pub node : ℕ
  pub left : Num
  pub top : Num

pub record PickScope (Num : Type 0) : Type 0 where
  pub kind : Text
  pub name : Option Text
  pub index : Option Num

pub record Hit (Num : Type 0) : Type 0 where
  pub id : Option Num
  pub path : List (PickScope Num)
  pub element : Lineage

-- `container.contains(el)`: the element itself or an ancestor of it
abbrev pub contains_element : ℕ → Lineage → Bool
contains_element node [] = false
contains_element node (n ∷ ns) = n.node == node || contains_element node ns

-- `el.closest("[name]")`, by the value of the attribute that it finds
abbrev pub closest : (Element → Option Text) → Lineage → Option Text
closest attribute [] = none
closest attribute (n ∷ ns) = elim (attribute n) [ none ↦ closest attribute ns | some t ↦ some t ]

abbrev pub is_empty : {A : Type 0} → List A → Bool
is_empty [] = true
is_empty (_ ∷ _) = false

module _ {Num : Type 0} (browser : Browser Num) where
  open browser use {to_number, nan, is_finite}

  abbrev pub number_of : Option Text → Option Num
  number_of none = none
  number_of (some t) = some (to_number t)

  abbrev pub scope : Element → Text → PickScope Num
  scope n kind = record { kind = kind; name = n.pick_name; index = number_of n.pick_index }

  -- The loop of `_scopesOf`, from an element outwards to the container.
  abbrev pub collect : ℕ → Lineage → List (PickScope Num) → List (PickScope Num)
  collect node [] scopes = scopes
  collect node (n ∷ ns) scopes = if n.node == node then scopes else elim n.pick_kind [
    | none ↦ collect node ns scopes
    | some kind ↦ collect node ns (scope n kind ∷ scopes)
  ]

  -- The source pushes the scopes and reverses the array at the end; here the list of those pushed
  -- has the last one first.
  unfoldable pub scopes_of : ℕ → Lineage → List (PickScope Num)
  scopes_of node el = collect node el []

  -- `idEl ? Number(...) : NaN`
  abbrev pub raw_id : Option Text → Num
  raw_id none = nan
  raw_id (some t) = to_number t

  abbrev pub finite_id : Num → Option Num
  finite_id n = if is_finite n then some n else none

  -- `pick`, from the element at the point on
  abbrev pub hit_of : ℕ → Lineage → Option (Hit Num)
  hit_of node el =
      let id_text = closest (λ n. n.pick_id) el in
      let path = scopes_of node el in
      if is_some (closest (λ n. n.pick_block) el)
      then none
      else (if not (is_some id_text) && is_empty path
          then none
          else some (record { id = finite_id (raw_id id_text); path = path; element = el }))

module _ {Num Doc : Type 0} (browser : Browser Num) where
  open browser use {plus, element_from_point}

  -- `_elementAt`
  unfoldable pub element_at : Container Num → State Num Doc → Num → Num → Option Lineage
  element_at c s x y =
      if s.freed then none else elim (element_from_point (plus c.left x) (plus c.top y)) [
        | none ↦ none
        | some el ↦ if contains_element c.node el then some el else none
      ]

  unfoldable pub pick : Container Num → State Num Doc → Num → Num → Option (Hit Num)
  pick c s x y = elim (element_at c s x y) [ none ↦ none | some el ↦ hit_of browser c.node el ]

  -- `pickAt`: `pick(x, y)?.id`
  unfoldable pub pick_at : Container Num → State Num Doc → Num → Num → Option Num
  pick_at c s x y = elim (pick c s x y) [ none ↦ none | some hit ↦ hit.id ]

  -- `pickPathAt`: `pick(x, y)?.path`
  unfoldable pub pick_path_at :
      Container Num → State Num Doc → Num → Num → Option (List (PickScope Num))
  pick_path_at c s x y = elim (pick c s x y) [ none ↦ none | some hit ↦ some hit.path ]
