-- ===== src/Viewer/PickingTests.antt =====
-- Points picked by `PlotView` of rust/assets/hep-viewer.js in a page of four elements.
use ggsql_duckdb.Prelude.{
  ℕ, ◌+◌, ◌≡◌, refl, ◌↔◌, true, false, none, some, [], ◌∷◌, ◌==◌, codes, if◌then◌else◌,
}
use ggsql_duckdb.Viewer.Host.{given}
use ggsql_duckdb.Viewer.State.{State, light}
use ggsql_duckdb.Viewer.Picking.{
  Element, Lineage, Browser, Container, Hit, scopes_of, element_at, pick, pick_at, pick_path_at,
}
use ggsql_duckdb.Viewer.Picked.{IsPicked, pick-eq_some}

abbrev plain : ℕ → Element
plain node = record {
  node = node;
  pick_block = none;
  pick_id = none;
  pick_kind = none;
  pick_name = none;
  pick_index = none;
}

abbrev mark : Element
mark = record (plain 4) { pick_id = some (7 ∷ []) }

abbrev geom : Element
geom = record (plain 3) { pick_kind = some (codes "geom"); pick_index = some (2 ∷ []) }

abbrev plot_group : Element
plot_group = record (plain 2) { pick_kind = some (codes "plot"); pick_name = some (codes "a") }

abbrev page : Lineage
page = mark ∷ geom ∷ plot_group ∷ plain 1 ∷ plain 0 ∷ []

-- 0 stands for NaN, and a numeral is its own code.
abbrev pub browser : Browser ℕ
browser = record {
  plus = ◌+◌;
  to_number = λ t. elim t [ [] ↦ 0 | ◌∷◌ n _ ↦ n ];
  nan = 0;
  is_finite = λ n. if n == 0 then false else true;
  is_finite-nan = refl;
  element_from_point = λ x y. if x == 15 then some page else none;
}

abbrev pub container : Container ℕ
container = record { node = 1; left = 10; top = 20 }

abbrev view : State ℕ (Unit {0})
view = record {
  plot = some tt;
  warnings = [];
  id_prefix = given "a";
  aspect = none;
  frame = none;
  observer = false;
  media = none;
  scheme = light;
  last_size = none;
  freed = false;
  client_width = 5;
  client_height = 5;
  inner_html = none;
  prefers_dark = false;
  next_id = 0;
  frames = [];
  listeners = [];
  observing = false;
  renders = 0;
  documents_freed = 0;
}

abbrev hit : Hit ℕ
hit = record {
  id = some 7;
  path =
      record { kind = codes "plot"; name = some (codes "a"); index = none }
      ∷ record { kind = codes "geom"; name = none; index = some 2 }
      ∷ [];
  element = page;
}

picked : pick browser container view 5 0 ≡ some hit
unfolding pick element_at scopes_of
picked = refl

picked_id : pick_at browser container view 5 0 ≡ some 7
unfolding pick_at pick element_at scopes_of
picked_id = refl

missed : pick_path_at browser container view 6 0 ≡ none
unfolding pick_path_at pick element_at scopes_of
missed = refl

pick-eq_some_example :
    (pick browser container view 5 0 ≡ some hit) ↔ IsPicked browser container view 5 0 hit
pick-eq_some_example = pick-eq_some browser container view 5 0 hit
