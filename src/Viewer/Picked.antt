-- ===== src/Viewer/Picked.antt =====
-- What `pick` of rust/assets/hep-viewer.js reports, and when it reports nothing.
use ggsql_duckdb.Prelude.{
  ℕ, Bool, true, false, not, ◌&&◌, ◌≡◌, refl, sym, ap, ap₂, ◌∙◌, ◌≢◌, ◌↔◌, Option, none, some,
  is_some, if◌then◌else◌, List, [], ◌∷◌, ◌++◌, ◌==◌, append_assoc, append-nil, arith,
}
use ggsql_duckdb.Viewer.State.{State}
use ggsql_duckdb.Viewer.Picking.{
  Text, Element, Lineage, Browser, PickScope, Container, Hit, contains_element, closest, scope,
  collect, scopes_of, element_at, is_empty, raw_id, finite_id, hit_of, pick,
}

module _ {Num : Type 0} (browser : Browser Num) where
  -- The scopes of a chain of elements, the outermost first.
  abbrev pub own_scope : Element → List (PickScope Num)
  own_scope n = elim n.pick_kind [ none ↦ [] | some kind ↦ scope browser n kind ∷ [] ]

  abbrev pub outermost_first : Lineage → List (PickScope Num)
  outermost_first [] = []
  outermost_first (n ∷ ns) = outermost_first ns ++ own_scope n

-- The elements of a chain up to the container, which is not one of them: all of them where the chain
-- has no container.
abbrev pub below : ℕ → Lineage → Lineage
below node [] = []
below node (n ∷ ns) = if n.node == node then [] else n ∷ below node ns

module _ {Num : Type 0} (browser : Browser Num) where
  collect-below :
      (node : ℕ) (el : Lineage) (scopes : List (PickScope Num))
      → collect browser node el scopes ≡ outermost_first browser (below node el) ++ scopes
  collect-below node [] scopes = refl
  collect-below node (n ∷ ns) scopes =
      by_end (n.node == node) (by_kind n.pick_kind (collect-below node ns))
    where
      longer : List (PickScope Num)
      longer = elim n.pick_kind [
        | none ↦ collect browser node ns scopes
        | some kind ↦ collect browser node ns (scope browser n kind ∷ scopes)
      ]

      by_end :
          (b : Bool)
          → longer ≡ outermost_first browser (n ∷ below node ns) ++ scopes
          → (if b then scopes else longer)
            ≡ outermost_first browser (if b then [] else n ∷ below node ns) ++ scopes
      by_end true e = refl
      by_end false e = e

      by_kind :
          (o : Option Text)
          → ((found : List (PickScope Num))
              → collect browser node ns found ≡ outermost_first browser (below node ns) ++ found)
          → (elim o [
            | none ↦ collect browser node ns scopes
            | some kind ↦ collect browser node ns (scope browser n kind ∷ scopes)
          ])
            ≡ (outermost_first browser (below node ns)
                ++ (elim o [ none ↦ [] | some kind ↦ scope browser n kind ∷ [] ]))
              ++ scopes
      by_kind none ih =
          ih scopes
          ∙ ap (λ xs. xs ++ scopes) (sym (append-nil (outermost_first browser (below node ns))))
      by_kind (some kind) ih =
          ih (scope browser n kind ∷ scopes)
          ∙ sym (
              append_assoc (outermost_first browser (below node ns)) (scope browser n kind ∷ [])
                scopes)

  scopes_of-below :
      (node : ℕ) (el : Lineage)
      → scopes_of browser node el ≡ outermost_first browser (below node el)
  unfolding scopes_of
  scopes_of-below node el =
      collect-below node el [] ∙ append-nil (outermost_first browser (below node el))

-- No element of the chain has the attribute.
abbrev pub Lacks : (Element → Option Text) → Lineage → Type 0
Lacks attribute [] = Unit
Lacks attribute (n ∷ ns) = (attribute n ≡ none) × Lacks attribute ns

closest-Lacks :
    (attribute : Element → Option Text) (el : Lineage)
    → (is_some (closest attribute el) ≡ false) ↔ Lacks attribute el
closest-Lacks attribute [] = ground arith
closest-Lacks attribute (n ∷ ns) = ground (arith, closest-Lacks attribute ns)

-- What a hit at a point means.
pub record IsPicked {Num Doc : Type 0} (browser : Browser Num) (c : Container Num)
    (s : State Num Doc) (x y : Num) (hit : Hit Num) : Type 0 where
  pub live : s.freed ≡ false
  pub topmost :
      browser.element_from_point (browser.plus c.left x) (browser.plus c.top y) ≡ some hit.element
  pub inside : contains_element c.node hit.element ≡ true
  pub unblocked : Lacks (λ n. n.pick_block) hit.element
  pub known : (Lacks (λ n. n.pick_id) hit.element → hit.path ≢ [])
  pub path : hit.path ≡ outermost_first browser (below c.node hit.element)
  pub id : hit.id ≡ finite_id browser (raw_id browser (closest (λ n. n.pick_id) hit.element))

guarded :
    {A : Type 0} (b k : Bool) (r h : A)
    → (if b then none else (if k then none else some r)) ≡ some h
    → (b ≡ false) × (k ≡ false) × (r ≡ h)
guarded true k r h e = cc
guarded false true r h e = cc
guarded false false r h e = (refl, refl, cc)

is_empty_iff : {A : Type 0} (xs : List A) → (is_empty xs ≡ true) ↔ (xs ≡ [])
is_empty_iff [] = ground arith
is_empty_iff (x ∷ xs) = ground arith

looked_up :
    (freed : Bool) (o : Option Lineage) (node : ℕ) (el : Lineage)
    → ((if freed
          then none
          else (elim o [ none ↦ none | some e ↦ if contains_element node e then some e else none ]))
        ≡ some el)
      ↔ ((freed ≡ false) × (o ≡ some el) × (contains_element node el ≡ true))
looked_up true o node el = ground arith
looked_up false none node el = ground arith
looked_up false (some e) node el = ground arith

unknown :
    {A : Type 0} (o : Option Text) (xs : List A)
    → ((not (is_some o) && is_empty xs) ≡ false) ↔ (is_some o ≡ false → xs ≢ [])
unknown none [] = ground arith
unknown none (x ∷ xs) = ground arith
unknown (some t) xs = ground arith

module _ {Num Doc : Type 0} (browser : Browser Num) where
  element_at-some :
      (c : Container Num) (s : State Num Doc) (x y : Num) (el : Lineage)
      → (element_at browser c s x y ≡ some el) ↔ (
          (s.freed ≡ false)
          × (browser.element_from_point (browser.plus c.left x) (browser.plus c.top y) ≡ some el)
          × (contains_element c.node el ≡ true))
  unfolding element_at
  element_at-some c s x y el =
      looked_up s.freed (browser.element_from_point (browser.plus c.left x) (browser.plus c.top y))
        c.node el

  -- A hit is reported exactly where the view is live, the topmost element of the page at the point
  -- lies in the container, no element of its chain blocks, and there is an id in the chain or a
  -- scope in the container. The hit holds that element; as its path the scopes of the elements from
  -- just below the container down to that element, the outermost first; and, where it is a finite
  -- number, the nearest id.
  pub pick-eq_some :
      (c : Container Num) (s : State Num Doc) (x y : Num) (hit : Hit Num)
      → (pick browser c s x y ≡ some hit) ↔ IsPicked browser c s x y hit
  unfolding pick
  pick-eq_some c s x y hit = (there (element_at browser c s x y) refl, back)
    where
      there :
          (o : Option Lineage)
          → element_at browser c s x y ≡ o
          → (elim o [ none ↦ none | some el ↦ hit_of browser c.node el ]) ≡ some hit
          → IsPicked browser c s x y hit
      there none q e = cc
      there (some el) q e =
          let (b, k, r) = guarded _ _ _ hit e in
          let same : el ≡ hit.element = ap (λ h. h.element) r in
          let (live, topmost, inside) = (element_at-some c s x y el).0 q in
          record {
            live = live;
            topmost = rw (← same) topmost;
            inside = rw (← same) inside;
            unblocked = rw (← same) ((closest-Lacks (λ n. n.pick_block) el).0 b);
            known = rw (← same) (λ l none_found.
                (unknown (closest (λ n. n.pick_id) el) (scopes_of browser c.node el)).0 k
                  ((closest-Lacks (λ n. n.pick_id) el).1 l) (ap (λ h. h.path) r ∙ none_found));
            path = rw (← same) (sym (ap (λ h. h.path) r) ∙ scopes_of-below browser c.node el);
            id = rw (← same) (sym (ap (λ h. h.id) r));
          }

      back : IsPicked browser c s x y hit → pick browser c s x y ≡ some hit
      back p =
          let path = p.path ∙ sym (scopes_of-below browser c.node hit.element) in
          let b = (closest-Lacks (λ n. n.pick_block) hit.element).1 p.unblocked in
          let k =
            (unknown (closest (λ n. n.pick_id) hit.element)
                (scopes_of browser c.node hit.element)).1
              (λ l e. p.known ((closest-Lacks (λ n. n.pick_id) hit.element).0 l) (path ∙ e)) in
          ap (λ o. elim o [ none ↦ none | some el ↦ hit_of browser c.node el ])
            ((element_at-some c s x y hit.element).1 (p.live, p.topmost, p.inside))
          ∙ rw (b, k)
              (ap₂ (λ i q. some (record { id = i; path = q; element = hit.element })) (sym p.id)
                (sym path))
