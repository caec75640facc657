-- ===== src/Viewer/Fonts/Awaited.antt =====
-- Views of rust/assets/hep-viewer.js that ask for the default fonts: what they wait for, and what a view
-- that comes later finds.
use ggsql_duckdb.Prelude.{
  ℕ, ◌≡◌, refl, ap, ◌∙◌, sym, subst, ◌⊎◌, inl, inr, Bool, true, false, not, ◌&&◌, Option, some,
  List, [], ◌∷◌, ◌++◌, map, codes, get_elem?, get_elem?-last, length, Bool-cases, if◌then◌else◌,
}
use ggsql_duckdb.Boot.Init.{Text}
use ggsql_duckdb.Viewer.Host.{Numbers, Wasm}
use ggsql_duckdb.Viewer.State.{State, Outcome}
use ggsql_duckdb.Viewer.Lifecycle.{ViewOptions, Surroundings, is_not_false, create}
use ggsql_duckdb.Viewer.Fonts.{
  FontHost, FontError, Settled, waiting, fulfilled, rejected, Registration, FontState, FontEvent,
  asks, style_id, has_element, all_loaded, default_faces, begin_load, when_loaded, default_request,
  begin_registration, handle_fonts, handle_all,
}
use ggsql_duckdb.Viewer.Fonts.Texts.{All-get_elem?}
use ggsql_duckdb.Viewer.Fonts.Kept.{AllIn, is_waiting, any_load}
use ggsql_duckdb.Viewer.Fonts.Promise.{HasFaces, OutcomeOk, RegistrationOk}
use ggsql_duckdb.Viewer.Fonts.Registered.{fresh_fonts, handle_all-IsRegistering}

-- `PlotView.create`: it waits, is rejected with the error of a font, or comes to the view or the error
-- of the document.
pub data Creation (Num Doc : Type 0) : Type 0 where
  awaits : Creation Num Doc
  no_fonts : FontError → Creation Num Doc
  created : Option (Outcome (Unit {0}) × State Num Doc) → Creation Num Doc

module _ {Num Doc : Type 0} (js : Numbers Num) (wasm : Wasm Num Doc) where
  abbrev pub after_fonts : Settled → Option (Outcome (Unit {0}) × State Num Doc) → Creation Num Doc
  after_fonts waiting view = awaits
  after_fonts (rejected e) view = no_fonts e
  after_fonts (fulfilled families) view = created view

  -- With `opts.defaultFont`, `hasFonts()`, and the promise of the request for the fonts.
  unfoldable pub create_with_fonts :
      Option Bool → Bool → Settled → ViewOptions Num → Surroundings Num → List ℕ → Creation Num Doc
  create_with_fonts default_font has_fonts fonts opts at bytes =
      if is_not_false default_font && not has_fonts
      then after_fonts fonts (create js wasm opts at bytes)
      else created (create js wasm opts at bytes)

  -- Over any overlapping requests for the default fonts: if the view of the i-th request comes to be
  -- (or its document to an error), the view did not need the fonts, or every face is registered and
  -- the style sheet is in the page.
  pub create_with_fonts-HasFaces :
      (host : FontHost) (es : List FontEvent) (elements : List (Text × Text)) (i : ℕ)
      (default_font : Option Bool) (has_fonts : Bool) (opts : ViewOptions Num)
      (at : Surroundings Num) (bytes : List ℕ) {r : Registration}
      {view : Option (Outcome (Unit {0}) × State Num Doc)}
      → has_element style_id elements ≡ false
      → let p = handle_all host es (fresh_fonts elements) in
        get_elem? p.registrations i ≡ some r
        → create_with_fonts default_font has_fonts r.outcome opts at bytes ≡ created view
        → ((is_not_false default_font && not has_fonts) ≡ false)
          ⊎ (HasFaces host p.registered × (has_element style_id p.elements ≡ true))
  unfolding create_with_fonts
  create_with_fonts-HasFaces host es elements i default_font has_fonts opts at bytes {r} {view} h e
        c =
      let p = handle_all host es (fresh_fonts elements) in
      let ok =
        All-get_elem? (RegistrationOk host p.registered p.elements) p.registrations i
          (handle_all-IsRegistering host es elements h).registrations e in
      elim (Bool-cases (is_not_false default_font && not has_fonts)) [
        | inl needed ↦ go r.outcome ok.outcome (
            ap
              (λ b.
                if◌then◌else◌ {A = Creation Num Doc} b
                  (after_fonts r.outcome (create js wasm opts at bytes))
                  (created (create js wasm opts at bytes)))
              (sym needed)
            ∙ c)
        | inr other ↦ inl other
      ]
    where
      go :
          (o : Settled)
          → OutcomeOk host
              (handle_all host es (fresh_fonts elements)).registered
              (handle_all host es (fresh_fonts elements)).elements
              r.loads
              o
          → after_fonts o (create js wasm opts at bytes) ≡ created view
          → ((is_not_false default_font && not has_fonts) ≡ false)
            ⊎ (HasFaces host (handle_all host es (fresh_fonts elements)).registered
                × (has_element style_id (handle_all host es (fresh_fonts elements)).elements
                    ≡ true))
      go waiting k c = absurd (cc)
      go (rejected x) k c = absurd (cc)
      go (fulfilled families) k c = inr (k.0, k.1)

module _ (registered : List Text) where
  -- Faces that are registered are not fetched again.
  begin_all-loaded :
      (urls : List Text)
      → AllIn urls registered
      → all_loaded (map (begin_load registered) (map default_request urls)) ≡ some []
  begin_all-loaded [] h = refl
  begin_all-loaded (u ∷ urls) h = rw (h.0, begin_all-loaded urls h.1) refl

  begin_all-waiting :
      (urls : List Text)
      → AllIn urls registered
      → any_load is_waiting (map (begin_load registered) (map default_request urls)) ≡ false
  begin_all-waiting [] h = refl
  begin_all-waiting (u ∷ urls) h = rw (h.0) (begin_all-waiting urls h.1)

module _ (host : FontHost)
    (accepts : host.set_generic_family (codes "sans-serif") (codes "Roboto" ∷ []) ≡ true) where
  abbrev after_again : FontState → Registration → FontState
  after_again p t = record p {
    generic = p.generic ++ ((codes "sans-serif", codes "Roboto" ∷ []) ∷ []);
    registrations = p.registrations ++ (t ∷ []);
  }

  -- A request on a page that has everything is fulfilled at once.
  begin_again :
      (p : FontState)
      → HasFaces host p.registered
      → has_element style_id p.elements ≡ true
      → let loads = map (begin_load p.registered) (map default_request (default_faces host)) in
        begin_registration host p ≡ after_again p (record { loads = loads; outcome = fulfilled [] })
  unfolding begin_registration
  begin_again p faces styled =
      let loads = map (begin_load p.registered) (map default_request (default_faces host)) in
      let settled : when_loaded host (some []) p ≡ (
        fulfilled [],
        record p { generic = p.generic ++ ((codes "sans-serif", codes "Roboto" ∷ []) ∷ []) },
      ) =
        rw accepts (rw styled refl) in
      ap
        (λ (oq : Settled × FontState). record oq.1 {
          registrations = oq.1.registrations ++ (record { loads = loads; outcome = oq.0 } ∷ []);
        })
        (ap (λ o. when_loaded host o p) (begin_all-loaded p.registered (default_faces host) faces)
          ∙ settled)

  -- Once a request for the default fonts is fulfilled, over whatever history, a further one is
  -- fulfilled at once with no family, as long as `setGenericFamily` accepts the family: it fetches
  -- nothing, registers nothing and adds no style sheet.
  pub handle_fonts-fulfilled :
      (es : List FontEvent) (elements : List (Text × Text)) (i : ℕ) {r : Registration}
      {families : List Text}
      → has_element style_id elements ≡ false
      → let p = handle_all host es (fresh_fonts elements) in
        get_elem? p.registrations i ≡ some r
        → r.outcome ≡ fulfilled families
        → let q = handle_fonts host asks p in
          (q.registered ≡ p.registered)
          × (q.shaped ≡ p.shaped)
          × (q.elements ≡ p.elements)
          × ((t : Registration) × (get_elem? q.registrations (length p.registrations) ≡ some t)
              × (t.outcome ≡ fulfilled [])
              × (any_load is_waiting t.loads ≡ false))
  unfolding handle_fonts
  handle_fonts-fulfilled es elements i {r} h e o =
      let p = handle_all host es (fresh_fonts elements) in
      let ok =
        All-get_elem? (RegistrationOk host p.registered p.elements) p.registrations i
          (handle_all-IsRegistering host es elements h).registrations e in
      let (faces, styled, _) =
        subst (OutcomeOk host p.registered p.elements r.loads) o ok.outcome in
      let loads = map (begin_load p.registered) (map default_request (default_faces host)) in
      let t : Registration = record { loads = loads; outcome = fulfilled [] } in
      rw (begin_again p faces styled) (
        refl,
        refl,
        refl,
        (
          t,
          get_elem?-last p.registrations t,
          refl,
          begin_all-waiting p.registered (default_faces host) faces,
        ),
      )
