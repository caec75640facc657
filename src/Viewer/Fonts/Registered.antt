-- ===== src/Viewer/Fonts/Registered.antt =====
-- `registerDefaultFonts` of rust/assets/hep-viewer.js over any interleaving of its calls.
use ggsql_duckdb.Prelude.{
  ℕ, ◌≡◌, refl, ◌∙◌, inl, inr, false, Option, none, some, List, [], ◌∷◌, ◌++◌, map, get_elem?, set,
  Option-cases, arith,
}
use ggsql_duckdb.Boot.Init.{Text}
use ggsql_duckdb.Viewer.Fonts.{
  FontHost, key_of, LoadState, FaceLoad, Settled, Registration, FontState, Arrival, FontEvent, asks,
  arrives, style_id, has_element, all_loaded, default_faces, begin_load, resume_load, when_loaded,
  default_request, begin_registration, put_load, arrive_in, handle_fonts, handle_all,
}
use ggsql_duckdb.Viewer.Fonts.Texts.{All-append, All-set, All-get_elem?, All-map}
use ggsql_duckdb.Viewer.Fonts.Kept.{
  LoadOk, LoadOk-Grown, IsShaped-same, ResumedOk, resume_load-ResumedOk,
}
use ggsql_duckdb.Viewer.Fonts.Promise.{
  map-set_same, RegistrationOk, IsRegistering, Styled, RegistrationOk-Grown, HasFaces-Grown,
  OutcomeOk-Grown, Settling, Ready, when_loaded-Settling, count_elements-eq-zero,
}
use ggsql_duckdb.Viewer.Fonts.Going.{
  resume_load-waits, begin_all-LoadOk, begin_all-request, begin_all-failed,
  settle_registration-Settling, put_registration-IsRegistering,
}

-- Before any view asks for fonts, on a page with these elements.
abbrev pub fresh_fonts : List (Text × Text) → FontState
fresh_fonts elements = record {
  registered = [];
  shaped = [];
  generic = [];
  elements = elements;
  registrations = [];
}

module _ (host : FontHost) where
  begin_registration-IsRegistering :
      (p : FontState) → IsRegistering host p → IsRegistering host (begin_registration host p)
  unfolding begin_registration
  begin_registration-IsRegistering p h =
      let loads = map (begin_load p.registered) (map default_request (default_faces host)) in
      let ready : Ready host p loads = record {
        shaped = h.shaped;
        loads_ok = begin_all-LoadOk p.registered (default_faces host);
        requests = begin_all-request p.registered (map default_request (default_faces host));
        family = h.family;
        styled = h.styled;
      } in
      let s =
        when_loaded-Settling host p loads ready
          (begin_all-failed p.registered (map default_request (default_faces host))) in
      go loads ready (when_loaded host (all_loaded loads) p) s
    where
      go :
          (loads : List FaceLoad)
          → Ready host p loads
          → (oq : Settled × FontState) → Settling host p loads oq.0 oq.1
          → IsRegistering host (record oq.1 {
            registrations = oq.1.registrations ++ (record { loads = loads; outcome = oq.0 } ∷ []);
          })
      go loads ready (o, q) s = record {
        registrations =
            let moved =
              All-map (RegistrationOk host p.registered p.elements)
                (RegistrationOk host q.registered q.elements) p.registrations
                (RegistrationOk-Grown host p.registered q.registered p.elements q.elements
                  (λ k g. rw (s.same) g) s.kept)
                h.registrations in
            rw (s.others) (
              All-append (RegistrationOk host q.registered q.elements) p.registrations _ moved (
                record {
                  loads = rw (s.same) ready.loads_ok;
                  requests = ready.requests;
                  outcome = s.outcome;
                },
                tt,
              ));
        shaped = IsShaped-same host p _ s.same s.given ready.shaped;
        family = s.family;
        styled = s.styled;
      }

  put_load-IsRegistering :
      (p : FontState) (i j : ℕ) (r : Registration) (w : FaceLoad)
      → IsRegistering host p
      → get_elem? p.registrations i ≡ some r
      → get_elem? r.loads j ≡ some w
      → (a : Arrival) (o : Option (LoadState × FontState)) → resume_load host w.request w.at a p ≡ o
      → ResumedOk host (key_of w.request) p o
      → IsRegistering host (put_load host i j r w.request o p)
  put_load-IsRegistering p i j r w h e f a none g k = h
  put_load-IsRegistering p i j r w h e f a (some (at, t)) g k =
      let old =
        All-get_elem? (RegistrationOk host p.registered p.elements) p.registrations i
          h.registrations e in
      let mine = All-get_elem? (LoadOk p.registered) r.loads j old.loads f in
      let loads = set r.loads j (record { request = w.request; at = at }) in
      let same : Styled host p.elements t.elements = λ x. rw (k.elements) x in
      let ready : Ready host t loads = record {
        shaped = k.shaped h.shaped;
        loads_ok =
            All-set (LoadOk t.registered) r.loads j (record { request = w.request; at = at })
              (All-map (LoadOk p.registered) (LoadOk t.registered) r.loads
                (LoadOk-Grown p.registered t.registered k.grown) old.loads)
              (mine.0, k.kept);
        requests = map-set_same r.loads j at w f ∙ old.requests;
        family = rw (k.generic) (elim h.family [
          | inl x ↦ inl x
          | inr x ↦ inr (HasFaces-Grown host p.registered t.registered k.grown x)
        ]);
        styled = rw (k.elements) h.styled;
      } in
      put_registration-IsRegistering host t _ i loads _
        (rw (k.registrations) (
          All-map (RegistrationOk host p.registered p.elements)
            (RegistrationOk host t.registered t.elements) p.registrations
            (RegistrationOk-Grown host p.registered t.registered p.elements t.elements k.grown same)
            h.registrations))
        ready
        (settle_registration-Settling host t r.outcome r.loads j at w f
          (resume_load-waits host w.request w.at a p g)
          (OutcomeOk-Grown host p.registered t.registered p.elements t.elements r.loads r.outcome
            k.grown same old.outcome)
          ready)

  handle_fonts-IsRegistering :
      (e : FontEvent) (p : FontState)
      → IsRegistering host p
      → IsRegistering host (handle_fonts host e p)
  unfolding handle_fonts
  handle_fonts-IsRegistering asks p h = begin_registration-IsRegistering p h
  handle_fonts-IsRegistering (arrives i j a) p h =
      elim (Option-cases (get_elem? p.registrations i)) [
        | inl e ↦ rw e h
        | inr (r, e) ↦ rw e (elim (Option-cases (get_elem? r.loads j)) [
          | inl f ↦ rw (f, arrive_in) h
          | inr (w, f) ↦ rw (f, arrive_in) (go r w e f)
        ])
      ]
    where
      go :
          (r : Registration) (w : FaceLoad)
          → get_elem? p.registrations i ≡ some r
          → get_elem? r.loads j ≡ some w
          → IsRegistering host
              (put_load host i j r w.request (resume_load host w.request w.at a p) p)
      go r w e f =
          let old =
            All-get_elem? (RegistrationOk host p.registered p.elements) p.registrations i
              h.registrations e in
          let mine = All-get_elem? (LoadOk p.registered) r.loads j old.loads f in
          put_load-IsRegistering p i j r w h e f a _ refl
            (resume_load-ResumedOk host w.request w.at a p mine.0)

  handle_all-kept :
      (es : List FontEvent) (p : FontState)
      → IsRegistering host p
      → IsRegistering host (handle_all host es p)
  unfolding handle_all
  handle_all-kept [] p h = h
  handle_all-kept (e ∷ es) p h =
      handle_all-kept es (handle_fonts host e p) (handle_fonts-IsRegistering e p h)

  -- On a page without the style sheet of the faces, after any overlapping requests for the default
  -- fonts and any arrivals: a request that waits has a font that is still to come and none that has
  -- failed; one that is fulfilled has every face registered, the style sheet in the page and no family
  -- twice in its result; one is rejected only by a font that has failed or by `setGenericFamily`. For
  -- every face that is registered the wasm side has taken a font, which it did not refuse. The generic
  -- family is set only with every face registered, and the sheet stands once at most.
  pub handle_all-IsRegistering :
      (es : List FontEvent) (elements : List (Text × Text))
      → has_element style_id elements ≡ false
      → IsRegistering host (handle_all host es (fresh_fonts elements))
  handle_all-IsRegistering es elements h = handle_all-kept es (fresh_fonts elements) (record {
    registrations = tt;
    shaped = record { taken = λ k e. absurd (cc); accepted = tt };
    family = inl refl;
    styled = rw (count_elements-eq-zero style_id elements h) (omega arith);
  })
