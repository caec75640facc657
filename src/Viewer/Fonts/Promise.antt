-- ===== src/Viewer/Fonts/Promise.antt =====
-- The promise of `registerDefaultFonts` in rust/assets/hep-viewer.js, and what settling it leaves.
use ggsql_duckdb.Prelude.{
  ℕ, zero, suc, ◌+◌, ◌≤◌, ◌≡◌, refl, ap, ◌∙◌, ◌⊎◌, inl, inr, Bool, true, false, ◌||◌, some, List,
  [], ◌∷◌, ◌++◌, map, codes, text_eq, get_elem?, set, Bool-cases, Option-cases, if◌then◌else◌,
  arith,
}
use ggsql_duckdb.Boot.Init.{Text}
use ggsql_duckdb.Viewer.Fonts.{
  FontHost, contains_text, FontRequest, family_refused, LoadState, FaceLoad, Settled, waiting,
  fulfilled, rejected, Registration, FontState, style_id, has_element, all_loaded, default_faces,
  default_face_css, install_css, finish_registration, when_loaded, default_request,
}
use ggsql_duckdb.Viewer.Fonts.Texts.{
  All, All-map, IsDistinct, IsDistinct-add_texts, has_element-append,
}
use ggsql_duckdb.Viewer.Fonts.Kept.{
  LoadOk, LoadOk-Grown, AllIn, Grown, is_waiting, is_failed, any_load, all_loaded-none,
  all_loaded-AllIn, IsShaped,
}

abbrev pub count_elements : Text → List (Text × Text) → ℕ
count_elements name [] = 0
count_elements name ((other, _) ∷ rest) =
    (if text_eq name other then 1 else 0) + count_elements name rest

-- Which of the calls is set does not matter to what holds of some call.
pub any_load-set :
    (f : LoadState → Bool) (loads : List FaceLoad) (j : ℕ) (v : FaceLoad) {w : FaceLoad}
    → get_elem? loads j ≡ some w
    → f v.at ≡ true
    → any_load f (set loads j v) ≡ true
any_load-set f [] j v e h = absurd (cc)
any_load-set f (x ∷ xs) zero v e h = rw h refl
any_load-set f (x ∷ xs) (suc j) v e h = ground (arith, any_load-set f xs j v e h)

pub any_load-set-false :
    (f : LoadState → Bool) (loads : List FaceLoad) (j : ℕ) (v : FaceLoad)
    → any_load f loads ≡ false
    → f v.at ≡ false
    → any_load f (set loads j v) ≡ false
any_load-set-false f [] j v e h = refl
any_load-set-false f (x ∷ xs) zero v e h = ground arith
any_load-set-false f (x ∷ xs) (suc j) v e h = ground (arith, any_load-set-false f xs j v)

pub any_load-set_keep :
    (f : LoadState → Bool) (loads : List FaceLoad) (j : ℕ) (v w : FaceLoad)
    → get_elem? loads j ≡ some w
    → f w.at ≡ false
    → any_load f loads ≡ true
    → any_load f (set loads j v) ≡ true
any_load-set_keep f [] j v w e g h = h
any_load-set_keep f (x ∷ xs) zero v w e g h =
    let same : x ≡ w = cc in
    let no : f x.at ≡ false = ap (λ (l : FaceLoad). f l.at) same ∙ g in ground arith
any_load-set_keep f (x ∷ xs) (suc j) v w e g h = ground (arith, any_load-set_keep f xs j v w e g)

pub map-set_same :
    (loads : List FaceLoad) (j : ℕ) (at : LoadState) (w : FaceLoad)
    → get_elem? loads j ≡ some w
    → map (λ (l : FaceLoad). l.request) (set loads j (record { request = w.request; at = at }))
      ≡ map (λ (l : FaceLoad). l.request) loads
map-set_same [] j at w e = refl
map-set_same (x ∷ xs) zero at w e =
    let same : w ≡ x = cc in
    ap (λ (l : FaceLoad). l.request ∷ map (λ (k : FaceLoad). k.request) xs) same
map-set_same (x ∷ xs) (suc j) at w e =
    ap (λ (rs : List FontRequest). x.request ∷ rs) (map-set_same xs j at w e)

count_elements-append :
    (name : Text) (s t : List (Text × Text))
    → count_elements name (s ++ t) ≡ count_elements name s + count_elements name t
count_elements-append name [] t = omega arith
count_elements-append name ((x, _) ∷ s) t = omega (arith, count_elements-append name s t)

pub count_elements-eq-zero :
    (name : Text) (s : List (Text × Text)) → has_element name s ≡ false → count_elements name s ≡ 0
count_elements-eq-zero name [] h = refl
count_elements-eq-zero name ((x, _) ∷ s) h = ground (arith, count_elements-eq-zero name s)

-- The sheet is there afterwards, and once if it was there once at most.
module _ (host : FontHost) where
  install_css-has_element :
      (elements : List (Text × Text)) → has_element style_id (install_css host elements) ≡ true
  install_css-has_element elements = elim (Bool-cases (has_element style_id elements)) [
    | inl e ↦ rw e e
    | inr e ↦ rw e (has_element-append style_id elements _ ∙ ap (λ b. b || true) e)
  ]

  install_css-count :
      (elements : List (Text × Text))
      → count_elements style_id elements ≤ 1
      → count_elements style_id (install_css host elements) ≤ 1
  install_css-count elements h = elim (Bool-cases (has_element style_id elements)) [
    | inl e ↦ rw e h
    | inr e ↦ rw e (
        omega (
          arith,
          count_elements-append style_id elements ((style_id, default_face_css host) ∷ []),
          count_elements-eq-zero style_id elements e,
        ))
  ]

  abbrev pub HasFaces : List Text → Type 0
  HasFaces registered = AllIn (default_faces host) registered

  -- A promise of `registerDefaultFonts` that waits has a call that waits, and none that has failed; if
  -- it is fulfilled, all faces are registered and the page has the style sheet; it is rejected by a
  -- call that has failed, or by `setGenericFamily`.
  abbrev pub OutcomeOk : List Text → List (Text × Text) → List FaceLoad → Settled → Type 0
  OutcomeOk registered elements loads waiting =
      (any_load is_waiting loads ≡ true) × (any_load is_failed loads ≡ false)
  OutcomeOk registered elements loads (fulfilled families) =
      HasFaces registered × (has_element style_id elements ≡ true) × IsDistinct families
  OutcomeOk registered elements loads (rejected e) =
      (any_load is_failed loads ≡ true) ⊎ (e ≡ family_refused)

  pub record RegistrationOk (registered : List Text) (elements : List (Text × Text))
      (r : Registration) : Type 0 where
    pub loads : All (LoadOk registered) r.loads
    pub requests :
        map (λ (l : FaceLoad). l.request) r.loads ≡ map default_request (default_faces host)
    pub outcome : OutcomeOk registered elements r.loads r.outcome

  -- What is registered was taken by the wasm side; the family is set only with all faces registered, and
  -- no style sheet stands twice.
  pub record IsRegistering (p : FontState) : Type 0 where
    pub registrations : All (RegistrationOk p.registered p.elements) p.registrations
    pub shaped : IsShaped host p
    pub family : (p.generic ≡ []) ⊎ HasFaces p.registered
    pub styled : count_elements style_id p.elements ≤ 1

  abbrev pub Styled : List (Text × Text) → List (Text × Text) → Type 0
  Styled s t = has_element style_id s ≡ true → has_element style_id t ≡ true

  pub HasFaces-Grown : (s t : List Text) → Grown s t → HasFaces s → HasFaces t
  HasFaces-Grown s t g h =
      All-map (λ (k : Text). contains_text k s ≡ true) (λ (k : Text). contains_text k t ≡ true)
        (default_faces host) g h

  pub OutcomeOk-Grown :
      (s t : List Text) (a b : List (Text × Text)) (loads : List FaceLoad) (o : Settled)
      → Grown s t
      → Styled a b
      → OutcomeOk s a loads o
      → OutcomeOk t b loads o
  OutcomeOk-Grown s t a b loads waiting g y h = h
  OutcomeOk-Grown s t a b loads (fulfilled families) g y h = (HasFaces-Grown s t g h.0, y h.1, h.2)
  OutcomeOk-Grown s t a b loads (rejected e) g y h = h

  pub RegistrationOk-Grown :
      (s t : List Text) (a b : List (Text × Text))
      → Grown s t
      → Styled a b
      → (r : Registration) → RegistrationOk s a r
      → RegistrationOk t b r
  RegistrationOk-Grown s t a b g y r h = record {
    loads = All-map (LoadOk s) (LoadOk t) r.loads (LoadOk-Grown s t g) h.loads;
    requests = h.requests;
    outcome = OutcomeOk-Grown s t a b r.loads r.outcome g y h.outcome;
  }

  -- What settling a promise leaves: the page and the promise are in order.
  pub record Settling (p : FontState) (loads : List FaceLoad) (o : Settled) (q : FontState)
      : Type 0 where
    pub same : q.registered ≡ p.registered
    pub given : q.shaped ≡ p.shaped
    pub others : q.registrations ≡ p.registrations
    pub kept : Styled p.elements q.elements
    pub outcome : OutcomeOk q.registered q.elements loads o
    pub family : (q.generic ≡ []) ⊎ HasFaces q.registered
    pub styled : count_elements style_id q.elements ≤ 1

  -- What a promise that settles finds.
  pub record Ready (p : FontState) (loads : List FaceLoad) : Type 0 where
    pub shaped : IsShaped host p
    pub loads_ok : All (LoadOk p.registered) loads
    pub requests :
        map (λ (l : FaceLoad). l.request) loads ≡ map default_request (default_faces host)
    pub family : (p.generic ≡ []) ⊎ HasFaces p.registered
    pub styled : count_elements style_id p.elements ≤ 1

  pub stays :
      (p : FontState) (loads : List FaceLoad) (o : Settled)
      → Ready p loads
      → OutcomeOk p.registered p.elements loads o
      → Settling p loads o p
  stays p loads o h k = record {
    same = refl;
    given = refl;
    others = refl;
    kept = λ e. e;
    outcome = k;
    family = h.family;
    styled = h.styled;
  }

  finish-Settling :
      (p : FontState) (loads : List FaceLoad) (families : List Text)
      → Ready p loads
      → all_loaded loads ≡ some families
      → Settling p loads
          (finish_registration host families p).0
          (finish_registration host families p).1
  finish-Settling p loads families h e =
      let faces =
        all_loaded-AllIn p.registered loads (default_faces host) families h.loads_ok h.requests e in
      elim (Bool-cases (host.set_generic_family (codes "sans-serif") (codes "Roboto" ∷ []))) [
        | inl yes_set ↦ rw yes_set (record {
          same = refl;
          given = refl;
          others = refl;
          kept = λ _. install_css-has_element p.elements;
          outcome =
              (faces, install_css-has_element p.elements, IsDistinct-add_texts families [] tt);
          family = inr faces;
          styled = install_css-count p.elements h.styled;
        })
        | inr not_set ↦ rw not_set (stays p loads (rejected family_refused) h (inr refl))
      ]

  pub when_loaded-Settling :
      (p : FontState) (loads : List FaceLoad)
      → Ready p loads
      → any_load is_failed loads ≡ false
      → Settling p loads
          (when_loaded host (all_loaded loads) p).0
          (when_loaded host (all_loaded loads) p).1
  when_loaded-Settling p loads h f = elim (Option-cases (all_loaded loads)) [
    | inl e ↦ rw e (stays p loads waiting h (all_loaded-none loads f e, f))
    | inr (families, e) ↦ rw e (finish-Settling p loads families h e)
  ]
