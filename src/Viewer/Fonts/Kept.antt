-- ===== src/Viewer/Fonts/Kept.antt =====
-- The calls of `registerFontFromUrl` in rust/assets/hep-viewer.js: what stays true of a call while
-- others go on.
use ggsql_duckdb.Prelude.{
  ◌≡◌, refl, ap, ◌∙◌, sym, inl, inr, Bool, true, false, ◌||◌, Option, none, some, List, [], ◌∷◌,
  ◌++◌, map, Bool-cases, is_some,
}
use ggsql_duckdb.Boot.Init.{Bytes, Text}
use ggsql_duckdb.Viewer.Fonts.{
  FontHost, contains_text, has_element, FontRequest, key_of, LoadState, fetching, reading, loaded,
  load_failed, FaceLoad, FontState, Arrival, response, body, all_loaded, accept_font, resume_load,
  default_request,
}
use ggsql_duckdb.Viewer.Fonts.Texts.{
  All, contains_text-add_text, contains_text-add_self, has_element-add_text, All-append,
}

-- A call that has returned has its font registered; the default fonts name no generic family.
abbrev pub LoadedOk : List Text → Text → LoadState → Type 0
LoadedOk registered key (loaded families) = contains_text key registered ≡ true
LoadedOk registered key _ = Unit

abbrev pub LoadOk : List Text → FaceLoad → Type 0
LoadOk registered load =
    (load.request.generic_for ≡ none) × LoadedOk registered (key_of load.request) load.at

abbrev pub AllIn : List Text → List Text → Type 0
AllIn keys registered = All (λ (k : Text). contains_text k registered ≡ true) keys

-- The set has grown.
abbrev pub Grown : List Text → List Text → Type 0
Grown s t = (k : Text) → contains_text k s ≡ true → contains_text k t ≡ true

pub LoadOk-Grown : (s t : List Text) → Grown s t → (load : FaceLoad) → LoadOk s load → LoadOk t load
LoadOk-Grown s t g load h = (h.0, go load.at h.1)
  where
    go : (l : LoadState) → LoadedOk s (key_of load.request) l → LoadedOk t (key_of load.request) l
    go (loaded families) h = g (key_of load.request) h
    go fetching h = tt
    go reading h = tt
    go (load_failed e) h = tt

abbrev pub is_waiting : LoadState → Bool
is_waiting fetching = true
is_waiting reading = true
is_waiting _ = false

abbrev pub is_failed : LoadState → Bool
is_failed (load_failed e) = true
is_failed _ = false

abbrev pub any_load : (LoadState → Bool) → List FaceLoad → Bool
any_load f [] = false
any_load f (load ∷ loads) = f load.at || any_load f loads

-- Calls of which none has failed have all returned, or one still waits.
pub all_loaded-none :
    (loads : List FaceLoad)
    → any_load is_failed loads ≡ false
    → all_loaded loads ≡ none
    → any_load is_waiting loads ≡ true
all_loaded-none [] f h = absurd (cc)
all_loaded-none (load ∷ loads) f h = go load.at (all_loaded loads) f h (all_loaded-none loads)
  where
    go :
        (l : LoadState) (rest : Option (List Text))
        → (is_failed l || any_load is_failed loads) ≡ false
        → elim l [
          | loaded families ↦ elim rest [ none ↦ none | some more ↦ some (families ++ more) ]
          | _ ↦ none
        ]
          ≡ none
        → (any_load is_failed loads ≡ false → rest ≡ none → any_load is_waiting loads ≡ true)
        → (is_waiting l || any_load is_waiting loads) ≡ true
    go fetching rest f h ih = refl
    go reading rest f h ih = refl
    go (load_failed e) rest f h ih = absurd (cc)
    go (loaded families) none f h ih = ih f refl
    go (loaded families) (some more) f h ih = absurd (cc)

-- Once all have returned, the fonts of all their urls are registered.
pub all_loaded-AllIn :
    (registered : List Text) (loads : List FaceLoad) (urls families : List Text)
    → All (LoadOk registered) loads
    → map (λ (load : FaceLoad). load.request) loads ≡ map default_request urls
    → all_loaded loads ≡ some families
    → AllIn urls registered
all_loaded-AllIn registered loads [] families h e f = tt
all_loaded-AllIn registered [] (u ∷ urls) families h e f = absurd (cc)
all_loaded-AllIn registered (load ∷ loads) (u ∷ urls) families h e f =
    let q : load.request ≡ default_request u = cc in
    go load.at (all_loaded loads) h.0.1 f q
      λ more g. all_loaded-AllIn registered loads urls more h.1 (cc) g
  where
    go :
        (l : LoadState) (rest : Option (List Text))
        → LoadedOk registered (key_of load.request) l
        → elim l [
          | loaded families ↦ elim rest [ none ↦ none | some more ↦ some (families ++ more) ]
          | _ ↦ none
        ]
          ≡ some families
        → load.request ≡ default_request u
        → ((more : List Text) → rest ≡ some more → AllIn urls registered)
        → AllIn (u ∷ urls) registered
    go fetching rest h f q ih = absurd (cc)
    go reading rest h f q ih = absurd (cc)
    go (load_failed e) rest h f q ih = absurd (cc)
    go (loaded fs) none h f q ih = absurd (cc)
    go (loaded fs) (some more) h f q ih =
        (ap (λ r. contains_text (key_of r) registered) (sym q) ∙ h, ih more refl)

-- Every key that is registered is that of a font which `registerFont` of the wasm side has taken.
pub record IsShaped (host : FontHost) (p : FontState) : Type 0 where
  pub taken : (k : Text) → contains_text k p.registered ≡ true → has_element k p.shaped ≡ true
  pub accepted : All (λ (x : Text × Bytes). is_some (host.register_font x.1) ≡ true) p.shaped

pub IsShaped-same :
    (host : FontHost) (p q : FontState)
    → q.registered ≡ p.registered
    → q.shaped ≡ p.shaped
    → IsShaped host p
    → IsShaped host q
IsShaped-same host p q e f h = record {
  taken = λ k g. rw f (h.taken k (rw (← e) g));
  accepted = rw f h.accepted;
}

-- A call that goes on: only what is registered and taken grows.
pub record Resumed (host : FontHost) (key : Text) (p : FontState) (at : LoadState) (t : FontState)
    : Type 0 where
  pub shaped : IsShaped host p → IsShaped host t
  pub grown : Grown p.registered t.registered
  pub kept : LoadedOk t.registered key at
  pub generic : t.generic ≡ p.generic
  pub elements : t.elements ≡ p.elements
  pub registrations : t.registrations ≡ p.registrations

module _ (host : FontHost) where
  accept_font-Resumed :
      (q : FontRequest) (bytes : Bytes) (o : Option (List Text)) (p : FontState)
      → host.register_font bytes ≡ o
      → q.generic_for ≡ none
      → Resumed host (key_of q) p (accept_font host q bytes o p).0 (accept_font host q bytes o p).1
  accept_font-Resumed q bytes none p e h = record {
    shaped = λ s. s;
    grown = λ k g. g;
    kept = tt;
    generic = refl;
    elements = refl;
    registrations = refl;
  }
  accept_font-Resumed q bytes (some families) p e h = rw h (record {
    shaped = λ s. record {
      taken = λ k g. has_element-add_text (key_of q) k p.registered p.shaped bytes (s.taken k) g;
      accepted =
          All-append (λ (x : Text × Bytes). is_some (host.register_font x.1) ≡ true) p.shaped
            ((key_of q, bytes) ∷ []) s.accepted (rw e refl, tt);
    };
    grown = λ k g. contains_text-add_text (key_of q) k p.registered g;
    kept = contains_text-add_self (key_of q) p.registered;
    generic = refl;
    elements = refl;
    registrations = refl;
  })

  abbrev pub ResumedOk : Text → FontState → Option (LoadState × FontState) → Type 0
  ResumedOk key p none = Unit
  ResumedOk key p (some (at, t)) = Resumed host key p at t

  unchanged :
      (key : Text) (p : FontState) (l : LoadState)
      → LoadedOk p.registered key l
      → Resumed host key p l p
  unchanged key p l h = record {
    shaped = λ s. s;
    grown = λ k g. g;
    kept = h;
    generic = refl;
    elements = refl;
    registrations = refl;
  }

  pub resume_load-ResumedOk :
      (q : FontRequest) (l : LoadState) (a : Arrival) (p : FontState)
      → q.generic_for ≡ none
      → ResumedOk (key_of q) p (resume_load host q l a p)
  unfolding resume_load
  resume_load-ResumedOk q fetching (response none) p h = unchanged (key_of q) p _ tt
  resume_load-ResumedOk q fetching (response (some r)) p h = elim (Bool-cases r.ok) [
    | inl e ↦ rw e (unchanged (key_of q) p _ tt)
    | inr e ↦ rw e (unchanged (key_of q) p _ tt)
  ]
  resume_load-ResumedOk q fetching (body a) p h = tt
  resume_load-ResumedOk q reading (response a) p h = tt
  resume_load-ResumedOk q reading (body none) p h = unchanged (key_of q) p _ tt
  resume_load-ResumedOk q reading (body (some bytes)) p h =
      accept_font-Resumed q bytes (host.register_font bytes) p refl h
  resume_load-ResumedOk q (loaded families) a p h = tt
  resume_load-ResumedOk q (load_failed e) a p h = tt
