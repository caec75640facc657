-- ===== src/Viewer/Fonts/Going.antt =====
-- The calls that a request for the default fonts of rust/assets/hep-viewer.js begins, and its promise when
-- one of them goes on.
use ggsql_duckdb.Prelude.{
  ℕ, ◌≡◌, refl, ap, inl, inr, false, some, List, [], ◌∷◌, map, get_elem?, set, Bool-cases,
}
use ggsql_duckdb.Boot.Init.{Text}
use ggsql_duckdb.Viewer.Fonts.{
  FontHost, contains_text, key_of, FontRequest, LoadState, fetching, reading, loaded, load_failed,
  FaceLoad, Settled, waiting, fulfilled, rejected, FontState, Arrival, begin_load, resume_load,
  settle_registration, default_request, put_registration,
}
use ggsql_duckdb.Viewer.Fonts.Texts.{All, All-set, All-map}
use ggsql_duckdb.Viewer.Fonts.Kept.{LoadOk, IsShaped-same, is_waiting, is_failed, any_load}
use ggsql_duckdb.Viewer.Fonts.Promise.{
  any_load-set, any_load-set-false, any_load-set_keep, OutcomeOk, RegistrationOk, IsRegistering,
  RegistrationOk-Grown, Settling, Ready, stays, when_loaded-Settling,
}

-- A call that goes on was waiting.
pub resume_load-waits :
    (host : FontHost) (q : FontRequest) (l : LoadState) (a : Arrival) (p : FontState)
    {x : LoadState × FontState}
    → resume_load host q l a p ≡ some x
    → is_failed l ≡ false
unfolding resume_load
resume_load-waits host q fetching a p e = refl
resume_load-waits host q reading a p e = refl
resume_load-waits host q (loaded families) a p e = refl
resume_load-waits host q (load_failed x) a p e = absurd (cc)

module _ (registered : List Text) where
  pub begin_load-LoadOk : (u : Text) → LoadOk registered (begin_load registered (default_request u))
  begin_load-LoadOk u = elim (Bool-cases (contains_text u registered)) [
    | inl e ↦ rw e (refl, e)
    | inr e ↦ rw e (refl, tt)
  ]

  pub begin_all-LoadOk :
      (urls : List Text)
      → All (LoadOk registered) (map (begin_load registered) (map default_request urls))
  begin_all-LoadOk [] = tt
  begin_all-LoadOk (u ∷ urls) = (begin_load-LoadOk u, begin_all-LoadOk urls)

  pub begin_all-request :
      (qs : List FontRequest)
      → map (λ (l : FaceLoad). l.request) (map (begin_load registered) qs) ≡ qs
  begin_all-request [] = refl
  begin_all-request (q ∷ qs) = ap (λ (rs : List FontRequest). q ∷ rs) (begin_all-request qs)

  pub begin_all-failed :
      (qs : List FontRequest) → any_load is_failed (map (begin_load registered) qs) ≡ false
  begin_all-failed [] = refl
  begin_all-failed (q ∷ qs) = elim (Bool-cases (contains_text (key_of q) registered)) [
    | inl e ↦ rw e (begin_all-failed qs)
    | inr e ↦ rw e (begin_all-failed qs)
  ]

module _ (host : FontHost) where
  -- A promise that waits or is settled, when the j-th of its calls has gone on to `at`.
  pub settle_registration-Settling :
      (p : FontState) (o : Settled) (old : List FaceLoad) (j : ℕ) (at : LoadState) (w : FaceLoad)
      → let loads = set old j (record { request = w.request; at = at }) in
        get_elem? old j ≡ some w
        → is_failed w.at ≡ false
        → OutcomeOk host p.registered p.elements old o
        → Ready host p loads
        → Settling host p loads
            (settle_registration host o at loads p).0
            (settle_registration host o at loads p).1
  settle_registration-Settling p (fulfilled families) old j at w e f k h =
      stays host p _ (fulfilled families) h k
  settle_registration-Settling p (rejected x) old j at w e f k h =
      stays host p _ (rejected x) h
        (elim k [ inl g ↦ inl (any_load-set_keep is_failed old j _ w e f g) | inr g ↦ inr g ])
  settle_registration-Settling p waiting old j (load_failed x) w e f k h =
      stays host p _ (rejected x) h (inl (any_load-set is_failed old j _ e refl))
  settle_registration-Settling p waiting old j fetching w e f k h =
      stays host p _ waiting h
        (any_load-set is_waiting old j _ e refl, any_load-set-false is_failed old j _ k.1 refl)
  settle_registration-Settling p waiting old j reading w e f k h =
      stays host p _ waiting h
        (any_load-set is_waiting old j _ e refl, any_load-set-false is_failed old j _ k.1 refl)
  settle_registration-Settling p waiting old j (loaded families) w e f k h =
      when_loaded-Settling host p _ h (any_load-set-false is_failed old j _ k.1 refl)

  -- The registrations stay in order when the i-th settles.
  pub put_registration-IsRegistering :
      (p q : FontState) (i : ℕ) (loads : List FaceLoad) (o : Settled)
      → All (RegistrationOk host p.registered p.elements) p.registrations
      → Ready host p loads
      → Settling host p loads o q
      → IsRegistering host (put_registration i loads (o, q))
  put_registration-IsRegistering p q i loads o rs h s = record {
    registrations =
        let moved =
          All-map (RegistrationOk host p.registered p.elements)
            (RegistrationOk host q.registered q.elements) p.registrations
            (RegistrationOk-Grown host p.registered q.registered p.elements q.elements
              (λ k g. rw (s.same) g) s.kept)
            rs in
        rw (s.others) (
          All-set (RegistrationOk host q.registered q.elements) p.registrations i
            (record { loads = loads; outcome = o }) moved
            (record {
              loads = rw (s.same) h.loads_ok;
              requests = h.requests;
              outcome = s.outcome;
            }));
    shaped = IsShaped-same host p (put_registration i loads (o, q)) s.same s.given h.shaped;
    family = s.family;
    styled = s.styled;
  }
