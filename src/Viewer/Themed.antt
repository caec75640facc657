-- ===== src/Viewer/Themed.antt =====
-- The color scheme of `PlotView` (rust/assets/hep-viewer.js): the document's theme is the one that
-- the scheme asks for, also while the OS changes its own.
use ggsql_duckdb.Prelude.{
  ℕ, suc, ◌≡◌, refl, sym, subst, inl, inr, ◌∙◌, Bool, true, false, Option, none, some, List, [],
  ◌∷◌, is_some, arith, if◌then◌else◌,
}
use mathlib.Core.Option
use ggsql_duckdb.Viewer.Host.{Numbers, Wasm}
use ggsql_duckdb.Viewer.State.{
  State, M, Outcome, ok, throws, skip, next, cancel, ◌>>◌, ColorScheme, light, dark, auto, other,
  remove,
}
use ggsql_duckdb.Viewer.Draw.{schedule, redraw}
use ggsql_duckdb.Viewer.Theme.{set_dark, on_media, detach_media, apply_scheme, set_color_scheme}
use ggsql_duckdb.Viewer.Lifecycle.{
  Event, redraws, resizes, sets_scheme, frees, asks_scheme, asks_dark, asks_hints, frame_due,
  container_change, media_change, contains, notify, dispatch,
}
use ggsql_duckdb.Viewer.Invariant.{IsLive, IsValid, registered}
use ggsql_duckdb.Viewer.Asked.{view_scheme, view_is_dark-same, hints-same}
use ggsql_duckdb.Viewer.Safety.{chosen, free-live, dispatch-freed}
use ggsql_duckdb.Viewer.Keeps.{
  Keeps, set_dark-Keeps, render_now-Keeps, resize-Keeps, on_observed-Keeps, on_frame-Keeps,
  schedule-Keeps,
}

-- The theme that a scheme asks for, given the OS theme.
abbrev pub wants_dark : ColorScheme → Bool → Bool
wants_dark auto os = os
wants_dark dark os = true
wants_dark _ os = false

abbrev pub is_auto : ColorScheme → Bool
is_auto auto = true
is_auto _ = false

wants_dark-other :
    (c : ColorScheme) (a b : Bool) → is_auto c ≡ false → wants_dark c a ≡ wants_dark c b
wants_dark-other auto a b e = cc
wants_dark-other dark a b e = refl
wants_dark-other light a b e = refl
wants_dark-other (other n) a b e = refl

wants_dark-auto : (c : ColorScheme) (b : Bool) → is_auto c ≡ true → wants_dark c b ≡ b
wants_dark-auto auto b e = refl
wants_dark-auto dark b e = cc
wants_dark-auto light b e = cc
wants_dark-auto (other n) b e = cc

registered-nil : (o : Option ℕ) → [] ≡ registered o → is_some o ≡ false
registered-nil none e = refl
registered-nil (some k) e = cc

registered-cons : {k : ℕ} {ks : List ℕ} (o : Option ℕ) → k ∷ ks ≡ registered o → is_some o ≡ true
registered-cons none e = cc
registered-cons (some k) e = refl

module _ {Num Doc : Type 0} (js : Numbers Num) (wasm : Wasm Num Doc) where
  -- A view in use draws in the theme of its scheme, and listens to the OS exactly under `auto`.
  pub record IsThemed (s : State Num Doc) : Type 0 where
    pub theme :
        s.freed ≡ false → Option.map wasm.is_dark s.plot ≡ some (wants_dark s.scheme s.prefers_dark)
    pub listens : s.freed ≡ false → is_some s.media ≡ is_auto s.scheme

  Keeps-IsThemed : (s t : State Num Doc) → Keeps s t → IsThemed s → IsThemed t
  Keeps-IsThemed s t k v = record {
    theme = λ f. rw (k.plot_kept, k.scheme_kept, k.os_kept) (v.theme (sym k.freed_kept ∙ f));
    listens = λ f. rw (k.media_kept, k.scheme_kept) (v.listens (sym k.freed_kept ∙ f));
  }

  -- Setting the theme of a view in use, and what it does on the wasm side.
  set_dark-theme :
      (b : Bool) (s : State Num Doc)
      → is_some s.plot ≡ true
      → Option.map wasm.is_dark (set_dark js wasm b s).1.plot ≡ some b
  set_dark-theme b s h = grind (arith, wasm.is_dark-set_dark)

  set_dark-IsThemed :
      (b : Bool) (s : State Num Doc)
      → is_some s.plot ≡ true
      → wants_dark s.scheme s.prefers_dark ≡ b
      → is_some s.media ≡ is_auto s.scheme
      → IsThemed (set_dark js wasm b s).1
  set_dark-IsThemed b s h w l =
      let (p, q, r) = set_dark-Keeps js wasm b s in
      record { theme = λ _. rw (p, q, w) (set_dark-theme b s h); listens = λ _. rw (r, p) l }

  then_schedule-IsThemed :
      (m : M Num Doc (Unit {0})) (s : State Num Doc)
      → IsThemed (m s).1
      → IsThemed ((m >> schedule js wasm) s).1
  then_schedule-IsThemed m s = go (m s)
    where
      go :
          (o : Outcome (Unit {0}) × State Num Doc)
          → IsThemed o.1
          → IsThemed (next (λ _. schedule js wasm) o.0 o.1).1
      go (ok u, t) = Keeps-IsThemed t _ (schedule-Keeps js wasm t)
      go (throws x, t) = λ v. v

  guarded-IsThemed :
      (b : Bool) (m : M Num Doc (Unit {0})) (s : State Num Doc)
      → IsThemed s
      → IsThemed (m s).1
      → IsThemed ((if b then skip else m) s).1
  guarded-IsThemed true m s v w = v
  guarded-IsThemed false m s v w = w

  when-IsThemed :
      (b : Bool) (m : M Num Doc (Unit {0})) (s : State Num Doc)
      → IsThemed s
      → IsThemed (m s).1
      → IsThemed ((if b then m else skip) s).1
  when-IsThemed true m s v w = w
  when-IsThemed false m s v w = v

  set_color_scheme-IsThemed :
      (c : ColorScheme) (s : State Num Doc)
      → IsLive s
      → IsThemed s
      → IsThemed (set_color_scheme js wasm c s).1
  unfolding set_color_scheme detach_media
  set_color_scheme-IsThemed auto s v w = guarded-IsThemed s.freed _ s w (
      then_schedule-IsThemed (apply_scheme js wasm auto) (chosen js wasm auto s)
        (set_dark-IsThemed s.prefers_dark listening v.has_document refl refl))
    where
      listening : State Num Doc
      listening = record (chosen js wasm auto s) {
        media = some s.next_id;
        listeners = s.next_id ∷ cancel s.media s.listeners;
        next_id = suc s.next_id;
      }
  set_color_scheme-IsThemed dark s v w = guarded-IsThemed s.freed _ s w (
      then_schedule-IsThemed (apply_scheme js wasm dark) (chosen js wasm dark s)
        (set_dark-IsThemed true (chosen js wasm dark s) v.has_document refl refl))
  set_color_scheme-IsThemed light s v w = guarded-IsThemed s.freed _ s w (
      then_schedule-IsThemed (apply_scheme js wasm light) (chosen js wasm light s)
        (set_dark-IsThemed false (chosen js wasm light s) v.has_document refl refl))
  set_color_scheme-IsThemed (other n) s v w = guarded-IsThemed s.freed _ s w w

  -- A change of the OS theme reaches the document under `auto`, and no other scheme follows it.
  media_change-IsThemed :
      (b : Bool) (s : State Num Doc)
      → IsLive s
      → IsThemed s
      → IsThemed (notify js wasm s.listeners (on_media js wasm b) (record s { prefers_dark = b })).1
  unfolding on_media
  media_change-IsThemed b s v w = go s.listeners v.one_listener
    where
      told : State Num Doc
      told = record s { prefers_dark = b }

      go :
          (ids : List ℕ)
          → ids ≡ registered s.media
          → IsThemed (notify js wasm ids (on_media js wasm b) told).1
      go [] p =
          let same =
            wants_dark-other s.scheme b s.prefers_dark
              (sym (w.listens v.in_use) ∙ registered-nil s.media p) in
          record { theme = λ f. rw same (w.theme f); listens = w.listens }
      go (k ∷ ks) p = then_schedule-IsThemed (set_dark js wasm b) told (
          set_dark-IsThemed b told v.has_document
            (wants_dark-auto s.scheme b (sym (w.listens v.in_use) ∙ registered-cons s.media p))
            (w.listens v.in_use))

  -- Every call and browser event, an error included, keeps the theme of a valid view in step.
  pub dispatch-IsThemed :
      (e : Event Num) (s : State Num Doc)
      → IsValid s
      → IsThemed s
      → IsThemed (dispatch js wasm e s).1
  unfolding dispatch redraw view_scheme
  dispatch-IsThemed e s (inr v) w =
      rw (dispatch-freed js wasm e v)
        (record { theme = λ f. cc v.out_of_use; listens = λ f. cc v.out_of_use })
  dispatch-IsThemed redraws s (inl v) w = Keeps-IsThemed s _ (render_now-Keeps js wasm s) w
  dispatch-IsThemed (resizes x y) s (inl v) w = Keeps-IsThemed s _ (resize-Keeps js wasm x y s) w
  dispatch-IsThemed (sets_scheme c) s (inl v) w = set_color_scheme-IsThemed c s v w
  dispatch-IsThemed frees s (inl v) w =
      rw (free-live js wasm v) (record { theme = λ f. cc; listens = λ f. cc })
  dispatch-IsThemed asks_scheme s (inl v) w = w
  dispatch-IsThemed asks_dark s (inl v) w = subst IsThemed (sym (view_is_dark-same js wasm s)) w
  dispatch-IsThemed asks_hints s (inl v) w = subst IsThemed (sym (hints-same js wasm s)) w
  dispatch-IsThemed (frame_due k) s (inl v) w = when-IsThemed (contains k s.frames) _ s w (
      Keeps-IsThemed (record s { frames = remove k s.frames }) _ (on_frame-Keeps js wasm _)
        (record { theme = w.theme; listens = w.listens }))
  dispatch-IsThemed (container_change box) s (inl v) w =
      when-IsThemed s.observing _ s w (Keeps-IsThemed s _ (on_observed-Keeps js wasm box s) w)
  dispatch-IsThemed (media_change b) s (inl v) w = media_change-IsThemed b s v w
