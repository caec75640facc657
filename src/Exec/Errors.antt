-- ===== src/Exec/Errors.antt =====
-- Every error of rust/src/lib.rs has a text, so that src/ggsql_exec.cpp never says "unknown error".
use ggsql_duckdb.Prelude.{
  ◌≡◌, refl, Bool, true, false, Option, none, some, [], ◌∷◌, codes, ◌++◌, if◌then◌else◌,
}
use ggsql_duckdb.Server.Registry.{
  Text, Bytes, Registered, Result, ServerHandle, ok, err, register_plot,
}
use ggsql_duckdb.Exec.Run.{
  Outcome, done, failed, panicked, prefixed, is_empty, Crates, World, from_utf8, hep_format, settle,
  ◌>>=◌, Format, svg_format, pdf_format, spec_options_error, render_spec, render_with,
}
use ggsql_duckdb.Exec.Query.{Moment}
use ggsql_duckdb.Exec.Modes.{
  OutputMode, silent_mode, url_mode, spec_mode, html_mode, svg_mode, pdf_mode, hep_mode, publish,
  display, queried, performed, perform,
}

-- An error has a text.
abbrev pub HasText : {A : Type 0} → Outcome A → Type 0
HasText (failed e) = is_empty e ≡ false
HasText _ = Unit

HasText->>= :
    {A B : Type 0} (m : Outcome A) (f : A → Outcome B)
    → HasText m
    → ((a : A) → HasText (f a))
    → HasText (m >>= f)
HasText->>= (done a) f h k = k a
HasText->>= (failed e) f h k = h
HasText->>= panicked f h k = tt

HasText-prefixed :
    {A : Type 0} (text : Text) (m : Outcome A) → is_empty text ≡ false → HasText (prefixed text m)
HasText-prefixed text (done a) h = tt
HasText-prefixed [] (failed e) h = cc
HasText-prefixed (c ∷ text) (failed e) h = refl
HasText-prefixed text panicked h = tt

HasText-if :
    {A : Type 0} (test : Bool) (m n : Outcome A)
    → HasText m
    → HasText n
    → HasText (if test then m else n)
HasText-if true m n h k = h
HasText-if false m n h k = k

module _ {Spec Options Writer : Type 0} (crates : Crates Spec Options Writer) where
  render_with-HasText :
      (format : Format) (spec : Spec) (options : Text)
      → HasText (render_with crates format spec options)
  unfolding render_with
  render_with-HasText format spec options =
      HasText->>= (prefixed (codes "ggsql: ") (crates.parse_options options)) _
        (HasText-prefixed (codes "ggsql: ") (crates.parse_options options) refl)
        (λ parsed.
          HasText->>= (prefixed (codes "ggsql: ") (crates.from_options format parsed)) _
            (HasText-prefixed (codes "ggsql: ") (crates.from_options format parsed) refl)
            (λ writer.
              HasText-prefixed (codes "ggsql: render failed: ") (crates.render writer spec) refl))

  publish-HasText :
      (m : Moment) (payload : Registered → Bytes) (o : Outcome Bytes) (w : World)
      → HasText o
      → HasText (publish crates m payload o w).0
  publish-HasText m payload (failed e) w h = h
  publish-HasText m payload panicked w h = tt
  publish-HasText m payload (done hep) w h = go (register_plot m.call hep w.server)
    where
      go :
          (found : Result Registered × Option ServerHandle)
          → HasText (settle crates m.no_open (λ r. done (payload r)) w found).0
      go (err x, server) = refl
      go (ok r, server) = tt

  render_spec-HasText : (spec : Spec) (options : Text) → HasText (render_spec crates spec options)
  render_spec-HasText spec options =
      HasText-if (is_empty (crates.trim options)) _ (failed spec_options_error)
        (HasText-prefixed (codes "ggsql: render failed: ") (crates.render_vegalite spec) refl) refl

  display-HasText :
      (m : Moment) (mode : OutputMode) (options : Text) (w : World) (spec : Spec)
      → HasText (display crates m mode options w spec).0
  display-HasText m silent_mode options w spec =
      publish-HasText m _ _ w (render_with-HasText hep_format spec options)
  display-HasText m url_mode options w spec =
      publish-HasText m _ _ w (render_with-HasText hep_format spec options)
  display-HasText m spec_mode options w spec = render_spec-HasText spec options
  display-HasText m html_mode options w spec =
      HasText->>= (render_with crates hep_format spec options) _
        (render_with-HasText hep_format spec options) (λ hep. tt)
  display-HasText m svg_mode options w spec = render_with-HasText svg_format spec options
  display-HasText m pdf_mode options w spec = render_with-HasText pdf_format spec options
  display-HasText m hep_mode options w spec = render_with-HasText hep_format spec options

  from_utf8-HasText : (what bytes : Text) → HasText (from_utf8 crates what bytes)
  from_utf8-HasText what bytes = go (crates.utf8_error bytes)
    where
      go :
          (o : Option Text)
          → HasText
              (elim o [ none ↦ done bytes | some e ↦ failed (codes "ggsql: " ++ (what ++ e)) ])
      go none = tt
      go (some e) = refl

  queried-HasText : (query options : Text) → HasText (queried crates query options)
  queried-HasText query options =
      HasText->>= (from_utf8 crates (codes "query is not valid UTF-8: ") query) _
        (from_utf8-HasText (codes "query is not valid UTF-8: ") query)
        (λ text.
          HasText->>= (from_utf8 crates (codes "writer options are not valid UTF-8: ") options) _
            (from_utf8-HasText (codes "writer options are not valid UTF-8: ") options)
            (λ _. HasText-prefixed (codes "ggsql: ") (crates.execute text) refl))

  pub perform-HasText :
      (m : Moment) (mode : OutputMode) (query options : Text) (w : World)
      → HasText (perform crates m mode query options w).0
  perform-HasText m mode query options w =
      go (queried crates query options) (queried-HasText query options)
    where
      go : (o : Outcome Spec) → HasText o → HasText (performed crates m mode options w o).0
      go (done spec) h = display-HasText m mode options w spec
      go (failed e) h = h
      go panicked h = tt
