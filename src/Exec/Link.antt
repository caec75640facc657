-- ===== src/Exec/Link.antt =====
-- From a query to its plot by the link that it returns: src/ggsql_exec.cpp, rust/src/lib.rs,
-- rust/src/server.rs and rust/assets/app.html together.
use ggsql_duckdb.Prelude.{
  ℕ, ◌≡◌, refl, ap, ◌∙◌, Bool, true, false, not, ◌&&◌, Option, some, List, ◌∷◌, ◌++◌, codes,
  if◌then◌else◌,
}
use ggsql_duckdb.App.Location.{IsPlotId, uuid_from_location, uuid_from_location-hash}
use ggsql_duckdb.App.Page.{plot_hash}
use ggsql_duckdb.Server.Registry.{
  Text, Bytes, ServerHandle, ok, registered, running, register_plot, Registered,
}
use ggsql_duckdb.Server.Route.{binary_response, route}
use ggsql_duckdb.Server.Answers.{IsWorking, plot_path, route-register_plot}
use ggsql_duckdb.Exec.Run.{
  Outcome, done, hep_format, Crates, World, render_with, settle, open_browser,
}
use ggsql_duckdb.Exec.Query.{Attempt, returned, thrown, interrupt, Moment, run_ggsql_query}
use ggsql_duckdb.Exec.Modes.{
  OutputMode, url_mode, queried, publish, performed, perform, judged, evaluated,
}
use ggsql_duckdb.Exec.Refined.{config, run_ggsql_query-evaluated}

-- The browser that is opened, if the server asks for one.
abbrev pub opened_by : Bool → Text → List Text → List Text
opened_by opens url urls = if opens then url ∷ urls else urls

module _ {Spec Options Writer : Type 0} (crates : Crates Spec Options Writer) where
  open_browser-opened_by :
      (no_open : Bool) (r : Registered) (server : Option ServerHandle) (opened : List Text)
      → open_browser crates no_open r (record { server = server; opened = opened }) ≡ record {
        server = server;
        opened = opened_by (r.should_open && not no_open) r.open_url opened;
      }
  open_browser-opened_by no_open r server opened = go (r.should_open && not no_open)
    where
      before : World
      before = record { server = server; opened = opened }

      after : Bool → World
      after opens = record { server = server; opened = opened_by opens r.open_url opened }

      go : (opens : Bool) → (if opens then after true else before) ≡ after opens
      go true = refl
      go false = refl

  perform-url :
      (m : Moment) (query options hep : Bytes) (spec : Spec) (w : World) (g : ServerHandle)
      (r : Registered)
      → queried crates query options ≡ done spec
      → render_with crates hep_format spec options ≡ done hep
      → register_plot m.call hep w.server ≡ (ok r, some g)
      → perform crates m url_mode query options w
        ≡ (done r.plot_url, open_browser crates m.no_open r (record w { server = some g }))
  perform-url m query options hep spec w g r q d e =
      ap (performed crates m url_mode options w) q
      ∙ ap (λ o. publish crates m (λ x. x.plot_url) o w) d
      ∙ ap (settle crates m.no_open (λ x. done x.plot_url) w) e

  evaluated-done :
      (m : Moment) (mode : OutputMode) (query options payload : Text) (w v : World)
      → m.interrupted_before ≡ false
      → m.interrupted_after ≡ false
      → perform crates m mode query options w ≡ (done payload, v)
      → evaluated crates m mode query options w ≡ (returned payload, v)
  evaluated-done m mode query options payload w v b a e =
      go m.interrupted_before m.interrupted_after b a
    where
      go :
          (before after : Bool)
          → before ≡ false
          → after ≡ false
          → (if◌then◌else◌ {A = Attempt Bytes × World} before
              (thrown interrupt, w)
              (
                judged after (perform crates m mode query options w).0,
                (perform crates m mode query options w).1,
              ))
            ≡ (returned payload, v)
      go true after b a = cc
      go false true b a = cc
      go false false b a = ap (λ (r : Outcome Bytes × World). (judged false r.0, r.1)) e

-- A query in the output mode 'url' that can be drawn and is not interrupted, with a server that
-- runs or starts, whose locks are not poisoned, and a new id of letters, digits and dashes,
-- returns a link: the base URL of the server, and the path and the hash that the page reads back
-- as the id of the plot. For that id the server answers with the document that was drawn. The
-- browser is opened at most once, at the base URL.
pub run_ggsql_query-link :
    {Spec Options Writer : Type 0} (crates : Crates Spec Options Writer) (m : Moment)
    (query options hep : Bytes) (spec : Spec) (w : World) (h : ServerHandle) (now : ℕ)
    → m.interrupted_before ≡ false
    → m.interrupted_after ≡ false
    → queried crates query options ≡ done spec
    → render_with crates hep_format spec options ≡ done hep
    → running m.call w.server ≡ ok h
    → IsWorking h.state
    → IsPlotId m.call.id
    → (g : ServerHandle) × (let hash = plot_hash m.call.id in
        let opens = (registered g m.call).should_open && not m.no_open in
        (run_ggsql_query crates m query (config url_mode options) w ≡ (
          returned (g.base_url ++ (codes "/" ++ hash)),
          record { server = some g; opened = opened_by opens (g.base_url ++ codes "/") w.opened },
        ))
        × (uuid_from_location hash (codes "/") ≡ some m.call.id)
        × (route crates.files (plot_path m.call.id) now g.state ≡ (binary_response hep, g.state)))
run_ggsql_query-link crates m query options hep spec w h now b a q r e works id =
    let (g, stored, answer, _, _, _) =
      route-register_plot crates.files m.call hep w.server h now e works id.id_chars in
    let run = run_ggsql_query-evaluated crates m url_mode query options w in
    (
      g,
      (
        run
            ∙ evaluated-done crates m url_mode query options _ w _ b a
                (perform-url crates m query options hep spec w g (registered g m.call) q r stored)
            ∙ ap (λ v. (returned (registered g m.call).plot_url, v))
                (open_browser-opened_by crates m.no_open (registered g m.call) (some g) w.opened),
        uuid_from_location-hash m.call.id (codes "/") id,
        answer,
      ),
    )
