-- ===== src/Viewer/FontTests.antt =====
-- Requests for the default fonts of rust/assets/hep-viewer.js on a toy page, and the getters of a view.
use ggsql_duckdb.Prelude.{
  ◌≡◌, refl, ◌⊎◌, true, false, Option, none, some, List, [], ◌∷◌, map, codes, get_elem?, length,
}
use ggsql_duckdb.Boot.Init.{Bytes, Text}
use ggsql_duckdb.Viewer.State.{ok, throws, null_pointer, auto}
use ggsql_duckdb.Viewer.Lifecycle.{run, sets_scheme, frees}
use ggsql_duckdb.Viewer.Themed.{wants_dark}
use ggsql_duckdb.Viewer.Asked.{view_scheme, view_is_dark, hints}
use ggsql_duckdb.Viewer.Getters.{view_is_dark-run}
use ggsql_duckdb.Viewer.Tests.{whole, toy, shown, shown-IsValid, shown-IsThemed}
use ggsql_duckdb.Viewer.Fonts.{
  FontHost, loaded, FaceLoad, fulfilled, Registration, FontResponse, response, body, FontEvent,
  asks, arrives, resume_load, default_request, default_faces, begin_registration, handle_fonts,
  handle_all,
}
use ggsql_duckdb.Viewer.Fonts.Kept.{is_waiting, any_load}
use ggsql_duckdb.Viewer.Fonts.Promise.{IsRegistering}
use ggsql_duckdb.Viewer.Fonts.Registered.{fresh_fonts, handle_all-IsRegistering}
use ggsql_duckdb.Viewer.Fonts.Awaited.{handle_fonts-fulfilled}

-- An empty file is no font.
abbrev families_of : Bytes → Option (List Text)
families_of [] = none
families_of (_ ∷ _) = some (codes "Roboto" ∷ [])

abbrev toy_host : FontHost
toy_host = record {
  register_font = families_of;
  set_generic_family = λ name families. true;
  href = λ t. t;
  decimal = λ n. n ∷ [];
}

abbrev good : Option FontResponse
good = some (record { ok = true; status = 200; status_text = codes "OK" })

-- Two views ask; the fonts of the first arrive in any order, one of the second is refused.
abbrev history : List FontEvent
history =
    asks
    ∷ asks
    ∷ arrives 0 2 (response good)
    ∷ arrives 0 0 (response good)
    ∷ arrives 1 1 (response none)
    ∷ arrives 0 0 (body (some (1 ∷ [])))
    ∷ arrives 0 1 (response good)
    ∷ arrives 0 3 (response good)
    ∷ arrives 0 3 (body (some (4 ∷ [])))
    ∷ arrives 0 1 (body (some (2 ∷ [])))
    ∷ arrives 0 2 (body (some (3 ∷ [])))
    ∷ []

abbrev face_load : Text → FaceLoad
face_load url = record { request = default_request url; at = loaded (codes "Roboto" ∷ []) }

abbrev first : Registration
first = record {
  loads = map face_load (default_faces toy_host);
  outcome = fulfilled (codes "Roboto" ∷ []);
}

first_fulfilled :
    get_elem? (handle_all toy_host history (fresh_fonts [])).registrations 0 ≡ some first
unfolding handle_all handle_fonts begin_registration resume_load
first_fulfilled = refl

handle_all-IsRegistering_example :
    IsRegistering toy_host (handle_all toy_host history (fresh_fonts ((codes "vis", []) ∷ [])))
handle_all-IsRegistering_example =
    handle_all-IsRegistering toy_host history ((codes "vis", []) ∷ []) refl

handle_fonts-fulfilled_example :
    let p = handle_all toy_host history (fresh_fonts []) in
    let q = handle_fonts toy_host asks p in
    (q.registered ≡ p.registered)
    × (q.shaped ≡ p.shaped)
    × (q.elements ≡ p.elements)
    × ((t : Registration) × (get_elem? q.registrations (length p.registrations) ≡ some t)
        × (t.outcome ≡ fulfilled [])
        × (any_load is_waiting t.loads ≡ false))
handle_fonts-fulfilled_example =
    handle_fonts-fulfilled toy_host refl history [] 0 {r = first} refl first_fulfilled refl

view_is_dark-run_example :
    let t = run whole toy (sets_scheme auto ∷ frees ∷ []) shown in
    ((t.freed ≡ false)
      × (view_scheme whole toy t ≡ (ok t.scheme, t))
      × (view_is_dark whole toy t ≡ (ok (wants_dark t.scheme t.prefers_dark), t)))
    ⊎ ((t.freed ≡ true)
        × (view_is_dark whole toy t ≡ (throws null_pointer, t))
        × (hints whole toy t ≡ (throws null_pointer, t)))
view_is_dark-run_example =
    view_is_dark-run whole toy (sets_scheme auto ∷ frees ∷ []) shown shown-IsValid shown-IsThemed
