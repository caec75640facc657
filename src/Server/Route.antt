-- ===== src/Server/Route.antt =====
-- `route` and `serve_loop` of rust/src/server.rs.
use ggsql_duckdb.Prelude.{
  ℕ, Bool, ◌||◌, Option, none, some, is_some, List, [], ◌∷◌, ◌++◌, ◌==◌, text_eq, codes,
  if◌then◌else◌,
}
use ggsql_duckdb.App.Location.{strip_prefix}
use ggsql_duckdb.Server.Registry.{Text, Bytes, lookup, lock, State, unlocked}

pub data ContentType : Type 0 where
  html json javascript octet_stream : ContentType

pub data CacheControl : Type 0 where
  no_store immutable : CacheControl

-- A response with the headers that the code sets.
pub record Response : Type 0 where
  pub status : ℕ
  pub content_type : Option ContentType
  pub cache_control : Option CacheControl
  pub body : Bytes

-- The files that are compiled in.
pub record Files : Type 0 where
  pub hep_assets_js : Bytes
  pub hep_viewer_js : Bytes
  pub app_html : Bytes

abbrev pub html_response : Bytes → Response
html_response body = record {
  status = 200;
  content_type = some html;
  cache_control = none;
  body = body;
}

abbrev pub json_response : Bytes → Response
json_response body = record {
  status = 200;
  content_type = some json;
  cache_control = some no_store;
  body = body;
}

abbrev pub js_response : Bytes → Response
js_response body = record {
  status = 200;
  content_type = some javascript;
  cache_control = some immutable;
  body = body;
}

abbrev pub binary_response : Bytes → Response
binary_response body = record {
  status = 200;
  content_type = some octet_stream;
  cache_control = some no_store;
  body = body;
}

abbrev pub not_found : Response
not_found = record {
  status = 404;
  content_type = none;
  cache_control = none;
  body = codes "not found";
}

-- `url.split('?').next()`
unfoldable pub before_query : Text → Text
before_query [] = []
before_query (c ∷ url) = if c == b'?' then [] else c ∷ before_query url

-- `trim_end_matches('/')`
unfoldable pub trim_slashes : Text → Text
trim_slashes [] = []
trim_slashes (c ∷ s) = elim (trim_slashes s) [
  | [] ↦ if c == b'/' then [] else c ∷ []
  | d ∷ r ↦ c ∷ d ∷ r
]

abbrev pub starts_with : Text → Text → Bool
starts_with prefix s = is_some (strip_prefix prefix s)

-- `if let Ok(mut g) = state.last_poll.lock()`
abbrev pub mark_poll : ℕ → State → State
mark_poll now s = if s.last_poll.poisoned then s else record s { last_poll = unlocked (some now) }

-- `{"uuid":"…"}` or `{"uuid":null}`
abbrev pub latest_json : Option Text → Bytes
latest_json none = codes "{\"uuid\":null}"
latest_json (some uuid) = codes "{\"uuid\":\"" ++ (uuid ++ codes "\"}")

-- `state.latest.lock().ok().and_then(|g| g.clone())`
abbrev pub read_latest : State → Option Text
read_latest s = elim (lock s.latest) [ none ↦ none | some latest ↦ latest ]

abbrev pub read_plot : Text → State → Option Bytes
read_plot id s = elim (lock s.plots) [ none ↦ none | some plots ↦ lookup id plots ]

abbrev pub plot_response : Option Bytes → Response
plot_response none = not_found
plot_response (some hep) = binary_response hep

module _ (files : Files) where
  -- the pages
  abbrev pub route_page : Text → Response
  route_page path =
      if text_eq path (codes "/") || starts_with (codes "/plot/") path
      then html_response files.app_html
      else not_found

  -- the JSON API, and the pages behind it
  abbrev pub route_api : Text → ℕ → State → Response × State
  route_api path now s =
      if text_eq path (codes "/api/latest")
      then (json_response (latest_json (read_latest (mark_poll now s))), mark_poll now s)
      else (
        elim (strip_prefix (codes "/api/plot/") path) [
          | some rest ↦ plot_response (read_plot (trim_slashes rest) s)
          | none ↦ route_page path
        ],
        s,
      )

  unfoldable pub route : Text → ℕ → State → Response × State
  route url now s =
      let path = before_query url in
      if text_eq path (codes "/assets/hep-assets.js")
      then (js_response files.hep_assets_js, s)
      else (if text_eq path (codes "/assets/hep-viewer.js")
          then (js_response files.hep_viewer_js, s)
          else route_api path now s)

  -- `serve_loop`, over the requests with their times
  unfoldable pub serve : List (Text × ℕ) → State → List Response × State
  serve [] s = ([], s)
  serve ((url, now) ∷ requests) s =
      let (response, t) = route url now s in
      let (responses, u) = serve requests t in (response ∷ responses, u)
