-- ===== src/Server/Standalone.antt =====
-- `standalone_html` of rust/src/server.rs: the document that carries the viewer, its assets and one
-- plot.
use ggsql_duckdb.Prelude.{String, List, [], ◌∷◌, ◌++◌, codes}
use ggsql_duckdb.Server.Registry.{Text, Bytes}
use ggsql_duckdb.Server.Route.{Files}

-- the UTF-8 of the dash in a text
abbrev pub em_dash : Bytes
em_dash = 226 ∷ 128 ∷ 148 ∷ []

abbrev pub lines : List String → Bytes
lines [] = []
lines (line ∷ rest) = codes line ++ (b'\n' ∷ lines rest)

abbrev pub head_html : Bytes
head_html =
    lines (
      "<!doctype html>" ∷ "<html lang=\"en\">" ∷ "<head>" ∷ "<meta charset=\"utf-8\">"
      ∷ "<title>ggsql</title>" ∷ "<style>"
      ∷ "  html, body { margin: 0; padding: 0; height: 100%; background: #fff; font-family: system-ui, sans-serif; }"
      ∷ "  body { display: flex; flex-direction: column; height: 100vh; }" ∷ [])
    ++ (codes "  /* PlotView sizes to its container via a ResizeObserver "
        ++ (em_dash
            ++ (lines (
                  " give it a flex:1" ∷ "     child of the body so it fills the viewport. */"
                  ∷ "  #vis { flex: 1; min-height: 0; padding: 1rem; box-sizing: border-box; }"
                  ∷ "</style>" ∷ [])
                ++ codes "<script>")))

-- between the two scripts
abbrev pub between_html : Bytes
between_html = lines ("</script>" ∷ []) ++ codes "<script>"

-- from the scripts to the plot
abbrev pub body_html : Bytes
body_html =
    lines ("</script>" ∷ "</head>" ∷ "<body>" ∷ "<div id=\"vis\"></div>" ∷ "<script>" ∷ [])
    ++ codes "  const bytes = Uint8Array.from(atob(\""

abbrev pub end_html : Bytes
end_html =
    lines (
      "\"), (c) => c.charCodeAt(0));"
      ∷ "  window.ggsqlRenderHep(document.getElementById(\"vis\"), bytes);" ∷ "</script>"
      ∷ "</body>" ∷ [])
    ++ codes "</html>"

-- `encode` is the base64 of the crate of this name.
unfoldable pub standalone_html : Files → (Bytes → Text) → Bytes → Bytes
standalone_html files encode hep =
    head_html
    ++ (files.hep_assets_js
        ++ (between_html ++ (files.hep_viewer_js ++ (body_html ++ (encode hep ++ end_html)))))
