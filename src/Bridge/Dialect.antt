-- ===== src/Bridge/Dialect.antt =====
-- `DuckDbDialect` of rust/src/dialect.rs: the SQL that the ggsql crate runs on the database.
use ggsql_duckdb.Prelude.{
  ℕ, ◌+◌, ◌%◌, Option, some, List, [], ◌∷◌, ◌++◌, codes, text_eq, ◌==◌, map, if◌then◌else◌,
}

abbrev pub Text : Type 0
Text = List ℕ

-- `naming::quote_ident` and `default_sql_aggregate` of the ggsql crate, and the digits that `format!`
-- writes.
pub record Crate (Float : Type 0) : Type 0 where
  pub quote_ident : Text → Text
  pub default_sql_aggregate : Text → Text → Option Text
  pub digits : ℕ → Text
  pub show_float : Float → Text

-- `join(separator)`
abbrev pub join : Text → List Text → Text
join separator [] = []
join separator (t ∷ []) = t
join separator (t ∷ u ∷ ts) = t ++ (separator ++ join separator (u ∷ ts))

-- `replace('\'', "''")`
unfoldable pub double_quotes : Text → Text
double_quotes [] = []
double_quotes (c ∷ s) =
    let rest = double_quotes s in if c == b'\'' then b'\'' ∷ b'\'' ∷ rest else c ∷ rest

-- A call of a function on the expressions, or the one expression itself.
abbrev pub of_several : Text → List Text → Text
of_several name (e ∷ []) = e
of_several name exprs = name ++ (codes "(" ++ (join (codes ", ") exprs ++ codes ")"))

unfoldable pub sql_greatest : List Text → Text
sql_greatest exprs = of_several (codes "GREATEST") exprs

unfoldable pub sql_least : List Text → Text
sql_least exprs = of_several (codes "LEAST") exprs

unfoldable pub sql_st_transform : Text → Text → Text → Text
sql_st_transform column source_crs target_crs =
    codes "ST_Transform("
    ++ (column
        ++ (codes ", '"
            ++ (double_quotes source_crs
                ++ (codes "', '" ++ (double_quotes target_crs ++ codes "', always_xy := true)")))))

unfoldable pub sql_ensure_geometry : Text → Text
sql_ensure_geometry column = codes "ST_GeomFromWKB(CAST(" ++ (column ++ codes " AS BLOB))")

unfoldable pub sql_select_replace : Text → Text → Text → Text
sql_select_replace expr col from =
    codes "SELECT * REPLACE ("
    ++ (expr ++ (codes " AS " ++ (col ++ (codes ") FROM (" ++ (from ++ codes ")")))))

unfoldable pub sql_geometry_to_wkb : Text → Text
sql_geometry_to_wkb column = codes "ST_AsWKB(" ++ (column ++ codes ")")

unfoldable pub sql_geometry_bbox : Text → Text → Text
sql_geometry_bbox column from =
    codes "SELECT ST_XMin(ext) AS xmin, ST_YMin(ext) AS ymin, "
    ++ (codes "ST_XMax(ext) AS xmax, ST_YMax(ext) AS ymax "
        ++ (codes "FROM (SELECT ST_Extent_Agg("
            ++ (column ++ (codes ") AS ext FROM " ++ (from ++ codes ")")))))

unfoldable pub sql_spatial_setup : List Text
sql_spatial_setup = codes "LOAD spatial" ∷ []

module _ {Float : Type 0} (crate : Crate Float) where
  open crate use {quote_ident, default_sql_aggregate, digits, show_float}

  unfoldable pub wrap_with_column_aliases : Text → List Text → Text
  wrap_with_column_aliases body_sql [] = body_sql
  wrap_with_column_aliases body_sql (c ∷ cs) =
      codes "WITH __ggsql_aliased__("
      ++ (join (codes ", ") (map quote_ident (c ∷ cs))
          ++ (codes ") AS (" ++ (body_sql ++ codes ") SELECT * FROM __ggsql_aliased__")))

  unfoldable pub create_or_replace_temp_table_sql : Text → List Text → Text → List Text
  create_or_replace_temp_table_sql name column_aliases body_sql =
      (codes "CREATE OR REPLACE TEMP TABLE "
        ++ (quote_ident name ++ (codes " AS " ++ wrap_with_column_aliases body_sql column_aliases)))
      ∷ []

  -- `n - 1` on a `usize` of 64 bits, as a release build computes it
  unfoldable pub sql_generate_series : ℕ → Text
  sql_generate_series n =
      codes "\"__ggsql_seq__\"(n) AS (SELECT generate_series FROM GENERATE_SERIES(0, "
      ++ (digits ((n + 18446744073709551615) % 18446744073709551616) ++ codes "))")

  unfoldable pub sql_quantile_inline : Text → Float → Option Text
  sql_quantile_inline column fraction = some (
      codes "QUANTILE_CONT("
      ++ (quote_ident column ++ (codes ", " ++ (show_float fraction ++ codes ")"))))

  unfoldable pub sql_aggregate : Text → Text → Option Text
  sql_aggregate name qcol =
      if text_eq name (codes "first")
      then some (codes "FIRST(" ++ (qcol ++ codes ")"))
      else (if text_eq name (codes "last")
          then some (codes "LAST(" ++ (qcol ++ codes ")"))
          else (if text_eq name (codes "diff")
              then some (codes "(LAST(" ++ (qcol ++ (codes ") - FIRST(" ++ (qcol ++ codes "))"))))
              else default_sql_aggregate name qcol))

  -- one comparison of the groups of a percentile
  abbrev pub group_filter : Text → Text
  group_filter g =
      codes "AND "
      ++ (quote_ident (codes "__ggsql_pct__")
          ++ (codes "."
              ++ (quote_ident g
                  ++ (codes " IS NOT DISTINCT FROM "
                      ++ (quote_ident (codes "__ggsql_qt__") ++ (codes "." ++ quote_ident g))))))

  unfoldable pub sql_percentile : Text → Float → Text → List Text → Text
  sql_percentile column fraction from groups =
      codes "(SELECT QUANTILE_CONT("
      ++ (quote_ident column
          ++ (codes ", "
              ++ (show_float fraction
                  ++ (codes ") FROM ("
                      ++ (from
                          ++ (codes ") AS \"__ggsql_pct__\" WHERE "
                              ++ (quote_ident column
                                  ++ (codes " IS NOT NULL "
                                      ++ (join (codes " ") (map group_filter groups)
                                          ++ codes ")")))))))))
