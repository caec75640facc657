-- ===== src/Bridge/Normalise.antt =====
-- `normalize_arrow_types` of rust/src/reader.rs.
use ggsql_duckdb.Prelude.{
  ℕ, ◌≡◌, refl, Bool, true, false, ◌||◌, ap, ◌⊎◌, inl, inr, Bool-cases, List, [], ◌∷◌, ◌++◌, codes,
  if◌then◌else◌, arith,
}
use ggsql_duckdb.Bridge.Buffer.{Text}

-- The types that the code tells apart; a decimal with its precision and scale.
pub data DataType : Type 0 where
  decimal128 : ℕ → ℕ → DataType
  float64 : DataType
  other_type : ℕ → DataType

pub record Field : Type 0 where
  pub name : Text
  pub data_type : DataType
  pub is_nullable : Bool

-- A record batch: each field with its column.
abbrev pub Batch : Type 0 → Type 0
Batch Column = List (Field × Column)

-- `GgsqlError::ReaderError`
pub data Result (A : Type 0) : Type 0 where
  ok : A → Result A
  reader_error : Text → Result A

-- The arrow crate: a cast to Float64, and `RecordBatch::try_new`, each with its error.
pub record Arrow (Column : Type 0) : Type 0 where
  pub cast : Column → Result Column
  pub try_new : Batch Column → Result (Batch Column)

abbrev pub is_decimal : DataType → Bool
is_decimal (decimal128 precision scale) = true
is_decimal _ = false

module _ {Column : Type 0} (arrow : Arrow Column) where
  abbrev pub needs_cast : Batch Column → Bool
  needs_cast [] = false
  needs_cast ((f, c) ∷ b) = is_decimal f.data_type || needs_cast b

  abbrev pub cast_error : Text → Text → Text
  cast_error name e =
      codes "failed to cast column '" ++ (name ++ (codes "' from Decimal to Float64: " ++ e))

  -- a column that is cast, or the error that names it
  abbrev pub renamed_error : Field → Result Column → Result (Field × Column)
  renamed_error f (ok c) = ok (record f { data_type = float64 }, c)
  renamed_error f (reader_error e) = reader_error (cast_error f.name e)

  unfoldable pub cast_field : Field → Column → Result (Field × Column)
  cast_field f c = if is_decimal f.data_type then renamed_error f (arrow.cast c) else ok (f, c)

  abbrev pub then_cons : Result (Field × Column) → Result (Batch Column) → Result (Batch Column)
  then_cons (reader_error e) r = reader_error e
  then_cons (ok a) (reader_error e) = reader_error e
  then_cons (ok a) (ok b) = ok (a ∷ b)

  -- the loop: the first column that cannot be cast ends it
  unfoldable pub cast_fields : Batch Column → Result (Batch Column)
  cast_fields [] = ok []
  cast_fields ((f, c) ∷ b) = then_cons (cast_field f c) (cast_fields b)

  abbrev pub try_new_error : Result (Batch Column) → Result (Batch Column)
  try_new_error (ok b) = ok b
  try_new_error (reader_error e) = reader_error (codes "failed to normalize arrow types: " ++ e)

  abbrev pub rebuilt : Result (Batch Column) → Result (Batch Column)
  rebuilt (reader_error e) = reader_error e
  rebuilt (ok b) = try_new_error (arrow.try_new b)

  unfoldable pub normalize_arrow_types : Batch Column → Result (Batch Column)
  normalize_arrow_types b = if needs_cast b then rebuilt (cast_fields b) else ok b

  -- What becomes of each column: a decimal is cast and its field is Float64, with its name and its
  -- nullability; any other stays as it is.
  pub data Normalised : Batch Column → Batch Column → Type 0 where
    no_columns : Normalised [] []
    kept :
        (f : Field) (c : Column) {b d : Batch Column}
        → is_decimal f.data_type ≡ false
        → Normalised b d
        → Normalised ((f, c) ∷ b) ((f, c) ∷ d)
    cast_to :
        (f : Field) (c e : Column) {b d : Batch Column}
        → is_decimal f.data_type ≡ true
        → arrow.cast c ≡ ok e
        → Normalised b d
        → Normalised ((f, c) ∷ b) ((record f { data_type = float64 }, e) ∷ d)

  Normalised-self : (b : Batch Column) → needs_cast b ≡ false → Normalised b b
  Normalised-self [] h = no_columns
  Normalised-self ((f, c) ∷ b) h = kept f c (ground arith) (Normalised-self b (ground arith))

  -- Every decimal column can be cast.
  abbrev pub IsCastable : Batch Column → Type 0
  IsCastable [] = Unit
  IsCastable ((f, c) ∷ b) =
      (is_decimal f.data_type ≡ true → (e : Column) × (arrow.cast c ≡ ok e)) × IsCastable b

  cast_fields-Normalised :
      (b : Batch Column)
      → IsCastable b
      → (d : Batch Column) × (cast_fields b ≡ ok d) × Normalised b d
  unfolding cast_fields cast_field
  cast_fields-Normalised [] h = ([], refl, no_columns)
  cast_fields-Normalised ((f, c) ∷ b) (h, hs) =
      let (d, ended, rest) = cast_fields-Normalised b hs in
      elim (Bool-cases (is_decimal f.data_type)) [
        | inl decimal ↦
            let (e, q) = h decimal in
            (
              (record f { data_type = float64 }, e) ∷ d,
              rw (decimal, q, ended) refl,
              cast_to f c e decimal q rest,
            )
        | inr other ↦ ((f, c) ∷ d, rw (other, ended) refl, kept f c other rest)
      ]

  -- What comes of a batch: the normalised one, or the error of `RecordBatch::try_new` where that
  -- refuses it.
  abbrev pub IsOutcome : Result (Batch Column) → Batch Column → Result (Batch Column) → Type 0
  IsOutcome (ok e) d r = r ≡ ok d
  IsOutcome (reader_error e) d r = r ≡ reader_error (codes "failed to normalize arrow types: " ++ e)

  try_new-IsOutcome :
      (d : Batch Column) (o : Result (Batch Column))
      → ((e : Batch Column) → o ≡ ok e → e ≡ d)
      → IsOutcome o d (try_new_error o)
  try_new-IsOutcome d (ok e) same = ap ok (same e refl)
  try_new-IsOutcome d (reader_error e) same = refl

  -- A batch whose decimal columns can all be cast has a normalised form: each decimal column is cast
  -- and its field is Float64 under the same name and with the same nullability, and every other
  -- column stays as it is, in its place. A batch without a decimal column is its own form, and is
  -- given back. Of another one the form is the result if `RecordBatch::try_new` accepts it, and else
  -- the error of `try_new` is, behind its prefix. A batch that `try_new` accepts is the one that it is given.
  pub normalize_arrow_types-Normalised :
      (b : Batch Column)
      → ((d e : Batch Column) → arrow.try_new d ≡ ok e → e ≡ d)
      → IsCastable b
      → (d : Batch Column) × Normalised b d
        × (((needs_cast b ≡ false) × (d ≡ b) × (normalize_arrow_types b ≡ ok b))
            ⊎ ((needs_cast b ≡ true) × IsOutcome (arrow.try_new d) d (normalize_arrow_types b)))
  unfolding normalize_arrow_types
  normalize_arrow_types-Normalised b same h =
      let (d, ended, rest) = cast_fields-Normalised b h in
      elim (Bool-cases (needs_cast b)) [
        | inl cast ↦
            (d, rest, inr (cast, rw (cast, ended) (try_new-IsOutcome d (arrow.try_new d) (same d))))
        | inr none ↦ (b, Normalised-self b none, inl (none, refl, rw none refl))
      ]
