-- ===== src/Ingestion/Writer/Exact.antt =====
-- Exact: the columns whose values can be converted under the type that is inferred for them.
use mongocore.Prelude.{
  ℕ, ℤ, String, ◌≡◌, refl, sym, ap, ◌∙◌, inl, inr, Bool, true, false, Bool-cases, ◌||◌, Option,
  Result, ok, err, is_ok,
}
use mongocore.Operations.Driver.{MongoCoreError}
use mongocore.Ingestion.Schema.{
  DataType, int8, int16, uint8, uint16, uint32, uint64, float32, float64, date, datetime, time,
  duration, binary_offset, unlisted, list, struct, polars_type_to_bson,
}
use mongocore.Ingestion.Writer.{Polars}
use mongocore.Ingestion.Writer as Writer

abbrev pub is_string : DataType → Bool
is_string DataType.string = true
is_string _ = false

abbrev pub is_int32 : DataType → Bool
is_int32 DataType.int32 = true
is_int32 _ = false

abbrev pub is_int64 : DataType → Bool
is_int64 DataType.int64 = true
is_int64 _ = false

abbrev pub is_float64 : DataType → Bool
is_float64 float64 = true
is_float64 _ = false

abbrev pub is_boolean : DataType → Bool
is_boolean DataType.boolean = true
is_boolean _ = false

abbrev pub is_binary : DataType → Bool
is_binary DataType.binary = true
is_binary _ = false

abbrev pub is_flat : DataType → Bool
is_flat (list inner) = false
is_flat (struct fields) = false
is_flat _ = true

-- The types of columns whose values BSON can hold as they are.
abbrev pub is_exact : DataType → Bool
is_exact DataType.string = true
is_exact DataType.int32 = true
is_exact DataType.int64 = true
is_exact float64 = true
is_exact DataType.boolean = true
is_exact DataType.binary = true
is_exact DataType.null = true
is_exact _ = false

-- The documented behaviour of the accessors: they take a column of their own type, and no other.
pub record IsStrict (polars : Polars) : Type 0 where
  pub str_ok : (c : polars.Column) → is_ok (polars.str c) ≡ is_string (polars.dtype c)
  pub i32_ok : (c : polars.Column) → is_ok (polars.i32 c) ≡ is_int32 (polars.dtype c)
  pub i64_ok : (c : polars.Column) → is_ok (polars.i64 c) ≡ is_int64 (polars.dtype c)
  pub f64_ok : (c : polars.Column) → is_ok (polars.f64 c) ≡ is_float64 (polars.dtype c)
  pub bool_ok : (c : polars.Column) → is_ok (polars.bool c) ≡ is_boolean (polars.dtype c)
  pub bytes_ok : (c : polars.Column) → is_ok (polars.bytes c) ≡ is_binary (polars.dtype c)

or_true : (b : Bool) → (b || true) ≡ true
or_true true = refl
or_true false = refl

module _ (polars : Polars) (strict : IsStrict polars) (c : polars.Column) (row : ℕ) where
  open strict use {str_ok, i32_ok, i64_ok, f64_ok, bool_ok, bytes_ok}

  value_at-is_ok :
      {A : Type 0} (f : A → Writer.Bson polars) (accessor : Result String (ℕ → Option A))
      → is_ok (Writer.value_at polars f row accessor) ≡ is_ok accessor
  value_at-is_ok f (ok ca) = refl
  value_at-is_ok f (err e) = refl

  unless_null-is_ok :
      (value : Result MongoCoreError (Writer.Bson polars))
      → is_ok (Writer.unless_null polars c row value) ≡ (polars.is_null c row || is_ok value)
  unless_null-is_ok value = elim (Bool-cases (polars.is_null c row)) [ inl e ↦ rw e | inr e ↦ rw e ]

  -- A value that is read by an accessor, in a column of type `d`.
  read-is_ok :
      {A : Type 0} (f : A → Writer.Bson polars) (accessor : Result String (ℕ → Option A))
      (test : DataType → Bool) (d : DataType)
      → is_ok accessor ≡ test (polars.dtype c)
      → polars.dtype c ≡ d
      → is_ok (Writer.unless_null polars c row (Writer.value_at polars f row accessor))
        ≡ (polars.is_null c row || test d)
  read-is_ok f accessor test d law e =
      unless_null-is_ok _
      ∙ ap (λ b. polars.is_null c row || b) (value_at-is_ok f accessor ∙ law ∙ ap test e)

  dated-is_ok :
      (d : DataType)
      → polars.dtype c ≡ d
      → is_ok (Writer.date_time_value polars d c row) ≡ false
      → is_ok
          (Writer.unless_null polars c row (Writer.date_time_value polars (polars.dtype c) c row))
        ≡ (polars.is_null c row || false)
  dated-is_ok d e refused = rw e (unless_null-is_ok _ ∙ ap (λ b. polars.is_null c row || b) refused)

  from_i64 :
      (f : ℤ → Writer.Bson polars) (d : DataType)
      → polars.dtype c ≡ d
      → is_ok (Writer.value_at polars f row (polars.i64 c)) ≡ is_int64 d
  from_i64 f d e = value_at-is_ok f (polars.i64 c) ∙ i64_ok c ∙ ap is_int64 e

  typed-is_ok :
      (d : DataType)
      → polars.dtype c ≡ d
      → is_flat d ≡ true
      → is_ok (Writer.series_value_to_bson polars (polars_type_to_bson d) c row)
        ≡ (polars.is_null c row || is_exact d)
  unfolding Writer.series_value_to_bson polars_type_to_bson
  typed-is_ok DataType.string e h = read-is_ok _ _ is_string _ (str_ok c) e
  typed-is_ok int8 e h = read-is_ok _ _ is_int32 _ (i32_ok c) e
  typed-is_ok int16 e h = read-is_ok _ _ is_int32 _ (i32_ok c) e
  typed-is_ok DataType.int32 e h = read-is_ok _ _ is_int32 _ (i32_ok c) e
  typed-is_ok uint8 e h = read-is_ok _ _ is_int32 _ (i32_ok c) e
  typed-is_ok uint16 e h = read-is_ok _ _ is_int32 _ (i32_ok c) e
  typed-is_ok DataType.int64 e h = read-is_ok _ _ is_int64 _ (i64_ok c) e
  typed-is_ok uint32 e h = read-is_ok _ _ is_int64 _ (i64_ok c) e
  typed-is_ok uint64 e h = read-is_ok _ _ is_int64 _ (i64_ok c) e
  typed-is_ok float32 e h = read-is_ok _ _ is_float64 _ (f64_ok c) e
  typed-is_ok float64 e h = read-is_ok _ _ is_float64 _ (f64_ok c) e
  typed-is_ok DataType.boolean e h = read-is_ok _ _ is_boolean _ (bool_ok c) e
  typed-is_ok date e h =
      dated-is_ok date e
        (value_at-is_ok (λ n. Writer.Bson.date_time _) (polars.i32 c) ∙ i32_ok c ∙ ap is_int32 e)
  typed-is_ok (datetime unit) e h = dated-is_ok (datetime unit) e (from_i64 _ _ e)
  typed-is_ok time e h = dated-is_ok time e (from_i64 _ _ e)
  typed-is_ok duration e h = dated-is_ok duration e (from_i64 _ _ e)
  typed-is_ok DataType.null e h = sym (or_true (polars.is_null c row))
  typed-is_ok DataType.binary e h = read-is_ok _ _ is_binary _ (bytes_ok c) e
  typed-is_ok binary_offset e h = read-is_ok _ _ is_binary _ (bytes_ok c) e
  typed-is_ok unlisted e h = read-is_ok _ _ is_string _ (str_ok c) e
  typed-is_ok (list inner) e h = cc
  typed-is_ok (struct fields) e h = cc

  -- If the accessors take columns of their own type only, then under the type that is inferred for a
  -- column that is neither a list nor a struct, a value is converted exactly if it is null or the
  -- column is a string, a 32-bit or 64-bit integer, a 64-bit float, a Boolean, binary or null column:
  -- a date, a time, or a number of another width is refused.
  pub series_value_to_bson-is_ok :
      is_flat (polars.dtype c) ≡ true
      → is_ok (Writer.series_value_to_bson polars (polars_type_to_bson (polars.dtype c)) c row)
        ≡ (polars.is_null c row || is_exact (polars.dtype c))
  series_value_to_bson-is_ok flat = typed-is_ok (polars.dtype c) refl flat
