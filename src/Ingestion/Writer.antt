-- ===== src/Ingestion/Writer.antt =====
-- src/ingestion/writer.rs: the rows of a table as documents. The columns belong to the polars crate:
-- an accessor hands out the values of a column, or refuses one of another type. A document keeps the
-- order of its fields, and a field that is inserted again is replaced where it stands.
mod Fresh
pub mod Types
pub mod Typed
pub mod Exact
use Prim.Native.String.{◌++◌ as str_append}
use mongocore.Prelude.{
  ℕ, zero, suc, ℤ, times, divided_by, Bytes, if◌then◌else◌, String, str_eq, ◌≡◌, ◌≢◌, Bool, true,
  false, List, [], ◌∷◌, Option, none, some, Result, ok, err, ◌>>=◌, map_err,
}
use mongocore.Operations.Driver.{MongoCoreError, ingestion_error}
use mongocore.Ingestion.Schema.{
  BsonType, SchemaFields, DataType, date, datetime, TimeUnit, nanoseconds, microseconds,
  milliseconds,
}

-- What the crates provide. `is_null` answers false out of range; `parse_str` reads an object id.
pub record Polars : Type 1 where
  pub Column : Type 0
  pub Double : Type 0
  pub ObjectId : Type 0
  pub parse_str : String → Option ObjectId
  pub dtype : Column → DataType
  pub len : Column → ℕ
  pub is_null : Column → ℕ → Bool
  pub str : Column → Result String (ℕ → Option String)
  pub i32 : Column → Result String (ℕ → Option ℤ)
  pub i64 : Column → Result String (ℕ → Option ℤ)
  pub f64 : Column → Result String (ℕ → Option Double)
  pub bool : Column → Result String (ℕ → Option Bool)
  pub bytes : Column → Result String (ℕ → Option Bytes)
  pub series : Column → Result String (ℕ → Option Column)
  pub struct_fields : Column → Result String (String → Result String Column)

module _ (polars : Polars) where
  open polars use {
    Column, Double, ObjectId, parse_str, dtype, len, is_null, str, i32, i64, f64, bool, bytes,
    series, struct_fields,
  }

  mutual
    pub data Bson : Type 0 where
      null : Bson
      string : String → Bson
      int32 int64 date_time : ℤ → Bson
      double : Double → Bson
      boolean : Bool → Bson
      binary : Bytes → Bson
      object_id : ObjectId → Bson
      array : Values → Bson
      document : Fields → Bson

    pub data Values : Type 0 where
      nil : Values
      cons : Bson → Values → Values

    pub data Fields : Type 0 where
      end : Fields
      field : String → Bson → Fields → Fields

  -- `Document::insert`.
  unfoldable pub insert_field : String → Bson → Fields → Fields
  insert_field name value end = field name value end
  insert_field name value (field n v fields) =
      let rest = insert_field name value fields in
      if str_eq n name then field n value fields else field n v rest

  abbrev pub polars_to_ingestion_error : String → MongoCoreError
  polars_to_ingestion_error e = ingestion_error (str_append "Polars conversion error: " e)

  abbrev pub accessed : {A : Type 0} → Result String A → Result MongoCoreError A
  accessed r = map_err polars_to_ingestion_error r

  abbrev pub or_null : {A : Type 0} → (A → Bson) → Option A → Bson
  or_null f none = null
  or_null f (some v) = f v

  -- The arms that read a value and wrap it.
  abbrev pub value_at :
      {A : Type 0} → (A → Bson) → ℕ → Result String (ℕ → Option A) → Result MongoCoreError Bson
  value_at f row accessor = accessed accessor >>= λ ca. ok (or_null f (ca row))

  abbrev pub millis_from : TimeUnit → ℤ → ℤ
  millis_from nanoseconds v = divided_by v 1000000
  millis_from microseconds v = divided_by v 1000
  millis_from milliseconds v = v

  unfoldable pub date_time_value : DataType → Column → ℕ → Result MongoCoreError Bson
  date_time_value date c row = value_at (λ days. date_time (times days 86400000)) row (i32 c)
  date_time_value (datetime unit) c row = value_at (λ v. date_time (millis_from unit v)) row (i64 c)
  date_time_value _ c row = value_at date_time row (i64 c)

  abbrev pub parsed_oid : String → Bson
  parsed_oid v = elim (parse_str v) [ some oid ↦ object_id oid | none ↦ string v ]

  -- The values of rows `i` to `i + n` of an inner series.
  unfoldable pub values_from :
      (ℕ → Result MongoCoreError Bson) → (n i : ℕ) → Result MongoCoreError Values
  values_from convert zero i = ok nil
  values_from convert (suc n) i = do
    value ← convert i
    rest ← values_from convert n (suc i)
    ok (cons value rest)

  unfoldable pub array_value :
      (Column → ℕ → Result MongoCoreError Bson) → Option Column → Result MongoCoreError Bson
  unfolding values_from
  array_value convert none = ok null
  array_value convert (some inner) =
      values_from (convert inner) (len inner) 0 >>= λ values. ok (array values)

  abbrev pub unless_null : Column → ℕ → Result MongoCoreError Bson → Result MongoCoreError Bson
  unless_null c row value = if is_null c row then ok null else value

  unfoldable pub struct_field :
      (String → Result String Column) → String → Result MongoCoreError Column
  struct_field field_by_name name =
      map_err
        (λ e.
          ingestion_error
            (str_append "Struct field '" (str_append name (str_append "' not found: " e))))
        (field_by_name name)

  unfoldable mutual
    unfolding date_time_value array_value struct_field insert_field

    pub series_value_to_bson : BsonType → Column → ℕ → Result MongoCoreError Bson
    series_value_to_bson BsonType.string c row = unless_null c row (value_at string row (str c))
    series_value_to_bson BsonType.int32 c row = unless_null c row (value_at int32 row (i32 c))
    series_value_to_bson BsonType.int64 c row = unless_null c row (value_at int64 row (i64 c))
    series_value_to_bson BsonType.double c row = unless_null c row (value_at double row (f64 c))
    series_value_to_bson BsonType.boolean c row = unless_null c row (value_at boolean row (bool c))
    series_value_to_bson BsonType.date_time c row =
        unless_null c row (date_time_value (dtype c) c row)
    series_value_to_bson BsonType.binary c row = unless_null c row (value_at binary row (bytes c))
    series_value_to_bson BsonType.object_id c row =
        unless_null c row (value_at parsed_oid row (str c))
    series_value_to_bson (BsonType.array inner) c row =
        let value = array_value (series_value_to_bson inner) in
        unless_null c row (accessed (series c) >>= λ ca. value (ca row))
    series_value_to_bson (BsonType.document fields) c row =
        let doc = row_to_document fields in
        unless_null c row (
          accessed (struct_fields c) >>= λ by_name.
          doc (struct_field by_name) row end >>= λ d. ok (document d))
    series_value_to_bson BsonType.null c row = ok null

    -- The fields of the schema, converted one after another into a document.
    pub row_to_document :
        SchemaFields
        → (String → Result MongoCoreError Column)
        → ℕ
        → Fields
        → Result MongoCoreError Fields
    row_to_document SchemaFields.end column row doc = ok doc
    row_to_document (SchemaFields.field name bson_type nullable fields) column row doc =
        column name >>= λ c. series_value_to_bson bson_type c row >>= λ value.
        row_to_document fields column row (insert_field name value doc)

  -- The columns of a table, which all have the same height.
  pub record DataFrame : Type 0 where
    pub height : ℕ
    pub column : String → Result String Column

  unfoldable pub table_column : DataFrame → String → Result MongoCoreError Column
  table_column df name =
      map_err
        (λ e.
          ingestion_error (str_append "Column '" (str_append name (str_append "' not found: " e))))
        (df.column name)

  -- The rows `row` to `row + n`.
  unfoldable pub documents_from :
      DataFrame → SchemaFields → (n row : ℕ) → Result MongoCoreError (List Fields)
  unfolding row_to_document table_column
  documents_from df schema zero row = ok []
  documents_from df schema (suc n) row = do
    doc ← row_to_document schema (table_column df) row end
    docs ← documents_from df schema n (suc row)
    ok (doc ∷ docs)

  unfoldable pub dataframe_to_documents :
      DataFrame → SchemaFields → Result MongoCoreError (List Fields)
  unfolding documents_from
  dataframe_to_documents df schema = documents_from df schema df.height 0
