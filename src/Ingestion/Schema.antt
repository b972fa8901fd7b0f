-- ===== src/Ingestion/Schema.antt =====
-- src/ingestion/schema.rs: the BSON types of a table's columns. The types of a column belong to the
-- polars crate; those that the code does not name are one case. A string is put in lower case by the
-- standard library, which is a parameter.
pub mod Widening
use mongocore.Prelude.{
  if◌then◌else◌, String, str_eq, Bool, true, false, ◌&&◌, ◌||◌, List, [], ◌∷◌, Option, none, some,
  find,
}

-- The lists of fields in the block hold the `SchemaField`s.
mutual
  pub data BsonType : Type 0 where
    string int32 int64 double boolean date_time null binary object_id : BsonType
    document : SchemaFields → BsonType
    array : BsonType → BsonType

  pub data SchemaFields : Type 0 where
    end : SchemaFields
    field : (name : String) (bson_type : BsonType) (nullable : Bool) → SchemaFields → SchemaFields

pub data TimeUnit : Type 0 where
  nanoseconds microseconds milliseconds : TimeUnit

mutual
  pub data DataType : Type 0 where
    string int8 int16 int32 uint8 uint16 int64 uint32 uint64 float32 float64 boolean : DataType
    date time duration null binary binary_offset unlisted : DataType
    datetime : TimeUnit → DataType
    list : DataType → DataType
    struct : Columns → DataType

  pub data Columns : Type 0 where
    end : Columns
    column : (name : String) → DataType → Columns → Columns

unfoldable mutual
  pub polars_type_to_bson : DataType → BsonType
  polars_type_to_bson string = string
  polars_type_to_bson int8 = int32
  polars_type_to_bson int16 = int32
  polars_type_to_bson int32 = int32
  polars_type_to_bson uint8 = int32
  polars_type_to_bson uint16 = int32
  polars_type_to_bson int64 = int64
  polars_type_to_bson uint32 = int64
  polars_type_to_bson uint64 = int64
  polars_type_to_bson float32 = double
  polars_type_to_bson float64 = double
  polars_type_to_bson boolean = boolean
  polars_type_to_bson date = date_time
  polars_type_to_bson (datetime unit) = date_time
  polars_type_to_bson time = date_time
  polars_type_to_bson duration = date_time
  polars_type_to_bson null = null
  polars_type_to_bson binary = binary
  polars_type_to_bson binary_offset = binary
  polars_type_to_bson (list inner) = array (polars_type_to_bson inner)
  polars_type_to_bson (struct fields) = document (schema_fields fields)
  polars_type_to_bson unlisted = string

  pub schema_fields : Columns → SchemaFields
  schema_fields end = end
  schema_fields (column name dtype fields) =
      field name (polars_type_to_bson dtype) false (schema_fields fields)

abbrev same_bool : Bool → Bool → Bool
same_bool true b = b
same_bool false true = false
same_bool false false = true

-- The derived `==` of `BsonType` and of its fields.
unfoldable mutual
  pub same_type : BsonType → BsonType → Bool
  same_type string string = true
  same_type int32 int32 = true
  same_type int64 int64 = true
  same_type double double = true
  same_type boolean boolean = true
  same_type date_time date_time = true
  same_type null null = true
  same_type binary binary = true
  same_type object_id object_id = true
  same_type (document fs) (document gs) = same_fields fs gs
  same_type (array a) (array b) = same_type a b
  same_type _ _ = false

  pub same_fields : SchemaFields → SchemaFields → Bool
  same_fields end end = true
  same_fields (field m a p fs) (field n b q gs) =
      str_eq m n && (same_type a b && (same_bool p q && same_fields fs gs))
  same_fields _ _ = false

-- The arms of `widen_types` for different types that are not both arrays.
unfoldable pub widen_apart : BsonType → BsonType → BsonType
widen_apart null b = b
widen_apart a null = a
widen_apart int32 int64 = int64
widen_apart int64 int32 = int64
widen_apart int32 double = double
widen_apart double int32 = double
widen_apart int64 double = double
widen_apart double int64 = double
widen_apart _ _ = string

unfoldable pub widen_types : BsonType → BsonType → BsonType
unfolding widen_apart
widen_types (array a) (array b) =
    let inner = widen_types a b in if same_type a b then array a else array inner
widen_types a b = if same_type a b then a else widen_apart a b

-- A column of a table: its name, its type, and how many of its values are null.
pub record ColumnInfo : Type 0 where
  pub name : String
  pub dtype : DataType
  pub has_null : Bool

unfoldable pub infer_schema : List ColumnInfo → SchemaFields
infer_schema [] = end
infer_schema (c ∷ cols) = field c.name (polars_type_to_bson c.dtype) c.has_null (infer_schema cols)

module _ (to_lowercase : String → String) where
  unfoldable pub type_named : String → Option BsonType
  type_named s =
      if str_eq s "string" || str_eq s "str"
      then some string
      else if str_eq s "int32" || (str_eq s "int" || str_eq s "i32")
      then some int32
      else if str_eq s "int64" || (str_eq s "long" || str_eq s "i64")
      then some int64
      else if str_eq s "double" || (str_eq s "float" || str_eq s "f64")
      then some double
      else if str_eq s "boolean" || str_eq s "bool"
      then some boolean
      else if str_eq s "datetime" || (str_eq s "date" || str_eq s "timestamp")
      then some date_time
      else if str_eq s "binary" || str_eq s "bytes"
      then some binary
      else if str_eq s "objectid" || str_eq s "oid"
      then some object_id
      else none

  unfoldable pub parse_bson_type_str : String → Option BsonType
  parse_bson_type_str s = type_named (to_lowercase s)

  -- The type that the overrides give a field.
  unfoldable pub overridden : List (String × String) → String → BsonType → BsonType
  overridden overrides name bson_type = elim (find str_eq name overrides) [
    | none ↦ bson_type
    | some type_str ↦ elim (parse_bson_type_str type_str) [ none ↦ bson_type | some t ↦ t ]
  ]

  unfoldable pub apply_overrides : List (String × String) → SchemaFields → SchemaFields
  apply_overrides overrides end = end
  apply_overrides overrides (field name bson_type nullable fields) =
      field name (overridden overrides name bson_type) nullable (apply_overrides overrides fields)
