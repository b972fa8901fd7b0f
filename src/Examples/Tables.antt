-- ===== src/Examples/Tables.antt =====
-- Instances and examples for the schema and the documents of a table.
use mongocore.Prelude.{
  ℕ, ℤ, pos, Bytes, if◌then◌else◌, String, ◌≡◌, refl, Bool, true, false, ◌||◌, List, [], ◌∷◌,
  length, get_elem?, All, Option, none, some, Result, ok, err, is_ok,
}
use mongocore.Ingestion.Schema.{BsonType, SchemaFields, DataType, uint8, polars_type_to_bson}
use mongocore.Ingestion.Writer.{Polars, DataFrame, dataframe_to_documents, series_value_to_bson}
use mongocore.Ingestion.Writer as Writer
use mongocore.Ingestion.Writer.Types.{Conforms}
use mongocore.Ingestion.Writer.Typed.{dataframe_to_documents-Conforms}
use mongocore.Ingestion.Writer.Exact.{
  is_string, is_int32, is_int64, is_float64, is_boolean, is_binary, IsStrict,
  series_value_to_bson-is_ok,
}

data Cell : Type 0 where
  text : String → Cell
  number : ℤ → Cell

record Cells : Type 0 where
  dtype : DataType
  cells : List (Option Cell)

abbrev joined : Option (Option Cell) → Option Cell
joined none = none
joined (some o) = o

abbrev cell : Cells → ℕ → Option Cell
cell c row = joined (get_elem? c.cells row)

abbrev missing : Option Cell → Bool
missing none = true
missing (some c) = false

abbrev as_text : Option Cell → Option String
as_text (some (text s)) = some s
as_text _ = none

abbrev as_number : Option Cell → Option ℤ
as_number (some (number n)) = some n
as_number _ = none

abbrev taken : {A : Type 0} → Bool → A → Result String A
taken test value = if test then ok value else err "invalid series dtype"

abbrev polars : Polars
polars = record {
  Column = Cells;
  Double = ℕ;
  ObjectId = ℕ;
  parse_str = λ s. none;
  dtype = λ c. c.dtype;
  len = λ c. length c.cells;
  is_null = λ c row. missing (cell c row);
  str = λ c. taken (is_string c.dtype) (λ row. as_text (cell c row));
  i32 = λ c. taken (is_int32 c.dtype) (λ row. as_number (cell c row));
  i64 = λ c. taken (is_int64 c.dtype) (λ row. as_number (cell c row));
  f64 = λ c. taken (is_float64 c.dtype) (λ row. none);
  bool = λ c. taken (is_boolean c.dtype) (λ row. none);
  bytes = λ c. taken (is_binary c.dtype) (λ row. none);
  series = λ c. err "no list";
  struct_fields = λ c. err "no struct";
}

taken-is_ok : {A : Type 0} (test : Bool) (value : A) → is_ok (taken test value) ≡ test
taken-is_ok true value = refl
taken-is_ok false value = refl

abbrev strict : IsStrict polars
strict = record {
  str_ok = λ c. taken-is_ok (is_string c.dtype) _;
  i32_ok = λ c. taken-is_ok (is_int32 c.dtype) _;
  i64_ok = λ c. taken-is_ok (is_int64 c.dtype) _;
  f64_ok = λ c. taken-is_ok (is_float64 c.dtype) _;
  bool_ok = λ c. taken-is_ok (is_boolean c.dtype) _;
  bytes_ok = λ c. taken-is_ok (is_binary c.dtype) _;
}

abbrev titles : Cells
titles = record { dtype = DataType.string; cells = some (text "dune") ∷ none ∷ [] }

abbrev years : Cells
years = record {
  dtype = DataType.int64;
  cells = some (number (pos 1965)) ∷ some (number (pos 7)) ∷ [];
}

abbrev ages : Cells
ages = record { dtype = uint8; cells = some (number (pos 7)) ∷ [] }

abbrev books : DataFrame polars
books = record {
  height = 2;
  column = λ name. if mongocore.Prelude.str_eq name "title" then ok titles else ok years;
}

abbrev book_schema : SchemaFields
book_schema =
    SchemaFields.field "title" BsonType.string true
      (SchemaFields.field "year" BsonType.int64 false SchemaFields.end)

abbrev book : Writer.Bson polars → ℤ → Writer.Fields polars
book title year =
    Writer.Fields.field "title" title
      (Writer.Fields.field "year" (Writer.Bson.int64 year) Writer.Fields.end)

abbrev book_docs : List (Writer.Fields polars)
book_docs = book (Writer.Bson.string "dune") (pos 1965) ∷ book Writer.Bson.null (pos 7) ∷ []

books_converted : dataframe_to_documents polars books book_schema ≡ ok book_docs
unfolding dataframe_to_documents
books_converted = refl

dataframe_to_documents_example :
    (length book_docs ≡ 2) × All (Conforms polars book_schema) book_docs
dataframe_to_documents_example =
    dataframe_to_documents-Conforms polars books book_schema book_docs (refl, tt, (refl, tt, tt))
      books_converted

series_value_to_bson-is_ok_example :
    is_ok (series_value_to_bson polars (polars_type_to_bson uint8) ages 0) ≡ (false || false)
series_value_to_bson-is_ok_example = series_value_to_bson-is_ok polars strict ages 0 refl
