-- ===== src/Ingestion/Writer/Typed.antt =====
-- Typed: the values that a conversion gives have the type that was asked for.
use mongocore.Prelude.{
  ℕ, zero, suc, String, ◌≡◌, refl, sym, ap, subst, ◌∙◌, List, length, All, Result, ok, >>=-eq-ok,
  ok_injective,
}
use mongocore.Operations.Driver.{MongoCoreError}
use mongocore.Ingestion.Schema.{BsonType, SchemaFields}
use mongocore.Ingestion.Writer.{Polars, DataFrame}
use mongocore.Ingestion.Writer as Writer
use mongocore.Ingestion.Writer.Types.{
  AreNamed, IsNamed, HasType, null, string, int32, int64, double, boolean, binary, document, field,
  end, Conforms, unless_null-HasType, value_at-HasType, parsed_oid-HasType, date_time_value-HasType,
  array_value-HasType,
}
use mongocore.Ingestion.Writer.Fresh.{
  concat, single, IsFresh, insert_field-new, IsFresh-concat, IsFresh-end, concat_assoc, concat_end,
}

module _ (polars : Polars) where
  open polars use {Column}

  -- What a row adds to a document.
  abbrev Added : SchemaFields → (doc result : Writer.Fields polars) → Type 0
  Added fields doc result =
      (new : Writer.Fields polars) × (result ≡ concat polars doc new) × Conforms polars fields new

  mutual
    unfolding Writer.series_value_to_bson

    -- A value that the conversion gives is null or has the type that was asked for, at every depth.
    pub series_value_to_bson-HasType :
        (t : BsonType) (c : Column) (row : ℕ) {v : Writer.Bson polars}
        → IsNamed t
        → Writer.series_value_to_bson polars t c row ≡ ok v
        → HasType polars t v
    series_value_to_bson-HasType BsonType.string c row named =
        unless_null-HasType polars c row _
          (value_at-HasType polars _ (λ s. string s) row (polars.str c))
    series_value_to_bson-HasType BsonType.int32 c row named =
        unless_null-HasType polars c row _
          (value_at-HasType polars _ (λ n. int32 n) row (polars.i32 c))
    series_value_to_bson-HasType BsonType.int64 c row named =
        unless_null-HasType polars c row _
          (value_at-HasType polars _ (λ n. int64 n) row (polars.i64 c))
    series_value_to_bson-HasType BsonType.double c row named =
        unless_null-HasType polars c row _
          (value_at-HasType polars _ (λ d. double d) row (polars.f64 c))
    series_value_to_bson-HasType BsonType.boolean c row named =
        unless_null-HasType polars c row _
          (value_at-HasType polars _ (λ b. boolean b) row (polars.bool c))
    series_value_to_bson-HasType BsonType.date_time c row named =
        unless_null-HasType polars c row _ (date_time_value-HasType polars (polars.dtype c) c row)
    series_value_to_bson-HasType BsonType.binary c row named =
        unless_null-HasType polars c row _
          (value_at-HasType polars _ (λ b. binary b) row (polars.bytes c))
    series_value_to_bson-HasType BsonType.object_id c row named =
        unless_null-HasType polars c row _
          (value_at-HasType polars _ (λ s. parsed_oid-HasType polars s) row (polars.str c))
    series_value_to_bson-HasType BsonType.null c row named =
        λ given. subst (HasType polars BsonType.null) (ok_injective given) null
    series_value_to_bson-HasType (BsonType.array t) c row named =
        unless_null-HasType polars c row _ (λ given.
          let (ca, accessed, value) =
            >>=-eq-ok (Writer.accessed polars (polars.series c)) _ given in
          array_value-HasType polars _ (λ d i v. series_value_to_bson-HasType t d i named) (ca row)
            value)
    series_value_to_bson-HasType (BsonType.document fields) c row named =
        unless_null-HasType polars c row _ (λ given.
          let (by_name, accessed, after) =
            >>=-eq-ok (Writer.accessed polars (polars.struct_fields c)) _ given in
          let (doc, converted, done) =
            >>=-eq-ok (Writer.row_to_document polars fields _ row _) _ after in
          let (new, is_new, conforms) =
            row_to_document-Added fields _ row Writer.Fields.end named (IsFresh-end polars fields)
              converted in
          subst (HasType polars (BsonType.document fields)) (ok_injective done)
            (document (subst (Conforms polars fields) (sym is_new) conforms)))

    row_to_document-Added :
        (fields : SchemaFields) (column : String → Result MongoCoreError Column) (row : ℕ)
        (doc : Writer.Fields polars) {result : Writer.Fields polars}
        → AreNamed fields
        → IsFresh polars fields doc
        → Writer.row_to_document polars fields column row doc ≡ ok result
        → Added fields doc result
    row_to_document-Added SchemaFields.end column row doc named fresh given =
        (Writer.Fields.end, sym (ok_injective given) ∙ sym (concat_end polars doc), end)
    row_to_document-Added (SchemaFields.field n t nullable fields) column row doc {result} named
          fresh given =
        let (c, found, after) = >>=-eq-ok (column n) _ given in
        let (v, converted, rest) = >>=-eq-ok (Writer.series_value_to_bson polars t c row) _ after in
        let (new, is_new, conforms) =
          row_to_document-Added fields column row (concat polars doc (single polars n v)) named.2
            (IsFresh-concat polars fields n v doc fresh.1 named.0)
            (subst (λ d. Writer.row_to_document polars fields column row d ≡ ok result)
              (insert_field-new polars n v doc fresh.0) rest) in
        (
          Writer.Fields.field n v new,
          is_new ∙ concat_assoc polars doc (single polars n v) new,
          field (series_value_to_bson-HasType t c row named.1 converted) conforms,
        )

  documents_from-Conforms :
      (df : DataFrame polars) (schema : SchemaFields) (n row : ℕ)
      {docs : List (Writer.Fields polars)}
      → AreNamed schema
      → Writer.documents_from polars df schema n row ≡ ok docs
      → (length docs ≡ n) × All (Conforms polars schema) docs
  unfolding Writer.documents_from
  documents_from-Conforms df schema zero row named given = rw (← ok_injective given) (refl, tt)
  documents_from-Conforms df schema (suc n) row named given =
      let (doc, converted, after) =
        >>=-eq-ok (Writer.row_to_document polars schema (Writer.table_column polars df) row _) _
          given in
      let (rest, from, done) =
        >>=-eq-ok (Writer.documents_from polars df schema n (suc row)) _ after in
      let (new, is_new, conforms) =
        row_to_document-Added schema _ row Writer.Fields.end named (IsFresh-end polars schema)
          converted in
      let (count, all) = documents_from-Conforms df schema n (suc row) named from in
      rw (← ok_injective done)
        (ap suc count, (subst (Conforms polars schema) (sym is_new) conforms, all))

  -- If the fields of the schema have different names, and the conversion of a table succeeds, then
  -- there is a document for each row, and each has exactly the fields of the schema, in order, each
  -- null or of its type, at every depth.
  pub dataframe_to_documents-Conforms :
      (df : DataFrame polars) (schema : SchemaFields) (docs : List (Writer.Fields polars))
      → AreNamed schema
      → Writer.dataframe_to_documents polars df schema ≡ ok docs
      → (length docs ≡ df.height) × All (Conforms polars schema) docs
  unfolding Writer.dataframe_to_documents
  dataframe_to_documents-Conforms df schema docs named given =
      documents_from-Conforms df schema df.height 0 named given
