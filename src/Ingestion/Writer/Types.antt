-- ===== src/Ingestion/Writer/Types.antt =====
-- Types: what it means that a value of src/ingestion/writer.rs has a type of the schema, with
-- lemmas on the parts of a conversion.
use mongocore.Prelude.{
  ℕ, zero, suc, ℤ, Bytes, String, ◌≡◌, subst, inl, inr, Bool, false, Bool-cases, Option-cases,
  Option, none, some, Result, ok, err, >>=-eq-ok, ok_injective,
}
use mongocore.Operations.Driver.{MongoCoreError}
use mongocore.Ingestion.Schema.{BsonType, SchemaFields}
use mongocore.Ingestion.Schema as Schema
use mongocore.Ingestion.Writer.{Polars}
use mongocore.Ingestion.Writer as Writer
use mongocore.Ingestion.Writer.Fresh.{has_name}

-- The fields of a document type have different names, at every depth.
abbrev mutual
  pub IsNamed : BsonType → Type 0
  IsNamed (BsonType.array t) = IsNamed t
  IsNamed (BsonType.document fields) = AreNamed fields
  IsNamed _ = Unit

  pub AreNamed : SchemaFields → Type 0
  AreNamed SchemaFields.end = Unit
  AreNamed (SchemaFields.field n t nullable fields) =
      (has_name n fields ≡ false) × IsNamed t × AreNamed fields

module _ (polars : Polars) where
  open polars use {Column, Double, ObjectId, parse_str}

  -- Null has every type, and a text that is no object id stays a text.
  mutual
    pub data HasType : BsonType → Writer.Bson polars → Type 0 where
      null : {t : BsonType} → HasType t Writer.Bson.null
      string : (s : String) → HasType BsonType.string (Writer.Bson.string s)
      int32 : (n : ℤ) → HasType BsonType.int32 (Writer.Bson.int32 n)
      int64 : (n : ℤ) → HasType BsonType.int64 (Writer.Bson.int64 n)
      double : (d : Double) → HasType BsonType.double (Writer.Bson.double d)
      boolean : (b : Bool) → HasType BsonType.boolean (Writer.Bson.boolean b)
      date_time : (n : ℤ) → HasType BsonType.date_time (Writer.Bson.date_time n)
      binary : (b : Bytes) → HasType BsonType.binary (Writer.Bson.binary b)
      object_id : (o : ObjectId) → HasType BsonType.object_id (Writer.Bson.object_id o)
      not_object_id :
          (s : String) → parse_str s ≡ none → HasType BsonType.object_id (Writer.Bson.string s)
      array :
          {t : BsonType} {values : Writer.Values polars}
          → EachHasType t values
          → HasType (BsonType.array t) (Writer.Bson.array values)
      document :
          {fields : SchemaFields} {doc : Writer.Fields polars}
          → Conforms fields doc
          → HasType (BsonType.document fields) (Writer.Bson.document doc)

    pub data EachHasType : BsonType → Writer.Values polars → Type 0 where
      nil : {t : BsonType} → EachHasType t Writer.Values.nil
      cons :
          {t : BsonType} {v : Writer.Bson polars} {values : Writer.Values polars}
          → HasType t v
          → EachHasType t values
          → EachHasType t (Writer.Values.cons v values)

    -- The fields of the document are those of the schema, in order, and of their types.
    pub data Conforms : SchemaFields → Writer.Fields polars → Type 0 where
      end : Conforms SchemaFields.end Writer.Fields.end
      field :
          {n : String} {t : BsonType} {nullable : Bool} {fields : SchemaFields}
          {v : Writer.Bson polars} {doc : Writer.Fields polars}
          → HasType t v
          → Conforms fields doc
          → Conforms (SchemaFields.field n t nullable fields) (Writer.Fields.field n v doc)

  -- Whatever is null or comes out of an accessor has the type.
  or_null-HasType :
      {A : Type 0} {t : BsonType} (f : A → Writer.Bson polars)
      → ((a : A) → HasType t (f a))
      → (o : Option A) → HasType t (Writer.or_null polars f o)
  or_null-HasType f h none = null
  or_null-HasType f h (some a) = h a

  pub value_at-HasType :
      {A : Type 0} {t : BsonType} {v : Writer.Bson polars} (f : A → Writer.Bson polars)
      → ((a : A) → HasType t (f a))
      → (row : ℕ) (accessor : Result String (ℕ → Option A))
      → Writer.value_at polars f row accessor ≡ ok v
      → HasType t v
  value_at-HasType f h row (err e) given = cc
  value_at-HasType {t = t} f h row (ok ca) given =
      subst (HasType t) (ok_injective given) (or_null-HasType f h (ca row))

  pub unless_null-HasType :
      {t : BsonType} {v : Writer.Bson polars} (c : Column) (row : ℕ)
      (value : Result MongoCoreError (Writer.Bson polars))
      → (value ≡ ok v → HasType t v)
      → Writer.unless_null polars c row value ≡ ok v
      → HasType t v
  unless_null-HasType {t = t} c row value h = elim (Bool-cases (polars.is_null c row)) [
    | inl e ↦ rw e (λ given. subst (HasType t) (ok_injective given) null)
    | inr e ↦ rw e h
  ]

  pub parsed_oid-HasType : (s : String) → HasType BsonType.object_id (Writer.parsed_oid polars s)
  parsed_oid-HasType s = elim (Option-cases (parse_str s)) [
    | inl e ↦ rw (e, Writer.parsed_oid) (not_object_id s e)
    | inr (o, e) ↦ rw (e, Writer.parsed_oid) (object_id o)
  ]

  pub date_time_value-HasType :
      (dtype : Schema.DataType) (c : Column) (row : ℕ) {v : Writer.Bson polars}
      → Writer.date_time_value polars dtype c row ≡ ok v
      → HasType BsonType.date_time v
  unfolding Writer.date_time_value
  date_time_value-HasType Schema.DataType.date c row h =
      value_at-HasType _ (λ n. date_time _) row (polars.i32 c) h
  date_time_value-HasType (Schema.DataType.datetime unit) c row h =
      value_at-HasType _ (λ n. date_time _) row (polars.i64 c) h
  date_time_value-HasType _ c row h =
      value_at-HasType Writer.Bson.date_time (λ n. date_time n) row (polars.i64 c) h

  values_from-EachHasType :
      {t : BsonType} (convert : ℕ → Result MongoCoreError (Writer.Bson polars))
      → ((i : ℕ) (v : Writer.Bson polars) → convert i ≡ ok v → HasType t v)
      → (n i : ℕ) {values : Writer.Values polars}
      → Writer.values_from polars convert n i ≡ ok values
      → EachHasType t values
  unfolding Writer.values_from
  values_from-EachHasType {t} convert h zero i given =
      subst (EachHasType t) (ok_injective given) nil
  values_from-EachHasType {t} convert h (suc n) i given =
      let (v, converted, after) = >>=-eq-ok (convert i) _ given in
      let (rest, from, done) = >>=-eq-ok (Writer.values_from polars convert n (suc i)) _ after in
      subst (EachHasType t) (ok_injective done)
        (cons (h i v converted) (values_from-EachHasType convert h n (suc i) from))

  pub array_value-HasType :
      {t : BsonType} (convert : Column → ℕ → Result MongoCoreError (Writer.Bson polars))
      → ((c : Column) (i : ℕ) (v : Writer.Bson polars) → convert c i ≡ ok v → HasType t v)
      → (inner : Option Column) {v : Writer.Bson polars}
      → Writer.array_value polars convert inner ≡ ok v
      → HasType (BsonType.array t) v
  unfolding Writer.array_value
  array_value-HasType {t} convert h none given =
      subst (HasType (BsonType.array t)) (ok_injective given) null
  array_value-HasType {t} convert h (some inner) given =
      let (values, from, done) =
        >>=-eq-ok (Writer.values_from polars (convert inner) (polars.len inner) 0) _ given in
      subst (HasType (BsonType.array t)) (ok_injective done)
        (array (values_from-EachHasType (convert inner) (h inner) (polars.len inner) 0 from))
