-- ===== src/Ingestion/Writer/Fresh.antt =====
-- Fresh: a document grows at its end as long as the names are new.
use mongocore.Prelude.{String, str_eq, ◌≡◌, refl, ap, Bool, true, false, ◌||◌}
use mongocore.Ingestion.Schema.{SchemaFields}
use mongocore.Ingestion.Writer.{Polars}
use mongocore.Ingestion.Writer as Writer

abbrev pub has_name : String → SchemaFields → Bool
has_name n SchemaFields.end = false
has_name n (SchemaFields.field m t nullable fields) = str_eq n m || has_name n fields

module _ (polars : Polars) where
  abbrev has : String → Writer.Fields polars → Bool
  has n Writer.Fields.end = false
  has n (Writer.Fields.field m v doc) = str_eq m n || has n doc

  abbrev pub concat : Writer.Fields polars → Writer.Fields polars → Writer.Fields polars
  concat Writer.Fields.end e = e
  concat (Writer.Fields.field n v d) e = Writer.Fields.field n v (concat d e)

  abbrev pub single : String → Writer.Bson polars → Writer.Fields polars
  single n v = Writer.Fields.field n v Writer.Fields.end

  -- No field of the schema is in the document yet.
  abbrev pub IsFresh : SchemaFields → Writer.Fields polars → Type 0
  IsFresh SchemaFields.end doc = Unit
  IsFresh (SchemaFields.field n t nullable fields) doc = (has n doc ≡ false) × IsFresh fields doc

  or_parts : (p q : Bool) → (p || q) ≡ false → (p ≡ false) × (q ≡ false)
  or_parts true q h = cc
  or_parts false q h = (refl, h)

  pub insert_field-new :
      (n : String) (v : Writer.Bson polars) (doc : Writer.Fields polars)
      → has n doc ≡ false
      → Writer.insert_field polars n v doc ≡ concat doc (single n v)
  unfolding Writer.insert_field
  insert_field-new n v Writer.Fields.end h = refl
  insert_field-new n v (Writer.Fields.field m w doc) h =
      let (other, rest) = or_parts (str_eq m n) (has n doc) h in
      rw other (ap (Writer.Fields.field m w) (insert_field-new n v doc rest))

  has-concat :
      (m n : String) (v : Writer.Bson polars) (doc : Writer.Fields polars)
      → has m doc ≡ false
      → str_eq n m ≡ false
      → has m (concat doc (single n v)) ≡ false
  has-concat m n v Writer.Fields.end h apart = rw apart
  has-concat m n v (Writer.Fields.field k w doc) h apart =
      let (other, rest) = or_parts (str_eq k m) (has m doc) h in
      rw other (has-concat m n v doc rest apart)

  pub IsFresh-concat :
      (fields : SchemaFields) (n : String) (v : Writer.Bson polars) (doc : Writer.Fields polars)
      → IsFresh fields doc
      → has_name n fields ≡ false
      → IsFresh fields (concat doc (single n v))
  IsFresh-concat SchemaFields.end n v doc h apart = tt
  IsFresh-concat (SchemaFields.field m t nullable fields) n v doc h apart =
      let (other, rest) = or_parts (str_eq n m) (has_name n fields) apart in
      (has-concat m n v doc h.0 other, IsFresh-concat fields n v doc h.1 rest)

  pub IsFresh-end : (fields : SchemaFields) → IsFresh fields Writer.Fields.end
  IsFresh-end SchemaFields.end = tt
  IsFresh-end (SchemaFields.field n t nullable fields) = (refl, IsFresh-end fields)

  pub concat_assoc : (d e f : Writer.Fields polars) → concat (concat d e) f ≡ concat d (concat e f)
  concat_assoc Writer.Fields.end e f = refl
  concat_assoc (Writer.Fields.field n v d) e f = ap (Writer.Fields.field n v) (concat_assoc d e f)

  pub concat_end : (d : Writer.Fields polars) → concat d Writer.Fields.end ≡ d
  concat_end Writer.Fields.end = refl
  concat_end (Writer.Fields.field n v d) = ap (Writer.Fields.field n v) (concat_end d)
