-- ===== src/Ingestion/Dedup.antt =====
-- src/ingestion/dedup.rs: which of the documents of a batch are new. A document is an association
-- list, in the order of its fields; the value type and its equality belong to the bson crate.
pub mod Merge
pub mod Matching
use mongocore.Prelude.{
  if◌then◌else◌, String, str_eq, Bool, true, false, ◌&&◌, List, [], ◌∷◌, is_empty, Option, none,
  some, Result, ok, err, find, put,
}

pub data ConflictStrategy : Type 0 where
  skip overwrite merge : ConflictStrategy

module _ (Value : Type 0) (same_value : Value → Value → Bool) where
  abbrev pub Document : Type 0
  Document = List (String × Value)

  pub data DedupResult : Type 0 where
    insert : Document → DedupResult
    skipped : DedupResult
    replace : Document → DedupResult
    merged : (incoming existing : Document) → DedupResult

  -- `build_dedup_filter`: the key fields of a document, unless it lacks one.
  unfoldable pub filter_from : List String → Document → Document → Option Document
  filter_from [] doc filter = some filter
  filter_from (key ∷ dedup_key) doc filter = elim (find str_eq key doc) [
    | some value ↦ filter_from dedup_key doc (put str_eq key value filter)
    | none ↦ none
  ]

  unfoldable pub build_dedup_filter : List String → Document → Option Document
  build_dedup_filter dedup_key doc = filter_from dedup_key doc []

  -- `filter.get(key) == existing.get(key)`.
  unfoldable pub same_option : Option Value → Option Value → Bool
  same_option none none = true
  same_option (some v) (some w) = same_value v w
  same_option none (some w) = false
  same_option (some v) none = false

  unfoldable pub agrees : List String → Document → Document → Bool
  agrees [] filter existing = true
  agrees (key ∷ dedup_key) filter existing =
      same_option (find str_eq key filter) (find str_eq key existing)
      && agrees dedup_key filter existing

  unfoldable pub matching : List String → Document → List Document → Option Document
  matching dedup_key filter [] = none
  matching dedup_key filter (existing ∷ rest) =
      if agrees dedup_key filter existing then some existing else matching dedup_key filter rest

  unfoldable pub resolve_conflict : ConflictStrategy → Document → Document → DedupResult
  resolve_conflict skip incoming existing = skipped
  resolve_conflict overwrite incoming existing = replace incoming
  resolve_conflict merge incoming existing = merged incoming existing

  -- Existing fields, overlaid by all the incoming ones.
  unfoldable pub merge_documents : Document → Document → Document
  merge_documents [] existing = existing
  merge_documents ((key, value) ∷ incoming) existing =
      merge_documents incoming (put str_eq key value existing)

  -- One document of a batch, against what the query found.
  unfoldable pub check_one : List String → ConflictStrategy → List Document → Document → DedupResult
  check_one dedup_key strategy existing_docs d = elim (build_dedup_filter dedup_key d) [
    | none ↦ insert d
    | some filter ↦ elim (matching dedup_key filter existing_docs) [
      | none ↦ insert d
      | some existing ↦ resolve_conflict strategy d existing
    ]
  ]

  unfoldable pub check_all :
      List String → ConflictStrategy → List Document → List Document → List DedupResult
  check_all dedup_key strategy existing_docs [] = []
  check_all dedup_key strategy existing_docs (d ∷ docs) =
      check_one dedup_key strategy existing_docs d ∷ check_all dedup_key strategy existing_docs docs

  unfoldable pub all_insert : List Document → List DedupResult
  all_insert [] = []
  all_insert (d ∷ docs) = insert d ∷ all_insert docs

  -- The filters of the documents that have all key fields.
  unfoldable pub filters_of : List String → List Document → List Document
  filters_of dedup_key [] = []
  filters_of dedup_key (d ∷ docs) =
      let rest = filters_of dedup_key docs in
      elim (build_dedup_filter dedup_key d) [ none ↦ rest | some filter ↦ filter ∷ rest ]

  -- `check_batch`; the query for any of the filters is the driver's.
  module _ {World : Type 0}
      (find_any : List Document → World → Result String (List Document) × World) where
    unfoldable pub existing_for : List Document → World → Result String (List Document) × World
    existing_for filters w = if is_empty filters then (ok [], w) else find_any filters w

    unfoldable pub resolve_all :
        List String
        → ConflictStrategy
        → List Document
        → Result String (List Document) × World
        → Result String (List DedupResult) × World
    resolve_all dedup_key strategy docs (err e, w) = (err e, w)
    resolve_all dedup_key strategy docs (ok existing_docs, w) =
        (ok (check_all dedup_key strategy existing_docs docs), w)

    unfoldable pub check_batch :
        List String
        → ConflictStrategy
        → List Document
        → World
        → Result String (List DedupResult) × World
    check_batch dedup_key strategy docs w =
        if is_empty dedup_key
        then (ok (all_insert docs), w)
        else resolve_all dedup_key strategy docs (existing_for (filters_of dedup_key docs) w)
