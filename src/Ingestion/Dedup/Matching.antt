-- ===== src/Ingestion/Dedup/Matching.antt =====
-- When a document of a batch counts as new.
use mongocore.Prelude.{
  ℕ, suc, String, str_eq, Bool-cases, ◌≡◌, ◌↔◌, refl, ap, inl, inr, Bool, true, List, [], ◌∷◌, ◌++◌,
  length, is_empty, All, some, Result, ok, err, find,
}
use mongocore.Ingestion.Dedup.{
  ConflictStrategy, Document, DedupResult, check_all, all_insert, filters_of, existing_for,
  resolve_all, check_batch,
}

module _ (Value : Type 0) (same_value : Value → Value → Bool) where
  length-check_all :
      (dedup_key : List String) (s : ConflictStrategy)
      (existing docs : List (Document Value same_value))
      → length (check_all Value same_value dedup_key s existing docs) ≡ length docs
  unfolding check_all
  length-check_all key s existing [] = refl
  length-check_all key s existing (d ∷ docs) = ap suc (length-check_all key s existing docs)

  length-all_insert :
      (docs : List (Document Value same_value))
      → length (all_insert Value same_value docs) ≡ length docs
  unfolding all_insert
  length-all_insert [] = refl
  length-all_insert (d ∷ docs) = ap suc (length-all_insert docs)

  -- A checked batch has one result for each document.
  abbrev pub Counted :
      {World : Type 0} → ℕ → Result String (List (DedupResult Value same_value)) × World → Type 0
  Counted n (ok results, w) = length results ≡ n
  Counted n (err e, w) = Unit

  module _ {World : Type 0}
      (find_any : List (Document Value same_value)
        → World
        → Result String (List (Document Value same_value)) × World) where
    resolve_all-Counted :
        (key : List String) (s : ConflictStrategy) (docs : List (Document Value same_value))
        (found : Result String (List (Document Value same_value)) × World)
        → Counted (length docs) (resolve_all Value same_value find_any key s docs found)
    unfolding resolve_all
    resolve_all-Counted key s docs (err e, w) = tt
    resolve_all-Counted key s docs (ok existing, w) = length-check_all key s existing docs

    pub check_batch-Counted :
        (dedup_key : List String) (s : ConflictStrategy) (docs : List (Document Value same_value))
        (w : World)
        → Counted (length docs) (check_batch Value same_value find_any dedup_key s docs w)
    unfolding check_batch
    check_batch-Counted key s docs w = elim (Bool-cases (is_empty key)) [
      | inl e ↦ rw (e, check_batch) (length-all_insert docs)
      | inr e ↦
          rw (e, check_batch)
            (resolve_all-Counted key s docs
              (existing_for Value same_value find_any (filters_of Value same_value key docs) w))
    ]

  module _ (same_value_iff : (v w : Value) → (same_value v w ≡ true) ↔ (v ≡ w)) where
    -- Both documents have the key field, with one value.
    abbrev pub SharesKey : Document Value same_value → Document Value same_value → String → Type 0
    SharesKey d existing key =
        (v : Value) × (find str_eq key d ≡ some v) × (find str_eq key existing ≡ some v)

    abbrev pub Matches :
        List String → Document Value same_value → Document Value same_value → Type 0
    Matches dedup_key d existing = All (SharesKey d existing) dedup_key

    -- A filter shows what the document has under a key.
    abbrev Shows : Document Value same_value → Document Value same_value → String → Type 0
    Shows d filter key =
        (v : Value) × (find str_eq key filter ≡ some v) × (find str_eq key d ≡ some v)

    abbrev pub NoMatch :
        List String → Document Value same_value → Document Value same_value → Type 0
    NoMatch key d existing = Matches key d existing → ⊥

    -- Of the existing documents this is the first one that matches.
    abbrev pub IsFirstMatch :
        List String
        → Document Value same_value
        → List (Document Value same_value)
        → Document Value same_value
        → Type 0
    IsFirstMatch key d existing e =
        (before : List (Document Value same_value)) × (after : List (Document Value same_value))
        × (existing ≡ before ++ e ∷ after)
        × All (NoMatch key d) before
        × Matches key d e
