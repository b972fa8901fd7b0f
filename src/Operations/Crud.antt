-- ===== src/Operations/Crud.antt =====
-- src/operations/crud.rs, aggregation.rs and find_and_modify.rs: the operations on the documents of
-- a collection. The cursors that find_cursor and aggregate_cursor hand on are not modelled.
pub mod Raw
use mongocore.Prelude.{
  ℕ, ◌+◌, ◌%◌, ◌^◌, Bytes, String, Bool, true, false, ◌||◌, List, [], ◌∷◌, ◌++◌, Option, none, some,
  Result, ok, err, ◌>>=◌, unwrap_or, map_err,
}
use Prim.Native.String.{◌++◌ as str_append}
use mongocore.Transport.Codec.{Bson, FindOptions}
use mongocore.Operations.Driver.{
  Driver, DriverError, other_kind, MongoCoreError, Answer, timed, UpdateResult,
  FindAndModifyOptions, after, default_query_timeout,
}

abbrev pub default_aggregation_timeout : ℕ
default_aggregation_timeout = 60

-- `FindAndModifyOptions::default`.
abbrev pub default_options : {D : Type 0} → FindAndModifyOptions D
default_options = record { return_document = after; upsert = false; sort = none }

module _ (lib : Bson) (driver : Driver lib) where
  open lib use {Document, Value, to_vec}
  open driver use {World, contains_key}

  -- The result of a call with the state after it, under its message for a run out of time.
  unfoldable pub limited {ℓ} :
      {A : Type ℓ} → String → Answer A × World → Result MongoCoreError A × World
  limited what (answer, w) = (timed what answer, w)

  unfoldable pub find_one :
      String → String → Document → World → Result MongoCoreError (Option Document) × World
  find_one db collection filter w =
      limited "find_one operation timed out"
        (driver.find_one default_query_timeout db collection filter w)

  unfoldable pub insert : String → String → Document → World → Result MongoCoreError Value × World
  insert db collection document w =
      limited "insert operation timed out"
        (driver.insert_one default_query_timeout db collection document w)

  unfoldable pub insert_many :
      String → String → List Document → World → Result MongoCoreError (List Value) × World
  insert_many db collection documents w =
      limited "insert_many operation timed out"
        (driver.insert_many default_query_timeout db collection documents w)

  unfoldable pub update :
      String
      → String
      → (filter update : Document) → World
      → Result MongoCoreError UpdateResult × World
  update db collection filter change w =
      limited "update operation timed out"
        (driver.update_one default_query_timeout db collection filter change w)

  unfoldable pub update_many :
      String
      → String
      → (filter update : Document) → World
      → Result MongoCoreError UpdateResult × World
  update_many db collection filter change w =
      limited "update_many operation timed out"
        (driver.update_many default_query_timeout db collection filter change w)

  unfoldable pub delete : String → String → Document → World → Result MongoCoreError ℕ × World
  delete db collection filter w =
      limited "delete operation timed out"
        (driver.delete_one default_query_timeout db collection filter w)

  unfoldable pub delete_many : String → String → Document → World → Result MongoCoreError ℕ × World
  delete_many db collection filter w =
      limited "delete_many operation timed out"
        (driver.delete_many default_query_timeout db collection filter w)

  unfoldable pub count_documents :
      String → String → Document → World → Result MongoCoreError ℕ × World
  count_documents db collection filter w =
      limited "count_documents operation timed out"
        (driver.count_documents default_query_timeout db collection filter w)

  unfoldable pub find_and_modify :
      String
      → String
      → (filter update : Document) → Option (FindAndModifyOptions Document)
      → World
      → Result MongoCoreError (Option Document) × World
  find_and_modify db collection filter change options w =
      limited "find_and_modify operation timed out" (
        driver.find_one_and_update default_query_timeout db collection filter change
          (unwrap_or default_options options) w)

  -- `while cursor.advance().await?`, for whole documents.
  unfoldable pub read_all {ℓ} :
      {A : Type ℓ} → List (Result DriverError A) → Result DriverError (List A)
  read_all [] = ok []
  read_all (item ∷ items) = item >>= λ doc. read_all items >>= λ docs. ok (doc ∷ docs)

  -- The same for their bytes; the count is a `u32`.
  unfoldable pub collect :
      ℕ → Bytes → List (Result DriverError Bytes) → Result DriverError (ℕ × Bytes)
  collect count raw_bytes [] = ok (count, raw_bytes)
  collect count raw_bytes (item ∷ items) =
      item >>= λ raw_doc. collect ((count + 1) % 2 ^ 32) (raw_bytes ++ raw_doc) items

  -- The loop over a cursor that was opened, inside the time limit of the opening.
  unfoldable pub drain {ℓ κ} :
      {A : Type ℓ} {B : Type κ} → (A → Result DriverError B) → Answer A → Answer B
  drain loop none = none
  drain loop (some (err e)) = some (err e)
  drain loop (some (ok cursor)) = some (loop cursor)

  unfoldable pub find :
      String
      → String
      → Document
      → Option (FindOptions Document)
      → World
      → Result MongoCoreError (List Document) × World
  find db collection filter options w =
      let (cursor, w') = driver.find default_query_timeout db collection filter options w in
      limited "find operation timed out" (drain read_all cursor, w')

  unfoldable pub find_raw :
      String
      → String
      → Document
      → Option (FindOptions Document)
      → World
      → Result MongoCoreError (ℕ × Bytes) × World
  find_raw db collection filter options w =
      let (cursor, w') = driver.find_raw default_query_timeout db collection filter options w in
      limited "find operation timed out" (drain (collect 0 []) cursor, w')

  unfoldable pub requires_local_read_concern : List Document → Bool
  requires_local_read_concern [] = false
  requires_local_read_concern (stage ∷ stages) =
      contains_key stage "$search" || contains_key stage "$vectorSearch"

  unfoldable pub aggregate :
      String → String → List Document → World → Result MongoCoreError (List Document) × World
  aggregate db collection pipeline w =
      let (cursor, w') =
        driver.aggregate default_aggregation_timeout (requires_local_read_concern pipeline) db
          collection pipeline w in
      limited "aggregation operation timed out" (drain read_all cursor, w')

  -- `bson::to_vec` of a document of the cursor.
  unfoldable pub serialized : Result DriverError Document → Result DriverError Bytes
  serialized (err e) = err e
  serialized (ok doc) =
      map_err (λ e. driver.custom (str_append "failed to serialize document: " e)) (to_vec doc)

  unfoldable pub all_serialized :
      List (Result DriverError Document) → List (Result DriverError Bytes)
  all_serialized [] = []
  all_serialized (item ∷ items) = serialized item ∷ all_serialized items

  unfoldable pub aggregate_raw :
      String → String → List Document → World → Result MongoCoreError (ℕ × Bytes) × World
  aggregate_raw db collection pipeline w =
      let (cursor, w') =
        driver.aggregate default_aggregation_timeout (requires_local_read_concern pipeline) db
          collection pipeline w in
      limited "aggregation operation timed out"
        (drain (λ items. collect 0 [] (all_serialized items)) cursor, w')
