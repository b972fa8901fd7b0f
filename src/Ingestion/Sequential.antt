-- ===== src/Ingestion/Sequential.antt =====
-- src/ingestion/engine.rs: the ingestion of a table with deduplication, chunk by chunk. The driver is
-- a parameter, and so is the conversion of the rows of a chunk. Row counts are below 2 ^ 63, so the
-- 64-bit counters do not wrap; the time stamps of entries are left out.
pub mod Books
pub mod Balance
pub mod Stuck
use Prim.Native.String.{◌++◌ as str_append}
use mongocore.Prelude.{
  ℕ, zero, suc, ◌+◌, ◌-◌, ◌≤◌, min, ltb, if◌then◌else◌, String, ◌≡◌, Bool, true, false, List, [],
  ◌∷◌, ◌++◌, length, is_empty, unwrap_or, Result, ok, err,
}
use mongocore.Ingestion.Dedup.{
  ConflictStrategy, Document, DedupResult, insert, skipped, replace, merged, merge_documents,
  build_dedup_filter, check_batch,
}

pub record DeadLetterEntry (Value : Type 0) : Type 0 where
  pub job_id : String
  pub source_row : ℕ
  pub document : List (String × Value)
  pub error : String
  pub stage : String

-- What a job reports of its rows.
pub record Counts : Type 0 where
  pub rows_processed : ℕ
  pub rows_inserted : ℕ
  pub rows_skipped : ℕ
  pub rows_failed : ℕ
  pub chunk_num : ℕ

abbrev pub no_counts : Counts
no_counts = record {
  rows_processed = 0;
  rows_inserted = 0;
  rows_skipped = 0;
  rows_failed = 0;
  chunk_num = 0;
}

-- The target collection, the dead letter queue, the record of progress, and the wish to cancel.
-- The results of `push` and `update_progress` are dropped by the code.
pub record Collection (Value : Type 0) : Type 1 where
  pub World : Type 0
  pub find_any :
      List (List (String × Value)) → World → Result String (List (List (String × Value))) × World
  pub insert_many : List (List (String × Value)) → World → Result String ℕ × World
  pub replace_one : List (String × Value) → List (String × Value) → World → Bool × World
  pub push : DeadLetterEntry Value → World → World
  pub update_progress : String → Counts → World → World
  pub try_cancel : World → Bool × World
  -- An insertion that succeeds has inserted every document.
  pub insert_many_all :
      (docs : List (List (String × Value))) (w w' : World) (n : ℕ)
      → insert_many docs w ≡ (ok n, w')
      → n ≡ length docs

-- The rows of a table as documents: `dataframe_to_documents` of a slice of it.
pub record Table (Value : Type 0) : Type 0 where
  pub height : ℕ
  pub convert : (offset rows : ℕ) → Result String (List (List (String × Value)))
  pub one_for_each :
      (offset rows : ℕ) (docs : List (List (String × Value)))
      → convert offset rows ≡ ok docs
      → length docs ≡ rows

-- The documents that a batch inserts, those that replace another, and the number of skipped ones.
pub record Parts (Value : Type 0) : Type 0 where
  pub to_insert : List (List (String × Value))
  pub to_replace : List (List (String × Value))
  pub skipped_rows : ℕ

module _ (Value : Type 0) (same_value : Value → Value → Bool) where
  abbrev Doc : Type 0
  Doc = Document Value same_value

  -- `for result in results.into_iter()`.
  unfoldable pub split : List (DedupResult Value same_value) → Parts Value
  split [] = record { to_insert = []; to_replace = []; skipped_rows = 0 }
  split (insert d ∷ results) =
      let rest = split results in record rest { to_insert = d ∷ rest.to_insert }
  split (skipped ∷ results) =
      let rest = split results in record rest { skipped_rows = suc rest.skipped_rows }
  split (replace d ∷ results) =
      let rest = split results in record rest { to_replace = d ∷ rest.to_replace }
  split (merged incoming existing ∷ results) =
      let rest = split results in
      record rest {
        to_replace = merge_documents Value same_value incoming existing ∷ rest.to_replace;
      }

  module _ (coll : Collection Value) (table : Table Value) (job_id : String) (batch_size : ℕ)
      (dedup_key : List String) (strategy : ConflictStrategy) where
    open coll use {World, find_any, insert_many, replace_one, push, update_progress, try_cancel}

    -- An entry for every row of a chunk that was not converted.
    unfoldable pub push_rows : String → ℕ → ℕ → World → World
    push_rows error offset zero w = w
    push_rows error offset (suc n) w = push_rows error (suc offset) n (
        push
          (record {
            job_id = job_id;
            source_row = offset;
            document = [];
            error = str_append "Conversion error: " error;
            stage = "conversion";
          })
          w)

    -- An entry for every document that was not inserted, numbered from the offset of the chunk on.
    unfoldable pub push_docs : String → ℕ → List Doc → World → World
    push_docs error row [] w = w
    push_docs error row (doc ∷ docs) w = push_docs error (suc row) docs (
        push
          (record {
            job_id = job_id;
            source_row = row;
            document = doc;
            error = str_append "Insert error: " error;
            stage = "write";
          })
          w)

    unfoldable pub after_insert : ℕ → List Doc → Counts → Result String ℕ × World → Counts × World
    after_insert offset docs c (ok n, w) = (record c { rows_inserted = c.rows_inserted + n }, w)
    after_insert offset docs c (err e, w) =
        (record c { rows_failed = c.rows_failed + length docs }, push_docs e offset docs w)

    unfoldable pub insert_part : ℕ → List Doc → Counts → World → Counts × World
    insert_part offset docs c w =
        if is_empty docs then (c, w) else after_insert offset docs c (insert_many docs w)

    -- `build_dedup_filter(replacement).unwrap_or_default()`; a replacement that fails is only counted.
    unfoldable pub replace_part : List Doc → Counts → World → Counts × World
    replace_part [] c w = (c, w)
    replace_part (doc ∷ docs) c w =
        let filter = unwrap_or [] (build_dedup_filter Value same_value dedup_key doc) in
        let (done, w') = replace_one filter doc w in
        replace_part docs
          (if done
            then record c { rows_inserted = c.rows_inserted + 1 }
            else record c { rows_failed = c.rows_failed + 1 })
          w'

    pub data Ended : Type 0 where
      finished : Counts → World → Ended
      cancelled : Counts → World → Ended
      stopped : String → Counts → World → Ended
      out_of_fuel : Ended

    -- A chunk that was converted and checked.
    unfoldable pub write_chunk :
        (ℕ → Counts → World → Ended)
        → ℕ
        → ℕ
        → Counts
        → Result String (List (DedupResult Value same_value)) × World
        → Ended
    write_chunk next offset end c (err e, w) = stopped e c w
    write_chunk next offset end c (ok results, w) =
        let parts = split results in
        let c₁ = record c { rows_skipped = c.rows_skipped + parts.skipped_rows } in
        let (c₂, w₂) = insert_part offset parts.to_insert c₁ w in
        let (c₃, w₃) = replace_part parts.to_replace c₂ w₂ in
        let c₄ = record c₃ {
          rows_processed = c₃.rows_processed + (end - offset);
          chunk_num = suc c₃.chunk_num;
        } in
        next end c₄ (update_progress job_id c₄ w₃)

    -- A chunk that was not converted is a failure of all its rows.
    unfoldable pub convert_chunk :
        (ℕ → Counts → World → Ended) → ℕ → ℕ → Counts → World → Result String (List Doc) → Ended
    convert_chunk next offset end c w (err e) =
        next end
          (record c {
            rows_failed = c.rows_failed + (end - offset);
            rows_processed = c.rows_processed + (end - offset);
            chunk_num = suc c.chunk_num;
          })
          (push_rows e offset (end - offset) w)
    convert_chunk next offset end c w (ok docs) =
        write_chunk next offset end c
          (check_batch Value same_value find_any dedup_key strategy docs w)

    unfoldable pub turn : (ℕ → Counts → World → Ended) → ℕ → Counts → Bool × World → Ended
    turn next offset c (true, w) = cancelled c w
    turn next offset c (false, w) =
        let end = min (offset + batch_size) table.height in
        convert_chunk next offset end c w (table.convert offset (end - offset))

    -- `while offset < total_rows`, on fuel.
    unfoldable pub run_from : ℕ → ℕ → Counts → World → Ended
    run_from zero offset c w = if ltb offset table.height then out_of_fuel else finished c w
    run_from (suc fuel) offset c w =
        if ltb offset table.height
        then turn (run_from fuel) offset c (try_cancel w)
        else finished c w

    -- A chunk takes a row at least, if the batch size does: as much fuel as there are rows.
    unfoldable pub run_sequential_writes : World → Ended
    run_sequential_writes w = run_from table.height 0 no_counts w
