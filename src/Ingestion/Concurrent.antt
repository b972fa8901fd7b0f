-- ===== src/Ingestion/Concurrent.antt =====
-- src/ingestion/engine.rs: the ingestion of a table without deduplication. A producer converts the
-- chunks and sends them through a bounded channel; writers take them in any order of steps. The
-- counters are atomic, so a step of a writer is one insertion with the counting of its result.
pub mod Rows
pub mod Progress
use Prim.Native.String.{◌++◌ as str_append}
use mongocore.Prelude.{
  ℕ, zero, suc, ◌+◌, ◌-◌, ◌*◌, ◌≤◌, ◌<◌, min, String, ◌≡◌, Bool, true, false, List, [], ◌∷◌, ◌++◌,
  length, Result, ok, err,
}
use mongocore.Ingestion.Sequential.{Collection, Table, DeadLetterEntry}

module _ (Value : Type 0) where
  -- A chunk on its way, with the row that it begins at.
  pub record Batch : Type 0 where
    pub docs : List (List (String × Value))
    pub offset : ℕ

  module _ (coll : Collection Value) (table : Table Value) (job_id : String)
      (batch_size concurrency : ℕ) where
    open coll use {World, insert_many, push}

    -- The producer's place, the channel, the chunks that writers hold, the counters, and the rest.
    pub record Ingestion : Type 0 where
      pub offset : ℕ
      pub chunk_num : ℕ
      pub producing : Bool
      pub channel : List Batch
      pub writing : List Batch
      pub rows_inserted : ℕ
      pub rows_failed : ℕ
      pub world : World

    abbrev pub start : World → Ingestion
    start w = record {
      offset = 0;
      chunk_num = 0;
      producing = true;
      channel = [];
      writing = [];
      rows_inserted = 0;
      rows_failed = 0;
      world = w;
    }

    abbrev pub end_from : ℕ → ℕ
    end_from offset = min (offset + batch_size) table.height

    unfoldable pub push_failed :
        (stage error : String) → ℕ → List (List (String × Value)) → World → World
    push_failed stage error row [] w = w
    push_failed stage error row (doc ∷ docs) w = push_failed stage error (suc row) docs (
        push
          (record {
            job_id = job_id;
            source_row = row;
            document = doc;
            error = error;
            stage = stage;
          })
          w)

    abbrev pub blanks : ℕ → List (List (String × Value))
    blanks zero = []
    blanks (suc n) = [] ∷ blanks n

    -- A chunk that the producer has converted, or has failed to.
    unfoldable pub produce : Ingestion → Result String (List (List (String × Value))) → Ingestion
    produce s (ok docs) = record s {
      channel = s.channel ++ record { docs = docs; offset = s.offset } ∷ [];
      offset = end_from s.offset;
      chunk_num = suc s.chunk_num;
    }
    produce s (err e) =
        let rows : ℕ = end_from s.offset - s.offset in
        record s {
          rows_failed = s.rows_failed + rows;
          offset = end_from s.offset;
          chunk_num = suc s.chunk_num;
          world =
              push_failed "conversion" (str_append "Conversion error: " e) s.offset (blanks rows)
                s.world;
        }

    -- What a writer does with the result of its insertion.
    unfoldable pub written : Ingestion → Batch → Result String ℕ × World → Ingestion
    written s b (ok n, w) = record s { rows_inserted = s.rows_inserted + n; world = w }
    written s b (err e, w) = record s {
      rows_failed = s.rows_failed + length b.docs;
      world = push_failed "write" (str_append "Insert error: " e) b.offset b.docs w;
    }

    -- The channel holds `concurrency * 2` chunks, and a chunk that was converted waits for room; a writer
    -- holds one chunk. The periodic reports of progress
    -- write no counter.
    pub data Step (s : Ingestion) : Ingestion → Type 0 where
      send :
          s.producing ≡ true
          → s.offset < table.height
          → ((docs : List (List (String × Value)))
              → table.convert s.offset (end_from s.offset - s.offset) ≡ ok docs
              → length s.channel < concurrency * 2)
          → Step s (produce s (table.convert s.offset (end_from s.offset - s.offset)))
      take_one :
          (b : Batch) (rest : List Batch)
          → s.channel ≡ b ∷ rest
          → length s.writing < concurrency
          → Step s (record s { channel = rest; writing = b ∷ s.writing })
      write :
          (before : List Batch) (b : Batch) (after : List Batch)
          → s.writing ≡ before ++ b ∷ after
          → Step s (written (record s { writing = before ++ after }) b (insert_many b.docs s.world))
      cancel :
          s.producing ≡ true → s.offset < table.height → Step s (record s { producing = false })

    -- The steps so far, counted.
    pub data Reach (w : World) : ℕ → Ingestion → Type 0 where
      begin : Reach w 0 (start w)
      later : {n : ℕ} {s t : Ingestion} → Reach w n s → Step s t → Reach w (suc n) t

    -- The producer has left its loop, and no chunk is under way.
    pub record IsDone (s : Ingestion) : Type 0 where
      pub drained : (s.channel ≡ []) × (s.writing ≡ [])
      pub ended : (s.producing ≡ true) → table.height ≤ s.offset
