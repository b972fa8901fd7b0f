-- ===== src/Ingestion/Engine.antt =====
-- src/ingestion/engine.rs: how a job begins, is cancelled and ends. The task that copies the rows
-- runs in the background; it reports its progress, and its result comes to `close_job`. Each
-- operation is one step, but for the end of a job: first its status is changed, and then its channel is
-- removed. The identifier of a job is handed out when `ingest` returns, after the channel is there.
mod Changes
mod Updates
pub mod Status
use Prim.Native.String.{◌++◌ as str_append}
use mongocore.Prelude.{
  ℕ, if◌then◌else◌, String, str_eq, ◌≡◌, codes, starts_with, Bool, true, false, not, ◌&&◌, List, [],
  ◌∷◌, is_empty, Option, none, some, is_some, Result, ok, err, ◌>>=◌, map_err, find, put, retain,
}
use mongocore.Operations.Driver.{MongoCoreError, ingestion_error, to_string}
use mongocore.Ingestion.Dedup.{ConflictStrategy}
use mongocore.Ingestion.Schema.{SchemaFields, ColumnInfo, infer_schema, apply_overrides}
use mongocore.Ingestion.Reader.{FileFormat, CsvOptions, Readers, resolved_format, read_lazy}
use mongocore.Ingestion.Progress.{
  IngestJob, running, Change, total_rows_to, progress_to, complete, fail, Store, ProgressTracker,
  create_job, update_job, get_job,
}

pub record IngestOptions : Type 0 where
  pub file_path : String
  pub database : String
  pub collection : String
  pub format : FileFormat
  pub dedup_key : List String
  pub conflict_strategy : ConflictStrategy
  pub batch_size : ℕ
  pub concurrency : ℕ
  pub expressions : List String
  pub schema_overrides : List (String × String)
  pub sample_size : ℕ
  pub csv_options : CsvOptions

-- What the task in the background ends with.
pub data TaskResult : Type 0 where
  ended_ok : TaskResult
  ended_err : MongoCoreError → TaskResult
  panicked : Option String → TaskResult

-- The message of a panic, where it is a text.
unfoldable pub closing : (now : ℕ) → TaskResult → Change
closing now ended_ok = complete now
closing now (ended_err e) = fail now (to_string e)
closing now (panicked (some s)) = fail now (str_append "Internal error (panic): " s)
closing now (panicked none) = fail now "Internal error (panic): unknown"

-- What the task reports while it runs: the number of rows, and how far it is.
pub data IsReport : Change → Type 0 where
  total : (n : ℕ) → IsReport (total_rows_to n)
  rows : (a b c d e : ℕ) → IsReport (progress_to a b c d e)

-- What the engine calls: the readers of files, the collection of jobs, the file system, the standard
-- library, the transformation of a frame (src/ingestion/transform.rs), and the columns of a sample.
pub record Environment : Type 1 where
  pub readers : Readers
  pub store : Store
  pub exists : (path : String) → Bool
  pub to_lowercase : String → String
  pub apply_expressions : List String → readers.LazyFrame → Result MongoCoreError readers.LazyFrame
  pub sample : readers.LazyFrame → ℕ → Result String (List ColumnInfo)

module _ (environment : Environment) where
  open environment use {readers, store, exists, to_lowercase, apply_expressions, sample}

  abbrev LazyFrame : Type 0
  LazyFrame = readers.LazyFrame

  -- The senders of the cancel channels, each with whether a signal is waiting.
  pub record IngestionEngine : Type 0 where
    pub progress : ProgressTracker store
    pub cancel_channels : List (String × Bool)

  -- The task that is spawned.
  pub record Task : Type 0 where
    pub job : IngestJob
    pub frame : LazyFrame
    pub schema : SchemaFields

  unfoldable pub is_local : String → Bool
  is_local source =
      not (starts_with (codes "http://") (codes source))
      && (not (starts_with (codes "https://") (codes source))
          && (not (starts_with (codes "s3://") (codes source))
              && (not (starts_with (codes "gs://") (codes source))
                  && not (starts_with (codes "az://") (codes source)))))

  unfoldable pub check_source : String → Result MongoCoreError (Unit {0})
  unfolding is_local
  check_source source =
      if is_local source && not (exists source)
      then err (ingestion_error (str_append "File not found: " source))
      else ok tt

  unfoldable pub transformed : List String → LazyFrame → Result MongoCoreError LazyFrame
  transformed expressions lf =
      if is_empty expressions then ok lf else apply_expressions expressions lf

  unfoldable pub with_overrides : List (String × String) → SchemaFields → SchemaFields
  with_overrides overrides schema =
      if is_empty overrides then schema else apply_overrides to_lowercase overrides schema

  unfoldable pub new_job : IngestOptions → (job_id : String) (now : ℕ) → IngestJob
  new_job options job_id now = record {
    job_id = job_id;
    file_path = options.file_path;
    database = options.database;
    collection = options.collection;
    status = running;
    total_rows = 0;
    rows_processed = 0;
    rows_inserted = 0;
    rows_skipped = 0;
    rows_failed = 0;
    last_committed_chunk = 0;
    started_at = now;
    completed_at = none;
    error = none;
  }

  -- Everything that `ingest` does before the job exists.
  unfoldable pub prepare : IngestOptions → Result MongoCoreError (LazyFrame × SchemaFields)
  unfolding check_source transformed with_overrides
  prepare options = do
    _ ← check_source options.file_path
    format ← resolved_format readers options.file_path options.format
    lf ← read_lazy readers options.file_path format options.csv_options
    frame ← transformed options.expressions lf
    columns ←
        map_err (λ e. ingestion_error (str_append "Sample failed: " e))
          (sample frame options.sample_size)
    ok (frame, with_overrides options.schema_overrides (infer_schema columns))

  unfoldable pub spawned :
      Task
      → IngestionEngine
      → Result String (Unit {0}) × ProgressTracker store
      → Result MongoCoreError Task × IngestionEngine
  spawned task s (err e, tracker) = (err (ingestion_error e), record s { progress = tracker })
  spawned task s (ok tt, tracker) = (
    ok task,
    record s {
      progress = tracker;
      cancel_channels = put str_eq task.job.job_id false s.cancel_channels;
    },
  )

  unfoldable pub ingest_prepared :
      IngestJob
      → IngestionEngine
      → Result MongoCoreError (LazyFrame × SchemaFields)
      → Result MongoCoreError Task × IngestionEngine
  unfolding spawned
  ingest_prepared job s (err e) = (err e, s)
  ingest_prepared job s (ok (frame, schema)) =
      spawned (record { job = job; frame = frame; schema = schema }) s
        (create_job store job s.progress)

  unfoldable pub ingest :
      IngestOptions
      → (job_id : String) (now : ℕ) → IngestionEngine
      → Result MongoCoreError Task × IngestionEngine
  unfolding prepare new_job ingest_prepared
  ingest options job_id now s = ingest_prepared (new_job options job_id now) s (prepare options)

  -- An error of the update is ignored.
  unfoldable pub report : String → Change → IngestionEngine → IngestionEngine
  report job_id change s = record s { progress = (update_job store job_id change s.progress).1 }

  unfoldable pub close_job : String → (now : ℕ) → TaskResult → IngestionEngine → IngestionEngine
  unfolding closing report
  close_job job_id now result s = report job_id (closing now result) s

  unfoldable pub remove_channel : String → IngestionEngine → IngestionEngine
  remove_channel job_id s = record s {
    cancel_channels = retain str_eq (λ k. not (str_eq k job_id)) s.cancel_channels;
  }

  unfoldable pub has_channel : String → IngestionEngine → Bool
  has_channel job_id s = is_some (find str_eq job_id s.cancel_channels)

  unfoldable pub cancel_ingest :
      String → IngestionEngine → Result MongoCoreError (Unit {0}) × IngestionEngine
  unfolding has_channel
  cancel_ingest job_id s =
      if has_channel job_id s
      then (ok tt, record s { cancel_channels = put str_eq job_id true s.cancel_channels })
      else (
        err (
            ingestion_error
              (str_append "Job '" (str_append job_id "' not found or already finished"))),
        s,
      )

  -- The engine, and the tasks that have told the tracker their result but not removed their channel.
  pub record System : Type 0 where
    pub engine : IngestionEngine
    pub ending : List (String × TaskResult)

  -- The operations in any order; the identifier of a new job has not been given before.
  pub data Step (s : System) : System → Type 0 where
    begin :
        (options : IngestOptions) (job_id : String) (now : ℕ)
        → get_job job_id s.engine.progress.jobs ≡ none
        → Step s (record s { engine = (ingest options job_id now s.engine).1 })
    reporting :
        {change : Change} (job_id : String)
        → IsReport change
        → Step s (record s { engine = report job_id change s.engine })
    cancelling :
        (job_id : String) → Step s (record s { engine = (cancel_ingest job_id s.engine).1 })
    close :
        (job_id : String) (now : ℕ) (result : TaskResult)
        → Step s (record {
          engine = close_job job_id now result s.engine;
          ending = put str_eq job_id result s.ending;
        })
    remove :
        (job_id : String)
        → is_some (find str_eq job_id s.ending) ≡ true
        → Step s (record {
          engine = remove_channel job_id s.engine;
          ending = retain str_eq (λ k. not (str_eq k job_id)) s.ending;
        })

  pub data Reach (s : System) : System → Type 0 where
    here : Reach s s
    next : {t u : System} → Reach s t → Step t u → Reach s u
