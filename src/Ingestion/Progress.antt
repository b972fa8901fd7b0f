-- ===== src/Ingestion/Progress.antt =====
-- src/ingestion/progress.rs: the record of jobs, in memory and in a collection. Row counts are below
-- 2 ^ 63. The lock makes each change of the list one step; the clock is an argument. The schema of a
-- job is not stored and left out.
pub mod Agreement
pub mod Jobs
use Prim.Native.String.{◌++◌ as str_append}
use mongocore.Prelude.{
  ℕ, if◌then◌else◌, String, str_eq, Bool, true, false, List, [], ◌∷◌, ◌++◌, Option, none, some,
  Result, ok, err, put,
}

pub data IngestStatus : Type 0 where
  running completed failed cancelled : IngestStatus

pub record IngestJob : Type 0 where
  pub job_id : String
  pub file_path : String
  pub database : String
  pub collection : String
  pub status : IngestStatus
  pub total_rows : ℕ
  pub rows_processed : ℕ
  pub rows_inserted : ℕ
  pub rows_skipped : ℕ
  pub rows_failed : ℕ
  pub last_committed_chunk : ℕ
  pub started_at : ℕ
  pub completed_at : Option ℕ
  pub error : Option String

-- A value of a stored document.
pub data Stored : Type 0 where
  text : String → Stored
  number : ℕ → Stored
  time : ℕ → Stored

abbrev pub Fields : Type 0
Fields = List (String × Stored)

unfoldable pub status_str : IngestStatus → String
status_str running = "running"
status_str completed = "completed"
status_str failed = "failed"
status_str cancelled = "cancelled"

abbrev pub insert_some : {A : Type 0} → String → (A → Stored) → Option A → Fields → Fields
insert_some key store none d = d
insert_some key store (some a) d = put str_eq key (store a) d

-- The fields that every job has.
abbrev pub first_fields : IngestJob → Fields
first_fields job =
    ("job_id", text job.job_id)
    ∷ ("file_path", text job.file_path)
    ∷ ("database", text job.database)
    ∷ ("collection", text job.collection)
    ∷ ("status", text (status_str job.status))
    ∷ ("total_rows", number job.total_rows)
    ∷ ("rows_processed", number job.rows_processed)
    ∷ ("rows_inserted", number job.rows_inserted)
    ∷ ("rows_skipped", number job.rows_skipped)
    ∷ ("rows_failed", number job.rows_failed)
    ∷ ("last_committed_chunk", number job.last_committed_chunk)
    ∷ ("started_at", time job.started_at)
    ∷ []

unfoldable pub job_to_document : IngestJob → Fields
job_to_document job =
    insert_some "error" text job.error
      (insert_some "completed_at" time job.completed_at (first_fields job))

-- The collection: an insertion, and an update that sets fields of the document of a job.
pub record Store : Type 1 where
  pub World : Type 0
  pub insert_one : Fields → World → Result String (Unit {0}) × World
  pub update_one : (job_id : String) → Fields → World → Result String (Unit {0}) × World

-- `jobs.iter_mut().find(…)` and what is done to the job that is found.
unfoldable pub change_first : String → (IngestJob → IngestJob) → List IngestJob → List IngestJob
change_first job_id change [] = []
change_first job_id change (job ∷ jobs) =
    let rest = change_first job_id change jobs in
    if str_eq job.job_id job_id then change job ∷ jobs else job ∷ rest

unfoldable pub get_job : String → List IngestJob → Option IngestJob
get_job job_id [] = none
get_job job_id (job ∷ jobs) = if str_eq job.job_id job_id then some job else get_job job_id jobs

unfoldable pub is_running : IngestStatus → Bool
is_running running = true
is_running status = false

unfoldable pub get_resumable_jobs : List IngestJob → List IngestJob
get_resumable_jobs [] = []
get_resumable_jobs (job ∷ jobs) =
    let rest = get_resumable_jobs jobs in if is_running job.status then job ∷ rest else rest

-- What the operations on a job change: the fields that are set, and the job in memory.
pub data Change : Type 0 where
  total_rows_to : ℕ → Change
  progress_to : (rows_processed rows_inserted rows_skipped rows_failed last_chunk : ℕ) → Change
  complete : (now : ℕ) → Change
  fail : (now : ℕ) (error : String) → Change
  cancel : (now : ℕ) → Change

unfoldable pub set_fields : Change → Fields
set_fields (total_rows_to n) = ("total_rows", number n) ∷ []
set_fields (progress_to processed inserted skipped lost chunk) =
    ("rows_processed", number processed)
    ∷ ("rows_inserted", number inserted)
    ∷ ("rows_skipped", number skipped)
    ∷ ("rows_failed", number lost)
    ∷ ("last_committed_chunk", number chunk)
    ∷ []
set_fields (complete now) = ("status", text "completed") ∷ ("completed_at", time now) ∷ []
set_fields (fail now error) =
    ("status", text "failed") ∷ ("error", text error) ∷ ("completed_at", time now) ∷ []
set_fields (cancel now) = ("status", text "cancelled") ∷ ("completed_at", time now) ∷ []

unfoldable pub apply_change : Change → IngestJob → IngestJob
apply_change (total_rows_to n) job = record job { total_rows = n }
apply_change (progress_to processed inserted skipped lost chunk) job = record job {
  rows_processed = processed;
  rows_inserted = inserted;
  rows_skipped = skipped;
  rows_failed = lost;
  last_committed_chunk = chunk;
}
apply_change (complete now) job = record job { status = completed; completed_at = some now }
apply_change (fail now message) job = record job {
  status = failed;
  error = some message;
  completed_at = some now;
}
apply_change (cancel now) job = record job { status = cancelled; completed_at = some now }

-- The words of an error.
unfoldable pub failed_to : Change → String
failed_to (total_rows_to n) = "Failed to update total_rows: "
failed_to (progress_to processed inserted skipped lost chunk) = "Failed to update progress: "
failed_to (complete now) = "Failed to complete job: "
failed_to (fail now error) = "Failed to fail job: "
failed_to (cancel now) = "Failed to cancel job: "

module _ (store : Store) where
  open store use {World, insert_one, update_one}

  pub record ProgressTracker : Type 0 where
    pub jobs : List IngestJob
    pub world : World

  unfoldable pub created :
      IngestJob
      → ProgressTracker
      → Result String (Unit {0}) × World
      → Result String (Unit {0}) × ProgressTracker
  created job t (err e, w) = (err (str_append "Failed to create job: " e), record t { world = w })
  created job t (ok tt, w) = (ok tt, record t { jobs = t.jobs ++ job ∷ []; world = w })

  unfoldable pub create_job :
      IngestJob → ProgressTracker → Result String (Unit {0}) × ProgressTracker
  create_job job t = created job t (insert_one (job_to_document job) t.world)

  unfoldable pub updated :
      String
      → Change
      → ProgressTracker
      → Result String (Unit {0}) × World
      → Result String (Unit {0}) × ProgressTracker
  updated job_id change t (err e, w) =
      (err (str_append (failed_to change) e), record t { world = w })
  updated job_id change t (ok tt, w) =
      (ok tt, record t { jobs = change_first job_id (apply_change change) t.jobs; world = w })

  unfoldable pub update_job :
      String → Change → ProgressTracker → Result String (Unit {0}) × ProgressTracker
  update_job job_id change t =
      updated job_id change t (update_one job_id (set_fields change) t.world)
