-- ===== src/Examples/Jobs.antt =====
-- The theorems on the record of jobs.
use mongocore.Prelude.{
  String, str_eq, ◌≡◌, refl, true, List, [], ◌∷◌, Option, none, some, ok, find, put, retain,
  starts_with,
}
use mongocore.Operations.Driver.{ingestion_error}
use mongocore.Ingestion.Dedup.{skip}
use mongocore.Ingestion.Reader.{
  Readers, auto, resolved_format, format_named, read_lazy, default_csv_options,
}
use mongocore.Ingestion.Engine.{
  Environment, IngestOptions, IngestionEngine, ended_err, ingest, cancel_ingest, close_job,
  remove_channel, System, begin, cancelling, close, remove, here, next,
}
use mongocore.Ingestion.Engine.Status.{IsTracked, Reach-IsTracked}
use mongocore.Ingestion.Progress.{
  IngestJob, IngestStatus, failed, get_job, change_first, running, Store, Fields, set_fields,
  job_to_document, apply_change, complete, fail, update_job, updated, create_job, created,
  ProgressTracker,
}
use mongocore.Ingestion.Progress.Agreement.{set_all, set_fields-agrees}
use mongocore.Ingestion.Progress.Jobs.{Effect, update_job-Effect}

abbrev job : String → IngestJob
job id = record {
  job_id = id;
  file_path = "rows.csv";
  database = "shop";
  collection = "items";
  status = running;
  total_rows = 3;
  rows_processed = 2;
  rows_inserted = 2;
  rows_skipped = 0;
  rows_failed = 0;
  last_committed_chunk = 1;
  started_at = 5;
  completed_at = none;
  error = none;
}

-- A collection that counts its calls.
abbrev counting : Store
counting = record {
  World = List Fields;
  insert_one = λ d w. (ok tt, d ∷ w);
  update_one = λ id fields w. (ok tt, fields ∷ w);
}

abbrev two_jobs : ProgressTracker counting
two_jobs = record { jobs = job "a" ∷ job "b" ∷ []; world = [] }

set_fields-agrees_example :
    find str_eq "error" (set_all (set_fields (fail 9 "lost")) (job_to_document (job "a")))
    ≡ find str_eq "error" (job_to_document (apply_change (fail 9 "lost") (job "a")))
set_fields-agrees_example = set_fields-agrees (fail 9 "lost") (job "a") "error"

update_job_example :
    Effect counting "b" "a"
      (complete 9)
      two_jobs.jobs
      (ok tt)
      (update_job counting "b" (complete 9) two_jobs)
update_job_example = update_job-Effect counting "b" "a" (complete 9) two_jobs refl

abbrev readers : Readers
readers = record {
  LazyFrame = String;
  CsvReader = String;
  extension = λ path. "csv";
  new_csv = λ path. path;
  with_separator = λ c r. r;
  with_quote_char = λ c r. r;
  with_has_header = λ b r. r;
  with_comment_prefix = λ c r. r;
  finish_csv = λ r. ok r;
  json_lines = λ path. ok path;
  scan_parquet = λ path. ok path;
}

abbrev environment : Environment
environment = record {
  readers = readers;
  store = counting;
  exists = λ path. true;
  to_lowercase = λ s. s;
  apply_expressions = λ expressions frame. ok frame;
  sample = λ frame n. ok [];
}

abbrev idle : IngestionEngine environment
idle = record { progress = record { jobs = []; world = [] }; cancel_channels = [] }

abbrev idle_system : System environment
idle_system = record { engine = idle; ending = [] }

idle-IsTracked : IsTracked environment idle_system
unfolding find
idle-IsTracked = record { runs = λ job_id channel. cc; not_cancelled = tt }

abbrev options : IngestOptions
options = record {
  file_path = "rows.csv";
  database = "shop";
  collection = "items";
  format = auto;
  dedup_key = [];
  conflict_strategy = skip;
  batch_size = 2;
  concurrency = 1;
  expressions = [];
  schema_overrides = [];
  sample_size = 10;
  csv_options = default_csv_options;
}

abbrev begun : IngestionEngine environment
begun = (ingest environment options "a" 5 idle).1

abbrev asked : IngestionEngine environment
asked = (cancel_ingest environment "a" begun).1

abbrev ended : IngestionEngine environment
ended = close_job environment "a" 9 (ended_err (ingestion_error "Job cancelled")) asked

abbrev removed : IngestionEngine environment
removed = remove_channel environment "a" ended

no_job : get_job "a" [] ≡ none
unfolding get_job
no_job = refl

abbrev map_some_status : Option IngestJob → Option IngestStatus
map_some_status none = none
map_some_status (some job) = some job.status

-- A job that is cancelled ends as a failed one.
cancelled_job : map_some_status (get_job "a" removed.progress.jobs) ≡ some failed
unfolding get_job ingest cancel_ingest close_job remove_channel change_first apply_change update_job
    updated find starts_with resolved_format format_named read_lazy create_job created put
cancelled_job = refl

Reach-IsTracked_example : IsTracked environment (record { engine = removed; ending = [] })
unfolding find retain put
Reach-IsTracked_example = Reach-IsTracked environment idle-IsTracked (
    next
      (next (next (next here (begin options "a" 5 no_job)) (cancelling "a"))
        (close "a" 9 (ended_err (ingestion_error "Job cancelled"))))
      (remove "a" refl))
