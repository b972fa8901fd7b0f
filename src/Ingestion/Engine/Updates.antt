-- ===== src/Ingestion/Engine/Updates.antt =====
-- Updates: the jobs in memory after an update of one of them.
use mongocore.Prelude.{String, ◌≡◌, ◌∙◌, List, Option, none, some, Result, ok, err}
use mongocore.Ingestion.Progress.{
  IngestJob, Change, apply_change, change_first, Store, ProgressTracker, update_job, updated,
}
use mongocore.Ingestion.Progress.Jobs.{map_some}
use mongocore.Ingestion.Engine.Changes.{RunsAs}

module _ (store : Store) where
  updated-jobs :
      (P : List IngestJob → Type 0) (job_id : String) (change : Change) (t : ProgressTracker store)
      (r : Result String (Unit {0}) × store.World)
      → P t.jobs
      → P (change_first job_id (apply_change change) t.jobs)
      → P (updated store job_id change t r).1.jobs
  unfolding updated
  updated-jobs P job_id change t (err e, w) same changed = same
  updated-jobs P job_id change t (ok tt, w) same changed = changed

  -- The jobs in memory after an update: as they were, or with the job changed.
  pub update_job-jobs :
      (P : List IngestJob → Type 0) (job_id : String) (change : Change) (t : ProgressTracker store)
      → P t.jobs
      → P (change_first job_id (apply_change change) t.jobs)
      → P (update_job store job_id change t).1.jobs
  unfolding update_job
  update_job-jobs P job_id change t same changed =
      updated-jobs P job_id change t (store.update_one job_id _ t.world) same changed

pub map_some-RunsAs :
    (f : IngestJob → IngestJob)
    → ((job : IngestJob) → (f job).status ≡ job.status)
    → (o : Option IngestJob) → RunsAs o
    → RunsAs (map_some f o)
map_some-RunsAs f keep none h = absurd h
map_some-RunsAs f keep (some job) h = keep job ∙ h
