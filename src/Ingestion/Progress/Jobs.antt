-- ===== src/Ingestion/Progress/Jobs.antt =====
-- Jobs: what an operation on a job does to the jobs in memory.
use Prim.Native.String.{◌++◌ as str_append}
use mongocore.Prelude.{
  String, str_eq, eq_iff, ◌≡◌, refl, ap, ◌∙◌, true, false, Bool-cases, inl, inr, List, [], ◌∷◌,
  Option, none, some, Result, ok, err,
}
use mongocore.Ingestion.Progress.{
  IngestJob, Change, total_rows_to, progress_to, complete, fail, cancel, apply_change, change_first,
  get_job, Store, ProgressTracker, updated, update_job, failed_to, set_fields,
}

abbrev pub map_some : (IngestJob → IngestJob) → Option IngestJob → Option IngestJob
map_some f none = none
map_some f (some job) = some (f job)

apply_change-job_id :
    (change : Change) (job : IngestJob) → (apply_change change job).job_id ≡ job.job_id
unfolding apply_change
apply_change-job_id (total_rows_to n) job = refl
apply_change-job_id (progress_to a b c d e) job = refl
apply_change-job_id (complete now) job = refl
apply_change-job_id (fail now e) job = refl
apply_change-job_id (cancel now) job = refl

pub get_job-change_first :
    (change : Change) (job_id : String) (jobs : List IngestJob)
    → get_job job_id (change_first job_id (apply_change change) jobs)
      ≡ map_some (apply_change change) (get_job job_id jobs)
unfolding get_job change_first
get_job-change_first change job_id [] = refl
get_job-change_first change job_id (job ∷ jobs) = elim (Bool-cases (str_eq job.job_id job_id)) [
  | inl e ↦
      let still : str_eq (apply_change change job).job_id job_id ≡ true =
        ap (λ k. str_eq k job_id) (apply_change-job_id change job) ∙ e in
      rw (e, get_job, still) refl
  | inr n ↦ rw (n, get_job, n) (get_job-change_first change job_id jobs)
]

pub get_job-change_first_other :
    (change : Change) (job_id other : String) (jobs : List IngestJob)
    → str_eq job_id other ≡ false
    → get_job other (change_first job_id (apply_change change) jobs) ≡ get_job other jobs
unfolding get_job change_first
get_job-change_first_other change job_id other [] apart = refl
get_job-change_first_other change job_id other (job ∷ jobs) apart =
    elim (Bool-cases (str_eq job.job_id job_id)) [
      | inl e ↦
          let here : job.job_id ≡ job_id = (eq_iff job.job_id job_id).0 e in
          let before : str_eq job.job_id other ≡ false = ap (λ k. str_eq k other) here ∙ apart in
          let after : str_eq (apply_change change job).job_id other ≡ false =
            ap (λ k. str_eq k other) (apply_change-job_id change job) ∙ before in
          rw (e, get_job, after, before) refl
      | inr n ↦ elim (Bool-cases (str_eq job.job_id other)) [
        | inl f ↦ rw (n, get_job, f) refl
        | inr f ↦ rw (n, get_job, f) (get_job-change_first_other change job_id other jobs apart)
      ]
    ]

module _ (store : Store) where
  -- What the answer and the jobs are after an operation on a job, by what the collection answers; a
  -- second job stands for the others.
  abbrev pub Effect :
      String
      → String
      → Change
      → List IngestJob
      → Result String (Unit {0})
      → Result String (Unit {0}) × ProgressTracker store
      → Type 0
  Effect job_id other change jobs (ok tt) (answer, t) =
      (answer ≡ ok tt)
      × (get_job job_id t.jobs ≡ map_some (apply_change change) (get_job job_id jobs))
      × (get_job other t.jobs ≡ get_job other jobs)
  Effect job_id other change jobs (err e) (answer, t) =
      (answer ≡ err (str_append (failed_to change) e)) × (t.jobs ≡ jobs)

  updated-Effect :
      (job_id other : String) (change : Change) (t : ProgressTracker store)
      (r : Result String (Unit {0}) × Store.World store)
      → str_eq job_id other ≡ false
      → Effect job_id other change t.jobs r.0 (updated store job_id change t r)
  unfolding updated
  updated-Effect job_id other change t (err e, w) apart = (refl, refl)
  updated-Effect job_id other change t (ok tt, w) apart = (
    refl,
    get_job-change_first change job_id t.jobs,
    get_job-change_first_other change job_id other t.jobs apart,
  )

  -- The collection is asked to set the fields of the change for this job. If it accepts, the operation
  -- succeeds, changes this job in memory and leaves a job with another id as it was; if it refuses, the
  -- operation is an error with the refusal in its message, and the jobs in memory are as they were.
  pub update_job-Effect :
      (job_id other : String) (change : Change) (t : ProgressTracker store)
      → str_eq job_id other ≡ false
      → Effect job_id other change t.jobs
          (store.update_one job_id (set_fields change) t.world).0
          (update_job store job_id change t)
  unfolding update_job
  update_job-Effect job_id other change t apart = updated-Effect job_id other change t _ apart
