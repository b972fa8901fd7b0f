-- ===== src/Ingestion/Engine/Changes.antt =====
-- Changes: what new jobs and changes of jobs do to a list of jobs.
use mongocore.Prelude.{
  ℕ, String, str_eq, eq_iff, ◌≡◌, ◌≢◌, refl, sym, inl, inr, true, false, Bool-cases, List, [], ◌∷◌,
  ◌++◌, All, Option, none, some,
}
use mongocore.Ingestion.Progress.{
  IngestJob, running, cancelled, Change, apply_change, change_first, get_job,
}
use mongocore.Ingestion.Engine.{
  TaskResult, ended_ok, ended_err, panicked, closing, IsReport, total, rows,
}

-- The first job of an id, if there is one, is running.
abbrev pub RunsAs : Option IngestJob → Type 0
RunsAs none = ⊥
RunsAs (some job) = job.status ≡ running

abbrev pub NotCancelled : IngestJob → Type 0
NotCancelled job = job.status ≢ cancelled

pub get_job-append :
    (k : String) (jobs : List IngestJob) (new : IngestJob)
    → RunsAs (get_job k jobs)
    → RunsAs (get_job k (jobs ++ new ∷ []))
unfolding get_job
get_job-append k [] new = λ h. absurd h
get_job-append k (job ∷ jobs) new = elim (Bool-cases (str_eq job.job_id k)) [
  | inl e ↦ rw e (λ h. h)
  | inr n ↦ rw n (get_job-append k jobs new)
]

pub get_job-append_new :
    (k : String) (jobs : List IngestJob) (new : IngestJob)
    → str_eq new.job_id k ≡ true
    → new.status ≡ running
    → get_job k jobs ≡ none
    → RunsAs (get_job k (jobs ++ new ∷ []))
unfolding get_job
get_job-append_new k [] new same runs = rw same (λ h. runs)
get_job-append_new k (job ∷ jobs) new same runs = elim (Bool-cases (str_eq job.job_id k)) [
  | inl e ↦ rw e (λ h. cc)
  | inr n ↦ rw n (get_job-append_new k jobs new same runs)
]

pub All-change_first :
    (P : IngestJob → Type 0) (job_id : String) (change : IngestJob → IngestJob)
    → ((job : IngestJob) → P job → P (change job))
    → (jobs : List IngestJob) → All P jobs
    → All P (change_first job_id change jobs)
unfolding change_first
All-change_first P job_id change keep [] all = tt
All-change_first P job_id change keep (job ∷ jobs) all =
    elim (Bool-cases (str_eq job.job_id job_id)) [
      | inl e ↦ rw e (keep job all.0, all.1)
      | inr n ↦ rw n (all.0, All-change_first P job_id change keep jobs all.1)
    ]

pub str_eq-apart : (k j : String) → str_eq k j ≡ false → str_eq j k ≡ false
str_eq-apart k j apart = elim (Bool-cases (str_eq j k)) [
  | inl e ↦ cc (apart, (eq_iff k j).1 (sym ((eq_iff j k).0 e)))
  | inr n ↦ n
]

-- A report changes no status, and neither end of a job sets it to cancelled.
pub report-status :
    {change : Change}
    → IsReport change
    → (job : IngestJob) → (apply_change change job).status ≡ job.status
unfolding apply_change
report-status (total n) job = refl
report-status (rows a b c d e) job = refl

pub closing-NotCancelled :
    (now : ℕ) (result : TaskResult) (job : IngestJob)
    → NotCancelled (apply_change (closing now result) job)
unfolding apply_change closing
closing-NotCancelled now ended_ok job = λ e. cc
closing-NotCancelled now (ended_err e) job = λ e. cc
closing-NotCancelled now (panicked (some s)) job = λ e. cc
closing-NotCancelled now (panicked none) job = λ e. cc
