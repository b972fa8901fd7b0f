-- ===== src/Ingestion/Engine/Status.antt =====
-- Status: which jobs can be cancelled, and what becomes of them.
use mongocore.Prelude.{
  ℕ, String, str_eq, eq_iff, ◌≡◌, ◌≢◌, refl, sym, subst, inl, inr, true, false, not, Bool-cases, [],
  ◌∷◌, All, All-append, none, is_some, Result, ok, err, find, find-put, find-put_other, find-retain,
  put, retain, ◌⊎◌, Bool,
}
use mongocore.Operations.Driver.{MongoCoreError}
use mongocore.Ingestion.Schema.{SchemaFields}
use mongocore.Ingestion.Progress.{
  IngestJob, running, cancelled, Change, apply_change, change_first, get_job, create_job, created,
  update_job,
}
use mongocore.Ingestion.Progress.Jobs.{get_job-change_first, get_job-change_first_other}
use mongocore.Ingestion.Engine.{
  Environment, TaskResult, IngestionEngine, Task, prepare, new_job, spawned, ingest_prepared,
  ingest, closing, report, close_job, remove_channel, cancel_ingest, System, IsReport, Step, begin,
  reporting, cancelling, close, remove, Reach, here, next,
}
use mongocore.Ingestion.Engine.Changes.{
  RunsAs, NotCancelled, get_job-append, get_job-append_new, All-change_first, report-status,
  closing-NotCancelled,
}
use mongocore.Ingestion.Engine.Updates.{update_job-jobs, map_some-RunsAs}

module _ (environment : Environment) where
  open environment use {store}

  abbrev EngineState : Type 0
  EngineState = IngestionEngine environment

  abbrev State : Type 0
  State = System environment

  abbrev Channel : String → EngineState → Type 0
  Channel job_id s = is_some (find str_eq job_id s.cancel_channels) ≡ true

  -- The job is running, or its task has ended and is about to remove its channel.
  abbrev RunsOrEnds : String → State → Type 0
  RunsOrEnds job_id s =
      RunsAs (get_job job_id s.engine.progress.jobs)
      ⊎ (is_some (find str_eq job_id s.ending) ≡ true)

  -- Each job with a channel is running or ending, and no job is recorded as cancelled.
  pub record IsTracked (s : State) : Type 0 where
    pub runs : (job_id : String) → Channel job_id s.engine → RunsOrEnds job_id s
    pub not_cancelled : All NotCancelled s.engine.progress.jobs

  report-RunsAs :
      {change : Change} (job_id other : String)
      → IsReport change
      → (s : EngineState) → RunsAs (get_job other s.progress.jobs)
      → RunsAs (get_job other (update_job store job_id change s.progress).1.jobs)
  report-RunsAs {change} job_id other is_report s h =
      update_job-jobs store (λ jobs. RunsAs (get_job other jobs)) job_id change s.progress h
        (elim (Bool-cases (str_eq job_id other)) [
          | inl e ↦
              subst
                (λ k.
                  RunsAs (get_job k (change_first job_id (apply_change change) s.progress.jobs)))
                ((eq_iff job_id other).0 e)
                (rw (get_job-change_first change job_id s.progress.jobs) (
                  map_some-RunsAs (apply_change change) (report-status is_report) _ (
                    subst (λ k. RunsAs (get_job k s.progress.jobs))
                      (sym ((eq_iff job_id other).0 e)) h)))
          | inr n ↦ rw (get_job-change_first_other change job_id other s.progress.jobs n) h
        ])

  report-IsTracked :
      {change : Change} (job_id : String) (s : State)
      → IsReport change
      → IsTracked s
      → IsTracked (record s { engine = report environment job_id change s.engine })
  unfolding report
  report-IsTracked {change} job_id s is_report tracked = record {
    runs = λ other channel. elim (tracked.runs other channel) [
      | inl h ↦ inl (report-RunsAs job_id other is_report s.engine h)
      | inr e ↦ inr e
    ];
    not_cancelled =
        update_job-jobs store (All NotCancelled) job_id change s.engine.progress
          tracked.not_cancelled
          (All-change_first NotCancelled job_id (apply_change change)
            (λ job h. subst (λ status. status ≢ cancelled) (sym (report-status is_report job)) h)
            s.engine.progress.jobs tracked.not_cancelled);
  }

  -- The end of a job leaves the others as they were.
  close_job-RunsAs :
      (job_id other : String) (now : ℕ) (result : TaskResult) (s : EngineState)
      → str_eq job_id other ≡ false
      → RunsAs (get_job other s.progress.jobs)
      → RunsAs (get_job other (update_job store job_id (closing now result) s.progress).1.jobs)
  close_job-RunsAs job_id other now result s apart h =
      let change : Change = closing now result in
      update_job-jobs store (λ jobs. RunsAs (get_job other jobs)) job_id change s.progress h
        (rw (get_job-change_first_other change job_id other s.progress.jobs apart) h)

  close_job-IsTracked :
      (job_id : String) (now : ℕ) (result : TaskResult) (s : State)
      → IsTracked s
      → IsTracked (record {
        engine = close_job environment job_id now result s.engine;
        ending = put str_eq job_id result s.ending;
      })
  unfolding close_job
  close_job-IsTracked job_id now result s tracked = record {
    runs = λ other channel. elim (Bool-cases (str_eq job_id other)) [
      | inl e ↦ inr (
          subst (λ k. is_some (find str_eq k (put str_eq job_id result s.ending)) ≡ true)
            ((eq_iff job_id other).0 e) (rw (find-put str_eq eq_iff job_id result s.ending) refl))
      | inr n ↦ elim (tracked.runs other channel) [
        | inl h ↦ inl (close_job-RunsAs job_id other now result s.engine n h)
        | inr e ↦ inr (rw (find-put_other str_eq eq_iff job_id other result s.ending n) e)
      ]
    ];
    not_cancelled =
        update_job-jobs store (All NotCancelled) job_id (closing now result) s.engine.progress
          tracked.not_cancelled
          (All-change_first NotCancelled job_id (apply_change (closing now result))
            (λ job h. closing-NotCancelled now result job) s.engine.progress.jobs
            tracked.not_cancelled);
  }

  remove_channel-IsTracked :
      (job_id : String) (s : State)
      → IsTracked s
      → IsTracked (record {
        engine = remove_channel environment job_id s.engine;
        ending = retain str_eq (λ k. not (str_eq k job_id)) s.ending;
      })
  unfolding remove_channel
  remove_channel-IsTracked job_id s tracked =
      let others : String → Bool = λ k. not (str_eq k job_id) in
      record {
        runs = λ other.
            rw (find-retain str_eq eq_iff others other s.engine.cancel_channels)
              (elim (Bool-cases (str_eq other job_id)) [
                | inl e ↦ rw e (λ channel. cc)
                | inr n ↦ rw n (λ channel. elim (tracked.runs other channel) [
                  | inl h ↦ inl h
                  | inr e ↦ inr (rw (find-retain str_eq eq_iff others other s.ending, n) e)
                ])
              ]);
        not_cancelled = tracked.not_cancelled;
      }

  cancel_ingest-IsTracked :
      (job_id : String) (s : State)
      → IsTracked s
      → IsTracked (record s { engine = (cancel_ingest environment job_id s.engine).1 })
  unfolding cancel_ingest
  cancel_ingest-IsTracked job_id s tracked =
      elim (Bool-cases (is_some (find str_eq job_id s.engine.cancel_channels))) [
        | inl has ↦ rw has (record {
          runs = λ other. elim (Bool-cases (str_eq job_id other)) [
            | inl e ↦ λ channel.
                subst (λ k. RunsOrEnds k s) ((eq_iff job_id other).0 e) (tracked.runs job_id has)
            | inr n ↦
                rw (find-put_other str_eq eq_iff job_id other true s.engine.cancel_channels n)
                  (tracked.runs other)
          ];
          not_cancelled = tracked.not_cancelled;
        })
        | inr lacks ↦
            rw lacks (record { runs = tracked.runs; not_cancelled = tracked.not_cancelled })
      ]

  spawned-IsTracked :
      (task : Task environment) (s : State) (r : Result String (Unit {0}) × store.World)
      → get_job task.job.job_id s.engine.progress.jobs ≡ none
      → task.job.status ≡ running
      → IsTracked s
      → IsTracked (record s {
        engine = (spawned environment task s.engine (created store task.job s.engine.progress r)).1;
      })
  unfolding spawned created
  spawned-IsTracked task s (err e, w) new runs tracked = record {
    runs = tracked.runs;
    not_cancelled = tracked.not_cancelled;
  }
  spawned-IsTracked task s (ok tt, w) new runs tracked =
      let id = task.job.job_id in
      let jobs = s.engine.progress.jobs in
      record {
        runs = λ other. elim (Bool-cases (str_eq id other)) [
          | inl e ↦ λ channel. inl (
              get_job-append_new other jobs task.job e runs
                (subst (λ k. get_job k jobs ≡ none) ((eq_iff id other).0 e) new))
          | inr n ↦
              rw (find-put_other str_eq eq_iff id other false s.engine.cancel_channels n)
                (λ channel. elim (tracked.runs other channel) [
                  | inl h ↦ inl (get_job-append other jobs task.job h)
                  | inr e ↦ inr e
                ])
        ];
        not_cancelled =
            All-append NotCancelled jobs (task.job ∷ []) tracked.not_cancelled
              ((λ e. cc (runs, e)), tt);
      }

  ingest_prepared-IsTracked :
      (job : IngestJob) (s : State)
      (r : Result MongoCoreError (environment.readers.LazyFrame × SchemaFields))
      → get_job job.job_id s.engine.progress.jobs ≡ none
      → job.status ≡ running
      → IsTracked s
      → IsTracked (record s { engine = (ingest_prepared environment job s.engine r).1 })
  unfolding ingest_prepared create_job
  ingest_prepared-IsTracked job s (err e) new runs tracked = record {
    runs = tracked.runs;
    not_cancelled = tracked.not_cancelled;
  }
  ingest_prepared-IsTracked job s (ok (frame, schema)) new runs tracked =
      spawned-IsTracked _ s _ new runs tracked

  Step-IsTracked : {s t : State} → Step environment s t → IsTracked s → IsTracked t
  unfolding ingest new_job
  Step-IsTracked {s} (begin options job_id now new) tracked =
      ingest_prepared-IsTracked _ s (prepare environment options) new refl tracked
  Step-IsTracked {s} (reporting job_id is_report) tracked =
      report-IsTracked job_id s is_report tracked
  Step-IsTracked {s} (cancelling job_id) tracked = cancel_ingest-IsTracked job_id s tracked
  Step-IsTracked {s} (close job_id now result) tracked =
      close_job-IsTracked job_id now result s tracked
  Step-IsTracked {s} (remove job_id ends) tracked = remove_channel-IsTracked job_id s tracked

  -- After any jobs were begun under new ids, reported on, cancelled and ended, in any order of these
  -- steps, from a system where it holds: every job with a cancel channel is running, or its task has
  -- ended and is about to remove the channel; and no job is recorded as cancelled.
  pub Reach-IsTracked : {s t : State} → IsTracked s → Reach environment s t → IsTracked t
  Reach-IsTracked tracked here = tracked
  Reach-IsTracked tracked (next reach step) = Step-IsTracked step (Reach-IsTracked tracked reach)
