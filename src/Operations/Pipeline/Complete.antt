-- ===== src/Operations/Pipeline/Complete.antt =====
-- What a pipeline that answers with results has done: every step, in order.
use mongocore.Prelude.{
  ℕ, zero, suc, ◌-◌, ltb, Text, ◌≡◌, refl, sym, ap, ◌∙◌, subst, Bool-cases, inl, inr, true, List,
  [], ◌∷◌, ◌++◌, map, map-append, append-nil, append_assoc, length, length-map, Result,
  Result-cases, ok, err,
}
use mongocore.Operations.Json.{Value}
use mongocore.Operations.Refs.{RefError}
use mongocore.Operations.Refs.Resolve.{Crates, resolve_value}
use mongocore.Operations.Pipeline.{
  is_transient, execute_step, Driver, PipelineStepDef, StepResult, PipelineExecutionResult, Answer,
  Ran, done, failed, names, completed, results_map, after_execute, after_resolve, run_steps,
  after_commit, after_steps, attempts, execute_transaction_pipeline, validate_pipeline, max_retries,
}

-- A result lists exactly these steps, and counts them.
pub record IsComplete (steps : List PipelineStepDef) (r : PipelineExecutionResult) : Type 0 where
  pub named : map (λ s. s.name) r.steps ≡ names steps
  pub total : r.total_steps ≡ length steps
  pub counted : r.steps_completed ≡ r.total_steps

module _ (crates : Crates) (driver : Driver) where
  open driver use {World, now_ms, start_session, start_transaction, commit_transaction}

  -- An attempt that ends has added a result for each step, in their order.
  abbrev Named : List Text → Ran crates driver → Type 0
  Named ns (done rs w) = completed crates driver rs ≡ ns
  Named ns (failed f w) = Unit {0}

  run_steps-Named :
      (start max idx : ℕ) (steps : List PipelineStepDef) (rs : List StepResult) (w : World)
      → Named
          (completed crates driver rs ++ names steps)
          (run_steps crates driver start max idx steps rs w)
  unfolding run_steps after_resolve after_execute
  run_steps-Named start max idx [] rs w = sym (append-nil _)
  run_steps-Named start max idx (step ∷ rest) rs w =
      let ih = run_steps-Named start max (suc idx) rest in
      elim (Bool-cases (ltb max (now_ms w - start))) [
        | inl late ↦ rw (late, run_steps) tt
        | inr early ↦
            rw (early, run_steps)
              (after ih (resolve_value crates step.operation_json (results_map crates driver rs)))
      ]
    where
      after_step :
          ((rs' : List StepResult) (w' : World)
            → Named
                (completed crates driver rs' ++ names rest)
                (run_steps crates driver start max (suc idx) rest rs' w'))
          → (r : Result Text Value × World)
          → Named (completed crates driver rs ++ names (step ∷ rest)) (
              after_execute crates driver
                (run_steps crates driver start max (suc idx) rest)
                step
                idx
                rs
                r)
      after_step ih (err message, w') = tt
      after_step ih (ok value, w') =
          subst
            (λ ns. Named ns (
              run_steps crates driver start max (suc idx) rest
                (rs ++ record { name = step.name; success = true; result_json = value } ∷ []) w'))
            (ap (◌++ names rest) (
                map-append (λ r. r.name) rs
                  (record { name = step.name; success = true; result_json = value } ∷ []))
              ∙ append_assoc (completed crates driver rs) (step.name ∷ []) (names rest))
            (ih (rs ++ record { name = step.name; success = true; result_json = value } ∷ []) w')

      after :
          ((rs' : List StepResult) (w' : World)
            → Named
                (completed crates driver rs' ++ names rest)
                (run_steps crates driver start max (suc idx) rest rs' w'))
          → (r : Result RefError Value)
          → Named (completed crates driver rs ++ names (step ∷ rest)) (
              after_resolve crates driver
                (run_steps crates driver start max (suc idx) rest)
                step
                idx
                rs
                w
                r)
      after ih (err x) = tt
      after ih (ok v) = after_step ih (execute_step driver step v w)

  -- The answer, where there is one, is complete.
  abbrev Complete : List PipelineStepDef → Answer crates driver × World → Type 0
  Complete steps (ok r, w) = IsComplete steps r
  Complete steps (err f, w) = Unit {0}

  after_commit-Complete :
      (retry : World → Answer crates driver × World) (start : ℕ) (steps : List PipelineStepDef)
      (rs : List StepResult)
      → ((w : World) → Complete steps (retry w))
      → completed crates driver rs ≡ names steps
      → (c : Result Text (Unit {0}) × World)
      → Complete steps (after_commit crates driver retry start steps rs c)
  unfolding after_commit
  after_commit-Complete retry start steps rs ih e (ok u, w) = record {
    named = e;
    total = refl;
    counted = sym (length-map _ rs) ∙ ap length e ∙ length-map _ steps;
  }
  after_commit-Complete retry start steps rs ih e (err message, w) =
      elim (Bool-cases (is_transient message)) [
        | inl t ↦ rw (t, after_commit) (ih w)
        | inr f ↦ rw (f, after_commit) tt
      ]

  after_steps-Complete :
      (retry : World → Answer crates driver × World) (start : ℕ) (steps : List PipelineStepDef)
      → ((w : World) → Complete steps (retry w))
      → (r : Ran crates driver) → Named (names steps) r
      → Complete steps (after_steps crates driver retry start steps r)
  unfolding after_steps
  after_steps-Complete retry start steps ih (failed f w) n = tt
  after_steps-Complete retry start steps ih (done rs w) n =
      after_commit-Complete retry start steps rs ih n (commit_transaction w)

  attempts-Complete :
      (left start max : ℕ) (steps : List PipelineStepDef) (w : World)
      → Complete steps (attempts crates driver left start max steps w)
  unfolding attempts
  attempts-Complete zero start max steps w = tt
  attempts-Complete (suc left) start max steps w =
      let ih = attempts-Complete left start max steps in
      elim (Result-cases (start_session w)) [
        | inr (m, a) ↦ rw (a, attempts) tt
        | inl (w₁, a) ↦ elim (Result-cases (start_transaction w₁)) [
          | inr (m, b) ↦ rw (a, attempts, b) tt
          | inl (w₂, b) ↦
              rw (a, attempts, b)
                (after_steps-Complete (attempts crates driver left start max steps) start steps ih
                  (run_steps crates driver start max 0 steps [] w₂)
                  (run_steps-Named start max 0 steps [] w₂))
        ]
      ]

  -- A pipeline that answers with results has a result for each step, under its name and in order,
  -- and counts of total and completed steps that are the number of steps.
  pub execute_transaction_pipeline-IsComplete :
      (steps : List PipelineStepDef) (max_time_ms : ℕ) (w w' : World) (r : PipelineExecutionResult)
      → execute_transaction_pipeline crates driver steps max_time_ms w ≡ (ok r, w')
      → IsComplete steps r
  unfolding execute_transaction_pipeline
  execute_transaction_pipeline-IsComplete steps max w w' r h = subst (Complete steps) h all
    where
      all : Complete steps (execute_transaction_pipeline crates driver steps max w)
      all = elim (Result-cases (validate_pipeline crates steps)) [
        | inl (v, e) ↦
            rw (e, execute_transaction_pipeline)
              (attempts-Complete max_retries (now_ms w) max steps w)
        | inr (x, e) ↦ rw (e, execute_transaction_pipeline) tt
      ]
