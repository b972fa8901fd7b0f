-- ===== src/Operations/Pipeline.antt =====
-- src/operations/transaction_pipeline.rs: validation and execution of a transactional pipeline.
-- The MongoDB driver is a parameter, with the clock.
mod Rules
mod Steps
pub mod Valid
pub mod Complete
pub mod Atomic
use mongocore.Prelude.{
  ℕ, zero, suc, ◌+◌, ◌-◌, ltb, leb, ◌==◌, if◌then◌else◌, Text, codes, text_eq, Bool, true, false,
  not, ◌&&◌, ◌||◌, List, [], ◌∷◌, ◌++◌, map, length, is_empty, Option, none, some, Result, ok, err,
  ◌>>=◌,
}
use mongocore.Operations.Json.{Value}
use mongocore.Operations.Refs.{RefError, PathSegment, parse_reference}
use mongocore.Operations.Refs.Resolve.{Crates, contains_text, extract_references, resolve_value}
unfoldable pub use Rules.*
unfoldable pub use Steps.*

pub record StepResult : Type 0 where
  pub name : Text
  pub success : Bool
  pub result_json : Value

pub record PipelineExecutionResult : Type 0 where
  pub steps : List StepResult
  pub total_steps : ℕ
  pub steps_completed : ℕ
  pub elapsed_ms : ℕ

-- The reasons of a failure, apart from their wording.
pub data Reason : Type 0 where
  invalid : PipelineError → Reason
  session_failed transaction_failed step_failed commit_failed : (message : Text) → Reason
  timed_out : (elapsed : ℕ) → Reason
  unresolved : RefError → Reason
  retries_exhausted : Reason

pub record PipelineFailure : Type 0 where
  pub failed_step : Text
  pub step_index : ℕ
  pub reason : Reason
  pub steps_completed : List Text
  pub rolled_back : Bool

module _ (crates : Crates) (driver : Driver) where
  open driver use {
    World, now_ms, start_session, start_transaction, abort_transaction, commit_transaction,
  }

  abbrev pub Answer : Type 0
  Answer = Result PipelineFailure PipelineExecutionResult

  -- What the steps of an attempt leave: all done, or a failure after an abort.
  pub data Ran : Type 0 where
    done : List StepResult → World → Ran
    failed : PipelineFailure → World → Ran

  abbrev completed : List StepResult → List Text
  completed = map λ r. r.name

  abbrev abandon : PipelineStepDef → ℕ → List StepResult → Reason → World → Ran
  abandon step idx step_results reason w =
      failed
        (record {
          failed_step = step.name;
          step_index = idx;
          reason = reason;
          steps_completed = completed step_results;
          rolled_back = true;
        })
        (abort_transaction w)

  abbrev results_map : List StepResult → List (Text × Value)
  results_map = map λ r. (r.name, r.result_json)

  -- Executing a step: its result is kept under its name.
  unfoldable pub after_execute :
      (List StepResult → World → Ran)
      → PipelineStepDef
      → ℕ
      → List StepResult
      → Result Text Value × World
      → Ran
  after_execute next step idx step_results (err message, w) =
      abandon step idx step_results (step_failed message) w
  after_execute next step idx step_results (ok value, w) =
      next (step_results ++ record { name = step.name; success = true; result_json = value } ∷ []) w

  unfoldable pub after_resolve :
      (List StepResult → World → Ran)
      → PipelineStepDef
      → ℕ
      → List StepResult
      → World
      → Result RefError Value
      → Ran
  after_resolve next step idx step_results w (err e) =
      abandon step idx step_results (unresolved e) w
  after_resolve next step idx step_results w (ok resolved) =
      after_execute next step idx step_results (execute_step driver step resolved w)

  -- The loop over the steps. The names are distinct, so the map of results is the list of results.
  unfoldable pub run_steps : ℕ → ℕ → ℕ → List PipelineStepDef → List StepResult → World → Ran
  run_steps start max_time_ms idx [] step_results w = done step_results w
  run_steps start max_time_ms idx (step ∷ rest) step_results w =
      let elapsed : ℕ = now_ms w - start in
      elim (ltb max_time_ms elapsed) [
        | true ↦ abandon step idx step_results (timed_out elapsed) w
        | false ↦
            after_resolve (run_steps start max_time_ms (suc idx) rest) step idx step_results w
              (resolve_value crates step.operation_json (results_map step_results))
      ]

  abbrev fail : Reason → ℕ → List Text → Bool → PipelineFailure
  fail reason idx steps_completed rolled_back = record {
    failed_step = [];
    step_index = idx;
    reason = reason;
    steps_completed = steps_completed;
    rolled_back = rolled_back;
  }

  unfoldable pub after_commit :
      (World → Answer × World)
      → ℕ
      → List PipelineStepDef
      → List StepResult
      → Result Text (Unit {0}) × World
      → Answer × World
  after_commit retry start steps step_results (ok u, w) = (
    ok (record {
      steps = step_results;
      total_steps = length steps;
      steps_completed = length step_results;
      elapsed_ms = now_ms w - start;
    }),
    w,
  )
  after_commit retry start steps step_results (err message, w) = elim (is_transient message) [
    | true ↦ retry w
    | false ↦ (err (fail (commit_failed message) (length steps) (completed step_results) true), w)
  ]

  unfoldable pub after_steps :
      (World → Answer × World) → ℕ → List PipelineStepDef → Ran → Answer × World
  after_steps retry start steps (failed failure w) = (err failure, w)
  after_steps retry start steps (done step_results w) =
      after_commit retry start steps step_results (commit_transaction w)

  -- `for _attempt in 0..MAX_RETRIES`: only a transient error of the commit leads to another round.
  unfoldable pub attempts : ℕ → ℕ → ℕ → List PipelineStepDef → World → Answer × World
  attempts zero start max_time_ms steps w = (err (fail retries_exhausted 0 [] true), w)
  attempts (suc left) start max_time_ms steps w = elim (start_session w) [
    | err message ↦ (err (fail (session_failed message) 0 [] false), w)
    | ok w₁ ↦ elim (start_transaction w₁) [
      | err message ↦ (err (fail (transaction_failed message) 0 [] false), w₁)
      | ok w₂ ↦
          after_steps (attempts left start max_time_ms steps) start steps
            (run_steps start max_time_ms 0 steps [] w₂)
    ]
  ]

  unfoldable pub execute_transaction_pipeline : List PipelineStepDef → ℕ → World → Answer × World
  execute_transaction_pipeline steps max_time_ms w = elim (validate_pipeline crates steps) [
    | err e ↦ (err (fail (invalid e) 0 [] false), w)
    | ok u ↦ attempts max_retries (now_ms w) max_time_ms steps w
  ]
