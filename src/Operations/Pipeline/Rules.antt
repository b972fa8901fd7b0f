-- ===== src/Operations/Pipeline/Rules.antt =====
-- Rules: the steps of a pipeline and their validation.
use mongocore.Prelude.{
  ℕ, ltb, leb, ◌==◌, if◌then◌else◌, Text, codes, text_eq, Bool, true, false, not, ◌&&◌, ◌||◌, List,
  [], ◌∷◌, ◌++◌, map, length, is_empty, Option, none, some, Result, ok, err, ◌>>=◌,
}
use mongocore.Operations.Json.{Value}
use mongocore.Operations.Refs.{RefError, parse_reference}
use mongocore.Operations.Refs.Resolve.{Crates, contains_text, extract_references}

-- `find_limit` is an `i64`; a negative one is below every bound.
pub data Limit : Type 0 where
  negative : (magnitude : ℕ) → Limit
  natural : ℕ → Limit

pub record PipelineStepDef : Type 0 where
  pub name : Text
  pub database : Text
  pub collection : Text
  pub operation_type : Text
  pub operation_json : Value
  pub find_limit : Option Limit

abbrev pub max_steps : ℕ
max_steps = 50

abbrev pub max_docs : ℕ
max_docs = 101

abbrev pub max_retries : ℕ
max_retries = 3

-- One constructor for each message of `validate_pipeline`.
pub data PipelineError : Type 0 where
  no_steps too_many_steps empty_name : PipelineError
  empty_database empty_collection invalid_name duplicate_name : (step : Text) → PipelineError
  nested_transaction limit_exceeded : (step : Text) → PipelineError
  forward_reference unknown_reference : (step target : Text) → PipelineError
  bad_reference : RefError → PipelineError

abbrev pub is_alpha : ℕ → Bool
is_alpha c = (leb b'a' c && leb c b'z') || (leb b'A' c && leb c b'Z')

abbrev pub is_alphanumeric : ℕ → Bool
is_alphanumeric c = is_alpha c || (leb b'0' c && leb c b'9')

unfoldable pub all_name_chars : Text → Bool
all_name_chars [] = true
all_name_chars (c ∷ s) = (is_alphanumeric c || c == b'_') && all_name_chars s

unfoldable pub is_valid_name : Text → Bool
unfolding all_name_chars
is_valid_name [] = false
is_valid_name (c ∷ s) = (is_alpha c || c == b'_') && all_name_chars s

abbrev pub is_forbidden : Text → Bool
is_forbidden op =
    text_eq op (codes "begin_transaction")
    || text_eq op (codes "commit_transaction")
    || text_eq op (codes "abort_transaction")

unfoldable pub over_limit : Option Limit → Bool
over_limit none = false
over_limit (some (negative n)) = false
over_limit (some (natural n)) = ltb max_docs n

abbrev pub names : List PipelineStepDef → List Text
names = map λ s. s.name

-- Rules 5 and 6, for the references of a step: the steps that they name have been seen.
unfoldable pub check_refs :
    List PipelineStepDef → Text → List Text → List Text → Result PipelineError (Unit {0})
check_refs steps step_name seen [] = ok tt
check_refs steps step_name seen (r ∷ rs) = elim (parse_reference r) [
  | err e ↦ err (bad_reference e)
  | ok (target, path) ↦ elim (contains_text seen target) [
    | true ↦ check_refs steps step_name seen rs
    | false ↦ err (
        if contains_text (names steps) target
        then forward_reference step_name target
        else unknown_reference step_name target)
  ]
]

module _ (crates : Crates) where
  -- The checks of one step, in the order of the code. The step's own name counts as seen.
  unfoldable pub check_step :
      List PipelineStepDef → List Text → PipelineStepDef → Result PipelineError (List Text)
  check_step steps seen step =
      if is_empty step.name
      then err empty_name
      else if is_empty step.database
      then err (empty_database step.name)
      else if is_empty step.collection
      then err (empty_collection step.name)
      else if not (is_valid_name step.name)
      then err (invalid_name step.name)
      else if contains_text seen step.name
      then err (duplicate_name step.name)
      else if is_forbidden step.operation_type
      then err (nested_transaction step.name)
      else if over_limit step.find_limit
      then err (limit_exceeded step.name)
      else (let seen' = seen ++ step.name ∷ [] in
          check_refs steps step.name seen' (extract_references crates step.operation_json) >>= λ _.
          ok seen')

  unfoldable pub check_steps :
      List PipelineStepDef → List Text → List PipelineStepDef → Result PipelineError (Unit {0})
  check_steps steps seen [] = ok tt
  check_steps steps seen (step ∷ rest) =
      check_step steps seen step >>= λ seen'. check_steps steps seen' rest

  unfoldable pub validate_pipeline : List PipelineStepDef → Result PipelineError (Unit {0})
  validate_pipeline steps =
      if is_empty steps
      then err no_steps
      else if ltb max_steps (length steps)
      then err too_many_steps
      else check_steps steps [] steps
