-- ===== src/Examples/Operations.antt =====
-- The theorems on references and pipelines, at concrete pipelines.
use mongocore.Prelude.{
  ℕ, suc, ◌-◌, if◌then◌else◌, ◌&&◌, Text, codes, text_eq, ◌≡◌, ◌≢◌, ◌↔◌, refl, true, List, [], ◌∷◌,
  length, take, drop, none, some, ok, err, arith,
}
use mongocore.Operations.Json.{
  trim, contains, decimal, Value, Fields, null, string, array, object, cons, nil, end, starts_with,
  ends_with,
}
use mongocore.Operations.Refs.{
  split_name, segments_from, out_of_fuel, field, index, wildcard, parse_reference,
}
use mongocore.Operations.Refs.Print.{parse_reference-print}
use mongocore.Operations.Refs.Fuel.{parse_reference-ne-out_of_fuel}
use mongocore.Operations.Refs.Resolve.{
  contains_text, extract_references, extract_value, add_captures, resolve_value, resolve_string,
  resolve_single_ref, single_reference, lookup, Crates,
}
use mongocore.Operations.Pipeline.{
  check_steps, check_step, is_valid_name, over_limit, check_refs, attempts, run_steps, after_steps,
  after_commit, after_resolve, after_execute, execute_step, perform, operation_of, document_at,
  get_key, all_documents, bson_doc_to_json, bson_to_json_value, Scope, in_session, outside, current,
  UpdateResult, Driver, PipelineStepDef, PipelineFailure, PipelineExecutionResult, step_failed,
  execute_transaction_pipeline, validate_pipeline,
}
use mongocore.Operations.Pipeline.Valid.{validate_pipeline_iff, IsPipeline}
use mongocore.Operations.Pipeline.Atomic.{Transactional}
use mongocore.Operations.Pipeline.Complete.{IsComplete, execute_transaction_pipeline-IsComplete}

-- One reference at most, which is the whole text.
abbrev whole_text : Text → List (Text × Text)
whole_text s =
    if starts_with s (codes "{{") && ends_with s (codes "}}")
    then (s, take (length s - 4) (drop 2 s)) ∷ []
    else []

abbrev crates : Crates
crates = record { captures = whole_text; render = λ v. codes "value" }

-- The number of writes that are visible, and with those of the transaction.
abbrev Writes : Type 0
Writes = ℕ × ℕ

abbrev written : Scope → Writes → Writes
written in_session w = (w.0, suc w.1)
written outside w = (suc w.0, suc w.1)

abbrev no_update : UpdateResult ℕ
no_update = record { matched_count = 1; modified_count = 1; upserted_id = none }

-- A driver that counts its writes; documents and identifiers are numbers.
abbrev driver : Driver
driver = record {
  World = Writes;
  Document = ℕ;
  Bson = ℕ;
  new_document = 0;
  to_document = λ v. none;
  document_to_value = λ d. none;
  bson_to_value = λ b. none;
  now_ms = λ w. 0;
  start_session = λ w. ok w;
  start_transaction = λ w. ok (w.0, w.0);
  find = λ scope d c filter limit w. (ok (current 4 ∷ []), w);
  insert_one = λ scope d c doc w. (ok 7, written scope w);
  insert_many = λ scope d c docs w. (ok (7 ∷ 8 ∷ []), written scope w);
  update_one = λ scope d c filter update w. (ok no_update, written scope w);
  update_many = λ scope d c filter update w. (ok no_update, written scope w);
  delete_one = λ scope d c filter w. (ok 1, written scope w);
  delete_many = λ scope d c filter w. (ok 2, written scope w);
  find_one_and_update = λ scope d c filter update w. (ok (some 4), written scope w);
  aggregate = λ scope d c pipeline w. (ok [], w);
  abort_transaction = λ w. (w.0, w.0);
  commit_transaction = λ w. (ok tt, (w.1, w.1));
}

abbrev driver-Transactional : Transactional driver
driver-Transactional = record {
  Data = ℕ;
  visible = λ w. w.0;
  session = λ w w' h. cc h;
  begun = λ w w' h. cc h;
  found = λ d c filter limit w. refl;
  one_inserted = λ d c doc w. refl;
  many_inserted = λ d c docs w. refl;
  one_updated = λ d c filter update w. refl;
  many_updated = λ d c filter update w. refl;
  one_deleted = λ d c filter w. refl;
  many_deleted = λ d c filter w. refl;
  found_and_updated = λ d c filter update w. refl;
  aggregated = λ d c pipeline w. refl;
  aborted = λ w. refl;
  not_committed = λ w message h. cc h;
}

abbrev step : Text → Text → Value → PipelineStepDef
step name operation_type json = record {
  name = name;
  database = codes "shop";
  collection = codes "orders";
  operation_type = operation_type;
  operation_json = json;
  find_limit = none;
}

-- The second step refers to the result of the first.
abbrev two_steps : Text → List PipelineStepDef
two_steps second =
    step (codes "first") (codes "insert") null
    ∷ step (codes "second") second (string (codes "{{first}}"))
    ∷ []

reference_example :
    parse_reference (codes "first.items[2][*].id")
    ≡ ok (codes "first", field (codes "items") ∷ index 2 ∷ wildcard ∷ field (codes "id") ∷ [])
unfolding decimal
reference_example =
    parse_reference-print (codes "first")
      (field (codes "items") ∷ index 2 ∷ wildcard ∷ field (codes "id") ∷ [])
      (refl, (refl, (refl, (refl, (refl, tt)))))
      ((refl, (refl, (refl, (refl, (refl, tt))))), (omega arith, (tt, ((refl, (refl, tt)), tt))))

ne-out_of_fuel_example : parse_reference (codes "first..[") ≢ err out_of_fuel
ne-out_of_fuel_example = parse_reference-ne-out_of_fuel (codes "first..[")

validate_pipeline_example :
    (validate_pipeline crates (two_steps (codes "fail")) ≡ ok tt)
    ↔ IsPipeline crates (two_steps (codes "fail"))
validate_pipeline_example = validate_pipeline_iff crates (two_steps (codes "fail"))

abbrev failure : PipelineFailure
failure = record {
  failed_step = codes "second";
  step_index = 1;
  reason = step_failed (codes "Unsupported operation type: fail");
  steps_completed = codes "first" ∷ [];
  rolled_back = true;
}

abbrev success : PipelineExecutionResult
success = record {
  steps =
      record {
        name = codes "first";
        success = true;
        result_json = object (Fields.field (codes "inserted_id") null end);
      }
      ∷ record { name = codes "second"; success = true; result_json = array (cons null nil) }
      ∷ [];
  total_steps = 2;
  steps_completed = 2;
  elapsed_ms = 0;
}

ending_run :
    execute_transaction_pipeline crates driver (two_steps (codes "find")) 5000 (8, 9)
    ≡ (ok success, (9, 9))
unfolding execute_transaction_pipeline validate_pipeline check_steps check_step is_valid_name
    contains_text text_eq over_limit check_refs extract_references extract_value add_captures
    starts_with ends_with parse_reference trim split_name segments_from attempts run_steps
    after_steps after_commit after_resolve after_execute resolve_value resolve_string
    resolve_single_ref single_reference lookup contains execute_step perform operation_of
    document_at get_key all_documents bson_doc_to_json bson_to_json_value
ending_run = refl

all_steps_example : IsComplete (two_steps (codes "find")) success
all_steps_example =
    execute_transaction_pipeline-IsComplete crates driver (two_steps (codes "find")) 5000 (8, 9)
      (9, 9) success ending_run
