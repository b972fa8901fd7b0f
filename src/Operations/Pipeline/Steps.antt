-- ===== src/Operations/Pipeline/Steps.antt =====
-- Steps: a step of a pipeline against the database, `execute_step` of
-- src/operations/transaction_pipeline.rs. The MongoDB driver and the conversions between JSON and BSON
-- are parameters.
use mongocore.Prelude.{
  ℕ, zero, suc, if◌then◌else◌, unwrap_or, Text, codes, text_eq, Bool, List, [], ◌∷◌, ◌++◌, length,
  Option, none, some, Result, ok, err, ◌>>=◌,
}
use mongocore.Operations.Json.{
  Value, Values, null, number, array, object, nil, cons, end, field, get_field, contains, decimal,
}
use mongocore.Operations.Pipeline.Rules.{PipelineStepDef, Limit, natural, max_docs}

-- A call with `.session(session)`, the one session of the attempt, or without.
pub data Scope : Type 0 where
  in_session outside : Scope

-- What one more read of a cursor gives.
pub data Read (Document : Type 0) : Type 0 where
  current : Document → Read Document
  not_deserialized not_advanced : (message : Text) → Read Document

pub record UpdateResult (Bson : Type 0) : Type 0 where
  pub matched_count : ℕ
  pub modified_count : ℕ
  pub upserted_id : Option Bson

-- The driver. `World` is the database with its sessions and the time; an error is its text. A cursor
-- is what its reads give, in order, and `insert_many` answers the identifiers in the order of its map.
-- `to_document` is `to_bson` where that gives a document.
pub record Driver : Type 1 where
  pub World : Type 0
  pub Document : Type 0
  pub Bson : Type 0
  pub new_document : Document
  pub to_document : Value → Option Document
  pub document_to_value : Document → Option Value
  pub bson_to_value : Bson → Option Value
  pub now_ms : World → ℕ
  pub start_session : World → Result Text World
  pub start_transaction : World → Result Text World
  pub find :
      Scope
      → (database collection : Text) → Document
      → Limit
      → World
      → Result Text (List (Read Document)) × World
  pub insert_one :
      Scope → (database collection : Text) → Document → World → Result Text Bson × World
  pub insert_many :
      Scope → (database collection : Text) → List Document → World → Result Text (List Bson) × World
  pub update_one :
      Scope
      → (database collection : Text) (filter update : Document) → World
      → Result Text (UpdateResult Bson) × World
  pub update_many :
      Scope
      → (database collection : Text) (filter update : Document) → World
      → Result Text (UpdateResult Bson) × World
  pub delete_one : Scope → (database collection : Text) → Document → World → Result Text ℕ × World
  pub delete_many : Scope → (database collection : Text) → Document → World → Result Text ℕ × World
  -- With `ReturnDocument::After`.
  pub find_one_and_update :
      Scope
      → (database collection : Text) (filter update : Document) → World
      → Result Text (Option Document) × World
  pub aggregate :
      Scope
      → (database collection : Text) → List Document
      → World
      → Result Text (List (Read Document)) × World
  pub abort_transaction : World → World
  pub commit_transaction : World → Result Text (Unit {0}) × World

-- The text of an error has the label of a transient one.
unfoldable pub is_transient : Text → Bool
is_transient err_str = contains err_str (codes "TransientTransactionError")

pub data Operation : Type 0 where
  find_one find insert insert_many update update_many delete : Operation
  delete_many find_and_modify aggregate : Operation
  unsupported : Text → Operation

unfoldable pub operation_of : Text → Operation
operation_of op =
    if text_eq op (codes "find_one")
    then find_one
    else if text_eq op (codes "find")
    then find
    else if text_eq op (codes "insert")
    then insert
    else if text_eq op (codes "insert_many")
    then insert_many
    else if text_eq op (codes "update")
    then update
    else if text_eq op (codes "update_many")
    then update_many
    else if text_eq op (codes "delete")
    then delete
    else if text_eq op (codes "delete_many")
    then delete_many
    else if text_eq op (codes "find_and_modify")
    then find_and_modify
    else if text_eq op (codes "aggregate")
    then aggregate
    else unsupported op

-- `Value::get` of a key.
unfoldable pub get_key : Text → Value → Option Value
get_key key (object fs) = get_field fs key
get_key key value = none

module _ (driver : Driver) where
  abbrev Document : Type 0
  Document = driver.Document

  abbrev World : Type 0
  World = driver.World

  unfoldable pub bson_from_json_value : Value → Document
  bson_from_json_value value = unwrap_or driver.new_document (driver.to_document value)

  unfoldable pub bson_doc_to_json : Document → Value
  bson_doc_to_json doc = unwrap_or null (driver.document_to_value doc)

  unfoldable pub bson_to_json_value : driver.Bson → Value
  bson_to_json_value bson_val = unwrap_or null (driver.bson_to_value bson_val)

  unfoldable pub document_at : Text → Value → Document
  unfolding get_key bson_from_json_value
  document_at key resolved_op = elim (get_key key resolved_op) [
    | none ↦ driver.new_document
    | some value ↦ bson_from_json_value value
  ]

  unfoldable pub documents_in : Values → List Document
  documents_in nil = []
  documents_in (cons value values) = bson_from_json_value value ∷ documents_in values

  unfoldable pub elements : Option Value → List Document
  elements (some (array values)) = documents_in values
  elements value = []

  unfoldable pub documents_at : Text → Value → List Document
  unfolding get_key elements documents_in
  documents_at key resolved_op = elements (get_key key resolved_op)

  unfoldable pub first_document : List (Read Document) → Result Text Value
  unfolding bson_doc_to_json
  first_document [] = ok null
  first_document (current doc ∷ reads) = ok (bson_doc_to_json doc)
  first_document (not_deserialized message ∷ reads) = err message
  first_document (not_advanced message ∷ reads) = err message

  unfoldable pub all_documents : List (Read Document) → Result Text Values
  unfolding bson_doc_to_json
  all_documents [] = ok nil
  all_documents (current doc ∷ reads) =
      all_documents reads >>= λ docs. ok (cons (bson_doc_to_json doc) docs)
  all_documents (not_deserialized message ∷ reads) = err message
  all_documents (not_advanced message ∷ reads) = err message

  -- The cursor is advanced once more before the number of documents ends the loop.
  unfoldable pub documents_up_to : ℕ → List (Read Document) → Result Text Values
  unfolding bson_doc_to_json
  documents_up_to n [] = ok nil
  documents_up_to n (not_advanced message ∷ reads) = err message
  documents_up_to zero (current doc ∷ reads) = ok nil
  documents_up_to zero (not_deserialized message ∷ reads) = ok nil
  documents_up_to (suc n) (current doc ∷ reads) =
      documents_up_to n reads >>= λ docs. ok (cons (bson_doc_to_json doc) docs)
  documents_up_to (suc n) (not_deserialized message ∷ reads) = err message

  unfoldable pub ids_of : List driver.Bson → Values
  unfolding bson_to_json_value
  ids_of [] = nil
  ids_of (id ∷ ids) = cons (bson_to_json_value id) (ids_of ids)

  -- The keys of an object of `json!` stay in the order of the code.
  unfoldable pub update_to_json : UpdateResult driver.Bson → Value
  update_to_json result = object (
      field (codes "matched_count") (number (decimal result.matched_count)) (
        field (codes "modified_count") (number (decimal result.modified_count)) (
          field (codes "upserted_id")
            (elim result.upserted_id [ none ↦ null | some id ↦ bson_to_json_value id ]) end)))

  unfoldable pub inserted_to_json : List driver.Bson → Value
  inserted_to_json ids = object (
      field (codes "inserted_ids") (array (ids_of ids))
        (field (codes "inserted_count") (number (decimal (length ids))) end))

  unfoldable pub deleted_to_json : ℕ → Value
  deleted_to_json n = object (field (codes "deleted_count") (number (decimal n)) end)

  unfoldable pub modified_to_json : Option Document → Value
  modified_to_json none = null
  modified_to_json (some doc) = bson_doc_to_json doc

  -- `?`, and what is made of the result.
  abbrev pub answered :
      {A : Type 0} → (A → Result Text Value) → Result Text A × World → Result Text Value × World
  answered f r = (r.0 >>= f, r.1)

  -- One arm of `match step.operation_type`.
  unfoldable pub perform : Operation → PipelineStepDef → Value → World → Result Text Value × World
  perform find_one step op w = answered first_document (
      driver.find in_session step.database step.collection (document_at (codes "filter") op)
        (natural 1) w)
  perform find step op w =
      answered (λ reads. all_documents reads >>= λ docs. ok (array docs))
        (driver.find in_session step.database step.collection (document_at (codes "filter") op)
          (unwrap_or (natural max_docs) step.find_limit) w)
  perform insert step op w =
      answered (λ id. ok (object (field (codes "inserted_id") (bson_to_json_value id) end)))
        (driver.insert_one in_session step.database step.collection
          (document_at (codes "document") op) w)
  perform insert_many step op w =
      answered (λ ids. ok (inserted_to_json ids))
        (driver.insert_many in_session step.database step.collection
          (documents_at (codes "documents") op) w)
  perform update step op w =
      answered (λ result. ok (update_to_json result))
        (driver.update_one in_session step.database step.collection
          (document_at (codes "filter") op) (document_at (codes "update") op) w)
  perform update_many step op w =
      answered (λ result. ok (update_to_json result))
        (driver.update_many in_session step.database step.collection
          (document_at (codes "filter") op) (document_at (codes "update") op) w)
  perform delete step op w =
      answered (λ n. ok (deleted_to_json n))
        (driver.delete_one in_session step.database step.collection
          (document_at (codes "filter") op) w)
  perform delete_many step op w =
      answered (λ n. ok (deleted_to_json n))
        (driver.delete_many in_session step.database step.collection
          (document_at (codes "filter") op) w)
  perform find_and_modify step op w =
      answered (λ doc. ok (modified_to_json doc))
        (driver.find_one_and_update in_session step.database step.collection
          (document_at (codes "filter") op) (document_at (codes "update") op) w)
  perform aggregate step op w =
      answered (λ reads. documents_up_to max_docs reads >>= λ docs. ok (array docs))
        (driver.aggregate in_session step.database step.collection
          (documents_at (codes "pipeline") op) w)
  perform (unsupported other) step op w = (err (codes "Unsupported operation type: " ++ other), w)

  unfoldable pub execute_step : PipelineStepDef → Value → World → Result Text Value × World
  unfolding perform operation_of
  execute_step step resolved_op w = perform (operation_of step.operation_type) step resolved_op w
