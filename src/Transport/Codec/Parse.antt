-- ===== src/Transport/Codec/Parse.antt =====
-- src/transport/codec.rs: `parse_envelope`, an arm for each opcode.
pub mod Agreement
use mongocore.Prelude.{
  ℕ, Bytes, String, Bool, true, ◌||◌, List, [], ◌∷◌, Option, none, some, Result, ok, err, ok_or,
  map_err, ◌>>=◌, unwrap_or, is_some, if◌then◌else◌,
}
use mongocore.Transport.Flags.{Opcode}
use mongocore.Transport.Codec.{
  Bson, CodecError, missing_field, invalid_bson, FindOptions, OperationRequest,
}
use mongocore.Transport.Codec

module _ (lib : Bson) where
  open lib use {
    Document, Value, new, from_slice, get_str, get_document, get_i32, get_i64, get_bool, get_array,
    as_document,
  }

  abbrev Parsed : Type 0
  Parsed = Result CodecError (OperationRequest Document)

  unfoldable pub get_required_str : Document → String → Result CodecError String
  get_required_str d field = ok_or (missing_field field) (get_str d field)

  unfoldable pub get_required_doc : Document → String → Result CodecError Document
  get_required_doc d field = ok_or (missing_field field) (get_document d field)

  -- `iter().filter_map(|v| v.as_document().cloned()).collect()`.
  unfoldable pub documents_of : List Value → List Document
  documents_of [] = []
  documents_of (v ∷ vs) = elim (as_document v) [
    | none ↦ documents_of vs
    | some d ↦ d ∷ documents_of vs
  ]

  unfoldable pub parse_handshake : Document → Parsed
  parse_handshake d = do
    client_language ← get_required_str d "client_language"
    ok (OperationRequest.handshake client_language)

  parse_find_one : Document → Parsed
  parse_find_one d = do
    db ← get_required_str d "db"
    collection ← get_required_str d "coll"
    filter ← get_required_doc d "filter"
    ok (OperationRequest.find_one db collection filter (get_document d "projection"))

  -- Present if one of the four fields is.
  unfoldable pub find_options : Document → Option (FindOptions Document)
  find_options d =
      let limit = get_i64 d "limit" in
      let skip = get_i64 d "skip" in
      let sort = get_document d "sort" in
      let projection = get_document d "projection" in
      if is_some limit || (is_some skip || (is_some sort || is_some projection))
      then some (record { limit = limit; skip = skip; sort = sort; projection = projection })
      else none

  parse_find : Document → Parsed
  parse_find d = do
    db ← get_required_str d "db"
    collection ← get_required_str d "coll"
    filter ← get_required_doc d "filter"
    let doc_bytes_len = unwrap_or 0 (get_i32 d "doc_bytes_len")
    let batch_size = get_i32 d "batch_size"
    ok (OperationRequest.find db collection filter (find_options d) batch_size doc_bytes_len)

  parse_insert_one : Document → Parsed
  parse_insert_one d = do
    db ← get_required_str d "db"
    collection ← get_required_str d "coll"
    ok (OperationRequest.insert_one db collection (unwrap_or 0 (get_i32 d "doc_bytes_len")))

  parse_insert_many : Document → Parsed
  parse_insert_many d = do
    db ← get_required_str d "db"
    collection ← get_required_str d "coll"
    let ordered = unwrap_or true (get_bool d "ordered")
    ok (
        OperationRequest.insert_many db collection ordered
          (unwrap_or 0 (get_i32 d "doc_bytes_len")))

  parse_update_one : Document → Parsed
  parse_update_one d = do
    db ← get_required_str d "db"
    collection ← get_required_str d "coll"
    filter ← get_required_doc d "filter"
    update ← get_required_doc d "update"
    ok (OperationRequest.update_one db collection filter update)

  parse_update_many : Document → Parsed
  parse_update_many d = do
    db ← get_required_str d "db"
    collection ← get_required_str d "coll"
    filter ← get_required_doc d "filter"
    update ← get_required_doc d "update"
    ok (OperationRequest.update_many db collection filter update)

  parse_delete_one : Document → Parsed
  parse_delete_one d = do
    db ← get_required_str d "db"
    collection ← get_required_str d "coll"
    filter ← get_required_doc d "filter"
    ok (OperationRequest.delete_one db collection filter)

  parse_delete_many : Document → Parsed
  parse_delete_many d = do
    db ← get_required_str d "db"
    collection ← get_required_str d "coll"
    filter ← get_required_doc d "filter"
    ok (OperationRequest.delete_many db collection filter)

  -- An entry of the pipeline that is no document is dropped.
  parse_aggregate : Document → Parsed
  parse_aggregate d = do
    db ← get_required_str d "db"
    collection ← get_required_str d "coll"
    pipeline_arr ← ok_or (missing_field "pipeline") (get_array d "pipeline")
    ok (
        OperationRequest.aggregate db collection (documents_of pipeline_arr)
          (get_i32 d "batch_size"))

  parse_count_documents : Document → Parsed
  parse_count_documents d = do
    db ← get_required_str d "db"
    collection ← get_required_str d "coll"
    ok (OperationRequest.count_documents db collection (unwrap_or new (get_document d "filter")))

  parse_distinct : Document → Parsed
  parse_distinct d = do
    db ← get_required_str d "db"
    collection ← get_required_str d "coll"
    field ← get_required_str d "field"
    ok (OperationRequest.distinct db collection field (get_document d "filter"))

  parse_create_index : Document → Parsed
  parse_create_index d = do
    db ← get_required_str d "db"
    collection ← get_required_str d "coll"
    keys ← get_required_doc d "keys"
    ok (OperationRequest.create_index db collection keys (get_str d "name") (get_bool d "unique"))

  unfoldable pub parse_list_collections : Document → Parsed
  parse_list_collections d = do
    db ← get_required_str d "db"
    ok (OperationRequest.list_collections db)

  parse_run_command : Document → Parsed
  parse_run_command d = do
    db ← get_required_str d "db"
    command ← get_required_doc d "command"
    ok (OperationRequest.run_command db command)

  parse_bulk_write : Document → Parsed
  parse_bulk_write d = do
    db ← get_required_str d "db"
    collection ← get_required_str d "coll"
    let doc_bytes_len = unwrap_or 0 (get_i32 d "doc_bytes_len")
    ok (
        OperationRequest.bulk_write db collection doc_bytes_len
          (unwrap_or true (get_bool d "ordered")))

  parse_find_one_and_update : Document → Parsed
  parse_find_one_and_update d = do
    db ← get_required_str d "db"
    collection ← get_required_str d "coll"
    filter ← get_required_doc d "filter"
    update ← get_required_doc d "update"
    ok (OperationRequest.find_one_and_update db collection filter update)

  parse_find_one_and_delete : Document → Parsed
  parse_find_one_and_delete d = do
    db ← get_required_str d "db"
    collection ← get_required_str d "coll"
    filter ← get_required_doc d "filter"
    ok (OperationRequest.find_one_and_delete db collection filter)

  parse_create_collection : Document → Parsed
  parse_create_collection d = do
    db ← get_required_str d "db"
    name ← get_required_str d "name"
    ok (OperationRequest.create_collection db name)

  parse_drop_collection : Document → Parsed
  parse_drop_collection d = do
    db ← get_required_str d "db"
    name ← get_required_str d "name"
    ok (OperationRequest.drop_collection db name)

  -- The `match opcode` of `parse_envelope`.
  unfoldable pub parse_document : Document → Opcode → Parsed
  unfolding parse_handshake parse_find_one parse_find parse_insert_one parse_insert_many
      parse_update_one parse_update_many parse_delete_one parse_delete_many parse_aggregate
      parse_count_documents parse_distinct parse_create_index parse_list_collections
      parse_run_command parse_bulk_write parse_find_one_and_update parse_find_one_and_delete
      parse_create_collection parse_drop_collection
  parse_document d Opcode.handshake = parse_handshake d
  parse_document d Opcode.find_one = parse_find_one d
  parse_document d Opcode.find = parse_find d
  parse_document d Opcode.insert_one = parse_insert_one d
  parse_document d Opcode.insert_many = parse_insert_many d
  parse_document d Opcode.update_one = parse_update_one d
  parse_document d Opcode.update_many = parse_update_many d
  parse_document d Opcode.delete_one = parse_delete_one d
  parse_document d Opcode.delete_many = parse_delete_many d
  parse_document d Opcode.aggregate = parse_aggregate d
  parse_document d Opcode.count_documents = parse_count_documents d
  parse_document d Opcode.distinct = parse_distinct d
  parse_document d Opcode.create_index = parse_create_index d
  parse_document d Opcode.list_collections = parse_list_collections d
  parse_document d Opcode.run_command = parse_run_command d
  parse_document d Opcode.bulk_write = parse_bulk_write d
  parse_document d Opcode.find_one_and_update = parse_find_one_and_update d
  parse_document d Opcode.find_one_and_delete = parse_find_one_and_delete d
  parse_document d Opcode.create_collection = parse_create_collection d
  parse_document d Opcode.drop_collection = parse_drop_collection d
  parse_document d Opcode.error = err (invalid_bson "Error opcode is not a valid request")

  unfoldable pub parse_envelope : Bytes → Opcode → Parsed
  parse_envelope bytes opcode = do
    d ← map_err invalid_bson (from_slice bytes)
    parse_document d opcode
