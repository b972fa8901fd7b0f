-- ===== src/Transport/Dispatch.antt =====
-- src/transport/dispatch.rs: a parsed request, with the raw documents of its frame, becomes a call of
-- the operations, and the result a response. `handle_handshake` is modelled with the connection.
pub mod Documents
pub mod Batches
pub mod Refusals
use Prim.Native.String.{◌++◌ as str_append}
use mongocore.Prelude.{
  ℕ, zero, suc, ◌+◌, ◌%◌, ◌^◌, ltb, if◌then◌else◌, ◌||◌, Bytes, String, Bool, true, false, List, [],
  ◌∷◌, length, take, drop, Option, none, some, is_some, unwrap_or, Result, ok, err, ok_value,
  map_err, ◌>>=◌, i32_from_le_bytes,
}
use mongocore.Transport.Codec.{
  Bson, OperationRequest, OperationResponse, single_doc, batch, insert_one_result,
  insert_many_result, update_result, delete_result, count_result, index_result, collections,
  command_result, error_response,
}
use mongocore.Operations.Driver.{
  Driver, MongoCoreError, operation_error, to_string, UpdateResult, IndexOptions,
}
use mongocore.Operations.Crud.{
  find_one, find_raw, insert, insert_many, update, update_many, delete, delete_many,
  count_documents, find_and_modify, aggregate_raw,
}
use mongocore.Operations.Admin.{
  default_mode, as_operation_error, run_command, create_collection, drop_collection, create_index,
}

-- Why raw bytes are not documents. Each round takes five bytes at least: fuel for every byte is enough.
pub data Malformed : Type 0 where
  too_short incomplete_prefix invalid_length beyond_buffer out_of_fuel : Malformed
  unparsable : String → Malformed
  unparsable_at : ℕ → String → Malformed

unfoldable pub length_prefix : Bytes → Option ℕ
length_prefix (a ∷ b ∷ c ∷ d ∷ rest) = some (i32_from_le_bytes a b c d)
length_prefix raw = none

-- The codes of all error responses.
abbrev pub failure : String → OperationResponse
failure message = error_response 1 message

unfoldable pub to_error_response : MongoCoreError → OperationResponse
to_error_response e = failure (to_string e)

unfoldable pub index_options : Option String → Option Bool → Option IndexOptions
index_options name unique =
    if is_some name || is_some unique
    then some (record { name = name; unique = unique; sparse = none })
    else none

module _ (lib : Bson) where
  open lib use {Document, from_slice, to_vec}

  unfoldable pub parse_single_bson_doc : Bytes → Result Malformed Document
  parse_single_bson_doc raw =
      if ltb (length raw) 5 then err too_short else map_err unparsable (from_slice raw)

  -- The bytes from the offset on, with what their first four say.
  unfoldable pub parse_prefixed :
      (ℕ → Bytes → Result Malformed (List Document))
      → ℕ
      → Bytes
      → Option ℕ
      → Result Malformed (List Document)
  parse_prefixed next offset raw none = err incomplete_prefix
  parse_prefixed next offset raw (some len) =
      if ltb len 5
      then err invalid_length
      else if ltb (length raw) len
      then err beyond_buffer
      else (map_err (unparsable_at offset) (from_slice (take len raw)) >>= λ d.
          next (offset + len) (drop len raw) >>= λ docs. ok (d ∷ docs))

  -- `while offset < raw.len()`.
  unfoldable pub parse_from : ℕ → ℕ → Bytes → Result Malformed (List Document)
  parse_from fuel offset [] = ok []
  parse_from zero offset raw = err out_of_fuel
  parse_from (suc fuel) offset raw = parse_prefixed (parse_from fuel) offset raw (length_prefix raw)

  unfoldable pub parse_bson_docs : Bytes → Result Malformed (List Document)
  parse_bson_docs raw = parse_from (length raw) 0 raw

  module _ (driver : Driver lib) where
    open lib use {doc, string, boolean, array, get_document, new}
    open driver use {World, document, value_to_string, show}

    unfoldable pub display : Malformed → String
    display too_short = "raw document bytes too short"
    display incomplete_prefix = "incomplete BSON length prefix"
    display invalid_length = "invalid BSON document length"
    display beyond_buffer = "BSON document extends beyond buffer"
    display out_of_fuel = ""
    display (unparsable e) = str_append "failed to parse BSON document: " e
    display (unparsable_at offset e) =
        str_append "failed to parse BSON document at offset "
          (str_append (show offset) (str_append ": " e))

    -- The match on the result of an operation.
    unfoldable pub reply_with {ℓ} :
        {A : Type ℓ}
        → (A → OperationResponse)
        → Result MongoCoreError A × World
        → OperationResponse × World
    reply_with respond (ok a, w) = (respond a, w)
    reply_with respond (err e, w) = (to_error_response e, w)

    unfoldable pub serialized_as :
        String → (Bytes → OperationResponse) → Result String Bytes → OperationResponse
    serialized_as failed respond (ok raw) = respond raw
    serialized_as failed respond (err e) = failure (str_append failed e)

    -- `doc.map(|d| bson::to_vec(&d)).transpose()`.
    unfoldable pub single_response : Option Document → OperationResponse
    single_response none = single_doc true none
    single_response (some d) =
        serialized_as "failed to serialize document: " (λ raw. single_doc true (some raw))
          (to_vec d)

    unfoldable pub with_docs {ℓ} :
        {A : Type ℓ}
        → Result Malformed A
        → (A → World → OperationResponse × World)
        → World
        → OperationResponse × World
    with_docs (ok docs) next w = next docs w
    with_docs (err e) next w = (failure (display e), w)

    -- `inserted_ids.len() as u32`.
    unfoldable pub insert_parsed :
        String → String → List Document → World → OperationResponse × World
    insert_parsed db collection docs w =
        reply_with (λ ids. insert_many_result (length ids % 2 ^ 32))
          (insert_many lib driver db collection docs w)

    abbrev update_response : UpdateResult → OperationResponse
    update_response result = update_result result.matched_count result.modified_count

    -- The longer arms of the match.
    unfoldable pub create_index_reply :
        String → String → Document → Option String → Option Bool → World → OperationResponse × World
    create_index_reply db collection keys name unique w =
        reply_with index_result
          (create_index lib driver db collection keys (index_options name unique) w)

    unfoldable pub list_collections_reply : String → World → OperationResponse × World
    list_collections_reply db w =
        reply_with collections (as_operation_error lib driver (driver.list_collection_names db w))

    unfoldable pub create_collection_reply : String → String → World → OperationResponse × World
    create_collection_reply db name w =
        reply_with (λ _. single_doc true none) (create_collection lib driver db name w)

    unfoldable pub drop_collection_reply : String → String → World → OperationResponse × World
    drop_collection_reply db name w =
        reply_with (λ _. single_doc true none) (drop_collection lib driver db name w)

    unfoldable pub distinct_reply :
        String → String → String → Option Document → World → OperationResponse × World
    distinct_reply db collection field filter w =
        reply_with
          (λ values.
            serialized_as "failed to serialize distinct result: " command_result
              (to_vec (doc (("values", array values) ∷ []))))
          (as_operation_error lib driver
            (driver.distinct db collection field (unwrap_or new filter) w))

    unfoldable pub find_one_and_update_reply :
        String → String → (filter update : Document) → World → OperationResponse × World
    find_one_and_update_reply db collection filter change w =
        reply_with single_response (find_and_modify lib driver db collection filter change none w)

    unfoldable pub find_one_and_delete_reply :
        String → String → Document → World → OperationResponse × World
    find_one_and_delete_reply db collection filter w =
        reply_with (λ result. single_response (get_document result "value"))
          (run_command lib driver db
            (doc (
              ("findAndModify", string collection)
              ∷ ("query", document filter)
              ∷ ("remove", boolean true)
              ∷ []))
            default_mode w)

    unfoldable pub dispatch : OperationRequest Document → Bytes → World → OperationResponse × World
    dispatch (OperationRequest.handshake client_language) raw_docs w =
        (failure "Handshake must be handled via handle_handshake", w)
    dispatch (OperationRequest.find_one db collection filter projection) raw_docs w =
        reply_with single_response (find_one lib driver db collection filter w)
    dispatch (OperationRequest.find db collection filter options batch_size n) raw_docs w =
        reply_with (λ (count, doc_bytes). batch count doc_bytes)
          (find_raw lib driver db collection filter options w)
    dispatch (OperationRequest.insert_one db collection n) raw_docs w =
        with_docs (parse_single_bson_doc raw_docs)
          (λ d w'.
            reply_with (λ id. insert_one_result (value_to_string id))
              (insert lib driver db collection d w'))
          w
    dispatch (OperationRequest.insert_many db collection ordered n) raw_docs w =
        with_docs (parse_bson_docs raw_docs) (insert_parsed db collection) w
    dispatch (OperationRequest.update_one db collection filter change) raw_docs w =
        reply_with update_response (update lib driver db collection filter change w)
    dispatch (OperationRequest.update_many db collection filter change) raw_docs w =
        reply_with update_response (update_many lib driver db collection filter change w)
    dispatch (OperationRequest.delete_one db collection filter) raw_docs w =
        reply_with delete_result (delete lib driver db collection filter w)
    dispatch (OperationRequest.delete_many db collection filter) raw_docs w =
        reply_with delete_result (delete_many lib driver db collection filter w)
    dispatch (OperationRequest.aggregate db collection pipeline batch_size) raw_docs w =
        reply_with (λ (count, doc_bytes). batch count doc_bytes)
          (aggregate_raw lib driver db collection pipeline w)
    dispatch (OperationRequest.count_documents db collection filter) raw_docs w =
        reply_with count_result (count_documents lib driver db collection filter w)
    dispatch (OperationRequest.run_command db command) raw_docs w =
        reply_with
          (λ d. serialized_as "failed to serialize command result: " command_result (to_vec d))
          (run_command lib driver db command default_mode w)
    dispatch (OperationRequest.create_index db collection keys name unique) raw_docs w =
        create_index_reply db collection keys name unique w
    dispatch (OperationRequest.list_collections db) raw_docs w = list_collections_reply db w
    dispatch (OperationRequest.create_collection db name) raw_docs w =
        create_collection_reply db name w
    dispatch (OperationRequest.drop_collection db name) raw_docs w = drop_collection_reply db name w
    dispatch (OperationRequest.distinct db collection field filter) raw_docs w =
        distinct_reply db collection field filter w
    dispatch (OperationRequest.find_one_and_update db collection filter change) raw_docs w =
        find_one_and_update_reply db collection filter change w
    dispatch (OperationRequest.find_one_and_delete db collection filter) raw_docs w =
        find_one_and_delete_reply db collection filter w
    dispatch (OperationRequest.bulk_write db collection n ordered) raw_docs w =
        with_docs (parse_bson_docs raw_docs) (insert_parsed db collection) w
