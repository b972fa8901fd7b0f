-- ===== src/Transport/Codec/Encode.antt =====
-- src/transport/codec.rs: `encode_response`.
pub mod Length
use mongocore.Prelude.{
  ℕ, ◌%◌, ◌^◌, Bytes, String, List, [], ◌∷◌, map, length, Option, unwrap_or, Result, ok, map_err,
  ◌>>=◌,
}
use mongocore.Transport.Codec.{
  Bson, CodecError, invalid_bson, OperationResponse, handshake_response, single_doc, batch,
  insert_one_result, insert_many_result, update_result, delete_result, count_result, index_result,
  collections, command_result, error_response, shutdown,
}

module _ (lib : Bson) where
  open lib use {Document, Value, to_vec, i32, i64, string, boolean, array, doc}

  -- `len() as i32`, as a bit pattern.
  abbrev pub len_as_i32 : Bytes → ℕ
  len_as_i32 bytes = length bytes % 2 ^ 32

  -- The envelope with the raw bytes that go beside it, before the envelope is serialized.
  unfoldable pub response_parts : OperationResponse → Document × Bytes
  response_parts (handshake_response max_frame_size max_concurrent) = (
    doc (
        ("max_frame_size", i32 max_frame_size)
        ∷ ("max_concurrent", i32 max_concurrent)
        ∷ ("doc_bytes_len", i32 0)
        ∷ []),
    [],
  )
  response_parts (single_doc is_ok raw_doc) =
      let raw = unwrap_or [] raw_doc in
      (doc (("ok", boolean is_ok) ∷ ("doc_bytes_len", i32 (len_as_i32 raw)) ∷ []), raw)
  response_parts (batch count doc_bytes) =
      (doc (("count", i32 count) ∷ ("doc_bytes_len", i32 (len_as_i32 doc_bytes)) ∷ []), doc_bytes)
  response_parts (insert_one_result inserted_id) =
      (doc (("inserted_id", string inserted_id) ∷ ("doc_bytes_len", i32 0) ∷ []), [])
  response_parts (insert_many_result inserted_count) =
      (doc (("inserted_count", i32 inserted_count) ∷ ("doc_bytes_len", i32 0) ∷ []), [])
  response_parts (update_result matched_count modified_count) = (
    doc (
        ("matched_count", i64 matched_count)
        ∷ ("modified_count", i64 modified_count)
        ∷ ("doc_bytes_len", i32 0)
        ∷ []),
    [],
  )
  response_parts (delete_result deleted_count) =
      (doc (("deleted_count", i64 deleted_count) ∷ ("doc_bytes_len", i32 0) ∷ []), [])
  response_parts (count_result count) =
      (doc (("count", i64 count) ∷ ("doc_bytes_len", i32 0) ∷ []), [])
  response_parts (index_result name) =
      (doc (("name", string name) ∷ ("doc_bytes_len", i32 0) ∷ []), [])
  response_parts (collections names) =
      (doc (("names", array (map string names)) ∷ ("doc_bytes_len", i32 0) ∷ []), [])
  response_parts (command_result raw_doc) =
      (doc (("doc_bytes_len", i32 (len_as_i32 raw_doc)) ∷ []), raw_doc)
  response_parts (error_response code message) =
      (doc (("code", i32 code) ∷ ("message", string message) ∷ ("doc_bytes_len", i32 0) ∷ []), [])
  response_parts (shutdown drain_ms) =
      (doc (("drain_ms", i32 drain_ms) ∷ ("doc_bytes_len", i32 0) ∷ []), [])

  unfoldable pub encode_response : OperationResponse → Result CodecError (Bytes × Bytes)
  encode_response response = do
    let (envelope_doc, raw_bytes) = response_parts response
    envelope_bytes ← map_err invalid_bson (to_vec envelope_doc)
    ok (envelope_bytes, raw_bytes)
