-- ===== src/Transport/Codec/Parse/Agreement.antt =====
-- What a parsed request says of the envelope and the opcode it came from.
use mongocore.Prelude.{
  Bytes, String, ◌≡◌, ◌⊎◌, inl, inr, ◌≢◌, refl, Option, none, some, ok, err, map_err, >>=-eq-ok,
  map_err-eq-ok, arith,
}
use mongocore.Transport.Flags.{Opcode}
use mongocore.Transport.Codec.{Bson, OperationRequest, invalid_bson, missing_field}
use mongocore.Transport.Codec.Parse.{
  parse_document, parse_envelope, get_required_str, get_required_doc,
}

-- The opcode that a request stands for.
abbrev pub request_opcode : {Document : Type 0} → OperationRequest Document → Opcode
request_opcode (OperationRequest.handshake _) = Opcode.handshake
request_opcode (OperationRequest.find_one _ _ _ _) = Opcode.find_one
request_opcode (OperationRequest.find _ _ _ _ _ _) = Opcode.find
request_opcode (OperationRequest.insert_one _ _ _) = Opcode.insert_one
request_opcode (OperationRequest.insert_many _ _ _ _) = Opcode.insert_many
request_opcode (OperationRequest.update_one _ _ _ _) = Opcode.update_one
request_opcode (OperationRequest.update_many _ _ _ _) = Opcode.update_many
request_opcode (OperationRequest.delete_one _ _ _) = Opcode.delete_one
request_opcode (OperationRequest.delete_many _ _ _) = Opcode.delete_many
request_opcode (OperationRequest.aggregate _ _ _ _) = Opcode.aggregate
request_opcode (OperationRequest.count_documents _ _ _) = Opcode.count_documents
request_opcode (OperationRequest.run_command _ _) = Opcode.run_command
request_opcode (OperationRequest.create_index _ _ _ _ _) = Opcode.create_index
request_opcode (OperationRequest.list_collections _) = Opcode.list_collections
request_opcode (OperationRequest.create_collection _ _) = Opcode.create_collection
request_opcode (OperationRequest.drop_collection _ _) = Opcode.drop_collection
request_opcode (OperationRequest.distinct _ _ _ _) = Opcode.distinct
request_opcode (OperationRequest.find_one_and_update _ _ _ _) = Opcode.find_one_and_update
request_opcode (OperationRequest.find_one_and_delete _ _ _) = Opcode.find_one_and_delete
request_opcode (OperationRequest.bulk_write _ _ _ _) = Opcode.bulk_write

-- The database that a request names.
abbrev pub request_db : {Document : Type 0} → OperationRequest Document → Option String
request_db (OperationRequest.handshake _) = none
request_db (OperationRequest.find_one db _ _ _) = some db
request_db (OperationRequest.find db _ _ _ _ _) = some db
request_db (OperationRequest.insert_one db _ _) = some db
request_db (OperationRequest.insert_many db _ _ _) = some db
request_db (OperationRequest.update_one db _ _ _) = some db
request_db (OperationRequest.update_many db _ _ _) = some db
request_db (OperationRequest.delete_one db _ _) = some db
request_db (OperationRequest.delete_many db _ _) = some db
request_db (OperationRequest.aggregate db _ _ _) = some db
request_db (OperationRequest.count_documents db _ _) = some db
request_db (OperationRequest.run_command db _) = some db
request_db (OperationRequest.create_index db _ _ _ _) = some db
request_db (OperationRequest.list_collections db) = some db
request_db (OperationRequest.create_collection db _) = some db
request_db (OperationRequest.drop_collection db _) = some db
request_db (OperationRequest.distinct db _ _ _) = some db
request_db (OperationRequest.find_one_and_update db _ _ _) = some db
request_db (OperationRequest.find_one_and_delete db _ _) = some db
request_db (OperationRequest.bulk_write db _ _ _) = some db

handshake_or_not : (op : Opcode) → (op ≡ Opcode.handshake) ⊎ (op ≢ Opcode.handshake)
handshake_or_not Opcode.handshake = inl refl
handshake_or_not _ = inr (λ e. cc e)

module _ (lib : Bson) where
  open lib use {Document, from_slice, get_str}

  parse_document-opcode :
      (d : Document) (op : Opcode) (req : OperationRequest Document)
      → parse_document lib d op ≡ ok req
      → request_opcode req ≡ op
  unfolding parse_document get_required_str get_required_doc
  parse_document-opcode d Opcode.handshake req h = ground arith
  parse_document-opcode d _ req h = ground arith

  -- Every request but the handshake names the database of its envelope.
  parse_document-db :
      (d : Document) (op : Opcode) (req : OperationRequest Document)
      → op ≢ Opcode.handshake
      → parse_document lib d op ≡ ok req
      → request_db req ≡ get_str d "db"
  unfolding parse_document get_required_str get_required_doc
  parse_document-db d Opcode.handshake req n h = ground arith
  parse_document-db d _ req n h = ground arith

  -- An accepted envelope is a document, gives a request of the frame's own opcode, and, unless that
  -- is the handshake, a request for the database that the document names.
  pub parse_envelope-agrees :
      (bytes : Bytes) (op : Opcode) (req : OperationRequest Document)
      → parse_envelope lib bytes op ≡ ok req
      → (d : Document) × (from_slice bytes ≡ ok d)
        × (request_opcode req ≡ op)
        × ((op ≡ Opcode.handshake) ⊎ (request_db req ≡ get_str d "db"))
  unfolding parse_envelope
  parse_envelope-agrees bytes op req h =
      let (d, parsed, arm) = >>=-eq-ok (map_err invalid_bson (from_slice bytes)) _ h in
      (
        d,
        map_err-eq-ok invalid_bson _ parsed,
        parse_document-opcode d op req arm,
        elim (handshake_or_not op) [
          | inl e ↦ inl e
          | inr n ↦ inr (parse_document-db d op req n arm)
        ],
      )

  -- A request other than a handshake is refused for want of a database, by that name.
  parse_envelope_no_db :
      (bytes : Bytes) (d : Document) (op : Opcode)
      → from_slice bytes ≡ ok d
      → op ≢ Opcode.handshake
      → op ≢ Opcode.error
      → get_str d "db" ≡ none
      → parse_envelope lib bytes op ≡ err (missing_field "db")
  unfolding parse_envelope
  parse_envelope_no_db bytes d op e n₁ n₂ missing = rw e (arm op n₁ n₂)
    where
      arm :
          (op : Opcode)
          → op ≢ Opcode.handshake
          → op ≢ Opcode.error
          → parse_document lib d op ≡ err (missing_field "db")
      arm Opcode.handshake n₁ n₂ = absurd (n₁ refl)
      arm Opcode.error n₁ n₂ = absurd (n₂ refl)
      arm _ n₁ n₂ = unfold parse_document get_required_str in rw missing
