-- ===== src/Transport/Codec.antt =====
-- src/transport/codec.rs: requests and responses, and the BSON library that they rest on.
pub mod Parse
pub mod Encode
use mongocore.Prelude.{
  ℕ, ◌==◌, str_eq, Bytes, String, Bool, ◌≡◌, List, [], ◌∷◌, Option, none, some, Result, ok, or_else,
  if◌then◌else◌,
}

pub data CodecError : Type 0 where
  missing_field : String → CodecError
  invalid_bson : String → CodecError

-- The later of two fields of one name counts.
abbrev pub last_field {ℓ} : {V : Type ℓ} → String → List (String × V) → Option V
last_field k [] = none
last_field k ((j, v) ∷ m) = or_else (last_field k m) (if str_eq j k then some v else none)

abbrev pub and_then {ℓ κ} : {A : Type ℓ} {B : Type κ} → Option A → (A → Option B) → Option B
and_then none f = none
and_then (some a) f = f a

-- The `bson` crate. Integers are bit patterns; a getter answers `none` where the crate returns an
-- error, for a missing key and for a value of another type alike.
pub record Bson : Type 1 where
  pub Document : Type 0
  pub Value : Type 0
  pub new : Document
  pub from_slice : Bytes → Result String Document
  pub to_vec : Document → Result String Bytes
  pub get_str : Document → String → Option String
  pub get_document : Document → String → Option Document
  pub get_i32 : Document → String → Option ℕ
  pub get_i64 : Document → String → Option ℕ
  pub get_bool : Document → String → Option Bool
  pub get_array : Document → String → Option (List Value)
  pub as_document : Value → Option Document
  pub as_i32 : Value → Option ℕ
  pub i32 : ℕ → Value
  pub i64 : ℕ → Value
  pub string : String → Value
  pub boolean : Bool → Value
  pub array : List Value → Value
  -- The `doc!` macro.
  pub doc : List (String × Value) → Document
  pub as_i32-i32 : (n : ℕ) → as_i32 (i32 n) ≡ some n
  pub get_i32-doc :
      (fields : List (String × Value)) (k : String)
      → get_i32 (doc fields) k ≡ and_then (last_field k fields) as_i32
  pub from_slice-to_vec :
      (d : Document) (bytes : Bytes) → to_vec d ≡ ok bytes → from_slice bytes ≡ ok d

-- `FindOptions` of src/operations/crud.rs.
pub record FindOptions (Document : Type 0) : Type 0 where
  pub limit : Option ℕ
  pub skip : Option ℕ
  pub sort : Option Document
  pub projection : Option Document

pub data OperationRequest (Document : Type 0) : Type 0 where
  handshake : (client_language : String) → OperationRequest Document
  find_one :
      (db collection : String) (filter : Document) (projection : Option Document)
      → OperationRequest Document
  find :
      (db collection : String) (filter : Document) (options : Option (FindOptions Document))
      (batch_size : Option ℕ) (doc_bytes_len : ℕ)
      → OperationRequest Document
  insert_one : (db collection : String) (doc_bytes_len : ℕ) → OperationRequest Document
  insert_many :
      (db collection : String) (ordered : Bool) (doc_bytes_len : ℕ) → OperationRequest Document
  update_one : (db collection : String) (filter update : Document) → OperationRequest Document
  update_many : (db collection : String) (filter update : Document) → OperationRequest Document
  delete_one : (db collection : String) (filter : Document) → OperationRequest Document
  delete_many : (db collection : String) (filter : Document) → OperationRequest Document
  aggregate :
      (db collection : String) (pipeline : List Document) (batch_size : Option ℕ)
      → OperationRequest Document
  count_documents : (db collection : String) (filter : Document) → OperationRequest Document
  run_command : (db : String) (command : Document) → OperationRequest Document
  create_index :
      (db collection : String) (keys : Document) (name : Option String) (unique : Option Bool)
      → OperationRequest Document
  list_collections : (db : String) → OperationRequest Document
  create_collection : (db name : String) → OperationRequest Document
  drop_collection : (db name : String) → OperationRequest Document
  distinct : (db collection field : String) (filter : Option Document) → OperationRequest Document
  find_one_and_update :
      (db collection : String) (filter update : Document) → OperationRequest Document
  find_one_and_delete : (db collection : String) (filter : Document) → OperationRequest Document
  bulk_write :
      (db collection : String) (doc_bytes_len : ℕ) (ordered : Bool) → OperationRequest Document

pub data OperationResponse : Type 0 where
  handshake_response : (max_frame_size max_concurrent : ℕ) → OperationResponse
  single_doc : (is_ok : Bool) (document : Option Bytes) → OperationResponse
  batch : (count : ℕ) (doc_bytes : Bytes) → OperationResponse
  insert_one_result : (inserted_id : String) → OperationResponse
  insert_many_result : (inserted_count : ℕ) → OperationResponse
  update_result : (matched_count modified_count : ℕ) → OperationResponse
  delete_result : (deleted_count : ℕ) → OperationResponse
  count_result : (count : ℕ) → OperationResponse
  index_result : (name : String) → OperationResponse
  collections : (names : List String) → OperationResponse
  command_result : (document : Bytes) → OperationResponse
  error_response : (code : ℕ) (message : String) → OperationResponse
  shutdown : (drain_ms : ℕ) → OperationResponse
