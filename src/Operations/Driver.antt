-- ===== src/Operations/Driver.antt =====
-- The MongoDB driver as src/operations calls it, and src/error.rs with the conversion of its errors.
-- A call answers `none` where the time limit, in seconds, runs out before its result is complete.
use Prim.Native.String.{◌++◌ as str_append}
use mongocore.Prelude.{ℕ, Bytes, String, Bool, List, Option, none, some, Result, ok, err}
use mongocore.Transport.Codec.{Bson, FindOptions}

pub data MongoCoreError : Type 0 where
  config_error connection_error operation_error validation_error timeout_error ingestion_error :
      (message : String) → MongoCoreError
  transaction_pipeline_error : (message : String) → MongoCoreError

-- The display of the errors.
unfoldable pub to_string : MongoCoreError → String
to_string (config_error message) = str_append "Configuration error: " message
to_string (connection_error message) = str_append "Connection error: " message
to_string (operation_error message) = str_append "Operation error: " message
to_string (validation_error message) = str_append "Validation error: " message
to_string (timeout_error message) = str_append "Timeout error: " message
to_string (ingestion_error message) = str_append "Ingestion error: " message
to_string (transaction_pipeline_error message) = str_append "Transaction pipeline error: " message

-- The kinds that the conversion tells apart.
pub data ErrorKind : Type 0 where
  authentication server_selection dns_resolve write command bulk_write io other_kind : ErrorKind

pub record DriverError : Type 0 where
  pub kind : ErrorKind
  pub message : String

unfoldable pub of_kind : ErrorKind → String → MongoCoreError
of_kind authentication msg = connection_error msg
of_kind server_selection msg = connection_error msg
of_kind dns_resolve msg = connection_error msg
of_kind write msg = operation_error msg
of_kind command msg = operation_error msg
of_kind bulk_write msg = operation_error msg
of_kind io msg = timeout_error msg
of_kind other_kind msg = operation_error msg

unfoldable pub from_driver : DriverError → MongoCoreError
from_driver e = of_kind e.kind e.message

abbrev pub default_query_timeout : ℕ
default_query_timeout = 30

-- `mongodb::options::IndexOptions`, as far as it is set, and `FindOneAndUpdateOptions`.
pub record IndexOptions : Type 0 where
  pub name : Option String
  pub unique : Option Bool
  pub sparse : Option Bool

pub data ReturnDocumentOption : Type 0 where
  before after : ReturnDocumentOption

pub record FindAndModifyOptions (Document : Type 0) : Type 0 where
  pub return_document : ReturnDocumentOption
  pub upsert : Bool
  pub sort : Option Document

pub record UpdateResult : Type 0 where
  pub matched_count : ℕ
  pub modified_count : ℕ

abbrev pub Answer {ℓ} : Type ℓ → Type ℓ
Answer A = Option (Result DriverError A)

-- A cursor is what its reads give, in order.
pub record Driver (lib : Bson) : Type 1 where
  pub World : Type 0
  pub find_raw :
      ℕ
      → String
      → String
      → Bson.Document lib
      → Option (FindOptions (Bson.Document lib))
      → World
      → Answer (List (Result DriverError Bytes)) × World
  pub find :
      ℕ
      → String
      → String
      → Bson.Document lib
      → Option (FindOptions (Bson.Document lib))
      → World
      → Answer (List (Result DriverError (Bson.Document lib))) × World
  pub find_one :
      ℕ → String → String → Bson.Document lib → World → Answer (Option (Bson.Document lib)) × World
  pub insert_one : ℕ → String → String → Bson.Document lib → World → Answer (Bson.Value lib) × World
  pub insert_many :
      ℕ
      → String
      → String
      → List (Bson.Document lib)
      → World
      → Answer (List (Bson.Value lib)) × World
  pub update_one :
      ℕ
      → String
      → String
      → (filter update : Bson.Document lib) → World
      → Answer UpdateResult × World
  pub update_many :
      ℕ
      → String
      → String
      → (filter update : Bson.Document lib) → World
      → Answer UpdateResult × World
  pub delete_one : ℕ → String → String → Bson.Document lib → World → Answer ℕ × World
  pub delete_many : ℕ → String → String → Bson.Document lib → World → Answer ℕ × World
  pub count_documents : ℕ → String → String → Bson.Document lib → World → Answer ℕ × World
  pub find_one_and_update :
      ℕ
      → String
      → String
      → (filter update : Bson.Document lib) → FindAndModifyOptions (Bson.Document lib)
      → World
      → Answer (Option (Bson.Document lib)) × World
  -- The flag asks for the local read concern.
  pub aggregate :
      ℕ
      → Bool
      → String
      → String
      → List (Bson.Document lib)
      → World
      → Answer (List (Result DriverError (Bson.Document lib))) × World
  pub create_collection : ℕ → String → String → World → Answer (Unit {0}) × World
  pub drop_collection : ℕ → String → String → World → Answer (Unit {0}) × World
  pub create_index :
      ℕ
      → String
      → String
      → (keys : Bson.Document lib) → IndexOptions
      → World
      → Answer String × World
  -- The next three have no time limit of their own.
  pub run_command :
      String → Bson.Document lib → World → Result DriverError (Bson.Document lib) × World
  pub list_collection_names : String → World → Result DriverError (List String) × World
  pub distinct :
      String
      → String
      → String
      → Bson.Document lib
      → World
      → Result DriverError (List (Bson.Value lib)) × World
  pub run_command_within :
      ℕ → String → Bson.Document lib → World → Answer (Bson.Document lib) × World
  -- `Error::custom`.
  pub custom : String → DriverError
  -- Of documents and values, beside what the codec uses.
  pub keys : Bson.Document lib → List String
  pub document : Bson.Document lib → Bson.Value lib
  pub contains_key : Bson.Document lib → String → Bool
  pub value_to_string : Bson.Value lib → String
  -- `to_string` of a `usize`.
  pub show : ℕ → String

-- `timeout(..).await.map_err(..)??`.
unfoldable pub timed {ℓ} : {A : Type ℓ} → String → Answer A → Result MongoCoreError A
timed what none = err (timeout_error what)
timed what (some (err e)) = err (from_driver e)
timed what (some (ok a)) = ok a
