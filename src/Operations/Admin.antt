-- ===== src/Operations/Admin.antt =====
-- src/operations/admin.rs, raw.rs and raw_validator.rs: collections, users, indexes, and commands
-- that are passed through.
pub mod Blocked
use Prim.Native.String.{◌++◌ as str_append}
use mongocore.Prelude.{
  ℕ, if◌then◌else◌, str_eq, String, Bool, true, false, List, [], ◌∷◌, Option, none, some, map,
  Result, ok, err, map_err,
}
use mongocore.Transport.Codec.{Bson}
use mongocore.Operations.Driver.{
  Driver, DriverError, Answer, MongoCoreError, operation_error, validation_error, from_driver,
  timed, IndexOptions, default_query_timeout,
}
use mongocore.Operations.Crud.{limited}
use mongocore.Compiled.Validator.{contains_str}

pub data ValidationMode : Type 0 where
  block_dangerous allow_all : ValidationMode

abbrev pub dangerous_commands : List String
dangerous_commands =
    "dropDatabase" ∷ "dropAllUsersFromDatabase" ∷ "dropAllRolesFromDatabase" ∷ "shutdown"
    ∷ "replSetReconfig" ∷ "replSetStepDown" ∷ "setFeatureCompatibilityVersion" ∷ "fsync"
    ∷ "cleanupOrphaned" ∷ "compact" ∷ []

abbrev pub blocked_message : String → String
blocked_message key = str_append "Command '" (str_append key "' is blocked by validation policy")

-- `for key in command.keys()`.
unfoldable pub check_keys : List String → Result MongoCoreError (Unit {0})
check_keys [] = ok tt
check_keys (key ∷ rest) =
    if contains_str dangerous_commands key
    then err (validation_error (blocked_message key))
    else check_keys rest

unfoldable pub validate_keys : List String → ValidationMode → Result MongoCoreError (Unit {0})
validate_keys keys allow_all = ok tt
validate_keys keys block_dangerous = check_keys keys

-- `RawCommandOptions::default`.
abbrev pub default_mode : ValidationMode
default_mode = block_dangerous

module _ (lib : Bson) (driver : Driver lib) where
  open lib use {Document, Value, doc, i32, string, array}
  open driver use {World, keys, document}

  unfoldable pub validate_command : Document → ValidationMode → Result MongoCoreError (Unit {0})
  validate_command command mode = validate_keys (keys command) mode

  -- `map_err(|e| MongoCoreError::OperationError(e.to_string()))`.
  unfoldable pub as_operation_error {ℓ} :
      {A : Type ℓ} → Result DriverError A × World → Result MongoCoreError A × World
  as_operation_error (result, w) = (map_err (λ e. operation_error e.message) result, w)

  unfoldable pub run_validated :
      String
      → Document
      → World
      → Result MongoCoreError (Unit {0})
      → Result MongoCoreError Document × World
  run_validated database command w (err e) = (err e, w)
  run_validated database command w (ok tt) =
      as_operation_error (driver.run_command database command w)

  unfoldable pub run_command :
      String → Document → ValidationMode → World → Result MongoCoreError Document × World
  run_command database command mode w =
      run_validated database command w (validate_command command mode)

  unfoldable pub create_collection :
      String → String → World → Result MongoCoreError (Unit {0}) × World
  create_collection db name w =
      limited lib driver "create_collection operation timed out"
        (driver.create_collection default_query_timeout db name w)

  unfoldable pub drop_collection :
      String → String → World → Result MongoCoreError (Unit {0}) × World
  drop_collection db name w =
      limited lib driver "drop_collection operation timed out"
        (driver.drop_collection default_query_timeout db name w)

  unfoldable pub create_index :
      String
      → String
      → Document
      → Option IndexOptions
      → World
      → Result MongoCoreError String × World
  create_index db collection keys none w = limited lib driver "create_index operation timed out" (
      driver.create_index default_query_timeout db collection keys
        (record { name = none; unique = none; sparse = none }) w)
  create_index db collection keys (some opts) w =
      limited lib driver "create_index operation timed out"
        (driver.create_index default_query_timeout db collection keys opts w)

  unfoldable pub succeeded {ℓ} : {A : Type ℓ} → Answer A → Answer (Unit {0})
  succeeded none = none
  succeeded (some (err e)) = some (err e)
  succeeded (some (ok a)) = some (ok tt)

  unfoldable pub command_only :
      String → String → Document → World → Result MongoCoreError (Unit {0}) × World
  command_only what db cmd w =
      let (answer, w') = driver.run_command_within default_query_timeout db cmd w in
      limited lib driver what (succeeded answer, w')

  unfoldable pub create_database : String → World → Result MongoCoreError (Unit {0}) × World
  create_database db w =
      command_only "create_database operation timed out" db (doc (("ping", i32 1) ∷ [])) w

  unfoldable pub create_user :
      String
      → (username password : String) → List Document
      → World
      → Result MongoCoreError (Unit {0}) × World
  create_user db username password roles w =
      command_only "create_user operation timed out" db
        (doc (
          ("createUser", string username)
          ∷ ("pwd", string password)
          ∷ ("roles", array (map document roles))
          ∷ []))
        w
