-- ===== src/Mcp/Safety.antt =====
-- src/mcp/safety.rs and session.rs: what an agent may call in read-only mode, and the record of what
-- it has called. An operation of a pipeline is its `op` field, where that is a string; time stamps are
-- left out.
pub mod ReadOnly
use Prim.Native.String.{◌++◌ as str_append}
use mongocore.Prelude.{
  ℕ, suc, ◌-◌, ◌≤◌, leb, not, if◌then◌else◌, String, Bool, true, false, List, [], ◌∷◌, ◌++◌, length,
  is_empty, get_elem?, Option, none, some, Result, ok, err,
}
use mongocore.Compiled.Validator.{contains_str}

pub record SafetyConfig : Type 0 where
  pub read_only : Bool
  pub max_documents : ℕ

abbrev pub default_config : SafetyConfig
default_config = record { read_only = false; max_documents = 100 }

abbrev pub write_tools : List String
write_tools =
    "insert" ∷ "insert_many" ∷ "update" ∷ "update_many" ∷ "delete" ∷ "delete_many"
    ∷ "create_collection" ∷ "create_index" ∷ "run_command" ∷ "transaction_pipeline" ∷ []

abbrev pub write_ops : List String
write_ops =
    "insert" ∷ "insert_many" ∷ "update" ∷ "update_many" ∷ "delete" ∷ "delete_many"
    ∷ "create_collection" ∷ "create_index" ∷ "run_command" ∷ "find_and_modify" ∷ []

unfoldable pub check_tool_allowed : SafetyConfig → String → Result String (Unit {0})
check_tool_allowed c tool_name =
    if c.read_only
    then (if contains_str write_tools tool_name
        then err
            (str_append "Tool '" (str_append tool_name "' is blocked: server is in read-only mode"))
        else ok tt)
    else ok tt

-- An operation that writes, by its place and its name.
pub record Violation : Type 0 where
  pub index : ℕ
  pub op_type : String

unfoldable pub violations_from : ℕ → List (Option String) → List Violation
violations_from i [] = []
violations_from i (none ∷ operations) = violations_from (suc i) operations
violations_from i (some op_type ∷ operations) =
    let rest = violations_from (suc i) operations in
    if contains_str write_ops op_type then record { index = i; op_type = op_type } ∷ rest else rest

-- The error carries the violations that its message lists.
unfoldable pub check_pipeline_allowed :
    SafetyConfig → List (Option String) → Result (List Violation) (Unit {0})
check_pipeline_allowed c operations =
    if not c.read_only
    then ok tt
    else (let violations = violations_from 0 operations in
        if is_empty violations then ok tt else err violations)

abbrev pub excluded_tools : List String
excluded_tools = "explain_last" ∷ "explain_session" ∷ "get_analytics" ∷ "collection_schema" ∷ []

unfoldable pub should_record : String → Bool
should_record tool_name = not (contains_str excluded_tools tool_name)

module _ (Value : Type 0) where
  pub record OperationRecord : Type 0 where
    pub index : ℕ
    pub tool_name : String
    pub params : Value
    pub context : Value
    pub success : Bool
    pub error_message : Option String

  abbrev pub SessionRecorder : Type 0
  SessionRecorder = List OperationRecord

  unfoldable pub record_call :
      String → (params context : Value) → Bool → Option String → SessionRecorder → SessionRecorder
  record_call tool_name params context success error_message operations =
      operations
      ++ record {
        index = length operations;
        tool_name = tool_name;
        params = params;
        context = context;
        success = success;
        error_message = error_message;
      }
        ∷ []

  unfoldable pub get_last : ℕ → SessionRecorder → Option OperationRecord
  get_last offset operations =
      if leb (length operations) offset
      then none
      else get_elem? operations (length operations - 1 - offset)
