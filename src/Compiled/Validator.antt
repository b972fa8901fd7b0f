-- ===== src/Compiled/Validator.antt =====
-- src/compiled/validator.rs: which filters and aggregation pipelines may run.
pub mod Keys
use mongocore.Prelude.{
  ℕ, suc, if◌then◌else◌, not, String, str_eq, Bool, true, false, ◌||◌, List, [], ◌∷◌, Option, none,
  some, Result, ok, err, ◌>>=◌,
}

-- A `bson::Document` in its order, as far as the validator looks into it.
mutual
  pub data Item : Type 0 where
    document : Fields → Item
    array : Items → Item
    scalar : Item

  pub data Items : Type 0 where
    nil : Items
    cons : Item → Items → Items

  pub data Fields : Type 0 where
    end : Fields
    field : (key : String) → Item → Fields → Fields

pub data Rejection : Type 0 where
  dangerous : (key : String) → Rejection
  empty_stage : (position : ℕ) → Rejection
  blocked_stage unknown_stage : (name : String) (position : ℕ) → Rejection

abbrev pub allowed_stages : List String
allowed_stages =
    "$match" ∷ "$project" ∷ "$sort" ∷ "$limit" ∷ "$skip" ∷ "$group" ∷ "$lookup" ∷ "$unwind"
    ∷ "$vectorSearch" ∷ "$search" ∷ "$count" ∷ "$addFields" ∷ "$set" ∷ []

abbrev pub blocked_stages : List String
blocked_stages =
    "$out" ∷ "$merge" ∷ "$collStats" ∷ "$currentOp" ∷ "$listSessions" ∷ "$planCacheStats" ∷ []

abbrev pub dangerous_operators : List String
dangerous_operators = "$where" ∷ "$function" ∷ "$accumulator" ∷ []

unfoldable pub contains_str : List String → String → Bool
contains_str [] s = false
contains_str (t ∷ ts) s = str_eq t s || contains_str ts s

-- `check_dangerous_operators`. Of an array it looks into the documents, not into further arrays.
unfoldable mutual
  pub check_fields : Fields → Result Rejection (Unit {0})
  check_fields end = ok tt
  check_fields (field key value rest) =
      if contains_str dangerous_operators key
      then err (dangerous key)
      else (check_item value >>= λ _. check_fields rest)

  pub check_item : Item → Result Rejection (Unit {0})
  check_item (document nested) = check_fields nested
  check_item (array items) = check_items items
  check_item scalar = ok tt

  pub check_items : Items → Result Rejection (Unit {0})
  check_items nil = ok tt
  check_items (cons (document nested) rest) = check_fields nested >>= λ _. check_items rest
  check_items (cons (array items) rest) = check_items rest
  check_items (cons scalar rest) = check_items rest

unfoldable pub validate_filter : Fields → Result Rejection (Unit {0})
validate_filter filter = check_fields filter

abbrev pub stage_name : Fields → Option String
stage_name end = none
stage_name (field key value rest) = some key

unfoldable pub check_stage : ℕ → Fields → Result Rejection (Unit {0})
check_stage i stage = elim (stage_name stage) [
  | none ↦ err (empty_stage i)
  | some name ↦
      if contains_str blocked_stages name
      then err (blocked_stage name i)
      else if not (contains_str allowed_stages name)
      then err (unknown_stage name i)
      else check_fields stage
]

-- `for (i, stage) in pipeline.iter().enumerate()`.
unfoldable pub check_stages : ℕ → List Fields → Result Rejection (Unit {0})
check_stages i [] = ok tt
check_stages i (stage ∷ rest) = check_stage i stage >>= λ _. check_stages (suc i) rest

unfoldable pub validate_stages : List Fields → Result Rejection (Unit {0})
validate_stages pipeline = check_stages 0 pipeline
