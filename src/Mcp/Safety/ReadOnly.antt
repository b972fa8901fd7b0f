-- ===== src/Mcp/Safety/ReadOnly.antt =====
-- ReadOnly: what passes in read-only mode, and what the record gives back.
use mongocore.Prelude.{
  ℕ, zero, suc, ◌-◌, ◌<◌, leb, ◌≡◌, refl, ◌↔◌, Bool, true, false, Bool-cases, inl, inr, ◌⊎◌, String,
  List, [], ◌∷◌, ◌++◌, length, length-append, is_empty, get_elem?, Option, none, some, ok, All,
  arith,
}
use mongocore.Compiled.Validator.{contains_str}
use mongocore.Mcp.Safety.{
  SafetyConfig, write_ops, violations_from, check_pipeline_allowed, OperationRecord,
  SessionRecorder, record_call, get_last,
}

-- An operation without a name, or with one that does not write.
abbrev pub IsReading : Option String → Type 0
IsReading none = Unit
IsReading (some op_type) = contains_str write_ops op_type ≡ false

All-violations_from :
    (i : ℕ) (operations : List (Option String))
    → is_empty (violations_from i operations) ≡ true
    → All IsReading operations
unfolding violations_from
All-violations_from i [] h = tt
All-violations_from i (none ∷ operations) h = (tt, All-violations_from (suc i) operations h)
All-violations_from i (some op ∷ operations) h = elim (Bool-cases (contains_str write_ops op)) [
  | inl e ↦ cc (rw e at h)
  | inr e ↦ (e, All-violations_from (suc i) operations (rw e at h))
]

violations_from-All :
    (i : ℕ) (operations : List (Option String))
    → All IsReading operations
    → is_empty (violations_from i operations) ≡ true
unfolding violations_from
violations_from-All i [] h = refl
violations_from-All i (none ∷ operations) h = violations_from-All (suc i) operations h.1
violations_from-All i (some op ∷ operations) h = rw h.0 (violations_from-All (suc i) operations h.1)

-- A pipeline is allowed exactly if the server is not in read-only mode, or no operation that has a
-- name is one that writes.
check_pipeline_allowed_iff :
    (c : SafetyConfig) (operations : List (Option String))
    → (check_pipeline_allowed c operations ≡ ok tt)
      ↔ ((c.read_only ≡ false) ⊎ All IsReading operations)
unfolding check_pipeline_allowed
check_pipeline_allowed_iff c operations = (
  λ h. elim (Bool-cases c.read_only) [
    | inr off ↦ inl off
    | inl on ↦ elim (Bool-cases (is_empty (violations_from 0 operations))) [
      | inl clean ↦ inr (All-violations_from 0 operations clean)
      | inr dirty ↦ cc (rw (on, dirty) at h)
    ]
  ],
  λ h. elim h [
    | inl off ↦ rw off refl
    | inr reading ↦ elim (Bool-cases c.read_only) [
      | inr off ↦ rw off refl
      | inl on ↦ rw (on, violations_from-All 0 operations reading) refl
    ]
  ],
)

get_elem?-at_end :
    {A : Type 0} (xs : List A) (a : A) → get_elem? (xs ++ a ∷ []) (length xs) ≡ some a
get_elem?-at_end [] a = refl
get_elem?-at_end (x ∷ xs) a = get_elem?-at_end xs a

get_elem?-before_end :
    {A : Type 0} (xs : List A) (a : A) (i : ℕ)
    → i < length xs
    → get_elem? (xs ++ a ∷ []) i ≡ get_elem? xs i
get_elem?-before_end [] a i h = absurd (omega arith)
get_elem?-before_end (x ∷ xs) a zero h = refl
get_elem?-before_end (x ∷ xs) a (suc i) h = get_elem?-before_end xs a i (omega arith)

module _ (Value : Type 0) where
  -- The last call of the record is the one that was recorded last, and the calls before it are the
  -- calls of the earlier record, at every offset, also at those that it does not reach.
  pub get_last-record_call :
      (tool_name : String) (params context : Value) (success : Bool) (message : Option String)
      (operations : SessionRecorder Value) (offset : ℕ)
      → (get_last Value 0 (record_call Value tool_name params context success message operations)
          ≡ some (record {
            index = length operations;
            tool_name = tool_name;
            params = params;
            context = context;
            success = success;
            error_message = message;
          }))
        × (get_last Value
              (suc offset)
              (record_call Value tool_name params context success message operations)
            ≡ get_last Value offset operations)
  unfolding record_call get_last
  get_last-record_call tool_name params context success message operations offset =
      let r : OperationRecord Value = record {
        index = length operations;
        tool_name = tool_name;
        params = params;
        context = context;
        success = success;
        error_message = message;
      } in
      let size = length-append operations (r ∷ []) in
      let some_call : leb (length (operations ++ r ∷ [])) 0 ≡ false = ground (arith, size) in
      let last : length (operations ++ r ∷ []) - 1 - 0 ≡ length operations = omega arith in
      (
        rw (some_call, last) (get_elem?-at_end operations r),
        elim (Bool-cases (leb (length operations) offset)) [
          | inl beyond ↦
              let far : leb (length (operations ++ r ∷ [])) (suc offset) ≡ true =
                ground (arith, size) in
              rw (far, beyond) refl
          | inr within ↦
              let near : leb (length (operations ++ r ∷ [])) (suc offset) ≡ false =
                ground (arith, size) in
              let place : length (operations ++ r ∷ []) - 1 - suc offset
                  ≡ length operations - 1 - offset =
                omega (arith, size) in
              let inside : offset < length operations = ground arith in
              rw (near, within, place)
                (get_elem?-before_end operations r (length operations - 1 - offset) (omega arith))
        ],
      )
