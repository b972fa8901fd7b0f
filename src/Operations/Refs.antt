-- ===== src/Operations/Refs.antt =====
-- src/operations/pipeline_refs.rs: `parse_reference`. Errors are kept apart by a constructor for
-- each message of `TransactionPipelineError`, with what the message prints.
pub mod Resolve
pub mod Print
pub mod Fuel
use mongocore.Prelude.{
  ℕ, zero, suc, ◌==◌, if◌then◌else◌, Text, codes, text_eq, Bool, true, false, ◌||◌, List, [], ◌∷◌,
  ◌++◌, length, is_empty, Option, none, some, Result, ok, err, ◌>>=◌,
}
use mongocore.Operations.Json.{parse_usize}

pub data PathSegment : Type 0 where
  field : Text → PathSegment
  index : ℕ → PathSegment
  wildcard : PathSegment

pub data RefError : Type 0 where
  empty_reference empty_step_name out_of_fuel : RefError
  empty_field unclosed_bracket unexpected_character : (reference : Text) → RefError
  invalid_index : (inside reference : Text) → RefError
  step_not_found : (step : Text) → RefError
  field_not_found not_an_object : (name reference : Text) → RefError
  out_of_bounds : (idx : ℕ) (reference : Text) → RefError
  not_an_array wildcard_not_an_array : (reference : Text) → RefError

-- `|c| c == '.' || c == '['`.
abbrev pub is_delimiter : ℕ → Bool
is_delimiter c = c == b'.' || c == b'['

-- What stands before the first delimiter, and the rest.
unfoldable pub split_name : Text → Text × Text
split_name [] = ([], [])
split_name (c ∷ s) =
    let (name, rest) = split_name s in if is_delimiter c then ([], c ∷ s) else (c ∷ name, rest)

-- What stands before the first `]`, and what follows it.
unfoldable pub split_bracket : Text → Option (Text × Text)
split_bracket [] = none
split_bracket (c ∷ s) =
    let rest = split_bracket s in
    if c == b']'
    then some ([], s)
    else (elim rest [ none ↦ none | some (inside, after) ↦ some (c ∷ inside, after) ])

unfoldable pub bracket_segment : Text → Text → Result RefError PathSegment
bracket_segment reference inside =
    if text_eq inside (codes "*") then ok wildcard else (elim (parse_usize inside) [
      | none ↦ err (invalid_index inside reference)
      | some idx ↦ ok (index idx)
    ])

-- The rounds of the loop; `next` is the loop with the longer list and what is left to read.
abbrev pub Loop : Type 0
Loop = List PathSegment → Text → Result RefError (List PathSegment)

unfoldable pub field_round :
    Loop → Text → List PathSegment → Text × Text → Result RefError (List PathSegment)
field_round next reference segments ([], after) = err (empty_field reference)
field_round next reference segments (c ∷ name, after) =
    next (segments ++ field (c ∷ name) ∷ []) after

unfoldable pub push_segment :
    Loop
    → List PathSegment
    → Text
    → Result RefError PathSegment
    → Result RefError (List PathSegment)
push_segment next segments after (err e) = err e
push_segment next segments after (ok segment) = next (segments ++ segment ∷ []) after

unfoldable pub bracket_round :
    Loop → Text → List PathSegment → Option (Text × Text) → Result RefError (List PathSegment)
bracket_round next reference segments none = err (unclosed_bracket reference)
bracket_round next reference segments (some (inside, after)) =
    push_segment next segments after (bracket_segment reference inside)

-- The loop `while !rest.is_empty()`: every round takes a character at least.
unfoldable pub segments_from : ℕ → Text → Loop
segments_from fuel reference segments [] = ok segments
segments_from zero reference segments (c ∷ rest) = err out_of_fuel
segments_from (suc fuel) reference segments (c ∷ rest) = elim (c == b'.') [
  | true ↦ field_round (segments_from fuel reference) reference segments (split_name rest)
  | false ↦ elim (c == b'[') [
    | true ↦ bracket_round (segments_from fuel reference) reference segments (split_bracket rest)
    | false ↦ err (unexpected_character reference)
  ]
]

unfoldable pub parse_reference : Text → Result RefError (Text × List PathSegment)
parse_reference reference =
    if is_empty reference
    then err empty_reference
    else (let (step_name, remainder) = split_name reference in
        if is_empty step_name
        then err empty_step_name
        else (segments_from (length remainder) reference [] remainder >>= λ segments.
            ok (step_name, segments)))
