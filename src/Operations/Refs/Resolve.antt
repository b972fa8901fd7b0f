-- ===== src/Operations/Refs/Resolve.antt =====
-- src/operations/pipeline_refs.rs: finding the references of a JSON value, and resolving them
-- against the results of earlier steps. The regular expression and the printing of JSON belong to
-- other crates and are parameters.
use mongocore.Prelude.{
  ◌-◌, if◌then◌else◌, Text, codes, text_eq, Bool, false, not, ◌&&◌, ◌||◌, List, [], ◌∷◌, ◌++◌,
  length, take, drop, is_empty, Option, none, some, Result, ok, err, ok_or, ◌>>=◌,
}
use mongocore.Operations.Json.{
  Value, Values, Fields, null, boolean, number, string, array, object, nil, cons, end, field, len,
  get, get_field, trim, starts_with, ends_with, contains, replace, decimal,
}
use mongocore.Operations.Refs.{
  PathSegment, index, wildcard, RefError, step_not_found, field_not_found, not_an_object,
  out_of_bounds, not_an_array, wildcard_not_an_array, parse_reference,
}

unfoldable pub contains_text : List Text → Text → Bool
contains_text [] t = false
contains_text (s ∷ ss) t = text_eq s t || contains_text ss t

unfoldable pub lookup : Text → List (Text × Value) → Option Value
lookup k [] = none
lookup k ((j, v) ∷ m) = if text_eq j k then some v else lookup k m

-- `collect` into a `Result`: the first error ends it.
unfoldable pub collect : (Value → Result RefError Value) → Values → Result RefError Values
collect f nil = ok nil
collect f (cons v vs) = do w ← f v; ws ← collect f vs; ok (cons w ws)

unfoldable pub traverse_path : List PathSegment → Text → Value → Result RefError Value
unfolding collect
traverse_path [] reference value = ok value
traverse_path (PathSegment.field name ∷ remaining) reference (array vs) =
    if text_eq name (codes "length")
    then ok (number (decimal (len vs)))
    else err (not_an_object name reference)
traverse_path (PathSegment.field name ∷ remaining) reference (object fs) =
    elim (get_field fs name) [
      | none ↦ err (field_not_found name reference)
      | some v ↦ traverse_path remaining reference v
    ]
traverse_path (PathSegment.field name ∷ remaining) reference value =
    err (not_an_object name reference)
traverse_path (index idx ∷ remaining) reference (array vs) = elim (get vs idx) [
  | none ↦ err (out_of_bounds idx reference)
  | some v ↦ traverse_path remaining reference v
]
traverse_path (index idx ∷ remaining) reference value = err (not_an_array reference)
traverse_path (wildcard ∷ remaining) reference (array vs) = do
  ws ← collect (traverse_path remaining reference) vs
  ok (array ws)
traverse_path (wildcard ∷ remaining) reference value = err (wildcard_not_an_array reference)

unfoldable pub resolve_single_ref : Text → List (Text × Value) → Result RefError Value
resolve_single_ref reference results = do
  (step_name, path) ← parse_reference reference
  step_result ← ok_or (step_not_found step_name) (lookup step_name results)
  if is_empty path then ok step_result else traverse_path path reference step_result

-- The `regex` and `serde_json` crates: the matches of `\{\{([^}]+)\}\}` in a text, each with its
-- group, and `Value::to_string`.
pub record Crates : Type 0 where
  pub captures : Text → List (Text × Text)
  pub render : Value → Text

module _ (crates : Crates) where
  open crates use {captures, render}

  -- The text is one reference: what stands between the braces, if it holds no other pair.
  unfoldable pub single_reference : Text → Option Text
  single_reference s =
      let trimmed = trim s in
      let inner = take (length trimmed - 4) (drop 2 trimmed) in
      if starts_with trimmed (codes "{{") && ends_with trimmed (codes "}}")
      then (if not (contains inner (codes "{{")) && not (contains inner (codes "}}"))
          then some (trim inner)
          else none)
      else none

  -- How a resolved value is written inside a text.
  unfoldable pub as_text : Value → Text
  as_text (string s) = s
  as_text null = codes "null"
  as_text value = render value

  unfoldable pub interpolate :
      List (Text × Text) → List (Text × Value) → Text → Result RefError Text
  interpolate [] results text = ok text
  interpolate ((full_match, group) ∷ caps) results text = do
    resolved ← resolve_single_ref (trim group) results
    interpolate caps results (replace text full_match (as_text resolved))

  unfoldable pub resolve_string : Text → List (Text × Value) → Result RefError Value
  resolve_string s results = elim (single_reference s) [
    | some reference ↦ resolve_single_ref reference results
    | none ↦ interpolate (captures s) results s >>= λ text. ok (string text)
  ]

  -- `resolve_references`: every text of the value, through arrays and objects.
  unfoldable mutual
    pub resolve_value : Value → List (Text × Value) → Result RefError Value
    resolve_value null results = ok null
    resolve_value (boolean b) results = ok (boolean b)
    resolve_value (number n) results = ok (number n)
    resolve_value (string s) results = resolve_string s results
    resolve_value (array vs) results = resolve_values vs results >>= λ ws. ok (array ws)
    resolve_value (object fs) results = resolve_fields fs results >>= λ gs. ok (object gs)

    pub resolve_values : Values → List (Text × Value) → Result RefError Values
    resolve_values nil results = ok nil
    resolve_values (cons v vs) results =
        resolve_value v results >>= λ w. resolve_values vs results >>= λ ws. ok (cons w ws)

    pub resolve_fields : Fields → List (Text × Value) → Result RefError Fields
    resolve_fields end results = ok end
    resolve_fields (field k v fs) results =
        resolve_value v results >>= λ w. resolve_fields fs results >>= λ gs. ok (field k w gs)

  -- `extract_references`: each reference once, in order of first appearance.
  unfoldable pub add_captures : List (Text × Text) → List Text → List Text
  add_captures [] refs = refs
  add_captures ((full_match, group) ∷ caps) refs =
      let r = trim group in
      add_captures caps (if contains_text refs r then refs else refs ++ r ∷ [])

  unfoldable mutual
    pub extract_value : Value → List Text → List Text
    extract_value null refs = refs
    extract_value (boolean b) refs = refs
    extract_value (number n) refs = refs
    extract_value (string s) refs = add_captures (captures s) refs
    extract_value (array vs) refs = extract_values vs refs
    extract_value (object fs) refs = extract_fields fs refs

    pub extract_values : Values → List Text → List Text
    extract_values nil refs = refs
    extract_values (cons v vs) refs = extract_values vs (extract_value v refs)

    pub extract_fields : Fields → List Text → List Text
    extract_fields end refs = refs
    extract_fields (field k v fs) refs = extract_fields fs (extract_value v refs)

  unfoldable pub extract_references : Value → List Text
  extract_references value = extract_value value []
