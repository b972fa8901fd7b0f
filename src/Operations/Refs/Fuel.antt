-- ===== src/Operations/Refs/Fuel.antt =====
-- The fuel of the reference parser.
use mongocore.Prelude.{
  Result, Bool-cases, err, ◌==◌, ◌≢◌, inl, inr, ok, ◌≢◌, Option, none, err, ℕ, zero, suc, ◌≤◌, ◌==◌,
  Bool-cases, Text, inl, inr, List, [], ◌∷◌, length, some, ok, arith,
}
use mongocore.Operations.Refs.{
  Loop, RefError, out_of_fuel, PathSegment, is_delimiter, split_name, split_bracket,
  bracket_segment, segments_from, field_round, bracket_round, push_segment, parse_reference,
}

split_name-length : (s : Text) → length (split_name s).1 ≤ length s
unfolding split_name
split_name-length [] = omega arith
split_name-length (c ∷ s) = elim (Bool-cases (is_delimiter c)) [
  | inl e ↦ rw e (omega arith)
  | inr e ↦ rw e (omega (arith, split_name-length s))
]

abbrev After : ℕ → Option (Text × Text) → Type 0
After n none = Unit
After n (some (inside, after)) = length after ≤ n

split_bracket-length : (s : Text) → After (length s) (split_bracket s)
unfolding split_bracket
split_bracket-length [] = tt
split_bracket-length (c ∷ s) = elim (Bool-cases (c == b']')) [
  | inl e ↦ rw e (omega arith)
  | inr e ↦ rw e (later (split_bracket s) (split_bracket-length s))
]
  where
    later :
        (o : Option (Text × Text))
        → After (length s) o
        → After
            (suc (length s))
            (elim o [ none ↦ none | some (inside, after) ↦ some (c ∷ inside, after) ])
    later none h = tt
    later (some (inside, after)) h = omega arith

bracket_segment-ne : (reference inside : Text) → bracket_segment reference inside ≢ err out_of_fuel
unfolding bracket_segment
bracket_segment-ne reference inside h = ground arith

module _ (n : ℕ) (next : Loop)
    (enough : (acc : List PathSegment) (rest : Text)
      → length rest ≤ n
      → next acc rest ≢ err out_of_fuel) where
  field_round-ne :
      (reference : Text) (acc : List PathSegment) (split : Text × Text)
      → length split.1 ≤ n
      → field_round next reference acc split ≢ err out_of_fuel
  unfolding field_round
  field_round-ne reference acc ([], after) h e = cc e
  field_round-ne reference acc (c ∷ name, after) h e = enough _ after h e

  push_segment-ne :
      (acc : List PathSegment) (after : Text) (r : Result RefError PathSegment)
      → length after ≤ n
      → r ≢ err out_of_fuel
      → push_segment next acc after r ≢ err out_of_fuel
  unfolding push_segment
  push_segment-ne acc after (ok segment) h ne e = enough _ after h e
  push_segment-ne acc after (err x) h ne e = ne (cc e)

  bracket_round-ne :
      (reference : Text) (acc : List PathSegment) (split : Option (Text × Text))
      → After n split
      → bracket_round next reference acc split ≢ err out_of_fuel
  unfolding bracket_round
  bracket_round-ne reference acc none h e = cc e
  bracket_round-ne reference acc (some (inside, after)) h e =
      push_segment-ne acc after (bracket_segment reference inside) h
        (bracket_segment-ne reference inside) e

After-le : (m n : ℕ) (o : Option (Text × Text)) → m ≤ n → After m o → After n o
After-le m n none h a = tt
After-le m n (some (inside, after)) h a = omega arith

segments_from-ne :
    (fuel : ℕ) (reference : Text) (acc : List PathSegment) (rest : Text)
    → length rest ≤ fuel
    → segments_from fuel reference acc rest ≢ err out_of_fuel
unfolding segments_from
segments_from-ne fuel reference acc [] h e = cc e
segments_from-ne zero reference acc (c ∷ rest) h e = absurd (omega arith)
segments_from-ne (suc fuel) reference acc (c ∷ rest) h e =
    let enough = segments_from-ne fuel reference in
    elim (Bool-cases (c == b'.')) [
      | inl dot ↦
          field_round-ne fuel (segments_from fuel reference) enough reference acc (split_name rest)
            (omega (arith, split_name-length rest)) (rw (dot, segments_from) at e)
      | inr no_dot ↦ elim (Bool-cases (c == b'[')) [
        | inl bracket ↦
            bracket_round-ne fuel (segments_from fuel reference) enough reference acc
              (split_bracket rest)
              (After-le (length rest) fuel (split_bracket rest) (omega arith)
                (split_bracket-length rest))
              (rw (no_dot, segments_from, bracket) at e)
        | inr other ↦ cc (rw (no_dot, segments_from, other) at e)
      ]
    ]

-- The parser's fuel, the length of what it has to read, is enough for every reference.
pub parse_reference-ne-out_of_fuel : (s : Text) → parse_reference s ≢ err out_of_fuel
unfolding parse_reference
parse_reference-ne-out_of_fuel s h =
    ground (arith, segments_from-ne (length (split_name s).1) s [] (split_name s).1)
