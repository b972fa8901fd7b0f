-- ===== src/Operations/Refs/Print.antt =====
-- A reference is read as it is written.
use mongocore.Prelude.{
  ◌==◌, ok, ℕ, zero, suc, ◌≤◌, ◌<◌, ◌==◌, Text, codes, text_eq, ◌≡◌, refl, sym, ap, ◌∙◌, true,
  false, List, [], ◌∷◌, ◌++◌, append-nil, append_assoc, length, length-append, is_empty, All, some,
  ok, arith,
}
use mongocore.Operations.Json.{decimal, usize_limit}
use mongocore.Operations.Json.Decimal.{IsDigit, Digits, Digits-decimal, parse_usize-decimal}
use mongocore.Operations.Refs.{
  Loop, PathSegment, field, index, wildcard, is_delimiter, split_name, split_bracket,
  bracket_segment, segments_from, field_round, bracket_round, push_segment, parse_reference,
}

abbrev pub print_segment : PathSegment → Text
print_segment (field name) = b'.' ∷ name
print_segment (index i) = b'[' ∷ (decimal i ++ b']' ∷ [])
print_segment wildcard = b'[' ∷ b'*' ∷ b']' ∷ []

abbrev pub print_path : List PathSegment → Text
print_path [] = []
print_path (s ∷ ss) = print_segment s ++ print_path ss

-- A name has a character, and no delimiter.
abbrev pub IsName : Text → Type 0
IsName [] = ⊥
IsName (c ∷ s) = All (λ d. is_delimiter d ≡ false) (c ∷ s)

abbrev pub IsPrintable : PathSegment → Type 0
IsPrintable (field name) = IsName name
IsPrintable (index i) = i < usize_limit
IsPrintable wildcard = Unit

-- What may follow a name.
abbrev Ends : Text → Type 0
Ends [] = Unit
Ends (c ∷ s) = is_delimiter c ≡ true

Ends-print_path : (ss : List PathSegment) → Ends (print_path ss)
Ends-print_path [] = tt
Ends-print_path (field name ∷ ss) = refl
Ends-print_path (index i ∷ ss) = refl
Ends-print_path (wildcard ∷ ss) = refl

split_name-append :
    (name rest : Text)
    → All (λ d. is_delimiter d ≡ false) name
    → Ends rest
    → split_name (name ++ rest) ≡ (name, rest)
unfolding split_name
split_name-append [] [] n e = refl
split_name-append [] (c ∷ s) n e = rw e
split_name-append (c ∷ name) rest n e = rw (n.0, split_name-append name rest n.1 e)

split_bracket-append :
    (inside after : Text)
    → All (λ c. (c == b']') ≡ false) inside
    → split_bracket (inside ++ b']' ∷ after) ≡ some (inside, after)
unfolding split_bracket
split_bracket-append [] after h = refl
split_bracket-append (c ∷ inside) after h = rw (h.0, split_bracket-append inside after h.1)

digits_inside : (s : Text) → All IsDigit s → All (λ c. (c == b']') ≡ false) s
digits_inside [] d = tt
digits_inside (c ∷ s) d = (ground arith, digits_inside s d.1)

inside_decimal : (i : ℕ) → All (λ c. (c == b']') ≡ false) (decimal i)
inside_decimal i = go (decimal i) (Digits-decimal i)
  where
    go : (s : Text) → Digits s → All (λ c. (c == b']') ≡ false) s
    go [] d = absurd d
    go (c ∷ s) d = (ground arith, digits_inside s d.1)

no_star : (s : Text) → Digits s → text_eq s (codes "*") ≡ false
unfolding text_eq
no_star [] d = absurd d
no_star (c ∷ s) d = ground arith

bracket_segment-decimal :
    (reference : Text) (i : ℕ)
    → i < usize_limit
    → bracket_segment reference (decimal i) ≡ ok (index i)
unfolding bracket_segment
bracket_segment-decimal reference i h =
    rw (no_star (decimal i) (Digits-decimal i), parse_usize-decimal i h)

bracket_segment-star : (reference : Text) → bracket_segment reference (b'*' ∷ []) ≡ ok wildcard
unfolding bracket_segment text_eq
bracket_segment-star reference = refl

some_name : (name : Text) → IsName name → is_empty name ≡ false
some_name [] n = absurd n
some_name (c ∷ name) n = refl

All-name : (name : Text) → IsName name → All (λ d. is_delimiter d ≡ false) name
All-name [] n = absurd n
All-name (c ∷ name) n = n

field_step :
    (next : Loop) (reference : Text) (acc : List PathSegment) (name after : Text)
    → IsName name
    → field_round next reference acc (name, after) ≡ next (acc ++ field name ∷ []) after
unfolding field_round
field_step next reference acc [] after n = absurd n
field_step next reference acc (c ∷ name) after n = refl

segments_from-print :
    (fuel : ℕ) (reference : Text) (acc ss : List PathSegment)
    → All IsPrintable ss
    → length (print_path ss) ≤ fuel
    → segments_from fuel reference acc (print_path ss) ≡ ok (acc ++ ss)
unfolding segments_from bracket_round push_segment
segments_from-print fuel reference acc [] v h = ap ok (sym (append-nil acc))
segments_from-print zero reference acc (field name ∷ ss) v h = absurd (omega arith)
segments_from-print zero reference acc (index i ∷ ss) v h = absurd (omega arith)
segments_from-print zero reference acc (wildcard ∷ ss) v h = absurd (omega arith)
segments_from-print (suc fuel) reference acc (field name ∷ ss) v h =
    let shorter : length (print_path ss) ≤ fuel =
      omega (arith, length-append name (print_path ss)) in
    rw (split_name-append name (print_path ss) (All-name name v.0) (Ends-print_path ss)) (
      field_step (segments_from fuel reference) reference acc name (print_path ss) v.0
      ∙ segments_from-print fuel reference (acc ++ field name ∷ []) ss v.1 shorter
      ∙ ap ok (append_assoc acc (field name ∷ []) ss))
segments_from-print (suc fuel) reference acc (index i ∷ ss) v h =
    let rest = print_path ss in
    let shorter : length rest ≤ fuel =
      omega (
        arith,
        length-append (decimal i ++ b']' ∷ []) rest,
        length-append (decimal i) (b']' ∷ []),
      ) in
    rw
      (
        append_assoc (decimal i) (b']' ∷ []) rest,
        split_bracket-append (decimal i) rest (inside_decimal i),
        bracket_segment-decimal reference i v.0,
      )
      (segments_from-print fuel reference (acc ++ index i ∷ []) ss v.1 shorter
        ∙ ap ok (append_assoc acc (index i ∷ []) ss))
segments_from-print (suc fuel) reference acc (wildcard ∷ ss) v h =
    rw (split_bracket-append (b'*' ∷ []) (print_path ss) (refl, tt), bracket_segment-star reference)
      (segments_from-print fuel reference (acc ++ wildcard ∷ []) ss v.1 (omega arith)
        ∙ ap ok (append_assoc acc (wildcard ∷ []) ss))

-- A step name followed by fields, indices below 2 ^ 64 and wildcards is parsed into exactly these.
pub parse_reference-print :
    (name : Text) (path : List PathSegment)
    → IsName name
    → All IsPrintable path
    → parse_reference (name ++ print_path path) ≡ ok (name, path)
unfolding parse_reference
parse_reference-print name path n v = rw (
  nonempty name n,
  split_name-append name (print_path path) (All-name name n) (Ends-print_path path),
  some_name name n,
  segments_from-print (length (print_path path)) (name ++ print_path path) [] path v (omega arith),
)
  where
    nonempty : (name : Text) → IsName name → is_empty (name ++ print_path path) ≡ false
    nonempty [] n = absurd n
    nonempty (c ∷ s) n = refl
