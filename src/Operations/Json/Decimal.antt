-- ===== src/Operations/Json/Decimal.antt =====
-- Printing a number and reading it back.
use mongocore.Prelude.{
  ℕ, zero, suc, ◌+◌, ◌-◌, ◌*◌, ◌/◌, ◌%◌, ◌≤◌, ◌<◌, ltb, lt→ltb, ◌==◌, Bool-cases, Text, ◌≡◌, refl,
  ap, ◌∙◌, inl, inr, true, false, [], ◌∷◌, All, some, arith,
}
use mongocore.Operations.Json.{
  digits_from, decimal, read_digits, parse_usize, usize_limit, is_digit,
}

read_digit :
    (d m : ℕ) (s : Text)
    → d < 10
    → m * 10 + d < usize_limit
    → read_digits m ((b'0' + d) ∷ s) ≡ read_digits (m * 10 + d) s
unfolding read_digits
read_digit d m s hd hm =
    let value : m * 10 + (b'0' + d - b'0') ≡ m * 10 + d = omega arith in
    let digit : is_digit (b'0' + d) ≡ true = ground arith in
    rw (value, digit, lt→ltb (m * 10 + d) usize_limit hm)

read_digits-digits_from :
    (f n : ℕ) (acc : Text)
    → n < f
    → n < usize_limit
    → read_digits 0 (digits_from f n acc) ≡ read_digits n acc
unfolding digits_from
read_digits-digits_from zero n acc h hn = absurd (omega arith)
read_digits-digits_from (suc f) n acc h hn = elim (Bool-cases (ltb n 10)) [
  | inl small ↦
      rw small (
        read_digit n 0 acc (ground arith) (omega arith) ∙ ap (λ m. read_digits m acc) (omega arith))
  | inr large ↦
      let back : n / 10 * 10 + n % 10 ≡ n = omega arith in
      rw large (
        read_digits-digits_from f (n / 10) ((b'0' + n % 10) ∷ acc) (ground arith) (omega arith)
        ∙ read_digit (n % 10) (n / 10) acc (omega arith) (omega arith)
        ∙ ap (λ m. read_digits m acc) back)
]

abbrev pub IsDigit : ℕ → Type 0
IsDigit c = (b'0' ≤ c) × (c ≤ b'9')

-- A number prints as a digit followed by digits.
abbrev pub Digits : Text → Type 0
Digits [] = ⊥
Digits (c ∷ s) = IsDigit c × All IsDigit s

Digits-digits_from : (f n : ℕ) (acc : Text) → n < f → All IsDigit acc → Digits (digits_from f n acc)
unfolding digits_from
Digits-digits_from zero n acc h a = absurd (omega arith)
Digits-digits_from (suc f) n acc h a = elim (Bool-cases (ltb n 10)) [
  | inl small ↦ rw small (ground arith, a)
  | inr large ↦
      rw large
        (Digits-digits_from f (n / 10) ((b'0' + n % 10) ∷ acc) (ground arith) (omega arith, a))
]

pub Digits-decimal : (n : ℕ) → Digits (decimal n)
unfolding decimal
Digits-decimal n = Digits-digits_from (suc n) n [] (omega arith) tt

parse_usize-Digits : (t : Text) → Digits t → parse_usize t ≡ read_digits 0 t
unfolding parse_usize
parse_usize-Digits [] d = absurd d
parse_usize-Digits (c ∷ []) d = refl
parse_usize-Digits (c ∷ e ∷ s) d = let no_sign : (c == b'+') ≡ false = ground arith in rw no_sign

-- A machine number survives printing.
pub parse_usize-decimal : (n : ℕ) → n < usize_limit → parse_usize (decimal n) ≡ some n
unfolding decimal read_digits
parse_usize-decimal n h =
    parse_usize-Digits (decimal n) (Digits-decimal n)
    ∙ read_digits-digits_from (suc n) n [] (omega arith) h
