-- ===== src/Operations/Json.antt =====
-- `serde_json::Value`, and the text operations of the standard library that src/operations uses,
-- over lists of code points. A number is kept as its text. A map is an association list in the
-- map's order, its keys distinct.
pub mod Decimal
use mongocore.Prelude.{
  ℕ, zero, suc, ◌+◌, ◌-◌, ◌*◌, ◌/◌, ◌%◌, ◌^◌, ltb, leb, ◌==◌, if◌then◌else◌, Text, text_eq, Bool,
  true, false, ◌&&◌, ◌||◌, [], ◌∷◌, ◌++◌, length, drop, Option, none, some,
}

mutual
  pub data Value : Type 0 where
    null : Value
    boolean : Bool → Value
    number : Text → Value
    string : Text → Value
    array : Values → Value
    object : Fields → Value

  pub data Values : Type 0 where
    nil : Values
    cons : Value → Values → Values

  pub data Fields : Type 0 where
    end : Fields
    field : Text → Value → Fields → Fields

unfoldable pub len : Values → ℕ
len nil = 0
len (cons v vs) = suc (len vs)

-- `arr.get(i)` and `map.get(k)`.
unfoldable pub get : Values → ℕ → Option Value
get nil i = none
get (cons v vs) zero = some v
get (cons v vs) (suc i) = get vs i

unfoldable pub get_field : Fields → Text → Option Value
get_field end k = none
get_field (field j v fs) k = if text_eq j k then some v else get_field fs k

-- `char::is_whitespace`.
is_whitespace : ℕ → Bool
is_whitespace c =
    (leb 9 c && leb c 13)
    || c == 32
    || c == 133
    || c == 160
    || c == 5760
    || (leb 8192 c && leb c 8202)
    || c == 8232
    || c == 8233
    || c == 8239
    || c == 8287
    || c == 12288

unfoldable pub trim_start : Text → Text
unfolding is_whitespace
trim_start [] = []
trim_start (c ∷ s) = let rest = trim_start s in if is_whitespace c then rest else c ∷ s

unfoldable pub trim_end : Text → Text
unfolding is_whitespace
trim_end [] = []
trim_end (c ∷ s) =
    let rest = trim_end s in
    elim rest [ [] ↦ if is_whitespace c then [] else c ∷ [] | d ∷ t ↦ c ∷ d ∷ t ]

unfoldable pub trim : Text → Text
unfolding trim_start trim_end
trim s = trim_end (trim_start s)

unfoldable pub starts_with : Text → Text → Bool
starts_with s [] = true
starts_with [] (p ∷ ps) = false
starts_with (c ∷ s) (p ∷ ps) = c == p && starts_with s ps

unfoldable pub ends_with : Text → Text → Bool
unfolding text_eq
ends_with s p =
    if ltb (length s) (length p) then false else text_eq (drop (length s - length p) s) p

unfoldable pub contains : Text → Text → Bool
unfolding starts_with
contains [] p = starts_with [] p
contains (c ∷ s) p = starts_with (c ∷ s) p || contains s p

-- `str::replace` with a pattern that is not empty; `skip` counts the characters of a match that is
-- being passed over.
replace_from : ℕ → Text → Text → Text → Text
unfolding starts_with
replace_from skip p r [] = []
replace_from (suc skip) p r (c ∷ s) = replace_from skip p r s
replace_from zero p r (c ∷ s) =
    let matched = r ++ replace_from (length p - 1) p r s in
    let kept = c ∷ replace_from zero p r s in if starts_with (c ∷ s) p then matched else kept

unfoldable pub replace : Text → Text → Text → Text
unfolding replace_from
replace s p r = replace_from zero p r s

-- `usize` in decimal, and back: an optional plus sign, at least one digit, below 2 ^ 64.
digits_from : ℕ → ℕ → Text → Text
digits_from zero n acc = acc
digits_from (suc f) n acc =
    let more = digits_from f (n / 10) ((b'0' + n % 10) ∷ acc) in
    if ltb n 10 then (b'0' + n) ∷ acc else more

unfoldable pub decimal : ℕ → Text
unfolding digits_from
decimal n = digits_from (suc n) n []

abbrev pub usize_limit : ℕ
usize_limit = 2 ^ 64

abbrev is_digit : ℕ → Bool
is_digit c = leb b'0' c && leb c b'9'

unfoldable pub read_digits : ℕ → Text → Option ℕ
read_digits n [] = some n
read_digits n (c ∷ s) =
    let m = n * 10 + (c - b'0') in
    let rest = read_digits m s in if is_digit c && ltb m usize_limit then rest else none

unfoldable pub parse_usize : Text → Option ℕ
unfolding read_digits
parse_usize [] = none
parse_usize (c ∷ []) = read_digits 0 (c ∷ [])
parse_usize (c ∷ d ∷ s) = if c == b'+' then read_digits 0 (d ∷ s) else read_digits 0 (c ∷ d ∷ s)
