-- ===== src/Prelude/Words.antt =====
-- Machine words as native numbers: bytes in either order, and the casts of the source.
use Prim.Native.Nat.{ℕ, zero, suc, ◌+◌, ◌-◌, ◌*◌, ◌/◌, ◌%◌, ◌^◌, ◌<◌, bit_and}
use mathlib.Core.Path.{◌≡◌, refl}
use mathlib.Core.Bool.{Bool, true, ◌&&◌}
use mathlib.Core.List.{List, [], ◌∷◌}
use native.Mathlib.Omega.{arith}
use mongocore.Prelude.Tests.{ltb, ◌==◌, ==_iff, if◌then◌else◌}

abbrev pub Bytes : Type 0
Bytes = List ℕ

-- `u16::to_be_bytes` and `u32::to_be_bytes`.
abbrev pub u16_to_be_bytes : ℕ → Bytes
u16_to_be_bytes n = n / 2 ^ 8 % 256 ∷ n % 256 ∷ []

abbrev pub u32_to_be_bytes : ℕ → Bytes
u32_to_be_bytes n = n / 2 ^ 24 % 256 ∷ n / 2 ^ 16 % 256 ∷ n / 2 ^ 8 % 256 ∷ n % 256 ∷ []

abbrev pub u16_from_be_bytes : ℕ → ℕ → ℕ
u16_from_be_bytes a b = a * 2 ^ 8 + b

abbrev pub u32_from_be_bytes : ℕ → ℕ → ℕ → ℕ → ℕ
u32_from_be_bytes a b c d = a * 2 ^ 24 + b * 2 ^ 16 + c * 2 ^ 8 + d

-- `i32::from_le_bytes` as a bit pattern, and `x as usize` of an `i32`, which extends the sign.
abbrev pub i32_from_le_bytes : ℕ → ℕ → ℕ → ℕ → ℕ
i32_from_le_bytes a b c d = a + b * 2 ^ 8 + c * 2 ^ 16 + d * 2 ^ 24

abbrev pub i32_as_usize : ℕ → ℕ
i32_as_usize w = if ltb w (2 ^ 31) then w else w + 2 ^ 64 - 2 ^ 32

pub u32_be_bytes :
    (n : ℕ)
    → n < 2 ^ 32
    → u32_from_be_bytes (n / 2 ^ 24 % 256) (n / 2 ^ 16 % 256) (n / 2 ^ 8 % 256) (n % 256) ≡ n
u32_be_bytes n h = omega arith

pub u16_be_bytes : (n : ℕ) → n < 2 ^ 16 → u16_from_be_bytes (n / 2 ^ 8 % 256) (n % 256) ≡ n
u16_be_bytes n h = omega arith

-- Every number below a bound passes a test: decided by running it.
unfoldable pub check_below : ℕ → (ℕ → Bool) → Bool
check_below zero test = true
check_below (suc n) test = test n && check_below n test

pub check_below-true :
    (n : ℕ) (test : ℕ → Bool) (x : ℕ) → check_below n test ≡ true → x < n → test x ≡ true
unfolding check_below
check_below-true zero test x h lt = absurd (omega arith)
check_below-true (suc n) test x h lt = ground (arith, check_below-true n test x)

and_63_table : check_below 65536 (λ x. bit_and x 63 == x % 64) ≡ true
unfolding check_below
and_63_table = refl

pub and_63 : (x : ℕ) → x < 65536 → bit_and x 63 ≡ x % 64
and_63 x h = (==_iff _ _).0 (check_below-true 65536 _ x and_63_table h)
