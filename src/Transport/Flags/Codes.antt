-- ===== src/Transport/Flags/Codes.antt =====
-- The codes of opcodes and priorities: exactly the listed numbers decode.
use mongocore.Prelude.{ℕ, ◌<◌, ◌≡◌, refl, arith, ok}
use mongocore.Transport.Flags.{
  Opcode, find, Priority, normal, opcode_as_u8, opcode_from_u8, priority_as_u8, priority_from_u8,
}

pub opcode_from_u8-as_u8 : (o : Opcode) → opcode_from_u8 (opcode_as_u8 o) ≡ ok o
unfolding opcode_from_u8 opcode_as_u8
opcode_from_u8-as_u8 find = refl
opcode_from_u8-as_u8 _ = refl

pub opcode_as_u8-lt : (o : Opcode) → opcode_as_u8 o < 64
unfolding opcode_as_u8
opcode_as_u8-lt find = omega arith
opcode_as_u8-lt _ = omega arith

pub opcode_as_u8-from_u8 : (v : ℕ) (o : Opcode) → opcode_from_u8 v ≡ ok o → opcode_as_u8 o ≡ v
unfolding opcode_from_u8 opcode_as_u8
opcode_as_u8-from_u8 v o h = ground arith

pub priority_from_u8-as_u8 : (p : Priority) → priority_from_u8 (priority_as_u8 p) ≡ ok p
unfolding priority_from_u8 priority_as_u8
priority_from_u8-as_u8 normal = refl
priority_from_u8-as_u8 _ = refl

pub priority_as_u8-lt : (p : Priority) → priority_as_u8 p < 4
unfolding priority_as_u8
priority_as_u8-lt normal = omega arith
priority_as_u8-lt _ = omega arith

pub priority_as_u8-from_u8 :
    (v : ℕ) (p : Priority) → priority_from_u8 v ≡ ok p → priority_as_u8 p ≡ v
unfolding priority_from_u8 priority_as_u8
priority_as_u8-from_u8 v p h = ground arith
