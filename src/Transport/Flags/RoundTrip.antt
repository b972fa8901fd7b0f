-- ===== src/Transport/Flags/RoundTrip.antt =====
-- The flags field: encoding and decoding read as arithmetic, and the two round trips.
use mongocore.Prelude.{
  subst, ℕ, ◌+◌, ◌*◌, ◌/◌, ◌%◌, ◌^◌, ◌<◌, ◌==◌, ==_iff, bit_and, bit_or, check_below,
  check_below-true, and_63, ◌≡◌, refl, sym, ◌∙◌, Bool, true, false, Result, ok, err, ◌>>=◌, arith,
}
use mongocore.Transport.Flags.{
  FrameError, Flags, Opcode, find, Priority, normal, opcode_as_u8, opcode_from_u8, priority_as_u8,
  priority_from_u8, set_bit, test_bit, encode_flags, decode_flags,
}
use mongocore.Transport.Flags.Codes.{
  opcode_from_u8-as_u8, opcode_as_u8-lt, opcode_as_u8-from_u8, priority_from_u8-as_u8,
  priority_as_u8-lt, priority_as_u8-from_u8,
}

and_1_table : check_below 1024 (λ x. bit_and x 1 == x % 2) ≡ true
unfolding check_below
and_1_table = refl

and_1 : (x : ℕ) → x < 1024 → bit_and x 1 ≡ x % 2
and_1 x h = (==_iff _ _).0 (check_below-true 1024 _ x and_1_table h)

and_3_table : check_below 128 (λ x. bit_and x 3 == x % 4) ≡ true
unfolding check_below
and_3_table = refl

and_3 : (x : ℕ) → x < 128 → bit_and x 3 ≡ x % 4
and_3 x h = (==_iff _ _).0 (check_below-true 128 _ x and_3_table h)

or_table :
    (check_below 64 (λ x. bit_or x (2 ^ 6) == x + 64) ≡ true)
    × (check_below 128 (λ x. bit_or x (2 ^ 7) == x + 128) ≡ true)
    × (check_below 256 (λ x. bit_or x (2 ^ 8) == x + 256) ≡ true)
unfolding check_below
or_table = (refl, refl, refl)

or_priority_table :
    check_below 4 (λ p. check_below 512 (λ x. bit_or x (p * 2 ^ 9) == x + p * 512)) ≡ true
unfolding check_below
or_priority_table = refl

abbrev bit : Bool → ℕ
bit true = 1
bit false = 0

low_opcode : (o : Opcode) → bit_or 0 (bit_and (opcode_as_u8 o) 0x3f) ≡ opcode_as_u8 o
unfolding opcode_as_u8
low_opcode find = refl
low_opcode _ = refl

low_priority : (p : Priority) → bit_and (priority_as_u8 p) 0x03 ≡ priority_as_u8 p
unfolding priority_as_u8
low_priority normal = refl
low_priority _ = refl

set_bit_6 : (b : Bool) (x : ℕ) → x < 64 → set_bit b 6 x ≡ x + bit b * 64
unfolding set_bit
set_bit_6 true x h = (==_iff _ _).0 (check_below-true 64 _ x or_table.0 h)
set_bit_6 false x h = omega arith

set_bit_7 : (b : Bool) (x : ℕ) → x < 128 → set_bit b 7 x ≡ x + bit b * 128
unfolding set_bit
set_bit_7 true x h = (==_iff _ _).0 (check_below-true 128 _ x or_table.1 h)
set_bit_7 false x h = omega arith

set_bit_8 : (b : Bool) (x : ℕ) → x < 256 → set_bit b 8 x ≡ x + bit b * 256
unfolding set_bit
set_bit_8 true x h = (==_iff _ _).0 (check_below-true 256 _ x or_table.2 h)
set_bit_8 false x h = omega arith

or_priority : (p x : ℕ) → p < 4 → x < 512 → bit_or x (p * 2 ^ 9) ≡ x + p * 512
or_priority p x h k =
    (==_iff _ _).0 (check_below-true 512 _ x (check_below-true 4 _ p or_priority_table h) k)

bit-lt : (b : Bool) → bit b < 2
bit-lt true = omega arith
bit-lt false = omega arith

-- The layout of the field, as a sum.
pub encode_flags-sum :
    (f : Flags)
    → encode_flags f
      ≡ opcode_as_u8 f.opcode
        + bit f.end_of_stream * 64
        + bit f.no_reply * 128
        + bit f.batch_follows * 256
        + priority_as_u8 f.priority * 512
unfolding encode_flags
encode_flags-sum f =
    let e = bit-lt f.end_of_stream in
    let n = bit-lt f.no_reply in
    let b = bit-lt f.batch_follows in
    let o = opcode_as_u8-lt f.opcode in
    let x : ℕ = opcode_as_u8 f.opcode + bit f.end_of_stream * 64 in
    let y : ℕ = x + bit f.no_reply * 128 in
    let z : ℕ = y + bit f.batch_follows * 256 in
    rw (
      low_opcode f.opcode,
      low_priority f.priority,
      set_bit_6 f.end_of_stream (opcode_as_u8 f.opcode) o,
      set_bit_7 f.no_reply x (omega arith),
      set_bit_8 f.batch_follows y (omega arith),
      or_priority (priority_as_u8 f.priority) z (priority_as_u8-lt f.priority) (omega arith),
    )

pub encode_flags-lt : (f : Flags) → encode_flags f < 2048
encode_flags-lt f = omega (
  arith,
  encode_flags-sum f,
  bit-lt f.end_of_stream,
  bit-lt f.no_reply,
  bit-lt f.batch_follows,
  opcode_as_u8-lt f.opcode,
  priority_as_u8-lt f.priority,
)

-- Reading the field back, part by part.
abbrev fields : ℕ → Opcode → Priority → Flags
fields bits o p = record {
  opcode = o;
  end_of_stream = bits / 64 % 2 == 1;
  no_reply = bits / 128 % 2 == 1;
  batch_follows = bits / 256 % 2 == 1;
  priority = p;
}

decode_flags-parts :
    (bits : ℕ)
    → bits < 65536
    → decode_flags bits ≡ (
        opcode_from_u8 (bits % 64) >>= λ o.
        priority_from_u8 (bits / 512 % 4) >>= λ p. ok (fields bits o p))
unfolding decode_flags test_bit
decode_flags-parts bits h = rw (
  and_63 bits h,
  and_1 (bits / 2 ^ 6) (omega arith),
  and_1 (bits / 2 ^ 7) (omega arith),
  and_1 (bits / 2 ^ 8) (omega arith),
  and_3 (bits / 2 ^ 9) (omega arith),
)

bit_eq : (b : Bool) (x : ℕ) → x ≡ bit b → (x == 1) ≡ b
bit_eq true x e = ground arith
bit_eq false x e = ground arith

-- Every flags value survives its encoding.
pub decode_flags-encode_flags : (f : Flags) → decode_flags (encode_flags f) ≡ ok f
decode_flags-encode_flags f =
    let e = bit-lt f.end_of_stream in
    let n = bit-lt f.no_reply in
    let b = bit-lt f.batch_follows in
    let o = opcode_as_u8-lt f.opcode in
    let p = priority_as_u8-lt f.priority in
    let s = encode_flags-sum f in
    let w = encode_flags-lt f in
    let low : encode_flags f % 64 ≡ opcode_as_u8 f.opcode = omega arith in
    let top : encode_flags f / 512 % 4 ≡ priority_as_u8 f.priority = omega arith in
    rw (
      decode_flags-parts (encode_flags f) (omega arith),
      low,
      top,
      opcode_from_u8-as_u8 f.opcode,
      priority_from_u8-as_u8 f.priority,
      bit_eq f.end_of_stream (encode_flags f / 64 % 2) (omega arith),
      bit_eq f.no_reply (encode_flags f / 128 % 2) (omega arith),
      bit_eq f.batch_follows (encode_flags f / 256 % 2) (omega arith),
    )

bit-== : (x : ℕ) → x < 2 → bit (x == 1) ≡ x
bit-== x h = ground arith

encode_flags-fields :
    (bits : ℕ) (o : Opcode) (p : Priority)
    → opcode_as_u8 o ≡ bits % 64
    → priority_as_u8 p ≡ bits / 512 % 4
    → encode_flags (fields bits o p) ≡ bits % 2048
encode_flags-fields bits o p ho hp = omega (
  arith,
  encode_flags-sum (fields bits o p),
  bit-== (bits / 64 % 2) (omega arith),
  bit-== (bits / 128 % 2) (omega arith),
  bit-== (bits / 256 % 2) (omega arith),
)

decoded :
    (bits : ℕ) (f : Flags) (ro : Result FrameError Opcode) (rp : Result FrameError Priority)
    → opcode_from_u8 (bits % 64) ≡ ro
    → priority_from_u8 (bits / 512 % 4) ≡ rp
    → (ro >>= λ o. rp >>= λ p. ok (fields bits o p)) ≡ ok f
    → encode_flags f ≡ bits % 2048
decoded bits f (ok o) (ok p) eo ep d =
    let same : fields bits o p ≡ f = cc d in
    subst (λ g. encode_flags g ≡ bits % 2048) same
      (encode_flags-fields bits o p (opcode_as_u8-from_u8 (bits % 64) o eo)
        (priority_as_u8-from_u8 (bits / 512 % 4) p ep))
decoded bits f (ok o) (err e) eo ep d = cc d
decoded bits f (err e) rp eo ep d = cc d

-- A field that decodes is encoded again to its low eleven bits: the reserved bits 11 to 15, and
-- nothing else, are lost.
encode_flags-decode_flags :
    (bits : ℕ) (f : Flags) → bits < 2 ^ 16 → decode_flags bits ≡ ok f → encode_flags f ≡ bits % 2048
encode_flags-decode_flags bits f h d =
    decoded bits f _ _ refl refl (sym (decode_flags-parts bits h) ∙ d)
