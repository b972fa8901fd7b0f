-- ===== src/Transport/Flags.antt =====
-- src/transport/frame.rs: the errors, the opcodes, the priorities and the flags field.
pub mod Codes
pub mod RoundTrip
use mongocore.Prelude.{
  ℕ, ◌*◌, ◌/◌, ◌^◌, ◌==◌, bit_and, bit_or, String, Bool, true, false, if◌then◌else◌, Result, ok,
  err, ◌>>=◌,
}

pub data FrameError : Type 0 where
  invalid_opcode : ℕ → FrameError
  frame_too_large : FrameError
  doc_bytes_len_mismatch : FrameError
  malformed_envelope : String → FrameError
  io : String → FrameError

pub data Opcode : Type 0 where
  find find_one insert_one insert_many update_one update_many : Opcode
  delete_one delete_many aggregate count_documents create_index : Opcode
  list_collections run_command find_one_and_update find_one_and_delete : Opcode
  bulk_write distinct create_collection drop_collection error handshake : Opcode

-- The discriminants, `opcode as u8`.
unfoldable pub opcode_as_u8 : Opcode → ℕ
opcode_as_u8 find = 0x01
opcode_as_u8 find_one = 0x02
opcode_as_u8 insert_one = 0x03
opcode_as_u8 insert_many = 0x04
opcode_as_u8 update_one = 0x05
opcode_as_u8 update_many = 0x06
opcode_as_u8 delete_one = 0x07
opcode_as_u8 delete_many = 0x08
opcode_as_u8 aggregate = 0x09
opcode_as_u8 count_documents = 0x0a
opcode_as_u8 create_index = 0x0b
opcode_as_u8 list_collections = 0x0c
opcode_as_u8 run_command = 0x0d
opcode_as_u8 find_one_and_update = 0x0e
opcode_as_u8 find_one_and_delete = 0x0f
opcode_as_u8 bulk_write = 0x10
opcode_as_u8 distinct = 0x11
opcode_as_u8 create_collection = 0x12
opcode_as_u8 drop_collection = 0x13
opcode_as_u8 error = 0x3e
opcode_as_u8 handshake = 0x3f

unfoldable pub opcode_from_u8 : ℕ → Result FrameError Opcode
opcode_from_u8 value =
    if value == 0x00
    then err (invalid_opcode 0x00)
    else if value == 0x01
    then ok find
    else if value == 0x02
    then ok find_one
    else if value == 0x03
    then ok insert_one
    else if value == 0x04
    then ok insert_many
    else if value == 0x05
    then ok update_one
    else if value == 0x06
    then ok update_many
    else if value == 0x07
    then ok delete_one
    else if value == 0x08
    then ok delete_many
    else if value == 0x09
    then ok aggregate
    else if value == 0x0a
    then ok count_documents
    else if value == 0x0b
    then ok create_index
    else if value == 0x0c
    then ok list_collections
    else if value == 0x0d
    then ok run_command
    else if value == 0x0e
    then ok find_one_and_update
    else if value == 0x0f
    then ok find_one_and_delete
    else if value == 0x10
    then ok bulk_write
    else if value == 0x11
    then ok distinct
    else if value == 0x12
    then ok create_collection
    else if value == 0x13
    then ok drop_collection
    else if value == 0x3e
    then ok error
    else if value == 0x3f
    then ok handshake
    else err (invalid_opcode value)

pub data Priority : Type 0 where
  normal low high critical : Priority

unfoldable pub priority_as_u8 : Priority → ℕ
priority_as_u8 normal = 0
priority_as_u8 low = 1
priority_as_u8 high = 2
priority_as_u8 critical = 3

unfoldable pub priority_from_u8 : ℕ → Result FrameError Priority
priority_from_u8 value =
    if value == 0
    then ok normal
    else if value == 1
    then ok low
    else if value == 2
    then ok high
    else if value == 3
    then ok critical
    else err (invalid_opcode value)

pub record Flags : Type 0 where
  pub opcode : Opcode
  pub end_of_stream : Bool
  pub no_reply : Bool
  pub batch_follows : Bool
  pub priority : Priority

-- `if flag { bits |= 1 << k }`.
unfoldable pub set_bit : Bool → ℕ → ℕ → ℕ
set_bit flag k bits = if flag then bit_or bits (2 ^ k) else bits

unfoldable pub encode_flags : Flags → ℕ
encode_flags f =
    let bits : ℕ = bit_or 0 (bit_and (opcode_as_u8 f.opcode) 0x3f) in
    let bits : ℕ = set_bit f.end_of_stream 6 bits in
    let bits : ℕ = set_bit f.no_reply 7 bits in
    let bits : ℕ = set_bit f.batch_follows 8 bits in
    bit_or bits (bit_and (priority_as_u8 f.priority) 0x03 * 2 ^ 9)

-- `(bits >> k) & 1 == 1`.
unfoldable pub test_bit : ℕ → ℕ → Bool
test_bit bits k = bit_and (bits / 2 ^ k) 1 == 1

unfoldable pub decode_flags : ℕ → Result FrameError Flags
decode_flags bits = do
  opcode ← opcode_from_u8 (bit_and bits 0x3f)
  priority ← priority_from_u8 (bit_and (bits / 2 ^ 9) 0x03)
  ok (record {
    opcode = opcode;
    end_of_stream = test_bit bits 6;
    no_reply = test_bit bits 7;
    batch_follows = test_bit bits 8;
    priority = priority;
  })
