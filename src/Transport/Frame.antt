-- ===== src/Transport/Frame.antt =====
-- src/transport/frame.rs: the header, the frame, and its way over a socket. The socket is a
-- parameter: `Reader` and `Writer` say what tokio documents of a `UnixStream`.
pub mod Header
pub mod Wire
pub mod Receive
pub mod Sound
use mongocore.Prelude.{
  ℕ, ◌+◌, ◌-◌, ◌%◌, ◌^◌, ◌≤◌, ◌<◌, ltb, ◌==◌, if◌then◌else◌, Bytes, u16_to_be_bytes,
  u32_to_be_bytes, u16_from_be_bytes, u32_from_be_bytes, i32_from_le_bytes, i32_as_usize, String,
  ◌≡◌, Bool, List, [], ◌∷◌, ◌++◌, length, take, drop, get_elem?, unwrap_or, Option, Result, ok, err,
  ◌>>=◌, map_err,
}
use mongocore.Transport.Flags.{
  FrameError, Flags, encode_flags, decode_flags, frame_too_large, malformed_envelope, io,
}

abbrev pub header_size : ℕ
header_size = 10

pub record FrameHeader : Type 0 where
  pub msg_len : ℕ
  pub flags : Flags
  pub req_id : ℕ

unfoldable pub encode_header : FrameHeader → Bytes
encode_header h =
    u32_to_be_bytes h.msg_len
    ++ (u16_to_be_bytes (encode_flags h.flags) ++ u32_to_be_bytes h.req_id)

-- `buf[i]` of a `[u8; 10]`, which has all ten.
abbrev byte_at : Bytes → ℕ → ℕ
byte_at buf i = unwrap_or 0 (get_elem? buf i)

unfoldable pub decode_header : Bytes → Result FrameError FrameHeader
decode_header buf = do
  let msg_len = u32_from_be_bytes (byte_at buf 0) (byte_at buf 1) (byte_at buf 2) (byte_at buf 3)
  flags ← decode_flags (u16_from_be_bytes (byte_at buf 4) (byte_at buf 5))
  let req_id = u32_from_be_bytes (byte_at buf 6) (byte_at buf 7) (byte_at buf 8) (byte_at buf 9)
  ok (record { msg_len = msg_len; flags = flags; req_id = req_id })

pub record Frame : Type 0 where
  pub header : FrameHeader
  pub envelope : Bytes
  pub raw_docs : Bytes

-- The reading half of a socket: `incoming` is what arrives before the peer closes. `read_exact`
-- fills its buffer, or fails at the end of the stream.
pub record Reader : Type 1 where
  pub State : Type 0
  pub incoming : State → Bytes
  pub read_exact : ℕ → State → Result String (Bytes × State)
  pub read_exact_full :
      (n : ℕ) (s : State)
      → n ≤ length (incoming s)
      → (s' : State) × (read_exact n s ≡ ok (take n (incoming s), s'))
        × (incoming s' ≡ drop n (incoming s))
  pub read_exact_short :
      (n : ℕ) (s : State)
      → length (incoming s) < n
      → (message : String) × (read_exact n s ≡ err message)

-- The writing half: `sent` is what has gone out. `write_vectored` may take a part only.
pub record Writer : Type 1 where
  pub State : Type 0
  pub sent : State → Bytes
  pub write_vectored : Bytes → Bytes → Bytes → State → Result String (ℕ × State)
  pub write_all : Bytes → State → Result String State
  pub flush : State → Result String State
  -- The socket after a failed write.
  pub after_error : State → State
  pub write_vectored_sent :
      (a b c : Bytes) (s : State) (n : ℕ) (s' : State)
      → write_vectored a b c s ≡ ok (n, s')
      → (n ≤ length (a ++ (b ++ c))) × (sent s' ≡ sent s ++ take n (a ++ (b ++ c)))
  pub write_all_sent :
      (bytes : Bytes) (s s' : State) → write_all bytes s ≡ ok s' → sent s' ≡ sent s ++ bytes
  pub flush_sent : (s s' : State) → flush s ≡ ok s' → sent s' ≡ sent s

-- The header that `write_frame` computes, `msg_len` included.
unfoldable pub computed_header : Frame → FrameHeader
computed_header frame = record frame.header {
  msg_len = (6 + (length frame.envelope + length frame.raw_docs)) % 2 ^ 32;
}

module _ (w : Writer) where
  open w use {State, write_vectored, write_all}

  unfoldable pub write_frame : Frame → State → Result FrameError State
  write_frame frame s =
      let header_bytes = encode_header (computed_header frame) in
      let total_len = header_size + length frame.envelope + length frame.raw_docs in
      map_err io (write_vectored header_bytes frame.envelope frame.raw_docs s) >>= λ (written, s').
      if ltb written total_len
      then map_err io
          (write_all (drop written (header_bytes ++ (frame.envelope ++ frame.raw_docs))) s')
      else ok s'

-- The first four bytes of the payload hold the envelope's size.
unfoldable pub split_payload : FrameHeader → Bytes → Result FrameError Frame
split_payload header payload =
    let bson_size : ℕ = i32_as_usize (
      i32_from_le_bytes (byte_at payload 0) (byte_at payload 1) (byte_at payload 2)
        (byte_at payload 3)) in
    if ltb (length payload) 4
    then err (malformed_envelope "payload too short to contain BSON size")
    else if ltb (length payload) bson_size
    then err (malformed_envelope "BSON size exceeds payload length")
    else ok (record {
      header = header;
      envelope = take bson_size payload;
      raw_docs = drop bson_size payload;
    })

module _ (r : Reader) where
  open r use {State, read_exact}

  -- `read_frame`, from the header on: the payload follows unless it is empty.
  unfoldable pub read_payload : FrameHeader → State → Result FrameError (Frame × State)
  read_payload header s =
      let payload_len : ℕ = header.msg_len - 6 in
      if payload_len == 0
      then ok (record { header = header; envelope = []; raw_docs = [] }, s)
      else (map_err io (read_exact payload_len s) >>= λ (payload, s').
          split_payload header payload >>= λ frame. ok (frame, s'))

  unfoldable pub read_frame : ℕ → State → Result FrameError (Frame × State)
  read_frame max_frame_size s = map_err io (read_exact header_size s) >>= λ (header_buf, s').
      decode_header header_buf >>= λ header.
      if ltb max_frame_size header.msg_len then err frame_too_large else read_payload header s'
