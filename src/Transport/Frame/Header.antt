-- ===== src/Transport/Frame/Header.antt =====
-- The ten bytes of a header.
use mongocore.Prelude.{◌^◌, ◌<◌, ◌≡◌, refl, ok, length, arith, u32_be_bytes, u16_be_bytes}
use mongocore.Transport.Flags.{encode_flags}
use mongocore.Transport.Flags.RoundTrip.{decode_flags-encode_flags, encode_flags-lt}
use mongocore.Transport.Frame.{FrameHeader, encode_header, decode_header, header_size}

pub length-encode_header : (h : FrameHeader) → length (encode_header h) ≡ header_size
unfolding encode_header
length-encode_header h = refl

-- A header whose numbers fit in 32 bits survives its encoding.
pub decode_header-encode_header :
    (h : FrameHeader)
    → h.msg_len < 2 ^ 32
    → h.req_id < 2 ^ 32
    → decode_header (encode_header h) ≡ ok h
unfolding decode_header encode_header
decode_header-encode_header h hm hr = rw (
  u32_be_bytes h.msg_len hm,
  u32_be_bytes h.req_id hr,
  u16_be_bytes (encode_flags h.flags) (omega (arith, encode_flags-lt h.flags)),
  decode_flags-encode_flags h.flags,
)
