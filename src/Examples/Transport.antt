-- ===== src/Examples/Transport.antt =====
-- The theorems on the transport, at concrete frames and connections.
use mongocore.Prelude.{◌≤◌, Bytes, ◌≡◌, refl, true, false, List, [], ◌∷◌, ◌++◌, length, ok, arith}
use mongocore.Transport.Flags.{
  set_bit, opcode_as_u8, priority_as_u8, opcode_from_u8, priority_from_u8, test_bit, Opcode,
  Priority, low, normal, high, critical, Flags, encode_flags, decode_flags,
}
use mongocore.Transport.Frame.{
  Frame, FrameHeader, Reader, encode_header, decode_header, computed_header, write_frame,
  split_payload, read_payload, read_frame, header_size,
}
use mongocore.Transport.Frame.Wire.{wire, write_frame-sent}
use mongocore.Transport.Frame.Receive.{IsDelimited, read_frame-wire}
use mongocore.Transport.Frame.Sound.{read_frame_sound}
use mongocore.Transport.BufferPool.{BufferPool, new_pool, read_frame_pooled}
use mongocore.Transport.BufferPool.Pooled.{read_frame_pooled-eq-read_frame}
use mongocore.Transport.Queue.{new, push_frames}
use mongocore.Transport.Queue.Order.{drain, by_class, drain-push_frames}
use mongocore.Examples.Instances.{fixed_reader, partial_writer, list_buffers, Doc, int}

abbrev some_flags : Flags
some_flags = record {
  opcode = Opcode.find;
  end_of_stream = true;
  no_reply = false;
  batch_follows = true;
  priority = high;
}

abbrev header : FrameHeader
header = record { msg_len = 13; flags = some_flags; req_id = 70000 }

-- An empty BSON document, then two bytes of raw documents.
abbrev frame : Frame
frame = record { header = header; envelope = 5 ∷ 0 ∷ 0 ∷ 0 ∷ 0 ∷ []; raw_docs = 9 ∷ 9 ∷ [] }

envelope-IsDelimited : IsDelimited frame.envelope
envelope-IsDelimited = record { long = omega arith; exact = refl }

-- The socket takes sixteen bytes at first; `write_all` sends the other one.
write_frame_example : (7 ∷ wire frame) ≡ 7 ∷ wire frame
unfolding write_frame wire encode_header computed_header encode_flags set_bit opcode_as_u8
    priority_as_u8 opcode_from_u8 priority_from_u8 test_bit
write_frame_example = write_frame-sent partial_writer frame (7 ∷ []) (7 ∷ wire frame) refl

read_frame_example :
    (s' : Reader.State fixed_reader) × (read_frame fixed_reader 4096 (wire frame ++ 1 ∷ 2 ∷ [])
      ≡ ok (record frame { header = computed_header frame }, s'))
    × (Reader.incoming fixed_reader s' ≡ 1 ∷ 2 ∷ [])
read_frame_example =
    read_frame-wire fixed_reader 4096 frame (1 ∷ 2 ∷ []) (wire frame ++ 1 ∷ 2 ∷ [])
      envelope-IsDelimited (omega arith) (omega arith) (omega arith) refl

read_frame_sound_example :
    (header_bytes : Bytes) × (length header_bytes ≡ header_size)
    × (decode_header header_bytes ≡ ok header)
    × (13 ≤ 4096)
    × (length (frame.envelope ++ frame.raw_docs) ≡ 7)
    × (wire frame ++ 1 ∷ 2 ∷ []
        ≡ header_bytes ++ ((frame.envelope ++ frame.raw_docs) ++ 1 ∷ 2 ∷ []))
unfolding read_frame read_payload split_payload encode_header decode_header encode_flags
    decode_flags set_bit opcode_as_u8 priority_as_u8 opcode_from_u8 priority_from_u8 test_bit wire
    computed_header
read_frame_sound_example =
    read_frame_sound fixed_reader 4096 (wire frame ++ 1 ∷ 2 ∷ []) (1 ∷ 2 ∷ []) frame refl

abbrev three_frames : List Frame
three_frames = with_priority low ∷ with_priority critical ∷ with_priority normal ∷ []
  where
    with_priority : Priority → Frame
    with_priority p = record frame {
      header = record header { flags = record some_flags { priority = p } };
    }

drain_example : drain 3 (push_frames new three_frames) ≡ by_class three_frames
drain_example = drain-push_frames three_frames

-- A small pool of one, two and no buffers.
abbrev pool : BufferPool list_buffers
pool = new_pool list_buffers (record { small_count = 1; medium_count = 2; large_count = 0 })

pooled_example :
    (read_frame_pooled list_buffers fixed_reader 4096 (wire frame) pool).0
    ≡ read_frame fixed_reader 4096 (wire frame)
pooled_example = read_frame_pooled-eq-read_frame list_buffers fixed_reader 4096 (wire frame) pool

abbrev answer_parts : Doc × Bytes
answer_parts = (("doc_bytes_len", int 3) ∷ [], 4 ∷ 5 ∷ 6 ∷ [])
