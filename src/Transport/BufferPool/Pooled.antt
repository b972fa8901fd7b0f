-- ===== src/Transport/BufferPool/Pooled.antt =====
-- The pooled read against the plain one.
use mongocore.Prelude.{
  ℕ, ◌-◌, ◌≤◌, ◌<◌, leb, ltb, ◌==◌, Bool-cases, true, false, ◌≡◌, inl, inr, List, ◌∷◌, Result-cases,
  map_err, arith,
}
use mongocore.Transport.Flags.{io}
use mongocore.Transport.Frame.{
  FrameHeader, Reader, decode_header, header_size, read_payload, read_frame,
}
use mongocore.Transport.BufferPool.{
  Buffers, BufferPool, small_size, take_from, checkout, read_payload_pooled, read_frame_pooled,
}

module _ (lib : Buffers) (r : Reader) where
  open lib use {Buffer, queued, resize, length-resize, pop_front}
  open r use {State, read_exact}

  read_payload_pooled-eq :
      (header : FrameHeader) (s : State) (p : BufferPool lib)
      → (read_payload_pooled lib r header s p).0 ≡ read_payload r header s
  unfolding read_payload_pooled read_payload
  read_payload_pooled-eq header s p = elim (Bool-cases (header.msg_len - 6 == 0)) [
    | inl empty ↦ rw empty
    | inr more ↦ rw (more, length-resize)
  ]

  -- The buffer pool changes nothing in what is read, errors included.
  pub read_frame_pooled-eq-read_frame :
      (max_frame_size : ℕ) (s : State) (p : BufferPool lib)
      → (read_frame_pooled lib r max_frame_size s p).0 ≡ read_frame r max_frame_size s
  unfolding read_frame_pooled read_frame
  read_frame_pooled-eq-read_frame max s p =
      elim (Result-cases (map_err io (read_exact header_size s))) [
        | inl ((head, s'), e) ↦ elim (Result-cases (decode_header head)) [
          | inl (h, d) ↦ elim (Bool-cases (ltb max h.msg_len)) [
            | inl over ↦ rw (e, read_frame_pooled, d, over)
            | inr fits ↦ rw (e, read_frame_pooled, d, fits) (read_payload_pooled-eq h s' p)
          ]
          | inr (f, d) ↦ rw (e, read_frame_pooled, d)
        ]
        | inr (f, e) ↦ rw (e, read_frame_pooled)
      ]

  -- Reading a payload of at most 4 KiB takes the front buffer out of the small queue for good, also
  -- when the read fails.
  read_payload_pooled_drains :
      (header : FrameHeader) (s : State) (p : BufferPool lib) (b : Buffer) (bs : List Buffer)
      → queued p.small ≡ b ∷ bs
      → 6 < header.msg_len
      → header.msg_len ≤ small_size
      → queued (read_payload_pooled lib r header s p).1.small ≡ bs
  unfolding read_payload_pooled checkout take_from
  read_payload_pooled_drains header s p b bs e lo hi =
      let (q', popped, left, same) = pop_front p.small b bs e in
      let more : (header.msg_len - 6 == 0) ≡ false = ground arith in
      let fits : leb (header.msg_len - 6) small_size ≡ true = ground arith in
      rw (more, fits, popped, take_from) left
