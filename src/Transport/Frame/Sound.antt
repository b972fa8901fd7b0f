-- ===== src/Transport/Frame/Sound.antt =====
-- Whatever `read_frame` accepts, it accounts for every byte that it took.
use mongocore.Prelude.{
  subst, sym, ap, ◌∙◌, ℕ, ◌-◌, ◌≤◌, ltb, ◌==◌, Bytes, Bool-cases, ◌≡◌, refl, ap, ◌∙◌, inl, inr, [],
  ◌++◌, length, ok, map_err, map_err-eq-ok, >>=-eq-ok, ok_injective, ◌>>=◌, arith,
}
use mongocore.Transport.Flags.{io}
use mongocore.Transport.Frame.{
  Frame, FrameHeader, Reader, decode_header, header_size, split_payload, read_payload, read_frame,
}
use mongocore.Transport.Frame.Receive.{split_payload-lossless, read_exact_taken}

module _ (r : Reader) where
  open r use {State, incoming, read_exact}

  -- The payload has the stated length, and is the frame's two parts.
  abbrev pub Payload : FrameHeader → State → Frame → State → Type 0
  Payload h s frame s' =
      (frame.header ≡ h)
      × (length (frame.envelope ++ frame.raw_docs) ≡ h.msg_len - 6)
      × (incoming s ≡ (frame.envelope ++ frame.raw_docs) ++ incoming s')

  read_payload_sound :
      (h : FrameHeader) (s s' : State) (frame : Frame)
      → read_payload r h s ≡ ok (frame, s')
      → Payload h s frame s'
  unfolding read_payload
  read_payload_sound h s s' frame e = elim (Bool-cases (h.msg_len - 6 == 0)) [
    | inl empty ↦
        let same : ◌≡◌ {A = Frame × State} (record { header = h; envelope = []; raw_docs = [] }, s)
            (frame, s') =
          ok_injective (rw empty at e) in
        subst (λ (p : Frame × State). Payload h s p.0 p.1) same (refl, ground arith, refl)
    | inr more ↦
        let tail : (map_err io (read_exact (h.msg_len - 6) s) >>= λ (payload, t).
        split_payload h payload >>= λ f. ok (f, t))
            ≡ ok (frame, s') =
          rw more at e in
        let ((payload, t), got, rest) =
          >>=-eq-ok (map_err io (read_exact (h.msg_len - 6) s))
            (λ (payload, t). split_payload h payload >>= λ f. ok (f, t)) tail in
        let (f, split, last) = >>=-eq-ok (split_payload h payload) (λ f. ok (f, t)) rest in
        let (len, taken) =
          read_exact_taken r (h.msg_len - 6) s t payload (map_err-eq-ok io _ got) in
        let (head, parts) = split_payload-lossless h payload f split in
        subst (λ (p : Frame × State). Payload h s p.0 p.1) (ok_injective last)
          (head, ap length parts ∙ len, taken ∙ ap (λ (b : Bytes). b ++ incoming t) (sym parts))
  ]

  -- A frame that is read comes from ten bytes that decode to its header, and from a payload of
  -- exactly the stated length, within the limit; the rest of the stream is untouched.
  pub read_frame_sound :
      (max_frame_size : ℕ) (s s' : State) (frame : Frame)
      → read_frame r max_frame_size s ≡ ok (frame, s')
      → (header_bytes : Bytes) × (length header_bytes ≡ header_size)
        × (decode_header header_bytes ≡ ok frame.header)
        × (frame.header.msg_len ≤ max_frame_size)
        × (length (frame.envelope ++ frame.raw_docs) ≡ frame.header.msg_len - 6)
        × (incoming s ≡ header_bytes ++ ((frame.envelope ++ frame.raw_docs) ++ incoming s'))
  unfolding read_frame
  read_frame_sound max s s' frame e =
      let ((head, t), got, rest) = >>=-eq-ok (map_err io (read_exact header_size s)) _ e in
      let (h, decoded, rest₂) = >>=-eq-ok (decode_header head) _ rest in
      let (len, taken) = read_exact_taken r header_size s t head (map_err-eq-ok io _ got) in
      elim (Bool-cases (ltb max h.msg_len)) [
        | inl over ↦ absurd (ground (arith, rest₂))
        | inr fits ↦
            let (same, size, payload) = read_payload_sound h t s' frame (rw fits at rest₂) in
            (
              head,
              len,
              decoded ∙ ap ok (sym same),
              subst (λ (g : FrameHeader). g.msg_len ≤ max) (sym same) (ground arith),
              size ∙ ap (λ (g : FrameHeader). g.msg_len - 6) (sym same),
              taken ∙ ap (◌++◌ head) payload,
            )
      ]
