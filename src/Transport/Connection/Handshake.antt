-- ===== src/Transport/Connection/Handshake.antt =====
-- The opening of a connection, and the frame that announces its end.
use mongocore.Prelude.{
  le→ltb, ◌≤◌, append_assoc, arith, ℕ, Bytes, ◌≡◌, refl, sym, ap, ◌∙◌, true, Bool-cases, inl, inr,
  ◌++◌, Result, Result-cases, ok, err,
}
use mongocore.Transport.Flags.{FrameError, malformed_envelope, Opcode}
use mongocore.Transport.Frame.{
  Frame, FrameHeader, Reader, Writer, write_frame, computed_header, encode_header, split_payload,
  read_payload, read_frame, header_size,
}
use mongocore.Transport.Frame.Header.{length-encode_header, decode_header-encode_header}
use mongocore.Transport.Frame.Wire.{wire, write_frame-sent}
use mongocore.Transport.Frame.Receive.{read_exact_append}
use mongocore.Transport.Codec.{Bson, OperationRequest, handshake_response}
use mongocore.Transport.Codec.Parse.{parse_envelope}
use mongocore.Transport.Codec.Parse.Agreement.{request_opcode, parse_envelope-agrees}
use mongocore.Transport.Codec.Encode.{encode_response}
use mongocore.Transport.Connection.{
  ConnectionConfig, Opened, opened, open_connection, handle_handshake, is_handshake, reply_frame,
  shutdown_frame,
}

handshake_eq : (op : Opcode) → is_handshake op ≡ true → op ≡ Opcode.handshake
unfolding is_handshake
handshake_eq Opcode.handshake h = refl
handshake_eq _ h = cc h

-- The answer to a handshake request is the server's limits.
handle_handshake-limits :
    {D : Type 0} (req : OperationRequest D) (a b : ℕ)
    → request_opcode req ≡ Opcode.handshake
    → handle_handshake req a b ≡ handshake_response a b
unfolding handle_handshake
handle_handshake-limits (OperationRequest.handshake _) a b h = refl
handle_handshake-limits _ a b h = cc h

module _ (lib : Bson) (w : Writer) where
  open w use {State, sent}

  -- A connection opens only on a handshake frame whose envelope is valid, and then has sent one
  -- frame: the limits of the configuration, under the request's id.
  pub open_connection-opened :
      (config : ConnectionConfig) (first : Result FrameError Frame) (s t : State)
      → open_connection lib w config first s ≡ opened t
      → (f : Frame) × (envelope : Bytes) × (raw_docs : Bytes) × (first ≡ ok f)
        × (f.header.flags.opcode ≡ Opcode.handshake)
        × (encode_response lib (handshake_response config.max_frame_size config.max_concurrent)
            ≡ ok (envelope, raw_docs))
        × (sent t ≡ sent s ++ wire (reply_frame Opcode.handshake f.header.req_id envelope raw_docs))
  unfolding open_connection
  open_connection-opened config (err e) s t h = cc h
  open_connection-opened config (ok f) s t h =
      elim (Bool-cases (is_handshake f.header.flags.opcode)) [
        | inr other ↦ cc (rw (other, open_connection) at h)
        | inl hs ↦ elim (Result-cases (parse_envelope lib f.envelope Opcode.handshake)) [
          | inr (e, p) ↦ cc (rw (hs, open_connection, p) at h)
          | inl (req, p) ↦
              elim (Result-cases (
                encode_response lib
                  (handle_handshake req config.max_frame_size config.max_concurrent))) [
                    | inr (e, q) ↦ cc (rw (hs, open_connection, p, q) at h)
                    | inl ((env, docs), q) ↦
                        elim (Result-cases (
                          write_frame w (reply_frame Opcode.handshake f.header.req_id env docs)
                            s)) [
                              | inr (e, r) ↦ cc (rw (hs, open_connection, p, q, r) at h)
                              | inl (s', r) ↦
                                  let (d, parsed, op, db) =
                                    parse_envelope-agrees lib f.envelope Opcode.handshake req p in
                                  let end : ◌≡◌ {A = Opened lib w} (opened s') (opened t) =
                                    rw (hs, open_connection, p, q, r) at h in
                                  let same : s' ≡ t = cc end in
                                  (
                                    f,
                                    env,
                                    docs,
                                    refl,
                                    handshake_eq f.header.flags.opcode hs,
                                    ap (encode_response lib)
                                          (sym (handle_handshake-limits req _ _ op))
                                        ∙ q,
                                    ap sent (sym same) ∙ write_frame-sent w _ s s' r,
                                  )
                            ]
                  ]
        ]
      ]

-- The announcement of the end is no frame that the protocol's own reader accepts: its envelope is
-- JSON text, whose first four bytes state a size beyond the payload.
split_payload-shutdown :
    (h : FrameHeader)
    → split_payload h (shutdown_frame.envelope ++ shutdown_frame.raw_docs)
      ≡ err (malformed_envelope "BSON size exceeds payload length")
unfolding split_payload shutdown_frame reply_frame
split_payload-shutdown h = refl

module _ (r : Reader) where
  open r use {State, incoming, read_exact}

  -- Whoever reads the shutdown frame with `read_frame` gets an error instead of the announcement,
  -- whatever follows on the stream and whatever the limit, from the frame's own size on.
  read_frame-shutdown :
      (max_frame_size : ℕ) (rest : Bytes) (s : State)
      → (computed_header shutdown_frame).msg_len ≤ max_frame_size
      → incoming s ≡ wire shutdown_frame ++ rest
      → read_frame r max_frame_size s ≡ err (malformed_envelope "BSON size exceeds payload length")
  unfolding read_frame read_payload wire computed_header shutdown_frame reply_frame
  read_frame-shutdown max rest s fits e =
      let h = computed_header shutdown_frame in
      let payload = shutdown_frame.envelope ++ shutdown_frame.raw_docs in
      let (s₁, got, left) =
        read_exact_append r (encode_header h) (payload ++ rest) s
          (e ∙ append_assoc (encode_header h) payload rest) in
      let (s₂, got₂, left₂) = read_exact_append r payload rest s₁ left in
      let got₁₀ : read_exact header_size s ≡ ok (encode_header h, s₁) =
        rw (length-encode_header h) at got in
      rw (
        got₁₀,
        decode_header-encode_header h (omega arith) (omega arith),
        le→ltb max h.msg_len (omega arith),
        got₂,
        split_payload-shutdown h,
      )
