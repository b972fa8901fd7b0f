-- ===== src/Transport/Frame/Wire.antt =====
-- What `write_frame` puts on the wire.
use mongocore.Prelude.{
  ℕ, ◌+◌, ◌^◌, ◌≤◌, ◌<◌, Bytes, ltb, Bool-cases, ◌≡◌, refl, sym, ap, ◌∙◌, inl, inr, ◌++◌,
  append_assoc, length, length-append, take, drop, take-append-drop, ok, Result, map_err,
  map_err-eq-ok, >>=-eq-ok, ok_injective, arith, if◌then◌else◌, List, [], ◌∷◌, zero, suc,
}
use mongocore.Transport.Flags.{FrameError, io}
use mongocore.Transport.Frame.{
  Frame, Writer, encode_header, computed_header, header_size, write_frame,
}
use mongocore.Transport.Frame.Header.{length-encode_header}

unfoldable pub wire : Frame → Bytes
wire frame = encode_header (computed_header frame) ++ (frame.envelope ++ frame.raw_docs)

pub length-wire :
    (frame : Frame)
    → length (wire frame) ≡ header_size + length frame.envelope + length frame.raw_docs
unfolding wire
length-wire frame = omega (
  arith,
  length-append (encode_header (computed_header frame)) (frame.envelope ++ frame.raw_docs),
  length-append frame.envelope frame.raw_docs,
  length-encode_header (computed_header frame),
)

-- `msg_len` counts all that follows it: the frame on the wire without the field's own four bytes.
msg_len-wire :
    (frame : Frame)
    → length (wire frame) < 2 ^ 32 + 4
    → (computed_header frame).msg_len + 4 ≡ length (wire frame)
unfolding computed_header
msg_len-wire frame h = omega (arith, length-wire frame)

take_all {ℓ} : {A : Type ℓ} (n : ℕ) (xs : List A) → length xs ≤ n → take n xs ≡ xs
take_all zero [] h = refl
take_all zero (x ∷ xs) h = absurd (omega arith)
take_all (suc n) [] h = refl
take_all (suc n) (x ∷ xs) h = ap (◌∷◌ x) (take_all n xs (omega arith))

module _ (w : Writer) where
  open w use {State, sent, write_vectored, write_all, write_vectored_sent, write_all_sent}

  rest_sent :
      (all before : Bytes) (s' t : State) (n : ℕ)
      → sent s' ≡ before ++ take n all
      → (if ltb n (length all) then map_err io (write_all (drop n all) s') else ok s') ≡ ok t
      → sent t ≡ before ++ all
  rest_sent all before s' t n h q = elim (Bool-cases (ltb n (length all))) [
    | inl part ↦
        let written : map_err io (write_all (drop n all) s') ≡ ok t = rw part at q in
        write_all_sent (drop n all) s' t (map_err-eq-ok io _ written)
        ∙ rw (h, append_assoc, take-append-drop)
    | inr whole ↦
        let done : ◌≡◌ {A = Result FrameError State} (ok s') (ok t) = rw whole at q in
        ap sent (sym (ok_injective done)) ∙ rw (h, take_all n all (ground arith))
  ]

  -- A write that succeeds sends the header and then the whole content, also when the socket took
  -- the vectored write only in part.
  pub write_frame-sent :
      (frame : Frame) (s t : State) → write_frame w frame s ≡ ok t → sent t ≡ sent s ++ wire frame
  unfolding write_frame wire
  write_frame-sent frame s t h =
      let header = encode_header (computed_header frame) in
      let ((n, s'), first, rest) =
        >>=-eq-ok (map_err io (write_vectored header frame.envelope frame.raw_docs s)) _ h in
      let taken =
        write_vectored_sent header frame.envelope frame.raw_docs s n s'
          (map_err-eq-ok io _ first) in
      rest_sent (wire frame) (sent s) s' t n taken.1 (rw length-wire rest)
