-- ===== src/Transport/Frame/Receive.antt =====
-- What `read_frame` makes of the bytes that arrive.
use mongocore.Prelude.{
  ℕ, zero, suc, ◌+◌, ◌-◌, ◌^◌, ◌≤◌, ◌<◌, ltb, leb, le→ltb, ◌==◌, Bytes, i32_from_le_bytes,
  i32_as_usize, Bool-cases, ◌≡◌, refl, sym, ap, ap₂, false, ◌∙◌, subst, inl, inr, [], ◌∷◌, ◌++◌,
  append_assoc, length, length-append, take, drop, take-append, drop-append, take-append-drop,
  length-take, get_elem?, ok, Result, ok_injective, arith, unwrap_or,
}
use mongocore.Transport.Flags.{FrameError}
use mongocore.Transport.Frame.{
  Frame, FrameHeader, Reader, byte_at, encode_header, computed_header, header_size, split_payload,
  read_payload, read_frame,
}
use mongocore.Transport.Frame.Header.{length-encode_header, decode_header-encode_header}
use mongocore.Transport.Frame.Wire.{wire}

-- The size that an envelope states of itself, as `split_payload` reads it.
abbrev pub stated_size : Bytes → ℕ
stated_size bytes =
    i32_as_usize
      (i32_from_le_bytes (byte_at bytes 0) (byte_at bytes 1) (byte_at bytes 2) (byte_at bytes 3))

-- A BSON document begins with its own length.
pub record IsDelimited (envelope : Bytes) : Type 0 where
  pub long : 4 ≤ length envelope
  pub exact : stated_size envelope ≡ length envelope

get_elem?-append_left :
    (i : ℕ) (xs ys : Bytes) → i < length xs → get_elem? (xs ++ ys) i ≡ get_elem? xs i
get_elem?-append_left i [] ys h = absurd (omega arith)
get_elem?-append_left zero (x ∷ xs) ys h = refl
get_elem?-append_left (suc i) (x ∷ xs) ys h = get_elem?-append_left i xs ys (omega arith)

byte_at-append : (i : ℕ) (xs ys : Bytes) → i < length xs → byte_at (xs ++ ys) i ≡ byte_at xs i
byte_at-append i xs ys h = ap (unwrap_or 0) (get_elem?-append_left i xs ys h)

stated_size-append : (xs ys : Bytes) → 4 ≤ length xs → stated_size (xs ++ ys) ≡ stated_size xs
stated_size-append xs ys h = rw (
  byte_at-append 0 xs ys (omega arith),
  byte_at-append 1 xs ys (omega arith),
  byte_at-append 2 xs ys (omega arith),
  byte_at-append 3 xs ys (omega arith),
)

-- The split undoes the concatenation of an envelope that states its size and any documents.
split_payload-append :
    (h : FrameHeader) (envelope raw_docs : Bytes)
    → IsDelimited envelope
    → split_payload h (envelope ++ raw_docs)
      ≡ ok (record { header = h; envelope = envelope; raw_docs = raw_docs })
unfolding split_payload
split_payload-append h envelope raw_docs d =
    let size : stated_size (envelope ++ raw_docs) ≡ length envelope =
      stated_size-append envelope raw_docs d.long ∙ d.exact in
    rw (
      size,
      le→ltb (length (envelope ++ raw_docs)) 4
          (omega (arith, d.long, length-append envelope raw_docs)),
      le→ltb (length (envelope ++ raw_docs)) (length envelope)
          (omega (arith, length-append envelope raw_docs)),
      take-append envelope raw_docs,
      drop-append envelope raw_docs,
    )

-- A split loses no byte.
pub split_payload-lossless :
    (h : FrameHeader) (payload : Bytes) (frame : Frame)
    → split_payload h payload ≡ ok frame
    → (frame.header ≡ h) × (frame.envelope ++ frame.raw_docs ≡ payload)
unfolding split_payload
split_payload-lossless h payload frame e = elim (Bool-cases (ltb (length payload) 4)) [
  | inl short ↦ cc (rw short at e)
  | inr long ↦ elim (Bool-cases (ltb (length payload) (stated_size payload))) [
    | inl over ↦ cc (rw (long, over) at e)
    | inr fits ↦
        let parts : ◌≡◌ {A = Result FrameError Frame}
            (ok (record {
              header = h;
              envelope = take (stated_size payload) payload;
              raw_docs = drop (stated_size payload) payload;
            }))
            (ok frame) =
          rw (long, fits) at e in
        let same = ok_injective parts in
        (
          ap (λ (f : Frame). f.header) (sym same),
          subst (λ (f : Frame). f.envelope ++ f.raw_docs ≡ payload) same
              (take-append-drop (stated_size payload) payload),
        )
  ]
]

module _ (r : Reader) where
  open r use {State, incoming, read_exact, read_exact_full, read_exact_short}

  -- `read_exact` succeeds only by taking bytes that are there.
  pub read_exact_taken :
      (n : ℕ) (s s' : State) (bytes : Bytes)
      → read_exact n s ≡ ok (bytes, s')
      → (length bytes ≡ n) × (incoming s ≡ bytes ++ incoming s')
  read_exact_taken n s s' bytes e = elim (Bool-cases (leb n (length (incoming s)))) [
    | inl fits ↦
        let (t, got, rest) = read_exact_full n s (ground arith) in
        let same : ◌≡◌ {A = Bytes × State} (take n (incoming s), t) (bytes, s') =
          ok_injective (sym got ∙ e) in
        let eb : take n (incoming s) ≡ bytes = ap (λ (p : Bytes × State). p.0) same in
        let es : t ≡ s' = ap (λ (p : Bytes × State). p.1) same in
        (
          ap length (sym eb) ∙ length-take n (incoming s) (ground arith),
          sym (take-append-drop n (incoming s)) ∙ ap₂ ◌++◌ eb (sym rest ∙ ap incoming es),
        )
    | inr short ↦ let (message, failed) = read_exact_short n s (ground arith) in cc (sym failed ∙ e)
  ]

  pub read_exact_append :
      (xs rest : Bytes) (s : State)
      → incoming s ≡ xs ++ rest
      → (s' : State) × (read_exact (length xs) s ≡ ok (xs, s')) × (incoming s' ≡ rest)
  read_exact_append xs rest s e =
      let fits : length xs ≤ length (incoming s) =
        omega (arith, ap length e, length-append xs rest) in
      let (t, got, left) = read_exact_full (length xs) s fits in
      (
        t,
        got ∙ ap (λ (b : Bytes). ok (b, t)) (ap (take (length xs)) e ∙ take-append xs rest),
        left ∙ ap (drop (length xs)) e ∙ drop-append xs rest,
      )

  -- From the header on: the payload of the stated length, split where the envelope ends.
  read_payload-append :
      (frame : Frame) (h : FrameHeader) (rest : Bytes) (s : State)
      → IsDelimited frame.envelope
      → h.msg_len ≡ 6 + (length frame.envelope + length frame.raw_docs)
      → incoming s ≡ (frame.envelope ++ frame.raw_docs) ++ rest
      → (s' : State) × (read_payload r h s ≡ ok (record frame { header = h }, s'))
        × (incoming s' ≡ rest)
  unfolding read_payload
  read_payload-append frame h rest s d hm e =
      let payload = frame.envelope ++ frame.raw_docs in
      let (s', got, left) = read_exact_append payload rest s e in
      let size : h.msg_len - 6 ≡ length payload =
        omega (arith, length-append frame.envelope frame.raw_docs) in
      let some_bytes : (length payload == 0) ≡ false =
        ground (arith, length-append frame.envelope frame.raw_docs, d.long) in
      (s', rw (size, some_bytes, got, split_payload-append h frame.envelope frame.raw_docs d), left)

  -- A frame whose envelope begins with its own length, within the size limit and with a 32-bit request
  -- id, is read back from the bytes on the wire as it was written, with the header that `write_frame`
  -- computed, and exactly the bytes behind it are left. What the envelope says of the length of the raw
  -- documents does not matter.
  pub read_frame-wire :
      (max_frame_size : ℕ) (frame : Frame) (rest : Bytes) (s : State)
      → IsDelimited frame.envelope
      → frame.header.req_id < 2 ^ 32
      → max_frame_size < 2 ^ 32
      → 6 + (length frame.envelope + length frame.raw_docs) ≤ max_frame_size
      → incoming s ≡ wire frame ++ rest
      → (s' : State) × (read_frame r max_frame_size s
          ≡ ok (record frame { header = computed_header frame }, s'))
        × (incoming s' ≡ rest)
  unfolding read_frame wire computed_header
  read_frame-wire max frame rest s d hr hmax fits e =
      let h = computed_header frame in
      let payload = frame.envelope ++ frame.raw_docs in
      let len : h.msg_len ≡ 6 + (length frame.envelope + length frame.raw_docs) = omega arith in
      let (s₁, got, left) =
        read_exact_append (encode_header h) (payload ++ rest) s
          (e ∙ append_assoc (encode_header h) payload rest) in
      let (s₂, read, left₂) = read_payload-append frame h rest s₁ d len left in
      let got₁₀ : read_exact header_size s ≡ ok (encode_header h, s₁) =
        rw (length-encode_header h) at got in
      (
        s₂,
        rw
            (
              got₁₀,
              decode_header-encode_header h (omega arith) hr,
              le→ltb max h.msg_len (omega arith),
            )
            read,
        left₂,
      )
