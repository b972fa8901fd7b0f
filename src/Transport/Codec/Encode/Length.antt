-- ===== src/Transport/Codec/Encode/Length.antt =====
-- Every response states the length of the raw bytes beside it.
use mongocore.Prelude.{
  ◌%◌, ◌^◌, ◌<◌, Bytes, ◌≡◌, ap, ◌∙◌, some, ok, map_err, >>=-eq-ok, map_err-eq-ok, ok_injective,
  length, arith, subst,
}
use mongocore.Transport.Codec.{Bson, invalid_bson, OperationResponse, handshake_response}
use mongocore.Transport.Codec.Encode.{response_parts, encode_response}

module _ (lib : Bson) where
  open lib use {
    Document, from_slice, to_vec, get_i32, as_i32, i32, get_i32-doc, as_i32-i32, from_slice-to_vec,
  }

  response_parts-length :
      (r : OperationResponse)
      → get_i32 (response_parts lib r).0 "doc_bytes_len"
        ≡ some (length (response_parts lib r).1 % 2 ^ 32)
  unfolding response_parts
  response_parts-length (handshake_response a b) = get_i32-doc _ _ ∙ as_i32-i32 _
  response_parts-length _ = get_i32-doc _ _ ∙ as_i32-i32 _

  -- The envelope of an encoded response reads back as a document whose `doc_bytes_len` is the
  -- length of the raw bytes, as long as that fits in 32 bits.
  encode_response-doc_bytes_len :
      (r : OperationResponse) (envelope raw : Bytes)
      → encode_response lib r ≡ ok (envelope, raw)
      → length raw < 2 ^ 32
      → (d : Document) × (from_slice envelope ≡ ok d)
        × (get_i32 d "doc_bytes_len" ≡ some (length raw))
  unfolding encode_response
  encode_response-doc_bytes_len r envelope raw h fits =
      let (bytes, made, rest) =
        >>=-eq-ok (map_err invalid_bson (to_vec (response_parts lib r).0)) _ h in
      let same : ◌≡◌ {A = Bytes × Bytes} (bytes, (response_parts lib r).1) (envelope, raw) =
        ok_injective rest in
      let eb = ap (λ (p : Bytes × Bytes). p.0) same in
      let er = ap (λ (p : Bytes × Bytes). p.1) same in
      (
        (response_parts lib r).0,
        subst (λ b. from_slice b ≡ ok (response_parts lib r).0) eb
            (from_slice-to_vec _ bytes (map_err-eq-ok invalid_bson _ made)),
        response_parts-length r
            ∙ ap (λ (b : Bytes). some (length b % 2 ^ 32)) er
            ∙ ap some (omega arith),
      )
