-- ===== src/Grpc/Streams/Agreement.antt =====
-- Agreement: the two handlers insert the same, and say the same about it.
use mongocore.Prelude.{
  ℕ, suc, ◌+◌, ◌%◌, ◌^◌, ◌<◌, ◌≤◌, Bytes, String, ◌≡◌, refl, sym, ap, inl, inr, List, [], ◌∷◌, ◌++◌,
  map, append-nil, append_assoc, map-append, length, Option, none, some, Result, ok, err,
  Result-cases, ok_injective, >>=-eq-ok, All, arith,
}
use mongocore.Transport.Codec.{Bson}
use mongocore.Operations.Driver.{Driver, MongoCoreError}
use mongocore.Grpc.Streams.{
  Status, InsertError, InsertBatch, InsertManyStreamResponse, InsertBatchAck, Target, decode_bson,
  decode_all, target_of, insert_batch, Batches, counted, stream_from, insert_many_stream, ack, Acks,
  bidi_from, insert_many_bidi,
}

abbrev pub texts : List InsertError → List String
texts errors = map (λ e. e.message) errors

-- What a stream of acknowledgements amounts to.
abbrev pub first_error : List (Result Status InsertBatchAck) → Option Status
first_error [] = none
first_error (err s ∷ acks) = some s
first_error (ok a ∷ acks) = first_error acks

abbrev pub sum_inserted : List (Result Status InsertBatchAck) → ℕ
sum_inserted [] = 0
sum_inserted (err s ∷ acks) = sum_inserted acks
sum_inserted (ok a ∷ acks) = a.inserted_count + sum_inserted acks

abbrev pub messages : List (Result Status InsertBatchAck) → List String
messages [] = []
messages (err s ∷ acks) = messages acks
messages (ok a ∷ acks) = texts a.errors ++ messages acks

-- An answer adds to `r` what the acknowledgements amount to, or is the error that they end with.
abbrev pub Agrees :
    InsertManyStreamResponse
    → Result Status InsertManyStreamResponse
    → List (Result Status InsertBatchAck)
    → Type 0
Agrees r (err s) acks = first_error acks ≡ some s
Agrees r (ok answer) acks =
    (first_error acks ≡ none)
    × (answer.total_inserted ≡ (r.total_inserted + sum_inserted acks) % 2 ^ 64)
    × (texts answer.errors ≡ texts r.errors ++ messages acks)

module _ (lib : Bson) (driver : Driver lib) where
  -- An insertion answers an identifier at most for each document.
  abbrev pub AnswersEach : Type 0
  AnswersEach =
      (target : Target lib) (docs : List (Bson.Document lib)) (w : driver.World)
      (ids : List (Bson.Value lib))
      → (insert_batch lib driver target docs w).0 ≡ ok ids
      → length ids ≤ length docs

  abbrev pub IsSmall : Result String InsertBatch → Type 0
  IsSmall (ok batch) = length batch.documents < 2 ^ 32
  IsSmall (err e) = Unit

  length-decode_all :
      (raw : List Bytes) {docs : List (Bson.Document lib)}
      → decode_all lib raw ≡ ok docs
      → length docs ≡ length raw
  unfolding decode_all
  length-decode_all [] h = ap length (sym (ok_injective h))
  length-decode_all (bytes ∷ raw) h =
      let (doc, e, h1) = >>=-eq-ok (decode_bson lib bytes) _ h in
      let (docs, f, h2) = >>=-eq-ok (decode_all lib raw) _ h1 in
      omega (arith, ap length (ok_injective h2), length-decode_all raw f)

  Agrees-counted :
      (index batch_index : ℕ) (r : InsertManyStreamResponse)
      (result : Result MongoCoreError (List (Bson.Value lib)))
      (answer : Result Status InsertManyStreamResponse) (acks : Acks lib driver)
      → ((ids : List (Bson.Value lib)) → result ≡ ok ids → length ids < 2 ^ 32)
      → Agrees (counted lib driver index r result) answer acks
      → Agrees r answer (ok (ack lib driver batch_index result) ∷ acks)
  unfolding counted ack
  Agrees-counted index batch_index r (ok ids) (err s) acks small h = h
  Agrees-counted index batch_index r (ok ids) (ok answer) acks small h =
      (h.0, omega (arith, h.1, small ids refl), h.2)
  Agrees-counted index batch_index r (err e) (err s) acks small h = h
  Agrees-counted index batch_index r (err e) (ok answer) acks small h =
      (h.0, omega (arith, h.1), simp (h.2, map-append, append_assoc))

  counted_bound :
      (index : ℕ) (r : InsertManyStreamResponse)
      (result : Result MongoCoreError (List (Bson.Value lib)))
      → r.total_inserted < 2 ^ 64
      → (counted lib driver index r result).total_inserted < 2 ^ 64
  unfolding counted
  counted_bound index r (ok ids) h = omega arith
  counted_bound index r (err e) h = h

  module _ (each : AnswersEach) where
    agree_from :
        (batches : Batches lib driver) (target : Target lib) (index batch_index : ℕ)
        (r : InsertManyStreamResponse) (w : driver.World)
        → r.total_inserted < 2 ^ 64
        → All IsSmall batches
        → ((stream_from lib driver batches target index r w).1
            ≡ (bidi_from lib driver batches target batch_index w).1)
          × Agrees r
              (stream_from lib driver batches target index r w).0
              (bidi_from lib driver batches target batch_index w).0
    unfolding stream_from bidi_from
    agree_from [] target index batch_index r w h small =
        (refl, (refl, omega arith, sym (append-nil (texts r.errors))))
    agree_from (err e ∷ batches) target index batch_index r w h small = (refl, refl)
    agree_from (ok batch ∷ batches) target index batch_index r w h small =
        elim (Result-cases (decode_all lib batch.documents)) [
          | inr (s, e) ↦ rw (e, stream_from, bidi_from) (refl, refl)
          | inl (docs, e) ↦
              let there : Target lib = target_of lib batch target in
              let done = insert_batch lib driver there docs w in
              let index' : ℕ = (index + length docs) % 2 ^ 32 in
              let batch_index' : ℕ = suc batch_index % 2 ^ 32 in
              let r' : InsertManyStreamResponse = counted lib driver index r done.0 in
              let rest =
                agree_from batches there index' batch_index' r' done.1
                  (counted_bound index r done.0 h) small.1 in
              rw (e, stream_from, bidi_from)
                (
                  rest.0,
                  Agrees-counted index batch_index r done.0
                      (stream_from lib driver batches there index' r' done.1).0
                      (bidi_from lib driver batches there batch_index' done.1).0
                      (λ ids given. omega (
                        arith,
                        small.0,
                        length-decode_all batch.documents e,
                        each there docs w ids given,
                      ))
                      rest.1,
                )
        ]

    -- If an insertion answers an identifier at most for each document, and every batch has fewer than
    -- 2 ^ 32 documents, then over the same stream both handlers leave the database the same; where the
    -- one answers at all, the other ends without an error, and the total modulo 2 ^ 64 and the messages
    -- of failed batches are those of its acknowledgements; where the one ends with an error, the other
    -- sends this error.
    pub insert_many_stream-Agrees :
        (batches : Batches lib driver) (w : driver.World)
        → All IsSmall batches
        → ((insert_many_stream lib driver batches w).1 ≡ (insert_many_bidi lib driver batches w).1)
          × Agrees
              (record { total_inserted = 0; errors = [] })
              (insert_many_stream lib driver batches w).0
              (insert_many_bidi lib driver batches w).0
    unfolding insert_many_stream insert_many_bidi
    insert_many_stream-Agrees batches w small =
        agree_from batches ("", "") 0 0 _ w (omega arith) small
