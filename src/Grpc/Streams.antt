-- ===== src/Grpc/Streams.antt =====
-- src/grpc/service.rs: the two handlers that insert a stream of batches. The stream is what its reads give, in order; the generated types of the
-- protocol are records. The language of a client, which is only logged, is left out.
pub mod Agreement
use Prim.Native.String.{◌++◌ as str_append}
use mongocore.Prelude.{
  ℕ, suc, ◌+◌, ◌%◌, ◌^◌, Bytes, if◌then◌else◌, String, str_eq, Bool, true, false, List, [], ◌∷◌,
  ◌++◌, length, is_empty, Option, none, some, Result, ok, err, ◌>>=◌, map_err,
}
use mongocore.Transport.Codec.{Bson, FindOptions}
use mongocore.Operations.Driver.{Driver, MongoCoreError, to_string}
use mongocore.Operations.Crud as Crud

-- The statuses that the handlers answer.
pub data Status : Type 0 where
  internal invalid_argument : (message : String) → Status

pub record InsertError : Type 0 where
  pub index : ℕ
  pub message : String
  pub code : ℕ

-- A batch of a stream, and what the two handlers answer.
pub record InsertBatch : Type 0 where
  pub database : String
  pub collection : String
  pub documents : List Bytes

pub record InsertManyStreamResponse : Type 0 where
  pub total_inserted : ℕ
  pub errors : List InsertError

pub record InsertBatchAck : Type 0 where
  pub batch_index : ℕ
  pub inserted_count : ℕ
  pub errors : List InsertError

module _ (lib : Bson) where
  open lib use {Document, from_slice}

  unfoldable pub decode_bson : Bytes → Result Status Document
  decode_bson bytes =
      map_err (λ e. invalid_argument (str_append "Invalid BSON: " e)) (from_slice bytes)

  unfoldable pub decode_all : List Bytes → Result Status (List Document)
  unfolding decode_bson
  decode_all [] = ok []
  decode_all (bytes ∷ rest) = do
    document ← decode_bson bytes
    documents ← decode_all rest
    ok (document ∷ documents)

  -- The database and the collection are those of the first batch that names a database.
  abbrev pub Target : Type 0
  Target = String × String

  unfoldable pub target_of : InsertBatch → Target → Target
  target_of batch (database, collection) =
      if str_eq database "" then (batch.database, batch.collection) else (database, collection)

  module _ (driver : Driver lib) where
    open driver use {World}

    abbrev pub insert_batch :
        Target → List Document → World → Result MongoCoreError (List (Bson.Value lib)) × World
    insert_batch target docs w = Crud.insert_many lib driver target.0 target.1 docs w

    abbrev pub stream_error : String → Status
    stream_error e = internal (str_append "Stream error: " e)

    abbrev pub Batches : Type 0
    Batches = List (Result String InsertBatch)

    -- The sums and the index are words of their widths.
    unfoldable pub counted :
        ℕ
        → InsertManyStreamResponse
        → Result MongoCoreError (List (Bson.Value lib))
        → InsertManyStreamResponse
    counted index r (ok ids) = record r {
      total_inserted = (r.total_inserted + length ids) % 2 ^ 64;
    }
    counted index r (err e) = record r {
      errors = r.errors ++ record { index = index; message = to_string e; code = 0 } ∷ [];
    }

    unfoldable pub stream_from :
        Batches
        → Target
        → ℕ
        → InsertManyStreamResponse
        → World
        → Result Status InsertManyStreamResponse × World
    unfolding decode_all target_of counted
    stream_from [] target index r w = (ok r, w)
    stream_from (err e ∷ batches) target index r w = (err (stream_error e), w)
    stream_from (ok batch ∷ batches) target index r w = elim (decode_all batch.documents) [
      | err e ↦ (err e, w)
      | ok docs ↦
          let there = target_of batch target in
          let (result, after) = insert_batch there docs w in
          stream_from batches there ((index + length docs) % 2 ^ 32) (counted index r result) after
    ]

    unfoldable pub insert_many_stream :
        Batches → World → Result Status InsertManyStreamResponse × World
    unfolding stream_from
    insert_many_stream batches w =
        stream_from batches ("", "") 0 (record { total_inserted = 0; errors = [] }) w

    unfoldable pub ack : ℕ → Result MongoCoreError (List (Bson.Value lib)) → InsertBatchAck
    ack batch_index (ok ids) = record {
      batch_index = batch_index;
      inserted_count = length ids % 2 ^ 32;
      errors = [];
    }
    ack batch_index (err e) = record {
      batch_index = batch_index;
      inserted_count = 0;
      errors = record { index = 0; message = to_string e; code = 0 } ∷ [];
    }

    -- The items of the answering stream.
    abbrev pub Acks : Type 0
    Acks = List (Result Status InsertBatchAck)

    unfoldable pub bidi_from : Batches → Target → ℕ → World → Acks × World
    unfolding decode_all target_of ack
    bidi_from [] target batch_index w = ([], w)
    bidi_from (err e ∷ batches) target batch_index w = (err (stream_error e) ∷ [], w)
    bidi_from (ok batch ∷ batches) target batch_index w = elim (decode_all batch.documents) [
      | err e ↦ (err e ∷ [], w)
      | ok docs ↦
          let there = target_of batch target in
          let (result, after) = insert_batch there docs w in
          let (acks, end) = bidi_from batches there (suc batch_index % 2 ^ 32) after in
          (ok (ack batch_index result) ∷ acks, end)
    ]

    unfoldable pub insert_many_bidi : Batches → World → Acks × World
    unfolding bidi_from
    insert_many_bidi batches w = bidi_from batches ("", "") 0 w
