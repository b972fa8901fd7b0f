-- ===== src/Transport/Dispatch/Batches.antt =====
-- Batches: what a client reads in the bytes of a reply with many documents.
use mongocore.Prelude.{
  ℕ, ◌%◌, ◌^◌, ◌≤◌, Bytes, String, ◌≡◌, refl, sym, ap, ◌∙◌, subst, List, [], length, map, some, ok,
  arith,
}
use mongocore.Transport.Codec.{Bson}
use mongocore.Operations.Driver.{Driver}
use mongocore.Operations.Crud.{
  default_aggregation_timeout, requires_local_read_concern, collect, all_serialized, aggregate_raw,
  limited,
}
use mongocore.Operations.Crud.Raw.{
  Serialized, nil, cons, collect-Collected, concat, all_serialized-Serialized, drain-eq-ok,
}
use mongocore.Transport.Dispatch.{length_prefix, parse_bson_docs}
use mongocore.Transport.Dispatch.Documents.{Chunks, parse_bson_docs_iff}

module _ (lib : Bson) (driver : Driver lib) where
  open lib use {Document, to_vec, from_slice-to_vec}
  open driver use {World}

  -- A serialized document states its own length in its first four bytes, and has at least five.
  module _
      (framed : (d : Document) (bytes : Bytes)
        → to_vec d ≡ ok bytes
        → (length_prefix bytes ≡ some (length bytes)) × (5 ≤ length bytes)) where
    Serialized-Chunks :
        {docs : List Document} {bs : List Bytes}
        → Serialized lib driver docs bs
        → Chunks lib docs (concat bs)
    Serialized-Chunks nil = Chunks.nil
    Serialized-Chunks (cons {d = d} {b = b} e rest) =
        let (states, least) = framed d b e in
        Chunks.cons d b
          (record { states = states; least = least; parses = from_slice-to_vec d b e })
          (Serialized-Chunks rest)

    length-Serialized :
        {docs : List Document} {bs : List Bytes}
        → Serialized lib driver docs bs
        → length bs ≡ length docs
    length-Serialized nil = refl
    length-Serialized (cons e rest) = omega (arith, length-Serialized rest)

    -- If serialized documents state their own length of five bytes at least: the bytes of an
    -- aggregation that succeeds are read back as exactly the documents that its cursor gave, and the
    -- count is their number as a 32-bit word.
    pub parse_bson_docs-aggregate_raw :
        (db collection : String) (pipeline : List Document) (w : World) (n : ℕ) (bytes : Bytes)
        → (aggregate_raw lib driver db collection pipeline w).0 ≡ ok (n, bytes)
        → (docs : List Document) × ((driver.aggregate default_aggregation_timeout
              (requires_local_read_concern lib driver pipeline)
              db
              collection
              pipeline
              w).0
            ≡ some (ok (map ok docs)))
          × (parse_bson_docs lib bytes ≡ ok docs)
          × (n ≡ length docs % 2 ^ 32)
    unfolding aggregate_raw limited
    parse_bson_docs-aggregate_raw db collection pipeline w n bytes h =
        let cursor =
          (driver.aggregate default_aggregation_timeout
            (requires_local_read_concern lib driver pipeline) db collection pipeline w).0 in
        let (items, opened, read) =
          drain-eq-ok lib driver "aggregation operation timed out"
            (λ items. collect lib driver 0 [] (all_serialized lib driver items)) cursor h in
        let r =
          collect-Collected lib driver 0 [] (all_serialized lib driver items) (omega arith) read in
        let (docs, given, s) = all_serialized-Serialized lib driver items r.chunks r.given in
        let counted = r.counted in
        let size = length-Serialized s in
        (
          docs,
          opened ∙ ap (λ is. some (ok is)) given,
          (parse_bson_docs_iff lib docs bytes).1
              (subst (λ bs. Chunks lib docs bs) (sym r.joined) (Serialized-Chunks s)),
          omega arith,
        )
