-- ===== src/Transport/Prefetch.antt =====
-- src/transport/prefetch.rs: the background task that reads a cursor ahead, in batches. A cursor is
-- what its reads give, in order; `alive k` says that the send of batch k finds its consumer. The
-- channel delivers in order, and byte counts are below 2 ^ 64.
pub mod Batches
use mongocore.Prelude.{
  ℕ, suc, ◌+◌, leb, if◌then◌else◌, Bytes, String, Bool, List, [], ◌∷◌, ◌++◌, length, is_empty,
}

abbrev pub default_prefetch_ahead : ℕ
default_prefetch_ahead = 2

abbrev pub default_batch_size : ℕ
default_batch_size = 100

pub record PrefetchBatch : Type 0 where
  pub documents : List Bytes
  pub total_bytes : ℕ

-- One turn's `advance` with `deserialize_current`; the end of the list is the end of the cursor.
pub data Advanced : Type 0 where
  document : Bytes → Advanced
  undecodable : (error : String) → Advanced
  failed : (error : String) → Advanced

module _ (batch_size : ℕ) (alive : ℕ → Bool) where
  -- The last, partial batch. The result of its send is dropped.
  unfoldable pub send_rest : List Bytes → ℕ → ℕ → List PrefetchBatch
  send_rest docs total_bytes k =
      if is_empty docs
      then []
      else if alive k
      then record { documents = docs; total_bytes = total_bytes } ∷ []
      else []

  -- After a document was added: `if docs.len() >= batch_size`.
  unfoldable pub send_full :
      (List Bytes → ℕ → ℕ → List PrefetchBatch) → List Bytes → ℕ → ℕ → List PrefetchBatch
  send_full next docs total_bytes k =
      if leb batch_size (length docs)
      then (let rest = next [] 0 (suc k) in
          if alive k then record { documents = docs; total_bytes = total_bytes } ∷ rest else [])
      else next docs total_bytes k

  -- The batches that are sent, from a partial batch with its bytes and the number of the next.
  unfoldable pub prefetch_from : List Advanced → List Bytes → ℕ → ℕ → List PrefetchBatch
  prefetch_from [] docs total_bytes k = send_rest docs total_bytes k
  prefetch_from (failed e ∷ reads) docs total_bytes k = send_rest docs total_bytes k
  prefetch_from (undecodable e ∷ reads) docs total_bytes k = prefetch_from reads docs total_bytes k
  prefetch_from (document bytes ∷ reads) docs total_bytes k =
      send_full (prefetch_from reads) (docs ++ bytes ∷ []) (total_bytes + length bytes) k

  unfoldable pub prefetch_loop : List Advanced → List PrefetchBatch
  prefetch_loop reads = prefetch_from reads [] 0 0
