-- ===== src/Voyage/Batch.antt =====
-- src/voyage/batch.rs: requests to embed one text, gathered into batches. The callers run in
-- parallel; the lock makes each look at the pending requests one step, and a batch that was taken
-- waits for the answer of the client. A caller is known by its number.
mod Counting
pub mod Kept
pub mod Delivery
use mongocore.Prelude.{
  ℕ, zero, suc, ◌+◌, leb, if◌then◌else◌, String, ◌≡◌, List, [], ◌∷◌, ◌++◌, map, length, get_elem?,
  is_empty, unwrap_or, Option, Result, ok, err,
}

abbrev pub max_batch_size : ℕ
max_batch_size = 100

pub record PendingEmbed : Type 0 where
  pub caller : ℕ
  pub text : String

-- The client: `none_vector` is the empty vector, and an error is known by its message.
pub record VoyageClient : Type 1 where
  pub Vector : Type 0
  pub World : Type 0
  pub none_vector : Vector
  pub embed : List String → World → Result String (List Vector) × World

module _ (client : VoyageClient) where
  open client use {Vector, World, none_vector, embed}

  abbrev pub Answer : Type 0
  Answer = Result String Vector

  -- The callers so far, the pending requests, the callers that wait for the batch window to pass, the
  -- batches at the client, and what was sent to whom.
  pub record BatchEmbedder : Type 0 where
    pub calls : ℕ
    pub pending : List PendingEmbed
    pub sleeping : List ℕ
    pub flushing : List (List PendingEmbed)
    pub answered : List (PendingEmbed × Answer)
    pub world : World

  abbrev pub new : World → BatchEmbedder
  new w = record { calls = 0; pending = []; sleeping = []; flushing = []; answered = []; world = w }

  -- `embed_one` up to the batch window: a full batch is taken at once.
  unfoldable pub embed_one : String → BatchEmbedder → BatchEmbedder
  embed_one text s =
      let pending = s.pending ++ record { caller = s.calls; text = text } ∷ [] in
      if leb max_batch_size (length pending)
      then record s { calls = suc s.calls; pending = []; flushing = s.flushing ++ pending ∷ [] }
      else record s {
        calls = suc s.calls;
        pending = pending;
        sleeping = s.sleeping ++ s.calls ∷ [];
      }

  -- After the batch window: whatever is pending is taken.
  unfoldable pub take_pending : BatchEmbedder → BatchEmbedder
  take_pending s =
      if is_empty s.pending
      then s
      else record s { pending = []; flushing = s.flushing ++ s.pending ∷ [] }

  -- The i-th request gets the i-th embedding, or an empty one where there is none.
  unfoldable pub sent_from : ℕ → List Vector → List PendingEmbed → List (PendingEmbed × Answer)
  sent_from i embeddings [] = []
  sent_from i embeddings (p ∷ batch) =
      (p, ok (unwrap_or none_vector (get_elem? embeddings i))) ∷ sent_from (suc i) embeddings batch

  unfoldable pub sent :
      Result String (List Vector) → List PendingEmbed → List (PendingEmbed × Answer)
  unfolding sent_from
  sent (ok embeddings) batch = sent_from 0 embeddings batch
  sent (err e) batch = map (λ p. (p, err e)) batch

  abbrev request_texts : List PendingEmbed → List String
  request_texts batch = map (λ p. p.text) batch

  unfoldable pub flush_batch : List PendingEmbed → BatchEmbedder → BatchEmbedder
  flush_batch batch s =
      let (result, w) = embed (request_texts batch) s.world in
      record s { answered = s.answered ++ sent result batch; world = w }

  -- What the callers that are there can do: wake up, or give a batch to the client.
  pub data Settle (s : BatchEmbedder) : BatchEmbedder → Type 0 where
    wake :
        (before : List ℕ) (c : ℕ) (after : List ℕ)
        → s.sleeping ≡ before ++ c ∷ after
        → Settle s (take_pending (record s { sleeping = before ++ after }))
    flush :
        (before : List (List PendingEmbed)) (batch : List PendingEmbed)
        (after : List (List PendingEmbed))
        → s.flushing ≡ before ++ batch ∷ after
        → Settle s (flush_batch batch (record s { flushing = before ++ after }))

  pub data Reach (w : World) : BatchEmbedder → Type 0 where
    begin : Reach w (new w)
    call : {s : BatchEmbedder} (text : String) → Reach w s → Reach w (embed_one text s)
    settle : {s t : BatchEmbedder} → Reach w s → Settle s t → Reach w t
