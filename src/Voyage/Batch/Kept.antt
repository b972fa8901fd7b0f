-- ===== src/Voyage/Batch/Kept.antt =====
-- Kept: no request is lost, and every one is answered in the end.
use mongocore.Prelude.{
  ℕ, suc, ◌+◌, ◌*◌, ◌≤◌, ◌<◌, ltb, leb, if◌then◌else◌, String, ◌≡◌, refl, ap, subst, ◌⊎◌, inl, inr,
  Bool-cases, List, [], ◌∷◌, ◌++◌, map, length, length-append, All, All-append, is_empty, Result,
  ok, err, arith,
}
use mongocore.Voyage.Batch.{
  max_batch_size, PendingEmbed, VoyageClient, BatchEmbedder, new, embed_one, take_pending,
  sent_from, sent, flush_batch, Settle, wake, flush, Reach, begin, call, settle,
}
use mongocore.Voyage.Batch.Counting.{
  occurs, requests, in_batches, replies, occurs-append, requests-append, in_batches-append,
  replies-append, requests_empty, length_nonempty, All-remove_one, List-cases,
}

module _ (client : VoyageClient) where
  -- A request is pending, in a batch at the client, or answered, each exactly once, and the callers of
  -- pending requests will wake up.
  pub record IsKept (s : BatchEmbedder client) : Type 0 where
    pub placed :
        (c : ℕ)
        → requests c s.pending + in_batches c s.flushing + replies c s.answered
          ≡ (if ltb c s.calls then 1 else 0)
    pub room : length s.pending < max_batch_size
    pub awaited : (c : ℕ) → requests c s.pending ≤ occurs c s.sleeping
    pub sized : All (λ b. (0 < length b) × (length b ≤ max_batch_size)) s.flushing

  new-IsKept : (w : client.World) → IsKept (new client w)
  new-IsKept w = record {
    placed = λ c. ground arith;
    room = omega arith;
    awaited = λ c. omega arith;
    sized = tt;
  }

  replies-sent_from :
      (c i : ℕ) (vs : List client.Vector) (batch : List PendingEmbed)
      → replies c (sent_from client i vs batch) ≡ requests c batch
  unfolding sent_from
  replies-sent_from c i vs [] = refl
  replies-sent_from c i vs (p ∷ batch) = omega (arith, replies-sent_from c (suc i) vs batch)

  replies-failed :
      (c : ℕ) (e : String) (batch : List PendingEmbed)
      → replies c (map (λ p. let a : Result String client.Vector = err e in (p, a)) batch)
        ≡ requests c batch
  replies-failed c e [] = refl
  replies-failed c e (p ∷ batch) = omega (arith, replies-failed c e batch)

  replies-sent :
      (c : ℕ) (r : Result String (List client.Vector)) (batch : List PendingEmbed)
      → replies c (sent client r batch) ≡ requests c batch
  unfolding sent
  replies-sent c (ok vs) batch = replies-sent_from c 0 vs batch
  replies-sent c (err e) batch = replies-failed c e batch

  embed_one-IsKept :
      (text : String) (s : BatchEmbedder client) → IsKept s → IsKept (embed_one client text s)
  unfolding embed_one
  embed_one-IsKept text s k =
      let p : PendingEmbed = record { caller = s.calls; text = text } in
      let pending : List PendingEmbed = s.pending ++ p ∷ [] in
      let longer : length pending ≡ length s.pending + 1 = length-append s.pending (p ∷ []) in
      elim (Bool-cases (leb max_batch_size (length pending))) [
        | inl full ↦ rw full (record {
          placed = λ c. ground (
            arith,
            requests-append c s.pending (p ∷ []),
            in_batches-append c s.flushing (pending ∷ []),
            k.placed c,
          );
          room = omega arith;
          awaited = λ c. omega arith;
          sized =
              All-append (λ b. (0 < length b) × (length b ≤ max_batch_size)) s.flushing
                (pending ∷ []) k.sized ((omega arith, omega (arith, k.room)), tt);
        })
        | inr part ↦ rw part (record {
          placed = λ c. ground (arith, requests-append c s.pending (p ∷ []), k.placed c);
          room = ground (arith, part);
          awaited = λ c. ground (
            arith,
            requests-append c s.pending (p ∷ []),
            occurs-append c s.sleeping (s.calls ∷ []),
            k.awaited c,
          );
          sized = k.sized;
        })
      ]

  take_pending-IsKept :
      (s : BatchEmbedder client) (sleeping : List ℕ)
      → IsKept s
      → IsKept (take_pending client (record s { sleeping = sleeping }))
  unfolding take_pending
  take_pending-IsKept s sleeping k = elim (Bool-cases (is_empty s.pending)) [
    | inl e ↦ rw e (record {
      placed = k.placed;
      room = k.room;
      awaited = λ c. omega (arith, requests_empty c s.pending e);
      sized = k.sized;
    })
    | inr n ↦ rw n (record {
      placed = λ c. omega (arith, in_batches-append c s.flushing (s.pending ∷ []), k.placed c);
      room = omega arith;
      awaited = λ c. omega arith;
      sized =
          All-append (λ b. (0 < length b) × (length b ≤ max_batch_size)) s.flushing (s.pending ∷ [])
            k.sized ((length_nonempty s.pending n, omega (arith, k.room)), tt);
    })
  ]

  flush_batch-IsKept :
      (s : BatchEmbedder client) (before : List (List PendingEmbed)) (batch : List PendingEmbed)
      (after : List (List PendingEmbed))
      → s.flushing ≡ before ++ batch ∷ after
      → IsKept s
      → IsKept (flush_batch client batch (record s { flushing = before ++ after }))
  unfolding flush_batch
  flush_batch-IsKept s before batch after e k =
      let (result, w) = client.embed (map (λ p. p.text) batch) s.world in
      record {
        placed = λ c. omega (
          arith,
          ap (in_batches c) e,
          in_batches-append c before (batch ∷ after),
          in_batches-append c before after,
          replies-append c s.answered (sent client result batch),
          replies-sent c result batch,
          k.placed c,
        );
        room = k.room;
        awaited = k.awaited;
        sized = All-remove_one _ before batch after (subst (All _) e k.sized);
      }

  Settle-IsKept : {s t : BatchEmbedder client} → Settle client s t → IsKept s → IsKept t
  Settle-IsKept {s} (wake before c after e) k = take_pending-IsKept s (before ++ after) k
  Settle-IsKept {s} (flush before batch after e) k = flush_batch-IsKept s before batch after e k

  pub Reach-IsKept : {w : client.World} {s : BatchEmbedder client} → Reach client w s → IsKept s
  Reach-IsKept {w} begin = new-IsKept w
  Reach-IsKept (call {s} text r) = embed_one-IsKept text s (Reach-IsKept r)
  Reach-IsKept (settle r step) = Settle-IsKept step (Reach-IsKept r)

  -- What is left to do before every caller has its answer.
  abbrev pub remaining : BatchEmbedder client → ℕ
  remaining s = 2 * length s.sleeping + length s.flushing

  take_pending-remaining :
      (s : BatchEmbedder client) (sleeping : List ℕ)
      → length sleeping < length s.sleeping
      → remaining (take_pending client (record s { sleeping = sleeping })) < remaining s
  unfolding take_pending
  take_pending-remaining s sleeping h = elim (Bool-cases (is_empty s.pending)) [
    | inl e ↦ rw e (omega arith)
    | inr n ↦ rw n (omega (arith, length-append s.flushing (s.pending ∷ [])))
  ]

  -- Every step of those who are there leaves less to do.
  Settle-remaining : {s t : BatchEmbedder client} → Settle client s t → remaining t < remaining s
  unfolding flush_batch
  Settle-remaining {s} (wake before c after e) =
      take_pending-remaining s (before ++ after)
        (omega (arith, ap length e, length-append before (c ∷ after), length-append before after))
  Settle-remaining {s} (flush before batch after e) =
      omega (arith, ap length e, length-append before (batch ∷ after), length-append before after)

  -- Every caller has exactly one answer.
  abbrev pub AllAnswered : BatchEmbedder client → Type 0
  AllAnswered s = (c : ℕ) → replies c s.answered ≡ (if ltb c s.calls then 1 else 0)

  abbrev pub Next : BatchEmbedder client → Type 0
  Next s = (t : BatchEmbedder client) × Settle client s t × (remaining t < remaining s)

  nothing_left :
      (s : BatchEmbedder client) → IsKept s → s.sleeping ≡ [] → s.flushing ≡ [] → AllAnswered s
  nothing_left s k awake idle c =
      omega (arith, ap (occurs c) awake, ap (in_batches c) idle, k.awaited c, k.placed c)

  stepping : {s t : BatchEmbedder client} → Settle client s t → AllAnswered s ⊎ Next s
  stepping {t = t} step = inr (t, step, Settle-remaining step)

  -- In every state that can be reached, each caller has its answer, exactly one, or somebody who is
  -- there can take a step; and each such step brings nearer the end, after which no more are left.
  pub Reach-settles :
      {w : client.World} {s : BatchEmbedder client} → Reach client w s → AllAnswered s ⊎ Next s
  Reach-settles {s = s} r = elim (List-cases s.sleeping) [
    | inr (c, after, e) ↦ stepping (wake [] c after e)
    | inl awake ↦ elim (List-cases s.flushing) [
      | inr (batch, after, e) ↦ stepping (flush [] batch after e)
      | inl idle ↦ inl (nothing_left s (Reach-IsKept r) awake idle)
    ]
  ]
