-- ===== src/Voyage/Batch/Delivery.antt =====
-- Delivery: what a caller is sent.
use mongocore.Prelude.{
  ℕ, suc, ◌≤◌, ◌<◌, String, ◌≡◌, refl, sym, ap, subst, ◌∙◌, ◌⊎◌, inl, inr, false, List, [], ◌∷◌,
  ◌++◌, append_assoc, map, length, length-append, get_elem?, All, All-append, unwrap_or, some,
  Result, ok, err, is_ok, arith,
}
use mongocore.Voyage.Batch.{
  max_batch_size, PendingEmbed, VoyageClient, Answer, BatchEmbedder, embed_one, take_pending,
  sent_from, sent, flush_batch, Settle, wake, flush, Reach, begin, call, settle,
}
use mongocore.Voyage.Batch.Kept.{Reach-IsKept}

get_elem?-append {ℓ} :
    {A : Type ℓ} (us : List A) (v : A) (vs : List A) → get_elem? (us ++ v ∷ vs) (length us) ≡ some v
get_elem?-append [] v vs = refl
get_elem?-append (u ∷ us) v vs = get_elem?-append us v vs

module _ (client : VoyageClient) (embedding : String → client.Vector) where
  -- The documented behaviour of the service: it embeds the texts in the order of the request.
  abbrev pub IsPositional : Type 0
  IsPositional =
      (texts : List String) (w : client.World) (vectors : List client.Vector)
      → (client.embed texts w).0 ≡ ok vectors
      → vectors ≡ map embedding texts

  -- The embedding of the text that was asked for, or an error.
  abbrev pub IsRight : PendingEmbed × Answer client → Type 0
  IsRight (p, a) = (a ≡ ok (embedding p.text)) ⊎ (is_ok a ≡ false)

  sent_from-IsRight :
      (us : List client.Vector) (i : ℕ) (batch : List PendingEmbed)
      → i ≡ length us
      → All IsRight (sent_from client i (us ++ map embedding (map (λ p. p.text) batch)) batch)
  unfolding sent_from
  sent_from-IsRight us i [] e = tt
  sent_from-IsRight us i (p ∷ batch) e =
      let v : client.Vector = embedding p.text in
      let vs : List client.Vector = map embedding (map (λ p. p.text) batch) in
      let here : get_elem? (us ++ v ∷ vs) i ≡ some v =
        ap (get_elem? (us ++ v ∷ vs)) e ∙ get_elem?-append us v vs in
      let rest : All IsRight (sent_from client (suc i) ((us ++ v ∷ []) ++ vs) batch) =
        sent_from-IsRight (us ++ v ∷ []) (suc i) batch
          (omega (arith, e, length-append us (v ∷ []))) in
      (
        inl (ap (λ o. ok (unwrap_or client.none_vector o)) here),
        subst (λ all. All IsRight (sent_from client (suc i) all batch))
            (append_assoc us (v ∷ []) vs) rest,
      )

  failed-IsRight :
      (e : String) (batch : List PendingEmbed)
      → All IsRight (map (λ p. let a : Answer client = err e in (p, a)) batch)
  failed-IsRight e [] = tt
  failed-IsRight e (p ∷ batch) = (inr refl, failed-IsRight e batch)

  sent-IsRight :
      (r : Result String (List client.Vector)) (batch : List PendingEmbed)
      → ((vectors : List client.Vector)
          → r ≡ ok vectors
          → vectors ≡ map embedding (map (λ p. p.text) batch))
      → All IsRight (sent client r batch)
  unfolding sent
  sent-IsRight (ok vs) batch positional =
      subst (λ all. All IsRight (sent_from client 0 all batch)) (sym (positional vs refl))
        (sent_from-IsRight [] 0 batch refl)
  sent-IsRight (err e) batch positional = failed-IsRight e batch

  module _ (positional : IsPositional) where
    take_pending-answered :
        (s : BatchEmbedder client) → (take_pending client s).answered ≡ s.answered
    unfolding take_pending
    take_pending-answered s = ground arith

    embed_one-answered :
        (text : String) (s : BatchEmbedder client) → (embed_one client text s).answered ≡ s.answered
    unfolding embed_one
    embed_one-answered text s = ground arith

    Settle-IsRight :
        {s t : BatchEmbedder client}
        → Settle client s t
        → All IsRight s.answered
        → All IsRight t.answered
    unfolding flush_batch
    Settle-IsRight {s} (wake before c after e) all =
        subst (All IsRight) (sym (take_pending-answered (record s { sleeping = before ++ after })))
          all
    Settle-IsRight {s} (flush before batch after e) all =
        All-append IsRight s.answered _ all (
          sent-IsRight _ batch
            (λ vectors h. positional (map (λ p. p.text) batch) s.world vectors h))

    -- If the service embeds the texts in the order of the request, then however the calls, the wakings
    -- and the batches interleave, every answer that was sent is the embedding of the caller's own text
    -- or an error, and every batch at the client has one to a hundred requests.
    pub Reach-IsRight :
        {w : client.World} {s : BatchEmbedder client}
        → Reach client w s
        → All IsRight s.answered
          × All (λ b. (0 < length b) × (length b ≤ max_batch_size)) s.flushing
    Reach-IsRight r = (answers r, (Reach-IsKept client r).sized)
      where
        answers :
            {w : client.World} {s : BatchEmbedder client}
            → Reach client w s
            → All IsRight s.answered
        answers begin = tt
        answers (call {s} text r) =
            subst (All IsRight) (sym (embed_one-answered text s)) (answers r)
        answers (settle r step) = Settle-IsRight step (answers r)
