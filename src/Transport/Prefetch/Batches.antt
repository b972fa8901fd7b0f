-- ===== src/Transport/Prefetch/Batches.antt =====
-- Batches: what the consumer receives, against the documents of the cursor.
use mongocore.Prelude.{
  ℕ, suc, ◌+◌, ◌≤◌, ◌<◌, max, leb, Bytes, ◌≡◌, refl, sym, ap, ◌∙◌, Bool, true, Bool-cases, inl, inr,
  List, [], ◌∷◌, ◌++◌, length, length-append, append-nil, append_assoc, arith,
}
use mongocore.Transport.Prefetch.{
  PrefetchBatch, Advanced, document, undecodable, failed, send_rest, send_full, prefetch_from,
  prefetch_loop,
}

-- The documents of a cursor up to its end or first failure, those that cannot be read left out.
abbrev pub documents_of : List Advanced → List Bytes
documents_of [] = []
documents_of (failed e ∷ reads) = []
documents_of (undecodable e ∷ reads) = documents_of reads
documents_of (document bytes ∷ reads) = bytes ∷ documents_of reads

abbrev pub all_documents : List PrefetchBatch → List Bytes
all_documents [] = []
all_documents (b ∷ bs) = b.documents ++ all_documents bs

abbrev pub bytes_of : List Bytes → ℕ
bytes_of [] = 0
bytes_of (d ∷ ds) = length d + bytes_of ds

bytes_of-append : (ds : List Bytes) (d : Bytes) → bytes_of (ds ++ d ∷ []) ≡ bytes_of ds + length d
bytes_of-append [] d = omega arith
bytes_of-append (e ∷ ds) d = omega (arith, bytes_of-append ds d)

-- A batch size of zero counts as one.
abbrev pub capacity : ℕ → ℕ
capacity batch_size = max 1 batch_size

abbrev pub IsCounted : PrefetchBatch → Type 0
IsCounted b = b.total_bytes ≡ bytes_of b.documents

-- Full batches, but for the last, which has at least one document.
abbrev pub Batched : ℕ → List PrefetchBatch → Type 0
Batched n [] = Unit
Batched n (b ∷ []) = (1 ≤ length b.documents) × (length b.documents ≤ capacity n) × IsCounted b
Batched n (b ∷ c ∷ bs) = (length b.documents ≡ capacity n) × IsCounted b × Batched n (c ∷ bs)

Batched-cons :
    (n : ℕ) (b : PrefetchBatch) (bs : List PrefetchBatch)
    → length b.documents ≡ capacity n
    → IsCounted b
    → Batched n bs
    → Batched n (b ∷ bs)
Batched-cons n b [] size counted h = (omega arith, omega arith, counted)
Batched-cons n b (c ∷ bs) size counted h = (size, counted, h)

module _ (batch_size : ℕ) (alive : ℕ → Bool) where
  send_rest-Batched :
      (docs : List Bytes) (total k : ℕ)
      → length docs < capacity batch_size
      → total ≡ bytes_of docs
      → Batched batch_size (send_rest batch_size alive docs total k)
  unfolding send_rest
  send_rest-Batched [] total k h e = tt
  send_rest-Batched (d ∷ docs) total k h e = elim (Bool-cases (alive k)) [
    | inl here ↦ rw here (omega arith, omega arith, e)
    | inr gone ↦ rw gone tt
  ]

  prefetch_from-Batched :
      (reads : List Advanced) (docs : List Bytes) (total k : ℕ)
      → length docs < capacity batch_size
      → total ≡ bytes_of docs
      → Batched batch_size (prefetch_from batch_size alive reads docs total k)
  unfolding prefetch_from send_full
  prefetch_from-Batched [] docs total k h e = send_rest-Batched docs total k h e
  prefetch_from-Batched (failed x ∷ reads) docs total k h e = send_rest-Batched docs total k h e
  prefetch_from-Batched (undecodable x ∷ reads) docs total k h e =
      prefetch_from-Batched reads docs total k h e
  prefetch_from-Batched (document b ∷ reads) docs total k h e =
      let size = length-append docs (b ∷ []) in
      let counted : total + length b ≡ bytes_of (docs ++ b ∷ []) =
        omega (arith, bytes_of-append docs b) in
      elim (Bool-cases (leb batch_size (length (docs ++ b ∷ [])))) [
        | inr room ↦ rw room (
            prefetch_from-Batched reads (docs ++ b ∷ []) (total + length b) k (ground arith)
              counted)
        | inl full ↦ elim (Bool-cases (alive k)) [
          | inr gone ↦ rw (full, gone) tt
          | inl here ↦
              rw (full, here)
                (Batched-cons batch_size
                  (record { documents = docs ++ b ∷ []; total_bytes = total + length b }) _
                  (ground arith) counted
                  (prefetch_from-Batched reads [] 0 (suc k) (omega arith) refl))
        ]
      ]

  -- Whenever the consumer leaves: the batches that are sent are full, the last one possibly but for
  -- some of its room, none is empty, and each states the number of its bytes; a batch size of zero
  -- counts as one.
  pub prefetch_loop-Batched :
      (reads : List Advanced) → Batched batch_size (prefetch_loop batch_size alive reads)
  unfolding prefetch_loop
  prefetch_loop-Batched reads = prefetch_from-Batched reads [] 0 0 (omega arith) refl

module _ (batch_size : ℕ) (alive : ℕ → Bool) (present : (k : ℕ) → alive k ≡ true) where
  send_rest-documents :
      (docs : List Bytes) (total k : ℕ)
      → all_documents (send_rest batch_size alive docs total k) ≡ docs
  unfolding send_rest
  send_rest-documents [] total k = refl
  send_rest-documents (d ∷ docs) total k = rw (present k) (append-nil (d ∷ docs))

  prefetch_from-documents :
      (reads : List Advanced) (docs : List Bytes) (total k : ℕ)
      → all_documents (prefetch_from batch_size alive reads docs total k)
        ≡ docs ++ documents_of reads
  unfolding prefetch_from send_full
  prefetch_from-documents [] docs total k = send_rest-documents docs total k ∙ sym (append-nil docs)
  prefetch_from-documents (failed x ∷ reads) docs total k =
      send_rest-documents docs total k ∙ sym (append-nil docs)
  prefetch_from-documents (undecodable x ∷ reads) docs total k =
      prefetch_from-documents reads docs total k
  prefetch_from-documents (document b ∷ reads) docs total k =
      elim (Bool-cases (leb batch_size (length (docs ++ b ∷ [])))) [
        | inr room ↦ rw room (
            prefetch_from-documents reads (docs ++ b ∷ []) (total + length b) k
            ∙ append_assoc docs (b ∷ []) (documents_of reads))
        | inl full ↦
            rw (full, present k)
              (ap (◌++◌ (docs ++ b ∷ [])) (prefetch_from-documents reads [] 0 (suc k))
                ∙ append_assoc docs (b ∷ []) (documents_of reads))
      ]

  -- A consumer that stays receives exactly the documents of the cursor up to its end or its first
  -- failure, in order, but for those that could not be read.
  pub prefetch_loop-documents :
      (reads : List Advanced)
      → all_documents (prefetch_loop batch_size alive reads) ≡ documents_of reads
  unfolding prefetch_loop
  prefetch_loop-documents reads = prefetch_from-documents reads [] 0 0
