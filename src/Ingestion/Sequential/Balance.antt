-- ===== src/Ingestion/Sequential/Balance.antt =====
-- Balance: the counters of a sequential ingestion, its rows and its end.
use mongocore.Prelude.{
  ℕ, zero, suc, ◌+◌, ◌-◌, ◌≤◌, ◌<◌, min, ltb, Bool-cases, String, ◌≡◌, refl, sym, ap, ◌∙◌, inl, inr,
  Bool, true, false, is_empty, List, [], ◌∷◌, length, subst, Result, ok, err, arith,
}
use mongocore.Ingestion.Dedup.{
  ConflictStrategy, Document, DedupResult, check_batch, filters_of, existing_for, resolve_all,
}
use mongocore.Ingestion.Dedup.Matching.{Counted, check_batch-Counted}
use mongocore.Ingestion.Sequential.{
  Counts, no_counts, push_rows, Collection, Table, split, insert_part, replace_part, Ended,
  finished, cancelled, stopped, out_of_fuel, write_chunk, convert_chunk, turn, run_from,
  run_sequential_writes,
}
use mongocore.Ingestion.Sequential.Books.{
  settled, Book, Bookkeeping, IsBooked, IsBooked-Mails, split-length, insert_part-Settles,
  replace_part-Settles, push_rows-Mails,
}

-- Every row before an offset has been settled, once.
pub record IsBalanced (offset : ℕ) (c : Counts) : Type 0 where
  pub processed : c.rows_processed ≡ offset
  pub sum : settled c ≡ offset

module _ (Value : Type 0) (same_value : Value → Value → Bool) where
  module _ (coll : Collection Value) (books : Bookkeeping Value coll) (table : Table Value)
      (job_id : String) (batch_size : ℕ) (dedup_key : List String)
      (strategy : ConflictStrategy) where
    open coll use {World, find_any, try_cancel}
    open books use {book, book-find_any, book-update_progress, book-try_cancel}

    abbrev Doc : Type 0
    Doc = Document Value same_value

    abbrev End : Type 0
    End = Ended Value same_value coll table job_id batch_size dedup_key strategy

    world-resolve_all :
        (docs : List Doc) (r : Result String (List Doc) × World)
        → (resolve_all Value same_value find_any dedup_key strategy docs r).1 ≡ r.1
    unfolding resolve_all
    world-resolve_all docs (err e, w) = refl
    world-resolve_all docs (ok found, w) = refl

    book-existing_for :
        (filters : List Doc) (w : World)
        → book (existing_for Value same_value find_any filters w).1 ≡ book w
    unfolding existing_for
    book-existing_for [] w = refl
    book-existing_for (f ∷ filters) w = book-find_any (f ∷ filters) w

    book-check_batch :
        (docs : List Doc) (w : World)
        → book (check_batch Value same_value find_any dedup_key strategy docs w).1 ≡ book w
    unfolding check_batch
    book-check_batch docs w = elim (Bool-cases (is_empty dedup_key)) [
      | inl e ↦ rw (e, check_batch) refl
      | inr e ↦
          rw (e, check_batch)
            (ap book (world-resolve_all docs _)
              ∙ book-existing_for (filters_of Value same_value dedup_key docs) w)
    ]

    -- Every row processed so far has been settled.
    abbrev pub IsPart : Counts → Type 0
    IsPart c = (settled c ≡ c.rows_processed) × (c.rows_processed ≤ table.height)

    -- What holds of the counters and of the book when the loop ends; without fuel it does not.
    abbrev pub Accounts : Book → End → Type 0
    Accounts start (finished c w) = IsBalanced table.height c × IsBooked start c (book w)
    Accounts start (cancelled c w) = IsPart c × IsBooked start c (book w)
    Accounts start (stopped e c w) = IsPart c × IsBooked start c (book w)
    Accounts start out_of_fuel = ⊥

    module _ (start : Book) where
      -- A continuation that accounts for the rows from the end of a chunk on.
      abbrev Continues : ℕ → (ℕ → Counts → World → End) → Type 0
      Continues end next =
          (c : Counts) (w : World)
          → IsBalanced end c
          → IsBooked start c (book w)
          → Accounts start (next end c w)

      early : (offset : ℕ) (c : Counts) → IsBalanced offset c → offset ≤ table.height → IsPart c
      early offset c b h = (b.sum ∙ sym b.processed, omega (arith, b.processed))

      write_chunk-Accounts :
          (next : ℕ → Counts → World → End) (offset end : ℕ) (c : Counts)
          (r : Result String (List (DedupResult Value same_value)) × World)
          → Continues end next
          → offset ≤ end
          → end ≤ table.height
          → IsBalanced offset c
          → Counted Value same_value (end - offset) r
          → IsBooked start c (book r.1)
          → Accounts start (
              write_chunk Value same_value coll table job_id batch_size dedup_key strategy next
                offset end c r)
      unfolding write_chunk
      write_chunk-Accounts next offset end c (err e, w) go lo hi b n i =
          (early offset c b (omega arith), i)
      write_chunk-Accounts next offset end c (ok results, w) go lo hi b n i =
          let parts = split Value same_value results in
          let c₁ : Counts = record c { rows_skipped = c.rows_skipped + parts.skipped_rows } in
          let r₂ =
            insert_part Value same_value coll table job_id batch_size dedup_key strategy offset
              parts.to_insert c₁ w in
          let r₃ =
            replace_part Value same_value coll table job_id batch_size dedup_key strategy
              parts.to_replace r₂.0 r₂.1 in
          let s₂ =
            insert_part-Settles Value same_value coll books table job_id batch_size dedup_key
              strategy start offset parts.to_insert c₁ w in
          let s₃ =
            replace_part-Settles Value same_value coll books table job_id batch_size dedup_key
              strategy start parts.to_replace r₂.0 r₂.1 in
          let total = split-length Value same_value results in
          let i₃ : IsBooked start r₃.0 (book r₃.1) =
            s₃.booked (s₂.booked (record { successes = i.successes; failures = i.failures })) in
          go _ _
            (record {
              processed = omega (arith, s₂.same, s₃.same, b.processed);
              sum = omega (arith, s₂.more, s₃.more, b.sum, total, n);
            })
            (rw book-update_progress (record { successes = i₃.successes; failures = i₃.failures }))

      convert_chunk-Accounts :
          (next : ℕ → Counts → World → End) (offset end : ℕ) (c : Counts) (w : World)
          (r : Result String (List Doc))
          → Continues end next
          → offset ≤ end
          → end ≤ table.height
          → IsBalanced offset c
          → IsBooked start c (book w)
          → ((docs : List Doc) → r ≡ ok docs → length docs ≡ end - offset)
          → Accounts start (
              convert_chunk Value same_value coll table job_id batch_size dedup_key strategy next
                offset end c w r)
      unfolding convert_chunk
      convert_chunk-Accounts next offset end c w (err e) go lo hi b i n =
          let sent : Book = book (
            push_rows Value same_value coll table job_id batch_size dedup_key strategy e offset
              (end - offset) w) in
          let j = IsBooked-Mails (end - offset) start c (book w) sent i (
            push_rows-Mails Value same_value coll books table job_id batch_size dedup_key strategy e
              offset (end - offset) w) in
          go _ _ (record { processed = omega (arith, b.processed); sum = omega (arith, b.sum) })
            (record { successes = j.successes; failures = j.failures })
      convert_chunk-Accounts next offset end c w (ok docs) go lo hi b i n =
          let results = check_batch Value same_value find_any dedup_key strategy docs w in
          write_chunk-Accounts next offset end c results go lo hi b
            (subst (λ k. Counted Value same_value k results) (n docs refl)
              (check_batch-Counted Value same_value find_any dedup_key strategy docs w))
            (subst (λ k. IsBooked start c k) (sym (book-check_batch docs w)) i)

      turn-Accounts :
          (next : ℕ → Counts → World → End) (offset : ℕ) (c : Counts) (r : Bool × World)
          → Continues (min (offset + batch_size) table.height) next
          → offset ≤ table.height
          → IsBalanced offset c
          → IsBooked start c (book r.1)
          → Accounts start (
              turn Value same_value coll table job_id batch_size dedup_key strategy next offset c r)
      unfolding turn
      turn-Accounts next offset c (true, w) go h b i = (early offset c b h, i)
      turn-Accounts next offset c (false, w) go h b i =
          let end : ℕ = min (offset + batch_size) table.height in
          convert_chunk-Accounts next offset end c w (table.convert offset (end - offset)) go
            (omega arith) (omega arith) b i
            (λ docs e. table.one_for_each offset (end - offset) docs e)

      run_from-Accounts :
          (fuel offset : ℕ) (c : Counts) (w : World)
          → 0 < batch_size
          → offset ≤ table.height
          → table.height ≤ offset + fuel
          → IsBalanced offset c
          → IsBooked start c (book w)
          → Accounts start (
              run_from Value same_value coll table job_id batch_size dedup_key strategy fuel offset
                c w)
      unfolding run_from
      run_from-Accounts zero offset c w pos lo hi b i =
          let done : offset ≡ table.height = omega arith in
          let test : ltb offset table.height ≡ false = ground (arith, done) in
          rw test (subst (λ k. IsBalanced k c) done b, i)
      run_from-Accounts (suc fuel) offset c w pos lo hi b i =
          elim (Bool-cases (ltb offset table.height)) [
            | inr end ↦
                let done : offset ≡ table.height = ground arith in
                rw (end, run_from) (subst (λ k. IsBalanced k c) done b, i)
            | inl more ↦
                let here : offset < table.height = ground (arith, more) in
                rw (more, run_from)
                  (turn-Accounts
                    (run_from Value same_value coll table job_id batch_size dedup_key strategy fuel)
                    offset c (try_cancel w)
                    (λ c' w' b' i'.
                      run_from-Accounts fuel (min (offset + batch_size) table.height) c' w' pos
                        (omega arith) (omega arith) b' i')
                    lo b (subst (λ k. IsBooked start c k) (sym (book-try_cancel w)) i))
          ]

    -- With a batch size of at least one the loop ends. By a book that is kept of the calls, the rows
    -- counted as inserted are those of insertions and replacements that were answered with success, and
    -- the failed ones are the entries handed to the dead letter queue with the replacements that were
    -- answered with an error. Where the loop finishes, these and the skipped rows add up to the rows of
    -- the table; where it is cancelled or stopped by a failed query, to the rows processed so far.
    pub run_sequential_writes-Accounts :
        (w : World)
        → 0 < batch_size
        → Accounts (book w) (
            run_sequential_writes Value same_value coll table job_id batch_size dedup_key strategy
              w)
    unfolding run_sequential_writes
    run_sequential_writes-Accounts w pos =
        run_from-Accounts (book w) table.height 0 no_counts w pos (omega arith) (omega arith)
          (record { processed = refl; sum = refl })
          (record { successes = omega arith; failures = omega arith })
