-- ===== src/Ingestion/Concurrent/Rows.antt =====
-- Rows: the counters of a concurrent ingestion, beside its rows and a book of its calls.
use Prim.Native.String.{◌++◌ as str_append}
use mongocore.Prelude.{
  ℕ, zero, suc, ◌∙◌, ◌+◌, ◌-◌, ◌≤◌, min, String, ◌≡◌, refl, ap, true, List, [], ◌∷◌, ◌++◌, length,
  Result, ok, err, arith,
}
use mongocore.Ingestion.Sequential.{Collection, Table}
use mongocore.Ingestion.Sequential.Books.{Book, Bookkeeping, after_insertion, Mails, Mails-first}
use mongocore.Ingestion.Concurrent.{
  push_failed, blanks, Batch, Ingestion, end_from, produce, written, Step, send, take_one, write,
  cancel, Reach, begin, later, IsDone,
}

-- The rows of some chunks.
abbrev pub rows : {Value : Type 0} → List (Batch Value) → ℕ
rows [] = 0
rows (b ∷ bs) = length b.docs + rows bs

rows-append : {Value : Type 0} (bs cs : List (Batch Value)) → rows (bs ++ cs) ≡ rows bs + rows cs
rows-append [] cs = omega arith
rows-append (b ∷ bs) cs = omega (arith, rows-append bs cs)

module _ (Value : Type 0) (coll : Collection Value) (books : Bookkeeping Value coll)
    (table : Table Value) (job_id : String) (batch_size concurrency : ℕ) where
  open coll use {World, insert_many, insert_many_all}
  open books use {book, book-insert_many, book-push}

  abbrev State : Type 0
  State = Ingestion Value coll table job_id batch_size concurrency

  -- Every row that the producer has passed was inserted, has failed, or is under way.
  pub record IsBalanced (s : State) : Type 0 where
    pub sum : s.rows_inserted + s.rows_failed + rows s.channel + rows s.writing ≡ s.offset
    pub inside : s.offset ≤ table.height

  produce-IsBalanced :
      (s : State) (r : Result String (List (List (String × Value))))
      → IsBalanced s
      → ((docs : List (List (String × Value)))
          → r ≡ ok docs
          → length docs ≡ min (s.offset + batch_size) table.height - s.offset)
      → IsBalanced (produce Value coll table job_id batch_size concurrency s r)
  unfolding produce
  produce-IsBalanced s (ok docs) b n = record {
    sum = omega (
      arith,
      b.sum,
      b.inside,
      n docs refl,
      rows-append s.channel (record { docs = docs; offset = s.offset } ∷ []),
    );
    inside = omega arith;
  }
  produce-IsBalanced s (err e) b n = record {
    sum = omega (arith, b.sum, b.inside);
    inside = omega arith;
  }

  written-IsBalanced :
      (s : State) (b : Batch Value) (r : Result String ℕ × World)
      → s.rows_inserted + s.rows_failed + rows s.channel + rows s.writing + length b.docs ≡ s.offset
      → s.offset ≤ table.height
      → ((n : ℕ) → r.0 ≡ ok n → n ≡ length b.docs)
      → IsBalanced (written Value coll table job_id batch_size concurrency s b r)
  unfolding written
  written-IsBalanced s b (ok n, w) h i k = record { sum = omega (arith, h, k n refl); inside = i }
  written-IsBalanced s b (err e, w) h i k = record { sum = omega (arith, h); inside = i }

  Step-IsBalanced :
      {s t : State}
      → Step Value coll table job_id batch_size concurrency s t
      → IsBalanced s
      → IsBalanced t
  Step-IsBalanced {s = s} (send p more room) b =
      produce-IsBalanced s
        (table.convert s.offset
          (end_from Value coll table job_id batch_size concurrency s.offset - s.offset))
        b (λ docs e. table.one_for_each s.offset _ docs e)
  Step-IsBalanced (take_one c rest e few) b = record {
    sum = omega (arith, ap rows e, b.sum);
    inside = b.inside;
  }
  Step-IsBalanced {s = s} (write before c after e) b =
      let held : rows s.writing ≡ rows (before ++ c ∷ after) = ap rows e in
      written-IsBalanced (record s { writing = before ++ after }) c (insert_many c.docs s.world)
        (omega (arith, held, b.sum, rows-append before (c ∷ after), rows-append before after))
        b.inside
        (λ n h.
          insert_many_all c.docs s.world _ n (ap (λ x. (x, (insert_many c.docs s.world).1)) h))
  Step-IsBalanced (cancel p more) b = record { sum = b.sum; inside = b.inside }

  Reach-IsBalanced :
      {w : World} {n : ℕ} {s : State}
      → Reach Value coll table job_id batch_size concurrency w n s
      → IsBalanced s
  Reach-IsBalanced begin = record { sum = refl; inside = omega arith }
  Reach-IsBalanced (later r step) = Step-IsBalanced step (Reach-IsBalanced r)

  -- The counters of the writers and the producer since the start are those of the book.
  pub record IsCounted (start : Book) (s : State) : Type 0 where
    pub successes : (book s.world).inserted ≡ start.inserted + s.rows_inserted
    pub failures : (book s.world).letters ≡ start.letters + s.rows_failed

  push_failed-Mails :
      (stage error : String) (row : ℕ) (docs : List (List (String × Value))) (w : World)
      → Mails
          (length docs)
          (book w)
          (book (push_failed Value coll table job_id batch_size concurrency stage error row docs w))
  unfolding push_failed
  push_failed-Mails stage error row [] w = record {
    same_inserted = refl;
    same_refused = refl;
    more_letters = omega arith;
  }
  push_failed-Mails stage error row (doc ∷ docs) w =
      Mails-first (length docs) _ _ _ (book-push _ w)
        (push_failed-Mails stage error (suc row) docs _)

  length-blanks : (n : ℕ) → length (blanks Value coll table job_id batch_size concurrency n) ≡ n
  length-blanks zero = refl
  length-blanks (suc n) = ap suc (length-blanks n)

  produce-IsCounted :
      (start : Book) (s : State) (r : Result String (List (List (String × Value))))
      → IsCounted start s
      → IsCounted start (produce Value coll table job_id batch_size concurrency s r)
  unfolding produce
  produce-IsCounted start s (ok docs) i = record { successes = i.successes; failures = i.failures }
  produce-IsCounted start s (err e) i =
      let n : ℕ = end_from Value coll table job_id batch_size concurrency s.offset - s.offset in
      let none_of = blanks Value coll table job_id batch_size concurrency n in
      let m =
        push_failed-Mails "conversion" (str_append "Conversion error: " e) s.offset none_of
          s.world in
      record {
        successes = m.same_inserted ∙ i.successes;
        failures = omega (arith, m.more_letters, i.failures, length-blanks n);
      }

  written-IsCounted :
      (start : Book) (s : State) (b : Batch Value) (r : Result String ℕ × World)
      → IsCounted start s
      → book r.1 ≡ after_insertion r.0 (book s.world)
      → IsCounted start (written Value coll table job_id batch_size concurrency s b r)
  unfolding written
  written-IsCounted start s b (ok n, w) i noted = record {
    successes = omega (arith, ap Book.inserted noted, i.successes);
    failures = ap Book.letters noted ∙ i.failures;
  }
  written-IsCounted start s b (err e, w) i noted =
      let m = push_failed-Mails "write" (str_append "Insert error: " e) b.offset b.docs w in
      record {
        successes = m.same_inserted ∙ ap Book.inserted noted ∙ i.successes;
        failures = omega (arith, m.more_letters, ap Book.letters noted, i.failures);
      }

  Step-IsCounted :
      (start : Book) {s t : State}
      → Step Value coll table job_id batch_size concurrency s t
      → IsCounted start s
      → IsCounted start t
  Step-IsCounted start {s = s} (send p more room) i = produce-IsCounted start s _ i
  Step-IsCounted start (take_one c rest e few) i = record {
    successes = i.successes;
    failures = i.failures;
  }
  Step-IsCounted start {s = s} (write before c after e) i =
      written-IsCounted start (record s { writing = before ++ after }) c
        (insert_many c.docs s.world) (record { successes = i.successes; failures = i.failures })
        (book-insert_many c.docs s.world)
  Step-IsCounted start (cancel p more) i = record { successes = i.successes; failures = i.failures }

  Reach-IsCounted :
      {w : World} {n : ℕ} {s : State}
      → Reach Value coll table job_id batch_size concurrency w n s
      → IsCounted (book w) s
  Reach-IsCounted begin = record { successes = omega arith; failures = omega arith }
  Reach-IsCounted {w = w} (later r step) = Step-IsCounted (book w) step (Reach-IsCounted r)

  -- However the steps of the producer and the writers interleave: when all is done and the job was not
  -- cancelled, the rows counted as inserted and those counted as failed add up to the rows of the
  -- table. By a book that is kept of the calls, the former are the rows of insertions that were answered
  -- with success, and the latter are the entries handed to the dead letter queue.
  pub done-rows :
      {w : World} {n : ℕ} {s : State}
      → Reach Value coll table job_id batch_size concurrency w n s
      → IsDone Value coll table job_id batch_size concurrency s
      → s.producing ≡ true
      → (s.rows_inserted + s.rows_failed ≡ table.height) × IsCounted (book w) s
  done-rows {s = s} r d p =
      let b = Reach-IsBalanced r in
      let c : rows s.channel ≡ 0 = ap rows d.drained.0 in
      let w : rows s.writing ≡ 0 = ap rows d.drained.1 in
      (omega (arith, b.sum, b.inside, c, w, d.ended p), Reach-IsCounted r)
