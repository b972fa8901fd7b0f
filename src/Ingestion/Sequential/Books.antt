-- ===== src/Ingestion/Sequential/Books.antt =====
-- Books: the counters of a sequential ingestion beside a count of what its calls have answered.
use mongocore.Prelude.{
  ℕ, zero, suc, ◌+◌, Bool-cases, String, ◌≡◌, refl, ap, ◌∙◌, inl, inr, Bool, true, false, List, [],
  ◌∷◌, length, subst, unwrap_or, Result, ok, err, arith,
}
use mongocore.Ingestion.Dedup.{
  build_dedup_filter, ConflictStrategy, Document, DedupResult, insert, skipped, replace, merged,
}
use mongocore.Ingestion.Sequential.{
  Counts, Collection, Table, DeadLetterEntry, split, push_rows, push_docs, after_insert,
  insert_part, replace_part,
}

-- The rows of insertions and replacements that were answered with success, the entries handed to the
-- dead letter queue, and the replacements that were answered with an error.
pub record Book : Type 0 where
  pub inserted : ℕ
  pub letters : ℕ
  pub refused : ℕ

abbrev pub after_insertion : Result String ℕ → Book → Book
after_insertion (ok n) b = record b { inserted = b.inserted + n }
after_insertion (err e) b = b

abbrev pub after_replacement : Bool → Book → Book
after_replacement true b = record b { inserted = b.inserted + 1 }
after_replacement false b = record b { refused = b.refused + 1 }

abbrev pub with_letter : Book → Book
with_letter b = record b { letters = b.letters + 1 }

-- A book that is kept of the calls; it counts answers, whatever the collection has done.
pub record Bookkeeping (Value : Type 0) (coll : Collection Value) : Type 0 where
  pub book : coll.World → Book
  pub book-find_any :
      (filters : List (List (String × Value))) (w : coll.World)
      → book (coll.find_any filters w).1 ≡ book w
  pub book-insert_many :
      (docs : List (List (String × Value))) (w : coll.World)
      → book (coll.insert_many docs w).1 ≡ after_insertion (coll.insert_many docs w).0 (book w)
  pub book-replace_one :
      (filter doc : List (String × Value)) (w : coll.World)
      → book (coll.replace_one filter doc w).1
        ≡ after_replacement (coll.replace_one filter doc w).0 (book w)
  pub book-push :
      (entry : DeadLetterEntry Value) (w : coll.World)
      → book (coll.push entry w) ≡ with_letter (book w)
  pub book-update_progress :
      (job_id : String) (c : Counts) (w : coll.World)
      → book (coll.update_progress job_id c w) ≡ book w
  pub book-try_cancel : (w : coll.World) → book (coll.try_cancel w).1 ≡ book w

-- The counters since the start are those of the book: what was answered with success is counted as
-- inserted, and dead letters and refused replacements as failed.
pub record IsBooked (start : Book) (c : Counts) (now : Book) : Type 0 where
  pub successes : now.inserted ≡ start.inserted + c.rows_inserted
  pub failures : now.letters + now.refused ≡ start.letters + start.refused + c.rows_failed

-- Some more dead letters, and nothing else.
pub record Mails (n : ℕ) (old new : Book) : Type 0 where
  pub same_inserted : new.inserted ≡ old.inserted
  pub same_refused : new.refused ≡ old.refused
  pub more_letters : new.letters ≡ old.letters + n

-- The rows whose end is known.
abbrev pub settled : Counts → ℕ
settled c = c.rows_inserted + c.rows_skipped + c.rows_failed

-- A step that settles some rows more, and is booked if all before it is.
pub record Settles (n : ℕ) (start : Book) (before after : Counts) (old new : Book) : Type 0 where
  pub same : after.rows_processed ≡ before.rows_processed
  pub more : settled after ≡ settled before + n
  pub booked : IsBooked start before old → IsBooked start after new

pub Mails-first :
    (n : ℕ) (old middle new : Book)
    → middle ≡ with_letter old
    → Mails n middle new
    → Mails (suc n) old new
Mails-first n old middle new e m = record {
  same_inserted = m.same_inserted ∙ ap Book.inserted e;
  same_refused = m.same_refused ∙ ap Book.refused e;
  more_letters = omega (arith, m.more_letters, ap Book.letters e);
}

-- Dead letters are counted as failed rows.
pub IsBooked-Mails :
    (n : ℕ) (start : Book) (c : Counts) (old new : Book)
    → IsBooked start c old
    → Mails n old new
    → IsBooked start (record c { rows_failed = c.rows_failed + n }) new
IsBooked-Mails n start c old new i m = record {
  successes = m.same_inserted ∙ i.successes;
  failures = omega (arith, m.same_refused, m.more_letters, i.failures);
}

module _ (Value : Type 0) (same_value : Value → Value → Bool) where
  pub split-length :
      (results : List (DedupResult Value same_value))
      → let parts = split Value same_value results in
        length parts.to_insert + length parts.to_replace + parts.skipped_rows ≡ length results
  unfolding split
  split-length [] = omega arith
  split-length (insert d ∷ results) = omega (arith, split-length results)
  split-length (skipped ∷ results) = omega (arith, split-length results)
  split-length (replace d ∷ results) = omega (arith, split-length results)
  split-length (merged i e ∷ results) = omega (arith, split-length results)

  module _ (coll : Collection Value) (books : Bookkeeping Value coll) (table : Table Value)
      (job_id : String) (batch_size : ℕ) (dedup_key : List String)
      (strategy : ConflictStrategy) where
    open coll use {World, insert_many, replace_one, insert_many_all}
    open books use {book, book-insert_many, book-replace_one, book-push}

    abbrev Doc : Type 0
    Doc = Document Value same_value

    pub push_rows-Mails :
        (error : String) (offset n : ℕ) (w : World)
        → Mails n (book w) (
            book (
              push_rows Value same_value coll table job_id batch_size dedup_key strategy error
                offset n w))
    unfolding push_rows
    push_rows-Mails error offset zero w = record {
      same_inserted = refl;
      same_refused = refl;
      more_letters = omega arith;
    }
    push_rows-Mails error offset (suc n) w =
        let rest = push_rows-Mails error (suc offset) n _ in
        Mails-first n _ _ _ (book-push _ w) rest

    push_docs-Mails :
        (error : String) (row : ℕ) (docs : List Doc) (w : World)
        → Mails (length docs) (book w) (
            book (
              push_docs Value same_value coll table job_id batch_size dedup_key strategy error row
                docs w))
    unfolding push_docs
    push_docs-Mails error row [] w = record {
      same_inserted = refl;
      same_refused = refl;
      more_letters = omega arith;
    }
    push_docs-Mails error row (doc ∷ docs) w =
        let rest = push_docs-Mails error (suc row) docs _ in
        Mails-first (length docs) _ _ _ (book-push _ w) rest

    module _ (start : Book) where
      after_insert-Settles :
          (offset : ℕ) (docs : List Doc) (c : Counts) (old : Book) (r : Result String ℕ × World)
          → ((n : ℕ) → r.0 ≡ ok n → n ≡ length docs)
          → book r.1 ≡ after_insertion r.0 old
          → let after =
              after_insert Value same_value coll table job_id batch_size dedup_key strategy offset
                docs c r in
            Settles (length docs) start c after.0 old (book after.1)
      unfolding after_insert
      after_insert-Settles offset docs c old (ok n, w) h b = record {
        same = refl;
        more = omega (arith, h n refl);
        booked =
            λ i. rw b (record { successes = omega (arith, i.successes); failures = i.failures });
      }
      after_insert-Settles offset docs c old (err e, w) h b =
          let sent : Book = book (
            push_docs Value same_value coll table job_id batch_size dedup_key strategy e offset docs
              w) in
          let mailed : Mails (length docs) old sent =
            subst (λ k. Mails (length docs) k sent) b (push_docs-Mails e offset docs w) in
          record {
            same = refl;
            more = omega arith;
            booked = λ i. IsBooked-Mails (length docs) start c old sent i mailed;
          }

      pub insert_part-Settles :
          (offset : ℕ) (docs : List Doc) (c : Counts) (w : World)
          → let after =
              insert_part Value same_value coll table job_id batch_size dedup_key strategy offset
                docs c w in
            Settles (length docs) start c after.0 (book w) (book after.1)
      unfolding insert_part
      insert_part-Settles offset [] c w = record {
        same = refl;
        more = omega arith;
        booked = λ i. i;
      }
      insert_part-Settles offset (d ∷ docs) c w =
          after_insert-Settles offset (d ∷ docs) c (book w) (insert_many (d ∷ docs) w)
            (λ n e.
              insert_many_all (d ∷ docs) w _ n (ap (λ x. (x, (insert_many (d ∷ docs) w).1)) e))
            (book-insert_many (d ∷ docs) w)

      pub replace_part-Settles :
          (docs : List Doc) (c : Counts) (w : World)
          → let after =
              replace_part Value same_value coll table job_id batch_size dedup_key strategy docs c
                w in
            Settles (length docs) start c after.0 (book w) (book after.1)
      unfolding replace_part
      replace_part-Settles [] c w = record { same = refl; more = omega arith; booked = λ i. i }
      replace_part-Settles (d ∷ docs) c w =
          let filter = unwrap_or [] (build_dedup_filter Value same_value dedup_key d) in
          let w' = (replace_one filter d w).1 in
          let noted = book-replace_one filter d w in
          elim (Bool-cases (replace_one filter d w).0) [
            | inl e ↦
                let rest =
                  replace_part-Settles docs (record c { rows_inserted = c.rows_inserted + 1 }) w' in
                let b : book w' ≡ after_replacement true (book w) = rw e at noted in
                rw (e, replace_part)
                  (record {
                    same = rest.same;
                    more = omega (arith, rest.more);
                    booked = λ i. rest.booked (
                        rw b (record {
                          successes = omega (arith, i.successes);
                          failures = i.failures;
                        }));
                  })
            | inr e ↦
                let rest =
                  replace_part-Settles docs (record c { rows_failed = c.rows_failed + 1 }) w' in
                let b : book w' ≡ after_replacement false (book w) = rw e at noted in
                rw (e, replace_part)
                  (record {
                    same = rest.same;
                    more = omega (arith, rest.more);
                    booked = λ i. rest.booked (
                        rw b (record {
                          successes = i.successes;
                          failures = omega (arith, i.failures);
                        }));
                  })
          ]
