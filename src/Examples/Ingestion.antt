-- ===== src/Examples/Ingestion.antt =====
-- The theorems on ingestion, at a table of three rows of which the last cannot be converted.
use mongocore.Prelude.{
  ℕ, zero, suc, ◌+◌, ◌*◌, ◌≤◌, ltb, ◌==◌, if◌then◌else◌, or_else, String, str_eq, ◌≡◌, refl, ap,
  subst, true, false, Bool-cases, inl, inr, ◌⊎◌, List, [], ◌∷◌, ◌++◌, length, find, Result, ok, err,
  arith,
}
use mongocore.Transport.Codec.{last_field}
use mongocore.Ingestion.Dedup.{merge, merge_documents}
use mongocore.Ingestion.Dedup.Merge.{find-merge_documents}
use mongocore.Ingestion.Sequential.{
  Collection, Table, no_counts, run_sequential_writes, run_from, out_of_fuel,
}
use mongocore.Ingestion.Sequential.Books.{
  Book, Bookkeeping, after_insertion, after_replacement, with_letter,
}
use mongocore.Ingestion.Sequential.Balance.{run_sequential_writes-Accounts, Accounts}
use mongocore.Ingestion.Sequential.Stuck.{run_from-stuck}
use mongocore.Ingestion.Concurrent.{
  Batch, Ingestion, produce, written, push_failed, Step, send, take_one, write, Reach, begin, later,
  IsDone,
}
use mongocore.Ingestion.Concurrent.Rows.{IsCounted, done-rows}
use mongocore.Ingestion.Concurrent.Progress.{Reach-progress}

abbrev Row : Type 0
Row = List (String × ℕ)

-- The documents of a collection, and a book of the calls.
abbrev Shelf : Type 0
Shelf = List Row × Book

-- A collection that takes batches while it has fewer than three documents.
abbrev store : List Row → Shelf → Result String ℕ × Shelf
store docs (rows, b) =
    if ltb (length rows) 3
    then (ok (length docs), (rows ++ docs, after_insertion (ok (length docs)) b))
    else (err "full", (rows, b))

store_all : (docs : List Row) (w w' : Shelf) (n : ℕ) → store docs w ≡ (ok n, w') → n ≡ length docs
store_all docs (rows, b) w' n h = elim (Bool-cases (ltb (length rows) 3)) [
  | inl room ↦
      let same : ◌≡◌ {A = Result String ℕ × Shelf}
          (ok (length docs), (rows ++ docs, after_insertion (ok (length docs)) b)) (ok n, w') =
        rw room at h in
      let e : ◌≡◌ {A = Result String ℕ} (ok (length docs)) (ok n) = ap (λ p. p.0) same in cc e
  | inr full ↦
      let same : ◌≡◌ {A = Result String ℕ × Shelf} (err "full", (rows, b)) (ok n, w') =
        rw full at h in
      let e : ◌≡◌ {A = Result String ℕ} (err "full") (ok n) = ap (λ p. p.0) same in cc e
]

abbrev shelf : Collection ℕ
shelf = record {
  World = Shelf;
  find_any = λ filters w. (ok w.0, w);
  insert_many = store;
  replace_one = λ filter doc w. (true, (w.0, after_replacement true w.1));
  push = λ entry w. (w.0, with_letter w.1);
  update_progress = λ job counts w. w;
  try_cancel = λ w. (false, w);
  insert_many_all = store_all;
}

store_book :
    (docs : List Row) (w : Shelf) → (store docs w).1.1 ≡ after_insertion (store docs w).0 w.1
store_book docs (rows, b) = elim (Bool-cases (ltb (length rows) 3)) [
  | inl room ↦ rw room refl
  | inr full ↦ rw full refl
]

abbrev shelf_book : Bookkeeping ℕ shelf
shelf_book = record {
  book = λ w. w.1;
  book-find_any = λ filters w. refl;
  book-insert_many = store_book;
  book-replace_one = λ filter doc w. refl;
  book-push = λ entry w. refl;
  book-update_progress = λ job c w. refl;
  book-try_cancel = λ w. refl;
}

abbrev blank : Book
blank = record { inserted = 0; letters = 0; refused = 0 }

abbrev row_list : ℕ → ℕ → List Row
row_list offset zero = []
row_list offset (suc n) = (("id", offset) ∷ []) ∷ row_list (suc offset) n

length-row_list : (offset n : ℕ) → length (row_list offset n) ≡ n
length-row_list offset zero = refl
length-row_list offset (suc n) = ap suc (length-row_list (suc offset) n)

abbrev convert_rows : ℕ → ℕ → Result String (List Row)
convert_rows offset n = if offset == 2 then err "bad" else ok (row_list offset n)

convert_rows-length :
    (offset n : ℕ) (docs : List Row) → convert_rows offset n ≡ ok docs → length docs ≡ n
convert_rows-length offset n docs h = elim (Bool-cases (offset == 2)) [
  | inl bad ↦ cc (rw bad at h)
  | inr good ↦
      let same : ◌≡◌ {A = Result String (List Row)} (ok (row_list offset n)) (ok docs) =
        rw good at h in
      let e : row_list offset n ≡ docs = cc same in
      subst (λ (ds : List Row). length ds ≡ n) e (length-row_list offset n)
]

abbrev three_rows : Table ℕ
three_rows = record { height = 3; convert = convert_rows; one_for_each = convert_rows-length }

-- One row is there already.
abbrev one_row : Shelf
one_row = ((("id", 1) ∷ ("x", 5) ∷ []) ∷ [], blank)

run_sequential_writes_example :
    Accounts ℕ ◌==◌ shelf shelf_book three_rows "job" 2
      ("id" ∷ [])
      merge
      blank
      (run_sequential_writes ℕ ◌==◌ shelf three_rows "job" 2 ("id" ∷ []) merge one_row)
run_sequential_writes_example =
    run_sequential_writes-Accounts ℕ ◌==◌ shelf shelf_book three_rows "job" 2 ("id" ∷ []) merge
      one_row (omega arith)

run_from-stuck_example :
    run_from ℕ ◌==◌ shelf three_rows "job" 0 ("id" ∷ []) merge 20 0 no_counts ([], blank)
    ≡ out_of_fuel
run_from-stuck_example =
    run_from-stuck ℕ ◌==◌ shelf three_rows "job" ("id" ∷ []) merge 20 0 no_counts ([], blank)
      (λ v. refl) (omega arith)

-- Two rows with one key.
abbrev old_row : Row
old_row = ("id", 1) ∷ ("x", 5) ∷ []

abbrev new_row : Row
new_row = ("id", 1) ∷ ("x", 6) ∷ []

find-merge_documents_example :
    find str_eq "x" (merge_documents ℕ ◌==◌ new_row old_row)
    ≡ or_else (last_field "x" new_row) (find str_eq "x" old_row)
find-merge_documents_example = find-merge_documents ℕ ◌==◌ "x" new_row old_row

abbrev State : Type 0
State = Ingestion ℕ shelf three_rows "job" 2 1

abbrev first_chunk : Batch ℕ
first_chunk = record { docs = row_list 0 2; offset = 0 }

abbrev at_end : State
at_end = record {
  offset = 3;
  chunk_num = 2;
  producing = true;
  channel = [];
  writing = [];
  rows_inserted = 2;
  rows_failed = 1;
  world = (row_list 0 2, record { inserted = 2; letters = 1; refused = 0 });
}

-- A chunk is sent, taken and written, and the next one is not converted.
whole_run : Reach ℕ shelf three_rows "job" 2 1 ([], blank) 4 at_end
unfolding produce written push_failed
whole_run =
    later
      (later
        (later (later begin (send refl (omega arith) (λ docs e. omega arith)))
          (take_one first_chunk [] refl (omega arith)))
        (write [] first_chunk [] refl))
      (send refl (omega arith) (λ docs e. omega arith))

done-rows_example :
    (at_end.rows_inserted + at_end.rows_failed ≡ three_rows.height)
    × IsCounted ℕ shelf shelf_book three_rows "job" 2 1 blank at_end
done-rows_example =
    done-rows ℕ shelf shelf_book three_rows "job" 2 1 whole_run
      (record { drained = (refl, refl); ended = λ e. omega arith }) refl

Reach-progress_example :
    (4 ≤ 3 * three_rows.height + 1)
    × (IsDone ℕ shelf three_rows "job" 2 1 at_end
        ⊎ ((t : State) × Step ℕ shelf three_rows "job" 2 1 at_end t))
Reach-progress_example =
    Reach-progress ℕ shelf three_rows "job" 2 1 (omega arith) (omega arith) whole_run
