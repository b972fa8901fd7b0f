-- ===== src/Ingestion/Progress/Agreement.antt =====
-- Agreement: the stored documents of jobs, and the jobs in memory.
use mongocore.Prelude.{
  ℕ, String, str_eq, eq_iff, ◌≡◌, refl, sym, ◌∙◌, subst, true, false, Bool-cases, inl, inr, [], ◌∷◌,
  none, some, Option-cases, ◌⊎◌, find, put, find-put, find-put_other,
}
use mongocore.Ingestion.Progress.{
  IngestJob, completed, failed, cancelled, Stored, first_fields, text, time, Fields,
  job_to_document, status_str, Change, total_rows_to, progress_to, complete, fail, cancel,
  set_fields, apply_change,
}

-- `$set`: each field is replaced where it is, or added.
abbrev pub set_all : Fields → Fields → Fields
set_all [] d = d
set_all ((k, v) ∷ fields) d = set_all fields (put str_eq k v d)

absurd_equal : {A : Type 0} (j k : String) → j ≡ k → str_eq j k ≡ false → A
absurd_equal j k e n = let y : str_eq j k ≡ true = (eq_iff j k).1 e in cc (y, n)

-- Two fields of different names can be set in either order.
find-put_swap :
    (j k l : String) (v w : Stored) (d : Fields)
    → str_eq j k ≡ false
    → find str_eq l (put str_eq j v (put str_eq k w d))
      ≡ find str_eq l (put str_eq k w (put str_eq j v d))
find-put_swap j k l v w d apart = elim (Bool-cases (str_eq j l)) [
  | inl e ↦
      let same : j ≡ l = (eq_iff j l).0 e in
      let back : str_eq k j ≡ false = elim (Bool-cases (str_eq k j)) [
        | inr n ↦ n
        | inl y ↦ let kj : k ≡ j = (eq_iff k j).0 y in absurd_equal j k (sym kj) apart
      ] in
      subst
        (λ x.
          find str_eq x (put str_eq j v (put str_eq k w d))
          ≡ find str_eq x (put str_eq k w (put str_eq j v d)))
        same
        (find-put str_eq eq_iff j v (put str_eq k w d)
          ∙ sym (
              find-put_other str_eq eq_iff k j w (put str_eq j v d) back
              ∙ find-put str_eq eq_iff j v d))
  | inr n ↦
      find-put_other str_eq eq_iff j l v (put str_eq k w d) n ∙ elim (Bool-cases (str_eq k l)) [
        | inl e ↦
            let same : k ≡ l = (eq_iff k l).0 e in
            subst
              (λ x.
                find str_eq x (put str_eq k w d)
                ≡ find str_eq x (put str_eq k w (put str_eq j v d)))
              same
              (find-put str_eq eq_iff k w d ∙ sym (find-put str_eq eq_iff k w (put str_eq j v d)))
        | inr m ↦
            find-put_other str_eq eq_iff k l w d m
            ∙ sym (
                find-put_other str_eq eq_iff k l w (put str_eq j v d) m
                ∙ find-put_other str_eq eq_iff j l v d n)
      ]
]

agrees_at :
    (change : Change) (job : IngestJob) (key : String)
    → ((job.completed_at ≡ none) ⊎ ((n : ℕ) × (job.completed_at ≡ some n)))
    → ((job.error ≡ none) ⊎ ((message : String) × (job.error ≡ some message)))
    → find str_eq key (set_all (set_fields change) (job_to_document job))
      ≡ find str_eq key (job_to_document (apply_change change job))
unfolding set_fields job_to_document apply_change put status_str
agrees_at (total_rows_to rows) job key (inl c) (inl e) = rw (c, e) refl
agrees_at (total_rows_to rows) job key (inl c) (inr (message, e)) = rw (c, e) refl
agrees_at (total_rows_to rows) job key (inr (n, c)) (inl e) = rw (c, e) refl
agrees_at (total_rows_to rows) job key (inr (n, c)) (inr (message, e)) = rw (c, e) refl
agrees_at (progress_to processed inserted skipped lost chunk) job key (inl c) (inl e) =
    rw (c, e) refl
agrees_at (progress_to processed inserted skipped lost chunk) job key (inl c) (inr (message, e)) =
    rw (c, e) refl
agrees_at (progress_to processed inserted skipped lost chunk) job key (inr (n, c)) (inl e) =
    rw (c, e) refl
agrees_at (progress_to processed inserted skipped lost chunk) job key (inr (n, c))
      (inr (message, e)) =
    rw (c, e) refl
agrees_at (complete now) job key (inl c) (inl e) = rw (c, e) refl
agrees_at (complete now) job key (inl c) (inr (message, e)) =
    rw (c, e)
      (find-put_swap "completed_at" "error" key (time now) (text message)
        (first_fields (record job { status = completed })) refl)
agrees_at (complete now) job key (inr (n, c)) (inl e) = rw (c, e) refl
agrees_at (complete now) job key (inr (n, c)) (inr (message, e)) = rw (c, e) refl
agrees_at (fail now why) job key (inl c) (inl e) =
    rw (c, e)
      (find-put_swap "completed_at" "error" key (time now) (text why)
        (first_fields (record job { status = failed })) refl)
agrees_at (fail now why) job key (inl c) (inr (message, e)) =
    rw (c, e)
      (find-put_swap "completed_at" "error" key (time now) (text why)
        (first_fields (record job { status = failed })) refl)
agrees_at (fail now why) job key (inr (n, c)) (inl e) = rw (c, e) refl
agrees_at (fail now why) job key (inr (n, c)) (inr (message, e)) = rw (c, e) refl
agrees_at (cancel now) job key (inl c) (inl e) = rw (c, e) refl
agrees_at (cancel now) job key (inl c) (inr (message, e)) =
    rw (c, e)
      (find-put_swap "completed_at" "error" key (time now) (text message)
        (first_fields (record job { status = cancelled })) refl)
agrees_at (cancel now) job key (inr (n, c)) (inl e) = rw (c, e) refl
agrees_at (cancel now) job key (inr (n, c)) (inr (message, e)) = rw (c, e) refl

-- What an operation writes into the stored document of a job, and what it makes of the job in memory,
-- agree on every field.
pub set_fields-agrees :
    (change : Change) (job : IngestJob) (key : String)
    → find str_eq key (set_all (set_fields change) (job_to_document job))
      ≡ find str_eq key (job_to_document (apply_change change job))
set_fields-agrees change job key =
    agrees_at change job key (Option-cases job.completed_at) (Option-cases job.error)
