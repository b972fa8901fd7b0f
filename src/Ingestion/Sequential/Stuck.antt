-- ===== src/Ingestion/Sequential/Stuck.antt =====
-- A sequential ingestion with a batch size of zero.
use mongocore.Prelude.{
  ℕ, zero, suc, ◌+◌, ◌-◌, ◌<◌, min, ltb, Bool-cases, String, ◌≡◌, refl, ◌∙◌, inl, inr, Bool, true,
  false, List, [], ◌∷◌, length, is_empty, Result, ok, err, arith,
}
use mongocore.Ingestion.Dedup.{
  ConflictStrategy, Document, check_batch, check_all, all_insert, existing_for, resolve_all,
  filters_of,
}
use mongocore.Ingestion.Sequential.{
  Counts, Collection, Table, Ended, out_of_fuel, write_chunk, convert_chunk, turn, run_from,
}

no_documents {ℓ} : {A : Type ℓ} (xs : List A) → length xs ≡ 0 → xs ≡ []
no_documents [] h = refl
no_documents (x ∷ xs) h = absurd (omega arith)

module _ (Value : Type 0) (same_value : Value → Value → Bool) (coll : Collection Value)
    (table : Table Value) (job_id : String) (dedup_key : List String)
    (strategy : ConflictStrategy) where
  open coll use {World, find_any, try_cancel}

  abbrev End : Type 0
  End = Ended Value same_value coll table job_id 0 dedup_key strategy

  check_none :
      (w : World) → check_batch Value same_value find_any dedup_key strategy [] w ≡ (ok [], w)
  unfolding check_batch all_insert filters_of existing_for resolve_all check_all
  check_none w = elim (Bool-cases (is_empty dedup_key)) [ inl e ↦ rw e refl | inr e ↦ rw e refl ]

  -- A chunk of no rows ends where it began.
  chunk_stays :
      (next : ℕ → Counts → World → End) (offset : ℕ) (c : Counts) (w : World)
      (r : Result String (List (Document Value same_value)))
      → ((c : Counts) (w : World) → next offset c w ≡ out_of_fuel)
      → ((docs : List (Document Value same_value)) → r ≡ ok docs → length docs ≡ 0)
      → convert_chunk Value same_value coll table job_id 0 dedup_key strategy next offset offset c w
          r
        ≡ out_of_fuel
  unfolding convert_chunk write_chunk
  chunk_stays next offset c w (err e) stay none_read = stay _ _
  chunk_stays next offset c w (ok docs) stay none_read =
      let docs_empty = no_documents docs (none_read docs refl) in
      rw (docs_empty, check_none w) (stay _ _)

  turn_stays :
      (next : ℕ → Counts → World → End) (offset : ℕ) (c : Counts) (w : World) (r : Bool × World)
      → r.0 ≡ false
      → offset < table.height
      → ((c : Counts) (w : World) → next offset c w ≡ out_of_fuel)
      → turn Value same_value coll table job_id 0 dedup_key strategy next offset c r ≡ out_of_fuel
  unfolding turn
  turn_stays next offset c w (true, w') e h stay = cc e
  turn_stays next offset c w (false, w') e h stay =
      let end : min (offset + 0) table.height ≡ offset = omega arith in
      rw end (
        chunk_stays next offset c w' (table.convert offset (offset - offset)) stay
          (λ docs f. table.one_for_each offset (offset - offset) docs f ∙ omega arith))

  -- With a batch size of zero, and as long as nobody cancels, the loop over a table with rows makes
  -- no progress: no amount of fuel is enough.
  pub run_from-stuck :
      (fuel offset : ℕ) (c : Counts) (w : World)
      → ((v : World) → (try_cancel v).0 ≡ false)
      → offset < table.height
      → run_from Value same_value coll table job_id 0 dedup_key strategy fuel offset c w
        ≡ out_of_fuel
  unfolding run_from
  run_from-stuck zero offset c w never h =
      let more : ltb offset table.height ≡ true = ground arith in rw more refl
  run_from-stuck (suc fuel) offset c w never h =
      let more : ltb offset table.height ≡ true = ground arith in
      rw (more, run_from)
        (turn_stays (run_from Value same_value coll table job_id 0 dedup_key strategy fuel) offset c
          w (try_cancel w) (never w) h (λ c' w'. run_from-stuck fuel offset c' w' never h))
