-- ===== src/Ingestion/Concurrent/Progress.antt =====
-- The concurrent ingestion does not hang: there is a next step until it is done, and it takes only
-- so many.
use mongocore.Prelude.{
  ℕ, suc, ◌+◌, ◌-◌, ◌*◌, ◌≤◌, ◌<◌, ltb, Bool-cases, String, ◌≡◌, refl, ap, ◌⊎◌, inl, inr, Bool,
  true, false, List, [], ◌∷◌, ◌++◌, length, length-append, Result, ok, err, arith,
}
use mongocore.Ingestion.Sequential.{Collection, Table}
use mongocore.Ingestion.Concurrent.{
  Batch, Ingestion, produce, written, Step, send, take_one, write, cancel, Reach, begin, later,
  IsDone,
}

module _ (Value : Type 0) (coll : Collection Value) (table : Table Value) (job_id : String)
    (batch_size concurrency : ℕ) where
  open coll use {World, insert_many}

  abbrev State : Type 0
  State = Ingestion Value coll table job_id batch_size concurrency

  abbrev one_if : Bool → ℕ
  one_if true = 1
  one_if false = 0

  -- A bound of the steps that are left: three for each chunk to come, two for one in the channel, one
  -- for one at a writer, and one for a cancellation.
  abbrev pub left : State → ℕ
  left s =
      3 * (table.height - s.offset) + 2 * length s.channel + length s.writing + one_if s.producing

  produce-left :
      (s : State) (r : Result String (List (List (String × Value))))
      → 0 < batch_size
      → s.offset < table.height
      → suc (left (produce Value coll table job_id batch_size concurrency s r)) ≤ left s
  unfolding produce
  produce-left s (ok docs) pos more =
      omega
        (arith, pos, more, length-append s.channel (record { docs = docs; offset = s.offset } ∷ []))
  produce-left s (err e) pos more = omega (arith, pos, more)

  written-left :
      (s : State) (b : Batch Value) (r : Result String ℕ × World)
      → left (written Value coll table job_id batch_size concurrency s b r) ≡ left s
  unfolding written
  written-left s b (ok n, w) = refl
  written-left s b (err e, w) = refl

  Step-left :
      {s t : State}
      → 0 < batch_size
      → Step Value coll table job_id batch_size concurrency s t
      → suc (left t) ≤ left s
  Step-left {s = s} pos (send p more room) = produce-left s _ pos more
  Step-left pos (take_one c rest e few) = omega (arith, ap length e)
  Step-left {s = s} pos (write before c after e) = omega (
    arith,
    ap length e,
    length-append before (c ∷ after),
    length-append before after,
    written-left (record s { writing = before ++ after }) c (insert_many c.docs s.world),
  )
  Step-left {s = s} pos (cancel p more) = omega (arith, ap one_if p)

  Reach-left :
      {w : World} {n : ℕ} {s : State}
      → 0 < batch_size
      → Reach Value coll table job_id batch_size concurrency w n s
      → n + left s ≤ 3 * table.height + 1
  Reach-left pos begin = omega arith
  Reach-left pos (later r step) = omega (arith, Reach-left pos r, Step-left pos step)

  -- In every state something can happen, or all is done.
  next_step :
      (s : State)
      → 0 < concurrency
      → IsDone Value coll table job_id batch_size concurrency s
        ⊎ ((t : State) × Step Value coll table job_id batch_size concurrency s t)
  next_step s pos = by_writing s.writing refl s.channel refl
    where
      by_writing :
          (writing : List (Batch Value))
          → s.writing ≡ writing
          → (channel : List (Batch Value)) → s.channel ≡ channel
          → IsDone Value coll table job_id batch_size concurrency s
            ⊎ ((t : State) × Step Value coll table job_id batch_size concurrency s t)
      by_writing (b ∷ rest) e channel f = inr (_, write [] b rest e)
      by_writing [] e (b ∷ rest) f = inr (_, take_one b rest f (omega (arith, ap length e)))
      by_writing [] e [] f = elim (Bool-cases s.producing) [
        | inr n ↦ inl (record { drained = (f, e); ended = λ p. absurd (ground (arith, n, p)) })
        | inl p ↦ elim (Bool-cases (ltb s.offset table.height)) [
          | inl more ↦ inr (_, send p (ground arith) (λ docs h. omega (arith, pos, ap length f)))
          | inr end ↦ inl (record { drained = (f, e); ended = λ q. ground arith })
        ]
      ]

  -- With a batch size and a concurrency of at least one, a run never takes more than three steps for
  -- each row and one more, and from every state that it reaches it has a next step until it is done.
  pub Reach-progress :
      {w : World} {n : ℕ} {s : State}
      → 0 < batch_size
      → 0 < concurrency
      → Reach Value coll table job_id batch_size concurrency w n s
      → (n ≤ 3 * table.height + 1)
        × (IsDone Value coll table job_id batch_size concurrency s
            ⊎ ((t : State) × Step Value coll table job_id batch_size concurrency s t))
  Reach-progress {s = s} pos some_writer r =
      (omega (arith, Reach-left pos r), next_step s some_writer)
