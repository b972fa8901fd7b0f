-- ===== src/Analytics/RingBuffer.antt =====
-- src/analytics/ring_buffer.rs: the events as a list, the oldest first. The mutex makes every
-- operation atomic.
use mongocore.Prelude.{
  ℕ, zero, suc, ◌-◌, ◌≤◌, ◌<◌, leb, Bool-cases, if◌then◌else◌, ◌≡◌, refl, sym, ap, ◌∙◌, inl, inr,
  List, [], ◌∷◌, ◌++◌, length, length-append, drop, length-drop, append-nil, append_assoc, arith,
}

drop_one : {A : Type 0} (n : ℕ) (xs : List A) → drop 1 (drop n xs) ≡ drop (suc n) xs
drop_one zero [] = refl
drop_one zero (x ∷ xs) = refl
drop_one (suc n) [] = refl
drop_one (suc n) (x ∷ xs) = drop_one n xs

drop-append_le :
    {A : Type 0} (n : ℕ) (xs ys : List A) → n ≤ length xs → drop n (xs ++ ys) ≡ drop n xs ++ ys
drop-append_le zero xs ys h = refl
drop-append_le (suc n) [] ys h = absurd (omega arith)
drop-append_le (suc n) (x ∷ xs) ys h = drop-append_le n xs ys (omega arith)

drop_none : {A : Type 0} (n : ℕ) (xs : List A) → n ≡ 0 → drop n xs ≡ xs
drop_none zero xs h = refl
drop_none (suc n) xs h = absurd (omega arith)

module _ (AnalyticsEvent : Type 0) where
  pub record RingBuffer : Type 0 where
    pub buffer : List AnalyticsEvent
    pub capacity : ℕ

  unfoldable pub new : ℕ → RingBuffer
  new capacity = record { buffer = []; capacity = capacity }

  -- `pop_front` of an empty queue does nothing.
  unfoldable pub push : AnalyticsEvent → RingBuffer → RingBuffer
  push event r =
      let kept = if leb r.capacity (length r.buffer) then drop 1 r.buffer else r.buffer in
      record r { buffer = kept ++ event ∷ [] }

  unfoldable pub len : RingBuffer → ℕ
  len r = length r.buffer

  abbrev pub snapshot : RingBuffer → List AnalyticsEvent
  snapshot r = r.buffer

  -- The events, and the buffer that is left.
  unfoldable pub drain : RingBuffer → List AnalyticsEvent × RingBuffer
  drain r = (r.buffer, record r { buffer = [] })

  abbrev pub push_all : List AnalyticsEvent → RingBuffer → RingBuffer
  push_all [] r = r
  push_all (e ∷ es) r = push_all es (push e r)

  -- The buffer that has seen `es` holds the last of them.
  abbrev latest : ℕ → List AnalyticsEvent → List AnalyticsEvent
  latest capacity es = drop (length es - capacity) es

  push-latest :
      (c : ℕ) (es : List AnalyticsEvent) (e : AnalyticsEvent)
      → 0 < c
      → push e (record { buffer = latest c es; capacity = c })
        ≡ record { buffer = latest c (es ++ e ∷ []); capacity = c }
  unfolding push
  push-latest c es e pos =
      ap (λ b. record { buffer = b; capacity = c })
        (elim (Bool-cases (leb c (length (latest c es)))) [
          | inl full ↦
              let n : suc (length es - c) ≡ length (es ++ e ∷ []) - c =
                ground (arith, length-append es (e ∷ []), length-drop (length es - c) es) in
              rw full (
                ap (λ xs. xs ++ e ∷ []) (drop_one (length es - c) es)
                ∙ sym (
                    drop-append_le (suc (length es - c)) es (e ∷ [])
                      (ground (arith, length-drop (length es - c) es)))
                ∙ ap (λ k. drop k (es ++ e ∷ [])) n)
          | inr room ↦
              let z : length es - c ≡ 0 = ground (arith, length-drop (length es - c) es) in
              let y : length (es ++ e ∷ []) - c ≡ 0 =
                ground (arith, length-append es (e ∷ []), length-drop (length es - c) es) in
              rw room
                (ap (λ xs. xs ++ e ∷ []) (drop_none _ es z) ∙ sym (drop_none _ (es ++ e ∷ []) y))
        ])

  push_all-latest :
      (c : ℕ) (before es : List AnalyticsEvent)
      → 0 < c
      → push_all es (record { buffer = latest c before; capacity = c })
        ≡ record { buffer = latest c (before ++ es); capacity = c }
  push_all-latest c before [] pos =
      ap (λ b. record { buffer = latest c b; capacity = c }) (sym (append-nil before))
  push_all-latest c before (e ∷ es) pos =
      ap (push_all es) (push-latest c before e pos)
      ∙ push_all-latest c (before ++ e ∷ []) es pos
      ∙ ap (λ b. record { buffer = latest c b; capacity = c }) (append_assoc before (e ∷ []) es)

  -- A buffer of a capacity of at least one that has been given some events holds the last of them,
  -- as many as the capacity allows and in order of arrival.
  snapshot-push_all :
      (capacity : ℕ) (es : List AnalyticsEvent)
      → 0 < capacity
      → snapshot (push_all es (new capacity)) ≡ drop (length es - capacity) es
  unfolding new
  snapshot-push_all c es pos =
      let start : ◌≡◌ {A = RingBuffer} (record { buffer = []; capacity = c })
          (record { buffer = latest c []; capacity = c }) =
        ap (λ b. record { buffer = b; capacity = c }) (sym (drop_none (0 - c) [] (omega arith))) in
      ap (λ (r : RingBuffer). r.buffer) (ap (push_all es) start ∙ push_all-latest c [] es pos)
