-- ===== src/Transport/BufferPool/Stock.antt =====
-- What the pool holds, and what a caller gets from it.
use mongocore.Prelude.{
  ℕ, zero, suc, ◌+◌, ◌≤◌, max, true, false, ltb, leb, lt→ltb, Bool-cases, ◌≡◌, ◌⊎◌, refl, ap, ◌∙◌,
  inl, inr, List, [], ◌∷◌, length, length-append, All, All-append, arith,
}
use mongocore.Transport.BufferPool.{
  Buffers, BufferPool, BufferPoolConfig, small_size, medium_size, large_size, fill, new_pool,
  take_from, checkout, checkin,
}

module _ (lib : Buffers) where
  open lib use {
    Buffer, Queue, contents, capacity, with_capacity, clear, queued, room, new, push, pop,
    contents-with_capacity, capacity-with_capacity, contents-clear, capacity-clear, queued-new,
    room-new, queued-push, room-push, pop_empty, pop_front,
  }

  -- Every buffer of a queue holds at least `size` bytes.
  abbrev pub Holds : ℕ → List Buffer → Type 0
  Holds size = All (λ b. size ≤ capacity b)

  pub record IsStocked (p : BufferPool lib) : Type 0 where
    pub small_holds : Holds small_size (queued p.small)
    pub medium_holds : Holds medium_size (queued p.medium)
    pub large_holds : Holds large_size (queued p.large)

  Holds-push :
      (size : ℕ) (q : Queue) (b : Buffer)
      → size ≤ capacity b
      → Holds size (queued q)
      → Holds size (queued (push q b))
  Holds-push size q b h hs = rw queued-push (elim (Bool-cases (ltb (length (queued q)) (room q))) [
    | inl free ↦ rw free (All-append (λ b. size ≤ capacity b) (queued q) (b ∷ []) hs (h, tt))
    | inr full ↦ rw full hs
  ])

  Holds-fill :
      (count size : ℕ) (q : Queue)
      → Holds size (queued q)
      → Holds size (queued (fill lib count size q))
  unfolding fill
  Holds-fill zero size q h = h
  Holds-fill (suc count) size q h =
      Holds-fill count size (push q (with_capacity size))
        (Holds-push size q (with_capacity size) (capacity-with_capacity size) h)

  -- A pool starts with buffers of the full size in each class.
  pub new_pool-IsStocked : (config : BufferPoolConfig) → IsStocked (new_pool lib config)
  unfolding new_pool
  new_pool-IsStocked config = record {
    small_holds = Holds-fill config.small_count small_size _ (rw queued-new tt);
    medium_holds = Holds-fill config.medium_count medium_size _ (rw queued-new tt);
    large_holds = Holds-fill config.large_count large_size _ (rw queued-new tt);
  }

  length-fill :
      (count size : ℕ) (q : Queue)
      → length (queued q) + count ≤ room q
      → length (queued (fill lib count size q)) ≡ length (queued q) + count
  unfolding fill
  length-fill zero size q h = omega arith
  length-fill (suc count) size q h =
      let b = with_capacity size in
      let grown : length (queued (push q b)) ≡ length (queued q) + 1 =
        rw (queued-push, lt→ltb (length (queued q)) (room q) (omega arith))
          (length-append (queued q) (b ∷ [])) in
      omega (arith, length-fill count size (push q b) (rw room-push (omega arith)))

  -- A new pool holds as many buffers of each class as its configuration says.
  length-new_pool :
      (config : BufferPoolConfig)
      → let p = new_pool lib config in
        (length (queued p.small) ≡ config.small_count)
        × (length (queued p.medium) ≡ config.medium_count)
        × (length (queued p.large) ≡ config.large_count)
  unfolding new_pool
  length-new_pool config = (
    filled config.small_count small_size,
    filled config.medium_count medium_size,
    filled config.large_count large_size,
  )
    where
      filled : (count size : ℕ) → length (queued (fill lib count size (new (max count 1)))) ≡ count
      filled count size =
          let none_yet : length (queued (new (max count 1))) ≡ 0 = ap length (queued-new _) in
          length-fill count size (new (max count 1)) (rw room-new (omega arith)) ∙ omega arith

  -- What `take_from` hands out, and what it leaves.
  take_from-Holds :
      (size : ℕ) (q : Queue)
      → Holds size (queued q)
      → (contents (take_from lib size q).0 ≡ [])
        × (size ≤ capacity (take_from lib size q).0)
        × Holds size (queued (take_from lib size q).1)
  unfolding take_from
  take_from-Holds size q h = go (queued q) refl
    where
      go :
          (bs : List Buffer)
          → queued q ≡ bs
          → (contents (take_from lib size q).0 ≡ [])
            × (size ≤ capacity (take_from lib size q).0)
            × Holds size (queued (take_from lib size q).1)
      go [] e =
          rw (pop_empty q e, take_from)
            (contents-with_capacity size, capacity-with_capacity size, h)
      go (b ∷ bs) e =
          let (q', popped, left, same) = pop_front q b bs e in
          let hb : Holds size (b ∷ bs) = rw e at h in
          rw (popped, take_from) (contents-clear b, rw capacity-clear hb.0, rw left hb.1)

  -- What a checkout promises: an empty buffer with room, and a pool that is still stocked.
  abbrev pub Serves : ℕ → Buffer × BufferPool lib → Type 0
  Serves needed (b, p) = (contents b ≡ []) × (needed ≤ capacity b) × IsStocked p

  -- A buffer from a stocked pool is empty and has room for what is asked, and the pool stays
  -- stocked.
  checkout-IsStocked :
      (p : BufferPool lib) (needed : ℕ) → IsStocked p → Serves needed (checkout lib p needed)
  unfolding checkout
  checkout-IsStocked p needed s = elim (Bool-cases (leb needed small_size)) [
    | inl a ↦
        let (empty, room_for, holds) = take_from-Holds small_size p.small s.small_holds in
        rw a (
          empty,
          ground arith,
          record {
            small_holds = holds;
            medium_holds = s.medium_holds;
            large_holds = s.large_holds;
          },
        )
    | inr a ↦ elim (Bool-cases (leb needed medium_size)) [
      | inl b ↦
          let (empty, room_for, holds) = take_from-Holds medium_size p.medium s.medium_holds in
          rw (a, b)
            (
              empty,
              ground arith,
              record {
                small_holds = s.small_holds;
                medium_holds = holds;
                large_holds = s.large_holds;
              },
            )
      | inr b ↦ elim (Bool-cases (leb needed large_size)) [
        | inl c ↦
            let (empty, room_for, holds) = take_from-Holds large_size p.large s.large_holds in
            rw (a, b, c)
              (
                empty,
                ground arith,
                record {
                  small_holds = s.small_holds;
                  medium_holds = s.medium_holds;
                  large_holds = holds;
                },
              )
        | inr c ↦ rw (a, b, c) (contents-with_capacity needed, capacity-with_capacity needed, s)
      ]
    ]
  ]

  -- A returned buffer goes back to the class whose size it has; one above every class is dropped.
  -- The pool stays stocked as long as no buffer is smaller than the class it falls into.
  checkin-IsStocked :
      (p : BufferPool lib) (b : Buffer)
      → (capacity b ≡ small_size) ⊎ (capacity b ≡ medium_size) ⊎ (large_size ≤ capacity b)
      → IsStocked p
      → IsStocked (checkin lib p b)
  unfolding checkin
  checkin-IsStocked p b (inl e) s =
      let fits : leb (capacity (clear b)) small_size ≡ true = ground (arith, capacity-clear b) in
      rw fits (record {
        small_holds =
            Holds-push small_size p.small (clear b) (rw capacity-clear (omega arith)) s.small_holds;
        medium_holds = s.medium_holds;
        large_holds = s.large_holds;
      })
  checkin-IsStocked p b (inr (inl e)) s =
      let over : leb (capacity (clear b)) small_size ≡ false = ground (arith, capacity-clear b) in
      let fits : leb (capacity (clear b)) medium_size ≡ true = ground (arith, capacity-clear b) in
      rw (over, fits)
        (record {
          small_holds = s.small_holds;
          medium_holds =
              Holds-push medium_size p.medium (clear b) (rw capacity-clear (omega arith))
                s.medium_holds;
          large_holds = s.large_holds;
        })
  checkin-IsStocked p b (inr (inr h)) s =
      let over : leb (capacity (clear b)) small_size ≡ false = ground (arith, capacity-clear b) in
      let over₂ : leb (capacity (clear b)) medium_size ≡ false = ground (arith, capacity-clear b) in
      elim (Bool-cases (leb (capacity (clear b)) large_size)) [
        | inl fits ↦
            rw (over, over₂, fits)
              (record {
                small_holds = s.small_holds;
                medium_holds = s.medium_holds;
                large_holds =
                    Holds-push large_size p.large (clear b) (rw capacity-clear h) s.large_holds;
              })
        | inr dropped ↦ rw (over, over₂, dropped) s
      ]
