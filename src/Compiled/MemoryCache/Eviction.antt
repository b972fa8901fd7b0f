-- ===== src/Compiled/MemoryCache/Eviction.antt =====
-- The bound of the cache, and which entry makes room.
use mongocore.Prelude.{
  ℕ, suc, ◌≤◌, ◌<◌, max, leb, if◌then◌else◌, not, Bool-cases, Option-cases, String, str_eq, eq_iff,
  eq_refl, ◌≡◌, refl, sym, ap, ◌∙◌, inl, inr, ◌⊎◌, true, false, [], ◌∷◌, length, All, none, some,
  is_some, find, put, find-put, find-put_other, find-retain, arith,
}
use mongocore.Compiled.MemoryCache.Lengths.{length-put, length-retain_key}
use mongocore.Compiled.MemoryCache.{Entries, MemoryCache, get, smaller, least, evict, put_query}

module _ (CompiledQuery : Type 0) (hash_of : CompiledQuery → String) where
  abbrev NotBefore : ℕ → String × (CompiledQuery × ℕ) → Type 0
  NotBefore n e = n ≤ e.1.1

  -- The map has an entry of this key and this turn.
  abbrev pub HasTurn : String → ℕ → Entries CompiledQuery hash_of → Type 0
  HasTurn k n [] = ⊥
  HasTurn k n ((j, (q, o)) ∷ m) = ((j ≡ k) × (o ≡ n)) ⊎ HasTurn k n m

  -- The turn is that of the key's entry, and no later than any.
  pub record IsLeast (k : String) (n : ℕ) (m : Entries CompiledQuery hash_of) : Type 0 where
    pub entry : HasTurn k n m
    pub earliest : All (NotBefore n) m
    pub present : is_some (find str_eq k m) ≡ true

  NotBefore-mono :
      (a b : ℕ) (m : Entries CompiledQuery hash_of)
      → a ≤ b
      → All (NotBefore b) m
      → All (NotBefore a) m
  NotBefore-mono a b [] h all = tt
  NotBefore-mono a b (e ∷ m) h all = (omega (arith, all.0), NotBefore-mono a b m h all.1)

  present_cons :
      (j k : String) (v : CompiledQuery × ℕ) (m : Entries CompiledQuery hash_of)
      → is_some (find str_eq k m) ≡ true
      → is_some (find str_eq k ((j, v) ∷ m)) ≡ true
  unfolding find
  present_cons j k v m h = elim (Bool-cases (str_eq j k)) [ inl e ↦ rw e refl | inr e ↦ rw e h ]

  least-IsLeast :
      (j : String) (q : CompiledQuery) (o : ℕ) (m : Entries CompiledQuery hash_of)
      → (k : String) × (n : ℕ) × (least CompiledQuery hash_of ((j, (q, o)) ∷ m) ≡ some (k, n))
        × IsLeast k n ((j, (q, o)) ∷ m)
  unfolding least find
  least-IsLeast j q o [] = (
    j,
    o,
    refl,
    record {
      entry = inl (refl, refl);
      earliest = (omega arith, tt);
      present = rw (eq_refl j) refl;
    },
  )
  least-IsLeast j q o ((i, (r, p)) ∷ m) =
      let (k, n, found, l) = least-IsLeast i r p m in
      let step : least CompiledQuery hash_of ((j, (q, o)) ∷ (i, (r, p)) ∷ m)
          ≡ some (smaller CompiledQuery hash_of j o (some (k, n))) =
        ap (λ x. some (smaller CompiledQuery hash_of j o x)) found in
      elim (Bool-cases (leb o n)) [
        | inl first ↦ (
          j,
          o,
          rw first at step,
          record {
            entry = inl (refl, refl);
            earliest =
                (omega arith, NotBefore-mono o n ((i, (r, p)) ∷ m) (ground arith) l.earliest);
            present = rw (eq_refl j) refl;
          },
        )
        | inr later ↦ (
          k,
          n,
          rw later at step,
          record {
            entry = inr l.entry;
            earliest = (ground arith, l.earliest);
            present = present_cons j k (q, o) ((i, (r, p)) ∷ m) l.present;
          },
        )
      ]

  -- An eviction removes the entry with the least turn and nothing else.
  pub record Evicts (before after : Entries CompiledQuery hash_of) : Type 0 where
    pub key : String
    pub turn : ℕ
    pub is_least : IsLeast key turn before
    pub gone :
        (l : String)
        → find str_eq l after ≡ (if not (str_eq l key) then find str_eq l before else none)

  evict-Evicts :
      (m : Entries CompiledQuery hash_of)
      → 0 < length m
      → Evicts m (evict CompiledQuery hash_of m)
        × (suc (length (evict CompiledQuery hash_of m)) ≤ length m)
  unfolding evict
  evict-Evicts [] h = absurd (omega arith)
  evict-Evicts ((j, (q, o)) ∷ m) h =
      let (k, n, found, l) = least-IsLeast j q o m in
      (
        rw (found, evict)
            (record {
              key = k;
              turn = n;
              is_least = l;
              gone = λ i. find-retain str_eq eq_iff (λ x. not (str_eq x k)) i ((j, (q, o)) ∷ m);
            }),
        rw (found, evict) (length-retain_key k ((j, (q, o)) ∷ m) l.present),
      )

  abbrev Cache : Type 0
  Cache = MemoryCache CompiledQuery hash_of

  -- A cache is never above its bound, but that a bound of zero still lets one entry in.
  abbrev pub IsBounded : Cache → Type 0
  IsBounded c = length c.entries ≤ max c.max_size 1

  length-put_le :
      (k : String) (v : CompiledQuery × ℕ) (m : Entries CompiledQuery hash_of)
      → length (put str_eq k v m) ≤ suc (length m)
  length-put_le k v m =
      let exact = length-put k v m in
      elim (Bool-cases (is_some (find str_eq k m))) [
        | inl e ↦ (let l = rw e at exact in omega (arith, l))
        | inr e ↦ (let l = rw e at exact in omega (arith, l))
      ]

  evict_empty :
      (m : Entries CompiledQuery hash_of) → length m ≡ 0 → evict CompiledQuery hash_of m ≡ m
  unfolding evict least
  evict_empty [] h = refl
  evict_empty (e ∷ m) h = absurd (omega arith)

  -- Storing a query keeps the cache within its bound, which counts as one where it is zero.
  put_query-IsBounded :
      (query : CompiledQuery) (c : Cache)
      → IsBounded c
      → IsBounded (put_query CompiledQuery hash_of query c)
  unfolding put_query
  put_query-IsBounded query c h =
      let hash = hash_of query in
      let v : CompiledQuery × ℕ = (query, c.counter) in
      elim (Bool-cases (is_some (find str_eq hash c.entries))) [
        | inl there ↦
            let exact = rw there at (length-put hash v c.entries) in
            rw there (omega (arith, exact, h))
        | inr absent ↦ elim (Bool-cases (leb c.max_size (length c.entries))) [
          | inr room ↦ rw (absent, room) (ground (arith, length-put_le hash v c.entries))
          | inl full ↦ elim (Bool-cases (leb 1 (length c.entries))) [
            | inl some_entry ↦
                let shorter = (evict-Evicts c.entries (ground arith)).1 in
                rw (absent, full)
                  (omega (
                    arith,
                    shorter,
                    h,
                    length-put_le hash v (evict CompiledQuery hash_of c.entries),
                  ))
            | inr none_yet ↦
                let zero_length : length c.entries ≡ 0 = ground arith in
                rw (absent, full, evict_empty c.entries zero_length)
                  (omega (arith, zero_length, length-put_le hash v c.entries))
          ]
        ]
      ]

  -- A query that was stored is found under its hash.
  pub get-put_query :
      (query : CompiledQuery) (c : Cache)
      → (get CompiledQuery hash_of (hash_of query) (put_query CompiledQuery hash_of query c)).0
        ≡ some query
  unfolding get put_query
  get-put_query query c =
      let v : CompiledQuery × ℕ = (query, c.counter) in
      let kept : Entries CompiledQuery hash_of =
        if is_some (find str_eq (hash_of query) c.entries)
        then c.entries
        else if leb c.max_size (length c.entries)
        then evict CompiledQuery hash_of c.entries
        else c.entries in
      rw (find-put str_eq eq_iff (hash_of query) v kept, get) refl

  -- A query that was answered is answered again.
  pub get_again :
      (hash : String) (c : Cache) (query : CompiledQuery)
      → (get CompiledQuery hash_of hash c).0 ≡ some query
      → (get CompiledQuery hash_of hash (get CompiledQuery hash_of hash c).1).0 ≡ some query
  unfolding get
  get_again hash c query h = elim (Option-cases (find str_eq hash c.entries)) [
    | inl e ↦ cc (rw (e, get) at h)
    | inr ((q, n), e) ↦
        rw (e, get, find-put str_eq eq_iff hash (q, c.counter) c.entries) (rw (e, get) at h)
  ]

  -- When a query that is not in a full cache with at least one entry is stored, there is a key with an
  -- entry whose turn is no later than that of any entry; that key is gone, the query is
  -- stored under its hash, and every other entry is as it was.
  pub put_query-Evicts :
      (query : CompiledQuery) (c : Cache)
      → is_some (find str_eq (hash_of query) c.entries) ≡ false
      → c.max_size ≤ length c.entries
      → 0 < length c.entries
      → (k : String) × (n : ℕ) × IsLeast k n c.entries
        × ((l : String)
            → find str_eq l (put_query CompiledQuery hash_of query c).entries ≡ (
                if str_eq (hash_of query) l
                then some (query, c.counter)
                else if not (str_eq l k)
                then find str_eq l c.entries
                else none))
  unfolding put_query
  put_query-Evicts query c absent full some_entry =
      let e = (evict-Evicts c.entries some_entry).0 in
      let v : CompiledQuery × ℕ = (query, c.counter) in
      let kept = evict CompiledQuery hash_of c.entries in
      let test : leb c.max_size (length c.entries) ≡ true = ground arith in
      (e.key, e.turn, e.is_least, λ l. rw (absent, test) (stored l v kept e.key e.gone))
    where
      stored :
          (l : String) (v : CompiledQuery × ℕ) (kept : Entries CompiledQuery hash_of) (k : String)
          → ((i : String)
              → find str_eq i kept ≡ (if not (str_eq i k) then find str_eq i c.entries else none))
          → find str_eq l (put str_eq (hash_of query) v kept) ≡ (
              if str_eq (hash_of query) l
              then some v
              else if not (str_eq l k)
              then find str_eq l c.entries
              else none)
      stored l v kept k gone = elim (Bool-cases (str_eq (hash_of query) l)) [
        | inl e ↦
            rw (e, sym ((eq_iff (hash_of query) l).0 e))
              (find-put str_eq eq_iff (hash_of query) v kept)
        | inr e ↦ rw e (find-put_other str_eq eq_iff (hash_of query) l v kept e ∙ gone l)
      ]
