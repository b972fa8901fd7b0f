-- ===== src/Compiled/Hierarchy/Tally/Runs.antt =====
-- Runs: the counters after any operations, one after another.
use mongocore.Prelude.{
  ℕ, suc, String, ◌≡◌, refl, sym, ap₂, subst, ◌∙◌, Bool, true, false, List, [], ◌∷◌, Option, none,
  some,
}
use mongocore.Compiled.MemoryCache.{MemoryCache}
use mongocore.Compiled.MemoryCache as L1
use mongocore.Compiled.Hierarchy.{
  Stores, CacheStats, CacheHierarchy, no_stats, get, put, remove, warm_from_atlas, warm_if,
  warm_with, from_l1, get_l2, from_l2, load_all,
}
use mongocore.Compiled.Hierarchy.Tally.{IsTallied, get_l3-AskedL3, from_l1-IsTallied}

module _ (CompiledQuery : Type 0) (hash_of : CompiledQuery → String)
    (stores : Stores CompiledQuery) where
  abbrev Cache : Type 0
  Cache = CacheHierarchy CompiledQuery hash_of stores

  abbrev Tallied : ℕ → Option String → Bool → CacheStats → Type 0
  Tallied n l2 l3 s = IsTallied CompiledQuery hash_of stores n l2 l3 s

  -- The levels that are present do not change.
  abbrev SameLevels : Cache → Cache → Type 0
  SameLevels c d = (d.l2 ≡ c.l2) × (d.l3 ≡ c.l3)

  from_l2-SameLevels :
      (hash : String) (answer : Option CompiledQuery) (c : Cache)
      → SameLevels c (from_l2 CompiledQuery hash_of stores hash answer c).1
  unfolding from_l2
  from_l2-SameLevels hash (some q) c = (refl, refl)
  from_l2-SameLevels hash none c =
      (get_l3-AskedL3 CompiledQuery hash_of stores c.l3 hash _).same_levels

  get_l2-SameLevels :
      (hash : String) (l2 : Option String) (c : Cache)
      → SameLevels c (get_l2 CompiledQuery hash_of stores l2 hash c).1
  unfolding get_l2
  get_l2-SameLevels hash (some directory) c = from_l2-SameLevels hash _ c
  get_l2-SameLevels hash none c =
      (get_l3-AskedL3 CompiledQuery hash_of stores c.l3 hash c).same_levels

  from_l1-SameLevels :
      (hash : String) (c : Cache) (r : Option CompiledQuery × MemoryCache CompiledQuery hash_of)
      → SameLevels c (from_l1 CompiledQuery hash_of stores hash c r).1
  unfolding from_l1
  from_l1-SameLevels hash c (some q, m) = (refl, refl)
  from_l1-SameLevels hash c (none, m) = get_l2-SameLevels hash c.l2 _

  warm_with-same :
      (queries : List CompiledQuery) (c : Cache)
      → ((warm_with CompiledQuery hash_of stores queries c).stats ≡ c.stats)
        × SameLevels c (warm_with CompiledQuery hash_of stores queries c)
  unfolding warm_with
  warm_with-same [] c = (refl, (refl, refl))
  warm_with-same (q ∷ queries) c = warm_with-same queries _

  -- The operations, one after another.
  pub data Run (start : Cache) : ℕ → Cache → Type 0 where
    begin : Run start 0 start
    getting :
        {n : ℕ} {c : Cache} (hash : String)
        → Run start n c
        → Run start (suc n) (get CompiledQuery hash_of stores hash c).1
    putting :
        {n : ℕ} {c : Cache} (query : CompiledQuery)
        → Run start n c
        → Run start n (put CompiledQuery hash_of stores query c)
    removing :
        {n : ℕ} {c : Cache} (hash : String)
        → Run start n c
        → Run start n (remove CompiledQuery hash_of stores hash c)
    warming :
        {n : ℕ} {c : Cache}
        → Run start n c
        → Run start n (warm_from_atlas CompiledQuery hash_of stores c)

  warm_if-same :
      (l3 : Bool) (c : Cache)
      → ((warm_if CompiledQuery hash_of stores l3 c).stats ≡ c.stats)
        × SameLevels c (warm_if CompiledQuery hash_of stores l3 c)
  unfolding warm_if
  warm_if-same false c = (refl, (refl, refl))
  warm_if-same true c = warm_with-same (load_all CompiledQuery hash_of stores c.world) c

  nothing_yet : (l2 : Option String) (l3 : Bool) → Tallied 0 l2 l3 no_stats
  nothing_yet none false = record { first = refl; second = refl; third = refl; none_evicted = refl }
  nothing_yet none true = record { first = refl; second = refl; third = refl; none_evicted = refl }
  nothing_yet (some directory) false = record {
    first = refl;
    second = refl;
    third = refl;
    none_evicted = refl;
  }
  nothing_yet (some directory) true = record {
    first = refl;
    second = refl;
    third = refl;
    none_evicted = refl;
  }

  at_levels :
      (n : ℕ) (s : CacheStats) {l₂ k₂ : Option String} {l₃ k₃ : Bool}
      → l₂ ≡ k₂
      → l₃ ≡ k₃
      → Tallied n l₂ l₃ s
      → Tallied n k₂ k₃ s
  at_levels n s e₂ e₃ t =
      subst (λ (p : Option String × Bool). Tallied n p.0 p.1 s) (ap₂ (λ a b. (a, b)) e₂ e₃) t

  kept_levels :
      {start c : Cache} {n : ℕ}
      → Run start n c
      → start.stats ≡ no_stats
      → Tallied n start.l2 start.l3 c.stats × SameLevels start c
  unfolding get put remove warm_from_atlas
  kept_levels {start = start} begin e = (
    subst (λ s. Tallied 0 start.l2 start.l3 s) (sym e) (nothing_yet start.l2 start.l3),
    (refl, refl),
  )
  kept_levels {start = start} (getting {n = n} {c = c} hash r) e =
      let (t, (e₂, e₃)) = kept_levels r e in
      let asked = L1.get CompiledQuery hash_of hash c.l1 in
      let (same₂, same₃) = from_l1-SameLevels hash c asked in
      let t' =
        from_l1-IsTallied CompiledQuery hash_of stores n hash c asked
          (at_levels n c.stats (sym e₂) (sym e₃) t) in
      (at_levels (suc n) _ e₂ e₃ t', (same₂ ∙ e₂, same₃ ∙ e₃))
  kept_levels (putting query r) e = kept_levels r e
  kept_levels (removing hash r) e = kept_levels r e
  kept_levels {start = start} (warming {n = n} {c = c} r) e =
      let (t, (e₂, e₃)) = kept_levels r e in
      let (same, (same₂, same₃)) = warm_if-same c.l3 c in
      (subst (λ s. Tallied n start.l2 start.l3 s) (sym same) t, (same₂ ∙ e₂, same₃ ∙ e₃))

  -- From a cache whose counters are zero, after any lookups, insertions, removals and loads: modulo
  -- 2 ^ 64 every lookup is a hit or a miss of the first level, every miss of a level is a hit or a miss
  -- of the next one that is present, and no eviction was counted.
  pub Run-IsTallied :
      {start c : Cache} {n : ℕ}
      → Run start n c
      → start.stats ≡ no_stats
      → IsTallied CompiledQuery hash_of stores n start.l2 start.l3 c.stats
  Run-IsTallied r e = (kept_levels r e).0
