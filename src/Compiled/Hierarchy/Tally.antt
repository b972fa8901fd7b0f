-- ===== src/Compiled/Hierarchy/Tally.antt =====
-- Tally: what a lookup adds to the counters.
pub mod Runs
use mongocore.Prelude.{
  ℕ, suc, ◌+◌, ◌%◌, ◌^◌, String, ◌≡◌, refl, sym, ap₂, subst, ◌∙◌, Bool, true, false, List, [], ◌∷◌,
  Option, none, some, arith,
}
use mongocore.Compiled.MemoryCache.{MemoryCache}
use mongocore.Compiled.MemoryCache as L1
use mongocore.Compiled.Hierarchy.{
  Stores, next_count, CacheStats, CacheHierarchy, no_stats, get, put, remove, warm_from_atlas,
  warm_if, warm_with, from_l1, get_l2, from_l2, get_l3, from_l3, atlas_get, load_all,
}

module _ (CompiledQuery : Type 0) (hash_of : CompiledQuery → String)
    (stores : Stores CompiledQuery) where
  abbrev Cache : Type 0
  Cache = CacheHierarchy CompiledQuery hash_of stores

  -- The lookups that reach the third level, and those that reach the second.
  abbrev to_l3 : Option String → (l1_misses l2_misses : ℕ) → ℕ
  to_l3 none m₁ m₂ = m₁
  to_l3 (some directory) m₁ m₂ = m₂

  abbrev to_l2 : Option String → (l1_misses : ℕ) → ℕ
  to_l2 none m₁ = 0
  to_l2 (some directory) m₁ = m₁

  abbrev reaching : Bool → ℕ → ℕ
  reaching false n = 0
  reaching true n = n

  -- Modulo 2 ^ 64 every lookup is a hit or a miss of the first level, every miss of a level is a hit
  -- or a miss of the next one that is present, and nothing counts evictions.
  pub record IsTallied (lookups : ℕ) (l2 : Option String) (l3 : Bool) (s : CacheStats)
      : Type 0 where
    pub first : (s.l1_hits + s.l1_misses) % 2 ^ 64 ≡ lookups % 2 ^ 64
    pub second : (s.l2_hits + s.l2_misses) % 2 ^ 64 ≡ to_l2 l2 s.l1_misses % 2 ^ 64
    pub third :
        (s.l3_hits + s.l3_misses) % 2 ^ 64 ≡ reaching l3 (to_l3 l2 s.l1_misses s.l2_misses) % 2 ^ 64
    pub none_evicted : s.evictions ≡ 0

  -- A third level was asked, if it is there, and nothing else was counted.
  record AskedL3 (l3 : Bool) (c d : Cache) : Type 0 where
    same_levels : (d.l2 ≡ c.l2) × (d.l3 ≡ c.l3)
    same_first : (d.stats.l1_hits ≡ c.stats.l1_hits) × (d.stats.l1_misses ≡ c.stats.l1_misses)
    same_second : (d.stats.l2_hits ≡ c.stats.l2_hits) × (d.stats.l2_misses ≡ c.stats.l2_misses)
    same_evictions : d.stats.evictions ≡ c.stats.evictions
    asked :
        (d.stats.l3_hits + d.stats.l3_misses) % 2 ^ 64
        ≡ (c.stats.l3_hits + c.stats.l3_misses + reaching l3 1) % 2 ^ 64

  from_l3-AskedL3 :
      (answer : Option CompiledQuery) (c : Cache)
      → AskedL3 true c (from_l3 CompiledQuery hash_of stores answer c).1
  unfolding from_l3
  from_l3-AskedL3 none c = record {
    same_levels = (refl, refl);
    same_first = (refl, refl);
    same_second = (refl, refl);
    same_evictions = refl;
    asked = omega arith;
  }
  from_l3-AskedL3 (some q) c = record {
    same_levels = (refl, refl);
    same_first = (refl, refl);
    same_second = (refl, refl);
    same_evictions = refl;
    asked = omega arith;
  }

  get_l3-AskedL3 :
      (l3 : Bool) (hash : String) (c : Cache)
      → AskedL3 l3 c (get_l3 CompiledQuery hash_of stores l3 hash c).1
  unfolding get_l3
  get_l3-AskedL3 true hash c =
      from_l3-AskedL3 (atlas_get CompiledQuery hash_of stores hash c.world) c
  get_l3-AskedL3 false hash c = record {
    same_levels = (refl, refl);
    same_first = (refl, refl);
    same_second = (refl, refl);
    same_evictions = refl;
    asked = omega arith;
  }

  -- Once the third level is asked, the counters agree.
  finish :
      (n : ℕ) (l2 : Option String) (l3 : Bool) (c d : Cache)
      → AskedL3 l3 c d
      → (c.stats.l1_hits + c.stats.l1_misses) % 2 ^ 64 ≡ n % 2 ^ 64
      → (c.stats.l2_hits + c.stats.l2_misses) % 2 ^ 64 ≡ to_l2 l2 c.stats.l1_misses % 2 ^ 64
      → (c.stats.l3_hits + c.stats.l3_misses + reaching l3 1) % 2 ^ 64
        ≡ reaching l3 (to_l3 l2 c.stats.l1_misses c.stats.l2_misses) % 2 ^ 64
      → c.stats.evictions ≡ 0
      → IsTallied n l2 l3 d.stats
  finish n none false c d a f₁ f₂ f₃ v =
      let (h₁, m₁) = a.same_first in
      let (h₂, m₂) = a.same_second in
      let asked = a.asked in
      record {
        first = omega arith;
        second = omega arith;
        third = omega arith;
        none_evicted = a.same_evictions ∙ v;
      }
  finish n none true c d a f₁ f₂ f₃ v =
      let (h₁, m₁) = a.same_first in
      let (h₂, m₂) = a.same_second in
      let asked = a.asked in
      record {
        first = omega arith;
        second = omega arith;
        third = omega arith;
        none_evicted = a.same_evictions ∙ v;
      }
  finish n (some directory) false c d a f₁ f₂ f₃ v =
      let (h₁, m₁) = a.same_first in
      let (h₂, m₂) = a.same_second in
      let asked = a.asked in
      record {
        first = omega arith;
        second = omega arith;
        third = omega arith;
        none_evicted = a.same_evictions ∙ v;
      }
  finish n (some directory) true c d a f₁ f₂ f₃ v =
      let (h₁, m₁) = a.same_first in
      let (h₂, m₂) = a.same_second in
      let asked = a.asked in
      record {
        first = omega arith;
        second = omega arith;
        third = omega arith;
        none_evicted = a.same_evictions ∙ v;
      }

  one_more :
      (l3 : Bool) (a b : ℕ)
      → a % 2 ^ 64 ≡ reaching l3 b % 2 ^ 64
      → (a + reaching l3 1) % 2 ^ 64 ≡ reaching l3 (next_count b) % 2 ^ 64
  one_more false a b h = omega arith
  one_more true a b h = omega arith

  from_l2-IsTallied :
      (n : ℕ) (hash directory : String) (answer : Option CompiledQuery) (c : Cache)
      → (c.stats.l1_hits + c.stats.l1_misses) % 2 ^ 64 ≡ n % 2 ^ 64
      → (c.stats.l2_hits + c.stats.l2_misses + 1) % 2 ^ 64 ≡ c.stats.l1_misses % 2 ^ 64
      → (c.stats.l3_hits + c.stats.l3_misses) % 2 ^ 64 ≡ reaching c.l3 c.stats.l2_misses % 2 ^ 64
      → c.stats.evictions ≡ 0
      → IsTallied n
          (some directory)
          c.l3
          (from_l2 CompiledQuery hash_of stores hash answer c).1.stats
  unfolding from_l2
  from_l2-IsTallied n hash directory (some q) c f₁ f₂ f₃ v = record {
    first = f₁;
    second = omega arith;
    third = f₃;
    none_evicted = v;
  }
  from_l2-IsTallied n hash directory none c f₁ f₂ f₃ v =
      let c' : Cache = record c {
        stats = record c.stats { l2_misses = next_count c.stats.l2_misses };
      } in
      finish n (some directory) c.l3 c' _ (get_l3-AskedL3 c.l3 hash c') f₁ (omega arith)
        (one_more c.l3 (c.stats.l3_hits + c.stats.l3_misses) c.stats.l2_misses f₃) v

  -- The counters after a lookup that the first level has missed, from those before it.
  missed-IsTallied :
      (n : ℕ) (hash : String) (l2 : Option String) (c : Cache)
      (m : MemoryCache CompiledQuery hash_of)
      → IsTallied n l2 c.l3 c.stats
      → IsTallied
          (suc n)
          l2
          c.l3
          (get_l2 CompiledQuery hash_of stores l2 hash (record c {
            l1 = m;
            stats = record c.stats { l1_misses = next_count c.stats.l1_misses };
          })).1.stats
  unfolding get_l2
  missed-IsTallied n hash none c m t =
      let c' : Cache = record c {
        l1 = m;
        stats = record c.stats { l1_misses = next_count c.stats.l1_misses };
      } in
      let f₁ = t.first in
      let f₂ = t.second in
      let f₃ = t.third in
      finish (suc n) none c.l3 c' _ (get_l3-AskedL3 c.l3 hash c') (omega arith) f₂
        (one_more c.l3 (c.stats.l3_hits + c.stats.l3_misses) c.stats.l1_misses f₃) t.none_evicted
  missed-IsTallied n hash (some directory) c m t =
      let f₁ = t.first in
      let f₂ = t.second in
      let f₃ = t.third in
      from_l2-IsTallied (suc n) hash directory _ _ (omega arith) (omega arith) f₃ t.none_evicted

  from_l1-IsTallied :
      (n : ℕ) (hash : String) (c : Cache)
      (r : Option CompiledQuery × MemoryCache CompiledQuery hash_of)
      → IsTallied n c.l2 c.l3 c.stats
      → IsTallied (suc n) c.l2 c.l3 (from_l1 CompiledQuery hash_of stores hash c r).1.stats
  unfolding from_l1
  from_l1-IsTallied n hash c (none, m) t = missed-IsTallied n hash c.l2 c m t
  from_l1-IsTallied n hash c (some q, m) t =
      let f₁ = t.first in
      record {
        first = omega arith;
        second = t.second;
        third = t.third;
        none_evicted = t.none_evicted;
      }
