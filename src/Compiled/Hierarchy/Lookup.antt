-- ===== src/Compiled/Hierarchy/Lookup.antt =====
-- Lookup: what the levels answer after a query was stored or promoted.
use mongocore.Prelude.{String, ◌≡◌, ap, ◌∙◌, subst, Bool, true, false, Option, none, some}
use mongocore.Compiled.MemoryCache.{MemoryCache, put_query}
use mongocore.Compiled.MemoryCache as L1
use mongocore.Compiled.MemoryCache.Eviction.{get-put_query, get_again}
use mongocore.Compiled.Hierarchy.{
  Stores, CacheHierarchy, get, from_l1, get_l2, from_l2, get_l3, from_l3, disk_get, atlas_get,
}
use mongocore.Compiled.Hierarchy as Levels

module _ (CompiledQuery : Type 0) (hash_of : CompiledQuery → String)
    (stores : Stores CompiledQuery) where
  abbrev Cache : Type 0
  Cache = CacheHierarchy CompiledQuery hash_of stores

  abbrev lookup : String → Cache → Option CompiledQuery × Cache
  lookup hash c = get CompiledQuery hash_of stores hash c

  abbrev l1_get :
      String
      → MemoryCache CompiledQuery hash_of
      → Option CompiledQuery × MemoryCache CompiledQuery hash_of
  l1_get hash m = L1.get CompiledQuery hash_of hash m

  -- What the first level answers is the answer.
  from_l1-hit :
      (hash : String) (c : Cache) (query : CompiledQuery)
      (r : Option CompiledQuery × MemoryCache CompiledQuery hash_of)
      → r.0 ≡ some query
      → (from_l1 CompiledQuery hash_of stores hash c r).0 ≡ some query
  unfolding from_l1
  from_l1-hit hash c query (some q, l1) e = e
  from_l1-hit hash c query (none, l1) e = cc e

  get-hit :
      (hash : String) (c : Cache) (query : CompiledQuery)
      → (l1_get hash c.l1).0 ≡ some query
      → (lookup hash c).0 ≡ some query
  unfolding get
  get-hit hash c query h = from_l1-hit hash c query (l1_get hash c.l1) h

  -- An answer under its own hash that the first level has from now on.
  abbrev Remembers : String → Option CompiledQuery × Cache → Type 0
  Remembers hash r =
      (query : CompiledQuery)
      → r.0 ≡ some query
      → hash_of query ≡ hash
      → (l1_get hash r.1.l1).0 ≡ some query

  promoted :
      (hash : String) (m : MemoryCache CompiledQuery hash_of) (q query : CompiledQuery)
      → ◌≡◌ {A = Option CompiledQuery} (some q) (some query)
      → hash_of query ≡ hash
      → (l1_get hash (put_query CompiledQuery hash_of q m)).0 ≡ some query
  promoted hash m q query e h =
      let same : q ≡ query = cc e in
      subst (λ k. (l1_get k (put_query CompiledQuery hash_of q m)).0 ≡ some query)
        (ap hash_of same ∙ h) (get-put_query CompiledQuery hash_of q m ∙ e)

  from_l3-Remembers :
      (hash : String) (answer : Option CompiledQuery) (c : Cache)
      → Remembers hash (from_l3 CompiledQuery hash_of stores answer c)
  unfolding from_l3
  from_l3-Remembers hash none c query e h = cc e
  from_l3-Remembers hash (some q) c query e h = promoted hash c.l1 q query e h

  get_l3-Remembers :
      (hash : String) (l3 : Bool) (c : Cache)
      → Remembers hash (get_l3 CompiledQuery hash_of stores l3 hash c)
  unfolding get_l3
  get_l3-Remembers hash false c query e h = cc e
  get_l3-Remembers hash true c query e h =
      from_l3-Remembers hash (atlas_get CompiledQuery hash_of stores hash c.world) c query e h

  from_l2-Remembers :
      (hash : String) (answer : Option CompiledQuery) (c : Cache)
      → Remembers hash (from_l2 CompiledQuery hash_of stores hash answer c)
  unfolding from_l2
  from_l2-Remembers hash none c query e h = get_l3-Remembers hash c.l3 _ query e h
  from_l2-Remembers hash (some q) c query e h = promoted hash c.l1 q query e h

  get_l2-Remembers :
      (hash : String) (l2 : Option String) (c : Cache)
      → Remembers hash (get_l2 CompiledQuery hash_of stores l2 hash c)
  unfolding get_l2
  get_l2-Remembers hash none c query e h = get_l3-Remembers hash c.l3 c query e h
  get_l2-Remembers hash (some directory) c query e h =
      from_l2-Remembers hash (disk_get CompiledQuery hash_of stores directory hash c.world) c query
        e h

  from_l1-Remembers :
      (hash : String) (c : Cache) (r : Option CompiledQuery × MemoryCache CompiledQuery hash_of)
      → ((query : CompiledQuery) → r.0 ≡ some query → (l1_get hash r.1).0 ≡ some query)
      → Remembers hash (from_l1 CompiledQuery hash_of stores hash c r)
  unfolding from_l1
  from_l1-Remembers hash c (some q, l1) again query e h = again query e
  from_l1-Remembers hash c (none, l1) again query e h = get_l2-Remembers hash c.l2 _ query e h

  -- A query that some level has answered under its own hash is answered again by the next lookup,
  -- whichever level it came from.
  pub get-get :
      (hash : String) (query : CompiledQuery) (c : Cache)
      → (get CompiledQuery hash_of stores hash c).0 ≡ some query
      → hash_of query ≡ hash
      → (get CompiledQuery hash_of stores hash (get CompiledQuery hash_of stores hash c).1).0
        ≡ some query
  unfolding get
  get-get hash query c e h = get-hit hash (lookup hash c).1 query (
      from_l1-Remembers hash c (l1_get hash c.l1) (get_again CompiledQuery hash_of hash c.l1) query
        e h)

  -- A query that was stored is found under its hash, whatever the lower levels do.
  pub get-put :
      (query : CompiledQuery) (c : Cache)
      → (get CompiledQuery hash_of stores
          (hash_of query)
          (Levels.put CompiledQuery hash_of stores query c)).0
        ≡ some query
  unfolding Levels.put
  get-put query c =
      get-hit (hash_of query) (Levels.put CompiledQuery hash_of stores query c) query
        (get-put_query CompiledQuery hash_of query c.l1)
