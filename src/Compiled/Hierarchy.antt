-- ===== src/Compiled/Hierarchy.antt =====
-- src/compiled/cache/mod.rs, disk.rs and atlas.rs: the cache of compiled queries in three levels, of
-- which the second and the third may be absent. A call is one step; the counters are 64-bit words.
pub mod Lookup
pub mod Tally
use Prim.Native.String.{◌++◌ as str_append}
use mongocore.Prelude.{
  ℕ, ◌+◌, ◌%◌, ◌^◌, if◌then◌else◌, String, ◌≡◌, Bool, true, false, List, [], ◌∷◌, length, Option,
  none, some,
}
use mongocore.Compiled.MemoryCache.{MemoryCache}
use mongocore.Compiled.MemoryCache as L1

-- The file system, the collection of compiled queries, and the two forms in which a query is stored.
-- The code drops the errors of all writes.
pub record Stores (CompiledQuery : Type 0) : Type 1 where
  pub World : Type 0
  pub Document : Type 0
  pub read_to_string : String → World → Option String
  pub write : (path text : String) → World → World
  pub exists : String → World → Bool
  pub remove_file : String → World → World
  pub join : (directory file : String) → String
  pub json_to_string : CompiledQuery → Option String
  pub json_from_str : String → Option CompiledQuery
  pub find_one : (hash : String) → World → Option Document
  pub replace_one : (hash : String) → Document → World → World
  pub delete_one : (hash : String) → World → World
  -- The documents that the cursor reads before it ends or fails; `none` is one that is not read.
  pub find_all : World → List (Option Document)
  pub to_document : CompiledQuery → Option Document
  pub from_document : Document → Option CompiledQuery

pub record CacheStats : Type 0 where
  pub l1_hits : ℕ
  pub l1_misses : ℕ
  pub l2_hits : ℕ
  pub l2_misses : ℕ
  pub l3_hits : ℕ
  pub l3_misses : ℕ
  pub evictions : ℕ

abbrev pub next_count : ℕ → ℕ
next_count n = (n + 1) % 2 ^ 64

abbrev pub no_stats : CacheStats
no_stats = record {
  l1_hits = 0;
  l1_misses = 0;
  l2_hits = 0;
  l2_misses = 0;
  l3_hits = 0;
  l3_misses = 0;
  evictions = 0;
}

module _ (CompiledQuery : Type 0) (hash_of : CompiledQuery → String)
    (stores : Stores CompiledQuery) where
  open stores use {World, Document}

  unfoldable pub and_then : {A B : Type 0} → Option A → (A → Option B) → Option B
  and_then none f = none
  and_then (some a) f = f a

  -- `DiskCache`, by its directory.
  unfoldable pub path_for : (directory hash : String) → String
  path_for directory hash = stores.join directory (str_append hash ".json")

  unfoldable pub disk_get : (directory hash : String) → World → Option CompiledQuery
  disk_get directory hash w =
      and_then (stores.read_to_string (path_for directory hash) w) stores.json_from_str

  unfoldable pub disk_put : (directory : String) → CompiledQuery → World → World
  disk_put directory query w = elim (stores.json_to_string query) [
    | none ↦ w
    | some text ↦ stores.write (path_for directory (hash_of query)) text w
  ]

  unfoldable pub disk_remove : (directory hash : String) → World → World
  disk_remove directory hash w =
      let path = path_for directory hash in
      if stores.exists path w then stores.remove_file path w else w

  -- `AtlasCache`.
  unfoldable pub atlas_get : (hash : String) → World → Option CompiledQuery
  atlas_get hash w = and_then (stores.find_one hash w) stores.from_document

  unfoldable pub atlas_put : CompiledQuery → World → World
  atlas_put query w = elim (stores.to_document query) [
    | none ↦ w
    | some d ↦ stores.replace_one (hash_of query) d w
  ]

  unfoldable pub atlas_remove : (hash : String) → World → World
  atlas_remove hash w = stores.delete_one hash w

  unfoldable pub queries_of : List (Option Document) → List CompiledQuery
  queries_of [] = []
  queries_of (none ∷ rest) = queries_of rest
  queries_of (some d ∷ rest) =
      let queries = queries_of rest in
      elim (stores.from_document d) [ none ↦ queries | some query ↦ query ∷ queries ]

  unfoldable pub load_all : World → List CompiledQuery
  load_all w = queries_of (stores.find_all w)

  pub record CacheHierarchy : Type 0 where
    pub l1 : MemoryCache CompiledQuery hash_of
    pub l2 : Option String
    pub l3 : Bool
    pub stats : CacheStats
    pub world : World

  unfoldable pub new : ℕ → Option String → Bool → World → CacheHierarchy
  new max_size l2 l3 w = record {
    l1 = L1.new CompiledQuery hash_of max_size;
    l2 = l2;
    l3 = l3;
    stats = no_stats;
    world = w;
  }

  abbrev promote : CompiledQuery → CacheHierarchy → CacheHierarchy
  promote query c = record c { l1 = L1.put_query CompiledQuery hash_of query c.l1 }

  abbrev write_l2 : Option String → CompiledQuery → World → World
  write_l2 none query w = w
  write_l2 (some directory) query w = disk_put directory query w

  abbrev write_l3 : Bool → CompiledQuery → World → World
  write_l3 false query w = w
  write_l3 true query w = atlas_put query w

  -- What the third level has answered.
  unfoldable pub from_l3 :
      Option CompiledQuery → CacheHierarchy → Option CompiledQuery × CacheHierarchy
  from_l3 none c =
      (none, record c { stats = record c.stats { l3_misses = next_count c.stats.l3_misses } })
  from_l3 (some query) c = (
    some query,
    promote query (record c {
      stats = record c.stats { l3_hits = next_count c.stats.l3_hits };
      world = write_l2 c.l2 query c.world;
    }),
  )

  unfoldable pub get_l3 : Bool → String → CacheHierarchy → Option CompiledQuery × CacheHierarchy
  get_l3 false hash c = (none, c)
  get_l3 true hash c = from_l3 (atlas_get hash c.world) c

  -- What the second level has answered.
  unfoldable pub from_l2 :
      String → Option CompiledQuery → CacheHierarchy → Option CompiledQuery × CacheHierarchy
  from_l2 hash none c =
      get_l3 c.l3 hash
        (record c { stats = record c.stats { l2_misses = next_count c.stats.l2_misses } })
  from_l2 hash (some query) c = (
    some query,
    promote query (record c { stats = record c.stats { l2_hits = next_count c.stats.l2_hits } }),
  )

  unfoldable pub get_l2 :
      Option String → String → CacheHierarchy → Option CompiledQuery × CacheHierarchy
  get_l2 none hash c = get_l3 c.l3 hash c
  get_l2 (some directory) hash c = from_l2 hash (disk_get directory hash c.world) c

  -- What the first level has answered.
  unfoldable pub from_l1 :
      String
      → CacheHierarchy
      → Option CompiledQuery × MemoryCache CompiledQuery hash_of
      → Option CompiledQuery × CacheHierarchy
  from_l1 hash c (some query, l1) = (
    some query,
    record c { l1 = l1; stats = record c.stats { l1_hits = next_count c.stats.l1_hits } },
  )
  from_l1 hash c (none, l1) =
      get_l2 c.l2 hash
        (record c { l1 = l1; stats = record c.stats { l1_misses = next_count c.stats.l1_misses } })

  unfoldable pub get : String → CacheHierarchy → Option CompiledQuery × CacheHierarchy
  get hash c = from_l1 hash c (L1.get CompiledQuery hash_of hash c.l1)

  unfoldable pub put : CompiledQuery → CacheHierarchy → CacheHierarchy
  put query c =
      promote query (record c { world = write_l3 c.l3 query (write_l2 c.l2 query c.world) })

  abbrev remove_l2 : Option String → String → World → World
  remove_l2 none hash w = w
  remove_l2 (some directory) hash w = disk_remove directory hash w

  abbrev remove_l3 : Bool → String → World → World
  remove_l3 false hash w = w
  remove_l3 true hash w = atlas_remove hash w

  unfoldable pub remove : String → CacheHierarchy → CacheHierarchy
  remove hash c = record c {
    l1 = L1.remove_hash CompiledQuery hash_of hash c.l1;
    world = remove_l3 c.l3 hash (remove_l2 c.l2 hash c.world);
  }

  unfoldable pub warm_with : List CompiledQuery → CacheHierarchy → CacheHierarchy
  warm_with [] c = c
  warm_with (query ∷ queries) c =
      warm_with queries (promote query (record c { world = write_l2 c.l2 query c.world }))

  unfoldable pub warm_if : Bool → CacheHierarchy → CacheHierarchy
  warm_if false c = c
  warm_if true c = warm_with (load_all c.world) c

  unfoldable pub warm_from_atlas : CacheHierarchy → CacheHierarchy
  warm_from_atlas c = warm_if c.l3 c
