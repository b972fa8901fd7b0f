-- ===== src/Compiled/MemoryCache.antt =====
-- src/compiled/cache/memory.rs: a bounded cache that evicts the entry used least recently. The map
-- is an association list; the lock makes each call one step. Of a query only the hash is looked at.
mod Lengths
pub mod Eviction
use mongocore.Prelude.{
  ℕ, ◌+◌, ◌%◌, ◌^◌, leb, if◌then◌else◌, not, String, str_eq, Bool, List, [], ◌∷◌, length, Option,
  none, some, is_some, find, put, retain,
}

module _ (CompiledQuery : Type 0) (hash_of : CompiledQuery → String) where
  -- Each query with the turn of the counter at which it was used last.
  abbrev pub Entries : Type 0
  Entries = List (String × (CompiledQuery × ℕ))

  pub record MemoryCache : Type 0 where
    pub entries : Entries
    pub max_size : ℕ
    pub counter : ℕ

  unfoldable pub new : ℕ → MemoryCache
  new max_size = record { entries = []; max_size = max_size; counter = 0 }

  -- `counter.fetch_add(1)` on 64 bits.
  abbrev next_turn : ℕ → ℕ
  next_turn n = (n + 1) % 2 ^ 64

  unfoldable pub get : String → MemoryCache → Option CompiledQuery × MemoryCache
  get hash c = elim (find str_eq hash c.entries) [
    | none ↦ (none, c)
    | some (query, order) ↦ (
      some query,
      record c {
        entries = put str_eq hash (query, c.counter) c.entries;
        counter = next_turn c.counter;
      },
    )
  ]

  abbrev smaller : String → ℕ → Option (String × ℕ) → String × ℕ
  smaller k n none = (k, n)
  smaller k n (some (j, o)) = if leb n o then (k, n) else (j, o)

  -- `iter().min_by_key(…)`, with the key and its turn.
  unfoldable pub least : Entries → Option (String × ℕ)
  least [] = none
  least ((k, (query, n)) ∷ m) = some (smaller k n (least m))

  unfoldable pub evict : Entries → Entries
  evict entries = elim (least entries) [
    | none ↦ entries
    | some (lru_key, order) ↦ retain str_eq (λ k. not (str_eq k lru_key)) entries
  ]

  unfoldable pub put_query : CompiledQuery → MemoryCache → MemoryCache
  put_query query c =
      let hash = hash_of query in
      let kept =
        if is_some (find str_eq hash c.entries)
        then c.entries
        else if leb c.max_size (length c.entries)
        then evict c.entries
        else c.entries in
      record c { entries = put str_eq hash (query, c.counter) kept; counter = next_turn c.counter }

  unfoldable pub remove_hash : String → MemoryCache → MemoryCache
  remove_hash hash c = record c { entries = retain str_eq (λ k. not (str_eq k hash)) c.entries }

  unfoldable pub clear : MemoryCache → MemoryCache
  clear c = record c { entries = [] }
