-- ===== src/Examples/Compiled.antt =====
-- The theorems on the validator and the memory cache, at a filter with an operator in an array, at
-- a pipeline and at a full cache.
use mongocore.Prelude.{
  ◌≡◌, refl, ℕ, String, str_eq, not, if◌then◌else◌, some, none, find, arith, ◌↔◌, List, [], ◌∷◌,
  All, ok,
}
use mongocore.Compiled.Validator.{
  Fields, document, array, scalar, nil, cons, end, field, validate_filter,
}
use mongocore.Compiled.Validator.Keys.{keys, IsHarmless, validate_filter_iff}
use mongocore.Compiled.MemoryCache.{MemoryCache, put_query}
use mongocore.Compiled.MemoryCache.Eviction.{IsLeast, put_query-Evicts}

abbrev hidden : Fields
hidden = field "$or" (array (cons scalar (cons (document (field "$where" scalar end)) nil))) end

abbrev stages : List Fields
stages = field "$match" (document hidden) end ∷ field "$limit" scalar end ∷ []

validate_filter_example : (validate_filter hidden ≡ ok tt) ↔ All IsHarmless (keys hidden)
validate_filter_example = validate_filter_iff hidden

-- Queries that are their own hash; the cache of two entries is full.
abbrev hash_of : String → String
hash_of s = s

abbrev full_cache : MemoryCache String hash_of
full_cache = record { entries = ("a", ("a", 7)) ∷ ("b", ("b", 4)) ∷ []; max_size = 2; counter = 9 }

put_query-Evicts_example :
    (k : String) × (n : ℕ) × IsLeast String hash_of k n full_cache.entries
    × ((l : String)
        → find str_eq l (put_query String hash_of "c" full_cache).entries ≡ (
            if str_eq "c" l
            then some ("c", 9)
            else if not (str_eq l k)
            then find str_eq l full_cache.entries
            else none))
unfolding find
put_query-Evicts_example =
    put_query-Evicts String hash_of "c" full_cache refl (omega arith) (omega arith)
