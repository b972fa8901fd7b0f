-- ===== src/Tenant/Isolation.antt =====
-- src/tenant/isolation.rs: a cache with a bound for each tenant. The concurrent maps are
-- association lists; a call is one step.
pub mod Counts
use mongocore.Prelude.{
  ℕ, ◌+◌, ltb, leb, if◌then◌else◌, String, str_eq, Bool, true, false, not, ◌&&◌, List, [], ◌∷◌,
  Option, none, some, unwrap_or, is_some, find, put, retain,
}

pub record TenantCacheKey : Type 0 where
  pub partition : String
  pub key : String

-- `TenantCacheKey::new`.
abbrev pub new_key : Option String → String → TenantCacheKey
new_key tenant_id key = record { partition = unwrap_or "__default__" tenant_id; key = key }

-- The derived `PartialEq`.
unfoldable pub same_key : TenantCacheKey → TenantCacheKey → Bool
same_key j k = str_eq j.partition k.partition && str_eq j.key k.key

pub record PartitionedCache : Type 0 where
  pub max_per_tenant : ℕ
  pub entries : List (TenantCacheKey × String)
  pub counts : List (String × ℕ)

unfoldable pub new : ℕ → PartitionedCache
new max_per_tenant = record { max_per_tenant = max_per_tenant; entries = []; counts = [] }

-- `counts.get(tenant_id).map(|v| *v).unwrap_or(0)`.
abbrev pub count_of : String → PartitionedCache → ℕ
count_of tenant_id c = unwrap_or 0 (find str_eq tenant_id c.counts)

-- `entry(tenant_id).and_modify(|count| *count += 1).or_insert(1)`.
unfoldable pub count_up : String → List (String × ℕ) → List (String × ℕ)
count_up tenant_id counts = elim (find str_eq tenant_id counts) [
  | none ↦ put str_eq tenant_id 1 counts
  | some n ↦ put str_eq tenant_id (n + 1) counts
]

unfoldable pub insert : String → String → String → PartitionedCache → Bool × PartitionedCache
insert tenant_id key value c =
    let cache_key = new_key (some tenant_id) key in
    if is_some (find same_key cache_key c.entries)
    then (true, record c { entries = put same_key cache_key value c.entries })
    else if leb c.max_per_tenant (count_of tenant_id c)
    then (false, c)
    else (
      true,
      record c {
        entries = put same_key cache_key value c.entries;
        counts = count_up tenant_id c.counts;
      },
    )

unfoldable pub get : String → String → PartitionedCache → Option String
get tenant_id key c = find same_key (new_key (some tenant_id) key) c.entries

unfoldable pub remove_tenant : String → PartitionedCache → PartitionedCache
remove_tenant tenant_id c = record c {
  entries = retain same_key (λ k. not (str_eq k.partition tenant_id)) c.entries;
  counts = retain str_eq (λ t. not (str_eq t tenant_id)) c.counts;
}
