-- ===== src/Examples/Tenants.antt =====
-- The theorems on tenants and recent events, at a cache of two tenants, a limiter and a buffer.
use mongocore.Tenant.Isolation.{PartitionedCache, new, insert}
use mongocore.Tenant.Isolation.Counts.{IsCounted, new-IsCounted, insert-IsCounted}

-- One entry for each tenant at most; the second insertion of "a" is refused.
abbrev cache : PartitionedCache
cache = (insert "a" "k" "1" (new 1)).1

insert-IsCounted_example : IsCounted (insert "a" "l" "2" (new 1)).1
insert-IsCounted_example = insert-IsCounted "a" "l" "2" (new 1) (new-IsCounted 1)
