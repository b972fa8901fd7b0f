-- ===== src/Tenant/Quota.antt =====
-- src/tenant/quota.rs: the rate limiter of a tenant, and the limiters of all. Times are
-- milliseconds of a monotonic clock; the lock makes each call one step.
use mongocore.Prelude.{
  ℕ, ◌+◌, ◌-◌, ◌/◌, ◌%◌, ◌^◌, ◌≤◌, ◌<◌, min, leb, if◌then◌else◌, Bool-cases, Option-cases, String,
  str_eq, eq_iff, ◌≡◌, refl, ap, inl, inr, Bool, true, false, not, List, [], ◌∷◌, length, All, none,
  some, find, put, retain, find-put_other, arith,
}

pub record RateLimiter : Type 0 where
  pub max_per_second : ℕ
  pub count : ℕ
  pub window_start : ℕ

unfoldable pub new_limiter : ℕ → ℕ → RateLimiter
new_limiter now max_per_second = record {
  max_per_second = max_per_second;
  count = 0;
  window_start = now;
}

-- `now.duration_since(*window_start).as_secs() >= 1`; the difference stops at zero.
unfoldable pub reset : ℕ → RateLimiter → RateLimiter
reset now l =
    if leb 1 ((now - l.window_start) / 1000) then record l { count = 0; window_start = now } else l

-- `fetch_add`, and the `fetch_sub` that undoes it, on 64 bits.
unfoldable pub take_one : RateLimiter → Bool × RateLimiter
take_one l =
    let added : ℕ = (l.count + 1) % 2 ^ 64 in
    if leb l.max_per_second l.count
    then (false, record l { count = (added + (2 ^ 64 - 1)) % 2 ^ 64 })
    else (true, record l { count = added })

unfoldable pub try_acquire : ℕ → RateLimiter → Bool × RateLimiter
try_acquire now l = take_one (reset now l)

-- The requests that a limiter grants at these times.
abbrev pub granted : List ℕ → RateLimiter → ℕ
granted [] l = 0
granted (now ∷ times) l =
    let answer = try_acquire now l in (if answer.0 then 1 else 0) + granted times answer.1

-- A limiter between calls: the count is within the limit, which is a `u64`.
pub record IsLimited (l : RateLimiter) : Type 0 where
  pub within : l.count ≤ l.max_per_second
  pub is_u64 : l.max_per_second < 2 ^ 64

-- A step inside the window.
take_one_room :
    (l : RateLimiter)
    → IsLimited l
    → l.count < l.max_per_second
    → take_one l ≡ (true, record l { count = l.count + 1 })
unfolding take_one
take_one_room l i room =
    let test : leb l.max_per_second l.count ≡ false = ground arith in
    rw test (ap (λ n. (true, record l { count = n })) (omega (arith, i.within, i.is_u64)))

take_one_full :
    (l : RateLimiter) → IsLimited l → l.max_per_second ≤ l.count → take_one l ≡ (false, l)
unfolding take_one
take_one_full l i full =
    let test : leb l.max_per_second l.count ≡ true = ground arith in
    rw test (ap (λ n. (false, record l { count = n })) (omega (arith, i.within, i.is_u64)))

reset_not_yet : (now : ℕ) (l : RateLimiter) → now < l.window_start + 1000 → reset now l ≡ l
unfolding reset
reset_not_yet now l h =
    let early : leb 1 ((now - l.window_start) / 1000) ≡ false = ground arith in rw early refl

abbrev InWindow : ℕ → ℕ → Type 0
InWindow start now = now < start + 1000

reset-IsLimited : (now : ℕ) (l : RateLimiter) → IsLimited l → IsLimited (reset now l)
unfolding reset
reset-IsLimited now l i = elim (Bool-cases (leb 1 ((now - l.window_start) / 1000))) [
  | inl due ↦ rw due (record { within = omega arith; is_u64 = i.is_u64 })
  | inr early ↦ rw early i
]

-- A call keeps the count within the limit, at whatever time it is made: the 64-bit counter does not
-- wrap around, also where the limit is the greatest number that it holds.
try_acquire-IsLimited : (now : ℕ) (l : RateLimiter) → IsLimited l → IsLimited (try_acquire now l).1
unfolding try_acquire
try_acquire-IsLimited now l i =
    let r = reset-IsLimited now l i in
    elim (Bool-cases (leb (reset now l).max_per_second (reset now l).count)) [
      | inl full ↦ rw (take_one_full (reset now l) r (ground arith)) r
      | inr room ↦
          rw (take_one_room (reset now l) r (ground arith))
            (record { within = ground arith; is_u64 = r.is_u64 })
    ]

-- Inside one window a limiter grants every request up to its limit and none beyond it.
granted-min :
    (times : List ℕ) (l : RateLimiter)
    → IsLimited l
    → All (InWindow l.window_start) times
    → granted times l ≡ min (length times) (l.max_per_second - l.count)
unfolding try_acquire
granted-min [] l i a = omega arith
granted-min (now ∷ times) l i a = elim (Bool-cases (leb l.max_per_second l.count)) [
  | inl full ↦
      rw (reset_not_yet now l a.0, take_one_full l i (ground arith))
        (let rest = granted-min times l i a.1 in ground (arith, rest))
  | inr room ↦
      rw (reset_not_yet now l a.0, take_one_room l i (ground arith))
        (let rest =
            granted-min times (record l { count = l.count + 1 })
              (record { within = ground arith; is_u64 = i.is_u64 }) a.1 in
          ground (arith, rest))
]

pub record QuotaManager : Type 0 where
  pub limiters : List (String × RateLimiter)

unfoldable pub set_limit : ℕ → String → ℕ → QuotaManager → QuotaManager
set_limit now tenant_id max_per_second q = record q {
  limiters = put str_eq tenant_id (new_limiter now max_per_second) q.limiters;
}

-- `QuotaManager::try_acquire`; without a limit every request is granted.
unfoldable pub try_acquire_for : ℕ → String → QuotaManager → Bool × QuotaManager
try_acquire_for now tenant_id q = elim (find str_eq tenant_id q.limiters) [
  | none ↦ (true, q)
  | some l ↦
      let answer = try_acquire now l in
      (answer.0, record q { limiters = put str_eq tenant_id answer.1 q.limiters })
]

unfoldable pub remove : String → QuotaManager → QuotaManager
remove tenant_id q = record q {
  limiters = retain str_eq (λ t. not (str_eq t tenant_id)) q.limiters;
}

-- A call for one tenant leaves the limiter of every other as it was.
try_acquire_for-other :
    (now : ℕ) (t u : String) (q : QuotaManager)
    → str_eq t u ≡ false
    → find str_eq u (try_acquire_for now t q).1.limiters ≡ find str_eq u q.limiters
unfolding try_acquire_for
try_acquire_for-other now t u q n = elim (Option-cases (find str_eq t q.limiters)) [
  | inl e ↦ rw (e, try_acquire_for) refl
  | inr (l, e) ↦
      rw (e, try_acquire_for) (find-put_other str_eq eq_iff t u (try_acquire now l).1 q.limiters n)
]
