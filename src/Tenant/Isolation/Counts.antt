-- ===== src/Tenant/Isolation/Counts.antt =====
-- The bound of each tenant, and that no tenant sees or moves another's entries.
use mongocore.Prelude.{
  ℕ, ◌+◌, ◌≤◌, leb, if◌then◌else◌, Bool-cases, Option-cases, String, str_eq, eq_iff, eq_refl, ◌≡◌,
  ◌↔◌, refl, sym, ap, ap₂, ◌∙◌, subst, ◌⊎◌, inl, inr, Bool, true, false, not, ◌&&◌, List, [], ◌∷◌,
  none, some, unwrap_or, is_some, find, put, retain, find-put, find-put_other, find-retain, arith,
}
use mongocore.Tenant.Isolation.{
  TenantCacheKey, PartitionedCache, new, new_key, same_key, count_of, count_up, insert, get,
  remove_tenant,
}

pub same_key_iff : (j k : TenantCacheKey) → (same_key j k ≡ true) ↔ (j ≡ k)
unfolding same_key
same_key_iff j k =
    (there, λ e. subst (λ l. same_key j l ≡ true) e (rw (eq_refl j.partition, eq_refl j.key)))
  where
    there : same_key j k ≡ true → j ≡ k
    there h =
        let p : str_eq j.partition k.partition ≡ true = ground (arith, h) in
        let q : str_eq j.key k.key ≡ true = ground (arith, h) in
        ap₂ (λ a b. record { partition = a; key = b }) ((eq_iff j.partition k.partition).0 p)
          ((eq_iff j.key k.key).0 q)

-- The number of entries of a tenant.
pub held : String → List (TenantCacheKey × String) → ℕ
held t [] = 0
held t ((k, v) ∷ m) = (if str_eq k.partition t then 1 else 0) + held t m

-- Replacing a value moves no number; a new key adds one to its tenant's.
held-put :
    (t : String) (k : TenantCacheKey) (v : String) (m : List (TenantCacheKey × String))
    → held t (put same_key k v m)
      ≡ held t m
        + (if is_some (find same_key k m) then 0 else if str_eq k.partition t then 1 else 0)
unfolding held put find
held-put t k v [] = omega arith
held-put t k v ((j, w) ∷ m) = elim (Bool-cases (same_key j k)) [
  | inl e ↦ rw (e, (same_key_iff j k).0 e) (omega arith)
  | inr e ↦ rw e (omega (arith, held-put t k v m))
]

apart_sym : (a b : String) → str_eq a b ≡ false → str_eq b a ≡ false
apart_sym a b n = elim (Bool-cases (str_eq b a)) [
  | inl e ↦
      let same : str_eq a b ≡ true = (eq_iff a b).1 (sym ((eq_iff b a).0 e)) in
      absurd (ground (arith, n, same))
  | inr f ↦ f
]

held-retain :
    (t u : String) (m : List (TenantCacheKey × String))
    → held t (retain same_key (λ k. not (str_eq k.partition u)) m)
      ≡ (if str_eq t u then 0 else held t m)
unfolding held retain
held-retain t u [] = elim (Bool-cases (str_eq t u)) [ inl e ↦ rw e | inr e ↦ rw e ]
held-retain t u ((k, v) ∷ m) =
    let ih = held-retain t u m in
    elim (Bool-cases (str_eq k.partition u)) [
      | inl e ↦ elim (Bool-cases (str_eq t u)) [
        | inl f ↦ rw (e, f) (ih ∙ rw f)
        | inr f ↦
            let other : str_eq k.partition t ≡ false =
              subst (λ p. str_eq p t ≡ false) (sym ((eq_iff k.partition u).0 e))
                (apart_sym t u f) in
            rw (e, f, other) (ih ∙ rw f (omega arith))
      ]
      | inr e ↦ elim (Bool-cases (str_eq t u)) [
        | inl f ↦
            let other : str_eq k.partition t ≡ false =
              subst (λ p. str_eq k.partition p ≡ false) (sym ((eq_iff t u).0 f)) e in
            let none_left : held t (retain same_key (λ k. not (str_eq k.partition u)) m) ≡ 0 =
              ih ∙ rw f refl in
            rw (e, f, held, other) (omega (arith, none_left))
        | inr f ↦ rw (e, f) (ap (λ n. (if str_eq k.partition t then 1 else 0) + n) (ih ∙ rw f))
      ]
    ]

-- The counters tell the numbers of entries, and none is above the bound.
pub record IsCounted (c : PartitionedCache) : Type 0 where
  pub counted : (t : String) → held t c.entries ≡ count_of t c
  pub bounded : (t : String) → held t c.entries ≤ c.max_per_tenant

count_of-count_up :
    (t u : String) (counts : List (String × ℕ))
    → unwrap_or 0 (find str_eq u (count_up t counts))
      ≡ unwrap_or 0 (find str_eq u counts) + (if str_eq t u then 1 else 0)
unfolding count_up
count_of-count_up t u counts = elim (Bool-cases (str_eq t u)) [
  | inl e ↦
      subst
        (λ x.
          unwrap_or 0 (find str_eq x (count_up t counts))
          ≡ unwrap_or 0 (find str_eq x counts) + (if str_eq t x then 1 else 0))
        ((eq_iff t u).0 e) (own (Option-cases (find str_eq t counts)))
  | inr e ↦ elim (Option-cases (find str_eq t counts)) [
    | inl n ↦ rw (n, count_up, find-put_other str_eq eq_iff t u 1 counts e, e) (omega arith)
    | inr (k, n) ↦
        rw (n, count_up, find-put_other str_eq eq_iff t u (k + 1) counts e, e) (omega arith)
  ]
]
  where
    own :
        (find str_eq t counts ≡ none) ⊎ ((k : ℕ) × (find str_eq t counts ≡ some k))
        → unwrap_or 0 (find str_eq t (count_up t counts))
          ≡ unwrap_or 0 (find str_eq t counts) + (if str_eq t t then 1 else 0)
    own (inl n) = rw (n, count_up, find-put str_eq eq_iff t 1 counts, eq_refl t) refl
    own (inr (k, n)) = rw (n, count_up, find-put str_eq eq_iff t (k + 1) counts, eq_refl t) refl

pub new-IsCounted : (max_per_tenant : ℕ) → IsCounted (new max_per_tenant)
unfolding new held find
new-IsCounted max = record { counted = λ t. refl; bounded = λ t. omega arith }

-- An insertion keeps the counters right and every tenant within the bound.
pub insert-IsCounted :
    (tenant_id key value : String) (c : PartitionedCache)
    → IsCounted c
    → IsCounted (insert tenant_id key value c).1
unfolding insert
insert-IsCounted t key value c i =
    let k = new_key (some t) key in
    elim (Bool-cases (is_some (find same_key k c.entries))) [
      | inl there ↦
          let same : (u : String) → held u (put same_key k value c.entries) ≡ held u c.entries =
            λ u. held-put u k value c.entries ∙ rw there (omega arith) in
          rw there (record {
            counted = λ u. same u ∙ i.counted u;
            bounded = λ u. omega (arith, same u, i.bounded u);
          })
      | inr absent ↦ elim (Bool-cases (leb c.max_per_tenant (count_of t c))) [
        | inl full ↦ rw (absent, full) i
        | inr room ↦
            let grown : (u : String)
                → held u (put same_key k value c.entries)
                  ≡ held u c.entries + (if str_eq t u then 1 else 0) =
              λ u. held-put u k value c.entries ∙ rw absent refl in
            rw (absent, room)
              (record {
                counted = λ u. grown u ∙ rw (count_of-count_up t u c.counts, i.counted u) refl;
                bounded = λ u. fits u (grown u) (Bool-cases (str_eq t u)) room;
              })
      ]
    ]
  where
    fits :
        (u : String)
        → held u (put same_key (new_key (some t) key) value c.entries)
          ≡ held u c.entries + (if str_eq t u then 1 else 0)
        → (str_eq t u ≡ true) ⊎ (str_eq t u ≡ false)
        → leb c.max_per_tenant (count_of t c) ≡ false
        → held u (put same_key (new_key (some t) key) value c.entries) ≤ c.max_per_tenant
    fits u grown (inl e) room =
        let own : count_of t c ≡ held u c.entries =
          sym (i.counted t) ∙ ap (λ x. held x c.entries) ((eq_iff t u).0 e) in
        let g = rw e at grown in ground (arith, g, own, room)
    fits u grown (inr e) room = let g = rw e at grown in omega (arith, g, i.bounded u)

-- Removing a tenant keeps the counters right and every tenant within the bound.
remove_tenant-IsCounted :
    (tenant_id : String) (c : PartitionedCache)
    → IsCounted c
    → IsCounted (remove_tenant tenant_id c)
unfolding remove_tenant
remove_tenant-IsCounted t c i = record {
  counted = λ u.
      held-retain u t c.entries
      ∙ gone u (Bool-cases (str_eq u t))
      ∙ ap (unwrap_or 0) (sym (find-retain str_eq eq_iff (λ x. not (str_eq x t)) u c.counts));
  bounded = λ u. kept u (Bool-cases (str_eq u t));
}
  where
    gone :
        (u : String)
        → (str_eq u t ≡ true) ⊎ (str_eq u t ≡ false)
        → (if str_eq u t then 0 else held u c.entries)
          ≡ unwrap_or 0 (if not (str_eq u t) then find str_eq u c.counts else none)
    gone u (inl e) = rw e refl
    gone u (inr e) = rw e (i.counted u)

    kept :
        (u : String)
        → (str_eq u t ≡ true) ⊎ (str_eq u t ≡ false)
        → held u (retain same_key (λ k. not (str_eq k.partition t)) c.entries) ≤ c.max_per_tenant
    kept u (inl e) = let r = rw e at (held-retain u t c.entries) in omega (arith, r)
    kept u (inr e) = let r = rw e at (held-retain u t c.entries) in omega (arith, r, i.bounded u)

-- What a call changes of the values that any tenant reads: an accepted insertion its own key only,
-- a refused one nothing.
get-insert :
    (tenant_id key value u j : String) (c : PartitionedCache)
    → get u j (insert tenant_id key value c).1 ≡ (
        if (insert tenant_id key value c).0
          && same_key (new_key (some tenant_id) key) (new_key (some u) j)
        then some value
        else get u j c)
unfolding insert get
get-insert t key value u j c =
    let k = new_key (some t) key in
    let l = new_key (some u) j in
    let written : find same_key l (put same_key k value c.entries)
        ≡ (if same_key k l then some value else find same_key l c.entries) =
      elim (Bool-cases (same_key k l)) [
        | inl e ↦
            rw (e, sym ((same_key_iff k l).0 e), find-put same_key same_key_iff k value c.entries)
              refl
        | inr e ↦ rw (e, find-put_other same_key same_key_iff k l value c.entries e) refl
      ] in
    elim (Bool-cases (is_some (find same_key k c.entries))) [
      | inl there ↦ rw there written
      | inr absent ↦ elim (Bool-cases (leb c.max_per_tenant (count_of t c))) [
        | inl full ↦ rw (absent, full) refl
        | inr room ↦ rw (absent, room) written
      ]
    ]

-- After a tenant is removed it reads nothing, and every other tenant reads what it did.
get-remove_tenant :
    (tenant_id u key : String) (c : PartitionedCache)
    → get u key (remove_tenant tenant_id c) ≡ (if str_eq u tenant_id then none else get u key c)
unfolding get remove_tenant
get-remove_tenant t u key c =
    find-retain same_key same_key_iff (λ k. not (str_eq k.partition t)) (new_key (some u) key)
      c.entries
    ∙ flip (str_eq u t)
  where
    flip :
        (b : Bool)
        → (if not b then find same_key (new_key (some u) key) c.entries else none)
          ≡ (if b then none else find same_key (new_key (some u) key) c.entries)
    flip true = refl
    flip false = refl
