-- ===== src/Compiled/Validator/Keys.antt =====
-- What the validator accepts, said by the keys of a document.
use mongocore.Prelude.{
  ℕ, suc, Bool-cases, String, str_eq, eq_iff, ◌≡◌, ◌↔◌, refl, subst, inl, inr, true, false, List,
  [], ◌∷◌, ◌++◌, All, All-append, some, ok, >>=-eq-ok, arith,
}
use mongocore.Compiled.Validator.{
  Item, Items, Fields, document, array, scalar, nil, cons, end, field, allowed_stages,
  blocked_stages, dangerous_operators, contains_str, check_fields, check_item, check_items,
  validate_filter, stage_name, check_stage, check_stages, validate_stages,
}

-- The keys of a document, of the documents in it, and of the documents in its arrays.
unfoldable mutual
  pub keys : Fields → List String
  keys end = []
  keys (field key value rest) = key ∷ (item_keys value ++ keys rest)

  pub item_keys : Item → List String
  item_keys (document nested) = keys nested
  item_keys (array items) = items_keys items
  item_keys scalar = []

  pub items_keys : Items → List String
  items_keys nil = []
  items_keys (cons (document nested) rest) = keys nested ++ items_keys rest
  items_keys (cons (array items) rest) = items_keys rest
  items_keys (cons scalar rest) = items_keys rest

abbrev pub IsHarmless : String → Type 0
IsHarmless key = contains_str dangerous_operators key ≡ false

All-append_left : (xs ys : List String) → All IsHarmless (xs ++ ys) → All IsHarmless xs
All-append_left [] ys a = tt
All-append_left (x ∷ xs) ys a = (a.0, All-append_left xs ys a.1)

All-append_right : (xs ys : List String) → All IsHarmless (xs ++ ys) → All IsHarmless ys
All-append_right [] ys a = a
All-append_right (x ∷ xs) ys a = All-append_right xs ys a.1

-- What is accepted has harmless keys only.
mutual
  unfolding check_fields check_item check_items keys item_keys items_keys

  fields_there : (fs : Fields) → check_fields fs ≡ ok tt → All IsHarmless (keys fs)
  fields_there end h = tt
  fields_there (field key value rest) h = elim (Bool-cases (contains_str dangerous_operators key)) [
    | inl bad ↦ absurd (ground (arith, rw (bad, check_fields) at h))
    | inr good ↦
        let (u, first, second) =
          >>=-eq-ok (check_item value) (λ _. check_fields rest) (rw (good, check_fields) at h) in
        (
          good,
          All-append IsHarmless (item_keys value) (keys rest) (item_there value first)
              (fields_there rest second),
        )
  ]

  item_there : (v : Item) → check_item v ≡ ok tt → All IsHarmless (item_keys v)
  item_there (document nested) h = fields_there nested h
  item_there (array items) h = items_there items h
  item_there scalar h = tt

  items_there : (vs : Items) → check_items vs ≡ ok tt → All IsHarmless (items_keys vs)
  items_there nil h = tt
  items_there (cons (document nested) rest) h =
      let (u, first, second) = >>=-eq-ok (check_fields nested) (λ _. check_items rest) h in
      All-append IsHarmless (keys nested) (items_keys rest) (fields_there nested first)
        (items_there rest second)
  items_there (cons (array items) rest) h = items_there rest h
  items_there (cons scalar rest) h = items_there rest h

-- What has harmless keys only is accepted.
mutual
  unfolding check_fields check_item check_items keys item_keys items_keys

  fields_back : (fs : Fields) → All IsHarmless (keys fs) → check_fields fs ≡ ok tt
  fields_back end a = refl
  fields_back (field key value rest) a =
      rw (a.0, check_fields, item_back value (All-append_left (item_keys value) (keys rest) a.1))
        (fields_back rest (All-append_right (item_keys value) (keys rest) a.1))

  item_back : (v : Item) → All IsHarmless (item_keys v) → check_item v ≡ ok tt
  item_back (document nested) a = fields_back nested a
  item_back (array items) a = items_back items a
  item_back scalar a = refl

  items_back : (vs : Items) → All IsHarmless (items_keys vs) → check_items vs ≡ ok tt
  items_back nil a = refl
  items_back (cons (document nested) rest) a =
      rw (fields_back nested (All-append_left (keys nested) (items_keys rest) a))
        (items_back rest (All-append_right (keys nested) (items_keys rest) a))
  items_back (cons (array items) rest) a = items_back rest a
  items_back (cons scalar rest) a = items_back rest a

-- A filter is accepted exactly if no key of it, of a document in it, or of a document in one of
-- their arrays is an operator that runs code.
pub validate_filter_iff :
    (filter : Fields) → (validate_filter filter ≡ ok tt) ↔ All IsHarmless (keys filter)
unfolding validate_filter
validate_filter_iff filter = (fields_there filter, fields_back filter)

-- The two lists of stages have no name in common.
not_blocked :
    (name : String)
    → contains_str allowed_stages name ≡ true
    → contains_str blocked_stages name ≡ false
unfolding contains_str
not_blocked name h =
    apart allowed_stages
      (
        refl,
        (
          refl,
          (
            refl,
            (refl, (refl, (refl, (refl, (refl, (refl, (refl, (refl, (refl, (refl, tt)))))))))),
          ),
        ),
      )
      h
  where
    apart :
        (names : List String)
        → All (λ s. contains_str blocked_stages s ≡ false) names
        → contains_str names name ≡ true
        → contains_str blocked_stages name ≡ false
    apart [] a h = absurd (ground arith)
    apart (s ∷ names) a h = elim (Bool-cases (str_eq s name)) [
      | inl e ↦ subst (λ t. contains_str blocked_stages t ≡ false) ((eq_iff s name).0 e) a.0
      | inr e ↦ apart names a.1 (rw e at h)
    ]

-- A stage that may run: its first key is an allowed stage, and no key in it runs code.
pub record IsAllowed (stage : Fields) : Type 0 where
  pub name : String
  pub named : stage_name stage ≡ some name
  pub listed : contains_str allowed_stages name ≡ true
  pub harmless : All IsHarmless (keys stage)

check_stage-IsAllowed : (i : ℕ) (stage : Fields) → check_stage i stage ≡ ok tt → IsAllowed stage
unfolding check_stage
check_stage-IsAllowed i end h = cc h
check_stage-IsAllowed i (field key value rest) h =
    elim (Bool-cases (contains_str blocked_stages key)) [
      | inl bad ↦ absurd (ground (arith, rw bad at h))
      | inr fine ↦ elim (Bool-cases (contains_str allowed_stages key)) [
        | inr other ↦ absurd (ground (arith, rw (fine, other) at h))
        | inl known ↦ record {
          name = key;
          named = refl;
          listed = known;
          harmless = fields_there (field key value rest) (rw (fine, known) at h);
        }
      ]
    ]

IsAllowed-check_stage : (i : ℕ) (stage : Fields) → IsAllowed stage → check_stage i stage ≡ ok tt
unfolding check_stage
IsAllowed-check_stage i stage a =
    rw (a.named, check_stage, not_blocked a.name a.listed, a.listed) (fields_back stage a.harmless)

check_stages-All :
    (i : ℕ) (stages : List Fields) → check_stages i stages ≡ ok tt → All IsAllowed stages
unfolding check_stages
check_stages-All i [] h = tt
check_stages-All i (stage ∷ rest) h =
    let (u, first, second) = >>=-eq-ok (check_stage i stage) (λ _. check_stages (suc i) rest) h in
    (check_stage-IsAllowed i stage first, check_stages-All (suc i) rest second)

All-check_stages :
    (i : ℕ) (stages : List Fields) → All IsAllowed stages → check_stages i stages ≡ ok tt
unfolding check_stages
All-check_stages i [] a = refl
All-check_stages i (stage ∷ rest) a =
    rw (IsAllowed-check_stage i stage a.0) (All-check_stages (suc i) rest a.1)

-- A pipeline is accepted exactly if every stage begins with an allowed stage name, and has no key
-- that runs code, in it, in a document in it, or in a document in one of their arrays.
validate_stages_iff :
    (pipeline : List Fields) → (validate_stages pipeline ≡ ok tt) ↔ All IsAllowed pipeline
unfolding validate_stages
validate_stages_iff pipeline = (check_stages-All 0 pipeline, All-check_stages 0 pipeline)
