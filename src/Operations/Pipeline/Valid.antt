-- ===== src/Operations/Pipeline/Valid.antt =====
-- Which pipelines `validate_pipeline` accepts, apart from the order of its checks.
use mongocore.Prelude.{
  ◌≤◌, ltb, Text, text_eq, text_eq_iff, ◌≡◌, refl, sym, subst, Bool, true, false, not, Bool-cases,
  ◌⊎◌, ◌↔◌, inl, inr, List, [], ◌∷◌, ◌++◌, length, is_empty, All, Option, none, some, Result,
  Result-cases, ok, err, >>=-eq-ok, ok_injective, if◌then◌else◌, arith,
}
use mongocore.Operations.Refs.{PathSegment, parse_reference}
use mongocore.Operations.Refs.Resolve.{Crates, contains_text, extract_references}
use mongocore.Operations.Pipeline.{
  Limit, negative, natural, empty_name, empty_database, empty_collection, invalid_name,
  duplicate_name, nested_transaction, limit_exceeded, PipelineStepDef, PipelineError, max_steps,
  max_docs, is_valid_name, is_forbidden, over_limit, check_refs, check_step, check_steps,
  validate_pipeline,
}

-- A text is a member of a list.
pub IsIn : Text → List Text → Type 0
IsIn t [] = ⊥
IsIn t (s ∷ ss) = (s ≡ t) ⊎ IsIn t ss

contains_text-IsIn : (ss : List Text) (t : Text) → contains_text ss t ≡ true → IsIn t ss
unfolding contains_text IsIn
contains_text-IsIn [] t h = ground arith
contains_text-IsIn (s ∷ ss) t h = elim (Bool-cases (text_eq s t)) [
  | inl e ↦ inl ((text_eq_iff s t).0 e)
  | inr e ↦ inr (contains_text-IsIn ss t (ground arith))
]

IsIn-contains_text : (ss : List Text) (t : Text) → IsIn t ss → contains_text ss t ≡ true
unfolding contains_text IsIn
IsIn-contains_text [] t i = absurd i
IsIn-contains_text (s ∷ ss) t (inl e) = ground (arith, (text_eq_iff s t).1 e)
IsIn-contains_text (s ∷ ss) t (inr i) = ground (arith, IsIn-contains_text ss t i)

-- A find limit is at most `max_docs`.
abbrev pub IsBounded : Option Limit → Type 0
IsBounded none = Unit
IsBounded (some (negative n)) = Unit
IsBounded (some (natural n)) = n ≤ max_docs

over_limit-IsBounded : (l : Option Limit) → over_limit l ≡ false → IsBounded l
unfolding over_limit
over_limit-IsBounded none h = tt
over_limit-IsBounded (some (negative n)) h = tt
over_limit-IsBounded (some (natural n)) h = ground arith

IsBounded-over_limit : (l : Option Limit) → IsBounded l → over_limit l ≡ false
unfolding over_limit
IsBounded-over_limit none h = refl
IsBounded-over_limit (some (negative n)) h = refl
IsBounded-over_limit (some (natural n)) h = ground arith

-- A reference parses, and names a step of the list.
pub IsResolvable : List Text → Text → Type 0
IsResolvable seen r =
    (target : Text) × (path : List PathSegment) × (parse_reference r ≡ ok (target, path))
    × IsIn target seen

check_refs-All :
    (steps : List PipelineStepDef) (name : Text) (seen refs : List Text)
    → check_refs steps name seen refs ≡ ok tt
    → All (IsResolvable seen) refs
unfolding check_refs IsResolvable
check_refs-All steps name seen [] h = tt
check_refs-All steps name seen (r ∷ refs) h = elim (Result-cases (parse_reference r)) [
  | inr (x, e) ↦ absurd (ground (arith, (rw (e, check_refs) at h)))
  | inl ((target, path), e) ↦ elim (Bool-cases (contains_text seen target)) [
    | inr f ↦ absurd (ground (arith, (rw (e, check_refs, f) at h)))
    | inl t ↦ (
      (target, path, e, contains_text-IsIn seen target t),
      check_refs-All steps name seen refs (rw (e, check_refs, t) at h),
    )
  ]
]

All-check_refs :
    (steps : List PipelineStepDef) (name : Text) (seen refs : List Text)
    → All (IsResolvable seen) refs
    → check_refs steps name seen refs ≡ ok tt
unfolding check_refs IsResolvable
All-check_refs steps name seen [] a = refl
All-check_refs steps name seen (r ∷ refs) ((target, path, e, i), a) =
    rw (e, check_refs, IsIn-contains_text seen target i) (All-check_refs steps name seen refs a)

-- A guard that returns early was not met.
unmet :
    {A : Type 0} (b : Bool) (e : PipelineError) (r : Result PipelineError A) {a : A}
    → (if b then err e else r) ≡ ok a
    → (b ≡ false) × (r ≡ ok a)
unmet true e r h = absurd (ground arith)
unmet false e r h = (refl, h)

module _ (crates : Crates) where
  -- A step that may stand after the steps of the list `seen`.
  pub record IsStep (seen : List Text) (step : PipelineStepDef) : Type 0 where
    pub named : is_valid_name step.name ≡ true
    pub has_database : is_empty step.database ≡ false
    pub has_collection : is_empty step.collection ≡ false
    pub fresh : IsIn step.name seen → ⊥
    pub allowed : is_forbidden step.operation_type ≡ false
    pub bounded : IsBounded step.find_limit
    pub resolvable :
        All (IsResolvable (seen ++ step.name ∷ [])) (extract_references crates step.operation_json)

  pub AreSteps : List Text → List PipelineStepDef → Type 0
  AreSteps seen [] = Unit
  AreSteps seen (step ∷ rest) = IsStep seen step × AreSteps (seen ++ step.name ∷ []) rest

  -- A pipeline that may be run.
  pub record IsPipeline (steps : List PipelineStepDef) : Type 0 where
    pub some_step : is_empty steps ≡ false
    pub few_steps : length steps ≤ max_steps
    pub each_step : AreSteps [] steps

  is_valid_name_nonempty : (s : Text) → is_valid_name s ≡ true → is_empty s ≡ false
  unfolding is_valid_name
  is_valid_name_nonempty [] h = ground arith
  is_valid_name_nonempty (c ∷ s) h = refl

  check_step-IsStep :
      (steps : List PipelineStepDef) (seen : List Text) (step : PipelineStepDef) (seen' : List Text)
      → check_step crates steps seen step ≡ ok seen'
      → IsStep seen step × (seen' ≡ seen ++ step.name ∷ [])
  unfolding check_step
  check_step-IsStep steps seen step seen' h =
      let (a, h₁) = unmet (is_empty step.name) empty_name _ h in
      let (b, h₂) = unmet (is_empty step.database) (empty_database step.name) _ h₁ in
      let (c, h₃) = unmet (is_empty step.collection) (empty_collection step.name) _ h₂ in
      let (d, h₄) = unmet (not (is_valid_name step.name)) (invalid_name step.name) _ h₃ in
      let (e, h₅) = unmet (contains_text seen step.name) (duplicate_name step.name) _ h₄ in
      let (f, h₆) = unmet (is_forbidden step.operation_type) (nested_transaction step.name) _ h₅ in
      let (g, h₇) = unmet (over_limit step.find_limit) (limit_exceeded step.name) _ h₆ in
      let (u, refs, same) =
        >>=-eq-ok
          (check_refs steps step.name (seen ++ step.name ∷ [])
            (extract_references crates step.operation_json))
          (λ _. ok (seen ++ step.name ∷ [])) h₇ in
      (
        record {
          named = ground (arith, d);
          has_database = b;
          has_collection = c;
          fresh = λ i. ground (arith, e, IsIn-contains_text seen step.name i);
          allowed = f;
          bounded = over_limit-IsBounded step.find_limit g;
          resolvable = check_refs-All steps step.name _ _ refs;
        },
        sym (ok_injective same),
      )

  IsStep-check_step :
      (steps : List PipelineStepDef) (seen : List Text) (step : PipelineStepDef)
      → IsStep seen step
      → check_step crates steps seen step ≡ ok (seen ++ step.name ∷ [])
  unfolding check_step
  IsStep-check_step steps seen step r =
      let fresh : contains_text seen step.name ≡ false =
        elim (Bool-cases (contains_text seen step.name)) [
          | inl t ↦ absurd (r.fresh (contains_text-IsIn seen step.name t))
          | inr f ↦ f
        ] in
      rw
        (
          is_valid_name_nonempty step.name r.named,
          check_step,
          r.has_database,
          r.has_collection,
          r.named,
          fresh,
          r.allowed,
          IsBounded-over_limit step.find_limit r.bounded,
          All-check_refs steps step.name (seen ++ step.name ∷ [])
              (extract_references crates step.operation_json) r.resolvable,
        )
        refl

  check_steps-AreSteps :
      (all : List PipelineStepDef) (seen : List Text) (steps : List PipelineStepDef)
      → check_steps crates all seen steps ≡ ok tt
      → AreSteps seen steps
  unfolding check_steps AreSteps
  check_steps-AreSteps all seen [] h = tt
  check_steps-AreSteps all seen (step ∷ rest) h =
      let (seen', e, k) =
        >>=-eq-ok (check_step crates all seen step) (λ s. check_steps crates all s rest) h in
      let (st, same) = check_step-IsStep all seen step seen' e in
      (st, subst (λ s. AreSteps s rest) same (check_steps-AreSteps all seen' rest k))

  AreSteps-check_steps :
      (all : List PipelineStepDef) (seen : List Text) (steps : List PipelineStepDef)
      → AreSteps seen steps
      → check_steps crates all seen steps ≡ ok tt
  unfolding check_steps AreSteps
  AreSteps-check_steps all seen [] h = refl
  AreSteps-check_steps all seen (step ∷ rest) (st, r) =
      rw (IsStep-check_step all seen step st, check_steps)
        (AreSteps-check_steps all (seen ++ step.name ∷ []) rest r)

  -- Validation accepts exactly the pipelines with one to fifty steps in which every step has a valid
  -- and new name, a database and a collection, no transaction command, a find limit of at most 101,
  -- and references that parse and name an earlier step or itself.
  pub validate_pipeline_iff :
      (steps : List PipelineStepDef) → (validate_pipeline crates steps ≡ ok tt) ↔ IsPipeline steps
  unfolding validate_pipeline
  validate_pipeline_iff steps = (there, back)
    where
      there : validate_pipeline crates steps ≡ ok tt → IsPipeline steps
      there h = elim (Bool-cases (is_empty steps)) [
        | inl t ↦ absurd (ground (arith, (rw (t, validate_pipeline) at h)))
        | inr f ↦ elim (Bool-cases (ltb max_steps (length steps))) [
          | inl t ↦ absurd (ground (arith, (rw (f, validate_pipeline, t) at h)))
          | inr g ↦ record {
            some_step = f;
            few_steps = ground arith;
            each_step = check_steps-AreSteps steps [] steps (rw (f, validate_pipeline, g) at h);
          }
        ]
      ]

      back : IsPipeline steps → validate_pipeline crates steps ≡ ok tt
      back p =
          let few : ltb max_steps (length steps) ≡ false = ground (arith, p.few_steps) in
          rw (p.some_step, validate_pipeline, few) (AreSteps-check_steps steps [] steps p.each_step)
