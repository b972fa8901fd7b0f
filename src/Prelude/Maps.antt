-- ===== src/Prelude/Maps.antt =====
-- Maps as association lists, over a test for equal keys.
use mathlib.Core.Path.{◌≡◌, refl, sym, ap, ◌∙◌, subst}
use mathlib.Core.Logic.{◌↔◌, inl, inr}
use mathlib.Core.Bool.{Bool, true, false}
use mathlib.Core.Option.{Option, none, some}
use mathlib.Core.List.{List, [], ◌∷◌}
use mongocore.Prelude.Tests.{if◌then◌else◌, Bool-cases}

module _ {ℓ κ} {K : Type ℓ} {V : Type κ} (same : K → K → Bool) where
  unfoldable pub find : K → List (K × V) → Option V
  find k [] = none
  find k ((j, v) ∷ m) = if same j k then some v else find k m

  -- The value of a key that is there is replaced where it stands.
  unfoldable pub put : K → V → List (K × V) → List (K × V)
  put k v [] = (k, v) ∷ []
  put k v ((j, w) ∷ m) = let rest = put k v m in if same j k then (k, v) ∷ m else (j, w) ∷ rest

  unfoldable pub retain : (K → Bool) → List (K × V) → List (K × V)
  retain p [] = []
  retain p ((j, v) ∷ m) = let rest = retain p m in if p j then (j, v) ∷ rest else rest

  module _ (same_iff : (j k : K) → (same j k ≡ true) ↔ (j ≡ k)) where
    pub find-put : (k : K) (v : V) (m : List (K × V)) → find k (put k v m) ≡ some v
    unfolding find put
    find-put k v [] = rw ((same_iff k k).1 refl)
    find-put k v ((j, w) ∷ m) = elim (Bool-cases (same j k)) [
      | inl e ↦ rw (e, (same_iff k k).1 refl)
      | inr e ↦ rw (e, find, e) (find-put k v m)
    ]

    -- Another key's value is not touched.
    pub find-put_other :
        (k l : K) (v : V) (m : List (K × V)) → same k l ≡ false → find l (put k v m) ≡ find l m
    unfolding find put
    find-put_other k l v [] n = rw n
    find-put_other k l v ((j, w) ∷ m) n = elim (Bool-cases (same j k)) [
      | inl e ↦
          let apart : same j l ≡ false =
            subst (λ i. same i l ≡ false) (sym ((same_iff j k).0 e)) n in
          rw (e, n, apart)
      | inr e ↦ elim (Bool-cases (same j l)) [
        | inl f ↦ rw (e, find, f)
        | inr f ↦ rw (e, find, f) (find-put_other k l v m n)
      ]
    ]

    pub find-retain :
        (p : K → Bool) (k : K) (m : List (K × V))
        → find k (retain p m) ≡ (if p k then find k m else none)
    unfolding find retain
    find-retain p k [] = elim (Bool-cases (p k)) [ inl e ↦ rw e | inr e ↦ rw e ]
    find-retain p k ((j, v) ∷ m) = elim (Bool-cases (same j k)) [
      | inl e ↦
          let q : p j ≡ p k = ap p ((same_iff j k).0 e) in
          elim (Bool-cases (p k)) [
            | inl t ↦ rw (q, t, e)
            | inr f ↦ rw (q, f) (find-retain p k m ∙ rw f)
          ]
      | inr e ↦ elim (Bool-cases (p j)) [
        | inl t ↦ rw (t, find, e) (find-retain p k m)
        | inr f ↦ rw (f, find, e) (find-retain p k m)
      ]
    ]
