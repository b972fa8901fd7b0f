-- ===== src/Voyage/Batch/Counting.antt =====
-- Counting: how often a caller stands in the lists of the embedder.
use mongocore.Prelude.{
  ℕ, ◌+◌, ◌<◌, ◌==◌, if◌then◌else◌, ◌≡◌, refl, ◌⊎◌, inl, inr, true, false, List, [], ◌∷◌, ◌++◌,
  length, All, is_empty, arith,
}
use mongocore.Voyage.Batch.{PendingEmbed}

-- How often a caller stands in a list.
abbrev pub occurs : ℕ → List ℕ → ℕ
occurs c [] = 0
occurs c (d ∷ ds) = (if c == d then 1 else 0) + occurs c ds

abbrev pub requests : ℕ → List PendingEmbed → ℕ
requests c [] = 0
requests c (p ∷ ps) = (if c == p.caller then 1 else 0) + requests c ps

abbrev pub in_batches : ℕ → List (List PendingEmbed) → ℕ
in_batches c [] = 0
in_batches c (b ∷ bs) = requests c b + in_batches c bs

abbrev pub replies {ℓ} : {A : Type ℓ} → ℕ → List (PendingEmbed × A) → ℕ
replies c [] = 0
replies c ((p, a) ∷ rs) = (if c == p.caller then 1 else 0) + replies c rs

pub occurs-append : (c : ℕ) (xs ys : List ℕ) → occurs c (xs ++ ys) ≡ occurs c xs + occurs c ys
occurs-append c [] ys = omega arith
occurs-append c (x ∷ xs) ys = omega (arith, occurs-append c xs ys)

pub requests-append :
    (c : ℕ) (ps qs : List PendingEmbed) → requests c (ps ++ qs) ≡ requests c ps + requests c qs
requests-append c [] qs = omega arith
requests-append c (p ∷ ps) qs = omega (arith, requests-append c ps qs)

pub in_batches-append :
    (c : ℕ) (bs ds : List (List PendingEmbed))
    → in_batches c (bs ++ ds) ≡ in_batches c bs + in_batches c ds
in_batches-append c [] ds = omega arith
in_batches-append c (b ∷ bs) ds = omega (arith, in_batches-append c bs ds)

pub replies-append {ℓ} :
    {A : Type ℓ} (c : ℕ) (rs ts : List (PendingEmbed × A))
    → replies c (rs ++ ts) ≡ replies c rs + replies c ts
replies-append c [] ts = omega arith
replies-append c ((p, a) ∷ rs) ts = omega (arith, replies-append c rs ts)

pub requests_empty : (c : ℕ) (ps : List PendingEmbed) → is_empty ps ≡ true → requests c ps ≡ 0
requests_empty c [] e = refl
requests_empty c (p ∷ ps) e = cc

pub length_nonempty : (ps : List PendingEmbed) → is_empty ps ≡ false → 0 < length ps
length_nonempty [] e = cc
length_nonempty (p ∷ ps) e = omega arith

pub All-remove_one {ℓ} :
    {A : Type ℓ} (P : A → Type 0) (xs : List A) (a : A) (ys : List A)
    → All P (xs ++ a ∷ ys)
    → All P (xs ++ ys)
All-remove_one P [] a ys all = all.1
All-remove_one P (x ∷ xs) a ys all = (all.0, All-remove_one P xs a ys all.1)

pub List-cases {ℓ} :
    {A : Type ℓ} (xs : List A) → (xs ≡ []) ⊎ ((x : A) × (ys : List A) × (xs ≡ x ∷ ys))
List-cases [] = inl refl
List-cases (x ∷ ys) = inr (x, ys, refl)
