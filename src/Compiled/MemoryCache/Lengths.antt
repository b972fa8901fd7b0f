-- ===== src/Compiled/MemoryCache/Lengths.antt =====
-- How storing and removing a key change the number of entries of src/compiled/cache/memory.rs.
use mongocore.Prelude.{
  suc, ◌≤◌, if◌then◌else◌, not, Bool-cases, String, str_eq, ◌≡◌, refl, ap, ◌∙◌, inl, inr, Bool,
  true, List, [], ◌∷◌, length, is_some, find, put, retain, arith,
}

pub length-put :
    {V : Type 0} (k : String) (v : V) (m : List (String × V))
    → length (put str_eq k v m) ≡ (if is_some (find str_eq k m) then length m else suc (length m))
unfolding put find
length-put k v [] = refl
length-put k v ((j, w) ∷ m) = elim (Bool-cases (str_eq j k)) [
  | inl e ↦ rw e refl
  | inr e ↦ elim (Bool-cases (is_some (find str_eq k m))) [
    | inl f ↦ rw (e, f) (ap suc (length-put k v m ∙ rw f refl))
    | inr f ↦ rw (e, f) (ap suc (length-put k v m ∙ rw f refl))
  ]
]

length-retain :
    {V : Type 0} (p : String → Bool) (m : List (String × V)) → length (retain str_eq p m) ≤ length m
unfolding retain
length-retain p [] = omega arith
length-retain p ((j, w) ∷ m) = elim (Bool-cases (p j)) [
  | inl e ↦ rw e (omega (arith, length-retain p m))
  | inr e ↦ rw e (omega (arith, length-retain p m))
]

-- A key that is there takes its entry with it.
pub length-retain_key :
    {V : Type 0} (k : String) (m : List (String × V))
    → is_some (find str_eq k m) ≡ true
    → suc (length (retain str_eq (λ j. not (str_eq j k)) m)) ≤ length m
unfolding retain find
length-retain_key k [] h = absurd (ground arith)
length-retain_key k ((j, w) ∷ m) h = elim (Bool-cases (str_eq j k)) [
  | inl e ↦ rw e (omega (arith, length-retain (λ i. not (str_eq i k)) m))
  | inr e ↦ rw e (omega (arith, length-retain_key k m (rw e at h)))
]
