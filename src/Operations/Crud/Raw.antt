-- ===== src/Operations/Crud/Raw.antt =====
-- Raw reads: what the bytes of a batch are.
use mongocore.Prelude.{
  ℕ, ◌+◌, ◌%◌, ◌^◌, ◌<◌, Bytes, String, ◌≡◌, refl, sym, ap, ◌∙◌, List, [], ◌∷◌, ◌++◌, length, map,
  append-nil, append_assoc, none, some, Result, ok, err, ok_injective, map_err-eq-ok, Result-cases,
  inl, inr, arith,
}
use mongocore.Transport.Codec.{Bson}
use mongocore.Operations.Driver.{Driver, DriverError, Answer, timed}
use mongocore.Operations.Crud.{collect, all_serialized, serialized, drain}

abbrev pub concat : List Bytes → Bytes
concat [] = []
concat (b ∷ bs) = b ++ concat bs

module _ (lib : Bson) (driver : Driver lib) where
  open lib use {Document, to_vec}
  open driver use {World}

  -- The documents that a cursor gave, their number and their bytes.
  pub record Collected (count : ℕ) (before : Bytes) (items : List (Result DriverError Bytes))
      (n : ℕ) (bytes : Bytes) : Type 0 where
    pub chunks : List Bytes
    pub given : items ≡ map ok chunks
    pub counted : n ≡ (count + length chunks) % 2 ^ 32
    pub joined : bytes ≡ before ++ concat chunks

  pub collect-Collected :
      (count : ℕ) (before : Bytes) (items : List (Result DriverError Bytes)) {n : ℕ} {bytes : Bytes}
      → count < 2 ^ 32
      → collect lib driver count before items ≡ ok (n, bytes)
      → Collected count before items n bytes
  unfolding collect
  collect-Collected count before [] {n = n} {bytes = bytes} h e =
      let same : ◌≡◌ {A = ℕ × Bytes} (count, before) (n, bytes) = ok_injective e in
      let e₁ : count ≡ n = ap (λ p. p.0) same in
      record {
        chunks = [];
        given = refl;
        counted = omega arith;
        joined = sym (ap (λ p. p.1) same) ∙ sym (append-nil before);
      }
  collect-Collected count before (err x ∷ items) h e = cc e
  collect-Collected count before (ok b ∷ items) h e =
      let r = collect-Collected ((count + 1) % 2 ^ 32) (before ++ b) items (omega arith) e in
      let counted = r.counted in
      record {
        chunks = b ∷ r.chunks;
        given = ap (◌∷◌ (ok b)) r.given;
        counted = omega arith;
        joined = r.joined ∙ append_assoc before b (concat r.chunks);
      }

  -- Documents with their bytes.
  pub data Serialized : List Document → List Bytes → Type 0 where
    nil : Serialized [] []
    cons :
        {d : Document} {b : Bytes} {docs : List Document} {bs : List Bytes}
        → to_vec d ≡ ok b
        → Serialized docs bs
        → Serialized (d ∷ docs) (b ∷ bs)

  -- A cursor whose documents were all serialized has had no error.
  pub all_serialized-Serialized :
      (items : List (Result DriverError Document)) (bs : List Bytes)
      → all_serialized lib driver items ≡ map ok bs
      → (docs : List Document) × (items ≡ map ok docs) × Serialized docs bs
  unfolding all_serialized serialized
  all_serialized-Serialized [] [] h = ([], refl, nil)
  all_serialized-Serialized [] (b ∷ bs) h = cc h
  all_serialized-Serialized (item ∷ items) [] h = cc h
  all_serialized-Serialized (err e ∷ items) (b ∷ bs) h = cc h
  all_serialized-Serialized (ok d ∷ items) (b ∷ bs) h =
      let head : serialized lib driver (ok d) ≡ ok b = cc h in
      let (docs, given, rest) = all_serialized-Serialized items bs (cc h) in
      (d ∷ docs, ap (◌∷◌ (ok d)) given, cons (map_err-eq-ok _ (to_vec d) head) rest)

  -- A timed read that succeeds is a cursor that was opened in time and read to its end.
  pub drain-eq-ok {ℓ κ} :
      {A : Type ℓ} {B : Type κ} (what : String) (loop : A → Result DriverError B)
      (answer : Answer A) {b : B}
      → timed what (drain lib driver loop answer) ≡ ok b
      → (cursor : A) × (answer ≡ some (ok cursor)) × (loop cursor ≡ ok b)
  unfolding timed drain
  drain-eq-ok what loop none h = cc h
  drain-eq-ok what loop (some (err e)) h = cc h
  drain-eq-ok what loop (some (ok cursor)) h = elim (Result-cases (loop cursor)) [
    | inl (b', e) ↦ (cursor, refl, e ∙ ap ok (ok_injective (rw (e, timed) at h)))
    | inr (x, e) ↦ cc (rw (e, timed) at h)
  ]
