-- ===== src/Ingestion/Schema/Widening.antt =====
-- Widening: two types are joined in an order.
use mongocore.Prelude.{◌≡◌, refl, sym, ap, Bool, true, false, ◌&&◌, str_eq, eq_iff, eq_refl, arith}
use mongocore.Ingestion.Schema.{
  BsonType, SchemaFields, string, int32, int64, double, boolean, date_time, null, binary, object_id,
  document, array, end, field, same_type, same_fields, same_bool,
}

-- Each value of the first type can be stored under the second one: null fits every type, the numbers
-- fit the wider ones, everything fits a string, and an array fits by its elements.
pub data Fits : BsonType → BsonType → Type 0 where
  same : {a : BsonType} → Fits a a
  null_any : {b : BsonType} → Fits null b
  int32_int64 : Fits int32 int64
  int32_double : Fits int32 double
  int64_double : Fits int64 double
  any_string : {a : BsonType} → Fits a string
  arrays : {a b : BsonType} → Fits a b → Fits (array a) (array b)

same_bool_refl : (b : Bool) → same_bool b b ≡ true
same_bool_refl true = refl
same_bool_refl false = refl

mutual
  unfolding same_type

  same_type_refl : (a : BsonType) → same_type a a ≡ true
  same_type_refl string = refl
  same_type_refl int32 = refl
  same_type_refl int64 = refl
  same_type_refl double = refl
  same_type_refl boolean = refl
  same_type_refl date_time = refl
  same_type_refl null = refl
  same_type_refl binary = refl
  same_type_refl object_id = refl
  same_type_refl (document fields) = same_fields_refl fields
  same_type_refl (array a) = same_type_refl a

  same_fields_refl : (fs : SchemaFields) → same_fields fs fs ≡ true
  same_fields_refl end = refl
  same_fields_refl (field n a p fs) =
      rw (eq_refl n, same_type_refl a, same_bool_refl p) (same_fields_refl fs)

and_parts : (p q : Bool) → (p && q) ≡ true → (p ≡ true) × (q ≡ true)
and_parts true q h = (refl, h)
and_parts false q h = cc

same_bool-eq : (p q : Bool) → same_bool p q ≡ true → p ≡ q
same_bool-eq true q h = sym h
same_bool-eq false true h = cc
same_bool-eq false false h = refl

mutual
  unfolding same_type

  same_type-eq : (a b : BsonType) → same_type a b ≡ true → a ≡ b
  same_type-eq (document fs) (document gs) h = ap document (same_fields-eq fs gs h)
  same_type-eq (array a) (array b) h = ap array (same_type-eq a b h)
  same_type-eq _ _ h = ground arith

  same_fields-eq : (fs gs : SchemaFields) → same_fields fs gs ≡ true → fs ≡ gs
  same_fields-eq end end h = refl
  same_fields-eq (field m a p fs) (field n b q gs) h =
      let named = and_parts (str_eq m n) _ h in
      let typed = and_parts (same_type a b) _ named.1 in
      let flagged = and_parts (same_bool p q) _ typed.1 in
      let e : a ≡ b = same_type-eq a b typed.0 in
      let es : fs ≡ gs = same_fields-eq fs gs flagged.1 in
      cc ((eq_iff m n).0 named.0, e, same_bool-eq p q flagged.0, es)
  same_fields-eq end (field n b q gs) h = cc
  same_fields-eq (field m a p fs) end h = cc
