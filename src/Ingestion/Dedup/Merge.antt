-- ===== src/Ingestion/Dedup/Merge.antt =====
-- What a merge of two documents holds.
use mongocore.Prelude.{
  String, str_eq, eq_iff, Bool-cases, ◌≡◌, refl, sym, ap, ◌∙◌, inl, inr, Bool, [], ◌∷◌, Option,
  none, some, or_else, if◌then◌else◌, find, put, find-put, find-put_other,
}
use mongocore.Transport.Codec.{last_field}
use mongocore.Ingestion.Dedup.{Document, merge_documents}

or_else_assoc : {V : Type 0} (a b c : Option V) → or_else (or_else a b) c ≡ or_else a (or_else b c)
or_else_assoc none b c = refl
or_else_assoc (some v) b c = refl

module _ (Value : Type 0) (same_value : Value → Value → Bool) where
  find-put_if :
      (k l : String) (v : Value) (m : Document Value same_value)
      → find str_eq l (put str_eq k v m)
        ≡ or_else (if str_eq k l then some v else none) (find str_eq l m)
  find-put_if k l v m = elim (Bool-cases (str_eq k l)) [
    | inl e ↦ rw (e, sym ((eq_iff k l).0 e)) (find-put str_eq eq_iff k v m)
    | inr e ↦ rw e (find-put_other str_eq eq_iff k l v m e)
  ]

  -- A merged document has under every key the incoming value where there is one, the last if there
  -- are several, and otherwise the existing one.
  pub find-merge_documents :
      (k : String) (incoming existing : Document Value same_value)
      → find str_eq k (merge_documents Value same_value incoming existing)
        ≡ or_else (last_field k incoming) (find str_eq k existing)
  unfolding merge_documents
  find-merge_documents k [] existing = refl
  find-merge_documents k ((j, v) ∷ incoming) existing =
      find-merge_documents k incoming (put str_eq j v existing)
      ∙ ap (or_else (last_field k incoming)) (find-put_if j k v existing)
      ∙ sym (
          or_else_assoc (last_field k incoming) (if str_eq j k then some v else none)
            (find str_eq k existing))
