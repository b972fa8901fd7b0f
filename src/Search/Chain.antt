-- ===== src/Search/Chain.antt =====
-- Chain: which search an answer comes from.
use mongocore.Prelude.{
  ℕ, String, ◌≡◌, refl, sym, subst, Bool, true, false, Bool-cases, inl, inr, List, [], ◌∷◌, length,
  is_empty, Option, none, some, Result, ok, err,
}
use mongocore.Transport.Codec.{Bson}
use mongocore.Operations.Driver.{Driver, MongoCoreError}
use mongocore.Search.{
  SearchMethod, vector, fulltext, filter, SearchError, not_configured, embedding_error,
  operation_error, Capabilities, Client, Found, found_by, search_embedded, vector_search_internal,
  fulltext_search_internal, or_unfiltered, filter_fallback, or_next, try_fulltext, try_vector,
  search,
}

module _ (lib : Bson) (driver : Driver lib) where
  open lib use {Document, Value}
  open driver use {World}

  abbrev Answer : Type 0
  Answer = Found lib driver

  -- A method that has come to an answer, with the documents of it.
  abbrev pub ComesFrom : Bool → Bool → SearchMethod → List Document → Type 0
  ComesFrom can_vector can_text vector docs = (can_vector ≡ true) × (is_empty docs ≡ false)
  ComesFrom can_vector can_text fulltext docs = (can_text ≡ true) × (is_empty docs ≡ false)
  ComesFrom can_vector can_text filter docs = Unit

  abbrev pub IsOperationError : SearchError → Type 0
  IsOperationError (operation_error message) = Unit
  IsOperationError (embedding_error message) = ⊥
  IsOperationError (not_configured message) = ⊥

  abbrev pub Explained : Bool → Bool → Answer → Type 0
  Explained can_vector can_text (err e, w) = IsOperationError e
  Explained can_vector can_text (ok result, w) =
      (result.total ≡ length result.documents)
      × ComesFrom can_vector can_text result.method result.documents

  -- One search answers with its own method, and counts its documents.
  abbrev FoundBy : SearchMethod → Answer → Type 0
  FoundBy method (err e, w) = Unit
  FoundBy method (ok result, w) =
      (result.total ≡ length result.documents) × (result.method ≡ method)

  found_by-FoundBy :
      (method : SearchMethod) (r : Result MongoCoreError (List Document) × World)
      → FoundBy method (found_by lib driver method r)
  unfolding found_by
  found_by-FoundBy method (err e, w) = tt
  found_by-FoundBy method (ok docs, w) = (refl, refl)

  filter-Explained :
      (v t : Bool) (r : Result MongoCoreError (List Document) × World)
      → Explained v t (found_by lib driver filter r)
  unfolding found_by
  filter-Explained v t (err e, w) = tt
  filter-Explained v t (ok docs, w) = (refl, tt)

  or_unfiltered-Explained :
      (v t : Bool) (database collection : String) (limit : ℕ)
      (r : Result MongoCoreError (List Document) × World)
      → Explained v t (or_unfiltered lib driver database collection limit r)
  unfolding or_unfiltered
  or_unfiltered-Explained v t database collection limit (ok docs, w) =
      filter-Explained v t (ok docs, w)
  or_unfiltered-Explained v t database collection limit (err e, w) = filter-Explained v t _

  search_embedded-FoundBy :
      (database collection index_name field_path : String) (limit : ℕ)
      (vectors : Result String (List Value)) (w : World)
      → FoundBy vector
          (search_embedded lib driver database collection index_name field_path limit vectors w)
  unfolding search_embedded
  search_embedded-FoundBy database collection index_name field_path limit (err e) w = tt
  search_embedded-FoundBy database collection index_name field_path limit (ok []) w = tt
  search_embedded-FoundBy database collection index_name field_path limit (ok (v ∷ vs)) w =
      found_by-FoundBy vector _

  -- An answer of a search that may be given, or of the next one.
  or_next-Explained :
      (v t : Bool) (method : SearchMethod) (next : World → Answer) (r : Answer)
      → ((docs : List Document) → is_empty docs ≡ false → ComesFrom v t method docs)
      → FoundBy method r
      → ((w : World) → Explained v t (next w))
      → Explained v t (or_next lib driver next r)
  unfolding or_next
  or_next-Explained v t method next (err e, w) may f h = h w
  or_next-Explained v t method next (ok result, w) may (total, by) h =
      elim (Bool-cases (is_empty result.documents)) [
        | inl nothing ↦ rw nothing (h w)
        | inr something ↦ rw something (
          total,
          subst (λ m. ComesFrom v t m result.documents) (sym by) (may result.documents something),
        )
      ]

  try_fulltext-Explained :
      (v t : Bool) (next : World → Answer) (database collection query : String) (limit : ℕ)
      (w : World)
      → ((w' : World) → Explained v t (next w'))
      → Explained v t (try_fulltext lib driver t next database collection query limit w)
  unfolding try_fulltext fulltext_search_internal
  try_fulltext-Explained v false next database collection query limit w h = h w
  try_fulltext-Explained v true next database collection query limit w h =
      or_next-Explained v true fulltext next _ (λ docs e. (refl, e)) (found_by-FoundBy fulltext _) h

  try_vector-Explained :
      (v t : Bool) (client : Option (Client lib driver)) (next : World → Answer)
      (database collection query : String) (limit : ℕ) (w : World)
      → ((w' : World) → Explained v t (next w'))
      → Explained v t (try_vector lib driver v client next database collection query limit w)
  unfolding try_vector vector_search_internal
  try_vector-Explained true t (some client) next database collection query limit w h =
      or_next-Explained true t vector next _ (λ docs e. (refl, e))
        (search_embedded-FoundBy database collection "default" "embedding" limit
          (client.embed query) w)
        h
  try_vector-Explained true t none next database collection query limit w h = h w
  try_vector-Explained false t client next database collection query limit w h = h w

  -- An answer of the chain counts its documents; one by vector or by text index comes only where the
  -- deployment can search so, and is not empty; and the chain fails only with an error of the last
  -- search, never for want of a client or of an embedding.
  search-Explained :
      (capabilities : Capabilities) (client : Option (Client lib driver))
      (database collection query : String) (limit : ℕ) (w : World)
      → Explained capabilities.atlas_vector_search capabilities.atlas_search
          (search lib driver capabilities client database collection query limit w)
  unfolding search filter_fallback
  search-Explained capabilities client database collection query limit w =
      let v = capabilities.atlas_vector_search in
      let t = capabilities.atlas_search in
      try_vector-Explained v t client _ database collection query limit w (λ w₁.
        try_fulltext-Explained v t _ database collection query limit w₁
          (λ w₂. or_unfiltered-Explained v t database collection limit _))
