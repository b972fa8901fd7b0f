-- ===== src/Search.antt =====
-- src/search: the chain of searches, by vector, by text index and by filter. The client of the
-- embeddings is a parameter; a limit is the bit pattern of an i64.
pub mod Chain
use mongocore.Prelude.{
  ℕ, ◌*◌, ◌%◌, ◌^◌, if◌then◌else◌, String, Bool, true, false, List, [], ◌∷◌, length, is_empty, map,
  Option, none, some, Result, ok, err,
}
use mongocore.Transport.Codec.{Bson, FindOptions}
use mongocore.Operations.Driver.{Driver, MongoCoreError, to_string}
use mongocore.Operations.Crud.{find, aggregate}

pub data SearchMethod : Type 0 where
  vector fulltext filter : SearchMethod

pub data SearchError : Type 0 where
  not_configured embedding_error operation_error : String → SearchError

pub record SearchResult (Document : Type 0) : Type 0 where
  pub documents : List Document
  pub method : SearchMethod
  pub total : ℕ

pub record Capabilities : Type 0 where
  pub server_version : String
  pub atlas_vector_search : Bool
  pub atlas_search : Bool

module _ (lib : Bson) (driver : Driver lib) where
  open lib use {Document, Value, doc, string, array, i64}
  open driver use {World, document}

  -- The client of the embeddings: the vectors of one text, each as its BSON array.
  pub record Client : Type 0 where
    pub embed : String → Result String (List Value)

  unfoldable pub vector_pipeline :
      (index_name field_path : String) → Value → (num_candidates limit : ℕ) → List Document
  vector_pipeline index_name field_path query_vector num_candidates limit =
      doc (
        (
          "$vectorSearch",
          document (
              doc (
                ("index", string index_name)
                ∷ ("path", string field_path)
                ∷ ("queryVector", query_vector)
                ∷ ("numCandidates", i64 num_candidates)
                ∷ ("limit", i64 limit)
                ∷ [])),
        )
        ∷ [])
      ∷ doc (
          (
            "$addFields",
            document (
                doc (
                  ("search_score", document (doc (("$meta", string "vectorSearchScore") ∷ [])))
                  ∷ [])),
          )
          ∷ [])
      ∷ []

  unfoldable pub fulltext_pipeline :
      (index_name query : String) → List String → (limit : ℕ) → List Document
  fulltext_pipeline index_name query search_fields limit =
      doc (
        (
          "$search",
          document (
              doc (
                ("index", string index_name)
                ∷ (
                  "text",
                  document (
                      doc (
                        ("query", string query) ∷ ("path", array (map string search_fields)) ∷ [])),
                )
                ∷ [])),
        )
        ∷ [])
      ∷ doc (
          (
            "$addFields",
            document (
                doc (("search_score", document (doc (("$meta", string "searchScore") ∷ []))) ∷ [])),
          )
          ∷ [])
      ∷ doc (("$limit", i64 limit) ∷ [])
      ∷ []

  abbrev pub Found : Type 0
  Found = Result SearchError (SearchResult Document) × World

  unfoldable pub found_by : SearchMethod → Result MongoCoreError (List Document) × World → Found
  found_by method (err e, w) = (err (operation_error (to_string e)), w)
  found_by method (ok docs, w) =
      (ok (record { documents = docs; method = method; total = length docs }), w)

  unfoldable pub search_embedded :
      (database collection index_name field_path : String) (limit : ℕ)
      → Result String (List Value)
      → World
      → Found
  search_embedded database collection index_name field_path limit (err e) w =
      (err (embedding_error e), w)
  search_embedded database collection index_name field_path limit (ok []) w =
      (err (embedding_error "No embedding returned"), w)
  search_embedded database collection index_name field_path limit (ok (query_vector ∷ rest)) w =
      found_by vector (
        aggregate lib driver database collection
          (vector_pipeline index_name field_path query_vector (limit * 10 % 2 ^ 64) limit) w)

  unfoldable pub vector_search_internal :
      Client → (database collection query : String) → ℕ → World → Found
  vector_search_internal client database collection query limit w =
      search_embedded database collection "default" "embedding" limit (client.embed query) w

  -- `vector_search`, the direct one.
  unfoldable pub vector_search :
      Option Client → (database collection query index_name field_path : String) → ℕ → World → Found
  vector_search none database collection query index_name field_path limit w =
      (err (not_configured "Voyage AI client not configured"), w)
  vector_search (some client) database collection query index_name field_path limit w =
      search_embedded database collection index_name field_path limit (client.embed query) w

  unfoldable pub fulltext_search_internal : (database collection query : String) → ℕ → World → Found
  fulltext_search_internal database collection query limit w = found_by fulltext (
      aggregate lib driver database collection (fulltext_pipeline "default" query ("*" ∷ []) limit)
        w)

  abbrev pub limited_to : ℕ → Option (FindOptions Document)
  limited_to limit =
      some (record { limit = some limit; skip = none; sort = none; projection = none })

  abbrev pub text_filter : String → Document
  text_filter query = doc (("$text", document (doc (("$search", string query) ∷ []))) ∷ [])

  -- The filter is dropped where the text search fails.
  unfoldable pub or_unfiltered :
      (database collection : String) → ℕ → Result MongoCoreError (List Document) × World → Found
  or_unfiltered database collection limit (ok docs, w) = found_by filter (ok docs, w)
  or_unfiltered database collection limit (err e, w) =
      found_by filter (find lib driver database collection (doc []) (limited_to limit) w)

  unfoldable pub filter_fallback : (database collection query : String) → ℕ → World → Found
  filter_fallback database collection query limit w =
      or_unfiltered database collection limit
        (find lib driver database collection (text_filter query) (limited_to limit) w)

  -- `Ok(result) if !result.documents.is_empty()`, and otherwise the next search.
  unfoldable pub or_next : (World → Found) → Found → Found
  or_next next (err e, w) = next w
  or_next next (ok result, w) = if is_empty result.documents then next w else (ok result, w)

  unfoldable pub try_fulltext :
      Bool → (World → Found) → (database collection query : String) → ℕ → World → Found
  try_fulltext false next database collection query limit w = next w
  try_fulltext true next database collection query limit w =
      or_next next (fulltext_search_internal database collection query limit w)

  unfoldable pub try_vector :
      Bool
      → Option Client
      → (World → Found)
      → (database collection query : String) → ℕ
      → World
      → Found
  try_vector true (some client) next database collection query limit w =
      or_next next (vector_search_internal client database collection query limit w)
  try_vector true none next database collection query limit w = next w
  try_vector false client next database collection query limit w = next w

  unfoldable pub search :
      Capabilities → Option Client → (database collection query : String) → ℕ → World → Found
  search capabilities client database collection query limit w =
      try_vector capabilities.atlas_vector_search client
        (λ w₁.
          try_fulltext capabilities.atlas_search
            (λ w₂. filter_fallback database collection query limit w₂) database collection query
            limit w₁)
        database collection query limit w
