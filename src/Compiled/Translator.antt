-- ===== src/Compiled/Translator.antt =====
-- src/compiled/translator.rs: an intent becomes a query of the database, from the cache, from a
-- registered template or from a language model, and is validated on the way. A document is what the
-- validator looks into. JSON, hashing, templates, the model and the clock are parameters; the seed of a
-- query is its intent, database and collection.
mod Cleaned
pub mod Validated
use mongocore.Prelude.{
  ℕ, ◌==◌, ◌&&◌, if◌then◌else◌, or_else, unwrap_or, Text, codes, String, str_eq, Bool, true, false,
  List, [], ◌∷◌, ◌++◌, Option, none, some, Result, ok, err, ◌>>=◌, map_err, ok_value, is_ok,
}
use mongocore.Compiled.Validator.{Fields, Rejection, validate_filter, validate_stages}
use mongocore.Compiled.Hierarchy.{Stores, CacheHierarchy}
use mongocore.Compiled.Hierarchy as Levels
unfoldable pub use Cleaned.*

pub data CompiledMql : Type 0 where
  find : (filter : Fields) (options : Option Fields) → CompiledMql
  aggregate : (pipeline : List Fields) → CompiledMql
  vector_search : (search_query : String) (pre_filter : Option Fields) → CompiledMql
  fulltext : (search_query : String) (pre_filter : Option Fields) → CompiledMql
  geo : (filter : Fields) (options : Option Fields) → CompiledMql

unfoldable pub method_of : CompiledMql → String
method_of (find filter options) = "filter"
method_of (aggregate pipeline) = "aggregate"
method_of (vector_search query pre_filter) = "vector_search"
method_of (fulltext query pre_filter) = "fulltext"
method_of (geo filter options) = "geo"

pub data TranslateError : Type 0 where
  no_provider empty_query missing_pipeline : TranslateError
  llm parse_error invalid_filter invalid_json : String → TranslateError
  rejected : Rejection → TranslateError

-- `validate_mql`.
unfoldable pub validate_query : String → Result TranslateError (Unit {0})
validate_query search_query = if str_eq search_query "" then err empty_query else ok tt

unfoldable pub validate_mql : CompiledMql → Result TranslateError (Unit {0})
validate_mql (find filter options) = map_err rejected (validate_filter filter)
validate_mql (geo filter options) = map_err rejected (validate_filter filter)
validate_mql (aggregate pipeline) = map_err rejected (validate_stages pipeline)
validate_mql (vector_search search_query pre_filter) = validate_query search_query
validate_mql (fulltext search_query pre_filter) = validate_query search_query

-- What surrounds the translator.
pub record Services : Type 1 where
  pub Json : Type 0
  pub NlTemplate : Type 0
  pub LlmTemplate : Type 0
  pub World : Type 0
  pub hash : (intent database collection : String) → String
  pub extract : String → Option NlTemplate
  pub now : World → ℕ
  -- A match with its JSON and its method.
  pub try_match : (intent database collection : String) → World → Option (Json × String)
  pub register : LlmTemplate → (method database collection : String) → World → World
  pub provider : Option ((intent database collection : String) → World → Result String Text × World)
  -- The event of a call, and whether it succeeded.
  pub record_llm_call : Bool → World → World
  pub from_str : Text → Result String Json
  pub get : Json → String → Option Json
  pub as_str : Json → Option String
  pub as_array : Json → Option (List Json)
  pub null : Json
  pub to_document : Json → Result String Fields
  pub to_template : Json → Option LlmTemplate

module _ (env : Services) where
  open env use {Json, NlTemplate, LlmTemplate, World}

  pub record CompiledQuery : Type 0 where
    pub hash : String
    pub intent : String
    pub collection : String
    pub database : String
    pub mql : CompiledMql
    pub template : Option NlTemplate
    pub llm_template : Option LlmTemplate
    pub created_at : ℕ

  abbrev pub hash_of : CompiledQuery → String
  hash_of query = query.hash

  abbrev then_do : {A B : Type 0} → Option A → (A → Option B) → Option B
  then_do none f = none
  then_do (some a) f = f a

  -- `value["key"]` is null where the key is missing.
  unfoldable pub at_key : Json → String → Json
  at_key value key = unwrap_or env.null (env.get value key)

  unfoldable pub optional_document : Json → String → Option Fields
  optional_document value key = then_do (env.get value key) (λ v. ok_value (env.to_document v))

  unfoldable pub documents : List Json → Result TranslateError (List Fields)
  documents [] = ok []
  documents (v ∷ vs) =
      map_err parse_error (env.to_document v) >>= λ d. documents vs >>= λ ds. ok (d ∷ ds)

  unfoldable pub query_text : Json → String
  query_text value =
      unwrap_or ""
        (then_do (or_else (env.get value "search_query") (env.get value "query")) env.as_str)

  unfoldable pub filter_with :
      (Fields → Option Fields → CompiledMql) → Json → Result TranslateError CompiledMql
  filter_with make value =
      map_err invalid_filter (env.to_document (at_key value "filter")) >>= λ filter.
      ok (make filter (optional_document value "options"))

  unfoldable pub pipeline_from : Option (List Json) → Result TranslateError CompiledMql
  pipeline_from none = err missing_pipeline
  pipeline_from (some stages) = documents stages >>= λ pipeline. ok (aggregate pipeline)

  unfoldable pub parse_method_response : Json → String → Result TranslateError CompiledMql
  parse_method_response value method =
      if str_eq method "filter"
      then filter_with find value
      else if str_eq method "geo"
      then filter_with geo value
      else if str_eq method "aggregate"
      then pipeline_from (env.as_array (at_key value "pipeline"))
      else if str_eq method "vector_search"
      then ok (vector_search (query_text value) (optional_document value "pre_filter"))
      else if str_eq method "fulltext"
      then ok (fulltext (query_text value) (optional_document value "pre_filter"))
      else ok
          (find (unwrap_or Fields.end (ok_value (env.to_document (at_key value "filter")))) none)

  unfoldable pub old_method : Option String → String
  old_method none = "filter"
  old_method (some type) = if str_eq type "aggregate" then "aggregate" else "filter"

  unfoldable pub method_in : Json → String
  method_in value = elim (then_do (env.get value "method") env.as_str) [
    | some m ↦ m
    | none ↦ old_method (then_do (env.get value "type") env.as_str)
  ]

  unfoldable pub parse_llm_response :
      Text → Result TranslateError (CompiledMql × Option LlmTemplate)
  parse_llm_response response = map_err invalid_json (env.from_str (cleaned response)) >>= λ value.
      parse_method_response value (method_in value) >>= λ mql.
      ok (mql, then_do (env.get value "template") env.to_template)

  module _ (stores : Stores CompiledQuery) where
    abbrev pub Cache : Type 0
    Cache = CacheHierarchy CompiledQuery hash_of stores

    pub record Translator : Type 0 where
      pub cache : Cache
      pub world : World

    abbrev pub Translated : Type 0
    Translated = Result TranslateError CompiledQuery × Translator

    module _ (intent database collection : String) where
      abbrev query_hash : String
      query_hash = env.hash intent database collection

      unfoldable pub compile : CompiledMql → Option LlmTemplate → World → CompiledQuery
      compile mql llm_template w = record {
        hash = query_hash;
        intent = intent;
        collection = collection;
        database = database;
        mql = mql;
        template = env.extract intent;
        llm_template = llm_template;
        created_at = env.now w;
      }

      unfoldable pub store_query : CompiledQuery → Translator → Translated
      store_query query t =
          (ok query, record t { cache = Levels.put CompiledQuery hash_of stores query t.cache })

      -- A query of a template, validated and stored.
      unfoldable pub from_template : Result TranslateError CompiledMql → Translator → Translated
      from_template (err e) t = (err e, t)
      from_template (ok mql) t = elim (validate_mql mql) [
        | err e ↦ (err e, t)
        | ok _ ↦ store_query (compile mql none t.world) t
      ]

      abbrev registered : CompiledMql → Option LlmTemplate → World → World
      registered mql none w = w
      registered mql (some template) w = env.register template (method_of mql) database collection w

      -- A query of the language model, validated, its template registered, and stored.
      unfoldable pub from_response :
          Result TranslateError (CompiledMql × Option LlmTemplate) → Translator → Translated
      from_response (err e) t = (err e, t)
      from_response (ok (mql, llm_template)) t = elim (validate_mql mql) [
        | err e ↦ (err e, t)
        | ok _ ↦
            let w = registered mql llm_template t.world in
            store_query (compile mql llm_template w) (record t { world = w })
      ]

      unfoldable pub parsed_answer :
          Result String Text → Result TranslateError (CompiledMql × Option LlmTemplate)
      parsed_answer answer = map_err llm answer >>= parse_llm_response

      unfoldable pub answered : Translator → Result String Text × World → Translated
      answered t (answer, w) =
          from_response (parsed_answer answer)
            (record t { world = env.record_llm_call (is_ok answer) w })

      unfoldable pub ask_provider :
          Option ((intent database collection : String) → World → Result String Text × World)
          → Translator
          → Translated
      ask_provider none t = (err no_provider, t)
      ask_provider (some ask) t = answered t (ask intent database collection t.world)

      unfoldable pub match_template : Option (Json × String) → Translator → Translated
      match_template none t = ask_provider env.provider t
      match_template (some (mql_json, method)) t =
          from_template (parse_method_response mql_json method) t

      unfoldable pub look_up : Translator → Option CompiledQuery × Cache → Translated
      look_up t (some query, cache) = (ok query, record t { cache = cache })
      look_up t (none, cache) =
          match_template (env.try_match intent database collection t.world)
            (record t { cache = cache })

      unfoldable pub translate : Translator → Translated
      translate t = look_up t (Levels.get CompiledQuery hash_of stores query_hash t.cache)
