-- ===== src/Examples/Translator.antt =====
-- The theorems on the cache of queries and on the translator, with a model that always answers the
-- empty filter, and a collection of queries without files.
use mongocore.Prelude.{
  not, codes, String, str_eq, if◌then◌else◌, ◌≡◌, refl, Bool, true, false, List, [], ◌∷◌, length,
  Option, none, some, ok, find, put, retain,
}
use mongocore.Compiled.Validator.{Fields, validate_filter, check_fields}
use mongocore.Compiled.MemoryCache as L1
use mongocore.Compiled.Hierarchy.{
  Stores, CacheHierarchy, from_l1, get_l2, get_l3, from_l3, atlas_get, and_then, disk_put,
  atlas_put,
}
use mongocore.Compiled.Hierarchy as Levels
use mongocore.Compiled.Hierarchy.Lookup.{get-get}
use mongocore.Compiled.Hierarchy.Tally.{IsTallied}
use mongocore.Compiled.Hierarchy.Tally.Runs.{begin, getting, putting, Run-IsTallied}
use mongocore.Compiled.Translator.{
  CompiledMql, Services, CompiledQuery, hash_of, Translator, translate, look_up, match_template,
  ask_provider, answered, parsed_answer, parse_llm_response, method_in, parse_method_response,
  filter_with, at_key, optional_document, from_response, validate_mql, store_query, compile,
  old_method,
}
use mongocore.Compiled.Translator.Validated.{Sound, translate-Sound, translate-again}

-- A value answers itself under "filter", and nothing else.
abbrev only_filter : String → String → Option String
only_filter value k = if str_eq k "filter" then some value else none

abbrev service : Services
service = record {
  Json = String;
  NlTemplate = String;
  LlmTemplate = String;
  World = List Bool;
  hash = λ intent database collection. intent;
  extract = λ intent. none;
  now = λ w. length w;
  try_match = λ i d c w. none;
  register = λ t m d c w. w;
  provider = some (λ i d c w. (ok (codes "{}"), w));
  record_llm_call = λ success w. success ∷ w;
  from_str = λ text. ok "any";
  get = only_filter;
  as_str = λ v. some v;
  as_array = λ v. none;
  null = "";
  to_document = λ v. ok Fields.end;
  to_template = λ v. none;
}

abbrev Query : Type 0
Query = CompiledQuery service

abbrev collection_only : Stores Query
collection_only = record {
  World = List (String × Query);
  Document = Query;
  read_to_string = λ path w. none;
  write = λ path text w. w;
  exists = λ path w. false;
  remove_file = λ path w. w;
  join = λ directory file. file;
  json_to_string = λ query. none;
  json_from_str = λ text. none;
  find_one = λ hash w. find str_eq hash w;
  replace_one = λ hash d w. put str_eq hash d w;
  delete_one = λ hash w. retain str_eq (λ k. not (str_eq k hash)) w;
  find_all = λ w. [];
  to_document = some;
  from_document = some;
}

abbrev everything : Query
everything = record {
  hash = "all users";
  intent = "all users";
  collection = "users";
  database = "shop";
  mql = CompiledMql.find Fields.end none;
  template = none;
  llm_template = none;
  created_at = 1;
}

abbrev Cache : Type 0
Cache = CacheHierarchy Query (hash_of service) collection_only

-- The collection holds a query that the memory does not.
abbrev cold : Cache
cold = record {
  l1 = record { entries = []; max_size = 2; counter = 0 };
  l2 = none;
  l3 = true;
  stats = Levels.no_stats;
  world = ("all users", everything) ∷ [];
}

get-get_example :
    (Levels.get Query
      (hash_of service)
      collection_only
      "all users"
      (Levels.get Query (hash_of service) collection_only "all users" cold).1).0
    ≡ some everything
unfolding Levels.get L1.get from_l1 get_l2 get_l3 from_l3 atlas_get and_then find
get-get_example =
    get-get Query (hash_of service) collection_only "all users" everything cold refl refl

Run-IsTallied_example :
    IsTallied Query
      (hash_of service)
      collection_only
      2
      none
      true
      (Levels.get Query (hash_of service) collection_only "new users" (
        Levels.put Query
          (hash_of service)
          collection_only
          everything
          (Levels.get Query (hash_of service) collection_only "all users" cold).1)).1.stats
Run-IsTallied_example =
    Run-IsTallied Query (hash_of service) collection_only
      (getting "new users" (putting everything (getting "all users" begin))) refl

abbrev empty_state : Translator service collection_only
empty_state = record {
  cache = Levels.new Query (hash_of service) collection_only 2 none true [];
  world = [];
}

translate-Sound_example :
    Sound service collection_only "all users" "shop" "users"
      (Levels.get Query (hash_of service) collection_only "all users" empty_state.cache)
      (translate service collection_only "all users" "shop" "users" empty_state)
translate-Sound_example =
    translate-Sound service collection_only "all users" "shop" "users" empty_state

-- The state after the model was asked.
abbrev asked_state : Translator service collection_only
asked_state = (translate service collection_only "all users" "shop" "users" empty_state).1

translate-again_example :
    translate service collection_only "all users" "shop" "users" asked_state ≡ (
      ok everything,
      record asked_state {
        cache =
            (Levels.get Query (hash_of service) collection_only "all users" asked_state.cache).1;
      },
    )
unfolding translate look_up Levels.get Levels.new L1.new L1.get from_l1 get_l2 get_l3 from_l3
    atlas_get and_then find match_template ask_provider answered parsed_answer parse_llm_response
    method_in parse_method_response filter_with at_key optional_document from_response validate_mql
    validate_filter check_fields store_query compile old_method
translate-again_example =
    translate-again service collection_only "all users" "shop" "users" empty_state asked_state
      everything refl refl
