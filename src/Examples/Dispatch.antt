-- ===== src/Examples/Dispatch.antt =====
-- The theorems on dispatched requests and on batches, at a database that is a list of documents.
use mongocore.Prelude.{
  ◌%◌, ◌^◌, ◌≤◌, ◌==◌, str_eq, eq_iff, if◌then◌else◌, Bytes, String, ◌≡◌, refl, subst, ◌↔◌, true,
  false, Bool-cases, inl, inr, List, [], ◌∷◌, ◌++◌, length, map, some, none, Result, ok, err, arith,
}
use mongocore.Transport.Codec.{Bson, OperationRequest, last_field, and_then, error_response}
use mongocore.Operations.Driver.{Driver, other_kind}
use mongocore.Operations.Crud.{
  aggregate_raw, requires_local_read_concern, default_aggregation_timeout, limited, drain, collect,
  all_serialized, serialized,
}
use mongocore.Operations.Driver.{timed}
use mongocore.Operations.Admin.Blocked.{IsBlocked, here}
use mongocore.Compiled.Validator.{contains_str}
use mongocore.Transport.Dispatch.{parse_bson_docs, length_prefix, dispatch}
use mongocore.Transport.Dispatch.Documents.{Chunks, parse_bson_docs_iff}
use mongocore.Transport.Dispatch.Batches.{parse_bson_docs-aggregate_raw}
use mongocore.Transport.Dispatch.Refusals.{fits, dispatch-fits, Refused, dispatch-Refused}
use mongocore.Transport.Prefetch.{Advanced, document, undecodable, prefetch_loop}
use mongocore.Transport.Prefetch.Batches.{
  documents_of, all_documents, Batched, prefetch_loop-Batched, prefetch_loop-documents,
}
use mongocore.Examples.Instances.{Item, int, flag, other, Doc, as_int, as_text, as_flag}

-- The empty document, and one with a number under "x".
abbrev write_short : Doc → Result String Bytes
write_short [] = ok (5 ∷ 0 ∷ 0 ∷ 0 ∷ 0 ∷ [])
write_short ((k, int n) ∷ []) = if str_eq k "x" then ok (6 ∷ 0 ∷ 0 ∷ 0 ∷ n ∷ 0 ∷ []) else err "key"
write_short _ = err "document"

abbrev read_short : Bytes → Result String Doc
read_short (t ∷ _ ∷ _ ∷ _ ∷ _ ∷ []) = ok []
read_short (t ∷ _ ∷ _ ∷ _ ∷ n ∷ _ ∷ []) = ok (("x", int n) ∷ [])
read_short _ = err "bytes"

-- What a document is written as, if at all.
pub write_short-cases :
    (d : Doc) (bytes : Bytes)
    → write_short d ≡ ok bytes
    → (read_short bytes ≡ ok d) × (length_prefix bytes ≡ some (length bytes)) × (5 ≤ length bytes)
unfolding length_prefix
write_short-cases [] bytes h =
    let same : ◌≡◌ {A = Bytes} (5 ∷ 0 ∷ 0 ∷ 0 ∷ 0 ∷ []) bytes = cc h in
    subst
      (λ (bs : Bytes).
        (read_short bs ≡ ok []) × (length_prefix bs ≡ some (length bs)) × (5 ≤ length bs))
      same (refl, refl, omega arith)
write_short-cases ((k, int n) ∷ []) bytes h = elim (Bool-cases (str_eq k "x")) [
  | inr e ↦ cc (rw e at h)
  | inl e ↦
      let out : ◌≡◌ {A = Result String Bytes} (ok (6 ∷ 0 ∷ 0 ∷ 0 ∷ n ∷ 0 ∷ [])) (ok bytes) =
        rw e at h in
      let same : ◌≡◌ {A = Bytes} (6 ∷ 0 ∷ 0 ∷ 0 ∷ n ∷ 0 ∷ []) bytes = cc out in
      let key = (eq_iff k "x").0 e in
      subst
        (λ (bs : Bytes).
          (read_short bs ≡ ok ((k, int n) ∷ []))
          × (length_prefix bs ≡ some (length bs))
          × (5 ≤ length bs))
        same (rw key refl, refl, omega arith)
]
write_short-cases _ bytes h = cc h

abbrev pub short_bson : Bson
short_bson = record {
  Document = Doc;
  Value = Item;
  new = [];
  from_slice = read_short;
  to_vec = write_short;
  get_str = λ d k. and_then (last_field k d) as_text;
  get_document = λ d k. none;
  get_i32 = λ d k. and_then (last_field k d) as_int;
  get_i64 = λ d k. and_then (last_field k d) as_int;
  get_bool = λ d k. and_then (last_field k d) as_flag;
  get_array = λ d k. none;
  as_document = λ v. none;
  as_i32 = as_int;
  i32 = int;
  i64 = int;
  string = λ message. other;
  boolean = flag;
  array = λ items. other;
  doc = λ fields. fields;
  as_i32-i32 = λ n. refl;
  get_i32-doc = λ fields k. refl;
  from_slice-to_vec = λ d bytes h. (write_short-cases d bytes h).0;
}

abbrev field_names : Doc → List String
field_names d = map (λ f. f.0) d

-- One collection. An insertion takes all documents, every read gives all of them.
abbrev pub list_driver : Driver short_bson
list_driver = record {
  World = List Doc;
  find_raw = λ t db c f o w. (some (ok []), w);
  find = λ t db c f o w. (some (ok (map ok w)), w);
  find_one = λ t db c f w. (some (ok none), w);
  insert_one = λ t db c d w. (some (ok (int 1)), w ++ d ∷ []);
  insert_many = λ t db c ds w. (some (ok (map (λ d. int 1) ds)), w ++ ds);
  update_one = λ t db c f u w. (none, w);
  update_many = λ t db c f u w. (none, w);
  delete_one = λ t db c f w. (some (ok 0), w);
  delete_many = λ t db c f w. (some (ok (length w)), []);
  count_documents = λ t db c f w. (some (ok (length w)), w);
  find_one_and_update = λ t db c f u o w. (some (ok none), w);
  aggregate = λ t b db c p w. (some (ok (map ok w)), w);
  create_collection = λ t db c w. (some (ok tt), w);
  drop_collection = λ t db c w. (some (ok tt), []);
  create_index = λ t db c k o w. (some (ok "index"), w);
  run_command = λ db c w. (ok [], []);
  list_collection_names = λ db w. (ok [], w);
  distinct = λ db c k f w. (ok [], w);
  run_command_within = λ t db c w. (some (ok []), w);
  custom = λ message. record { kind = other_kind; message = message };
  keys = field_names;
  document = λ d. other;
  contains_key = λ d k. false;
  value_to_string = λ v. "id";
  show = λ n. "n";
}

abbrev nine : Doc
nine = ("x", int 9) ∷ []

abbrev two_docs : List Doc
two_docs = [] ∷ nine ∷ []

abbrev two_docs_raw : Bytes
two_docs_raw = 5 ∷ 0 ∷ 0 ∷ 0 ∷ 0 ∷ 6 ∷ 0 ∷ 0 ∷ 0 ∷ 9 ∷ 0 ∷ []

parse_bson_docs_example :
    (parse_bson_docs short_bson two_docs_raw ≡ ok two_docs)
    ↔ Chunks short_bson two_docs two_docs_raw
parse_bson_docs_example = parse_bson_docs_iff short_bson two_docs two_docs_raw

two_docs-Chunks : Chunks short_bson two_docs two_docs_raw
unfolding length_prefix
two_docs-Chunks =
    Chunks.cons [] (5 ∷ 0 ∷ 0 ∷ 0 ∷ 0 ∷ [])
      (record { states = refl; least = omega arith; parses = refl })
      (Chunks.cons nine (6 ∷ 0 ∷ 0 ∷ 0 ∷ 9 ∷ 0 ∷ [])
        (record { states = refl; least = omega arith; parses = refl }) Chunks.nil)

aggregate_raw_example :
    (docs : List Doc) × ((list_driver.aggregate default_aggregation_timeout
        (requires_local_read_concern short_bson list_driver [])
        "shop"
        "items"
        []
        two_docs).0
      ≡ some (ok (map ok docs)))
    × (parse_bson_docs short_bson two_docs_raw ≡ ok docs)
    × (2 ≡ length docs % 2 ^ 32)
unfolding aggregate_raw limited drain collect all_serialized serialized timed
aggregate_raw_example =
    parse_bson_docs-aggregate_raw short_bson list_driver
      (λ d bytes h. let (parses, states, least) = write_short-cases d bytes h in (states, least))
      "shop" "items" [] two_docs 2 two_docs_raw refl

dispatch-fits_example :
    fits
      (OperationRequest.count_documents "shop" "items" nine)
      (dispatch short_bson list_driver
        (OperationRequest.count_documents "shop" "items" nine)
        []
        two_docs).0
    ≡ true
dispatch-fits_example =
    dispatch-fits short_bson list_driver (OperationRequest.count_documents "shop" "items" nine) []
      two_docs

abbrev stop_server : Doc
stop_server = ("shutdown", int 1) ∷ []

stop_server-IsBlocked : IsBlocked (field_names stop_server)
unfolding contains_str
stop_server-IsBlocked = here refl

dispatch-Refused_example :
    (message : String) × (dispatch short_bson list_driver
        (OperationRequest.run_command "admin" stop_server)
        []
        two_docs
      ≡ (error_response 1 message, two_docs))
unfolding Refused
dispatch-Refused_example =
    dispatch-Refused short_bson list_driver (OperationRequest.run_command "admin" stop_server) []
      two_docs stop_server-IsBlocked

-- Three documents, and one between them that cannot be read.
abbrev four_reads : List Advanced
four_reads = document (1 ∷ []) ∷ undecodable "bad" ∷ document (2 ∷ 3 ∷ []) ∷ document (4 ∷ []) ∷ []

prefetch_loop-Batched_example : Batched 2 (prefetch_loop 2 (λ k. k == 0) four_reads)
prefetch_loop-Batched_example = prefetch_loop-Batched 2 (λ k. k == 0) four_reads

prefetch_loop-documents_example :
    all_documents (prefetch_loop 2 (λ k. true) four_reads) ≡ documents_of four_reads
prefetch_loop-documents_example = prefetch_loop-documents 2 (λ k. true) (λ k. refl) four_reads
