-- ===== src/Transport/Dispatch/Refusals.antt =====
-- Refusals: the requests that never reach the database, and the responses that a request can have.
use mongocore.Prelude.{
  ℕ, ◌==◌, ◌≡◌, refl, ltb, inl, inr, Bool, true, false, Bytes, String, List, Option, none, some,
  Result, ok, err, map_err-eq-ok, ◌≤◌, Bool-cases, length, arith,
}
use mongocore.Transport.Codec.{
  Bson, OperationRequest, OperationResponse, single_doc, batch, insert_one_result,
  insert_many_result, update_result, delete_result, count_result, index_result, collections,
  command_result, error_response,
}
use mongocore.Operations.Driver.{Driver, MongoCoreError, validation_error, to_string}
use mongocore.Operations.Admin.Blocked.{IsBlocked, run_command-IsBlocked}
use mongocore.Transport.Dispatch.{
  parse_single_bson_doc, parse_bson_docs, dispatch, reply_with, with_docs, insert_parsed, display,
  failure, single_response, serialized_as, to_error_response, Malformed, create_index_reply,
  list_collections_reply, create_collection_reply, drop_collection_reply, distinct_reply,
  find_one_and_update_reply, find_one_and_delete_reply,
}
use mongocore.Transport.Dispatch.Documents.{Chunks, parse_bson_docs_iff}

-- The response is of the kind of the request, or an error of code 1.
unfoldable pub fits : {D : Type 0} → OperationRequest D → OperationResponse → Bool
fits request (error_response code message) = code == 1
fits (OperationRequest.find_one _ _ _ _) (single_doc _ _) = true
fits (OperationRequest.find _ _ _ _ _ _) (batch _ _) = true
fits (OperationRequest.insert_one _ _ _) (insert_one_result _) = true
fits (OperationRequest.insert_many _ _ _ _) (insert_many_result _) = true
fits (OperationRequest.update_one _ _ _ _) (update_result _ _) = true
fits (OperationRequest.update_many _ _ _ _) (update_result _ _) = true
fits (OperationRequest.delete_one _ _ _) (delete_result _) = true
fits (OperationRequest.delete_many _ _ _) (delete_result _) = true
fits (OperationRequest.aggregate _ _ _ _) (batch _ _) = true
fits (OperationRequest.count_documents _ _ _) (count_result _) = true
fits (OperationRequest.run_command _ _) (command_result _) = true
fits (OperationRequest.create_index _ _ _ _ _) (index_result _) = true
fits (OperationRequest.list_collections _) (collections _) = true
fits (OperationRequest.create_collection _ _) (single_doc _ none) = true
fits (OperationRequest.drop_collection _ _) (single_doc _ none) = true
fits (OperationRequest.distinct _ _ _ _) (command_result _) = true
fits (OperationRequest.find_one_and_update _ _ _ _) (single_doc _ _) = true
fits (OperationRequest.find_one_and_delete _ _ _) (single_doc _ _) = true
fits (OperationRequest.bulk_write _ _ _ _) (insert_many_result _) = true
fits _ _ = false

module _ (lib : Bson) (driver : Driver lib) where
  open lib use {Document, Value, from_slice, to_vec}
  open driver use {World, keys}

  module _ (request : OperationRequest Document) where
    abbrev Fits : OperationResponse → Type 0
    Fits response = fits request response ≡ true

    Fits-failure : (message : String) → Fits (failure message)
    unfolding fits
    Fits-failure message = refl

    Fits-reply_with {ℓ} :
        {A : Type ℓ} (respond : A → OperationResponse) (r : Result MongoCoreError A × World)
        → ((a : A) → Fits (respond a))
        → Fits (reply_with lib driver respond r).0
    unfolding reply_with to_error_response
    Fits-reply_with respond (ok a, w) h = h a
    Fits-reply_with respond (err e, w) h = Fits-failure _

    Fits-serialized_as :
        (failed : String) (respond : Bytes → OperationResponse) (r : Result String Bytes)
        → ((raw : Bytes) → Fits (respond raw))
        → Fits (serialized_as lib driver failed respond r)
    unfolding serialized_as
    Fits-serialized_as failed respond (ok raw) h = h raw
    Fits-serialized_as failed respond (err e) h = Fits-failure _

    Fits-single_response :
        (d : Option Document)
        → ((is_ok : Bool) (raw : Option Bytes) → Fits (single_doc is_ok raw))
        → Fits (single_response lib driver d)
    unfolding single_response
    Fits-single_response none h = h true none
    Fits-single_response (some d) h = Fits-serialized_as _ _ (to_vec d) (λ raw. h true (some raw))

    Fits-with_docs {ℓ} :
        {A : Type ℓ} (r : Result Malformed A) (next : A → World → OperationResponse × World)
        (w : World)
        → ((a : A) → Fits (next a w).0)
        → Fits (with_docs lib driver r next w).0
    unfolding with_docs
    Fits-with_docs (ok docs) next w h = h docs
    Fits-with_docs (err e) next w h = Fits-failure _

  -- Every request that is dispatched gets a response of its own kind, or an error of code 1.
  pub dispatch-fits :
      (request : OperationRequest Document) (raw : Bytes) (w : World)
      → fits request (dispatch lib driver request raw w).0 ≡ true
  unfolding dispatch fits insert_parsed create_index_reply list_collections_reply
      create_collection_reply drop_collection_reply distinct_reply find_one_and_update_reply
      find_one_and_delete_reply
  dispatch-fits (OperationRequest.handshake client) raw w = refl
  dispatch-fits (OperationRequest.find_one a b c d) raw w =
      Fits-reply_with (OperationRequest.find_one a b c d) _ _
        (λ o. Fits-single_response (OperationRequest.find_one a b c d) o (λ _ _. refl))
  dispatch-fits (OperationRequest.find a b c d e f) raw w =
      Fits-reply_with (OperationRequest.find a b c d e f) _ _ (λ _. refl)
  dispatch-fits (OperationRequest.insert_one a b n) raw w =
      Fits-with_docs (OperationRequest.insert_one a b n) (parse_single_bson_doc lib raw) _ w
        (λ d. Fits-reply_with (OperationRequest.insert_one a b n) _ _ (λ _. refl))
  dispatch-fits (OperationRequest.insert_many a b o n) raw w =
      Fits-with_docs (OperationRequest.insert_many a b o n) (parse_bson_docs lib raw) _ w
        (λ d. Fits-reply_with (OperationRequest.insert_many a b o n) _ _ (λ _. refl))
  dispatch-fits (OperationRequest.bulk_write a b n o) raw w =
      Fits-with_docs (OperationRequest.bulk_write a b n o) (parse_bson_docs lib raw) _ w
        (λ d. Fits-reply_with (OperationRequest.bulk_write a b n o) _ _ (λ _. refl))
  dispatch-fits (OperationRequest.update_one a b c d) raw w =
      Fits-reply_with (OperationRequest.update_one a b c d) _ _ (λ _. refl)
  dispatch-fits (OperationRequest.update_many a b c d) raw w =
      Fits-reply_with (OperationRequest.update_many a b c d) _ _ (λ _. refl)
  dispatch-fits (OperationRequest.delete_one a b c) raw w =
      Fits-reply_with (OperationRequest.delete_one a b c) _ _ (λ _. refl)
  dispatch-fits (OperationRequest.delete_many a b c) raw w =
      Fits-reply_with (OperationRequest.delete_many a b c) _ _ (λ _. refl)
  dispatch-fits (OperationRequest.aggregate a b c d) raw w =
      Fits-reply_with (OperationRequest.aggregate a b c d) _ _ (λ _. refl)
  dispatch-fits (OperationRequest.count_documents a b c) raw w =
      Fits-reply_with (OperationRequest.count_documents a b c) _ _ (λ _. refl)
  dispatch-fits (OperationRequest.run_command a b) raw w =
      Fits-reply_with (OperationRequest.run_command a b) _ _
        (λ d. Fits-serialized_as (OperationRequest.run_command a b) _ _ (to_vec d) (λ _. refl))
  dispatch-fits (OperationRequest.create_index a b c d e) raw w =
      Fits-reply_with (OperationRequest.create_index a b c d e) _ _ (λ _. refl)
  dispatch-fits (OperationRequest.list_collections a) raw w =
      Fits-reply_with (OperationRequest.list_collections a) _ _ (λ _. refl)
  dispatch-fits (OperationRequest.create_collection a b) raw w =
      Fits-reply_with (OperationRequest.create_collection a b) _ _ (λ _. refl)
  dispatch-fits (OperationRequest.drop_collection a b) raw w =
      Fits-reply_with (OperationRequest.drop_collection a b) _ _ (λ _. refl)
  dispatch-fits (OperationRequest.distinct a b c d) raw w =
      Fits-reply_with (OperationRequest.distinct a b c d) _ _
        (λ vs. Fits-serialized_as (OperationRequest.distinct a b c d) _ _ _ (λ _. refl))
  dispatch-fits (OperationRequest.find_one_and_update a b c d) raw w =
      Fits-reply_with (OperationRequest.find_one_and_update a b c d) _ _
        (λ o. Fits-single_response (OperationRequest.find_one_and_update a b c d) o (λ _ _. refl))
  dispatch-fits (OperationRequest.find_one_and_delete a b c) raw w =
      Fits-reply_with (OperationRequest.find_one_and_delete a b c) _ _
        (λ d. Fits-single_response (OperationRequest.find_one_and_delete a b c) _ (λ _ _. refl))

  -- The requests that must not reach the database: a handshake, raw bytes that are not documents,
  -- and a command with a blocked key.
  unfoldable pub Refused : OperationRequest Document → Bytes → Type 0
  Refused (OperationRequest.handshake _) raw = Unit
  Refused (OperationRequest.insert_one _ _ _) raw =
      (d : Document) → from_slice raw ≡ ok d → 5 ≤ length raw → ⊥
  Refused (OperationRequest.insert_many _ _ _ _) raw =
      (docs : List Document) → Chunks lib docs raw → ⊥
  Refused (OperationRequest.bulk_write _ _ _ _) raw =
      (docs : List Document) → Chunks lib docs raw → ⊥
  Refused (OperationRequest.run_command _ command) raw = IsBlocked (keys command)
  Refused request raw = ⊥

  refused_docs :
      {A : Type 0} (r : Result Malformed A) (next : A → World → OperationResponse × World)
      (w : World)
      → ((docs : A) → r ≡ ok docs → ⊥)
      → (message : String) × (with_docs lib driver r next w ≡ (error_response 1 message, w))
  unfolding with_docs
  refused_docs (ok docs) next w h = absurd (h docs refl)
  refused_docs (err e) next w h = (display lib driver e, refl)

  refused_many :
      (raw : Bytes) (next : List Document → World → OperationResponse × World) (w : World)
      → ((docs : List Document) → Chunks lib docs raw → ⊥)
      → (message : String) × (with_docs lib driver (parse_bson_docs lib raw) next w
          ≡ (error_response 1 message, w))
  refused_many raw next w h =
      refused_docs (parse_bson_docs lib raw) next w
        (λ docs e. h docs ((parse_bson_docs_iff lib docs raw).0 e))

  parse_single_bson_doc-eq-ok :
      (raw : Bytes) (d : Document)
      → parse_single_bson_doc lib raw ≡ ok d
      → (from_slice raw ≡ ok d) × (5 ≤ length raw)
  unfolding parse_single_bson_doc
  parse_single_bson_doc-eq-ok raw d h = elim (Bool-cases (ltb (length raw) 5)) [
    | inl short ↦ cc (rw short at h)
    | inr least ↦ (map_err-eq-ok _ (from_slice raw) (rw least at h), ground arith)
  ]

  -- A handshake, an insertion whose raw bytes are not documents, and a command with a dangerous key
  -- are answered with an error of code 1 and leave the database as it was.
  pub dispatch-Refused :
      (request : OperationRequest Document) (raw : Bytes) (w : World)
      → Refused request raw
      → (message : String) × (dispatch lib driver request raw w ≡ (error_response 1 message, w))
  unfolding dispatch Refused reply_with to_error_response
  dispatch-Refused (OperationRequest.handshake client) raw w h =
      ("Handshake must be handled via handle_handshake", refl)
  dispatch-Refused (OperationRequest.insert_one a b n) raw w h =
      refused_docs (parse_single_bson_doc lib raw) _ w
        (λ d e. let (parses, least) = parse_single_bson_doc-eq-ok raw d e in h d parses least)
  dispatch-Refused (OperationRequest.insert_many a b o n) raw w h = refused_many raw _ w h
  dispatch-Refused (OperationRequest.bulk_write a b n o) raw w h = refused_many raw _ w h
  dispatch-Refused (OperationRequest.run_command db command) raw w h =
      let (message, e) = run_command-IsBlocked lib driver db command w h in
      (to_string (validation_error message), rw (e, reply_with, to_error_response) refl)
  dispatch-Refused (OperationRequest.find_one a b c d) raw w h = absurd h
  dispatch-Refused (OperationRequest.find a b c d e f) raw w h = absurd h
  dispatch-Refused (OperationRequest.update_one a b c d) raw w h = absurd h
  dispatch-Refused (OperationRequest.update_many a b c d) raw w h = absurd h
  dispatch-Refused (OperationRequest.delete_one a b c) raw w h = absurd h
  dispatch-Refused (OperationRequest.delete_many a b c) raw w h = absurd h
  dispatch-Refused (OperationRequest.aggregate a b c d) raw w h = absurd h
  dispatch-Refused (OperationRequest.count_documents a b c) raw w h = absurd h
  dispatch-Refused (OperationRequest.create_index a b c d e) raw w h = absurd h
  dispatch-Refused (OperationRequest.list_collections a) raw w h = absurd h
  dispatch-Refused (OperationRequest.create_collection a b) raw w h = absurd h
  dispatch-Refused (OperationRequest.drop_collection a b) raw w h = absurd h
  dispatch-Refused (OperationRequest.distinct a b c d) raw w h = absurd h
  dispatch-Refused (OperationRequest.find_one_and_update a b c d) raw w h = absurd h
  dispatch-Refused (OperationRequest.find_one_and_delete a b c) raw w h = absurd h

  -- An insertion of many whose raw bytes are documents one after another is one call of the database
  -- with exactly these documents, whether the request says `ordered` or not; so is a bulk write.
  dispatch-Chunks :
      (db collection : String) (ordered : Bool) (n : ℕ) (raw : Bytes) (docs : List Document)
      (w : World)
      → Chunks lib docs raw
      → (dispatch lib driver (OperationRequest.insert_many db collection ordered n) raw w
          ≡ insert_parsed lib driver db collection docs w)
        × (dispatch lib driver (OperationRequest.bulk_write db collection n ordered) raw w
            ≡ insert_parsed lib driver db collection docs w)
  unfolding dispatch with_docs
  dispatch-Chunks db collection ordered n raw docs w cs =
      let parsed = (parse_bson_docs_iff lib docs raw).1 cs in
      (rw (parsed, with_docs) refl, rw (parsed, with_docs) refl)
