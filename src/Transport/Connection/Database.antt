-- ===== src/Transport/Connection/Database.antt =====
-- Database: the connection and the dispatch together, and what a turn of the loop does to the database.
use mongocore.Prelude.{
  ℕ, ◌==◌, Bytes, String, ◌≡◌, refl, ap, ◌∙◌, Bool, true, false, not, ◌&&◌, Bool-cases, inl, inr,
  List, is_empty, ok, Result-cases,
}
use mongocore.Transport.Flags.{Opcode}
use mongocore.Transport.Frame.{Frame, Writer}
use mongocore.Transport.Codec.{Bson, OperationRequest, OperationResponse, error_response}
use mongocore.Transport.Codec.Parse.{parse_envelope}
use mongocore.Transport.Codec.Encode.{encode_response}
use mongocore.Transport.Queue.{resolve_priority}
use mongocore.Transport.Connection.{
  Session, Outcome, running, closed, blocked, answer, answer_error, flush_pending, flush_batch,
  respond, process, write_frames, or_after, is_critical, reply_frame, response_opcode,
}
use mongocore.Operations.Driver.{Driver}
use mongocore.Transport.Dispatch.{dispatch}
use mongocore.Transport.Dispatch.Refusals.{Refused, dispatch-Refused}

module _ (lib : Bson) (w : Writer) {Db : Type 0}
    (serve : OperationRequest (Bson.Document lib) → Bytes → Db → OperationResponse × Db) where
  abbrev Sess : Type 0
  Sess = Session lib w serve

  -- The database after a turn, however it ended.
  abbrev pub db_of : Outcome lib w serve → Db
  db_of (running s) = s.db
  db_of (closed s) = s.db
  db_of (blocked s) = s.db

  answer-db : (b : Bool) (f : Frame) (s : Sess) → db_of (answer lib w serve b f s) ≡ s.db
  unfolding answer
  answer-db true f s = refl
  answer-db false f s = elim (Result-cases (flush_batch lib w s.pending f s.out)) [
    | inl (out, e) ↦ rw (e, answer) refl
    | inr (x, e) ↦ rw (e, answer) refl
  ]

  answer_error-db :
      (b : Bool) (req_id : ℕ) (message : String) (s : Sess)
      → db_of (answer_error lib w serve b req_id message s) ≡ s.db
  unfolding answer_error
  answer_error-db b req_id message s =
      elim (Result-cases (encode_response lib (error_response 1 message))) [
        | inl ((envelope, docs), e) ↦
            rw (e, answer_error) (answer-db b (reply_frame Opcode.error req_id envelope docs) s)
        | inr (x, e) ↦ rw (e, answer_error) refl
      ]

  flush_pending-db : (s : Sess) → db_of (flush_pending lib w serve s) ≡ s.db
  unfolding flush_pending
  flush_pending-db s = elim (Bool-cases (is_empty s.pending)) [
    | inl none ↦ rw (none, flush_pending) refl
    | inr some ↦
        elim (Result-cases
          (Writer.flush w (or_after lib w s.out (write_frames lib w s.pending s.out)))) [
            | inl (out, e) ↦ rw (some, flush_pending, e) refl
            | inr (x, e) ↦ rw (some, flush_pending, e) refl
          ]
  ]

  respond-db :
      (f : Frame) (r : OperationResponse) (s : Sess) → db_of (respond lib w serve f r s) ≡ s.db
  unfolding respond
  respond-db f r s = elim (Bool-cases f.header.flags.no_reply) [
    | inl silent ↦ elim (Bool-cases f.header.flags.batch_follows) [
      | inl more ↦ rw (silent, respond, more) refl
      | inr last ↦ rw (silent, respond, last) (flush_pending-db s)
    ]
    | inr wanted ↦ elim (Result-cases (encode_response lib r)) [
      | inl ((envelope, docs), e) ↦
          rw (wanted, respond, e)
            (answer-db f.header.flags.batch_follows
              (reply_frame (response_opcode r f.header.flags.opcode) f.header.req_id envelope docs)
              s)
      | inr (x, e) ↦
          rw (wanted, respond, e)
            (answer_error-db f.header.flags.batch_follows f.header.req_id "internal encoding error"
              s)
    ]
  ]

  -- A turn leaves the database as the serving of the request does.
  pub process-db :
      (limit : ℕ) (f : Frame) (extra : List Frame) (s : Sess)
      (request : OperationRequest (Bson.Document lib))
      → parse_envelope lib f.envelope f.header.flags.opcode ≡ ok request
      → (serve request f.raw_docs s.db).1 ≡ s.db
      → db_of (process lib w serve limit f extra s) ≡ s.db
  unfolding process
  process-db limit f extra s request e same =
      elim (Bool-cases (not (is_critical (resolve_priority f)) && limit == 0)) [
        | inl stuck ↦ rw (e, process, stuck) refl
        | inr free ↦ rw (e, process, free) (respond-db f (serve request f.raw_docs s.db).0 _ ∙ same)
      ]

module _ (lib : Bson) (w : Writer) (driver : Driver lib) where
  open driver use {World}

  -- A frame with a handshake, with an insertion whose raw documents are not documents, or with a
  -- command that has a dangerous key, leaves the database as it was, however the turn of the loop ends.
  pub process-Refused :
      (limit : ℕ) (f : Frame) (extra : List Frame) (s : Session lib w (dispatch lib driver))
      (request : OperationRequest (Bson.Document lib))
      → parse_envelope lib f.envelope f.header.flags.opcode ≡ ok request
      → Refused lib driver request f.raw_docs
      → db_of lib w (dispatch lib driver) (process lib w (dispatch lib driver) limit f extra s)
        ≡ s.db
  process-Refused limit f extra s request e refused =
      let (message, answer) = dispatch-Refused lib driver request f.raw_docs s.db refused in
      process-db lib w (dispatch lib driver) limit f extra s request e (ap (λ p. p.1) answer)
