-- ===== src/Transport/Connection.antt =====
-- src/transport/connection.rs: one connection, from the handshake through the request loop. The
-- dispatch of a request to the database is a parameter. What arrives, and when, is chosen by the
-- environment (`Step`).
pub mod Replies
pub mod Handshake
pub mod Database
use Prim.Native.String.{◌++◌ as str_append}
use mongocore.Prelude.{
  ℕ, ◌==◌, Bytes, codes, String, ◌≡◌, Bool, true, false, not, ◌&&◌, List, [], ◌∷◌, ◌++◌, Option,
  none, some, is_empty, Result, ok, err, ◌>>=◌, map_err, if◌then◌else◌,
}
use mongocore.Transport.Flags.{
  FrameError, io, malformed_envelope, Opcode, Priority, normal, critical, Flags,
}
use mongocore.Transport.Frame.{Frame, FrameHeader, Writer, write_frame}
use mongocore.Transport.Codec.{
  Bson, CodecError, missing_field, invalid_bson, OperationRequest, OperationResponse,
  handshake_response, error_response,
}
use mongocore.Transport.Codec.Parse.{parse_envelope}
use mongocore.Transport.Codec.Encode.{encode_response}
use mongocore.Transport.Queue.{
  PriorityQueue, PendingRequest, push_frames, pop, resolve_priority, new,
}

pub record ConnectionConfig : Type 0 where
  pub max_frame_size : ℕ
  pub max_concurrent : ℕ

-- `impl Display for CodecError`.
unfoldable pub display : CodecError → String
display (missing_field field) = str_append "missing required field: " field
display (invalid_bson msg) = str_append "invalid BSON: " msg

-- `handle_handshake` of src/transport/dispatch.rs.
unfoldable pub handle_handshake : {D : Type 0} → OperationRequest D → ℕ → ℕ → OperationResponse
handle_handshake (OperationRequest.handshake _) max_frame_size max_concurrent =
    handshake_response max_frame_size max_concurrent
handle_handshake _ max_frame_size max_concurrent = error_response 1 "expected Handshake request"

-- The frames of replies; `write_frame` computes the length.
unfoldable pub reply_frame : Opcode → ℕ → Bytes → Bytes → Frame
reply_frame opcode req_id envelope raw_docs = record {
  header = record {
    msg_len = 0;
    flags = record {
      opcode = opcode;
      end_of_stream = true;
      no_reply = false;
      batch_follows = false;
      priority = normal;
    };
    req_id = req_id;
  };
  envelope = envelope;
  raw_docs = raw_docs;
}

abbrev pub shutdown_drain_ms : ℕ
shutdown_drain_ms = 5000

-- The frame of `send_shutdown_frame`.
unfoldable pub shutdown_frame : Frame
shutdown_frame =
    reply_frame Opcode.handshake 0
      (codes "{\"shutdown\":true,\"drain_ms\":5000,\"doc_bytes_len\":0}") []

unfoldable pub is_handshake : Opcode → Bool
is_handshake Opcode.handshake = true
is_handshake opcode = false

unfoldable pub is_critical : Priority → Bool
is_critical critical = true
is_critical priority = false

-- An error response goes out under the error opcode.
unfoldable pub response_opcode : OperationResponse → Opcode → Opcode
response_opcode (error_response code message) opcode = Opcode.error
response_opcode response opcode = opcode

module _ (lib : Bson) (w : Writer) where
  open lib use {Document}
  open w use {State, flush, after_error}

  unfoldable pub write_frames : List Frame → State → Result FrameError State
  write_frames [] s = ok s
  write_frames (f ∷ fs) s = write_frame w f s >>= λ s'. write_frames fs s'

  unfoldable pub flush_batch : List Frame → Frame → State → Result FrameError State
  flush_batch pending final_frame s =
      write_frames pending s >>= λ s₁. write_frame w final_frame s₁ >>= λ s₂. map_err io (flush s₂)

  unfoldable pub send_error : ℕ → ℕ → String → State → Result FrameError State
  send_error req_id code message s = do
    (envelope, raw_docs) ←
        map_err (λ e. malformed_envelope (display e))
          (encode_response lib (error_response code message))
    write_frame w (reply_frame Opcode.error req_id envelope raw_docs) s

  -- `let _ = …`: the result is dropped, and the connection closes.
  unfoldable pub or_after : State → Result FrameError State → State
  or_after s (ok s') = s'
  or_after s (err e) = after_error s

  pub data Opened : Type 0 where
    refused : State → Opened
    opened : State → Opened

  -- Steps 1 and 2 of `handle_connection`, from the first frame on.
  unfoldable pub open_connection : ConnectionConfig → Result FrameError Frame → State → Opened
  open_connection config (err e) s = refused s
  open_connection config (ok first) s =
      let req_id = first.header.req_id in
      if not (is_handshake first.header.flags.opcode)
      then refused (or_after s (send_error req_id 1 "first frame must be Handshake" s))
      else (elim (parse_envelope lib first.envelope Opcode.handshake) [
        | err e ↦
            refused
              (or_after s (send_error req_id 1 (str_append "invalid handshake: " (display e)) s))
        | ok request ↦
            elim (encode_response lib
              (handle_handshake request config.max_frame_size config.max_concurrent)) [
                | err e ↦ refused s
                | ok (envelope, raw_docs) ↦
                    elim (write_frame w (reply_frame Opcode.handshake req_id envelope raw_docs) s) [
                      | err e ↦ refused (after_error s)
                      | ok s' ↦ opened s'
                    ]
              ]
      ])

  module _ {Db : Type 0}
      (dispatch : OperationRequest Document → Bytes → Db → OperationResponse × Db) where
    -- What the loop of step 3 keeps between its turns.
    pub record Session : Type 0 where
      pub queue : PriorityQueue
      pub pending : List Frame
      pub out : State
      pub db : Db

    pub data Outcome : Type 0 where
      running : Session → Outcome
      closed : Session → Outcome
      blocked : Session → Outcome

    -- Buffered while the batch goes on, flushed with what is buffered at its end.
    unfoldable pub answer : Bool → Frame → Session → Outcome
    answer true frame s = running (record s { pending = s.pending ++ frame ∷ [] })
    answer false frame s = elim (flush_batch s.pending frame s.out) [
      | ok out' ↦ running (record s { pending = []; out = out' })
      | err e ↦ closed (record s { pending = []; out = after_error s.out })
    ]

    -- A response that cannot be encoded is dropped.
    unfoldable pub answer_error : Bool → ℕ → String → Session → Outcome
    answer_error batch_follows req_id message s =
        elim (encode_response lib (error_response 1 message)) [
          | ok (envelope, raw_docs) ↦
              answer batch_follows (reply_frame Opcode.error req_id envelope raw_docs) s
          | err e ↦ running s
        ]

    -- The end of a batch whose last request wants no reply. The inner `break` leaves only the
    -- loop over the buffered frames.
    unfoldable pub flush_pending : Session → Outcome
    flush_pending s =
        if is_empty s.pending
        then running s
        else (elim (flush (or_after s.out (write_frames s.pending s.out))) [
          | ok out' ↦ running (record s { pending = []; out = out' })
          | err e ↦ closed (record s { pending = []; out = after_error s.out })
        ])

    unfoldable pub respond : Frame → OperationResponse → Session → Outcome
    respond frame response s =
        let flags = frame.header.flags in
        let req_id = frame.header.req_id in
        if flags.no_reply
        then (if flags.batch_follows then running s else flush_pending s)
        else (elim (encode_response lib response) [
          | ok (envelope, raw_docs) ↦
              answer flags.batch_follows
                (reply_frame (response_opcode response flags.opcode) req_id envelope raw_docs) s
          | err e ↦ answer_error flags.batch_follows req_id "internal encoding error" s
        ])

    -- One turn of the loop: `extra` are the frames that are on the socket at once. A permit is free
    -- whenever the limit allows one at all, since each turn returns its own.
    unfoldable pub process : ℕ → Frame → List Frame → Session → Outcome
    process max_concurrent frame extra s =
        let flags = frame.header.flags in
        let s₁ = record s { queue = push_frames s.queue extra } in
        elim (parse_envelope lib frame.envelope flags.opcode) [
          | err e ↦
              if flags.no_reply
              then running s₁
              else answer_error flags.batch_follows frame.header.req_id
                  (str_append "invalid envelope: " (display e)) s₁
          | ok request ↦
              if not (is_critical (resolve_priority frame)) && max_concurrent == 0
              then blocked s₁
              else (let (response, db') = dispatch request frame.raw_docs s.db in
                  respond frame response (record s₁ { db = db' }))
        ]

    -- A queued request is served before the socket is read.
    pub data Step (limit : ℕ) : Session → Frame → Session → Type 0 where
      serve :
          (s t : Session) (r : PendingRequest) (rest : PriorityQueue) (extra : List Frame)
          → pop s.queue ≡ some (r, rest)
          → process limit r.frame extra (record s { queue = rest }) ≡ running t
          → Step limit s r.frame t
      read :
          (s t : Session) (frame : Frame) (extra : List Frame)
          → pop s.queue ≡ none
          → process limit frame extra s ≡ running t
          → Step limit s frame t

    -- The frames that a connection has processed, in order.
    pub data Run (limit : ℕ) : Session → List Frame → Session → Type 0 where
      here : (s : Session) → Run limit s [] s
      next :
          {s t u : Session} {frame : Frame} {frames : List Frame}
          → Step limit s frame t
          → Run limit t frames u
          → Run limit s (frame ∷ frames) u
