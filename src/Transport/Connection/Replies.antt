-- ===== src/Transport/Connection/Replies.antt =====
-- Replies: what the loop has written and what it holds back, together.
use mongocore.Prelude.{
  ℕ, ◌==◌, Bytes, String, ◌≡◌, refl, sym, ap, ap₂, ◌∙◌, subst, Bool, true, false, not, ◌&&◌,
  Bool-cases, inl, inr, List, [], ◌∷◌, ◌++◌, map, append-nil, append_assoc, Result-cases, ok,
  ok_injective, >>=-eq-ok, map_err-eq-ok, All,
}
use mongocore.Transport.Flags.{io, Opcode}
use mongocore.Transport.Frame.{Frame, Writer, write_frame}
use mongocore.Transport.Frame.Wire.{wire, write_frame-sent}
use mongocore.Transport.Codec.{Bson, OperationRequest, OperationResponse, error_response}
use mongocore.Transport.Codec.Parse.{parse_envelope}
use mongocore.Transport.Codec.Encode.{encode_response}
use mongocore.Transport.Queue.{resolve_priority, push_frames}
use mongocore.Transport.Connection.{
  Session, Outcome, running, Step, Run, serve, read, here, next, write_frames, flush_batch, answer,
  answer_error, respond, process, reply_frame, response_opcode, is_critical,
}

abbrev pub wires : List Frame → Bytes
wires [] = []
wires (f ∷ fs) = wire f ++ wires fs

wires-append : (fs gs : List Frame) → wires (fs ++ gs) ≡ wires fs ++ wires gs
wires-append [] gs = refl
wires-append (f ∷ fs) gs =
    ap (◌++◌ (wire f)) (wires-append fs gs) ∙ sym (append_assoc (wire f) (wires fs) (wires gs))

module _ (lib : Bson) (w : Writer) where
  open w use {State, sent, flush, flush_sent}

  write_frames-sent :
      (fs : List Frame) (s t : State) → write_frames lib w fs s ≡ ok t → sent t ≡ sent s ++ wires fs
  unfolding write_frames
  write_frames-sent [] s t h = ap sent (sym (ok_injective h)) ∙ sym (append-nil (sent s))
  write_frames-sent (f ∷ fs) s t h =
      let (s', first, rest) = >>=-eq-ok (write_frame w f s) (λ s'. write_frames lib w fs s') h in
      write_frames-sent fs s' t rest
      ∙ ap (λ b. b ++ wires fs) (write_frame-sent w f s s' first)
      ∙ append_assoc (sent s) (wire f) (wires fs)

  flush_batch-sent :
      (pending : List Frame) (f : Frame) (s t : State)
      → flush_batch lib w pending f s ≡ ok t
      → sent t ≡ (sent s ++ wires pending) ++ wire f
  unfolding flush_batch
  flush_batch-sent pending f s t h =
      let (s₁, first, rest) = >>=-eq-ok (write_frames lib w pending s) _ h in
      let (s₂, second, last) = >>=-eq-ok (write_frame w f s₁) _ rest in
      flush_sent s₂ t (map_err-eq-ok io _ last)
      ∙ write_frame-sent w f s₁ s₂ second
      ∙ ap (λ b. b ++ wire f) (write_frames-sent pending s s₁ first)

  module _ {Db : Type 0}
      (dispatch : OperationRequest (Bson.Document lib) → Bytes → Db → OperationResponse × Db) where
    abbrev Sess : Type 0
    Sess = Session lib w dispatch

    -- The bytes of a session: those sent, then those of the replies that a batch holds back.
    abbrev pub account : Sess → Bytes
    account s = sent s.out ++ wires s.pending

    -- One reply was added, behind all earlier ones, and a batch that ends holds nothing back.
    pub record Replied (s t : Sess) (req_id : ℕ) (batch_follows : Bool) : Type 0 where
      pub reply : Frame
      pub id : reply.header.req_id ≡ req_id
      pub added : account t ≡ account s ++ wire reply
      pub released : batch_follows ≡ false → t.pending ≡ []

    running_injective :
        (s t : Sess) → ◌≡◌ {A = Outcome lib w dispatch} (running s) (running t) → s ≡ t
    running_injective s t h = cc

    -- One reply, whatever the loop then does with the session.
    from_running :
        (s u t : Sess) (req_id : ℕ) (b : Bool)
        → Replied s u req_id b
        → ◌≡◌ {A = Outcome lib w dispatch} (running u) (running t)
        → Replied s t req_id b
    from_running s u t req_id b r h = subst (λ v. Replied s v req_id b) (running_injective u t h) r

    answer-Replied :
        (b : Bool) (f : Frame) (s t : Sess)
        → answer lib w dispatch b f s ≡ running t
        → Replied s t f.header.req_id b
    unfolding answer
    answer-Replied true f s t h =
        from_running s (record s { pending = s.pending ++ f ∷ [] }) t f.header.req_id true
          (record {
            reply = f;
            id = refl;
            added =
                ap (◌++◌ (sent s.out)) (
                  wires-append s.pending (f ∷ [])
                  ∙ ap (◌++◌ (wires s.pending)) (append-nil (wire f)))
                ∙ sym (append_assoc (sent s.out) (wires s.pending) (wire f));
            released = λ e. cc e;
          })
          h
    answer-Replied false f s t h = elim (Result-cases (flush_batch lib w s.pending f s.out)) [
      | inl (out', e) ↦
          from_running s (record s { pending = []; out = out' }) t f.header.req_id false
            (record {
              reply = f;
              id = refl;
              added = append-nil (sent out') ∙ flush_batch-sent s.pending f s.out out' e;
              released = λ _. refl;
            })
            (rw (e, answer) at h)
      | inr (x, e) ↦ cc (rw (e, answer) at h)
    ]

    -- The hypothesis: an error message can be encoded. Nothing is asked of other responses.
    module _
        (encodes : (message : String)
          → (p : Bytes × Bytes) × (encode_response lib (error_response 1 message) ≡ ok p)) where
      answer_error-Replied :
          (b : Bool) (req_id : ℕ) (message : String) (s t : Sess)
          → answer_error lib w dispatch b req_id message s ≡ running t
          → Replied s t req_id b
      unfolding answer_error reply_frame
      answer_error-Replied b req_id message s t h =
          let ((env, docs), e) = encodes message in
          answer-Replied b (reply_frame Opcode.error req_id env docs) s t
            (rw (e, answer_error) at h)

      respond-Replied :
          (f : Frame) (r : OperationResponse) (s t : Sess)
          → f.header.flags.no_reply ≡ false
          → respond lib w dispatch f r s ≡ running t
          → Replied s t f.header.req_id f.header.flags.batch_follows
      unfolding respond reply_frame
      respond-Replied f r s t wanted h = elim (Result-cases (encode_response lib r)) [
        | inl ((env, docs), e) ↦
            answer-Replied f.header.flags.batch_follows
              (reply_frame (response_opcode r f.header.flags.opcode) f.header.req_id env docs) s t
              (rw (wanted, e, respond) at h)
        | inr (x, e) ↦
            answer_error-Replied f.header.flags.batch_follows f.header.req_id
              "internal encoding error" s t (rw (wanted, e, respond) at h)
      ]

      -- The queue and the database play no part in the account.
      as_before :
          (s u t : Sess) (req_id : ℕ) (b : Bool)
          → u.out ≡ s.out
          → u.pending ≡ s.pending
          → Replied u t req_id b
          → Replied s t req_id b
      as_before s u t req_id b eo ep r = record {
        reply = r.reply;
        id = r.id;
        added =
            r.added
            ∙ ap (λ x. x ++ wire r.reply)
                (ap₂ (λ (o : State) (p : List Frame). sent o ++ wires p) eo ep);
        released = r.released;
      }

      -- If error messages can be encoded and the loop goes on, a request that wants a reply gets
      -- exactly one, under its own id and behind all earlier replies, whether its envelope is valid
      -- or not; at the end of a batch nothing is held back.
      process-Replied :
          (limit : ℕ) (f : Frame) (extra : List Frame) (s t : Sess)
          → f.header.flags.no_reply ≡ false
          → process lib w dispatch limit f extra s ≡ running t
          → Replied s t f.header.req_id f.header.flags.batch_follows
      unfolding process
      process-Replied limit f extra s t wanted h =
          let s₁ : Sess = record s { queue = push_frames s.queue extra } in
          let flags = f.header.flags in
          elim (Result-cases (parse_envelope lib f.envelope flags.opcode)) [
            | inl (request, e) ↦
                elim (Bool-cases (not (is_critical (resolve_priority f)) && limit == 0)) [
                  | inl stuck ↦ cc (rw (e, process, stuck) at h)
                  | inr free ↦
                      let (response, db') = dispatch request f.raw_docs s.db in
                      as_before s (record s₁ { db = db' }) t f.header.req_id flags.batch_follows
                        refl refl
                        (respond-Replied f response (record s₁ { db = db' }) t wanted
                          (rw (e, process, free) at h))
                ]
            | inr (x, e) ↦ as_before s s₁ t f.header.req_id flags.batch_follows refl refl (
                answer_error-Replied flags.batch_follows f.header.req_id _ s₁ t
                  (rw (e, process, wanted) at h))
          ]

      abbrev WantsReply : Frame → Type 0
      WantsReply f = f.header.flags.no_reply ≡ false

      abbrev req_id_of : Frame → ℕ
      req_id_of f = f.header.req_id

      Step-Replied :
          {s t : Sess} {f : Frame} (limit : ℕ)
          → WantsReply f
          → Step lib w dispatch limit s f t
          → Replied s t f.header.req_id f.header.flags.batch_follows
      Step-Replied limit wanted (serve s t r rest extra e h) =
          as_before s (record s { queue = rest }) t _ _ refl refl
            (process-Replied limit r.frame extra (record s { queue = rest }) t wanted h)
      Step-Replied limit wanted (read s t f extra e h) = process-Replied limit f extra s t wanted h

      -- If error messages can be encoded and every processed request wants a reply: however requests
      -- arrive, are queued and overtake each other, the replies, sent and held back together, answer
      -- the processed requests one for one and in the order of processing.
      pub Run-replies :
          (limit : ℕ) {s t : Sess} {frames : List Frame}
          → All WantsReply frames
          → Run lib w dispatch limit s frames t
          → (replies : List Frame) × (map req_id_of replies ≡ map req_id_of frames)
            × (account t ≡ account s ++ wires replies)
      Run-replies limit wanted (here s) = ([], refl, sym (append-nil (account s)))
      Run-replies limit wanted (next {s = s} {u = u} step rest) =
          let r = Step-Replied limit wanted.0 step in
          let (replies, ids, rest_added) = Run-replies limit wanted.1 rest in
          (
            r.reply ∷ replies,
            ap₂ ◌∷◌ r.id ids,
            rest_added
                ∙ ap (λ x. x ++ wires replies) r.added
                ∙ append_assoc (account s) (wire r.reply) (wires replies),
          )
