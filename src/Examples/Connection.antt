-- ===== src/Examples/Connection.antt =====
-- The theorems on a connection, at a connection that answers every request with three bytes.
use mongocore.Prelude.{
  ℕ, ◌+◌, Bytes, String, ◌≡◌, refl, Bool, true, false, List, [], ◌∷◌, ◌++◌, map, none, Result, ok,
}
use mongocore.Transport.Flags.{
  FrameError, encode_flags, set_bit, opcode_as_u8, priority_as_u8, Opcode, normal,
}
use mongocore.Transport.Frame.{write_frame, encode_header, computed_header, Frame}
use mongocore.Transport.Frame.Wire.{wire}
use mongocore.Transport.Codec.{
  error_response, OperationRequest, OperationResponse, command_result, handshake_response,
}
use mongocore.Transport.Codec.Parse.{
  parse_envelope, parse_document, parse_list_collections, get_required_str, parse_handshake,
}
use mongocore.Transport.Codec.Encode.{encode_response, response_parts}
use mongocore.Transport.Queue.{new, push_frames, pop, resolve_priority, resolve}
use mongocore.Transport.Connection.{
  open_connection, handle_handshake, is_handshake, reply_frame, Session, Outcome, running, closed,
  blocked, Run, read, here, next, process, respond, answer, flush_batch, write_frames, is_critical,
  response_opcode,
}
use mongocore.Transport.Connection.Replies.{account, wires, Run-replies}
use mongocore.Transport.Connection.Handshake.{open_connection-opened}
use mongocore.Transport.Connection.Database.{db_of, process-Refused}
use mongocore.Transport.Dispatch.{dispatch}
use mongocore.Transport.Dispatch.Refusals.{Refused}
use mongocore.Operations.Driver.{Driver, other_kind}
use mongocore.Examples.Instances.{partial_writer, small_bson, Doc, other}

-- The database counts the requests.
abbrev count : OperationRequest Doc → Bytes → ℕ → OperationResponse × ℕ
count request raw n = (command_result (4 ∷ 5 ∷ 6 ∷ []), 1 + n)

abbrev request : Opcode → ℕ → Bool → Frame
request opcode req_id batch_follows = record {
  header = record {
    msg_len = 0;
    flags = record {
      opcode = opcode;
      end_of_stream = true;
      no_reply = false;
      batch_follows = batch_follows;
      priority = normal;
    };
    req_id = req_id;
  };
  envelope = 7 ∷ [];
  raw_docs = [];
}

abbrev Sess : Type 0
Sess = Session small_bson partial_writer count

abbrev start : Sess
start = record { queue = new; pending = []; out = []; db = 0 }

unfoldable session : Outcome small_bson partial_writer count → Sess
session (running s) = s
session (closed s) = s
session (blocked s) = s

abbrev first : Frame
first = request Opcode.list_collections 41 true

abbrev second : Frame
second = request Opcode.list_collections 42 false

abbrev turn : Frame → Sess → Sess
turn f s = session (process small_bson partial_writer count 4 f [] s)

encodes :
    (message : String)
    → (p : Bytes × Bytes) × (encode_response small_bson (error_response 1 message) ≡ ok p)
unfolding encode_response response_parts
encodes message = ((5 ∷ 0 ∷ 0 ∷ 1 ∷ 0 ∷ [], []), refl)

-- The second one ends the batch: both replies are sent.
run :
    Run small_bson partial_writer count 4 start
      (first ∷ second ∷ [])
      (turn second (turn first start))
unfolding process respond answer flush_batch write_frames write_frame wire encode_header
    computed_header encode_flags set_bit opcode_as_u8 priority_as_u8 reply_frame response_opcode
    is_critical resolve_priority resolve push_frames encode_response response_parts parse_envelope
    parse_document parse_list_collections get_required_str session new pop
run = next (read start (turn first start) first [] refl refl) (
    next (read (turn first start) (turn second (turn first start)) second [] refl refl)
      (here (turn second (turn first start))))

run_example :
    (replies : List Frame) × (map (λ f. f.header.req_id) replies ≡ 41 ∷ 42 ∷ [])
    × (account small_bson partial_writer count (turn second (turn first start))
        ≡ account small_bson partial_writer count start ++ wires replies)
run_example = Run-replies small_bson partial_writer count encodes 4 (refl, (refl, tt)) run

abbrev hello : Frame
hello = request Opcode.handshake 40 false

opened_example :
    (f : Frame) × (envelope : Bytes) × (raw_docs : Bytes) × (◌≡◌ {A = Result FrameError Frame}
      (ok hello)
      (ok f))
    × (f.header.flags.opcode ≡ Opcode.handshake)
    × (encode_response small_bson (handshake_response 4096 4) ≡ ok (envelope, raw_docs))
    × (wire (reply_frame Opcode.handshake 40 (3 ∷ 4096 ∷ 4 ∷ 0 ∷ []) [])
        ≡ [] ++ wire (reply_frame Opcode.handshake f.header.req_id envelope raw_docs))
unfolding open_connection is_handshake handle_handshake parse_handshake write_frame wire
    encode_header computed_header encode_flags set_bit opcode_as_u8 priority_as_u8 reply_frame
    encode_response response_parts parse_envelope parse_document get_required_str
opened_example =
    open_connection-opened small_bson partial_writer
      (record { max_frame_size = 4096; max_concurrent = 4 }) (ok hello) []
      (wire (reply_frame Opcode.handshake 40 (3 ∷ 4096 ∷ 4 ∷ 0 ∷ []) [])) refl

-- A database that any write would empty.
abbrev fragile : Driver small_bson
fragile = record {
  World = ℕ;
  find_raw = λ t db c f o w. (none, w);
  find = λ t db c f o w. (none, w);
  find_one = λ t db c f w. (none, w);
  insert_one = λ t db c d w. (none, 0);
  insert_many = λ t db c ds w. (none, 0);
  update_one = λ t db c f u w. (none, 0);
  update_many = λ t db c f u w. (none, 0);
  delete_one = λ t db c f w. (none, 0);
  delete_many = λ t db c f w. (none, 0);
  count_documents = λ t db c f w. (none, w);
  find_one_and_update = λ t db c f u o w. (none, 0);
  aggregate = λ t b db c p w. (none, w);
  create_collection = λ t db c w. (none, 0);
  drop_collection = λ t db c w. (none, 0);
  create_index = λ t db c k o w. (none, 0);
  run_command = λ db c w. (ok [], 0);
  list_collection_names = λ db w. (ok [], w);
  distinct = λ db c k f w. (ok [], w);
  run_command_within = λ t db c w. (none, 0);
  custom = λ message. record { kind = other_kind; message = message };
  keys = λ d. [];
  document = λ d. other;
  contains_key = λ d k. false;
  value_to_string = λ v. "id";
  show = λ n. "n";
}

abbrev seven : Session small_bson partial_writer (dispatch small_bson fragile)
seven = record { queue = new; pending = []; out = []; db = 7 }

process-Refused_example :
    db_of small_bson partial_writer (dispatch small_bson fragile) (
      process small_bson partial_writer
        (dispatch small_bson fragile)
        4
        (request Opcode.handshake 43 false)
        []
        seven)
    ≡ 7
unfolding parse_envelope parse_handshake parse_document Refused get_required_str
process-Refused_example =
    process-Refused small_bson partial_writer fragile 4 (request Opcode.handshake 43 false) [] seven
      (OperationRequest.handshake "rust") refl tt
