-- ===== src/Transport/Queue.antt =====
-- src/transport/connection.rs: pending requests and their priority queue.
pub mod Order
use mongocore.Prelude.{List, [], ◌∷◌, ◌++◌, Option, none, some}
use mongocore.Transport.Flags.{Opcode, Priority, normal, low, high, critical}
use mongocore.Transport.Flags
use mongocore.Transport.Frame.{Frame}

-- Only a handshake keeps the critical priority.
unfoldable pub resolve : Opcode → Priority → Priority
resolve Opcode.handshake critical = critical
resolve opcode critical = high
resolve opcode priority = priority

unfoldable pub resolve_priority : Frame → Priority
unfolding resolve
resolve_priority frame = resolve frame.header.flags.opcode frame.header.flags.priority

pub record PendingRequest : Type 0 where
  pub frame : Frame
  pub priority : Priority

pub record PriorityQueue : Type 0 where
  pub high_requests : List PendingRequest
  pub normal_requests : List PendingRequest
  pub low_requests : List PendingRequest

unfoldable pub new : PriorityQueue
new = record { high_requests = []; normal_requests = []; low_requests = [] }

enqueue : Priority → PriorityQueue → PendingRequest → PriorityQueue
enqueue high q r = record q { high_requests = q.high_requests ++ r ∷ [] }
enqueue critical q r = record q { high_requests = q.high_requests ++ r ∷ [] }
enqueue normal q r = record q { normal_requests = q.normal_requests ++ r ∷ [] }
enqueue low q r = record q { low_requests = q.low_requests ++ r ∷ [] }

unfoldable pub push : PriorityQueue → PendingRequest → PriorityQueue
unfolding enqueue
push q r = enqueue r.priority q r

-- `high.pop_front().or_else(normal …).or_else(low …)`.
unfoldable pub pop : PriorityQueue → Option (PendingRequest × PriorityQueue)
pop q = elim q.high_requests [
  | r ∷ rest ↦ some (r, record q { high_requests = rest })
  | [] ↦ elim q.normal_requests [
    | r ∷ rest ↦ some (r, record q { normal_requests = rest })
    | [] ↦ elim q.low_requests [ r ∷ rest ↦ some (r, record q { low_requests = rest }) | [] ↦ none ]
  ]
]

-- The frames that are on the socket at once, queued with their resolved priority.
unfoldable pub push_frames : PriorityQueue → List Frame → PriorityQueue
push_frames q [] = q
push_frames q (f ∷ fs) =
    push_frames (push q (record { frame = f; priority = resolve_priority f })) fs
