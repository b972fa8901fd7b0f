-- ===== src/Transport/Queue/Order.antt =====
-- The queue serves high before normal before low, and each class in order of arrival.
use mongocore.Prelude.{
  ℕ, zero, suc, ◌+◌, ◌≤◌, ◌≡◌, refl, sym, ap, ap₂, ◌∙◌, inl, inr, List, [], ◌∷◌, ◌++◌, append-nil,
  append_assoc, length, length-append, Option, none, some, Bool-cases, Bool, true, false,
  if◌then◌else◌, arith,
}
use mongocore.Transport.Flags.{Priority, normal, low, high, critical}
use mongocore.Transport.Frame.{Frame}
use mongocore.Transport.Queue.{
  PendingRequest, PriorityQueue, new, enqueue, push, pop, push_frames, resolve_priority,
}

-- What the queue holds, in the order in which it serves.
abbrev pub order : PriorityQueue → List PendingRequest
order q = q.high_requests ++ (q.normal_requests ++ q.low_requests)

-- `pop` takes the first of a list, and leaves the rest.
abbrev Front : Option (PendingRequest × PriorityQueue) → List PendingRequest → Type 0
Front none l = l ≡ []
Front (some (r, q)) l = l ≡ r ∷ order q

abbrev queue_of : List PendingRequest → List PendingRequest → List PendingRequest → PriorityQueue
queue_of h n l = record { high_requests = h; normal_requests = n; low_requests = l }

pop-queue_of : (h n l : List PendingRequest) → Front (pop (queue_of h n l)) (order (queue_of h n l))
unfolding pop
pop-queue_of (r ∷ h) n l = refl
pop-queue_of [] (r ∷ n) l = refl
pop-queue_of [] [] (r ∷ l) = refl
pop-queue_of [] [] [] = refl

pub pop-order : (q : PriorityQueue) → Front (pop q) (order q)
pop-order q = pop-queue_of q.high_requests q.normal_requests q.low_requests

-- What `n` calls of `pop` serve.
unfoldable pub drain : ℕ → PriorityQueue → List PendingRequest
drain zero q = []
drain (suc n) q = elim (pop q) [ none ↦ [] | some (r, rest) ↦ r ∷ drain n rest ]

drain-order : (n : ℕ) (q : PriorityQueue) → length (order q) ≤ n → drain n q ≡ order q
unfolding drain
drain-order zero q h = sym (empty (order q) h)
  where
    empty : (l : List PendingRequest) → length l ≤ 0 → l ≡ []
    empty [] h = refl
    empty (r ∷ l) h = absurd (omega arith)
drain-order (suc n) q h = served (pop q) (pop-order q) (λ rest. drain-order n rest)
  where
    served :
        (front : Option (PendingRequest × PriorityQueue))
        → Front front (order q)
        → ((rest : PriorityQueue) → length (order rest) ≤ n → drain n rest ≡ order rest)
        → (elim front [ none ↦ [] | some (r, rest) ↦ r ∷ drain n rest ]) ≡ order q
    served none e ih = sym e
    served (some (r, rest)) e ih = ap (◌∷◌ r) (ih rest (omega (arith, ap length e))) ∙ sym e

-- The frames of a class, as requests, in order of arrival.
abbrev pub request : Frame → PendingRequest
request f = record { frame = f; priority = resolve_priority f }

abbrev pub is_high : Priority → Bool
is_high high = true
is_high critical = true
is_high p = false

abbrev pub is_normal : Priority → Bool
is_normal normal = true
is_normal p = false

abbrev pub is_low : Priority → Bool
is_low low = true
is_low p = false

abbrev pub pick : (Priority → Bool) → List Frame → List PendingRequest
pick p [] = []
pick p (f ∷ fs) = if p (resolve_priority f) then request f ∷ pick p fs else pick p fs

abbrev one_if : Bool → PendingRequest → List PendingRequest
one_if b r = if b then r ∷ [] else []

-- A class after pushing: what it was, followed by its own frames.
module _ (class : PriorityQueue → List PendingRequest) (is : Priority → Bool)
    (push-class : (q : PriorityQueue) (r : PendingRequest)
      → class (push q r) ≡ class q ++ one_if (is r.priority) r) where
  pick-cons :
      (f : Frame) (fs : List Frame)
      → one_if (is (resolve_priority f)) (request f) ++ pick is fs ≡ pick is (f ∷ fs)
  pick-cons f fs = elim (Bool-cases (is (resolve_priority f))) [ inl e ↦ rw e | inr e ↦ rw e ]

  class-push_frames :
      (q : PriorityQueue) (fs : List Frame) → class (push_frames q fs) ≡ class q ++ pick is fs
  unfolding push_frames
  class-push_frames q [] = sym (append-nil (class q))
  class-push_frames q (f ∷ fs) =
      class-push_frames (push q (request f)) fs
      ∙ ap (λ l. l ++ pick is fs) (push-class q (request f))
      ∙ append_assoc (class q) (one_if (is (resolve_priority f)) (request f)) (pick is fs)
      ∙ ap (◌++◌ (class q)) (pick-cons f fs)

enqueue-high :
    (p : Priority) (q : PriorityQueue) (r : PendingRequest)
    → (enqueue p q r).high_requests ≡ q.high_requests ++ one_if (is_high p) r
unfolding enqueue
enqueue-high high q r = refl
enqueue-high critical q r = refl
enqueue-high _ q r = sym (append-nil _)

enqueue-normal :
    (p : Priority) (q : PriorityQueue) (r : PendingRequest)
    → (enqueue p q r).normal_requests ≡ q.normal_requests ++ one_if (is_normal p) r
unfolding enqueue
enqueue-normal normal q r = refl
enqueue-normal _ q r = sym (append-nil _)

enqueue-low :
    (p : Priority) (q : PriorityQueue) (r : PendingRequest)
    → (enqueue p q r).low_requests ≡ q.low_requests ++ one_if (is_low p) r
unfolding enqueue
enqueue-low low q r = refl
enqueue-low _ q r = sym (append-nil _)

-- The three classes share out the frames.
length_classes :
    (p : Priority) (r : PendingRequest) (a b c : List PendingRequest)
    → length (if is_high p then r ∷ a else a)
        + length (if is_normal p then r ∷ b else b)
        + length (if is_low p then r ∷ c else c)
      ≡ length a + length b + length c + 1
length_classes high r a b c = omega arith
length_classes _ r a b c = omega arith

length-pick :
    (fs : List Frame)
    → length (pick is_high fs) + length (pick is_normal fs) + length (pick is_low fs) ≡ length fs
length-pick [] = omega arith
length-pick (f ∷ fs) = omega (
  arith,
  length-pick fs,
  length_classes (resolve_priority f) (request f) (pick is_high fs) (pick is_normal fs)
      (pick is_low fs),
)

abbrev pub by_class : List Frame → List PendingRequest
by_class fs = pick is_high fs ++ (pick is_normal fs ++ pick is_low fs)

pub length-by_class : (fs : List Frame) → length (by_class fs) ≡ length fs
length-by_class fs = omega (
  arith,
  length-append (pick is_high fs) (pick is_normal fs ++ pick is_low fs),
  length-append (pick is_normal fs) (pick is_low fs),
  length-pick fs,
)

-- Frames that are queued together into an empty queue are served, by as many calls of `pop` as there
-- are frames: first the high and the critical ones, which are handshakes and wait with the high ones,
-- then normal, then low, and within a class as they arrived.
pub drain-push_frames : (fs : List Frame) → drain (length fs) (push_frames new fs) ≡ by_class fs
unfolding new push
drain-push_frames fs =
    let highs =
      class-push_frames (λ q. q.high_requests) is_high (λ q r. enqueue-high r.priority q r) new
        fs in
    let normals =
      class-push_frames (λ q. q.normal_requests) is_normal (λ q r. enqueue-normal r.priority q r)
        new fs in
    let lows =
      class-push_frames (λ q. q.low_requests) is_low (λ q r. enqueue-low r.priority q r) new fs in
    let all : order (push_frames new fs) ≡ by_class fs = ap₂ ◌++◌ highs (ap₂ ◌++◌ normals lows) in
    drain-order (length fs) (push_frames new fs) (omega (arith, ap length all, length-by_class fs))
    ∙ all
