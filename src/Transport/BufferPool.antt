-- ===== src/Transport/BufferPool.antt =====
-- src/transport/buffer_pool.rs, and the pooled read of src/transport/frame.rs. The buffers
-- (`BytesMut`) and the bounded queues (`ArrayQueue`) are other crates': the record says what those
-- document.
pub mod Stock
pub mod Pooled
use mongocore.Prelude.{
  ℕ, zero, suc, ◌+◌, ◌-◌, ◌*◌, ◌≤◌, max, ltb, leb, ◌==◌, if◌then◌else◌, Bytes, ◌≡◌, String, List,
  [], ◌∷◌, ◌++◌, length, Option, none, some, Result, ok, err, ◌>>=◌, map_err,
}
use mongocore.Transport.Flags.{FrameError, io, frame_too_large}
use mongocore.Transport.Frame.{
  Frame, FrameHeader, Reader, decode_header, header_size, split_payload,
}

pub record Buffers : Type 1 where
  pub Buffer : Type 0
  pub contents : Buffer → Bytes
  pub capacity : Buffer → ℕ
  pub with_capacity : ℕ → Buffer
  pub clear : Buffer → Buffer
  pub resize : Buffer → ℕ → Buffer
  pub contents-with_capacity : (n : ℕ) → contents (with_capacity n) ≡ []
  pub capacity-with_capacity : (n : ℕ) → n ≤ capacity (with_capacity n)
  pub contents-clear : (b : Buffer) → contents (clear b) ≡ []
  pub capacity-clear : (b : Buffer) → capacity (clear b) ≡ capacity b
  pub length-resize : (b : Buffer) (n : ℕ) → length (contents (resize b n)) ≡ n
  pub Queue : Type 0
  pub queued : Queue → List Buffer
  pub room : Queue → ℕ
  pub new : ℕ → Queue
  pub push : Queue → Buffer → Queue
  pub pop : Queue → Option (Buffer × Queue)
  pub queued-new : (n : ℕ) → queued (new n) ≡ []
  pub room-new : (n : ℕ) → room (new n) ≡ n
  -- A full queue refuses the buffer.
  pub queued-push :
      (q : Queue) (b : Buffer)
      → queued (push q b)
        ≡ (if ltb (length (queued q)) (room q) then queued q ++ b ∷ [] else queued q)
  pub room-push : (q : Queue) (b : Buffer) → room (push q b) ≡ room q
  pub pop_empty : (q : Queue) → queued q ≡ [] → pop q ≡ none
  pub pop_front :
      (q : Queue) (b : Buffer) (bs : List Buffer)
      → queued q ≡ b ∷ bs
      → (q' : Queue) × (pop q ≡ some (b, q')) × (queued q' ≡ bs) × (room q' ≡ room q)

abbrev pub small_size : ℕ
small_size = 4 * 1024

abbrev pub medium_size : ℕ
medium_size = 64 * 1024

abbrev pub large_size : ℕ
large_size = 1024 * 1024

pub record BufferPoolConfig : Type 0 where
  pub small_count : ℕ
  pub medium_count : ℕ
  pub large_count : ℕ

-- `BufferPoolConfig::default`.
abbrev pub default_config : BufferPoolConfig
default_config = record { small_count = 256; medium_count = 64; large_count = 16 }

module _ (lib : Buffers) where
  open lib use {Buffer, capacity, with_capacity, clear, resize, contents, Queue, new, push, pop}

  pub record BufferPool : Type 0 where
    pub small : Queue
    pub medium : Queue
    pub large : Queue

  -- `for _ in 0..count { let _ = q.push(BytesMut::with_capacity(size)); }`
  unfoldable pub fill : ℕ → ℕ → Queue → Queue
  fill zero size q = q
  fill (suc count) size q = fill count size (push q (with_capacity size))

  unfoldable pub new_pool : BufferPoolConfig → BufferPool
  new_pool config = record {
    small = fill config.small_count small_size (new (max config.small_count 1));
    medium = fill config.medium_count medium_size (new (max config.medium_count 1));
    large = fill config.large_count large_size (new (max config.large_count 1));
  }

  -- A queue's front buffer, cleared, or a new one.
  unfoldable pub take_from : ℕ → Queue → Buffer × Queue
  take_from size q = elim (pop q) [ none ↦ (with_capacity size, q) | some (b, q') ↦ (clear b, q') ]

  unfoldable pub checkout : BufferPool → ℕ → Buffer × BufferPool
  checkout p needed =
      if leb needed small_size
      then (let (b, q) = take_from small_size p.small in (b, record p { small = q }))
      else if leb needed medium_size
      then (let (b, q) = take_from medium_size p.medium in (b, record p { medium = q }))
      else if leb needed large_size
      then (let (b, q) = take_from large_size p.large in (b, record p { large = q }))
      else (with_capacity needed, p)

  unfoldable pub checkin : BufferPool → Buffer → BufferPool
  checkin p buf =
      let b = clear buf in
      if leb (capacity b) small_size
      then record p { small = push p.small b }
      else if leb (capacity b) medium_size
      then record p { medium = push p.medium b }
      else if leb (capacity b) large_size
      then record p { large = push p.large b }
      else p

  module _ (r : Reader) where
    open r use {State, read_exact}

    -- `read_frame_pooled`, from the header on. The buffer's own bytes are overwritten.
    unfoldable pub read_payload_pooled :
        FrameHeader → State → BufferPool → Result FrameError (Frame × State) × BufferPool
    read_payload_pooled header s p =
        let payload_len : ℕ = header.msg_len - 6 in
        if payload_len == 0
        then (ok (record { header = header; envelope = []; raw_docs = [] }, s), p)
        else (let (buf, p') = checkout p payload_len in
            let payload = resize buf payload_len in
            (
              map_err io (read_exact (length (contents payload)) s) >>= λ (bytes, s').
                  split_payload header bytes >>= λ frame. ok (frame, s'),
              p',
            ))

    -- The header is checked before a buffer is taken.
    unfoldable pub read_frame_pooled :
        ℕ → State → BufferPool → Result FrameError (Frame × State) × BufferPool
    read_frame_pooled max_frame_size s p = elim (map_err io (read_exact header_size s)) [
      | err e ↦ (err e, p)
      | ok (header_buf, s') ↦ elim (decode_header header_buf) [
        | err e ↦ (err e, p)
        | ok header ↦
            if ltb max_frame_size header.msg_len
            then (err frame_too_large, p)
            else read_payload_pooled header s' p
      ]
    ]
