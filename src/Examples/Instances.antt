-- ===== src/Examples/Instances.antt =====
-- Crates, sockets and a driver that do what the models' parameters ask for.
use mongocore.Prelude.{
  ℕ, zero, suc, ◌≤◌, ◌<◌, ltb, leb, min, max, str_eq, eq_iff, if◌then◌else◌, Bytes, String, ◌≡◌,
  refl, sym, ap, subst, Bool, true, false, ◌&&◌, Bool-cases, inl, inr, List, [], ◌∷◌, ◌++◌, length,
  take, drop, replicate, Option, none, some, Result, ok, err, arith,
}
use mongocore.Transport.Frame.{Reader, Writer}
use mongocore.Transport.BufferPool.{Buffers}
use mongocore.Transport.Codec.{Bson, last_field, and_then}

-- A socket with a fixed stream of bytes to come.
abbrev pub take_exact : ℕ → Bytes → Result String (Bytes × Bytes)
take_exact n s = if leb n (length s) then ok (take n s, drop n s) else err "early eof"

pub take_exact_full :
    (n : ℕ) (s : Bytes)
    → n ≤ length s
    → (s' : Bytes) × (take_exact n s ≡ ok (take n s, s')) × (s' ≡ drop n s)
take_exact_full n s h =
    let fits : leb n (length s) ≡ true = ground arith in (drop n s, rw fits refl, refl)

pub take_exact_short :
    (n : ℕ) (s : Bytes) → length s < n → (message : String) × (take_exact n s ≡ err message)
take_exact_short n s h =
    let short : leb n (length s) ≡ false = ground arith in ("early eof", rw short refl)

abbrev pub fixed_reader : Reader
fixed_reader = record {
  State = Bytes;
  incoming = λ s. s;
  read_exact = take_exact;
  read_exact_full = take_exact_full;
  read_exact_short = take_exact_short;
}

-- A socket that takes at most sixteen bytes of a vectored write.
abbrev pub partial_writer : Writer
partial_writer = record {
  State = Bytes;
  sent = λ s. s;
  write_vectored = λ a b c s. ok (
    min 16 (length (a ++ (b ++ c))),
    s ++ take (min 16 (length (a ++ (b ++ c)))) (a ++ (b ++ c)),
  );
  write_all = λ bytes s. ok (s ++ bytes);
  flush = λ s. ok s;
  after_error = λ s. s;
  write_vectored_sent = λ a b c s n s' h.
      let same : ◌≡◌ {A = ℕ × Bytes}
          (
            min 16 (length (a ++ (b ++ c))),
            s ++ take (min 16 (length (a ++ (b ++ c)))) (a ++ (b ++ c)),
          )
          (n, s') =
        cc h in
      subst
        (λ (p : ℕ × Bytes). (p.0 ≤ length (a ++ (b ++ c))) × (p.1 ≡ s ++ take p.0 (a ++ (b ++ c))))
        same (omega arith, refl);
  write_all_sent = λ bytes s s' h. cc h;
  flush_sent = λ s s' h. cc h;
}

pub length-replicate : (n : ℕ) (b : ℕ) → length (replicate n b) ≡ n
length-replicate zero b = refl
length-replicate (suc n) b = ap suc (length-replicate n b)

abbrev pub Queue : Type 0
Queue = List (Bytes × ℕ) × ℕ

abbrev pub pop_buffer : Queue → Option ((Bytes × ℕ) × Queue)
pop_buffer ([], room) = none
pop_buffer (b ∷ bs, room) = some (b, (bs, room))

pub pop_buffer_empty : (q : Queue) → q.0 ≡ [] → pop_buffer q ≡ none
pop_buffer_empty ([], room) h = refl
pop_buffer_empty (b ∷ bs, room) h = cc h

pub pop_buffer_front :
    (q : Queue) (b : Bytes × ℕ) (bs : List (Bytes × ℕ))
    → q.0 ≡ b ∷ bs
    → (q' : Queue) × (pop_buffer q ≡ some (b, q')) × (q'.0 ≡ bs) × (q'.1 ≡ q.1)
pop_buffer_front ([], room) b bs h = cc h
pop_buffer_front (c ∷ cs, room) b bs h =
    let same : c ≡ b = cc h in ((cs, room), ap (λ d. some (d, (cs, room))) same, cc h, refl)

-- Buffers are their bytes with a capacity; queues are lists with a bound.
abbrev pub list_buffers : Buffers
list_buffers = record {
  Buffer = Bytes × ℕ;
  contents = λ b. b.0;
  capacity = λ b. b.1;
  with_capacity = λ n. ([], n);
  clear = λ b. ([], b.1);
  resize = λ b n. (replicate n 0, max b.1 n);
  contents-with_capacity = λ n. refl;
  capacity-with_capacity = λ n. omega arith;
  contents-clear = λ b. refl;
  capacity-clear = λ b. refl;
  length-resize = λ b n. length-replicate n 0;
  Queue = Queue;
  queued = λ q. q.0;
  room = λ q. q.1;
  new = λ n. ([], n);
  push = λ q b. (if ltb (length q.0) q.1 then q.0 ++ b ∷ [] else q.0, q.1);
  pop = pop_buffer;
  queued-new = λ n. refl;
  room-new = λ n. refl;
  queued-push = λ q b. refl;
  room-push = λ q b. refl;
  pop_empty = pop_buffer_empty;
  pop_front = pop_buffer_front;
}

-- The values of a document, as far as the examples need any. What a server writes as text is kept
-- as `other`, without the text.
pub data Item : Type 0 where
  int : ℕ → Item
  text : String → Item
  flag : Bool → Item
  other : Item

abbrev pub Doc : Type 0
Doc = List (String × Item)

abbrev pub as_int : Item → Option ℕ
as_int (int n) = some n
as_int _ = none

abbrev pub as_text : Item → Option String
as_text (text s) = some s
as_text _ = none

abbrev pub as_flag : Item → Option Bool
as_flag (flag b) = some b
as_flag _ = none

-- The documents that these bytes stand for: an envelope with the length of raw bytes, that of a
-- handshake's answer, and a client's request.
abbrev pub read_doc : Bytes → Result String Doc
read_doc (t ∷ []) = ok (("client_language", text "rust") ∷ ("db", text "shop") ∷ [])
read_doc (t ∷ n ∷ []) = ok (("doc_bytes_len", int n) ∷ [])
read_doc (t ∷ a ∷ b ∷ []) = ok (("client_language", text "rust") ∷ [])
read_doc (t ∷ a ∷ b ∷ n ∷ []) =
    ok (("max_frame_size", int a) ∷ ("max_concurrent", int b) ∷ ("doc_bytes_len", int n) ∷ [])
read_doc (t ∷ a ∷ b ∷ c ∷ n ∷ []) =
    ok (("code", int c) ∷ ("message", other) ∷ ("doc_bytes_len", int n) ∷ [])
read_doc _ = err "malformed"

abbrev pub write_doc : Doc → Result String Bytes
write_doc ((k, int n) ∷ []) =
    if str_eq k "doc_bytes_len" then ok (1 ∷ n ∷ []) else err "no such document"
write_doc ((i, int a) ∷ (j, int b) ∷ (k, int n) ∷ []) =
    if str_eq i "max_frame_size" && (str_eq j "max_concurrent" && str_eq k "doc_bytes_len")
    then ok (3 ∷ a ∷ b ∷ n ∷ [])
    else err "no such document"
write_doc ((i, int c) ∷ (j, other) ∷ (k, int n) ∷ []) =
    if str_eq i "code" && (str_eq j "message" && str_eq k "doc_bytes_len")
    then ok (5 ∷ 0 ∷ 0 ∷ c ∷ n ∷ [])
    else err "no such document"
write_doc _ = err "no such document"

both : (a b : Bool) → (a && b) ≡ true → (a ≡ true) × (b ≡ true)
both a b h = ground arith

pub read_doc-write_doc : (d : Doc) (bytes : Bytes) → write_doc d ≡ ok bytes → read_doc bytes ≡ ok d
read_doc-write_doc ((k, int n) ∷ []) bytes h = elim (Bool-cases (str_eq k "doc_bytes_len")) [
  | inr e ↦ cc (rw e at h)
  | inl e ↦
      let out : ◌≡◌ {A = Result String Bytes} (ok (1 ∷ n ∷ [])) (ok bytes) = rw e at h in
      let same : ◌≡◌ {A = Bytes} (1 ∷ n ∷ []) bytes = cc out in
      subst (λ (bs : Bytes). read_doc bs ≡ ok ((k, int n) ∷ [])) same
        (ap (λ j. ok ((j, int n) ∷ [])) (sym ((eq_iff k "doc_bytes_len").0 e)))
]
read_doc-write_doc ((i, int a) ∷ (j, int b) ∷ (k, int n) ∷ []) bytes h =
    let test =
      str_eq i "max_frame_size" && (str_eq j "max_concurrent" && str_eq k "doc_bytes_len") in
    elim (Bool-cases test) [
      | inr e ↦ cc (rw e at h)
      | inl e ↦
          let out : ◌≡◌ {A = Result String Bytes} (ok (3 ∷ a ∷ b ∷ n ∷ [])) (ok bytes) =
            rw e at h in
          let same : ◌≡◌ {A = Bytes} (3 ∷ a ∷ b ∷ n ∷ []) bytes = cc out in
          let (e₁, rest) = both _ _ e in
          let (e₂, e₃) = both _ _ rest in
          let f₁ = (eq_iff i "max_frame_size").0 e₁ in
          let f₂ = (eq_iff j "max_concurrent").0 e₂ in
          let f₃ = (eq_iff k "doc_bytes_len").0 e₃ in
          subst (λ (bs : Bytes). read_doc bs ≡ ok ((i, int a) ∷ (j, int b) ∷ (k, int n) ∷ [])) same
            (rw (f₁, f₂, f₃) refl)
    ]
read_doc-write_doc ((i, int c) ∷ (j, other) ∷ (k, int n) ∷ []) bytes h =
    let test = str_eq i "code" && (str_eq j "message" && str_eq k "doc_bytes_len") in
    elim (Bool-cases test) [
      | inr e ↦ cc (rw e at h)
      | inl e ↦
          let out : ◌≡◌ {A = Result String Bytes} (ok (5 ∷ 0 ∷ 0 ∷ c ∷ n ∷ [])) (ok bytes) =
            rw e at h in
          let same : ◌≡◌ {A = Bytes} (5 ∷ 0 ∷ 0 ∷ c ∷ n ∷ []) bytes = cc out in
          let (e₁, rest) = both _ _ e in
          let (e₂, e₃) = both _ _ rest in
          let f₁ = (eq_iff i "code").0 e₁ in
          let f₂ = (eq_iff j "message").0 e₂ in
          let f₃ = (eq_iff k "doc_bytes_len").0 e₃ in
          subst (λ (bs : Bytes). read_doc bs ≡ ok ((i, int c) ∷ (j, other) ∷ (k, int n) ∷ [])) same
            (rw (f₁, f₂, f₃) refl)
    ]
read_doc-write_doc _ bytes h = cc h

abbrev pub small_bson : Bson
small_bson = record {
  Document = Doc;
  Value = Item;
  new = [];
  from_slice = read_doc;
  to_vec = write_doc;
  get_str = λ d k. and_then (last_field k d) as_text;
  get_document = λ d k. none;
  get_i32 = λ d k. and_then (last_field k d) as_int;
  get_i64 = λ d k. and_then (last_field k d) as_int;
  get_bool = λ d k. and_then (last_field k d) as_flag;
  get_array = λ d k. none;
  as_document = λ v. none;
  as_i32 = as_int;
  i32 = int;
  i64 = int;
  string = λ message. other;
  boolean = flag;
  array = λ items. other;
  doc = λ fields. fields;
  as_i32-i32 = λ n. refl;
  get_i32-doc = λ fields k. refl;
  from_slice-to_vec = read_doc-write_doc;
}
