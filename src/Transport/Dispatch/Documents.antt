-- ===== src/Transport/Dispatch/Documents.antt =====
-- Raw documents: the bytes that are a sequence of documents.
use mongocore.Prelude.{
  ℕ, zero, suc, ◌+◌, ◌≤◌, ◌<◌, ltb, Bytes, ◌≡◌, refl, sym, ap, ◌∙◌, subst, ◌↔◌, inl, inr,
  Bool-cases, false, Option-cases, List, [], ◌∷◌, ◌++◌, length, take, drop, length-append,
  length-take, take-append, drop-append, take-append-drop, some, Result, ok, map_err, ok_injective,
  ◌>>=◌, >>=-eq-ok, map_err-eq-ok, arith,
}
use mongocore.Transport.Codec.{Bson}
use mongocore.Transport.Dispatch.{
  Malformed, length_prefix, unparsable_at, parse_prefixed, parse_from, parse_bson_docs,
}

module _ (lib : Bson) where
  open lib use {Document, from_slice, to_vec}

  -- A chunk that states its own length, of five bytes at least, and is a document.
  pub record IsChunk (d : Document) (chunk : Bytes) : Type 0 where
    pub states : length_prefix chunk ≡ some (length chunk)
    pub least : 5 ≤ length chunk
    pub parses : from_slice chunk ≡ ok d

  pub data Chunks : List Document → Bytes → Type 0 where
    nil : Chunks [] []
    cons :
        (d : Document) (chunk : Bytes) {docs : List Document} {rest : Bytes}
        → IsChunk d chunk
        → Chunks docs rest
        → Chunks (d ∷ docs) (chunk ++ rest)

  length_prefix-append :
      (chunk rest : Bytes) (n : ℕ)
      → length_prefix chunk ≡ some n
      → length_prefix (chunk ++ rest) ≡ some n
  unfolding length_prefix
  length_prefix-append (a ∷ b ∷ c ∷ d ∷ chunk) rest n h = h
  length_prefix-append [] rest n h = cc h
  length_prefix-append (a ∷ []) rest n h = cc h
  length_prefix-append (a ∷ b ∷ []) rest n h = cc h
  length_prefix-append (a ∷ b ∷ c ∷ []) rest n h = cc h

  length_prefix-take :
      (raw : Bytes) (n k : ℕ)
      → 4 ≤ k
      → length_prefix raw ≡ some n
      → length_prefix (take k raw) ≡ some n
  unfolding length_prefix
  length_prefix-take (a ∷ b ∷ c ∷ d ∷ raw) n (suc (suc (suc (suc k)))) h e = e
  length_prefix-take (a ∷ b ∷ c ∷ d ∷ raw) n zero h e = absurd (omega arith)
  length_prefix-take (a ∷ b ∷ c ∷ d ∷ raw) n (suc zero) h e = absurd (omega arith)
  length_prefix-take (a ∷ b ∷ c ∷ d ∷ raw) n (suc (suc zero)) h e = absurd (omega arith)
  length_prefix-take (a ∷ b ∷ c ∷ d ∷ raw) n (suc (suc (suc zero))) h e = absurd (omega arith)
  length_prefix-take [] n k h e = cc e
  length_prefix-take (a ∷ []) n k h e = cc e
  length_prefix-take (a ∷ b ∷ []) n k h e = cc e
  length_prefix-take (a ∷ b ∷ c ∷ []) n k h e = cc e

  -- A round of the loop at a chunk.
  parse_prefixed-chunk :
      (next : ℕ → Bytes → Result Malformed (List Document)) (offset : ℕ) (d : Document)
      (chunk rest : Bytes) (docs : List Document)
      → IsChunk d chunk
      → next (offset + length chunk) rest ≡ ok docs
      → parse_prefixed lib next offset (chunk ++ rest) (length_prefix (chunk ++ rest))
        ≡ ok (d ∷ docs)
  unfolding parse_prefixed
  parse_prefixed-chunk next offset d chunk rest docs c h =
      let prefix = length_prefix-append chunk rest (length chunk) c.states in
      let least : ltb (length chunk) 5 ≡ false = ground (arith, c.least) in
      let enough : ltb (length (chunk ++ rest)) (length chunk) ≡ false =
        ground (arith, length-append chunk rest) in
      rw
        (
          prefix,
          parse_prefixed,
          least,
          enough,
          take-append chunk rest,
          drop-append chunk rest,
          c.parses,
          map_err,
          h,
        )
        refl

  -- A round at bytes that are not at their end.
  parse_from-round :
      (fuel offset : ℕ) (raw : Bytes)
      → 0 < length raw
      → parse_from lib (suc fuel) offset raw
        ≡ parse_prefixed lib (parse_from lib fuel) offset raw (length_prefix raw)
  unfolding parse_from
  parse_from-round fuel offset [] h = absurd (omega arith)
  parse_from-round fuel offset (b ∷ raw) h = refl

  parse_from-Chunks :
      (fuel offset : ℕ) {docs : List Document} {raw : Bytes}
      → Chunks docs raw
      → length raw ≤ fuel
      → parse_from lib fuel offset raw ≡ ok docs
  unfolding parse_from
  parse_from-Chunks zero offset nil h = refl
  parse_from-Chunks (suc fuel) offset nil h = refl
  parse_from-Chunks zero offset (cons d chunk {rest = rest} c cs) h =
      absurd (omega (arith, length-append chunk rest, c.least))
  parse_from-Chunks (suc fuel) offset (cons d chunk {docs = docs} {rest = rest} c cs) h =
      let sizes = length-append chunk rest in
      let least = c.least in
      parse_from-round fuel offset (chunk ++ rest) (omega arith)
      ∙ parse_prefixed-chunk (parse_from lib fuel) offset d chunk rest docs c
          (parse_from-Chunks fuel (offset + length chunk) cs (omega arith))

  -- What a round that succeeds has read: a chunk, and the rest as `next` reads it.
  pub record Round (next : ℕ → Bytes → Result Malformed (List Document)) (offset : ℕ) (raw : Bytes)
      (docs : List Document) : Type 0 where
    pub head : Document
    pub tail : List Document
    pub chunk : Bytes
    pub rest : Bytes
    pub first : IsChunk head chunk
    pub cut : raw ≡ chunk ++ rest
    pub others : next (offset + length chunk) rest ≡ ok tail
    pub all : docs ≡ head ∷ tail

  parse_prefixed-Round :
      (next : ℕ → Bytes → Result Malformed (List Document)) (offset : ℕ) (raw : Bytes)
      (docs : List Document)
      → parse_prefixed lib next offset raw (length_prefix raw) ≡ ok docs
      → Round next offset raw docs
  unfolding parse_prefixed
  parse_prefixed-Round next offset raw docs h = elim (Option-cases (length_prefix raw)) [
    | inl e ↦ cc (rw e at h)
    | inr (len, e) ↦ elim (Bool-cases (ltb len 5)) [
      | inl short ↦ cc (rw (e, short) at h)
      | inr least ↦ elim (Bool-cases (ltb (length raw) len)) [
        | inl beyond ↦ cc (rw (e, least, beyond) at h)
        | inr inside ↦
            let h' = rw (e, least, inside) at h in
            let (d, first, more) =
              >>=-eq-ok (map_err (unparsable_at offset) (from_slice (take len raw)))
                (λ x. next (offset + len) (drop len raw) >>= λ ds. ok (x ∷ ds)) h' in
            let (tail, others, last) =
              >>=-eq-ok (next (offset + len) (drop len raw)) (λ ds. ok (d ∷ ds)) more in
            let size : length (take len raw) ≡ len = length-take len raw (ground arith) in
            record {
              head = d;
              tail = tail;
              chunk = take len raw;
              rest = drop len raw;
              first = record {
                states = length_prefix-take raw len len (ground arith) e ∙ ap some (sym size);
                least = ground arith;
                parses = map_err-eq-ok _ _ first;
              };
              cut = sym (take-append-drop len raw);
              others = rw size others;
              all = sym (ok_injective last);
            }
      ]
    ]
  ]

  Chunks-parse_from :
      (fuel offset : ℕ) (docs : List Document) (raw : Bytes)
      → parse_from lib fuel offset raw ≡ ok docs
      → Chunks docs raw
  unfolding parse_from
  Chunks-parse_from zero offset docs [] h = subst (λ ds. Chunks ds []) (ok_injective h) nil
  Chunks-parse_from (suc fuel) offset docs [] h = subst (λ ds. Chunks ds []) (ok_injective h) nil
  Chunks-parse_from zero offset docs (b ∷ raw) h = cc h
  Chunks-parse_from (suc fuel) offset docs (b ∷ raw) h =
      let r = parse_prefixed-Round (parse_from lib fuel) offset (b ∷ raw) docs h in
      subst (λ ds. Chunks ds (b ∷ raw)) (sym r.all)
        (subst (λ bs. Chunks (r.head ∷ r.tail) bs) (sym r.cut)
          (cons r.head r.chunk r.first
            (Chunks-parse_from fuel (offset + length r.chunk) r.tail r.rest r.others)))

  -- Raw bytes are read as some documents exactly if they are these documents one after another, each
  -- in a chunk that states its own length of five bytes at least.
  pub parse_bson_docs_iff :
      (docs : List Document) (raw : Bytes) → (parse_bson_docs lib raw ≡ ok docs) ↔ Chunks docs raw
  unfolding parse_bson_docs
  parse_bson_docs_iff docs raw = (
    Chunks-parse_from (length raw) 0 docs raw,
    λ cs. parse_from-Chunks (length raw) 0 cs (omega arith),
  )
