-- ===== src/Stream/Reader/Eviction.antt =====
-- aff4tools: src/stream.rs, the chunk cache of `ChunkReader`: what the eviction of `chunk_bytes`
-- keeps, and how much the cache holds.
use aff4tools.Prelude.{
  ℕ, ◌+◌, ◌-◌, ◌*◌, ◌≤◌, ◌≡◌, refl, sym, ap, inl, inr, max, none, some, List, [], ◌∷◌, ◌++◌, arith,
  ltb, ◌==◌, ==_refl, length, All, append-All, Bool-cases,
}
use aff4tools.Stream.Reader.{
  ChunkReader, ChunkCache, chunk_cache_bytes, bytes_gone, get, insert, remove, evict, with_chunk,
}

abbrev Chunks : Type 0
Chunks = List (ℕ × List ℕ)

unfoldable pub keys : Chunks → List ℕ
keys [] = []
keys (e ∷ es) = e.0 ∷ keys es

unfoldable pub total : Chunks → ℕ
total [] = 0
total (e ∷ es) = length e.1 + total es

keys-append : (es fs : Chunks) → keys (es ++ fs) ≡ keys es ++ keys fs
unfolding keys
keys-append [] fs = refl
keys-append (e ∷ es) fs = ap (λ ks. e.0 ∷ ks) (keys-append es fs)

total-append : (es fs : Chunks) → total (es ++ fs) ≡ total es + total fs
unfolding total
total-append [] fs = omega arith
total-append (e ∷ es) fs = rw (total-append es fs) (omega arith)

All-later : (P : ℕ × List ℕ → Type 0) (es fs : Chunks) → All P (es ++ fs) → All P fs
All-later P [] fs all = all
All-later P (e ∷ es) fs all = All-later P es fs all.1

get-later : (n : ℕ) (es fs : Chunks) → get n (es ++ fs) ≡ none → get n fs ≡ none
unfolding get
get-later n [] fs h = h
get-later n ((k, a) ∷ es) fs h = elim (Bool-cases (k == n)) [
  | inl here ↦ let clash : some a ≡ none = rw here at h in cc
  | inr later ↦ get-later n es fs (rw later at h)
]

insert-absent :
    (n : ℕ) (a : List ℕ) (es : Chunks) → get n es ≡ none → insert n a es ≡ es ++ ((n, a) ∷ [])
unfolding get insert
insert-absent n a [] h = refl
insert-absent n a ((k, b) ∷ es) h = elim (Bool-cases (k == n)) [
  | inl here ↦ let clash : some b ≡ none = rw here at h in cc
  | inr later ↦ rw (later, insert-absent n a es (rw later at h)) refl
]

pub get-append_new :
    (n : ℕ) (a : List ℕ) (es : Chunks) → get n es ≡ none → get n (es ++ ((n, a) ∷ [])) ≡ some a
unfolding get
get-append_new n a [] h = rw (==_refl n) refl
get-append_new n a ((k, b) ∷ es) h = elim (Bool-cases (k == n)) [
  | inl here ↦ let clash : some b ≡ none = rw here at h in cc
  | inr later ↦ rw later (get-append_new n a es (rw later at h))
]

module _ (limit : ℕ) where
  -- Every chunk of a list has at most `limit` bytes.
  abbrev pub IsShort : Chunks → Type 0
  IsShort chunks = All (λ (e : ℕ × List ℕ). length e.1 ≤ limit) chunks

  -- The order and the byte count are those of the chunks held, each of which is at most `limit`
  -- bytes long, and together they are at most the cache's size, or two chunks.
  pub record IsTracked (reader : ChunkReader) : Type 0 where
    pub ordered : reader.chunk_order ≡ keys reader.chunk
    pub counted : reader.chunk_bytes_held ≡ total reader.chunk
    pub short : IsShort reader.chunk
    pub bounded : total reader.chunk ≤ max chunk_cache_bytes (2 * limit)

  -- What the eviction leaves for a newcomer: the end of the cache, with room.
  abbrev Kept : ℕ → Chunks → ChunkCache → Type 0
  Kept incoming chunks cache =
      (before kept : Chunks) × (chunks ≡ before ++ kept)
      × (cache ≡ record { chunks = kept; order = keys kept; held = total kept })
      × (total kept + incoming ≤ max chunk_cache_bytes (2 * limit))

  evict-Kept :
      (incoming : ℕ) (chunks : Chunks)
      → incoming ≤ limit
      → IsShort chunks
      → Kept incoming chunks (evict incoming (keys chunks) chunks (total chunks))
  unfolding evict keys total get remove bytes_gone
  evict-Kept incoming [] fits short = ([], [], refl, refl, omega arith)
  evict-Kept incoming ((v, b) ∷ []) fits short =
      ([], (v, b) ∷ [], refl, refl, let h : length b ≤ limit = short.0 in omega arith)
  evict-Kept incoming ((v, b) ∷ (w, c) ∷ es) fits short =
      elim (Bool-cases (ltb chunk_cache_bytes (length b + (length c + total es) + incoming))) [
        | inr room ↦ ([], (v, b) ∷ (w, c) ∷ es, refl, rw room refl, ground arith)
        | inl full ↦
            let (before, kept, split, same, fit) = evict-Kept incoming ((w, c) ∷ es) fits short.1 in
            let counted : (length b + (length c + total es)) - length b ≡ length c + total es =
              omega arith in
            (
              (v, b) ∷ before,
              kept,
              ap (λ l. (v, b) ∷ l) split,
              rw (full, ==_refl v, counted) same,
              fit,
            )
      ]

  -- The reader that `chunk_bytes` leaves behind: the newest chunk is the last.
  pub with_chunk-Kept :
      (n : ℕ) (plain : List ℕ) (reader : ChunkReader)
      → IsTracked reader
      → get n reader.chunk ≡ none
      → length plain ≤ limit
      → (before kept : Chunks) × (reader.chunk ≡ before ++ kept)
        × (get n kept ≡ none)
        × (with_chunk n plain reader ≡ record reader {
          chunk = kept ++ ((n, plain) ∷ []);
          chunk_order = keys kept ++ (n ∷ []);
          chunk_bytes_held = total kept + length plain;
        })
        × (total kept + length plain ≤ max chunk_cache_bytes (2 * limit))
  unfolding with_chunk
  with_chunk-Kept n plain reader tracked absent fits =
      let (before, kept, split, same, room) =
        evict-Kept (length plain) reader.chunk fits tracked.short in
      let lacks : get n kept ≡ none = get-later n before kept (rw split at absent) in
      (
        before,
        kept,
        split,
        lacks,
        rw (tracked.ordered, tracked.counted, same, insert-absent n plain kept lacks) refl,
        room,
      )

  pub IsTracked-with_chunk :
      (n : ℕ) (plain : List ℕ) (reader : ChunkReader)
      → IsTracked reader
      → get n reader.chunk ≡ none
      → length plain ≤ limit
      → IsTracked (with_chunk n plain reader)
  unfolding keys total
  IsTracked-with_chunk n plain reader tracked absent fits =
      let (before, kept, split, lacks, same, room) =
        with_chunk-Kept n plain reader tracked absent fits in
      let counted : total (kept ++ ((n, plain) ∷ [])) ≡ total kept + length plain =
        rw (total-append kept ((n, plain) ∷ [])) (omega arith) in
      rw same (record {
        ordered = sym (keys-append kept ((n, plain) ∷ []));
        counted = sym counted;
        short =
            append-All _ kept ((n, plain) ∷ [])
              (All-later _ before kept (rw split at tracked.short)) (fits, tt);
        bounded = rw counted room;
      })
