-- ===== src/Stream/Pass.antt =====
-- aff4tools: src/stream.rs, what a pass over a whole stream delivers: its chunks, one after the
-- other.
pub mod Runs
pub mod Whole
pub mod Readable
pub mod Feeds
pub mod Total
use aff4tools.Prelude.{
  ℕ, zero, suc, ◌+◌, ◌-◌, ◌*◌, ◌/◌, ◌%◌, ◌≤◌, ◌<◌, ◌≡◌, ◌⊎◌, refl, sym, ap, ◌∙◌, inl, inr, min,
  Option, some, List, [], ◌∷◌, ◌++◌, arith, ltb, ◌==◌, ltb→lt, length, length-append, length-take,
  take, take_all, drop, get_elem?, flatten, flatten-append, sat_add, u64_max, Bool-cases,
  Option-cases,
}
use aff4tools.Prelude.Results.{Result, ok, err, >>=-eq-ok, ok-injective}
use aff4tools.Prelude.Exec.{Exec, Sink, continue, feed, feed-append, bind-eq-ok, lift, on_second}
use native.Mathlib.Nat.{div-eq_of_lt, mod-eq_of_lt, mul-add-div_right, mul-add-mod_self_right}
use aff4tools.Text.{Text}
use aff4tools.Arn.Member.{NameMapping}
use aff4tools.Codec.{ChunkError, Decoders, decompress_chunk, decompress_chunk_bounds}
use aff4tools.Map.Decode.{from_le_bytes}
use aff4tools.Stream.{
  ChunkLocation, ImageStream, StreamError, Volume, chunk_result, slice_chunk, refuse_short_chunk,
  decode_location, truncated, plain_chunk, deliver_chunks, read_bevy, read_bevies,
  read_all_observed, bevy_name, bevy_count, parse_index_bounded, index_entry_len, short_stream,
  no_member, index_suffix, on_first,
}
use aff4tools.Stream.Exact.{
  slice_chunk_iff, parse_index_bounded_size, get_elem?-parse_index_bounded,
}
use aff4tools.Stream.Reader.Reference.{Holds}

-- Entry `k` of an index: where its chunk begins in the bevy, and how long it is there.
abbrev pub entry_offset : (index : List ℕ) (k : ℕ) → ℕ
entry_offset index k =
    from_le_bytes (take 8 (take index_entry_len (drop (index_entry_len * k) index)))

abbrev pub entry_length : (index : List ℕ) (k : ℕ) → ℕ
entry_length index k =
    from_le_bytes (take 4 (drop 8 (take index_entry_len (drop (index_entry_len * k) index))))

chunk_result-ok :
    (r : Result ChunkError (List ℕ)) (out : List ℕ) → chunk_result r ≡ ok out → r ≡ ok out
chunk_result-ok (ok a) out h = let same : a ≡ out = ok-injective h in ap ok same
chunk_result-ok (err e) out h = cc

truncated-take :
    (stream : ImageStream) (d : ℕ) (plain : List ℕ)
    → truncated stream d plain ≡ take (stream.size - d) plain
unfolding truncated
truncated-take stream d plain = elim (Bool-cases (ltb (stream.size - d) (length plain))) [
  | inl long ↦ rw (long, truncated) refl
  | inr fits ↦ rw (fits, truncated) (sym (take_all (stream.size - d) plain (ground (arith, fits))))
]

long_enough :
    (stream : ImageStream) (n d : ℕ) (u : Unit {0})
    → stream.size ≤ u64_max
    → refuse_short_chunk stream n d ≡ ok u
    → (stream.chunk_size ≤ n) ⊎ (stream.size ≤ d + n)
unfolding refuse_short_chunk sat_add
long_enough stream n d u word h = ground arith

-- The bytes of one chunk: those of its location in the bevy, decompressed, and cut where the
-- stream ends. It is not short of that.
plain_chunk_cut :
    (decoders : Decoders) (stream : ImageStream) (bevy : List ℕ) (location : ChunkLocation)
    (i d : ℕ) (piece : List ℕ)
    → length bevy ≤ u64_max
    → stream.size ≤ u64_max
    → plain_chunk decoders stream bevy location i d ≡ ok piece
    → (plain : List ℕ) × (location.offset + location.length ≤ length bevy)
      × (decompress_chunk decoders stream.codec
            (take location.length (drop location.offset bevy))
            stream.chunk_size
          ≡ ok plain)
      × (piece ≡ take (stream.size - d) plain)
      × (length piece ≡ min stream.chunk_size (stream.size - d))
unfolding plain_chunk
plain_chunk_cut decoders stream bevy location i d piece small word h =
    let (input, sliced, h1) = >>=-eq-ok (slice_chunk bevy location i) _ h in
    let (plain, result, h2) =
      >>=-eq-ok (chunk_result (decompress_chunk decoders stream.codec input stream.chunk_size)) _
        h1 in
    let (u, long, h3) = >>=-eq-ok (refuse_short_chunk stream (length plain) d) _ h2 in
    let decoded = chunk_result-ok _ plain result in
    let (some_bytes, inside, same) = (slice_chunk_iff bevy location i input small).0 sliced in
    let fits =
      decompress_chunk_bounds decoders stream.codec input stream.chunk_size plain decoded in
    let cut : piece ≡ take (stream.size - d) plain =
      sym (ok-injective h3) ∙ truncated-take stream d plain in
    let enough = long_enough stream (length plain) d u word long in
    (
      plain,
      inside,
      ap (λ bytes. decompress_chunk decoders stream.codec bytes stream.chunk_size) (sym same)
          ∙ decoded,
      cut,
      ap length cut ∙ ground (arith, length-take (stream.size - d) plain, fits.0, enough),
    )

-- Chunk `n` is chunk `j` of bevy `i`.
pub place :
    (per_bevy i j n : ℕ)
    → j < per_bevy
    → n ≡ i * per_bevy + j
    → (n / per_bevy ≡ i) × (n % per_bevy ≡ j)
place per_bevy i j n inside e =
    let positive : 0 < per_bevy = omega (arith, inside) in
    let quotient : (i * per_bevy + j) / per_bevy ≡ i + j / per_bevy =
      mul-add-div_right positive i j in
    let none_more : j / per_bevy ≡ 0 = div-eq_of_lt inside in
    let rest = mul-add-mod_self_right i per_bevy j in
    let same : j % per_bevy ≡ j = mod-eq_of_lt inside in
    rw e (omega (arith, quotient, none_more), rest ∙ same)

module _ (decoders : Decoders) (stream : ImageStream) {V : Type 0} (volume : Volume V)
    (mapping : NameMapping) (stored : Text → Option (List ℕ)) where
  -- What chunk `n` of the stream is, read off the segments: the entry for it in the index of its
  -- bevy names a range of the bevy, which decompresses to the bytes of the chunk; they are cut
  -- where the stream ends, and are all that the stream has there.
  pub record IsChunk (n : ℕ) (piece : List ℕ) : Type 0 where
    pub name : Text
    pub index : List ℕ
    pub bevy : List ℕ
    pub plain : List ℕ
    pub named : bevy_name stream volume.arn mapping (n / stream.chunks_in_segment) ≡ some name
    pub indexed : stored (name ++ index_suffix) ≡ some index
    pub held : stored name ≡ some bevy
    pub inside :
        entry_offset index (n % stream.chunks_in_segment)
          + entry_length index (n % stream.chunks_in_segment)
        ≤ length bevy
    pub decoded :
        decompress_chunk decoders stream.codec
          (take
            (entry_length index (n % stream.chunks_in_segment))
            (drop (entry_offset index (n % stream.chunks_in_segment)) bevy))
          stream.chunk_size
        ≡ ok plain
    pub cut : piece ≡ take (stream.size - n * stream.chunk_size) plain
    pub whole : length piece ≡ min stream.chunk_size (stream.size - n * stream.chunk_size)

  -- The pieces are the chunks from number `n` on, in order.
  abbrev pub AreChunks : ℕ → List (List ℕ) → Type 0
  AreChunks n [] = Unit
  AreChunks n (p ∷ ps) = IsChunk n p × AreChunks (suc n) ps

  pub AreChunks-append :
      (n n' : ℕ) (ps qs : List (List ℕ))
      → n + length ps ≡ n'
      → AreChunks n ps
      → AreChunks n' qs
      → AreChunks n (ps ++ qs)
  AreChunks-append n n' [] qs e a b = let same : n ≡ n' = omega arith in rw same b
  AreChunks-append n n' (p ∷ ps) qs e a b =
      (a.0, AreChunks-append (suc n) n' ps qs (omega arith) a.1 b)

  -- Every chunk of the stream has an entry in the index of its bevy, where there is one.
  abbrev pub ListsAll : Type 0
  ListsAll =
      (n : ℕ) (name : Text) (index : List ℕ)
      → n * stream.chunk_size < stream.size
      → bevy_name stream volume.arn mapping (n / stream.chunks_in_segment) ≡ some name
      → stored (name ++ index_suffix) ≡ some index
      → index_entry_len * (n % stream.chunks_in_segment) < length index

  -- A bevy as the pass has read it.
  pub record Bevy (i : ℕ) (bevy : List ℕ) (locations : List ChunkLocation) : Type 0 where
    pub name : Text
    pub index : List ℕ
    pub named : bevy_name stream volume.arn mapping i ≡ some name
    pub indexed : stored (name ++ index_suffix) ≡ some index
    pub held : stored name ≡ some bevy
    pub parsed : parse_index_bounded index stream.chunks_in_segment ≡ ok locations
    pub small : length bevy ≤ u64_max

  module _ (word : stream.size ≤ u64_max) where
    pub plain_chunk-IsChunk :
        (i j n d : ℕ) (bevy : List ℕ) (locations : List ChunkLocation) (location : ChunkLocation)
        (piece : List ℕ)
        → Bevy i bevy locations
        → get_elem? locations j ≡ some location
        → j < stream.chunks_in_segment
        → n ≡ i * stream.chunks_in_segment + j
        → d ≡ n * stream.chunk_size
        → plain_chunk decoders stream bevy location j d ≡ ok piece
        → IsChunk n piece
    unfolding decode_location
    plain_chunk-IsChunk i j n d bevy locations location piece b here inside e at h =
        let (plain, fits, decoded, cut, whole) =
          plain_chunk_cut decoders stream bevy location j d piece b.small word h in
        let (quotient, rest) = place stream.chunks_in_segment i j n inside e in
        let entry =
          get_elem?-parse_index_bounded b.index stream.chunks_in_segment j locations location
            b.parsed here in
        let starts : entry_offset b.index j ≡ location.offset =
          ap (λ (l : ChunkLocation). l.offset) entry in
        let runs : entry_length b.index j ≡ location.length =
          ap (λ (l : ChunkLocation). l.length) entry in
        record {
          name = b.name;
          index = b.index;
          bevy = bevy;
          plain = plain;
          named = rw quotient b.named;
          indexed = b.indexed;
          held = b.held;
          inside = rw (rest, starts, runs) fits;
          decoded = rw (rest, starts, runs) decoded;
          cut = rw (← at) cut;
          whole = rw (← at) whole;
        }
