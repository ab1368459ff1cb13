-- ===== src/Stream/Pass/Feeds.antt =====
-- aff4tools: src/stream.rs, the loop over the chunks of a bevy that can be read.
use aff4tools.Prelude.{
  ℕ, suc, ◌+◌, ◌-◌, ◌*◌, ◌≤◌, ◌<◌, ◌≡◌, ◌⊎◌, refl, sym, ap, ◌∙◌, inl, inr, min, Option, some, List,
  [], ◌∷◌, ◌++◌, append-nil, arith, ltb, ltb→lt, length, get_elem?, slice_of, slice_of-add,
  length-slice_of, flatten, u64_max, Bool-cases,
}
use aff4tools.Prelude.Results.{Result, ok, err}
use aff4tools.Prelude.Exec.{Exec, Sink, feed, feed-append, continue}
use aff4tools.Prelude.Exec
use aff4tools.Text.{Text}
use aff4tools.Arn.Member.{NameMapping}
use aff4tools.Codec.{Decoders}
use aff4tools.Stream.{ChunkLocation, ImageStream, StreamError, Volume, plain_chunk, deliver_chunks}
use aff4tools.Stream.Exact.{parse_index_bounded_size}
use aff4tools.Stream.Reader.Reference.{Holds}
use aff4tools.Stream.Reader.Region.{Reads}
use aff4tools.Stream.Pass.{Bevy, place}
use aff4tools.Stream.Pass.Readable.{plain_chunk-chunk_in_bevy, in_bevy, listed_in_bevy}

-- What a loop answers that gives the bytes delivered up to `d`, where the sink answers `r`.
abbrev pub answer : {T : Type 0} → ℕ → Result StreamError (Unit {0}) × T → Result StreamError ℕ × T
answer d (ok u, t) = (ok d, t)
answer d (err e, t) = (err e, t)

module _ (content : ℕ → ℕ) {T : Type 0} (sink : Sink StreamError T) where
  -- A run that feeds the bytes from `d` to `d'`.
  abbrev pub FeedsChunks : (d d' : ℕ) → T → Result StreamError ℕ × T → Type 0
  FeedsChunks d d' t r =
      (ps : List (List ℕ)) × (flatten ps ≡ slice_of content d (d' - d))
      × (r ≡ answer d' (feed sink ps t))

  nothing-Feeds : (d d' : ℕ) (t : T) → d ≡ d' → FeedsChunks d d' t (ok d, t)
  unfolding feed
  nothing-Feeds d d' t e =
      let none_left : d' - d ≡ 0 = omega (arith, e) in
      ([], rw none_left refl, ap (λ k. (ok k, t)) e)

  after_piece :
      (d k d' : ℕ) (t : T) (go_on : Exec StreamError T ℕ)
      → d + k ≤ d'
      → ((t' : T) → FeedsChunks (d + k) d' t' (go_on t'))
      → FeedsChunks d d' t (Exec.◌>>=◌ (sink (slice_of content d k)) (λ _. go_on) t)
  unfolding feed
  after_piece d k d' t go_on le later = by_answer (sink (slice_of content d k) t) refl
    where
      whole :
          slice_of content d k ++ slice_of content (d + k) (d' - (d + k))
          ≡ slice_of content d (d' - d)
      whole = sym (slice_of-add content d k (d' - (d + k)) (d + k) (d' - d) refl (omega arith))

      by_answer :
          (r : Result StreamError (Unit {0}) × T)
          → sink (slice_of content d k) t ≡ r
          → FeedsChunks d d' t (Exec.◌>>=◌ (sink (slice_of content d k)) (λ _. go_on) t)
      by_answer (err e, t') h = (
        slice_of content d k ∷ slice_of content (d + k) (d' - (d + k)) ∷ [],
        ap (λ l. slice_of content d k ++ l) (append-nil (slice_of content (d + k) (d' - (d + k))))
            ∙ whole,
        rw h refl,
      )
      by_answer (ok u, t') h =
          let (ps, joined, ran) = later t' in
          (slice_of content d k ∷ ps, ap (λ l. slice_of content d k ++ l) joined ∙ whole, rw h ran)

module _ (decoders : Decoders) (stream : ImageStream) {V : Type 0} (volume : Volume V)
    (mapping : NameMapping) (stored : Text → Option (List ℕ)) (law : Holds volume stored ⊥)
    (content : ℕ → ℕ) (reads : Reads decoders stream volume mapping stored content)
    (word : stream.size ≤ u64_max) {T : Type 0} (sink : Sink StreamError T) where
  pub deliver_chunks-Feeds :
      (i : ℕ) (bevy : List ℕ) (locations : List ChunkLocation)
      → Bevy decoders stream volume mapping stored i bevy locations
      → (rest : List ChunkLocation) (j n d d' : ℕ) (t : T)
      → ((k m : ℕ) (l : ChunkLocation)
          → k + j ≡ m
          → get_elem? rest k ≡ some l
          → get_elem? locations m ≡ some l)
      → length rest + j ≤ stream.chunks_in_segment
      → n ≡ i * stream.chunks_in_segment + j
      → d ≡ min (n * stream.chunk_size) stream.size
      → d' ≡ min ((n + length rest) * stream.chunk_size) stream.size
      → FeedsChunks content sink d d' t (deliver_chunks decoders stream sink bevy rest j d t)
  unfolding deliver_chunks
  deliver_chunks-Feeds i bevy locations b [] j n d d' t listed bound e at stop =
      nothing-Feeds content sink d d' t (omega (arith, at, stop))
  deliver_chunks-Feeds i bevy locations b (location ∷ rest) j n d d' t listed bound e at stop =
      elim (Bool-cases (ltb d stream.size)) [
        | inr full ↦
            let ended : stream.size ≤ d = ground (arith, full) in
            rw (full, deliver_chunks)
              (nothing-Feeds content sink d d' t (omega (arith, at, stop, ended)))
        | inl more ↦
            let room = ltb→lt d stream.size more in
            let exact : d ≡ n * stream.chunk_size = omega (arith, at, room) in
            let k : ℕ = min stream.chunk_size (stream.size - d) in
            let inside : n * stream.chunk_size < stream.size = omega (arith, exact, room) in
            let (quotient, remainder) =
              place stream.chunks_in_segment i j n (omega (arith, bound)) e in
            let made : plain_chunk decoders stream bevy location j d ≡ ok (slice_of content d k) =
              rw exact (
                plain_chunk-chunk_in_bevy decoders stream bevy locations location j n _ word inside
                  remainder (listed 0 j location (omega arith) refl)
                  (in_bevy decoders stream volume mapping stored law i n bevy locations _ b quotient
                    (reads n inside))
                  (length-slice_of content (n * stream.chunk_size) _)) in
            rw (more, made, length-slice_of content d k, deliver_chunks)
              (after_piece content sink d k d' t
                (deliver_chunks decoders stream sink bevy rest (suc j) (d + k))
                (omega (arith, exact, stop, room))
                (λ t'.
                  deliver_chunks-Feeds i bevy locations b rest (suc j) (suc n) (d + k) d' t'
                    (λ k m l at_m found. listed (suc k) m l (omega (arith, at_m)) found)
                    (omega (arith, bound)) (omega (arith, e)) (omega (arith, exact, room))
                    (omega (arith, stop))))
      ]

  -- The end of a bevy: the next chunk is the first of the next bevy, or the stream is done.
  pub next_bevy :
      (i n d : ℕ) (bevy : List ℕ) (locations : List ChunkLocation)
      → Bevy decoders stream volume mapping stored i bevy locations
      → n ≡ i * stream.chunks_in_segment + length locations
      → d ≡ min (n * stream.chunk_size) stream.size
      → (stream.size ≤ d) ⊎ (n ≡ suc i * stream.chunks_in_segment)
  next_bevy i n d bevy locations b e at =
      let (size, some_chunk, bound) =
        parse_index_bounded_size b.index stream.chunks_in_segment locations b.parsed in
      (elim (Bool-cases (ltb (length locations) stream.chunks_in_segment)) [
        | inr full ↦ inr (ground (arith, full, bound, e))
        | inl short ↦ elim (Bool-cases (ltb d stream.size)) [
          | inr done ↦ inl (ground (arith, done))
          | inl more ↦
              let room = ltb→lt d stream.size more in
              let inside : n * stream.chunk_size < stream.size = omega (arith, at, room) in
              let (quotient, remainder) =
                place stream.chunks_in_segment i (length locations) n
                  (ltb→lt (length locations) stream.chunks_in_segment short) e in
              let listed =
                listed_in_bevy decoders stream volume mapping stored law n bevy locations _ (
                  in_bevy decoders stream volume mapping stored law i n bevy locations _ b quotient
                    (reads n inside)) in
              absurd (omega (arith, listed, remainder))
        ]
      ])
