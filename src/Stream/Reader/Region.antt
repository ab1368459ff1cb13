-- ===== src/Stream/Reader/Region.antt =====
-- aff4tools: src/stream.rs, `read_region`: the pieces it feeds join to the region of the stream.
use aff4tools.Prelude.{
  ℕ, zero, suc, ◌+◌, ◌-◌, ◌*◌, ◌/◌, ◌%◌, ◌≤◌, ◌<◌, ◌≡◌, refl, sym, ap, ◌∙◌, inl, inr, min, true,
  false, Option, none, some, List, [], ◌∷◌, ◌++◌, arith, append-nil, ltb, length, take, drop,
  slice_of, length-slice_of, slice_of-add, take-slice_of, drop-slice_of, flatten, u64_max,
  checked_add, checked_add_exact, checked_add-some, Option-cases, Bool-cases, lt→ltb, ltb→lt,
}
use aff4tools.Prelude.Results.{Result, ok, err}
use aff4tools.Prelude.Exec.{Exec, Sink, pure, feed, on_second, continue}
use aff4tools.Prelude.Exec
use native.Mathlib.Nat.{div-add-mod'}
use aff4tools.Text.{Text}
use aff4tools.Arn.Member.{NameMapping}
use aff4tools.Codec.{Decoders}
use aff4tools.Stream.{ImageStream, StreamError, Volume, region_overflow, region_outside}
use aff4tools.Stream.Reader.{ChunkReader, chunk_bytes, feed_chunk, region_loop, read_region}
use aff4tools.Stream.Reader.Reference.{Agrees, Holds, chunk_of}
use aff4tools.Stream.Reader.Chunks.{IsSound, chunk_bytes-IsSound}

-- The bytes that a stream stands for: every chunk before its end reads as its part of `content`.
abbrev pub Reads :
    (decoders : Decoders) (stream : ImageStream) {V : Type 0} (volume : Volume V)
    (mapping : NameMapping) (stored : Text → Option (List ℕ)) (content : ℕ → ℕ)
    → Type 0
Reads decoders stream volume mapping stored content =
    (n : ℕ)
    → n * stream.chunk_size < stream.size
    → chunk_of decoders stream volume mapping stored n
      ≡ some (
          slice_of content (n * stream.chunk_size)
            (min stream.chunk_size (stream.size - n * stream.chunk_size)))

module _ (decoders : Decoders) (stream : ImageStream) {V : Type 0} (volume : Volume V)
    (mapping : NameMapping) (stored : Text → Option (List ℕ)) (law : Holds volume stored ⊥)
    (content : ℕ → ℕ) (reads : Reads decoders stream volume mapping stored content)
    (positive : 0 < stream.chunk_size) {E T : Type 0} (wrap : StreamError → E)
    (sink : Sink E T) where
  abbrev Sound : V × ChunkReader → Type 0
  Sound s = IsSound decoders stream volume mapping stored s.1

  -- What a run answers that feeds the bytes from `position` to `stop`: pieces that join to them,
  -- the sink's answer, and a sound reader.
  abbrev pub FeedsRegion :
      (position stop : ℕ) → T → Result E (Unit {0}) × ((V × ChunkReader) × T) → Type 0
  FeedsRegion position stop t r =
      (ps : List (List ℕ)) × (s' : V × ChunkReader) × (flatten ps
        ≡ slice_of content position (stop - position))
      × IsSound decoders stream volume mapping stored s'.1
      × (r ≡ ((feed sink ps t).0, (s', (feed sink ps t).1)))

  -- A round, whatever the sink answered: an error ends the run.
  after_piece :
      (position k stop : ℕ)
      → position + k ≤ stop
      → (s : V × ChunkReader) (t : T) → Sound s
      → (go_on : Exec E ((V × ChunkReader) × T) (Unit {0}))
      → ((t' : T) → FeedsRegion (position + k) stop t' (go_on (s, t')))
      → FeedsRegion position stop t
          (Exec.◌>>=◌ (on_second (sink (slice_of content position k))) (λ _. go_on) (s, t))
  unfolding feed
  after_piece position k stop le s t sound go_on later =
      by_answer (sink (slice_of content position k) t) refl
    where
      whole :
          slice_of content position k ++ slice_of content (position + k) (stop - (position + k))
          ≡ slice_of content position (stop - position)
      whole = sym (
          slice_of-add content position k (stop - (position + k)) (position + k) (stop - position)
            refl (omega arith))

      by_answer :
          (r : Result E (Unit {0}) × T)
          → sink (slice_of content position k) t ≡ r
          → FeedsRegion position stop t
              (Exec.◌>>=◌ (on_second (sink (slice_of content position k))) (λ _. go_on) (s, t))
      by_answer (err e, t') h = (
        slice_of content position k ∷ slice_of content (position + k) (stop - (position + k)) ∷ [],
        s,
        ap (λ l. slice_of content position k ++ l)
              (append-nil (slice_of content (position + k) (stop - (position + k))))
            ∙ whole,
        sound,
        rw h refl,
      )
      by_answer (ok u, t') h =
          let (ps, s', joined, sound', ran) = later t' in
          (
            slice_of content position k ∷ ps,
            s',
            ap (λ l. slice_of content position k ++ l) joined ∙ whole,
            sound',
            rw h ran,
          )

  -- The bytes of the chunk that a round delivers.
  abbrev chunk_at : ℕ → List ℕ
  chunk_at position =
      slice_of content (position / stream.chunk_size * stream.chunk_size)
        (min stream.chunk_size (stream.size - position / stream.chunk_size * stream.chunk_size))

  chunk_here :
      (position : ℕ)
      → position < stream.size
      → chunk_of decoders stream volume mapping stored (position / stream.chunk_size)
        ≡ some (chunk_at position)
  chunk_here position inside =
      reads (position / stream.chunk_size)
        (let split = div-add-mod' position stream.chunk_size in omega (arith, split, inside))

  feed_chunk-Feeds :
      (position stop : ℕ)
      → position < stop
      → stop ≤ stream.size
      → (s : V × ChunkReader) (t : T) → Sound s
      → (go_on : ℕ → Exec E ((V × ChunkReader) × T) (Unit {0}))
      → ((p : ℕ) (t' : T) → position < p → p ≤ stop → FeedsRegion p stop t' (go_on p (s, t')))
      → FeedsRegion position stop t (
          feed_chunk decoders stream volume mapping wrap sink position stop go_on
            (ok (chunk_at position), s)
            t)
  unfolding feed_chunk
  feed_chunk-Feeds position stop more inside s t sound go_on later =
      let within : ℕ = position % stream.chunk_size in
      let base : ℕ = position / stream.chunk_size * stream.chunk_size in
      let split : base + within ≡ position = div-add-mod' position stream.chunk_size in
      let len : ℕ = min stream.chunk_size (stream.size - base) in
      let small : within < stream.chunk_size = omega (arith, positive) in
      let reach : within < len = omega (arith, split, small, more, inside) in
      let k : ℕ = min (len - within) (stop - position) in
      let size_of : length (chunk_at position) ≡ len = length-slice_of content base len in
      let rest : drop within (slice_of content base len)
          ≡ slice_of content position (len - within) =
        drop-slice_of content base len within position (len - within) (omega (arith, reach))
          split in
      let piece : take k (slice_of content position (len - within)) ≡ slice_of content position k =
        take-slice_of content position (len - within) k (omega arith) in
      rw (size_of, lt→ltb within len reach, rest, piece)
        (after_piece position k stop (omega (arith, more)) s t sound (go_on (position + k))
          (λ t'. later (position + k) t' (omega (arith, reach, more)) (omega (arith, more))))

  region_loop-Feeds :
      (fuel position stop : ℕ)
      → position ≤ stop
      → stop ≤ position + fuel
      → stop ≤ stream.size
      → (s : V × ChunkReader) (t : T) → Sound s
      → FeedsRegion position stop t
          (region_loop decoders stream volume mapping wrap sink fuel position stop (s, t))
  unfolding region_loop feed
  region_loop-Feeds zero position stop le enough inside s t sound =
      let none_left : stop - position ≡ 0 = omega arith in ([], s, rw none_left refl, sound, refl)
  region_loop-Feeds (suc fuel) position stop le enough inside s t sound =
      elim (Bool-cases (ltb position stop)) [
        | inr done ↦
            let none_left : stop - position ≡ 0 = ground arith in
            rw (done, region_loop) ([], s, rw none_left refl, sound, refl)
        | inl more ↦
            rw (more, region_loop)
              (by_chunk
                (chunk_bytes decoders stream volume mapping (position / stream.chunk_size) s)
                (ltb→lt position stop more)
                (chunk_bytes-IsSound decoders stream volume mapping stored ⊥ law
                  (position / stream.chunk_size) s sound)
                (λ p s' t' sound' further short.
                  region_loop-Feeds fuel p stop short (omega (arith, enough, further)) inside s' t'
                    sound'))
      ]
    where
      by_chunk :
          (r : Result StreamError (List ℕ) × (V × ChunkReader))
          → position < stop
          → Sound r.1
            × Agrees ⊥
                (chunk_of decoders stream volume mapping stored (position / stream.chunk_size))
                r.0
          → ((p : ℕ) (s' : V × ChunkReader) (t' : T)
              → Sound s'
              → position < p
              → p ≤ stop
              → FeedsRegion p stop t'
                  (region_loop decoders stream volume mapping wrap sink fuel p stop (s', t')))
          → FeedsRegion position stop t (
              feed_chunk decoders stream volume mapping wrap sink position stop
                (λ p. region_loop decoders stream volume mapping wrap sink fuel p stop)
                r
                t)
      by_chunk (err e, s') more (sound', inl absent) later =
          let here = chunk_here position (omega (arith, more, inside)) in
          let clash : none ≡ some (chunk_at position) = sym absent ∙ here in cc
      by_chunk (err e, s') more (sound', inr fault) later = elim fault [ ]
      by_chunk (ok plain, s') more (sound', found) later =
          let here = chunk_here position (omega (arith, more, inside)) in
          let value : some plain ≡ some (chunk_at position) = sym found ∙ here in
          let e : plain ≡ chunk_at position = cc in
          rw e (
            feed_chunk-Feeds position stop more inside s' t sound'
              (λ p. region_loop decoders stream volume mapping wrap sink fuel p stop)
              (λ p t' further short. later p s' t' sound' further short))

  -- `read_region` of a region inside the stream, whose size is a u64 and whose chunks are not empty,
  -- by a sound reader, over a volume without faults whose chunks read as `content`: the rounds end,
  -- it feeds pieces to the sink that join to the region's bytes, in order, answers as the sink does,
  -- and leaves a sound reader behind.
  pub read_region-Feeds :
      (offset n : ℕ)
      → offset + n ≤ stream.size
      → stream.size ≤ u64_max
      → (s : V × ChunkReader) (t : T) → IsSound decoders stream volume mapping stored s.1
      → FeedsRegion offset
          (offset + n)
          t
          (read_region decoders stream volume mapping wrap sink offset n (s, t))
  unfolding read_region
  read_region-Feeds offset n inside word s t sound =
      let stop : checked_add offset n ≡ some (offset + n) =
        checked_add_exact offset n (omega (arith, inside, word)) in
      let fits : ltb stream.size (offset + n) ≡ false = ground (arith, inside) in
      rw (stop, fits, read_region)
        (region_loop-Feeds n offset (offset + n) (omega arith) (omega arith) inside s t sound)

module _ (decoders : Decoders) (stream : ImageStream) {V : Type 0} (volume : Volume V)
    (mapping : NameMapping) {E T : Type 0} (wrap : StreamError → E) (sink : Sink E T) where
  -- A region that runs past the end of the stream, or whose end is no u64, is refused before
  -- anything is read: the volume, the reader and the sink are as they were.
  pub read_region_refused :
      (offset n : ℕ) (s : V × ChunkReader) (t : T)
      → stream.size < offset + n
      → (e : StreamError) × (read_region decoders stream volume mapping wrap sink offset n (s, t)
          ≡ (err (wrap e), (s, t)))
  unfolding read_region
  read_region_refused offset n s t outside = elim (Option-cases (checked_add offset n)) [
    | inl overflow ↦ rw (overflow, read_region) (region_overflow offset n, refl)
    | inr (stop, sum) ↦
        let past : ltb stream.size stop ≡ true =
          lt→ltb stream.size stop
            (let exact = checked_add-some offset n stop sum in omega (arith, exact, outside)) in
        rw (sum, past, read_region) (region_outside offset stop, refl)
  ]
