-- ===== src/Stream/Reader/Chunks.antt =====
-- aff4tools: src/stream.rs, `chunk_bytes`: on every path the caches stay sound and the chunk is the
-- one that the reference reads.
use aff4tools.Prelude.{
  ℕ, ◌+◌, ◌%◌, ◌≤◌, ◌≡◌, refl, ap, ◌∙◌, inl, inr, Option, none, some, List, [], ◌∷◌, ◌++◌, arith,
  ltb, if◌then◌else◌, length, length-take, eq_of_some, min, get_elem?, take, All, append-All,
  Bool-cases, Option-cases,
}
use aff4tools.Prelude.Results.{Result, ok, err, ok_or, >>=-eq-ok, ok-injective}
use aff4tools.Prelude.Exec.{Exec, Keeps, Keeps->>=, pure, raise, lift}
use aff4tools.Prelude.Exec
use mathlib.Core.Path.{subst}
use aff4tools.Text.{Text, text_eq, text_eq_iff}
use aff4tools.Arn.Member.{NameMapping}
use aff4tools.Codec.{ChunkError, Decoders, decompress_chunk}
use aff4tools.Stream.{
  ChunkLocation, ImageStream, StreamError, Volume, no_chunk, slice_chunk, chunk_result,
}
use aff4tools.Stream.Reader.{
  ChunkReader, get, present, remember_chunk, chunk_bytes, with_chunk, empty_reader, into_residency,
  restore, cut_chunk, chunk_in_bevy, decompress,
}
use aff4tools.Stream.Reader.Caches.{All-get}
use aff4tools.Stream.Reader.Reference.{
  to_option, Agrees, Holds, chunk_from, chunk_of, ChunkAgrees, IsCoherent,
}
use aff4tools.Codec.{decompress_chunk_bounds}
use aff4tools.Stream.Reader.Coherent.{Good}
use aff4tools.Stream.Reader.ByRange.{decompress-Good}
use aff4tools.Stream.Reader.Eviction.{
  IsTracked, IsTracked-with_chunk, with_chunk-Kept, get-append_new, keys, total,
}

cut_to :
    (remaining size : ℕ) (bytes : List ℕ)
    → length bytes ≤ size
    → length (if ltb remaining (length bytes) then take remaining bytes else bytes) ≤ size
cut_to remaining size bytes short =
    let cut : length (take remaining bytes) ≡ min remaining (length bytes) =
      length-take remaining bytes in
    ground (arith, cut, short)

cut_short :
    (decoders : Decoders) (stream : ImageStream) (n : ℕ) (bytes : List ℕ)
    → length bytes ≤ stream.chunk_size
    → length (cut_chunk decoders stream n bytes) ≤ stream.chunk_size
unfolding cut_chunk
cut_short decoders stream n bytes short = cut_to _ stream.chunk_size bytes short

chunk_result-ok :
    (r : Result ChunkError (List ℕ)) (bytes : List ℕ) → chunk_result r ≡ ok bytes → r ≡ ok bytes
chunk_result-ok (ok a) bytes h = let e : a ≡ bytes = ok-injective h in ap ok e
chunk_result-ok (err e) bytes h = cc

-- A chunk out of a bevy has at most `chunk_size` bytes.
chunk_in_bevy_short :
    (decoders : Decoders) (stream : ImageStream) (n : ℕ) (locations : List ChunkLocation)
    (bytes plain : List ℕ)
    → chunk_in_bevy decoders stream n locations bytes ≡ ok plain
    → length plain ≤ stream.chunk_size
unfolding chunk_in_bevy
chunk_in_bevy_short decoders stream n locations bytes plain h =
    let (location, h0, h1) =
      >>=-eq-ok
        (ok_or (get_elem? locations (n % stream.chunks_in_segment)) (no_chunk n (length locations)))
        _ h in
    let (input, h2, h3) =
      >>=-eq-ok (slice_chunk bytes location (n % stream.chunks_in_segment)) _ h1 in
    let (out, h4, h5) =
      >>=-eq-ok (chunk_result (decompress_chunk decoders stream.codec input stream.chunk_size)) _
        h3 in
    let cut : cut_chunk decoders stream n out ≡ plain = ok-injective h5 in
    let short =
      decompress_chunk_bounds decoders stream.codec input stream.chunk_size out
        (chunk_result-ok (decompress_chunk decoders stream.codec input stream.chunk_size) out h4) in
    rw (← cut) (cut_short decoders stream n out short.0)

to_option-some : {A : Type 0} (r : Result StreamError A) (a : A) → to_option r ≡ some a → r ≡ ok a
to_option-some (ok b) a h = let e : b ≡ a = eq_of_some h in ap ok e
to_option-some (err e) a h = cc

module _ (decoders : Decoders) (stream : ImageStream) {V : Type 0} (volume : Volume V)
    (mapping : NameMapping) (stored : Text → Option (List ℕ)) where
  abbrev plain : ℕ → Option (List ℕ)
  plain n = chunk_of decoders stream volume mapping stored n

  chunk_from_short :
      (n : ℕ) (locations : Option (List ChunkLocation)) (bytes : Option (List ℕ)) (a : List ℕ)
      → chunk_from decoders stream volume mapping stored n locations bytes ≡ some a
      → length a ≤ stream.chunk_size
  chunk_from_short n (some locations) (some bytes) a h =
      chunk_in_bevy_short decoders stream n locations bytes a
        (to_option-some (chunk_in_bevy decoders stream n locations bytes) a h)
  chunk_from_short n (some locations) none a h = cc
  chunk_from_short n none bytes a h = cc

  -- A chunk of the stream has at most `chunk_size` bytes.
  pub chunk_of_short : (n : ℕ) (a : List ℕ) → plain n ≡ some a → length a ≤ stream.chunk_size
  unfolding chunk_of
  chunk_of_short n a h = chunk_from_short n _ _ a h

  -- The invariant of a reader: its caches agree with the reference, and the chunk cache is bounded.
  pub record IsSound (reader : ChunkReader) : Type 0 where
    pub coherent : IsCoherent decoders stream volume mapping stored reader
    pub tracked : IsTracked stream.chunk_size reader

  -- A new reader is sound.
  pub empty_reader-IsSound : IsSound empty_reader
  unfolding empty_reader keys total
  empty_reader-IsSound = record {
    coherent = record { bevies = tt; indexes = tt; chunks = tt };
    tracked = record { ordered = refl; counted = refl; short = tt; bounded = omega arith };
  }

  abbrev Sound : V × ChunkReader → Type 0
  Sound s = IsSound s.1

  -- The chunk cache of a reader that `decompress` leaves behind.
  abbrev tracked_again :
      (start reader : ChunkReader)
      → (reader.chunk ≡ start.chunk)
        × (reader.chunk_order ≡ start.chunk_order)
        × (reader.chunk_bytes_held ≡ start.chunk_bytes_held)
      → IsTracked stream.chunk_size start
      → IsTracked stream.chunk_size reader
  tracked_again start reader (c, o, h) t = record {
    ordered = rw (c, o) t.ordered;
    counted = rw (c, h) t.counted;
    short = rw c t.short;
    bounded = rw c t.bounded;
  }

  module _ (Fault : Type 0) (law : Holds volume stored Fault) where
    present_held :
        (n : ℕ) (a : List ℕ) (reader : ChunkReader)
        → get n reader.chunk ≡ some a
        → present decoders stream volume mapping n reader ≡ a
    unfolding present
    present_held n a reader h = rw (h, present) refl

    -- The insertion behind a chunk that was decompressed.
    remember_chunk-Sound :
        (n : ℕ) (a : List ℕ) (s : V × ChunkReader)
        → Sound s
        → get n s.1.chunk ≡ none
        → plain n ≡ some a
        → (let r = remember_chunk decoders stream volume mapping n a s in Sound r.1 × (r.0 ≡ ok a))
    unfolding remember_chunk present
    remember_chunk-Sound n a s sound absent h =
        let short = chunk_of_short n a h in
        let (before, kept, split, lacks, same, room) =
          with_chunk-Kept stream.chunk_size n a s.1 sound.tracked absent short in
        let found : get n (with_chunk n a s.1).chunk ≡ some a =
          ap (λ reader. get n reader.chunk) same ∙ get-append_new n a kept lacks in
        (
          record {
            coherent = coherent_with before kept split same;
            tracked = IsTracked-with_chunk stream.chunk_size n a s.1 sound.tracked absent short;
          },
          ap ok (present_held n a (with_chunk n a s.1) found),
        )
      where
        later :
            (es fs : List (ℕ × List ℕ))
            → All (ChunkAgrees decoders stream volume mapping stored) (es ++ fs)
            → All (ChunkAgrees decoders stream volume mapping stored) fs
        later [] fs all = all
        later (e ∷ es) fs all = later es fs all.1

        coherent_with :
            (before kept : List (ℕ × List ℕ))
            → s.1.chunk ≡ before ++ kept
            → with_chunk n a s.1 ≡ record s.1 {
              chunk = kept ++ ((n, a) ∷ []);
              chunk_order = keys kept ++ (n ∷ []);
              chunk_bytes_held = total kept + length a;
            }
            → IsCoherent decoders stream volume mapping stored (with_chunk n a s.1)
        coherent_with before kept split same = rw same (record {
          bevies = sound.coherent.bevies;
          indexes = sound.coherent.indexes;
          chunks =
              append-All _ kept ((n, a) ∷ [])
                (later before kept (rw split at sound.coherent.chunks)) (h, tt);
        })

    -- A chunk by the way through `decompress`.
    read_chunk-Sound :
        (n : ℕ) (s : V × ChunkReader)
        → Sound s
        → get n s.1.chunk ≡ none
        → (let r =
              Exec.◌>>=◌
                (decompress decoders stream volume mapping n)
                (remember_chunk decoders stream volume mapping n)
                s in
            Sound r.1 × Agrees Fault (plain n) r.0)
    read_chunk-Sound n s sound absent = by_result (decompress decoders stream volume mapping n s) (
        decompress-Good decoders stream volume mapping stored Fault law s.1 n s
          (sound.coherent, (refl, refl, refl)))
      where
        by_result :
            (r : Result StreamError (List ℕ) × (V × ChunkReader))
            → Good decoders stream volume mapping stored Fault law s.1 r.1
              × Agrees Fault (plain n) r.0
            → (let q = Exec.continue r.0 (remember_chunk decoders stream volume mapping n) r.1 in
                Sound q.1 × Agrees Fault (plain n) q.0)
        by_result (err e, s1) (good, bad) = (
          record { coherent = good.0; tracked = tracked_again s.1 s1.1 good.1 sound.tracked },
          bad,
        )
        by_result (ok a, s1) (good, h) =
            let again : Sound s1 = record {
              coherent = good.0;
              tracked = tracked_again s.1 s1.1 good.1 sound.tracked;
            } in
            let missing : get n s1.1.chunk ≡ none = rw good.1.0 absent in
            let (after, answer) = remember_chunk-Sound n a s1 again missing h in
            (after, rw answer h)

    -- From a sound reader, over a volume that reads the segments `stored`, `chunk_bytes` answers
    -- with the chunk that an uncached reading of the whole bevy gives, or fails where that reading
    -- does or the volume has a fault; whichever it answers, the reader is sound again: every bevy,
    -- index and chunk that it holds is what the uncached reading gives, and the chunks held are
    -- counted rightly and take at most `CHUNK_CACHE_BYTES`, or two chunks' bytes.
    pub chunk_bytes-IsSound :
        (n : ℕ) (s : V × ChunkReader)
        → IsSound s.1
        → (let r = chunk_bytes decoders stream volume mapping n s in
            IsSound r.1.1 × Agrees Fault (chunk_of decoders stream volume mapping stored n) r.0)
    unfolding chunk_bytes
    chunk_bytes-IsSound n s sound = elim (Option-cases (get n s.1.chunk)) [
      | inr (a, held) ↦
          rw (held, chunk_bytes) (sound, All-get _ n s.1.chunk a sound.coherent.chunks held)
      | inl absent ↦ rw (absent, chunk_bytes) (read_chunk-Sound n s sound absent)
    ]

-- A residency is restored only for the stream that it belongs to: where two streams of one name
-- are one stream, the reader of `stream` is sound after it, whichever stream `other` the residency
-- is of.
pub restore-IsSound :
    (decoders : Decoders) {V : Type 0} (volume : Volume V) (mapping : NameMapping)
    (stored : Text → Option (List ℕ)) (stream other : ImageStream) (reader fresh : ChunkReader)
    → (other.arn.lexical ≡ stream.arn.lexical → other ≡ stream)
    → IsSound decoders other volume mapping stored reader
    → IsSound decoders stream volume mapping stored fresh
    → IsSound decoders stream volume mapping stored
        (restore stream (into_residency other reader) fresh)
unfolding restore into_residency
restore-IsSound decoders volume mapping stored stream other reader fresh named held new =
    elim (Bool-cases (text_eq other.arn.lexical stream.arn.lexical)) [
      | inl same ↦
          let e : other ≡ stream =
            named ((text_eq_iff other.arn.lexical stream.arn.lexical).0 same) in
          rw same (subst (λ st. IsSound decoders st volume mapping stored reader) e held)
      | inr differs ↦ rw differs new
    ]
