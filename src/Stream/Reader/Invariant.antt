-- ===== src/Stream/Reader/Invariant.antt =====
-- aff4tools: src/stream.rs, `read_region` keeps its reader sound, whatever it is asked for.
use aff4tools.Prelude.{
  ℕ, zero, suc, ◌+◌, ◌/◌, ◌%◌, inl, inr, Option, List, ltb, length, checked_add, Bool-cases,
  Option-cases,
}
use aff4tools.Prelude.Results.{Result, ok, err}
use aff4tools.Prelude.Exec.{Exec, Sink, continue}
use aff4tools.Text.{Text}
use aff4tools.Arn.Member.{NameMapping}
use aff4tools.Codec.{Decoders}
use aff4tools.Stream.{ImageStream, StreamError, Volume}
use aff4tools.Stream.Reader.{ChunkReader, chunk_bytes, feed_chunk, region_loop, read_region}
use aff4tools.Stream.Reader.Reference.{Holds}
use aff4tools.Stream.Reader.Chunks.{IsSound, chunk_bytes-IsSound}

module _ (decoders : Decoders) (stream : ImageStream) {V : Type 0} (volume : Volume V)
    (mapping : NameMapping) (stored : Text → Option (List ℕ)) (Fault : Type 0)
    (law : Holds volume stored Fault) {E T : Type 0} (wrap : StreamError → E)
    (sink : Sink E T) where
  abbrev Sound : V × ChunkReader → Type 0
  Sound s = IsSound decoders stream volume mapping stored s.1

  abbrev EndsSound : Result E (Unit {0}) × ((V × ChunkReader) × T) → Type 0
  EndsSound r = Sound r.1.0

  feed_chunk-IsSound :
      (position stop : ℕ) (go_on : ℕ → Exec E ((V × ChunkReader) × T) (Unit {0}))
      → ((p : ℕ) (s : V × ChunkReader) (t : T) → Sound s → EndsSound (go_on p (s, t)))
      → (r : Result StreamError (List ℕ) × (V × ChunkReader)) (t : T) → Sound r.1
      → EndsSound (feed_chunk decoders stream volume mapping wrap sink position stop go_on r t)
  unfolding feed_chunk
  feed_chunk-IsSound position stop go_on later (err e, s) t sound = sound
  feed_chunk-IsSound position stop go_on later (ok plain, s) t sound =
      elim (Bool-cases (ltb (position % stream.chunk_size) (length plain))) [
        | inr short ↦ rw short sound
        | inl reaches ↦ rw reaches (by_answer _ (sink _ t))
      ]
    where
      by_answer :
          (take' : ℕ) (r : Result E (Unit {0}) × T)
          → EndsSound
              (continue {S = (V × ChunkReader) × T} r.0 (λ _. go_on (position + take')) (s, r.1))
      by_answer take' (ok u, t') = later (position + take') s t' sound
      by_answer take' (err e, t') = sound

  region_loop-IsSound :
      (fuel position stop : ℕ) (s : V × ChunkReader) (t : T)
      → Sound s
      → EndsSound (region_loop decoders stream volume mapping wrap sink fuel position stop (s, t))
  unfolding region_loop
  region_loop-IsSound zero position stop s t sound = sound
  region_loop-IsSound (suc fuel) position stop s t sound = elim (Bool-cases (ltb position stop)) [
    | inr done ↦ rw (done, region_loop) sound
    | inl more ↦
        rw (more, region_loop)
          (feed_chunk-IsSound position stop
            (λ p. region_loop decoders stream volume mapping wrap sink fuel p stop)
            (λ p s' t' sound'. region_loop-IsSound fuel p stop s' t' sound')
            (chunk_bytes decoders stream volume mapping (position / stream.chunk_size) s) t
            (chunk_bytes-IsSound decoders stream volume mapping stored Fault law
              (position / stream.chunk_size) s sound).0)
  ]

  -- Over a volume that reads the segments `stored` or fails by a fault, whatever region is asked for
  -- and whatever the sink answers, `read_region` leaves a sound reader sound.
  pub read_region-IsSound :
      (offset n : ℕ) (s : V × ChunkReader) (t : T)
      → IsSound decoders stream volume mapping stored s.1
      → IsSound decoders stream volume mapping stored
          (read_region decoders stream volume mapping wrap sink offset n (s, t)).1.0.1
  unfolding read_region
  read_region-IsSound offset n s t sound = elim (Option-cases (checked_add offset n)) [
    | inl overflow ↦ rw (overflow, read_region) sound
    | inr (stop, fits) ↦ elim (Bool-cases (ltb stream.size stop)) [
      | inl outside ↦ rw (fits, outside, read_region) sound
      | inr inside ↦ rw (fits, inside, read_region) (region_loop-IsSound n offset stop s t sound)
    ]
  ]
