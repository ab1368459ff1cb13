-- ===== src/Stream/Pass/Total.antt =====
-- aff4tools: src/stream.rs, `read_all_observed` over a stream that can be read.
use aff4tools.Prelude.{
  ℕ, zero, suc, ◌+◌, ◌-◌, ◌*◌, ◌%◌, ◌^◌, ◌≤◌, ◌<◌, ◌≡◌, ◌⊎◌, refl, sym, ap, ◌∙◌, inl, inr, min, max,
  Option, List, [], ◌∷◌, ◌++◌, append-nil, arith, ltb, ◌==◌, ==_refl, if◌then◌else◌, ltb→lt, length,
  slice_of, slice_of-add, flatten, flatten-append, u64_max, Bool-cases,
}
use aff4tools.Prelude.Results.{Result, ok, err}
use aff4tools.Prelude.Exec.{Exec, Sink, feed, feed-append, continue}
use aff4tools.Prelude.Exec
use native.Mathlib.Nat.{div-add-mod', mod-eq_of_lt, mod-lt, mul-pos}
use aff4tools.Text.{Text}
use aff4tools.Arn.Member.{NameMapping}
use aff4tools.Codec.{Decoders}
use aff4tools.Stream.{
  ChunkLocation, ImageStream, StreamError, Volume, deliver_chunks, read_bevy, read_bevies,
  read_all_observed, bevy_count, wrapping_mul, short_stream,
}
use aff4tools.Stream.Exact.{parse_index_bounded_size}
use aff4tools.Stream.Reader.Reference.{Holds}
use aff4tools.Stream.Reader.Region.{Reads}
use aff4tools.Stream.Pass.{Bevy, place}
use aff4tools.Stream.Pass.Readable.{opened, read_bevy-Bevy}
use aff4tools.Stream.Pass.Feeds.{answer, FeedsChunks, deliver_chunks-Feeds, next_bevy}

-- The bevies of a stream have room for it.
bevy_count-covers :
    (stream : ImageStream) (bytes : ℕ)
    → bytes ≡ stream.chunk_size * stream.chunks_in_segment
    → 0 < bytes
    → bytes ≤ u64_max
    → stream.size ≤ bevy_count stream * bytes
unfolding bevy_count
bevy_count-covers stream bytes e positive small =
    let exact : max (wrapping_mul stream.chunk_size stream.chunks_in_segment) 1 ≡ bytes = rw (← e) (
      let same : bytes % 2 ^ 64 ≡ bytes = mod-eq_of_lt (omega (arith, small)) in
      omega (arith, same, positive)) in
    let split = div-add-mod' stream.size bytes in
    let rest : stream.size % bytes < bytes = mod-lt stream.size positive in
    elim (Bool-cases (stream.size % bytes == 0)) [
      | inl whole ↦
          rw (exact, whole, bevy_count)
            (let none_left : stream.size % bytes ≡ 0 = ground (arith, whole) in
              omega (arith, split, none_left))
      | inr ragged ↦ rw (exact, ragged, bevy_count) (omega (arith, split, rest))
    ]

module _ (decoders : Decoders) (stream : ImageStream) {V : Type 0} (volume : Volume V)
    (mapping : NameMapping) (stored : Text → Option (List ℕ)) (law : Holds volume stored ⊥)
    (content : ℕ → ℕ) (reads : Reads decoders stream volume mapping stored content)
    (word : stream.size ≤ u64_max) {T : Type 0} (sink : Sink StreamError T) where
  -- The bevies hold the stream.
  enough_bevies :
      0 < stream.chunk_size
      → stream.chunk_size * stream.chunks_in_segment ≤ u64_max
      → stream.size ≤ bevy_count stream * stream.chunks_in_segment * stream.chunk_size
  enough_bevies positive small = elim (Bool-cases (ltb 0 stream.size)) [
    | inr empty ↦ ground (arith, empty)
    | inl more ↦
        let (bevy, locations, found) =
          opened decoders stream volume mapping stored law 0 _
            (reads 0 (let room = ltb→lt 0 stream.size more in omega (arith, room))) in
        let (size, some_chunk, bound) =
          parse_index_bounded_size found.index stream.chunks_in_segment locations found.parsed in
        let some_bytes : 0 < stream.chunk_size * stream.chunks_in_segment =
          mul-pos positive (omega (arith, some_chunk, bound)) in
        let covers =
          bevy_count-covers stream (stream.chunk_size * stream.chunks_in_segment) refl some_bytes
            small in
        omega (arith, covers)
  ]

  module _ {B : Type 0} (on_bevy : ℕ → B → B) where
    -- A run over the bevies that feeds what the stream has from `d` on.
    abbrev FeedsRest : ℕ → T → Result StreamError ℕ × (V × (B × T)) → Type 0
    FeedsRest d t r =
        (ps : List (List ℕ)) × (v : V) × (b : B) × (flatten ps
          ≡ slice_of content d (stream.size - d))
        × (r ≡ (
          (answer stream.size (feed sink ps t)).0,
          (v, (b, (answer stream.size (feed sink ps t)).1)),
        ))

    finished : (d : ℕ) (s : V × (B × T)) → d ≡ stream.size → FeedsRest d s.1.1 (ok d, s)
    unfolding feed
    finished d s e =
        let none_left : stream.size - d ≡ 0 = omega (arith, e) in
        ([], s.0, s.1.0, rw none_left refl, ap (λ k. (ok k, s)) e)

    after_bevy :
        (d d1 : ℕ) (s : V × (B × T)) (r : Result StreamError ℕ × T)
        (go_on : ℕ → Exec StreamError (V × (B × T)) ℕ)
        → d ≤ d1
        → d1 ≤ stream.size
        → FeedsChunks content sink d d1 s.1.1 r
        → ((s1 : V × (B × T)) → FeedsRest d1 s1.1.1 (go_on d1 s1))
        → FeedsRest d s.1.1 (continue r.0 go_on (s.0, (s.1.0, r.1)))
    after_bevy d d1 s r go_on le le1 (ps, joined, ran) later = by_feed (feed sink ps s.1.1) refl
      where
        fed :
            (qs : List (List ℕ))
            → flatten qs ≡ slice_of content d1 (stream.size - d1)
            → flatten (ps ++ qs) ≡ slice_of content d (stream.size - d)
        fed qs joined' =
            flatten-append ps qs
            ∙ ap (λ l. l ++ flatten qs) joined
            ∙ ap (λ l. slice_of content d (d1 - d) ++ l) joined'
            ∙ sym (
                slice_of-add content d (d1 - d) (stream.size - d1) d1 (stream.size - d)
                  (omega (arith, le)) (omega (arith, le, le1)))

        both :
            (qs : List (List ℕ)) (q : Result StreamError (Unit {0}) × T)
            → feed sink ps s.1.1 ≡ q
            → feed sink (ps ++ qs) s.1.1 ≡ continue q.0 (λ _. feed sink qs) q.1
        both qs q h =
            feed-append sink ps qs s.1.1 ∙ ap (λ p. continue p.0 (λ _. feed sink qs) p.1) h

        round :
            (q : Result StreamError (Unit {0}) × T)
            → feed sink ps s.1.1 ≡ q
            → continue r.0 go_on (s.0, (s.1.0, r.1))
              ≡ continue (answer d1 q).0 go_on (s.0, (s.1.0, (answer d1 q).1))
        round q h = ap (λ p. continue p.0 go_on (s.0, (s.1.0, p.1))) (ran ∙ ap (answer d1) h)

        by_feed :
            (q : Result StreamError (Unit {0}) × T)
            → feed sink ps s.1.1 ≡ q
            → FeedsRest d s.1.1 (continue r.0 go_on (s.0, (s.1.0, r.1)))
        by_feed (err e, t') h =
            let rest = slice_of content d1 (stream.size - d1) ∷ [] in
            (
              ps ++ rest,
              s.0,
              s.1.0,
              fed rest (append-nil (slice_of content d1 (stream.size - d1))),
              round (err e, t') h
                  ∙ ap (λ p. ((answer stream.size p).0, (s.0, (s.1.0, (answer stream.size p).1))))
                      (sym (both rest (err e, t') h)),
            )
        by_feed (ok u, t') h =
            let (qs, v, b, joined', ran') = later (s.0, (s.1.0, t')) in
            (
              ps ++ qs,
              v,
              b,
              fed qs joined',
              round (ok u, t') h
                  ∙ ran'
                  ∙ ap (λ p. ((answer stream.size p).0, (v, (b, (answer stream.size p).1))))
                      (sym (both qs (ok u, t') h)),
            )

    read_bevy-Feeds :
        (i n d : ℕ) (bevy : List ℕ) (locations : List ChunkLocation)
        (go_on : ℕ → Exec StreamError (V × (B × T)) ℕ) (s : V × (B × T))
        → Bevy decoders stream volume mapping stored i bevy locations
        → n ≡ i * stream.chunks_in_segment
        → d ≡ min (n * stream.chunk_size) stream.size
        → ((n1 d1 : ℕ) (s1 : V × (B × T))
            → (stream.size ≤ d1) ⊎ (n1 ≡ suc i * stream.chunks_in_segment)
            → d1 ≡ min (n1 * stream.chunk_size) stream.size
            → FeedsRest d1 s1.1.1 (go_on d1 s1))
        → FeedsRest d s.1.1 (read_bevy decoders stream sink volume mapping on_bevy i d go_on s)
    read_bevy-Feeds i n d bevy locations go_on s b e at later =
        let (size, some_chunk, bound) =
          parse_index_bounded_size b.index stream.chunks_in_segment locations b.parsed in
        let n1 : ℕ = n + length locations in
        let d1 : ℕ = min (n1 * stream.chunk_size) stream.size in
        let (v, ran) =
          read_bevy-Bevy decoders stream volume mapping stored law sink on_bevy i d bevy locations
            go_on s b in
        let run =
          deliver_chunks-Feeds decoders stream volume mapping stored law content reads word sink i
            bevy locations b locations 0 n d d1 s.1.1
            (λ k m l e found. let same : k ≡ m = omega (arith, e) in rw (← same) found)
            (omega (arith, bound)) (omega (arith, e)) at refl in
        let next =
          next_bevy decoders stream volume mapping stored law content reads word sink i n1 d1 bevy
            locations b (omega (arith, e)) refl in
        rw ran (
          after_bevy d d1 (v, s.1) (deliver_chunks decoders stream sink bevy locations 0 d s.1.1)
            (λ d' s'. go_on d' (s'.0, (on_bevy (i + 1) s'.1.0, s'.1.1))) (omega (arith, at))
            (omega arith) run
            (λ s1. later n1 d1 (s1.0, (on_bevy (i + 1) s1.1.0, s1.1.1)) next refl))

    read_bevies-Feeds :
        (count i n d : ℕ) (s : V × (B × T))
        → (stream.size ≤ d) ⊎ (n ≡ i * stream.chunks_in_segment)
        → d ≡ min (n * stream.chunk_size) stream.size
        → stream.size ≤ (i + count) * stream.chunks_in_segment * stream.chunk_size
        → FeedsRest d s.1.1 (read_bevies decoders stream sink volume mapping on_bevy count i d s)
    unfolding read_bevies
    read_bevies-Feeds zero i n d s e at enough = finished d s (whole e)
      where
        whole : (stream.size ≤ d) ⊎ (n ≡ i * stream.chunks_in_segment) → d ≡ stream.size
        whole (inl ended) = omega (arith, at, ended)
        whole (inr same) =
            let bytes = ap (λ k. k * stream.chunk_size) same in omega (arith, at, bytes, enough)
    read_bevies-Feeds (suc count) i n d s e at enough = elim (Bool-cases (ltb d stream.size)) [
      | inr full ↦ rw (full, read_bevies) (finished d s (ground (arith, full, at)))
      | inl more ↦
          let room = ltb→lt d stream.size more in
          let first : n ≡ i * stream.chunks_in_segment = ground (arith, e, room) in
          let inside : n * stream.chunk_size < stream.size = omega (arith, at, room) in
          let (bevy, locations, found) =
            opened decoders stream volume mapping stored law n _ (reads n inside) in
          let (size, some_chunk, bound) =
            parse_index_bounded_size found.index stream.chunks_in_segment locations found.parsed in
          let (quotient, remainder) =
            place stream.chunks_in_segment i 0 n (omega (arith, some_chunk, bound))
              (omega (arith, first)) in
          let b : Bevy decoders stream volume mapping stored i bevy locations =
            rw quotient at found in
          rw (more, read_bevies)
            (read_bevy-Feeds i n d bevy locations
              (read_bevies decoders stream sink volume mapping on_bevy count (suc i)) s b first at
              (λ n1 d1 s1 e1 at1.
                read_bevies-Feeds count (suc i) n1 d1 s1 e1 at1 (omega (arith, enough))))
    ]

    -- Over a volume without faults, for a stream whose size is a u64, whose chunks are not empty
    -- and have a u64 of bytes to a bevy, and each of whose chunks a reader with no cache reads as
    -- its part of `content`, the pass never fails by itself: it feeds pieces to the sink that join
    -- to the bytes of the stream, in order, and answers as the sink does.
    pub read_all_observed_delivers :
        0 < stream.chunk_size
        → stream.chunk_size * stream.chunks_in_segment ≤ u64_max
        → (s : V × (B × T))
        → (ps : List (List ℕ)) × (v : V) × (b : B) × (flatten ps ≡ slice_of content 0 stream.size)
          × (read_all_observed decoders stream sink volume mapping on_bevy s
              ≡ ((feed sink ps s.1.1).0, (v, (b, (feed sink ps s.1.1).1))))
    unfolding read_all_observed
    read_all_observed_delivers positive small s =
        let (ps, v, b, joined, ran) =
          read_bevies-Feeds (bevy_count stream) 0 0 0 s (inr (omega arith)) (omega arith)
            (omega (arith, enough_bevies positive small)) in
        (
          ps,
          v,
          b,
          joined ∙ ap (slice_of content 0) from_start,
          ap checked ran ∙ ended v b (feed sink ps s.1.1),
        )
      where
        from_start : stream.size - 0 ≡ stream.size
        from_start = omega arith

        checked :
            Result StreamError ℕ × (V × (B × T)) → Result StreamError (Unit {0}) × (V × (B × T))
        checked r =
            continue r.0
              (λ delivered.
                if delivered == stream.size
                then Exec.pure tt
                else Exec.raise (short_stream delivered))
              r.1

        ended :
            (v : V) (b : B) (q : Result StreamError (Unit {0}) × T)
            → checked ((answer stream.size q).0, (v, (b, (answer stream.size q).1)))
              ≡ (q.0, (v, (b, q.1)))
        ended v b (ok u, t) = rw (==_refl stream.size) refl
        ended v b (err e, t) = refl
