-- ===== src/Stream/Pass/Whole.antt =====
-- aff4tools: src/stream.rs, `read_all_observed`: the loop over the bevies, and the chunks of a whole stream.
use aff4tools.Prelude.{
  ℕ, zero, suc, ◌+◌, ◌*◌, ◌≤◌, ◌≡◌, ◌⊎◌, ap, ◌∙◌, inl, inr, min, Option, some, List, ◌++◌, arith,
  ltb, ◌==◌, ltb→lt, length, flatten, u64_max, Bool-cases, Option-cases,
}
use aff4tools.Prelude.Results.{ok, err}
use aff4tools.Prelude.Exec.{Exec, Sink, feed, bind-eq-ok, lift, on_second}
use aff4tools.Text.{Text}
use aff4tools.Arn.Member.{NameMapping}
use aff4tools.Codec.{Decoders}
use aff4tools.Stream.{
  ChunkLocation, ImageStream, StreamError, Volume, deliver_chunks, read_bevy, read_bevies,
  read_all_observed, bevy_name, bevy_count, parse_index_bounded, short_stream, no_member,
  index_suffix, on_first,
}
use aff4tools.Stream.Exact.{parse_index_bounded_size}
use aff4tools.Stream.Reader.Reference.{Holds}
use aff4tools.Stream.Pass.{Bevy, AreChunks, ListsAll, place}
use aff4tools.Stream.Pass.Runs.{
  Delivered, Runs, nothing-Delivered, both-Delivered, started, deliver_chunks-Runs, same_result,
}

module _ (decoders : Decoders) (stream : ImageStream) {V : Type 0} (volume : Volume V)
    (mapping : NameMapping) (stored : Text → Option (List ℕ)) (word : stream.size ≤ u64_max)
    {T : Type 0} (sink : Sink StreamError T) where
  module _ {B : Type 0} (on_bevy : ℕ → B → B) {Fault : Type 0} (law : Holds volume stored Fault)
      (lists : ListsAll decoders stream volume mapping stored) where
    segment_read :
        (name : Text) (bytes : List ℕ) (s s' : V × (B × T))
        → on_first (volume.read_segment name) s ≡ (ok bytes, s')
        → stored name ≡ some bytes
    segment_read name bytes s s' h = rw (ap (λ r. r.0) h) at (law.whole name s.0)

    -- The end of a bevy: the next chunk is the first of the next bevy, or the stream is done.
    next_bevy :
        (i n d : ℕ) (bevy : List ℕ) (locations : List ChunkLocation)
        → Bevy decoders stream volume mapping stored i bevy locations
        → d ≡ min (n * stream.chunk_size) stream.size
        → (stream.size ≤ d) ⊎ (n ≡ i * stream.chunks_in_segment + length locations)
        → (stream.size ≤ d) ⊎ (n ≡ suc i * stream.chunks_in_segment)
    next_bevy i n d bevy locations b at (inl ended) = inl ended
    next_bevy i n d bevy locations b at (inr e) =
        let (size, some_chunk, bound) =
          parse_index_bounded_size b.index stream.chunks_in_segment locations b.parsed in
        (elim (Bool-cases (ltb (length locations) stream.chunks_in_segment)) [
          | inr full ↦ inr (ground (arith, full, bound, e))
          | inl short ↦
              let (quotient, rest) =
                place stream.chunks_in_segment i (length locations) n
                  (ltb→lt (length locations) stream.chunks_in_segment short) e in
              elim (Bool-cases (ltb d stream.size)) [
                | inr done ↦ inl (ground (arith, done))
                | inl more ↦
                    let listed =
                      lists n b.name b.index
                        (let room = ltb→lt d stream.size more in omega (arith, at, room))
                        (rw quotient b.named) b.indexed in
                    absurd (omega (arith, listed, size, rest))
              ]
        ])

    deliver_bevy-Runs :
        (i n d d' : ℕ) (bevy : List ℕ) (locations : List ChunkLocation) (t t' : T)
        → Bevy decoders stream volume mapping stored i bevy locations
        → n ≡ i * stream.chunks_in_segment
        → d ≡ min (n * stream.chunk_size) stream.size
        → deliver_chunks decoders stream sink bevy locations 0 d t ≡ (ok d', t')
        → Runs decoders stream volume mapping stored word sink n d d'
            (suc i * stream.chunks_in_segment)
            t
            t'
    deliver_bevy-Runs i n d d' bevy locations t t' b e at h =
        let (size, some_chunk, bound) =
          parse_index_bounded_size b.index stream.chunks_in_segment locations b.parsed in
        let (n', run, stopped) =
          deliver_chunks-Runs decoders stream volume mapping stored word sink i bevy locations b
            locations 0 n d d' t t'
            (λ k m l e found. let same : k ≡ m = omega (arith, e) in rw (← same) found)
            (omega (arith, bound)) (omega (arith, e)) at h in
        let last : (stream.size ≤ d') ⊎ (n' ≡ i * stream.chunks_in_segment + length locations) =
          ground (arith, stopped) in
        (n', run, next_bevy i n' d' bevy locations b run.reached last)

    read_bevy-Runs :
        (i n d d' : ℕ) (s s' : V × (B × T)) (go_on : ℕ → Exec StreamError (V × (B × T)) ℕ)
        → n ≡ i * stream.chunks_in_segment
        → d ≡ min (n * stream.chunk_size) stream.size
        → ((n1 d1 : ℕ) (s1 : V × (B × T))
            → (stream.size ≤ d1) ⊎ (n1 ≡ suc i * stream.chunks_in_segment)
            → d1 ≡ min (n1 * stream.chunk_size) stream.size
            → go_on d1 s1 ≡ (ok d', s')
            → (n' : ℕ) × Delivered decoders stream volume mapping stored word sink n1 n' d1 d'
                s1.1.1 s'.1.1)
        → read_bevy decoders stream sink volume mapping on_bevy i d go_on s ≡ (ok d', s')
        → (n' : ℕ) × Delivered decoders stream volume mapping stored word sink n n' d d' s.1.1
            s'.1.1
    unfolding read_bevy
    read_bevy-Runs i n d d' s s' go_on e at later h =
        elim (Option-cases (bevy_name stream volume.arn mapping i)) [
          | inl nowhere ↦
              let no : err no_member ≡ ok d' = ap (λ r. r.0) (rw (nowhere, read_bevy) at h) in cc
          | inr (name, named) ↦
              let (index, s1, got, h1) =
                bind-eq-ok (on_first (volume.read_segment (name ++ index_suffix))) _ s d' s'
                  (rw (named, read_bevy) at h) in
              let (bevy, s2, got2, h2) =
                bind-eq-ok (on_first (volume.read_segment name)) _ s1 d' s' h1 in
              let (locations, s3, parsed, h3) =
                bind-eq-ok (lift (parse_index_bounded index stream.chunks_in_segment)) _ s2 d' s'
                  h2 in
              let (d1, s4, ran, h4) =
                bind-eq-ok
                  (on_second (on_second (deliver_chunks decoders stream sink bevy locations 0 d))) _
                  s3 d' s' h3 in
              let start : s.1.1 ≡ s3.1.1 =
                ap (λ r. r.1.1.1) got ∙ ap (λ r. r.1.1.1) got2 ∙ ap (λ r. r.1.1.1) parsed in
              let held = segment_read name bevy s1 s2 got2 in
              let b : Bevy decoders stream volume mapping stored i bevy locations = record {
                name = name;
                index = index;
                named = named;
                indexed = segment_read (name ++ index_suffix) index s s1 got;
                held = held;
                parsed = ap (λ r. r.0) parsed;
                small = law.small name bevy held;
              } in
              let (n1, first, stopped) =
                deliver_bevy-Runs i n d d1 bevy locations s3.1.1 s4.1.1 b e at
                  (ap (λ r. (r.0, r.1.1.1)) ran) in
              let (n', last) =
                later n1 d1 (s4.0, (on_bevy (i + 1) s4.1.0, s4.1.1)) stopped first.reached h4 in
              (
                n',
                both-Delivered decoders stream volume mapping stored word sink n n1 n' d d1 d' s.1.1
                    s4.1.1 s'.1.1
                    (started decoders stream volume mapping stored word sink n n1 d d1 s.1.1 s3.1.1
                      s4.1.1 start first)
                    last,
              )
        ]

    -- The loop over the bevies.
    read_bevies-Runs :
        (count i n d d' : ℕ) (s s' : V × (B × T))
        → (stream.size ≤ d) ⊎ (n ≡ i * stream.chunks_in_segment)
        → d ≡ min (n * stream.chunk_size) stream.size
        → read_bevies decoders stream sink volume mapping on_bevy count i d s ≡ (ok d', s')
        → (n' : ℕ) × Delivered decoders stream volume mapping stored word sink n n' d d' s.1.1
            s'.1.1
    unfolding read_bevies
    read_bevies-Runs zero i n d d' s s' e at h =
        let (same, same') = same_result d d' s s' h in
        (
          n,
          rw (← same, ← same')
              (nothing-Delivered decoders stream volume mapping stored word sink n d s.1.1 at),
        )
    read_bevies-Runs (suc count) i n d d' s s' e at h = elim (Bool-cases (ltb d stream.size)) [
      | inr full ↦
          let (same, same') = same_result d d' s s' (rw (full, read_bevies) at h) in
          (
            n,
            rw (← same, ← same')
                (nothing-Delivered decoders stream volume mapping stored word sink n d s.1.1 at),
          )
      | inl more ↦
          read_bevy-Runs i n d d' s s'
            (read_bevies decoders stream sink volume mapping on_bevy count (suc i))
            (ground (arith, more, e)) at
            (λ n1 d1 s1 e1 at1 h1. read_bevies-Runs count (suc i) n1 d1 d' s1 s' e1 at1 h1)
            (rw (more, read_bevies) at h)
    ]

    -- A pass over a stream, whose size is a u64, that succeeds, over a volume that reads the
    -- segments it has and whose indexes list every chunk, has fed the sink the chunks of the
    -- stream in order, and the sink accepted them. Piece `n` is what entry `n %
    -- chunks_in_segment` in the index of bevy `n / chunks_in_segment` locates, decompressed and
    -- cut where the stream ends; it has `chunk_size` bytes, or as many as the stream has from `n
    -- * chunk_size` on, and the pieces join to as many bytes as the stream declares.
    pub read_all_observed_exact :
        (s s' : V × (B × T))
        → read_all_observed decoders stream sink volume mapping on_bevy s ≡ (ok tt, s')
        → (ps : List (List ℕ)) × AreChunks decoders stream volume mapping stored 0 ps
          × (length (flatten ps) ≡ stream.size)
          × (feed sink ps s.1.1 ≡ (ok tt, s'.1.1))
    unfolding read_all_observed
    read_all_observed_exact s s' h =
        let (d, s1, ran, h1) =
          bind-eq-ok
            (read_bevies decoders stream sink volume mapping on_bevy (bevy_count stream) 0 0) _ s tt
            s' h in
        let (n, got) =
          read_bevies-Runs (bevy_count stream) 0 0 0 d s s1 (inr (omega arith)) (omega arith) ran in
        (elim (Bool-cases (d == stream.size)) [
          | inl whole ↦
              let last : s1 ≡ s' = ap (λ r. r.1) (rw whole at h1) in
              (
                got.pieces,
                got.chunks,
                ground (arith, got.amount, whole),
                got.fed ∙ ap (λ (q : V × (B × T)). (ok tt, q.1.1)) last,
              )
          | inr short ↦ let no : err (short_stream d) ≡ ok tt = ap (λ r. r.0) (rw short at h1) in cc
        ])
