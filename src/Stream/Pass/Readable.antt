-- ===== src/Stream/Pass/Readable.antt =====
-- aff4tools: src/stream.rs, a chunk that a reader gets from a stream is a chunk that the pass
-- delivers.
use aff4tools.Prelude.{
  ℕ, ◌+◌, ◌-◌, ◌*◌, ◌/◌, ◌%◌, ◌≤◌, ◌<◌, ◌≡◌, ◌⊎◌, refl, sym, ap, ◌∙◌, inl, inr, min, Option, none,
  some, List, ◌++◌, arith, ltb, if◌then◌else◌, length, take, get_elem?, sat_add, u64_max,
  eq_of_some, get_elem?-none, Bool-cases, Option-cases,
}
use aff4tools.Prelude.Results.{Result, ok, err, ok_or, >>=-eq-ok, ok-injective}
use aff4tools.Prelude.Exec.{Exec, Sink, on_second}
use aff4tools.Prelude.Exec
use native.Mathlib.Nat.{mod-eq_of_lt}
use aff4tools.Text.{Text}
use aff4tools.Arn.Member.{NameMapping}
use aff4tools.Codec.{Decoders, decompress_chunk}
use aff4tools.Stream.{
  ChunkLocation, ImageStream, StreamError, Volume, no_chunk, chunk_result, slice_chunk,
  refuse_short_chunk, truncated, wrapping_mul, plain_chunk, bevy_name, parse_index_bounded,
  index_suffix, deliver_chunks, read_bevy,
}
use aff4tools.Stream.Reader.{cut_chunk, chunk_in_bevy}
use aff4tools.Stream.Reader.Reference.{Agrees, Holds, to_option, locations_of, bytes_of, chunk_of}
use aff4tools.Stream.Pass.{Bevy}

to_option-some : {A : Type 0} (r : Result StreamError A) (a : A) → to_option r ≡ some a → r ≡ ok a
to_option-some (ok b) a h = let e : b ≡ a = eq_of_some h in ap ok e
to_option-some (err e) a h = cc

ok_or-some : {A : Type 0} (o : Option A) (e : StreamError) (a : A) → ok_or o e ≡ ok a → o ≡ some a
ok_or-some none e a h = cc
ok_or-some (some b) e a h = let same : b ≡ a = ok-injective h in ap some same

cut_long :
    (rest size : ℕ) (plain piece : List ℕ)
    → (if ltb rest (length plain) then take rest plain else plain) ≡ piece
    → length piece ≡ min size rest
    → (size ≤ length plain) ⊎ (rest ≤ length plain)
cut_long rest size plain piece h n = elim (Bool-cases (ltb rest (length plain))) [
  | inl long ↦ inr (ground (arith, long))
  | inr fits ↦
      let same : plain ≡ piece = rw fits at h in let e = ap length same in ground (arith, e, n)
]

not_short :
    (stream : ImageStream) (n d : ℕ)
    → stream.size ≤ u64_max
    → (stream.chunk_size ≤ n) ⊎ (stream.size - d ≤ n)
    → refuse_short_chunk stream n d ≡ ok tt
unfolding refuse_short_chunk sat_add
not_short stream n d word h = ground arith

exact_cut :
    (decoders : Decoders) (stream : ImageStream) (n : ℕ) (plain : List ℕ)
    → stream.size ≤ u64_max
    → n * stream.chunk_size < stream.size
    → cut_chunk decoders stream n plain ≡ (
        if ltb (stream.size - n * stream.chunk_size) (length plain)
        then take (stream.size - n * stream.chunk_size) plain
        else plain)
unfolding cut_chunk
exact_cut decoders stream n plain word room =
    let exact : wrapping_mul n stream.chunk_size ≡ n * stream.chunk_size =
      mod-eq_of_lt (omega (arith, room, word)) in
    rw exact refl

-- What `decompress` takes out of a bevy as chunk `n`, with no byte of the stream missing from it,
-- the pass takes out of it too, as the next piece.
pub plain_chunk-chunk_in_bevy :
    (decoders : Decoders) (stream : ImageStream) (bevy : List ℕ) (locations : List ChunkLocation)
    (location : ChunkLocation) (j n : ℕ) (piece : List ℕ)
    → stream.size ≤ u64_max
    → n * stream.chunk_size < stream.size
    → n % stream.chunks_in_segment ≡ j
    → get_elem? locations j ≡ some location
    → chunk_in_bevy decoders stream n locations bevy ≡ ok piece
    → length piece ≡ min stream.chunk_size (stream.size - n * stream.chunk_size)
    → plain_chunk decoders stream bevy location j (n * stream.chunk_size) ≡ ok piece
unfolding chunk_in_bevy plain_chunk truncated
plain_chunk-chunk_in_bevy decoders stream bevy locations location j n piece word room at here h
      full =
    let (location', found, h1) =
      >>=-eq-ok
        (ok_or (get_elem? locations (n % stream.chunks_in_segment)) (no_chunk n (length locations)))
        _ h in
    let (input, sliced, h2) =
      >>=-eq-ok (slice_chunk bevy location' (n % stream.chunks_in_segment)) _ h1 in
    let (plain, decoded, h3) =
      >>=-eq-ok (chunk_result (decompress_chunk decoders stream.codec input stream.chunk_size)) _
        h2 in
    let same : location' ≡ location =
      eq_of_some (sym (ok_or-some _ _ location' found) ∙ ap (get_elem? locations) at ∙ here) in
    let cut : (if ltb (stream.size - n * stream.chunk_size) (length plain)
          then take (stream.size - n * stream.chunk_size) plain
          else plain)
        ≡ piece =
      sym (exact_cut decoders stream n plain word room) ∙ ok-injective h3 in
    let enough =
      not_short stream (length plain) (n * stream.chunk_size) word
        (cut_long (stream.size - n * stream.chunk_size) stream.chunk_size plain piece cut full) in
    let sliced' : slice_chunk bevy location j ≡ ok input =
      ap (λ l. slice_chunk bevy l j) (sym same)
      ∙ ap (slice_chunk bevy location') (sym at)
      ∙ sliced in
    rw (sliced', decoded, enough, plain_chunk) (ap ok cut)

agreed :
    (o : Option (List ℕ)) (r : Result StreamError (List ℕ)) (a : List ℕ)
    → Agrees ⊥ o r
    → o ≡ some a
    → r ≡ ok a
agreed o (ok b) a same h = let e : b ≡ a = eq_of_some (sym same ∙ h) in ap ok e
agreed o (err e) a (inl absent) h = let no : none ≡ some a = sym absent ∙ h in cc
agreed o (err e) a (inr fault) h = elim fault [ ]

module _ (decoders : Decoders) (stream : ImageStream) {V : Type 0} (volume : Volume V)
    (mapping : NameMapping) (stored : Text → Option (List ℕ)) (law : Holds volume stored ⊥) where
  -- The bevy of a chunk that can be read.
  pub opened :
      (n : ℕ) (a : List ℕ)
      → chunk_of decoders stream volume mapping stored n ≡ some a
      → (bevy : List ℕ) × (locations : List ChunkLocation) × Bevy decoders stream volume mapping
          stored
          (n / stream.chunks_in_segment)
          bevy
          locations
  unfolding chunk_of locations_of bytes_of
  opened n a h =
      elim (Option-cases (bevy_name stream volume.arn mapping (n / stream.chunks_in_segment))) [
        | inl nowhere ↦ let no : none ≡ some a = rw (nowhere, chunk_of, locations_of) at h in cc
        | inr (name, named) ↦ elim (Option-cases (stored (name ++ index_suffix))) [
          | inl unlisted ↦
              let no : none ≡ some a = rw (named, unlisted, chunk_of, locations_of) at h in cc
          | inr (index, indexed) ↦
              elim (Option-cases (to_option (parse_index_bounded index stream.chunks_in_segment))) [
                | inl bad ↦
                    let no : none ≡ some a =
                      rw (named, indexed, bad, chunk_of, locations_of) at h in
                    cc
                | inr (locations, good) ↦ elim (Option-cases (stored name)) [
                  | inl absent ↦
                      let no : none ≡ some a =
                        rw (named, indexed, good, absent, chunk_of, locations_of, bytes_of) at h in
                      cc
                  | inr (bevy, held) ↦ (
                    bevy,
                    locations,
                    record {
                      name = name;
                      index = index;
                      named = named;
                      indexed = indexed;
                      held = held;
                      parsed = to_option-some _ locations good;
                      small = law.small name bevy held;
                    },
                  )
                ]
              ]
        ]
      ]

  -- A chunk that can be read comes out of its bevy.
  pub in_bevy :
      (i n : ℕ) (bevy : List ℕ) (locations : List ChunkLocation) (a : List ℕ)
      → Bevy decoders stream volume mapping stored i bevy locations
      → n / stream.chunks_in_segment ≡ i
      → chunk_of decoders stream volume mapping stored n ≡ some a
      → chunk_in_bevy decoders stream n locations bevy ≡ ok a
  unfolding chunk_of locations_of bytes_of
  in_bevy i n bevy locations a b at h =
      to_option-some (chunk_in_bevy decoders stream n locations bevy) a
        (rw (at, b.named, b.indexed, b.parsed, b.held, chunk_of, locations_of, bytes_of) at h)

  -- The index lists a chunk that comes out of the bevy.
  pub listed_in_bevy :
      (n : ℕ) (bevy : List ℕ) (locations : List ChunkLocation) (a : List ℕ)
      → chunk_in_bevy decoders stream n locations bevy ≡ ok a
      → n % stream.chunks_in_segment < length locations
  unfolding chunk_in_bevy
  listed_in_bevy n bevy locations a h =
      let (location, found, h1) =
        >>=-eq-ok
          (ok_or (get_elem? locations (n % stream.chunks_in_segment))
            (no_chunk n (length locations)))
          _ h in
      let here : get_elem? locations (n % stream.chunks_in_segment) ≡ some location =
        ok_or-some _ _ location found in
      elim (Bool-cases (ltb (n % stream.chunks_in_segment) (length locations))) [
        | inl inside ↦ ground (arith, inside)
        | inr outside ↦
            let nothing =
              get_elem?-none locations (n % stream.chunks_in_segment) (ground (arith, outside)) in
            let no : none ≡ some location = sym nothing ∙ here in cc
      ]

  module _ {B T : Type 0} (sink : Sink StreamError T) (on_bevy : ℕ → B → B) where
    -- What is left of a round, once the two segments are read.
    pub read_bevy-Bevy :
        (i d : ℕ) (bevy : List ℕ) (locations : List ChunkLocation)
        (go_on : ℕ → Exec StreamError (V × (B × T)) ℕ) (s : V × (B × T))
        → Bevy decoders stream volume mapping stored i bevy locations
        → (v : V) × (read_bevy decoders stream sink volume mapping on_bevy i d go_on s
            ≡ Exec.◌>>=◌
                (on_second (on_second (deliver_chunks decoders stream sink bevy locations 0 d)))
                (λ d' s'. go_on d' (s'.0, (on_bevy (i + 1) s'.1.0, s'.1.1)))
                (v, s.1))
    unfolding read_bevy
    read_bevy-Bevy i d bevy locations go_on s b =
        let first = volume.read_segment (b.name ++ index_suffix) s.0 in
        let second = volume.read_segment b.name first.1 in
        let one : first.0 ≡ ok b.index =
          agreed _ first.0 b.index (law.whole (b.name ++ index_suffix) s.0) b.indexed in
        let two : second.0 ≡ ok bevy = agreed _ second.0 bevy (law.whole b.name first.1) b.held in
        (second.1, rw (b.named, one, two, b.parsed, read_bevy) refl)
