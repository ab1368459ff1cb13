-- ===== src/Write/Bevy/RoundTrip.antt =====
-- aff4tools: src/write/bevy.rs against src/stream.rs, a bevy that was written reads back as its chunks.
use aff4tools.Prelude.{
  ℕ, suc, ◌+◌, ◌*◌, ◌/◌, ◌%◌, ◌^◌, ◌≤◌, ◌<◌, ◌≡◌, refl, sym, ap, ◌∙◌, inl, inr, true, false, Option,
  none, some, List, [], ◌∷◌, ◌++◌, append_assoc, arith, ltb, ◌==◌, length, length-append, take,
  drop, take-append, drop-append, map, flatten, u64_max, All, Option-cases,
}
use aff4tools.Prelude.Results.{ok}
use mathlib.Core.Path.{subst, ap₂}
use aff4tools.Text.{Text}
use aff4tools.Codec.{Codec, Decoders, max_chunk_size, decompress_chunk}
use aff4tools.Map.Decode.{chunks}
use aff4tools.Stream.{
  ChunkLocation, ImageStream, index_entry_len, decode_location, parse_index, parse_index_bounded,
  slice_chunk, decode_chunks, decode_bevy,
}
use aff4tools.Stream.Exact.{slice_chunk_iff}
use aff4tools.Write.Bevy.{Encoders, BevyBuilder, to_le_bytes, stored_margin, padded, finish}
use aff4tools.Write.Bevy.Built.{IsWritable, Inverts}
use aff4tools.Write.Bevy.{with_block_algorithm}
use aff4tools.Write.Bevy.Pushed.{
  layout, encode_index, Contains, Pairs, length-Pairs, length-flatten_le, push_all, Configured,
  push_all-Contains, decode_location-encode, length-encode_index,
}

-- The index of a bevy of less than 2^64 bytes reads back.
decoded-encode_index :
    (offset : ℕ) (xs : List (List ℕ))
    → offset + length (flatten xs) < 2 ^ 64
    → All (λ (x : List ℕ). length x < 2 ^ 32) xs
    → map decode_location
        (chunks index_entry_len (length (layout offset xs)) (encode_index (layout offset xs)))
      ≡ layout offset xs
unfolding chunks to_le_bytes
decoded-encode_index offset [] fits small = refl
decoded-encode_index offset (x ∷ xs) fits small =
    let sum = length-append x (flatten xs) in
    let here =
      decode_location-encode (record { offset = offset; length = length x }) (omega (arith, fits))
        small.0 in
    let rest = decoded-encode_index (offset + length x) xs (omega (arith, fits, sum)) small.1 in
    ap₂ (λ a b. a ∷ b) here rest

length-layout : (offset : ℕ) (xs : List (List ℕ)) → length (layout offset xs) ≡ length xs
length-layout offset [] = refl
length-layout offset (x ∷ xs) = ap suc (length-layout (offset + length x) xs)

index-parsed :
    (xs : List (List ℕ)) (limit : ℕ)
    → length (flatten xs) < 2 ^ 64
    → All (λ (x : List ℕ). length x < 2 ^ 32) xs
    → 0 < length xs
    → length xs ≤ limit
    → parse_index_bounded (encode_index (layout 0 xs)) limit ≡ ok (layout 0 xs)
unfolding parse_index_bounded parse_index
index-parsed xs limit fits small positive bounded =
    let size = length-encode_index (layout 0 xs) in
    let count = length-layout 0 xs in
    let entries : length (encode_index (layout 0 xs)) / index_entry_len ≡ length (layout 0 xs) =
      omega (arith, size) in
    let few : ltb limit (length (layout 0 xs)) ≡ false = ground (arith, count, bounded) in
    let some' : (length (encode_index (layout 0 xs)) == 0) ≡ false =
      ground (arith, size, count, positive) in
    let whole : (length (encode_index (layout 0 xs)) % index_entry_len == 0) ≡ true =
      ground (arith, size) in
    rw (entries, few, some', whole) (ap ok (decoded-encode_index 0 xs (omega (arith, fits)) small))

module _ (d : Decoders) (e : Encoders) (chunk_size : ℕ) (law : Inverts d e chunk_size)
    (room : stored_margin ≤ chunk_size) (plausible : chunk_size ≤ max_chunk_size) (codec : Codec)
    (writable : IsWritable codec) where
  abbrev Kept : List (List ℕ) → List (List ℕ) → Type 0
  Kept xs cs = Pairs d e chunk_size law room plausible codec writable xs cs

  -- The chunks of a bevy, one behind the other, decode.
  module _ (stream : ImageStream) (same_codec : stream.codec ≡ codec)
      (same_size : stream.chunk_size ≡ chunk_size) where
    decode_chunks-layout :
        (pre : List ℕ) (xs cs : List (List ℕ)) (i : ℕ)
        → Kept xs cs
        → length (pre ++ flatten xs) ≤ u64_max
        → decode_chunks d stream (pre ++ flatten xs) (layout (length pre) xs) i
          ≡ ok (map (padded chunk_size) cs)
    unfolding decode_chunks
    decode_chunks-layout pre [] [] i kept small = refl
    decode_chunks-layout pre [] (c ∷ cs) i kept small = elim kept [ ]
    decode_chunks-layout pre (x ∷ xs) [] i kept small = elim kept [ ]
    decode_chunks-layout pre (x ∷ xs) (c ∷ cs) i kept small =
        let bevy = pre ++ (x ++ flatten xs) in
        let lp = length-append pre (x ++ flatten xs) in
        let lx = length-append x (flatten xs) in
        let location : ChunkLocation = record { offset = length pre; length = length x } in
        let here : x ≡ take (length x) (drop (length pre) bevy) = sym (
          ap (λ t. take (length x) t) (drop-append pre (x ++ flatten xs))
          ∙ take-append x (flatten xs)) in
        let cut : slice_chunk bevy location i ≡ ok x =
          (slice_chunk_iff bevy location i x small).1 (kept.0.0, omega (arith, lp, lx), here) in
        let back : decompress_chunk d stream.codec x stream.chunk_size ≡ ok (padded chunk_size c) =
          ap (λ k. decompress_chunk d k x stream.chunk_size) same_codec
          ∙ ap (λ k. decompress_chunk d codec x k) same_size
          ∙ kept.0.2 in
        let joined : (pre ++ x) ++ flatten xs ≡ bevy = append_assoc pre x (flatten xs) in
        let ih =
          decode_chunks-layout (pre ++ x) xs cs (suc i) kept.1
            (subst (λ (t : List ℕ). length t ≤ u64_max) (sym joined) small) in
        let rest : decode_chunks d stream bevy (layout (length pre + length x) xs) (suc i)
            ≡ ok (map (padded chunk_size) cs) =
          sym (
            ap (λ t. decode_chunks d stream t (layout (length (pre ++ x)) xs) (suc i)) joined
            ∙ ap (λ k. decode_chunks d stream bevy (layout k xs) (suc i)) (length-append pre x))
          ∙ ih in
        rw (cut, back, rest) refl

    small_chunks : (xs cs : List (List ℕ)) → Kept xs cs → All (λ (x : List ℕ). length x < 2 ^ 32) xs
    small_chunks [] cs kept = tt
    small_chunks (x ∷ xs) [] kept = elim kept [ ]
    small_chunks (x ∷ xs) (c ∷ cs) kept =
        (let short = kept.0.1 in omega (arith, short, plausible), small_chunks xs cs kept.1)

    by_index :
        (xs cs : List (List ℕ))
        → parse_index_bounded (encode_index (layout 0 xs)) stream.chunks_in_segment
          ≡ ok (layout 0 xs)
        → decode_chunks d stream (flatten xs) (layout 0 xs) 0 ≡ ok (map (padded chunk_size) cs)
        → decode_bevy d stream (flatten xs) (encode_index (layout 0 xs))
          ≡ ok (map (padded chunk_size) cs)
    unfolding decode_bevy
    by_index xs cs parsed decoded = rw (parsed, decode_bevy) decoded

    module _ {H : Type 0} (block_hash_suffix : H → Option Text)
        (digest_bytes_of : H → List ℕ → Option (List ℕ)) where
      new_builder :
          (chunks_per_segment : ℕ) (algorithm : Option H)
          → (let b =
                with_block_algorithm e block_hash_suffix digest_bytes_of codec chunk_size
                  chunks_per_segment algorithm in
              Configured d e chunk_size law room plausible codec writable block_hash_suffix
                digest_bytes_of b
              × Contains [] b)
      unfolding with_block_algorithm
      new_builder chunks_per_segment none = ((refl, refl), (refl, refl, refl))
      new_builder chunks_per_segment (some h) = elim (Option-cases (block_hash_suffix h)) [
        | inl unnamed ↦ rw (unnamed, with_block_algorithm) ((refl, refl), (refl, refl, refl))
        | inr (suffix, named) ↦ rw (named, with_block_algorithm) ((refl, refl), (refl, refl, refl))
      ]

      -- A bevy of chunks that are no longer than `chunk_size`, of a size from the margin of 16 bytes to
      -- `MAX_CHUNK_SIZE`, pushed one after the other to a new builder of a codec that is written, whose
      -- crates invert each other: no push fails, and what `finish` gives reads back by `decode_bevy`, in a
      -- stream of that codec and chunk size with room for them, as the chunks padded to `chunk_size`. There
      -- is a chunk at least, and the padded chunks have less than 2^64 bytes.
      pub decode_bevy-finish :
          (chunks_per_segment : ℕ) (algorithm : Option H) (cs : List (List ℕ))
          → All (λ (c : List ℕ). length c ≤ chunk_size) cs
          → 0 < length cs
          → length cs ≤ stream.chunks_in_segment
          → length cs * chunk_size ≤ u64_max
          → (b : BevyBuilder H) × (push_all d e chunk_size law room plausible codec writable
                block_hash_suffix digest_bytes_of cs
                (with_block_algorithm e block_hash_suffix digest_bytes_of codec chunk_size
                  chunks_per_segment algorithm)
              ≡ (ok tt, b))
            × (let r = (finish e block_hash_suffix digest_bytes_of b).0 in
                (decode_bevy d stream r.body r.index ≡ ok (map (padded chunk_size) cs))
                × (r.chunk_count ≡ length cs))
      unfolding finish decode_bevy
      decode_bevy-finish chunks_per_segment algorithm cs short positive bounded small =
          let b0 =
            with_block_algorithm e block_hash_suffix digest_bytes_of codec chunk_size
              chunks_per_segment algorithm in
          let (configured, empty) = new_builder chunks_per_segment algorithm in
          let (xs, b, ran, (body, index, count), kept) =
            push_all-Contains d e chunk_size law room plausible codec writable block_hash_suffix
              digest_bytes_of cs b0 [] configured empty short in
          let n = length-Pairs d e chunk_size law room plausible codec writable xs cs kept in
          let total =
            length-flatten_le d e chunk_size law room plausible codec writable xs cs kept in
          let total' : length (flatten xs) ≤ length cs * chunk_size =
            subst (λ k. length (flatten xs) ≤ k * chunk_size) n total in
          let parsed =
            index-parsed xs stream.chunks_in_segment (omega (arith, total', small))
              (small_chunks xs cs kept) (omega (arith, n, positive)) (omega (arith, n, bounded)) in
          let decoded = decode_chunks-layout [] xs cs 0 kept (omega (arith, total', small)) in
          (
            b,
            ran,
            (
              ap₂ (λ t u. decode_bevy d stream t u) body index ∙ by_index xs cs parsed decoded,
              count ∙ n,
            ),
          )
