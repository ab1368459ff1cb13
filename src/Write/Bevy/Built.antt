-- ===== src/Write/Bevy/Built.antt =====
-- aff4tools: src/write/bevy.rs, what a chunk is stored as, and that the reader gets it back.
use aff4tools.Prelude.{
  ℕ, ◌+◌, ◌-◌, ◌≤◌, ◌<◌, ◌≡◌, refl, ap, ◌∙◌, inl, inr, true, false, some, List, arith, ltb, ◌==◌,
  ==_refl, length, length-append, length-replicate, replicate, Bool-cases, Option-cases,
}
use aff4tools.Prelude.Results.{ok, ok-injective}
use aff4tools.Codec.{
  Codec, stored, snappy, snappy_rekall, zlib, deflate, lz4, Decoders, max_chunk_size,
  decompress_chunk, decode, decompress_snappy, decompress_zlib, decompress_lz4,
  honours_stored_chunks, is_implemented,
}
use aff4tools.Write.Bevy.{
  Encoders, compress_chunk, stored_margin, wrapping_sub, padded, stored_bytes,
}

-- A codec that `compress_chunk` writes.
abbrev pub IsWritable : Codec → Type 0
IsWritable stored = Unit
IsWritable snappy = Unit
IsWritable snappy_rekall = ⊥
IsWritable zlib = Unit
IsWritable deflate = ⊥
IsWritable lz4 = Unit

-- What the crates document of a chunk of `chunk_size` bytes: its compressed form is not empty, and
-- decompresses to it; writing zlib to memory does not fail.
pub record Inverts (d : Decoders) (e : Encoders) (chunk_size : ℕ) : Type 0 where
  pub snappy_back :
      (c z : List ℕ)
      → length c ≡ chunk_size
      → e.snap c ≡ some z
      → (0 < length z) × (d.snap_len z ≡ some chunk_size) × (d.snap z ≡ some c)
  pub zlib_back :
      (c z : List ℕ)
      → length c ≡ chunk_size
      → e.deflate_zlib c ≡ some z
      → (0 < length z) × (d.inflate z (chunk_size + 1) ≡ some (c, true))
  pub zlib_done : (c : List ℕ) → length c ≡ chunk_size → (z : List ℕ) × (e.deflate_zlib c ≡ some z)
  pub lz4_back :
      (c : List ℕ)
      → length c ≡ chunk_size
      → (0 < length (e.lz4_block c)) × (d.lz4_block (e.lz4_block c) chunk_size ≡ some c)

pub length-padded :
    (chunk_size : ℕ) (chunk : List ℕ)
    → length chunk ≤ chunk_size
    → length (padded chunk_size chunk) ≡ chunk_size
unfolding padded
length-padded chunk_size chunk le = elim (Bool-cases (length chunk == chunk_size)) [
  | inl full ↦ rw full (ground (arith, full))
  | inr short ↦
      let sum = length-append chunk (replicate (chunk_size - length chunk) 0) in
      let zeros = length-replicate {A = ℕ} (chunk_size - length chunk) 0 in
      rw short (omega (arith, sum, zeros, le))
]

module _ (d : Decoders) (e : Encoders) (chunk_size : ℕ) (law : Inverts d e chunk_size)
    (room : stored_margin ≤ chunk_size) (plausible : chunk_size ≤ max_chunk_size) where
  -- The reader gets `full` out of the bytes.
  abbrev pub Stores : Codec → (bytes full : List ℕ) → Type 0
  Stores codec bytes full =
      (0 < length bytes)
      × (length bytes ≤ chunk_size)
      × (decompress_chunk d codec bytes chunk_size ≡ ok full)

  -- A chunk that is shorter when compressed is decoded.
  abbrev Decodes : Codec → (z full : List ℕ) → Type 0
  Decodes codec z full = (0 < length z) × (decode d codec z chunk_size ≡ ok full)

  no_snap_len : ltb chunk_size chunk_size ≡ false
  no_snap_len = ground arith

  not_zero : (chunk_size == 0) ≡ false
  not_zero = ground (arith, room)

  snappy_decodes :
      (z full : List ℕ)
      → d.snap_len z ≡ some chunk_size
      → d.snap z ≡ some full
      → decompress_snappy d z chunk_size ≡ ok full
  unfolding decompress_snappy
  snappy_decodes z full len back = rw (len, no_snap_len, not_zero, back, decompress_snappy) refl

  zlib_decodes :
      (z full : List ℕ)
      → length full ≡ chunk_size
      → d.inflate z (chunk_size + 1) ≡ some (full, true)
      → decompress_zlib d z chunk_size ≡ ok full
  unfolding decompress_zlib
  zlib_decodes z full n back = rw (back, n, no_snap_len, not_zero, decompress_zlib) refl

  lz4_decodes :
      (z full : List ℕ)
      → length full ≡ chunk_size
      → d.lz4_block z chunk_size ≡ some full
      → decompress_lz4 d z chunk_size ≡ ok full
  unfolding decompress_lz4
  lz4_decodes z full n back = rw (back, n, not_zero, decompress_lz4) refl

  compressed-Decodes :
      (codec : Codec)
      → IsWritable codec
      → (full z : List ℕ) → length full ≡ chunk_size
      → compress_chunk e codec full ≡ ok z
      → length z < chunk_size
      → Decodes codec z full
  unfolding compress_chunk decode
  compressed-Decodes stored w full z n h short =
      let same : full ≡ z = ok-injective h in
      absurd (let l = ap length same in omega (arith, l, n, short))
  compressed-Decodes snappy w full z n h short = elim (Option-cases (e.snap full)) [
    | inl nothing ↦
        let same : full ≡ z = ok-injective (rw (nothing, compress_chunk) at h) in
        absurd (let l = ap length same in omega (arith, l, n, short))
    | inr (y, made) ↦
        let same : y ≡ z = ok-injective (rw (made, compress_chunk) at h) in
        let (positive, len, back) = law.snappy_back full z n (made ∙ ap some same) in
        (positive, snappy_decodes z full len back)
  ]
  compressed-Decodes snappy_rekall w full z n h short = elim w [ ]
  compressed-Decodes zlib w full z n h short =
      let (y, made) = law.zlib_done full n in
      let same : y ≡ z = ok-injective (rw (made, compress_chunk) at h) in
      let (positive, back) = law.zlib_back full z n (made ∙ ap some same) in
      (positive, zlib_decodes z full n back)
  compressed-Decodes deflate w full z n h short = elim w [ ]
  compressed-Decodes lz4 w full z n h short =
      let same : e.lz4_block full ≡ z = ok-injective h in
      let (positive, back) = law.lz4_back full n in
      rw (← same) (positive, lz4_decodes (e.lz4_block full) full n back)

  honours : (codec : Codec) → IsWritable codec → honours_stored_chunks codec ≡ true
  unfolding honours_stored_chunks
  honours stored w = refl
  honours snappy w = refl
  honours snappy_rekall w = elim w [ ]
  honours zlib w = refl
  honours deflate w = elim w [ ]
  honours lz4 w = refl

  implemented : (codec : Codec) → IsWritable codec → is_implemented codec ≡ true
  unfolding is_implemented
  implemented stored w = refl
  implemented snappy w = refl
  implemented snappy_rekall w = elim w [ ]
  implemented zlib w = refl
  implemented deflate w = elim w [ ]
  implemented lz4 w = refl

  within : ltb max_chunk_size chunk_size ≡ false
  within = ground (arith, plausible)

  -- The stored-chunk rule keeps the two forms apart.
  pub stored_bytes-Stores :
      (codec : Codec)
      → IsWritable codec
      → (full z : List ℕ) → length full ≡ chunk_size
      → compress_chunk e codec full ≡ ok z
      → Stores codec (stored_bytes chunk_size full z) full
  unfolding stored_bytes decompress_chunk
  stored_bytes-Stores codec w full z n h =
      elim (Bool-cases (ltb (length z) (wrapping_sub chunk_size stored_margin))) [
        | inr long ↦ rw long (
          omega (arith, n, room),
          omega (arith, n),
          rw (within, honours codec w, n, ==_refl chunk_size) refl,
        )
        | inl short ↦
            let less : length z < chunk_size = ground (arith, short, room, plausible) in
            let other : (length z == chunk_size) ≡ false = ground (arith, less) in
            let (positive, back) = compressed-Decodes codec w full z n h less in
            rw short (
              positive,
              omega (arith, less),
              rw (within, honours codec w, other, implemented codec w, back, n, no_snap_len) refl,
            )
      ]

  -- Compression does not fail.
  pub compressed :
      (codec : Codec)
      → IsWritable codec
      → (full : List ℕ) → length full ≡ chunk_size
      → (z : List ℕ) × (compress_chunk e codec full ≡ ok z)
  unfolding compress_chunk
  compressed stored w full n = (full, refl)
  compressed snappy w full n = elim (Option-cases (e.snap full)) [
    | inl nothing ↦ (full, rw (nothing, compress_chunk) refl)
    | inr (z, made) ↦ (z, rw (made, compress_chunk) refl)
  ]
  compressed snappy_rekall w full n = elim w [ ]
  compressed zlib w full n =
      let (z, made) = law.zlib_done full n in (z, rw (made, compress_chunk) refl)
  compressed deflate w full n = elim w [ ]
  compressed lz4 w full n = (e.lz4_block full, refl)
