-- ===== src/Write/Bevy/Pushed.antt =====
-- aff4tools: src/write/bevy.rs, what a bevy holds after a run of `push_chunk`.
use aff4tools.Prelude.{
  ℕ, suc, ◌+◌, ◌*◌, ◌^◌, ◌≤◌, ◌<◌, ◌≡◌, refl, sym, ap, ◌∙◌, false, Option, List, [], ◌∷◌, ◌++◌,
  append_assoc, append-nil, arith, ltb, leb, length, length-append, flatten, flatten-append, All,
}
use aff4tools.Prelude.Results.{ok}
use aff4tools.Prelude.Exec.{Exec, pure, continue}
use aff4tools.Prelude.Exec
use mathlib.Core.Path.{subst}
use aff4tools.Text.{Text}
use aff4tools.Codec.{Codec, Decoders, max_chunk_size, decompress_chunk}
use aff4tools.Map.Decode.{from_le_bytes}
use aff4tools.Stream.{ChunkLocation, index_entry_len, decode_location}
use aff4tools.Write.Bevy.{
  BevyError, Encoders, BlockDigests, BevyBuilder, to_le_bytes, stored_margin, padded, stored_bytes,
  compress_chunk, append_stored, push_compressed, push_chunk, digested,
}
use aff4tools.Write.Bevy.Built.{IsWritable, Inverts, length-padded, stored_bytes-Stores, compressed}

-- What is stored and where: the chunks of a bevy one behind the other.
abbrev pub layout : ℕ → List (List ℕ) → List ChunkLocation
layout offset [] = []
layout offset (x ∷ xs) =
    record { offset = offset; length = length x } ∷ layout (offset + length x) xs

abbrev pub encode_location : ChunkLocation → List ℕ
encode_location location = to_le_bytes 8 location.offset ++ to_le_bytes 4 location.length

abbrev pub encode_index : List ChunkLocation → List ℕ
encode_index [] = []
encode_index (location ∷ locations) = encode_location location ++ encode_index locations

-- Bytes of a number read back.
pub le8 : (n : ℕ) → n < 2 ^ 64 → from_le_bytes (to_le_bytes 8 n) ≡ n
unfolding from_le_bytes to_le_bytes
le8 n h = omega (arith, h)

pub le4 : (n : ℕ) → n < 2 ^ 32 → from_le_bytes (to_le_bytes 4 n) ≡ n
unfolding from_le_bytes to_le_bytes
le4 n h = omega (arith, h)

pub decode_location-encode :
    (location : ChunkLocation)
    → location.offset < 2 ^ 64
    → location.length < 2 ^ 32
    → decode_location (encode_location location) ≡ location
unfolding decode_location to_le_bytes
decode_location-encode location o n =
    ap (λ (k : ℕ). record { offset = k; length = from_le_bytes (to_le_bytes 4 location.length) })
      (le8 location.offset o)
    ∙ ap (λ (k : ℕ). record { offset = location.offset; length = k }) (le4 location.length n)

pub length-encode_index :
    (locations : List ChunkLocation)
    → length (encode_index locations) ≡ index_entry_len * length locations
unfolding to_le_bytes
length-encode_index [] = refl
length-encode_index (location ∷ locations) =
    let rest = length-encode_index locations in omega (arith, rest)

-- A bevy whose bytes are `xs`, one after the other, and whose index says where.
abbrev pub Contains : {H : Type 0} → List (List ℕ) → BevyBuilder H → Type 0
Contains xs b =
    (b.body ≡ flatten xs) × (b.index ≡ encode_index (layout 0 xs)) × (b.chunk_count ≡ length xs)

length-flatten_one : (xs : List (List ℕ)) (x : List ℕ) → flatten (xs ++ (x ∷ [])) ≡ flatten xs ++ x
length-flatten_one xs x = flatten-append xs (x ∷ []) ∙ ap (λ t. flatten xs ++ t) (append-nil x)

encode_index-layout :
    (offset : ℕ) (xs : List (List ℕ)) (x : List ℕ) (at : ℕ)
    → at ≡ offset + length (flatten xs)
    → encode_index (layout offset (xs ++ (x ∷ [])))
      ≡ encode_index (layout offset xs) ++ (to_le_bytes 8 at ++ to_le_bytes 4 (length x))
encode_index-layout offset [] x at h =
    let e : offset ≡ at = omega arith in
    append-nil (to_le_bytes 8 offset ++ to_le_bytes 4 (length x))
    ∙ ap (λ k. to_le_bytes 8 k ++ to_le_bytes 4 (length x)) e
encode_index-layout offset (y ∷ xs) x at h =
    let sum = length-append y (flatten xs) in
    ap (λ t. encode_location (record { offset = offset; length = length y }) ++ t)
      (encode_index-layout (offset + length y) xs x at (omega (arith, h, sum)))
    ∙ sym (append_assoc (encode_location (record { offset = offset; length = length y })) _ _)

module _ (d : Decoders) (e : Encoders) (chunk_size : ℕ) (law : Inverts d e chunk_size)
    (room : stored_margin ≤ chunk_size) (plausible : chunk_size ≤ max_chunk_size) (codec : Codec)
    (writable : IsWritable codec) where
  abbrev pub Holds : (bytes full : List ℕ) → Type 0
  Holds bytes full =
      (0 < length bytes)
      × (length bytes ≤ chunk_size)
      × (decompress_chunk d codec bytes chunk_size ≡ ok full)

  -- What is stored, against the chunks pushed.
  abbrev pub Pairs : List (List ℕ) → List (List ℕ) → Type 0
  Pairs [] [] = Unit
  Pairs [] (c ∷ cs) = ⊥
  Pairs (x ∷ xs) [] = ⊥
  Pairs (x ∷ xs) (c ∷ cs) = Holds x (padded chunk_size c) × Pairs xs cs

  pub length-Pairs : (xs cs : List (List ℕ)) → Pairs xs cs → length xs ≡ length cs
  length-Pairs [] [] h = refl
  length-Pairs [] (c ∷ cs) h = elim h [ ]
  length-Pairs (x ∷ xs) [] h = elim h [ ]
  length-Pairs (x ∷ xs) (c ∷ cs) h = ap suc (length-Pairs xs cs h.1)

  pub length-flatten_le :
      (xs cs : List (List ℕ)) → Pairs xs cs → length (flatten xs) ≤ length xs * chunk_size
  length-flatten_le [] [] h = omega arith
  length-flatten_le [] (c ∷ cs) h = elim h [ ]
  length-flatten_le (x ∷ xs) [] h = elim h [ ]
  length-flatten_le (x ∷ xs) (c ∷ cs) h =
      let rest = length-flatten_le xs cs h.1 in
      let sum = length-append x (flatten xs) in let short = h.0.1 in omega (arith, rest, sum, short)

  module _ {H : Type 0} (block_hash_suffix : H → Option Text)
      (digest_bytes_of : H → List ℕ → Option (List ℕ)) where
    abbrev push : List ℕ → Exec BevyError (BevyBuilder H) (Unit {0})
    push chunk = push_chunk e block_hash_suffix digest_bytes_of chunk

    -- A run of chunks, pushed one after the other.
    abbrev pub push_all : List (List ℕ) → Exec BevyError (BevyBuilder H) (Unit {0})
    push_all [] = pure tt
    push_all (c ∷ cs) = Exec.◌>>=◌ (push c) (λ _. push_all cs)

    abbrev pub Configured : BevyBuilder H → Type 0
    Configured b = (b.codec ≡ codec) × (b.chunk_size ≡ chunk_size)

    abbrev with_bytes : List ℕ → BlockDigests → BevyBuilder H → BevyBuilder H
    with_bytes x blocks b = record b {
      blocks = blocks;
      body = b.body ++ x;
      index = b.index ++ (to_le_bytes 8 (length b.body) ++ to_le_bytes 4 (length x));
      chunk_count = b.chunk_count + 1;
    }

    append_stored-ok :
        (x : List ℕ) (b : BevyBuilder H)
        → length x ≤ chunk_size
        → append_stored e block_hash_suffix digest_bytes_of x b ≡ (ok tt, with_bytes x b.blocks b)
    unfolding append_stored
    append_stored-ok x b short =
        let fits : leb (2 ^ 32) (length x) ≡ false = ground (arith, short, plausible) in
        rw fits refl

    with_bytes-Contains :
        (xs : List (List ℕ)) (x : List ℕ) (blocks : BlockDigests) (b : BevyBuilder H)
        → Contains xs b
        → Contains (xs ++ (x ∷ [])) (with_bytes x blocks b)
    with_bytes-Contains xs x blocks b (body, index, count) = (
      ap (λ t. t ++ x) body ∙ sym (length-flatten_one xs x),
      ap (λ t. t ++ (to_le_bytes 8 (length b.body) ++ to_le_bytes 4 (length x))) index
          ∙ sym (encode_index-layout 0 xs x (length b.body) (ap length body ∙ omega arith)),
      (let sum = length-append xs (x ∷ []) in omega (arith, sum, count)),
    )

    abbrev blocks_after : List ℕ → BevyBuilder H → BlockDigests
    blocks_after chunk b =
        digested e block_hash_suffix digest_bytes_of b.block_algorithm chunk b.blocks

    push_step :
        (chunk : List ℕ) (b : BevyBuilder H) (z : List ℕ)
        → ltb b.chunk_size (length chunk) ≡ false
        → compress_chunk e b.codec (padded b.chunk_size chunk) ≡ ok z
        → push chunk b
          ≡ append_stored e block_hash_suffix digest_bytes_of
              (stored_bytes b.chunk_size (padded b.chunk_size chunk) z)
              (record b { blocks = blocks_after chunk b })
    unfolding push_chunk push_compressed
    push_step chunk b z fits made = rw (fits, made) refl

    push_chunk-Contains :
        (chunk : List ℕ) (b : BevyBuilder H) (xs : List (List ℕ))
        → Configured b
        → Contains xs b
        → length chunk ≤ chunk_size
        → (x : List ℕ) × (b' : BevyBuilder H) × (push chunk b ≡ (ok tt, b'))
          × Contains (xs ++ (x ∷ [])) b'
          × Configured b'
          × Holds x (padded chunk_size chunk)
    push_chunk-Contains chunk b xs (same_codec, same_size) contains short =
        let full = padded chunk_size chunk in
        let n : length full ≡ chunk_size = length-padded chunk_size chunk short in
        let (z, made) = compressed d e chunk_size law room plausible codec writable full n in
        let stores =
          stored_bytes-Stores d e chunk_size law room plausible codec writable full z n made in
        let fits : ltb b.chunk_size (length chunk) ≡ false = ground (arith, short, same_size) in
        let made' : compress_chunk e b.codec (padded b.chunk_size chunk) ≡ ok z =
          ap (λ k. compress_chunk e k (padded b.chunk_size chunk)) same_codec
          ∙ ap (λ k. compress_chunk e codec (padded k chunk)) same_size
          ∙ made in
        let x = stored_bytes chunk_size full z in
        (
          x,
          with_bytes x (blocks_after chunk b) b,
          push_step chunk b z fits made'
              ∙ ap
                  (λ k.
                    append_stored e block_hash_suffix digest_bytes_of
                      (stored_bytes k (padded k chunk) z)
                      (record b { blocks = blocks_after chunk b }))
                  same_size
              ∙ append_stored-ok x (record b { blocks = blocks_after chunk b }) stores.1,
          with_bytes-Contains xs x (blocks_after chunk b) b contains,
          (same_codec, same_size),
          stores,
        )

    pub push_all-Contains :
        (cs : List (List ℕ)) (b : BevyBuilder H) (xs : List (List ℕ))
        → Configured b
        → Contains xs b
        → All (λ (c : List ℕ). length c ≤ chunk_size) cs
        → (ys : List (List ℕ)) × (b' : BevyBuilder H) × (push_all cs b ≡ (ok tt, b'))
          × Contains (xs ++ ys) b'
          × Pairs ys cs
    push_all-Contains [] b xs same contains all =
        ([], b, refl, subst (λ zs. Contains zs b) (sym (append-nil xs)) contains, tt)
    push_all-Contains (c ∷ cs) b xs same contains all =
        let (x, b1, pushed, contains1, same1, holds) =
          push_chunk-Contains c b xs same contains all.0 in
        let (ys, b2, ran, contains2, pairs) =
          push_all-Contains cs b1 (xs ++ (x ∷ [])) same1 contains1 all.1 in
        (
          x ∷ ys,
          b2,
          ap (λ r. continue r.0 (λ (_ : Unit {0}). push_all cs) r.1) pushed ∙ ran,
          subst (λ zs. Contains zs b2) (append_assoc xs (x ∷ []) ys) contains2,
          (holds, pairs),
        )
