-- ===== src/Write/Bevy.antt =====
-- aff4tools: src/write/bevy.rs, chunks compressed into a bevy and its index.
pub mod Built
pub mod Pushed
pub mod RoundTrip
mod Tests
use aff4tools.Prelude.{
  ℕ, zero, suc, ◌+◌, ◌-◌, ◌/◌, ◌%◌, ◌^◌, Bool, true, false, Option, none, some, List, [], ◌∷◌, ◌++◌,
  ltb, leb, ◌==◌, if◌then◌else◌, length, replicate,
}
use aff4tools.Prelude.Results.{Result, ok, err, ◌>>=◌}
use aff4tools.Prelude.Exec.{Exec}
use aff4tools.Text.{Text}
use aff4tools.Codec.{Codec, stored, snappy, snappy_rekall, zlib, deflate, lz4}
use aff4tools.Stream.{index_suffix, eight_digits}

-- `STORED_MARGIN`
abbrev pub stored_margin : ℕ
stored_margin = 16

-- The refusals of `push_chunk` and `compress_chunk`.
pub data BevyError : Type 0 where
  chunk_too_long : (n : ℕ) → BevyError
  declined : Codec → BevyError
  zlib_failed : BevyError
  index_overflow : (n : ℕ) → BevyError

-- The crates that compress: `snap::raw`, `flate2` and `lz4_flex::block`.
pub record Encoders : Type 0 where
  pub snap : List ℕ → Option (List ℕ)
  pub deflate_zlib : List ℕ → Option (List ℕ)
  pub lz4_block : List ℕ → List ℕ

-- `compress_chunk`
unfoldable pub compress_chunk : Encoders → Codec → List ℕ → Result BevyError (List ℕ)
compress_chunk encoders stored chunk = ok chunk
compress_chunk encoders snappy chunk = elim (encoders.snap chunk) [
  | none ↦ ok chunk
  | some z ↦ ok z
]
compress_chunk encoders snappy_rekall chunk = err (declined snappy_rekall)
compress_chunk encoders zlib chunk = elim (encoders.deflate_zlib chunk) [
  | none ↦ err zlib_failed
  | some z ↦ ok z
]
compress_chunk encoders deflate chunk = err (declined deflate)
compress_chunk encoders lz4 chunk = ok (encoders.lz4_block chunk)

-- `BlockDigests`
pub record BlockDigests : Type 0 where
  pub suffix : Text
  pub digests : List ℕ

-- `BevyBuilder`, over the hash algorithms `H`.
pub record BevyBuilder (H : Type 0) : Type 0 where
  pub codec : Codec
  pub chunk_size : ℕ
  pub chunks_per_segment : ℕ
  pub body : List ℕ
  pub index : List ℕ
  pub chunk_count : ℕ
  pub block_algorithm : Option H
  pub blocks : BlockDigests

-- `FinishedBevy`
pub record FinishedBevy : Type 0 where
  pub body : List ℕ
  pub index : List ℕ
  pub chunk_count : ℕ
  pub blocks : BlockDigests

-- `n.to_le_bytes()` in a number of bytes.
unfoldable pub to_le_bytes : ℕ → ℕ → List ℕ
to_le_bytes zero n = []
to_le_bytes (suc k) n = n % 256 ∷ to_le_bytes k (n / 256)

-- `usize - usize` as a release build computes it.
abbrev pub wrapping_sub : ℕ → ℕ → ℕ
wrapping_sub a b = (a + (2 ^ 64 - b)) % 2 ^ 64

-- A chunk, padded with NUL.
unfoldable pub padded : ℕ → List ℕ → List ℕ
padded chunk_size chunk =
    if length chunk == chunk_size then chunk else chunk ++ replicate (chunk_size - length chunk) 0

-- The stored-chunk rule.
unfoldable pub stored_bytes : ℕ → (full compressed : List ℕ) → List ℕ
stored_bytes chunk_size full compressed =
    if ltb (length compressed) (wrapping_sub chunk_size stored_margin) then compressed else full

-- The suffix of an algorithm and the digest of a chunk are of src/model.rs and src/hash.rs.
module _ {H : Type 0} (encoders : Encoders) (block_hash_suffix : H → Option Text)
    (digest_bytes_of : H → List ℕ → Option (List ℕ)) where
  -- `BevyBuilder::with_block_algorithm`, on an algorithm that has a suffix.
  unfoldable pub builder_of :
      Codec → (chunk_size chunks_per_segment : ℕ) → Option H → Text → BevyBuilder H
  builder_of codec chunk_size chunks_per_segment block_algorithm suffix = record {
    codec = codec;
    chunk_size = chunk_size;
    chunks_per_segment = chunks_per_segment;
    body = [];
    index = [];
    chunk_count = 0;
    block_algorithm = block_algorithm;
    blocks = record { suffix = suffix; digests = [] };
  }

  unfoldable pub with_block_algorithm :
      Codec → (chunk_size chunks_per_segment : ℕ) → Option H → BevyBuilder H
  unfolding builder_of
  with_block_algorithm codec chunk_size chunks_per_segment none =
      builder_of codec chunk_size chunks_per_segment none []
  with_block_algorithm codec chunk_size chunks_per_segment (some h) = elim (block_hash_suffix h) [
    | none ↦ builder_of codec chunk_size chunks_per_segment none []
    | some suffix ↦ builder_of codec chunk_size chunks_per_segment (some h) suffix
  ]

  -- The digests behind a chunk.
  unfoldable pub digested : Option H → List ℕ → BlockDigests → BlockDigests
  digested none chunk blocks = blocks
  digested (some h) chunk blocks = elim (digest_bytes_of h chunk) [
    | none ↦ blocks
    | some digest ↦ record blocks { digests = blocks.digests ++ digest }
  ]

  -- The end of `push_chunk`, on the bytes that are stored.
  unfoldable pub append_stored : List ℕ → Exec BevyError (BevyBuilder H) (Unit {0})
  unfolding to_le_bytes
  append_stored bytes b =
      if leb (2 ^ 32) (length bytes) then (err (index_overflow (length bytes)), b) else (
        ok tt,
        record b {
          body = b.body ++ bytes;
          index = b.index ++ (to_le_bytes 8 (length b.body) ++ to_le_bytes 4 (length bytes));
          chunk_count = b.chunk_count + 1;
        },
      )

  -- `push_chunk` from the result of the compression on.
  unfoldable pub push_compressed :
      List ℕ → Result BevyError (List ℕ) → Exec BevyError (BevyBuilder H) (Unit {0})
  unfolding stored_bytes append_stored
  push_compressed full (err e) b = (err e, b)
  push_compressed full (ok compressed) b =
      append_stored (stored_bytes b.chunk_size full compressed) b

  -- `BevyBuilder::push_chunk`
  unfoldable pub push_chunk : List ℕ → Exec BevyError (BevyBuilder H) (Unit {0})
  unfolding padded digested compress_chunk push_compressed
  push_chunk chunk b =
      if ltb b.chunk_size (length chunk)
      then (err (chunk_too_long (length chunk)), b)
      else (let full = padded b.chunk_size chunk in
          push_compressed full (compress_chunk encoders b.codec full)
            (record b { blocks = digested b.block_algorithm chunk b.blocks }))

  -- `BevyBuilder::is_full`
  unfoldable pub is_full : BevyBuilder H → Bool
  is_full b = leb b.chunks_per_segment b.chunk_count

  -- `BevyBuilder::is_empty`
  unfoldable pub is_empty : BevyBuilder H → Bool
  is_empty b = b.chunk_count == 0

  -- `BevyBuilder::finish`, with the builder that it leaves.
  unfoldable pub finish : BevyBuilder H → FinishedBevy × BevyBuilder H
  finish b = (
    record { body = b.body; index = b.index; chunk_count = b.chunk_count; blocks = b.blocks },
    record b {
      body = [];
      index = [];
      chunk_count = 0;
      blocks = record { suffix = b.blocks.suffix; digests = [] };
    },
  )

-- `bevy_name` and `bevy_index_name`
unfoldable pub bevy_name : Text → ℕ → Text
unfolding eight_digits
bevy_name base number = base ++ (b'/' ∷ eight_digits number)

unfoldable pub bevy_index_name : Text → ℕ → Text
unfolding eight_digits
bevy_index_name base number = base ++ (b'/' ∷ (eight_digits number ++ index_suffix))
