-- ===== src/Codec.antt =====
-- aff4tools: src/codec.rs, the chunk codecs: their IRIs and the decompression of one chunk.
use aff4tools.Prelude.{
  ℕ, ◌*◌, ◌≤◌, ◌≡◌, refl, Bool, true, false, ◌&&◌, ◌||◌, not, Option, none, some, List, arith, ltb,
  ◌==◌, if◌then◌else◌, length, Bool-cases, inl, inr, ◌+◌,
}
use aff4tools.Prelude.Results.{Result, ok, err, ◌>>=◌, >>=-eq-ok, else-eq-ok, ok-injective}
use aff4tools.Text.{Text, codes, text_eq}

pub data Codec : Type 0 where
  stored snappy snappy_rekall zlib deflate lz4 : Codec

abbrev stored_iri : Text
stored_iri = codes "http://aff4.org/Schema#compression/stored"

abbrev null_compressor_iri : Text
null_compressor_iri = codes "http://aff4.org/Schema#NullCompressor"

abbrev snappy_iri : Text
snappy_iri = codes "http://code.google.com/p/snappy/"

abbrev snappy_rekall_iri : Text
snappy_rekall_iri = codes "https://github.com/google/snappy"

abbrev zlib_iri : Text
zlib_iri = codes "https://www.ietf.org/rfc/rfc1950.txt"

abbrev deflate_iri : Text
deflate_iri = codes "https://tools.ietf.org/html/rfc1951"

abbrev lz4_iri : Text
lz4_iri = codes "https://code.google.com/p/lz4/"

-- `MAX_CHUNK_SIZE`
abbrev pub max_chunk_size : ℕ
max_chunk_size = 64 * 1024 * 1024

-- `Codec::from_iri`
unfoldable pub from_iri : Text → Option Codec
unfolding text_eq
from_iri text =
    if text_eq text stored_iri || text_eq text null_compressor_iri
    then some stored
    else if text_eq text snappy_iri
    then some snappy
    else if text_eq text snappy_rekall_iri
    then some snappy_rekall
    else if text_eq text zlib_iri
    then some zlib
    else if text_eq text deflate_iri
    then some deflate
    else if text_eq text lz4_iri
    then some lz4
    else none

-- `Codec::iri`
unfoldable pub iri : Codec → Text
iri stored = stored_iri
iri snappy = snappy_iri
iri snappy_rekall = snappy_rekall_iri
iri zlib = zlib_iri
iri deflate = deflate_iri
iri lz4 = lz4_iri

-- `Codec::honours_stored_chunks`
unfoldable pub honours_stored_chunks : Codec → Bool
honours_stored_chunks snappy_rekall = false
honours_stored_chunks _ = true

-- `Codec::is_implemented`
unfoldable pub is_implemented : Codec → Bool
is_implemented snappy_rekall = false
is_implemented deflate = false
is_implemented _ = true

-- The refusals of `decompress_chunk` and its three decoders.
pub data ChunkError : Type 0 where
  implausible_chunk_size : ℕ → ChunkError
  unsupported : Codec → ChunkError
  oversized : Codec → ℕ → ChunkError
  snappy_header snappy_empty snappy_corrupt : ChunkError
  snappy_too_long : ℕ → ChunkError
  zlib_corrupt zlib_too_long zlib_truncated zlib_empty : ChunkError
  lz4_corrupt lz4_empty : ChunkError

-- The crates that decompress: `snap::raw`, `flate2` (the bytes it wrote into a buffer of a
-- capacity, and whether the stream ended with its trailer) and `lz4_flex::block`.
pub record Decoders : Type 0 where
  pub snap_len : List ℕ → Option ℕ
  pub snap : List ℕ → Option (List ℕ)
  pub inflate : List ℕ → ℕ → Option (List ℕ × Bool)
  pub lz4_block : List ℕ → ℕ → Option (List ℕ)

module _ (d : Decoders) where
  -- `decompress_snappy`
  unfoldable pub decompress_snappy : List ℕ → ℕ → Result ChunkError (List ℕ)
  decompress_snappy input chunk_size = elim (d.snap_len input) [
    | none ↦ err snappy_header
    | some declared ↦
        if ltb chunk_size declared
        then err (snappy_too_long declared)
        else if declared == 0
        then err snappy_empty
        else (elim (d.snap input) [ none ↦ err snappy_corrupt | some out ↦ ok out ])
  ]

  -- `decompress_zlib`; the buffer has a byte more than a chunk.
  unfoldable pub decompress_zlib : List ℕ → ℕ → Result ChunkError (List ℕ)
  decompress_zlib input chunk_size = elim (d.inflate input (chunk_size + 1)) [
    | none ↦ err zlib_corrupt
    | some (out, ended) ↦
        if ltb chunk_size (length out)
        then err zlib_too_long
        else if not ended
        then err zlib_truncated
        else if length out == 0
        then err zlib_empty
        else ok out
  ]

  -- `decompress_lz4`
  unfoldable pub decompress_lz4 : List ℕ → ℕ → Result ChunkError (List ℕ)
  decompress_lz4 input chunk_size = elim (d.lz4_block input chunk_size) [
    | none ↦ err lz4_corrupt
    | some out ↦ if length out == 0 then err lz4_empty else ok out
  ]

  -- The `match` of `decompress_chunk`.
  unfoldable pub decode : Codec → List ℕ → ℕ → Result ChunkError (List ℕ)
  unfolding decompress_snappy decompress_zlib decompress_lz4
  decode stored input chunk_size = ok input
  decode snappy input chunk_size = decompress_snappy input chunk_size
  decode snappy_rekall input chunk_size = decompress_snappy input chunk_size
  decode zlib input chunk_size = decompress_zlib input chunk_size
  decode lz4 input chunk_size = decompress_lz4 input chunk_size
  decode deflate input chunk_size = err (unsupported deflate)

  -- `decompress_chunk`
  unfoldable pub decompress_chunk : Codec → List ℕ → ℕ → Result ChunkError (List ℕ)
  unfolding decode honours_stored_chunks is_implemented
  decompress_chunk codec input chunk_size =
      if ltb max_chunk_size chunk_size
      then err (implausible_chunk_size chunk_size)
      else if honours_stored_chunks codec && length input == chunk_size
      then ok input
      else if not (is_implemented codec)
      then err (unsupported codec)
      else (decode codec input chunk_size >>= λ out.
          if ltb chunk_size (length out) then err (oversized codec (length out)) else ok out)

-- Every codec is named by its own IRI.
pub from_iri-iri : (codec : Codec) → from_iri (iri codec) ≡ some codec
unfolding from_iri iri
from_iri-iri stored = refl
from_iri-iri snappy = refl
from_iri-iri snappy_rekall = refl
from_iri-iri zlib = refl
from_iri-iri deflate = refl
from_iri-iri lz4 = refl

-- Whatever the decoders return, a chunk that `decompress_chunk` delivers has no more bytes than
-- the chunk size, and the chunk size is at most `MAX_CHUNK_SIZE`.
pub decompress_chunk_bounds :
    (d : Decoders) (codec : Codec) (input : List ℕ) (chunk_size : ℕ) (out : List ℕ)
    → decompress_chunk d codec input chunk_size ≡ ok out
    → (length out ≤ chunk_size) × (chunk_size ≤ max_chunk_size)
unfolding decompress_chunk
decompress_chunk_bounds d codec input chunk_size out h =
    let (plausible, h1) = else-eq-ok (ltb max_chunk_size chunk_size) _ _ h in
    (
      elim (Bool-cases (honours_stored_chunks codec && length input == chunk_size)) [
        | inl verbatim ↦
            let same : input ≡ out = ok-injective (rw verbatim at h1) in
            ground (arith, same, verbatim)
        | inr coded ↦
            let (known, h2) = else-eq-ok (not (is_implemented codec)) _ _ (rw coded at h1) in
            let (plain, decoded, h3) = >>=-eq-ok (decode d codec input chunk_size) _ h2 in
            let (short, h4) = else-eq-ok (ltb chunk_size (length plain)) _ _ h3 in
            let same : plain ≡ out = ok-injective h4 in ground (arith, same)
      ],
      ground arith,
    )
