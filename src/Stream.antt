-- ===== src/Stream.antt =====
-- aff4tools: src/stream.rs, a stream of chunks in bevies: the bevy index, one chunk of a bevy, and
-- the pass over a whole stream.
pub mod Exact
pub mod Pass
pub mod Reader
mod Tests
use aff4tools.Prelude.{
  ℕ, zero, suc, ◌+◌, ◌-◌, ◌*◌, ◌/◌, ◌%◌, ◌^◌, max, Bool, true, false, Option, none, some, List, [],
  ◌∷◌, ◌++◌, ltb, leb, ◌==◌, ◌||◌, if◌then◌else◌, length, map, take, drop, replicate, sat_add,
  checked_add,
}
use aff4tools.Prelude.Results.{Result, ok, err, ok_or, ◌>>=◌}
use aff4tools.Prelude.Exec.{Exec, Sink, pure, raise, lift, on_second}
use aff4tools.Prelude.Exec
use aff4tools.Text.{Text, codes}
use aff4tools.Arn.{Arn}
use aff4tools.Arn.Member.{NameMapping, member_name}
use aff4tools.Codec.{Codec, ChunkError, Decoders, decompress_chunk}
use aff4tools.Map.Decode.{from_le_bytes, chunks}

-- `INDEX_ENTRY_LEN`
abbrev pub index_entry_len : ℕ
index_entry_len = 12

-- `INDEX_SUFFIX`
abbrev pub index_suffix : Text
index_suffix = codes ".index"

pub record ChunkLocation : Type 0 where
  pub offset : ℕ
  pub length : ℕ

pub record ImageStream : Type 0 where
  pub arn : Arn
  pub size : ℕ
  pub chunk_size : ℕ
  pub chunks_in_segment : ℕ
  pub codec : Codec

-- The refusals of this file, and what the volume answers with.
pub data StreamError : Type 0 where
  empty_index : StreamError
  ragged_index : ℕ → StreamError
  long_index : ℕ → ℕ → StreamError
  chunk_overflow : ℕ → StreamError
  chunk_outside : ℕ → ℕ → StreamError
  chunk_empty : ℕ → StreamError
  chunk : ChunkError → StreamError
  short_chunk : (number plain_len : ℕ) → StreamError
  no_member : StreamError
  short_stream : (delivered : ℕ) → StreamError
  region_overflow : (offset n : ℕ) → StreamError
  region_outside : (offset stop : ℕ) → StreamError
  chunk_short : (number plain_len : ℕ) → StreamError
  no_bevy : (bevy_index : ℕ) → StreamError
  no_chunk : (number listed : ℕ) → StreamError
  volume_error : Text → StreamError

-- `refuse_short_chunk`
unfoldable pub refuse_short_chunk :
    ImageStream → (plain_len delivered : ℕ) → Result StreamError (Unit {0})
unfolding sat_add
refuse_short_chunk stream plain_len delivered =
    if leb stream.chunk_size plain_len || leb stream.size (sat_add delivered plain_len)
    then ok tt
    else err (short_chunk (delivered / stream.chunk_size) plain_len)

-- `u64 * u64` as a release build computes it.
abbrev pub wrapping_mul : ℕ → ℕ → ℕ
wrapping_mul a b = (a * b) % 2 ^ 64

-- `ImageStream::bevy_count`; `a.div_ceil(b)` is `a / b`, and one more where a remainder is left.
unfoldable pub bevy_count : ImageStream → ℕ
bevy_count stream =
    let per_bevy = max (wrapping_mul stream.chunk_size stream.chunks_in_segment) 1 in
    if stream.size % per_bevy == 0 then stream.size / per_bevy else stream.size / per_bevy + 1

-- `{index:08}`: the decimal digits, with zeros in front up to eight. A u64 has at most 20 digits.
unfoldable pub decimal : ℕ → ℕ → Text → Text
decimal zero n acc = acc
decimal (suc fuel) n acc =
    if ltb n 10 then (48 + n) ∷ acc else decimal fuel (n / 10) ((48 + n % 10) ∷ acc)

unfoldable pub eight_digits : ℕ → Text
unfolding decimal
eight_digits n = let digits = decimal 20 n [] in replicate (8 - length digits) b'0' ++ digits

-- `ImageStream::bevy_name`
unfoldable pub bevy_name : ImageStream → Arn → NameMapping → ℕ → Option Text
unfolding eight_digits
bevy_name stream volume_arn mapping index = elim (member_name stream.arn volume_arn mapping) [
  | none ↦ none
  | some base ↦ some (base ++ (b'/' ∷ eight_digits index))
]

-- One entry of an index: `<QI>`.
unfoldable pub decode_location : List ℕ → ChunkLocation
unfolding from_le_bytes
decode_location entry = record {
  offset = from_le_bytes (take 8 entry);
  length = from_le_bytes (take 4 (drop 8 entry));
}

-- `parse_index`
unfoldable pub parse_index : List ℕ → Result StreamError (List ChunkLocation)
unfolding decode_location chunks
parse_index bytes =
    if length bytes == 0
    then err empty_index
    else if length bytes % index_entry_len == 0
    then ok (map decode_location (chunks index_entry_len (length bytes / index_entry_len) bytes))
    else err (ragged_index (length bytes))

-- `parse_index_bounded`
unfoldable pub parse_index_bounded : List ℕ → ℕ → Result StreamError (List ChunkLocation)
unfolding parse_index
parse_index_bounded bytes chunks_in_segment =
    if ltb chunks_in_segment (length bytes / index_entry_len)
    then err (long_index (length bytes / index_entry_len) chunks_in_segment)
    else parse_index bytes

-- `slice_chunk`; an offset always fits a usize of 64 bits.
unfoldable pub slice_chunk : List ℕ → ChunkLocation → ℕ → Result StreamError (List ℕ)
unfolding checked_add
slice_chunk bevy location chunk_index = elim (checked_add location.offset location.length) [
  | none ↦ err (chunk_overflow chunk_index)
  | some stop ↦
      if ltb (length bevy) stop
      then err (chunk_outside chunk_index stop)
      else if location.length == 0
      then err (chunk_empty chunk_index)
      else ok (take location.length (drop location.offset bevy))
]

-- The trait `Volume` of src/zip.rs, over the state `V` of its implementation.
pub record Volume (V : Type 0) : Type 0 where
  pub arn : Arn
  pub has_segment : V → Text → Bool
  pub read_segment : Text → Exec StreamError V (List ℕ)
  pub read_segment_range : Text → (offset n : ℕ) → Exec StreamError V (Option (List ℕ))

-- A chunk cut where the stream ends.
unfoldable pub truncated : ImageStream → ℕ → List ℕ → List ℕ
truncated stream delivered plain =
    if ltb (stream.size - delivered) (length plain)
    then take (stream.size - delivered) plain
    else plain

abbrev pub on_first : {R S A : Type 0} → Exec StreamError R A → Exec StreamError (R × S) A
on_first m s = let r = m s.0 in (r.0, (r.1, s.1))

abbrev pub chunk_result : {A : Type 0} → Result ChunkError A → Result StreamError A
chunk_result (ok a) = ok a
chunk_result (err e) = err (chunk e)

module _ (decoders : Decoders) (stream : ImageStream) where
  -- One chunk on its way to the sink: located, decompressed, checked and cut.
  unfoldable pub plain_chunk : List ℕ → ChunkLocation → ℕ → ℕ → Result StreamError (List ℕ)
  unfolding slice_chunk decompress_chunk refuse_short_chunk truncated
  plain_chunk bevy location chunk_index delivered = do
    input ← slice_chunk bevy location chunk_index
    plain ← chunk_result (decompress_chunk decoders stream.codec input stream.chunk_size)
    _ ← refuse_short_chunk stream (length plain) delivered
    ok (truncated stream delivered plain)

  -- The loop of `ImageStream::decode_bevy`, from the chunk `chunk_index` on.
  unfoldable pub decode_chunks :
      List ℕ → List ChunkLocation → ℕ → Result StreamError (List (List ℕ))
  unfolding slice_chunk decompress_chunk
  decode_chunks bevy [] chunk_index = ok []
  decode_chunks bevy (location ∷ locations) chunk_index = do
    input ← slice_chunk bevy location chunk_index
    plain ← chunk_result (decompress_chunk decoders stream.codec input stream.chunk_size)
    rest ← decode_chunks bevy locations (suc chunk_index)
    ok (plain ∷ rest)

  -- `ImageStream::decode_bevy`
  unfoldable pub decode_bevy : (bevy index : List ℕ) → Result StreamError (List (List ℕ))
  unfolding parse_index_bounded decode_chunks
  decode_bevy bevy index = do
    locations ← parse_index_bounded index stream.chunks_in_segment
    decode_chunks bevy locations 0

  module _ {T : Type 0} (sink : Sink StreamError T) where
    -- The inner loop of `read_all_observed`, over the chunks of a bevy. It answers with the bytes
    -- delivered so far.
    unfoldable pub deliver_chunks : List ℕ → List ChunkLocation → ℕ → ℕ → Exec StreamError T ℕ
    unfolding plain_chunk
    deliver_chunks bevy [] chunk_index delivered t = (ok delivered, t)
    deliver_chunks bevy (location ∷ locations) chunk_index delivered t =
        elim (ltb delivered stream.size) [
          | false ↦ (ok delivered, t)
          | true ↦
              Exec.◌>>=◌ (lift (plain_chunk bevy location chunk_index delivered))
                (λ plain.
                  Exec.◌>>=◌ (sink plain) (λ _.
                    deliver_chunks bevy locations (suc chunk_index) (delivered + length plain)))
                t
        ]

    module _ {V B : Type 0} (volume : Volume V) (mapping : NameMapping) (on_bevy : ℕ → B → B) where
      -- The body of the loop over the bevies, with what follows it.
      unfoldable pub read_bevy :
          ℕ → ℕ → (ℕ → Exec StreamError (V × (B × T)) ℕ) → Exec StreamError (V × (B × T)) ℕ
      unfolding bevy_name parse_index_bounded deliver_chunks
      read_bevy bevy_index delivered go_on = elim (bevy_name stream volume.arn mapping bevy_index) [
        | none ↦ raise no_member
        | some name ↦ Exec.◌>>=◌ (on_first (volume.read_segment (name ++ index_suffix))) (λ index.
            Exec.◌>>=◌ (on_first (volume.read_segment name)) (λ bevy.
              Exec.◌>>=◌ (lift (parse_index_bounded index stream.chunks_in_segment)) (λ locations.
                Exec.◌>>=◌ (on_second (on_second (deliver_chunks bevy locations 0 delivered)))
                  (λ delivered' s.
                    go_on delivered' (s.0, (on_bevy (bevy_index + 1) s.1.0, s.1.1))))))
      ]

      -- The loop over the bevies, `count` of which are left.
      unfoldable pub read_bevies : ℕ → ℕ → ℕ → Exec StreamError (V × (B × T)) ℕ
      unfolding read_bevy
      read_bevies zero bevy_index delivered s = (ok delivered, s)
      read_bevies (suc count) bevy_index delivered s = elim (ltb delivered stream.size) [
        | true ↦ read_bevy bevy_index delivered (read_bevies count (suc bevy_index)) s
        | false ↦ (ok delivered, s)
      ]

      -- `ImageStream::read_all_observed`
      unfoldable pub read_all_observed : Exec StreamError (V × (B × T)) (Unit {0})
      unfolding bevy_count read_bevies
      read_all_observed = Exec.◌>>=◌ (read_bevies (bevy_count stream) 0 0) (λ delivered.
          if delivered == stream.size then pure tt else raise (short_stream delivered))
