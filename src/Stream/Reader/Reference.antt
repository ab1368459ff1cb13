-- ===== src/Stream/Reader/Reference.antt =====
-- aff4tools: src/stream.rs, what a chunk of a stream is: a reading of the volume with no cache, and
-- the caches that agree with it.
use aff4tools.Prelude.{
  ℕ, ◌+◌, ◌/◌, ◌≤◌, ◌≡◌, ◌⊎◌, Option, none, some, List, ◌++◌, length, take, drop, All, u64_max,
}
use aff4tools.Prelude.Results.{Result, ok, err}
use aff4tools.Text.{Text}
use aff4tools.Arn.Member.{NameMapping}
use aff4tools.Codec.{Decoders}
use aff4tools.Stream.{
  ChunkLocation, ImageStream, StreamError, Volume, index_suffix, bevy_name, parse_index_bounded,
}
use aff4tools.Stream.Reader.{Bevy, ChunkReader, chunk_in_bevy}

abbrev pub to_option : {A : Type 0} → Result StreamError A → Option A
to_option (ok a) = some a
to_option (err e) = none

-- A result and a reference: they agree on a value, and the code fails only where the reference
-- does, or by a fault.
abbrev pub Agrees : {A : Type 0} → Type 0 → Option A → Result StreamError A → Type 0
Agrees Fault reference (ok a) = reference ≡ some a
Agrees Fault reference (err e) = (reference ≡ none) ⊎ Fault

-- What a range read may answer with: nothing, or the bytes of a range inside the segment.
abbrev pub RangeAgrees :
    Type 0 → Option (List ℕ) → (offset n : ℕ) → Result StreamError (Option (List ℕ)) → Type 0
RangeAgrees Fault reference offset n (ok none) = Unit
RangeAgrees Fault reference offset n (ok (some bytes)) =
    (whole : List ℕ) × (reference ≡ some whole)
    × (offset + n ≤ length whole)
    × (bytes ≡ take n (drop offset whole))
RangeAgrees Fault reference offset n (err e) = Fault

-- What `Volume` documents, over segments whose bytes are `stored`. `Fault` is what an I/O error
-- would be evidence of: with no such evidence the volume never fails on a segment that it has.
pub record Holds {V : Type 0} (volume : Volume V) (stored : Text → Option (List ℕ)) (Fault : Type 0)
    : Type 0 where
  pub whole : (name : Text) (v : V) → Agrees Fault (stored name) (volume.read_segment name v).0
  pub range :
      (name : Text) (offset n : ℕ) (v : V)
      → RangeAgrees Fault (stored name) offset n (volume.read_segment_range name offset n v).0
  pub small : (name : Text) (bytes : List ℕ) → stored name ≡ some bytes → length bytes ≤ u64_max

module _ (decoders : Decoders) (stream : ImageStream) {V : Type 0} (volume : Volume V)
    (mapping : NameMapping) (stored : Text → Option (List ℕ)) where
  abbrev pub name_of : ℕ → Option Text
  name_of bevy_index = bevy_name stream volume.arn mapping bevy_index

  abbrev pub listed_in : Option (List ℕ) → Option (List ChunkLocation)
  listed_in none = none
  listed_in (some raw) = to_option (parse_index_bounded raw stream.chunks_in_segment)

  abbrev pub listed_under : Option Text → Option (List ChunkLocation)
  listed_under none = none
  listed_under (some name) = listed_in (stored (name ++ index_suffix))

  abbrev pub bytes_under : Option Text → Option (List ℕ)
  bytes_under none = none
  bytes_under (some name) = stored name

  -- The index and the bytes of a bevy.
  unfoldable pub locations_of : ℕ → Option (List ChunkLocation)
  unfolding bevy_name
  locations_of bevy_index = listed_under (name_of bevy_index)

  unfoldable pub bytes_of : ℕ → Option (List ℕ)
  unfolding bevy_name
  bytes_of bevy_index = bytes_under (name_of bevy_index)

  abbrev pub chunk_from : ℕ → Option (List ChunkLocation) → Option (List ℕ) → Option (List ℕ)
  chunk_from n (some locations) (some bytes) =
      to_option (chunk_in_bevy decoders stream n locations bytes)
  chunk_from n (some locations) none = none
  chunk_from n none bytes = none

  -- The plaintext of chunk `n`, read with no cache and through the whole bevy.
  unfoldable pub chunk_of : ℕ → Option (List ℕ)
  unfolding locations_of bytes_of
  chunk_of n =
      chunk_from n (locations_of (n / stream.chunks_in_segment))
        (bytes_of (n / stream.chunks_in_segment))

  abbrev pub BevyAgrees : Bevy → Type 0
  BevyAgrees bevy =
      (locations_of bevy.index ≡ some bevy.locations) × (bytes_of bevy.index ≡ some bevy.bytes)

  abbrev pub IndexAgrees : ℕ × List ChunkLocation → Type 0
  IndexAgrees entry = locations_of entry.0 ≡ some entry.1

  abbrev pub ChunkAgrees : ℕ × List ℕ → Type 0
  ChunkAgrees entry = chunk_of entry.0 ≡ some entry.1

  -- Whatever the three caches hold is what the reference reads.
  pub record IsCoherent (reader : ChunkReader) : Type 0 where
    pub bevies : All BevyAgrees reader.resident
    pub indexes : All IndexAgrees reader.index
    pub chunks : All ChunkAgrees reader.chunk
