-- ===== src/Image.antt =====
-- aff4tools: src/image.rs, an image over a set of volumes: a map whose stored streams are served by
-- `ChunkReader`, in the volumes that hold them.
pub mod Reading
pub mod Serving
mod Small
mod Tests
use aff4tools.Prelude.{ℕ, Bool, true, false, Option, none, some, List, [], ◌∷◌, if◌then◌else◌}
use aff4tools.Prelude.Results.{Result, ok, err}
use aff4tools.Prelude.Exec.{Exec, Sink}
use aff4tools.Text.{Text, text_eq}
use aff4tools.Arn.{Arn}
use aff4tools.Arn.Member.{NameMapping}
use aff4tools.Codec.{Decoders}
use aff4tools.Stream.{ImageStream, StreamError, Volume}
use aff4tools.Stream.Reader.{
  ChunkReader, Residency, empty_reader, into_residency, restore, read_region,
}
use aff4tools.Map.{Map, MapError, UnknownRegions, fill, undescribed_stream, no_volume}
use aff4tools.Map.Source.{StreamSource}
use aff4tools.Map.ReadAt.{read_at_with, read_at}
use aff4tools.Map.ReadAll.{ReadAccounting, read_all}
use aff4tools.VolumeSet.{ZipVolumeSet, holding_mut}

-- `Image`
pub record Image : Type 0 where
  pub arn : Arn
  pub map : Map
  pub streams : List ImageStream
  pub mapping : NameMapping

-- `SetStreams`
pub record SetStreams (W : Type 0) : Type 0 where
  pub streams : List ImageStream
  pub volumes : ZipVolumeSet W
  pub resident : Option (Arn × Residency)
  pub mapping : NameMapping

-- `streams.iter().find(|s| s.arn().as_str() == stream.as_str())`
unfoldable pub find_stream : Arn → List ImageStream → Option ImageStream
unfolding text_eq
find_stream arn [] = none
find_stream arn (s ∷ ss) = if text_eq s.arn.lexical arn.lexical then some s else find_stream arn ss

-- The residency is carried forward only where it belongs to this stream.
unfoldable pub carried : Arn → Option (Arn × Residency) → Option Residency
unfolding text_eq
carried arn none = none
carried arn (some (owner, residency)) =
    if text_eq owner.lexical arn.lexical then some residency else none

-- A new reader, with what was carried.
unfoldable pub start_reader : ImageStream → Option Residency → ChunkReader
unfolding empty_reader restore
start_reader stream none = empty_reader
start_reader stream (some residency) = restore stream residency empty_reader

module _ {W : Type 0} where
  -- `SetStreams::new`
  unfoldable pub new_source : List ImageStream → ZipVolumeSet W → NameMapping → SetStreams W
  new_source streams volumes mapping = record {
    streams = streams;
    volumes = volumes;
    resident = none;
    mapping = mapping;
  }

-- An error of a stream is `wrap`ped: the source has one type of errors.
module _ {W : Type 0} (decoders : Decoders) (wrap : StreamError → MapError) where
  module _ {T : Type 0} (sink : Sink MapError T) where
    -- `read_region` behind the look-ups.
    unfoldable pub read_stream :
        Arn
        → ImageStream
        → Volume W
        → ZipVolumeSet W
        → (offset n : ℕ) → Exec MapError ((SetStreams W × W) × T) (Unit {0})
    unfolding carried start_reader read_region into_residency
    read_stream arn stream volume volumes offset n ((set, files), t) =
        let reader = start_reader stream (carried arn set.resident) in
        let r =
          read_region decoders stream volume set.mapping wrap sink offset n ((files, reader), t) in
        (
          r.0,
          (
            (
              record set {
                volumes = volumes;
                resident = some (arn, into_residency stream r.1.0.1);
              },
              r.1.0.0,
            ),
            r.1.1,
          ),
        )

    -- `SetStreams::read_region`
    unfoldable pub set_read_region :
        Arn → (offset n : ℕ) → Exec MapError ((SetStreams W × W) × T) (Unit {0})
    unfolding find_stream holding_mut read_stream
    set_read_region arn offset n ((set, files), t) = elim (find_stream arn set.streams) [
      | none ↦ (err (undescribed_stream arn.lexical), ((set, files), t))
      | some stream ↦
          let held = holding_mut arn set.mapping set.volumes in
          elim held.0 [
            | none ↦ (
              err (no_volume arn.lexical),
              ((record set { volumes = held.1; resident = none }, files), t),
            )
            | some volume ↦ read_stream arn stream volume held.1 offset n ((set, files), t)
          ]
    ]

  -- `impl StreamSource for SetStreams`
  unfoldable pub set_source : StreamSource (SetStreams W × W)
  unfolding set_read_region
  set_source = record { read_region = λ T arn offset n sink. set_read_region sink arn offset n }

  -- `Image::read_at_in_set_cached_with`: the buffer, with the residency that the next call takes.
  unfoldable pub read_at_in_set_cached_with :
      Image
      → UnknownRegions
      → (offset : ℕ) → ZipVolumeSet W
      → W
      → Option (Arn × Residency)
      → List ℕ
      → Result MapError ℕ × ((SetStreams W × W) × List ℕ)
  unfolding new_source set_source read_at_with
  read_at_in_set_cached_with image mode offset volumes files resident buf =
      read_at_with set_source image.map mode offset
        (record (new_source image.streams volumes image.mapping) { resident = resident }, files) buf

  -- `Image::read_at_in_set_cached`
  unfoldable pub read_at_in_set_cached :
      Image
      → (offset : ℕ) → ZipVolumeSet W
      → W
      → Option (Arn × Residency)
      → List ℕ
      → Result MapError ℕ × ((SetStreams W × W) × List ℕ)
  unfolding read_at_in_set_cached_with
  read_at_in_set_cached image offset volumes files resident buf =
      read_at_in_set_cached_with image fill offset volumes files resident buf

  -- `Image::read_at_in_set`
  unfoldable pub read_at_in_set :
      Image
      → (offset : ℕ) → ZipVolumeSet W
      → W
      → List ℕ
      → Result MapError ℕ × ((SetStreams W × W) × List ℕ)
  unfolding new_source set_source read_at
  read_at_in_set image offset volumes files buf =
      read_at set_source image.map offset (new_source image.streams volumes image.mapping, files)
        buf

  -- `ImageReader::read_at`, over the source that the reader holds.
  unfoldable pub reader_read_at :
      Map
      → (offset : ℕ) → SetStreams W × W
      → List ℕ
      → Result MapError ℕ × ((SetStreams W × W) × List ℕ)
  unfolding set_source read_at
  reader_read_at m offset source buf = read_at set_source m offset source buf

  -- `Image::read_from_set`
  unfoldable pub read_from_set :
      {T : Type 0}
      → Image
      → Sink MapError T
      → Exec MapError ((ZipVolumeSet W × W) × T) ReadAccounting
  unfolding new_source set_source read_all
  read_from_set image sink ((volumes, files), t) =
      let r =
        read_all set_source sink image.map
          ((new_source image.streams volumes image.mapping, files), t) in
      (r.0, ((r.1.0.0.volumes, r.1.0.1), r.1.1))
