-- ===== src/Image/Tests.antt =====
-- Runs of an image over a set of one volume, and instances of what is proved of readers and images.
use aff4tools.Prelude.{
  inr, ℕ, ◌+◌, ◌-◌, ◌≡◌, refl, none, List, [], ◌∷◌, ◌++◌, arith, min, drop, flatten, slice_of,
}
use aff4tools.Prelude.Results.{ok, err}
use aff4tools.Prelude.Exec.{Sink, feed}
use aff4tools.Arn.{is_byte_range, is_within, stored_path}
use aff4tools.Arn.Member.{literal, member_name}
use aff4tools.Stream.{StreamError}
use aff4tools.Stream.Reader.{
  load_bevy, chunk_bytes, read_region, empty_reader, restore, into_residency,
}
use aff4tools.Stream.Reader.Reference.{Agrees, chunk_of}
use aff4tools.Stream.Reader.Chunks.{
  IsSound, empty_reader-IsSound, chunk_bytes-IsSound, restore-IsSound,
}
use aff4tools.Stream.Reader.Region.{FeedsRegion, read_region-Feeds, read_region_refused}
use aff4tools.Stream.Reader.Budget.{IsWithinBudget, load_bevy-IsWithinBudget}
use aff4tools.Stream.Reader.Invariant.{read_region-IsSound}
use aff4tools.Map.{MapError, target_of}
use aff4tools.Map.ReadAt.{reported, copy_piece}
use aff4tools.Map.Emit.{emit_repeated}
use aff4tools.Map.Source.{image_byte}
use aff4tools.Map.ReadAll.{total}
use aff4tools.Map.ReadAll.Image.{image, composition, answer_of}
use aff4tools.Map.Lookup.{entry_at}
use aff4tools.VolumeSet.{single}
use aff4tools.Image.{read_at_in_set_cached, read_at_in_set, read_from_set}
use aff4tools.Image.Reading.{IsValid}
use aff4tools.Image.Serving.{read_at_in_set_cached_total, read_from_set_delivers}
use aff4tools.Image.Small.{
  no_decoders, small_stream, small_volume, small_set, small_image, segments, segments_of, content,
  content_of, size_of, wrap, small-Holds, small_reads, small_image-IsServed,
}

-- Collects what it is fed.
abbrev collect : Sink MapError (List ℕ)
collect piece got = (ok tt, got ++ piece)

-- Two bytes of the stream from offset 1 on, then a described byte.
abbrev three : List ℕ
three = 1 ∷ 1 ∷ 1 ∷ []

read_image :
    let r = read_at_in_set no_decoders wrap small_image 0 small_set tt three in
    (r.0 ≡ ok 3) × (r.1.1 ≡ 66 ∷ 67 ∷ 0 ∷ [])
unfolding read_at_in_set member_name is_byte_range is_within stored_path single entry_at target_of
    reported copy_piece emit_repeated
read_image = (refl, refl)

chunk_bytes-IsSound_example :
    let r = chunk_bytes no_decoders small_stream small_volume literal 1 (tt, empty_reader) in
    IsSound no_decoders small_stream small_volume literal segments r.1.1
    × Agrees ⊥ (chunk_of no_decoders small_stream small_volume literal segments 1) r.0
chunk_bytes-IsSound_example =
    chunk_bytes-IsSound no_decoders small_stream small_volume literal segments ⊥ small-Holds 1
      (tt, empty_reader)
      (empty_reader-IsSound no_decoders small_stream small_volume literal segments)

read_region-Feeds_example :
    FeedsRegion no_decoders small_stream small_volume literal segments small-Holds content
      small_reads
      (omega arith)
      wrap
      collect
      1
      (1 + 2)
      []
      (read_region no_decoders small_stream small_volume literal wrap collect 1 2
        ((tt, empty_reader), []))
read_region-Feeds_example =
    read_region-Feeds no_decoders small_stream small_volume literal segments small-Holds content
      small_reads (omega arith) wrap collect 1 2 (omega arith) (omega arith) (tt, empty_reader) []
      (empty_reader-IsSound no_decoders small_stream small_volume literal segments)

read_region_refused_example :
    (e : StreamError) × (read_region no_decoders small_stream small_volume literal wrap collect 3 2
        ((tt, empty_reader), [])
      ≡ (err (wrap e), ((tt, empty_reader), [])))
read_region_refused_example =
    read_region_refused no_decoders small_stream small_volume literal wrap collect 3 2
      (tt, empty_reader) [] (omega arith)

read_region-IsSound_example :
    IsSound no_decoders small_stream small_volume literal segments
      (read_region no_decoders small_stream small_volume literal wrap collect 1 2
        ((tt, empty_reader), [])).1.0.1
read_region-IsSound_example =
    read_region-IsSound no_decoders small_stream small_volume literal segments ⊥ small-Holds wrap
      collect 1 2 (tt, empty_reader) []
      (empty_reader-IsSound no_decoders small_stream small_volume literal segments)

restore-IsSound_example :
    IsSound no_decoders small_stream small_volume literal segments
      (restore small_stream (into_residency small_stream empty_reader) empty_reader)
restore-IsSound_example =
    restore-IsSound no_decoders small_volume literal segments small_stream small_stream empty_reader
      empty_reader (λ same. refl)
      (empty_reader-IsSound no_decoders small_stream small_volume literal segments)
      (empty_reader-IsSound no_decoders small_stream small_volume literal segments)

read_at_in_set_cached_total_example :
    let r = read_at_in_set_cached no_decoders wrap small_image 0 small_set tt none three in
    (r.0 ≡ ok (min 3 (small_image.map.size - 0)))
    × (r.1.1
        ≡ slice_of (image_byte content_of small_image.map) 0 (min 3 (small_image.map.size - 0))
          ++ drop (min 3 (small_image.map.size - 0)) three)
    × IsValid no_decoders wrap small_image.streams small_set.members small_image.mapping segments_of
        content_of size_of r.1.0.0
read_at_in_set_cached_total_example =
    read_at_in_set_cached_total no_decoders wrap segments_of content_of size_of small_image
      small_set 0 tt none three small_image-IsServed tt (omega arith)

read_from_set_delivers_example :
    let r = read_from_set no_decoders wrap small_image collect ((small_set, tt), []) in
    (ps : List (List ℕ)) × (flatten ps ≡ image content_of small_image.map)
    × (r.0 ≡ answer_of (composition small_image.map) (feed collect ps []).0)
    × (r.1.1 ≡ (feed collect ps []).1)
    × (total (composition small_image.map) ≡ small_image.map.size)
read_from_set_delivers_example =
    read_from_set_delivers no_decoders wrap segments_of content_of size_of small_image small_set
      collect tt [] small_image-IsServed

load_bevy-IsWithinBudget_example :
    IsWithinBudget
      (load_bevy no_decoders small_stream small_volume literal 0 (tt, empty_reader)).1.1.resident
unfolding empty_reader
load_bevy-IsWithinBudget_example =
    load_bevy-IsWithinBudget no_decoders small_stream small_volume literal 0 (tt, empty_reader)
      (inr (omega arith))
