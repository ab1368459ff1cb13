-- ===== src/Lib.antt =====
-- Verification of aff4tools, a reader of AFF4 forensic images.
--
-- An AFF4 container is a ZIP volume whose members are named by ARNs (src/arn.rs). An image is a
-- map (src/map.rs): entries that send ranges of the image's address space to targets, which are
-- stored streams, repeated bytes or placeholders for unknown regions. A stored stream
-- (src/stream.rs) is a sequence of chunks, kept in bevies and compressed by a codec
-- (src/codec.rs). The volumes of a striped image form a set (src/zip_volume_set.rs), and an image
-- reads its streams from the volumes that hold them (src/image.rs). File names in metadata are
-- recorded by the rules of src/naming.rs.
--
-- Which file models what:
--   Prelude        numbers, tests, lists and slices, u64 arithmetic (Words), `Result` and `?`
--                  (Results), fallible code with a state and sinks (Exec)
--   Text           `&str` as its UTF-8 bytes and the string functions that the source calls;
--                  Text.Utf8 is `String::from_utf8_lossy` and `str::from_utf8`
--   Arn            src/arn.rs: `Arn::parse` and the accessors; Arn.Member the member names and
--                  the percent escapes; Arn.Spaces lemmas on `%20`
--   Codec          src/codec.rs: `Codec`, its IRIs, `decompress_chunk`
--   Stream         src/stream.rs: `parse_index`, `slice_chunk`, `decode_bevy` and
--                  `read_all_observed`; Stream.Exact and Stream.Pass with its children hold lemmas
--                  on what they deliver. Stream.Reader `ChunkReader`
--                  with its caches; Reader.Reference a reading with no cache, Reader.Caches,
--                  Reader.Coherent, Reader.ByRange, Reader.Eviction, Reader.Budget, Reader.Chunks,
--                  Reader.Region and Reader.Invariant hold lemmas
--   VolumeSet      src/zip_volume_set.rs: the volumes of a set, which of them holds a stream, and
--                  where their metadata disagrees; VolumeSet.Lookup, VolumeSet.Consistent and
--                  VolumeSet.Conflicts hold lemmas
--   Image          src/image.rs: `SetStreams`, the `StreamSource` over a set of volumes, and the
--                  reads of an image through it; Image.Reading and Image.Serving hold lemmas,
--                  Image.Small is a small image for the tests
--   Write          src/write/bevy.rs in Write.Bevy: `BevyBuilder`; Bevy.Built what a chunk is stored
--                  as, Bevy.Pushed what a bevy holds, Bevy.RoundTrip that the reader gets it back.
--                  src/write/map_writer.rs in Write.SliceMap: the segments of a map, with
--                  SliceMap.ReadsBack and SliceMap.Tiled
--   Naming         src/naming.rs: base64, `display_form`, `RecordedName::of`; Naming.Letters,
--                  Naming.RoundTrip and Naming.Display hold lemmas
--   Map            src/map.rs: the data. Map.Targets `Target::parse`; Map.Decode the segments
--                  `map` and `idx`; Map.Sort, Map.Coverage and Map.Parse `Map::parse_with` with
--                  `resolve_coverage`; Map.Lookup `Map::entry_at`; Map.Emit `emit_repeated` and
--                  `emit_unknown`; Map.ReadAll `Map::read_all`, `runs` and `emit_described`;
--                  Map.ReadAt `read_at_impl`; Map.Source the trait `StreamSource`;
--                  Map.Simulation two sources that answer alike. The other
--                  children hold lemmas: Map.Tiling (entries that tile a range), Map.Covering,
--                  Map.Filling, Map.Refusing, Map.WellFormed and Map.Accepted.
--
-- Conventions. A u64, u32 or usize (64 bits) is a natural number; `checked_add`, `saturating_add`
-- and wrapping multiplication are written out. A bitwise `or` of values that share no bit is their
-- sum. A `Locus` and the wording of messages are left out: an error is a constructor for each
-- refusal, with the numbers that its message prints. A closure `&mut dyn FnMut` is a function that
-- passes its state; what was written before an error stays in the state. `sort_unstable_by_key` is
-- an insertion sort: only entries with the same offset could come in another order, and of two
-- such entries, which are not empty, the second overlaps the first and the map is refused.
-- `binary_search_by` is the loop of the standard library, which the parser's invariant makes
-- independent of the steps taken.
--
-- Parameters. A `StreamSource` is a record of operations over its own state, with the law
-- `Serves`: a region inside a stream is fed in pieces that join to its bytes. `SetStreams` is an
-- instance, on the states that its own calls leave behind. A `Volume` is a record of operations on
-- the state of the files, with the law `Holds`: it reads the segments it has, whole or a range,
-- and fails only by a fault. The crates snap, flate2 and lz4_flex are the record `Decoders`, of
-- which nothing is assumed by the reader; that the crates that compress (`Encoders`) and they
-- invert each other is the law `Inverts` of the round trip. A `HashMap` is an association list.
-- The one error type of the source is one type per component here, and `wrap` makes an error of a
-- map from one of a stream.
--
-- Fuel. The read loop of Map.ReadAt runs on the length of the buffer, since each round that goes
-- on writes a byte; the binary search on the number of entries; the loops of Map.Emit on the bytes
-- left; the loop of `read_region` on the bytes of the region; the decimal digits of a bevy number
-- on 20, the digits of a u64.
--
-- Not modelled: ZIP and file I/O, the metadata graph and what is read from it (`Map::open`,
-- `ImageStream::open`, `Image::open`, block hashes), digests, verification, the writer but
-- for its bevies and the segments of its maps, the rules, threads, bindings and the command line.
pub mod Prelude
pub mod Text
pub mod Arn
pub mod Codec
pub mod Stream
pub mod VolumeSet
pub mod Naming
pub mod Map
pub mod Image
pub mod Write
