-- ===== src/Stream/Tests.antt =====
-- Runs of the codecs and of a stream on small inputs, and instances of what is proved of them.
use aff4tools.Prelude.{
  ℕ, zero, suc, ◌+◌, ◌*◌, ◌≤◌, ◌<◌, ◌≡◌, ◌↔◌, ◌==◌, Bool, true, false, refl, sym, ◌∙◌, inl, inr,
  Option, none, some, List, [], ◌∷◌, ◌++◌, arith, length, take, drop, flatten, replicate, slice_of,
  get_elem?, eq_of_some, Option-cases, u64_max,
}
use aff4tools.Prelude.Results.{ok, ok_or}
use aff4tools.Prelude.Exec.{Sink, feed}
use aff4tools.Text.{Text, codes}
use aff4tools.Arn.{Arn, is_byte_range, is_within, stored_path}
use aff4tools.Arn.Member.{literal, member_name}
use aff4tools.Codec.{
  stored, snappy, Decoders, decompress_chunk, from_iri, iri, from_iri-iri, decompress_chunk_bounds,
  max_chunk_size,
}
use aff4tools.Stream.{
  ChunkLocation, ImageStream, StreamError, volume_error, Volume, parse_index_bounded, slice_chunk,
  index_entry_len, bevy_name, index_suffix, read_all_observed,
}
use aff4tools.Stream.Exact.{slice_chunk_iff, parse_index_bounded_size}
use aff4tools.Stream.Pass.{AreChunks, ListsAll}
use aff4tools.Stream.Pass.Whole.{read_all_observed_exact}
use aff4tools.Stream.Pass.Total.{read_all_observed_delivers}
use aff4tools.Stream.Reader.{chunk_in_bevy}
use aff4tools.Stream.Reader.Reference.{Agrees, Holds, chunk_of, locations_of, bytes_of}
use aff4tools.Stream.Reader.Region.{Reads}

-- Decoders that know nothing.
abbrev no_decoders : Decoders
no_decoders = record {
  snap_len = λ input. none;
  snap = λ input. none;
  inflate = λ input capacity. none;
  lz4_block = λ input capacity. none;
}

from_iri-iri_example : from_iri (iri snappy) ≡ some snappy
from_iri-iri_example = from_iri-iri snappy

chunk_decoded : decompress_chunk no_decoders snappy (1 ∷ 2 ∷ 3 ∷ []) 3 ≡ ok (1 ∷ 2 ∷ 3 ∷ [])
unfolding decompress_chunk
chunk_decoded = refl

decompress_chunk_bounds_example : (3 ≤ 3) × (3 ≤ max_chunk_size)
decompress_chunk_bounds_example =
    decompress_chunk_bounds no_decoders snappy (1 ∷ 2 ∷ 3 ∷ []) 3 (1 ∷ 2 ∷ 3 ∷ []) chunk_decoded

abbrev three_bytes : List ℕ
three_bytes = 5 ∷ 6 ∷ 7 ∷ []

abbrev two_bytes : List ℕ
two_bytes = 6 ∷ 7 ∷ []

slice_chunk_iff_example :
    (slice_chunk three_bytes (record { offset = 1; length = 2 }) 0 ≡ ok two_bytes)
    ↔ ((0 < 2) × (1 + 2 ≤ 3) × (two_bytes ≡ take 2 (drop 1 three_bytes)))
slice_chunk_iff_example =
    slice_chunk_iff three_bytes (record { offset = 1; length = 2 }) 0 two_bytes (omega arith)

-- Two chunks of two bytes, the second of which ends behind the stream.
abbrev index_bytes : List ℕ
index_bytes = 0 ∷ replicate 7 0 ++ (2 ∷ 0 ∷ 0 ∷ 0 ∷ 2 ∷ replicate 7 0) ++ (2 ∷ 0 ∷ 0 ∷ 0 ∷ [])

abbrev two_locations : List ChunkLocation
two_locations = record { offset = 0; length = 2 } ∷ record { offset = 2; length = 2 } ∷ []

index_parsed : parse_index_bounded index_bytes 2 ≡ ok two_locations
unfolding parse_index_bounded
index_parsed = refl

parse_index_bounded_size_example :
    (index_entry_len * length two_locations ≡ length index_bytes)
    × (0 < length two_locations)
    × (length two_locations ≤ 2)
parse_index_bounded_size_example = parse_index_bounded_size index_bytes 2 two_locations index_parsed

abbrev volume_arn : Arn
volume_arn = record { lexical = codes "aff4://v"; path_start = none; range_start = none }

abbrev small_stream : ImageStream
small_stream = record {
  arn = record { lexical = codes "aff4://v/s"; path_start = some 8; range_start = none };
  size = 5;
  chunk_size = 2;
  chunks_in_segment = 2;
  codec = stored;
}

-- The index of a bevy of one chunk.
abbrev one_entry : List ℕ
one_entry = 0 ∷ replicate 7 0 ++ (2 ∷ 0 ∷ 0 ∷ 0 ∷ [])

-- Two bevies, the second of one chunk, which ends behind the stream.
abbrev small_segment : (is_bevy is_second : Bool) → List ℕ
small_segment true false = 1 ∷ 2 ∷ 3 ∷ 4 ∷ []
small_segment true true = 5 ∷ 6 ∷ []
small_segment false false = index_bytes
small_segment false true = one_entry

-- The tenth letter of a name is the last digit of the bevy's number.
abbrev small_stored : Text → Option (List ℕ)
small_stored name = elim (get_elem? name 9) [
  | none ↦ none
  | some digit ↦ some (small_segment (length name == 10) (digit == b'1'))
]

abbrev small_volume : Volume (Unit {0})
small_volume = record {
  arn = volume_arn;
  has_segment = λ v name. true;
  read_segment_range = λ name offset n v. (ok none, v);
  read_segment = λ name v. (ok_or (small_stored name) (volume_error []), v);
}

ok_or-Agrees : (o : Option (List ℕ)) → Agrees ⊥ o (ok_or {E = StreamError} o (volume_error []))
ok_or-Agrees none = inl refl
ok_or-Agrees (some bytes) = refl

small_segment_short : (a b : Bool) → length (small_segment a b) ≤ u64_max
small_segment_short true false = omega arith
small_segment_short true true = omega arith
small_segment_short false false = omega arith
small_segment_short false true = omega arith

small_stored_short :
    (name : Text) (bytes : List ℕ) → small_stored name ≡ some bytes → length bytes ≤ u64_max
small_stored_short name bytes h = elim (Option-cases (get_elem? name 9)) [
  | inl nowhere ↦ let no : none ≡ some bytes = rw (nowhere, small_stored) at h in cc
  | inr (digit, here) ↦
      let e : small_segment (length name == 10) (digit == b'1') ≡ bytes =
        eq_of_some (rw (here, small_stored) at h) in
      rw (← e) (small_segment_short (length name == 10) (digit == b'1'))
]

small_volume-Holds : Holds small_volume small_stored ⊥
small_volume-Holds = record {
  whole = λ name v. ok_or-Agrees (small_stored name);
  range = λ name offset n v. tt;
  small = small_stored_short;
}

abbrev collect : Sink StreamError (List ℕ)
collect piece got = (ok tt, got ++ piece)

abbrev seen : ℕ → ℕ → ℕ
seen bevy before = bevy

abbrev five_bytes : List ℕ
five_bytes = 1 ∷ 2 ∷ 3 ∷ 4 ∷ 5 ∷ []

all_read :
    read_all_observed no_decoders small_stream collect small_volume literal seen (tt, (0, []))
    ≡ (ok tt, (tt, (2, five_bytes)))
unfolding read_all_observed member_name is_byte_range is_within stored_path
all_read = refl

listed_under :
    (at name : Text) (bytes index : List ℕ) (n : ℕ)
    → n < length bytes
    → some at ≡ some name
    → small_stored (at ++ index_suffix) ≡ some bytes
    → small_stored (name ++ index_suffix) ≡ some index
    → n < length index
listed_under at name bytes index n inside same here indexed =
    let e : at ≡ name = eq_of_some same in
    let value : some bytes ≡ some index = sym here ∙ rw (← e) at indexed in
    rw (← (eq_of_some value)) inside

small_stream-ListsAll : ListsAll no_decoders small_stream small_volume literal small_stored
unfolding bevy_name member_name is_byte_range is_within stored_path
small_stream-ListsAll zero name index room named indexed =
    listed_under (codes "s/00000000") name index_bytes index 0 (omega arith) named refl indexed
small_stream-ListsAll (suc zero) name index room named indexed =
    listed_under (codes "s/00000000") name index_bytes index 12 (omega arith) named refl indexed
small_stream-ListsAll (suc (suc zero)) name index room named indexed =
    listed_under (codes "s/00000001") name one_entry index 0 (omega arith) named refl indexed
small_stream-ListsAll (suc (suc (suc n))) name index room named indexed = absurd (omega arith)

read_all_observed_exact_example :
    (ps : List (List ℕ)) × AreChunks no_decoders small_stream small_volume literal small_stored 0 ps
    × (length (flatten ps) ≡ small_stream.size)
    × (feed collect ps [] ≡ (ok tt, five_bytes))
read_all_observed_exact_example =
    read_all_observed_exact no_decoders small_stream small_volume literal small_stored (omega arith)
      collect seen small_volume-Holds small_stream-ListsAll (tt, (0, [])) (tt, (2, five_bytes))
      all_read

-- The bytes of the stream are 1 to 5.
abbrev counting : ℕ → ℕ
counting n = n + 1

small_stream-Reads : Reads no_decoders small_stream small_volume literal small_stored counting
unfolding chunk_of locations_of bytes_of bevy_name member_name is_byte_range is_within stored_path
    parse_index_bounded chunk_in_bevy
small_stream-Reads zero room = refl
small_stream-Reads (suc zero) room = refl
small_stream-Reads (suc (suc zero)) room = refl
small_stream-Reads (suc (suc (suc n))) room = absurd (omega arith)

read_all_observed_delivers_example :
    (ps : List (List ℕ)) × (v : Unit {0}) × (bevies : ℕ) × (flatten ps
      ≡ slice_of counting 0 small_stream.size)
    × (read_all_observed no_decoders small_stream collect small_volume literal seen (tt, (0, []))
        ≡ ((feed collect ps []).0, (v, (bevies, (feed collect ps []).1))))
read_all_observed_delivers_example =
    read_all_observed_delivers no_decoders small_stream small_volume literal small_stored
      small_volume-Holds counting small_stream-Reads (omega arith) collect seen (omega arith)
      (omega arith) (tt, (0, []))
