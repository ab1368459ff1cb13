-- ===== src/Map/Tests.antt =====
-- Runs of the map's reader on a small image, and instances of what is proved of it.
use aff4tools.Prelude.{
  Option, ℕ, ◌+◌, ◌-◌, ◌≤◌, ◌<◌, ◌≡◌, ◌↔◌, ◌⊎◌, refl, sym, ap, min, false, none, some, List, [],
  ◌∷◌, ◌++◌, append-nil, arith, length, drop, sat_add, flatten, slice_of, replicate,
}
use aff4tools.Prelude.Results.{Result, ok, err}
use aff4tools.Prelude.Exec.{Sink, feed, continue, pure}
use aff4tools.Text.{codes, trim}
use aff4tools.Text.Utf8.{from_utf8_lossy}
use aff4tools.Arn
use aff4tools.Arn.{Arn}
use aff4tools.Map.{
  MapEntry, Map, MapError, Target, stored, repeated_byte, refuse, filling, report, not_acquired,
  target_of,
}
use aff4tools.Map.Decode.{parse_targets, parse_entries}
use aff4tools.Map.Targets
use aff4tools.Map.Targets.{gap_fill_name}
use aff4tools.Map.Sort.{sort_by_offset}
use aff4tools.Map.Coverage.{
  cover_entries, reach, advance, cover_tail, merge_filled, resolve_coverage,
}
use aff4tools.Map.Parse.{check_entry, check_entries, assemble, parse_with, parse}
use aff4tools.Map.Tiling.{Chain, holes, woven, total_length}
use aff4tools.Map.WellFormed.{IsWellFormed}
use aff4tools.Map.Accepted.{
  plain, tail_of, IsAccepted, parse_with-IsWellFormed, parse_iff, parse_with-filling,
}
use aff4tools.Map.Lookup.{entry_at}
use aff4tools.Map.Lookup.Search.{scan, entry_at-scan, entry_at_covers}
use aff4tools.Map.Emit.{emit_repeated, emit_unknown}
use aff4tools.Map.Emit.Pieces.{unknown_byte, emit_repeated_pieces, emit_unknown_pieces}
use aff4tools.Map.Source.{StreamSource, Serves, image_byte, IsReadable}
use aff4tools.Map.ReadAll.{read_all, total}
use aff4tools.Map.ReadAll.Image.{image, composition, answer_of}
use aff4tools.Map.ReadAll.Total.{read_all_delivers}
use aff4tools.Map.ReadAt.{read_at_with, read_at}
use aff4tools.Map.ReadAt.Outcome.{Outcome}
use aff4tools.Map.ReadAt.Total.{read_at_with-Outcome, read_at_total}

-- The entry at offset 2, listed first, repeats a byte; the one at offset 0 is of a stream.
abbrev entry_bytes : (offset length target_offset target_id : ℕ) → List ℕ
entry_bytes o n t i =
    o ∷ replicate 7 0 ++ (n ∷ replicate 7 0 ++ (t ∷ replicate 7 0 ++ (i ∷ replicate 3 0)))

abbrev map_bytes : List ℕ
map_bytes = entry_bytes 2 3 0 1 ++ entry_bytes 0 2 1 0

abbrev idx_bytes : List ℕ
idx_bytes = codes "aff4://v/s" ++ (10 ∷ codes "http://aff4.org/Schema#Zero" ++ (10 ∷ []))

abbrev map_arn : Arn
map_arn = record { lexical = codes "aff4://v/m"; path_start = some 8; range_start = none }

abbrev entries : List MapEntry
entries =
    record { offset = 0; length = 2; target_offset = 1; target_id = 0 }
    ∷ record { offset = 2; length = 3; target_offset = 0; target_id = 1 }
    ∷ []

abbrev stream_arn : Arn
stream_arn = record { lexical = codes "aff4://v/s"; path_start = some 8; range_start = none }

abbrev targets : List Target
targets = stored stream_arn ∷ repeated_byte 0 ∷ []

abbrev image_map : Map
image_map = plain map_arn entries targets 5

parsed : parse_with map_arn map_bytes idx_bytes 5 refuse ≡ ok image_map
unfolding parse_with parse_targets from_utf8_lossy trim parse_entries check_entries check_entry
    assemble resolve_coverage cover_entries sort_by_offset reach advance cover_tail merge_filled
    Targets.parse Arn.parse
parsed = refl

parse_with-IsWellFormed_example : IsWellFormed image_map × (image_map.size ≡ 5)
parse_with-IsWellFormed_example =
    parse_with-IsWellFormed map_arn map_bytes idx_bytes 5 refuse image_map (omega arith) parsed

abbrev listed : List MapEntry
listed =
    record { offset = 2; length = 3; target_offset = 0; target_id = 1 }
    ∷ record { offset = 0; length = 2; target_offset = 1; target_id = 0 }
    ∷ []

decoded : parse_entries map_bytes ≡ ok listed
unfolding parse_entries
decoded = refl

parse_iff_example : (parse map_arn map_bytes idx_bytes 5 ≡ ok image_map) ↔ (
    IsAccepted listed (parse_targets idx_bytes) 5
    × (image_map ≡ plain map_arn (sort_by_offset listed) (parse_targets idx_bytes) 5))
parse_iff_example = parse_iff map_arn map_bytes idx_bytes 5 listed image_map decoded

-- A map with a hole in front and one at its end.
abbrev sparse_bytes : List ℕ
sparse_bytes = entry_bytes 2 3 0 0

abbrev sparse_listed : List MapEntry
sparse_listed = record { offset = 2; length = 3; target_offset = 0; target_id = 0 } ∷ []

abbrev sparse_idx : List ℕ
sparse_idx = codes "http://aff4.org/Schema#Zero"

abbrev sparse_map : Map
sparse_map = record {
  arn = map_arn;
  entries =
      record { offset = 0; length = 2; target_offset = 0; target_id = 1 }
      ∷ record { offset = 2; length = 3; target_offset = 0; target_id = 0 }
      ∷ record { offset = 5; length = 4; target_offset = 0; target_id = 1 }
      ∷ [];
  targets = repeated_byte 0 ∷ repeated_byte 0 ∷ [];
  size = 9;
  gaps = record {
    count = 2;
    bytes = 6;
    fill_source = some (record { name = gap_fill_name (repeated_byte 0); declared = false });
  };
  gap_target_id = some 1;
}

sparse_decoded : parse_entries sparse_bytes ≡ ok sparse_listed
unfolding parse_entries
sparse_decoded = refl

sparse_parsed :
    parse_with map_arn sparse_bytes sparse_idx 9 (filling (repeated_byte 0) false) ≡ ok sparse_map
unfolding parse_with parse_targets from_utf8_lossy trim parse_entries check_entries check_entry
    assemble resolve_coverage cover_entries sort_by_offset reach advance cover_tail merge_filled
    Targets.parse Arn.parse sat_add
sparse_parsed = refl

parse_with-filling_example :
    (last : ℕ) × Chain 0 (sort_by_offset sparse_listed) last
    × (sparse_map.entries
        ≡ woven (length (parse_targets sparse_idx)) 0 (sort_by_offset sparse_listed)
          ++ tail_of (length (parse_targets sparse_idx)) last 9)
    × (sparse_map.gaps.count
        ≡ length (holes (length (parse_targets sparse_idx)) 0 (sort_by_offset sparse_listed))
          + length (tail_of (length (parse_targets sparse_idx)) last 9))
    × (total_length (sort_by_offset sparse_listed) + sparse_map.gaps.bytes ≡ 9)
parse_with-filling_example =
    parse_with-filling map_arn sparse_bytes sparse_idx 9 (repeated_byte 0) false sparse_listed
      sparse_map sparse_decoded (omega arith) sparse_parsed

well_formed : IsWellFormed image_map
well_formed = record {
  tiles = (refl, omega arith, (refl, omega arith, refl));
  listed = (omega arith, (omega arith, tt));
  small = omega arith;
}

entry_at-scan_example : entry_at image_map 3 ≡ scan image_map.entries 3
entry_at-scan_example = entry_at-scan image_map 3 well_formed

entry_at_covers_example :
    ((3 < image_map.size)
      × (e : MapEntry) × (entry_at image_map 3 ≡ some e)
      × (e.offset ≤ 3)
      × (3 < e.offset + e.length))
    ⊎ ((image_map.size ≤ 3) × (entry_at image_map 3 ≡ none))
entry_at_covers_example = entry_at_covers image_map 3 well_formed

emit_repeated_pieces_example :
    (ps : List (List ℕ)) × (flatten ps ≡ replicate 3 7)
    × ((S : Type 0) (sink : Sink MapError S) → emit_repeated sink 7 3 ≡ feed sink ps)
emit_repeated_pieces_example = emit_repeated_pieces 7 3

emit_unknown_pieces_example :
    (ps : List (List ℕ)) × (flatten ps ≡ slice_of (unknown_byte not_acquired) 5 9)
    × ((S : Type 0) (sink : Sink MapError S) → emit_unknown sink not_acquired 9 5 ≡ feed sink ps)
emit_unknown_pieces_example = emit_unknown_pieces not_acquired 9 5 (omega arith)

-- A source of one stream of four bytes, in one piece, with no state of its own.
abbrev bytes_of : Arn → ℕ → ℕ
bytes_of arn o = 65 + o

abbrev four : Arn → Option ℕ
four arn = some 4

abbrev one_piece : StreamSource (Unit {0})
one_piece = record {
  read_region = λ T arn offset n sink s.
      let r = sink (slice_of (bytes_of arn) offset n) s.1 in (r.0, (s.0, r.1));
}

fed_one :
    {T : Type 0} (r : Result MapError (Unit {0}) × T)
    → continue {S = T} r.0 (λ (_ : Unit {0}). pure tt) r.1 ≡ r
fed_one (ok u, t) = refl
fed_one (err e, t) = refl

Serves-four : Serves one_piece bytes_of four
unfolding feed
Serves-four = record {
  serves = λ arn offset n fits T sink src t. (
    slice_of (bytes_of arn) offset n ∷ [],
    src,
    append-nil (slice_of (bytes_of arn) offset n),
    ap (λ (r : Result MapError (Unit {0}) × T). (r.0, (src, r.1)))
        (sym (fed_one (sink (slice_of (bytes_of arn) offset n) t))),
  );
}

readable : IsReadable four image_map
unfolding target_of
readable = ((omega arith, omega arith), ((tt, omega arith), tt))

-- Collects what it is fed.
abbrev collect : Sink MapError (List ℕ)
collect piece got = (ok tt, got ++ piece)

read_all_delivers_example :
    (ps : List (List ℕ)) × (src' : Unit {0}) × (flatten ps ≡ image bytes_of image_map)
    × (read_all one_piece collect image_map (tt, []) ≡ (
      answer_of (composition image_map) (feed collect ps []).0,
      (src', (feed collect ps []).1),
    ))
    × (total (composition image_map) ≡ image_map.size)
read_all_delivers_example =
    read_all_delivers one_piece bytes_of four collect image_map tt [] Serves-four well_formed
      readable

read_at_with-Outcome_example :
    Outcome
      (Unit {0})
      bytes_of
      report
      image_map
      1
      0
      (1 ∷ 1 ∷ 1 ∷ [])
      (read_at_with one_piece image_map report 1 tt (1 ∷ 1 ∷ 1 ∷ []))
read_at_with-Outcome_example =
    read_at_with-Outcome one_piece bytes_of four Serves-four image_map well_formed readable report 1
      tt (1 ∷ 1 ∷ 1 ∷ []) (omega arith)

read_at_total_example :
    (src' : Unit {0}) × (read_at one_piece image_map 1 tt (1 ∷ 1 ∷ 1 ∷ []) ≡ (
      ok (min 3 (image_map.size - 1)),
      (
        src',
        slice_of (image_byte bytes_of image_map) 1 (min 3 (image_map.size - 1))
            ++ drop (min 3 (image_map.size - 1)) (1 ∷ 1 ∷ 1 ∷ []),
      ),
    ))
read_at_total_example =
    read_at_total one_piece bytes_of four Serves-four image_map well_formed readable 1 tt
      (1 ∷ 1 ∷ 1 ∷ []) (omega arith)
