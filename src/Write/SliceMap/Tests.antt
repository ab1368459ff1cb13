-- ===== src/Write/SliceMap/Tests.antt =====
-- A file of three chunks, the last of which is short and repeats the first, and instances of what is
-- proved of the maps that are written.
use aff4tools.Prelude.{ℕ, ◌*◌, ◌≡◌, refl, min, List, [], ◌∷◌, arith}
use aff4tools.Prelude.Results.{ok}
use aff4tools.Text.{Text, codes}
use aff4tools.Map.{MapEntry}
use aff4tools.Map.Decode.{parse_entries}
use aff4tools.Map.Tiling.{Tiles}
use aff4tools.Write.SliceMap.{encode_entries, encode_targets, slice_map}
use aff4tools.Write.SliceMap.ReadsBack.{parse_entries-encode}
use aff4tools.Write.SliceMap.Tiled.{Follows, slice_map-Tiles}

abbrev chunk_names : List Text
chunk_names = codes "aff4:sha512:a" ∷ codes "aff4:sha512:b" ∷ []

abbrev three_chunks : List ℕ
three_chunks = 1 ∷ 0 ∷ 1 ∷ []

abbrev three_entries : List MapEntry
three_entries =
    record { offset = 0; length = 2; target_offset = 0; target_id = 0 }
    ∷ record { offset = 2; length = 2; target_offset = 0; target_id = 1 }
    ∷ record { offset = 4; length = 1; target_offset = 0; target_id = 0 }
    ∷ []

abbrev first_use : List Text
first_use = codes "aff4:sha512:b" ∷ codes "aff4:sha512:a" ∷ []

sliced :
    slice_map three_chunks chunk_names 5 2
    ≡ ok (encode_entries three_entries, encode_targets first_use)
unfolding slice_map encode_entries
sliced = refl

slice_map-Tiles_example :
    (es : List MapEntry) × (local_targets : List Text) × (parse_entries
        (encode_entries three_entries)
      ≡ ok es)
    × (encode_targets first_use ≡ encode_targets local_targets)
    × Tiles 0 es (min 5 (3 * 2))
    × Follows chunk_names local_targets es three_chunks
slice_map-Tiles_example =
    slice_map-Tiles three_chunks chunk_names 5 2 (encode_entries three_entries)
      (encode_targets first_use) (omega arith) (omega arith) (omega arith) sliced

parse_entries-encode_example : parse_entries (encode_entries three_entries) ≡ ok three_entries
parse_entries-encode_example = parse_entries-encode three_entries (
  (omega arith, omega arith, omega arith, omega arith),
  (
    (omega arith, omega arith, omega arith, omega arith),
    ((omega arith, omega arith, omega arith, omega arith), tt),
  ),
)
