-- ===== src/Map/Decode.antt =====
-- aff4tools: src/map.rs, decoding the `idx` and `map` segments.
use aff4tools.Prelude.{
  ℕ, zero, suc, ◌+◌, ◌*◌, ◌/◌, ◌%◌, true, false, List, [], ◌∷◌, ◌==◌, if◌then◌else◌, length, map,
  take, drop,
}
use aff4tools.Prelude.Results.{Result, ok, err}
use aff4tools.Text.{Text, trim}
use aff4tools.Text.Utf8.{from_utf8_lossy}
use aff4tools.Map.{Target, MapEntry, MapError, ragged}
use aff4tools.Map.Targets
use mathlib.Core.List.{reverse}

-- `MAP_ENTRY_LEN`
abbrev pub map_entry_len : ℕ
map_entry_len = 28

-- `uN::from_le_bytes`
unfoldable pub from_le_bytes : List ℕ → ℕ
from_le_bytes [] = 0
from_le_bytes (b ∷ bs) = b + 256 * from_le_bytes bs

-- One record of 28 bytes: `<QQQI>`.
unfoldable pub decode_entry : List ℕ → MapEntry
unfolding from_le_bytes
decode_entry bytes = record {
  offset = from_le_bytes (take 8 bytes);
  length = from_le_bytes (take 8 (drop 8 bytes));
  target_offset = from_le_bytes (take 8 (drop 16 bytes));
  target_id = from_le_bytes (take 4 (drop 24 bytes));
}

-- `bytes.as_chunks::<N>().0`, `count` chunks of `n`.
unfoldable pub chunks : ℕ → ℕ → List ℕ → List (List ℕ)
chunks n zero bytes = []
chunks n (suc count) bytes = take n bytes ∷ chunks n count (drop n bytes)

-- `parse_entries`
unfoldable pub parse_entries : List ℕ → Result MapError (List MapEntry)
unfolding decode_entry chunks
parse_entries bytes =
    if length bytes % map_entry_len == 0
    then ok (map decode_entry (chunks map_entry_len (length bytes / map_entry_len) bytes))
    else err (ragged (length bytes))

-- `text.lines()` gives the parts between the `\n`; the `\r` before one is trimmed away with the
-- rest of the white space by the caller. `current` is the reversed line so far.
unfoldable pub lines_from : Text → Text → List Text
lines_from current [] = reverse current ∷ []
lines_from current (c ∷ cs) = elim (c == 10) [
  | true ↦ reverse current ∷ lines_from [] cs
  | false ↦ lines_from (c ∷ current) cs
]

-- `.map(str::trim).filter(|line| !line.is_empty()).map(|line| Target::parse(line, locus))`
unfoldable pub targets_of_lines : List Text → List Target
targets_of_lines [] = []
targets_of_lines (line ∷ lines) =
    let rest = targets_of_lines lines in
    if length (trim line) == 0 then rest else Targets.parse (trim line) ∷ rest

-- `parse_targets`
unfoldable pub parse_targets : List ℕ → List Target
unfolding targets_of_lines lines_from
parse_targets bytes = targets_of_lines (lines_from [] (from_utf8_lossy bytes))
