-- ===== src/Map/Parse.antt =====
-- aff4tools: src/map.rs, `Map::parse_with` and `Map::parse`.
use aff4tools.Prelude.{ℕ, ◌+◌, none, some, List, [], ◌∷◌, leb, ◌==◌, if◌then◌else◌, length}
use aff4tools.Prelude.Results.{Result, ok, err, ◌>>=◌}
use aff4tools.Arn.{Arn}
use aff4tools.Map.{
  Target, MapEntry, checked_end, GapPolicy, refuse, Map, MapError, no_targets, no_entries,
  zero_length, bad_target, bad_extent, bad_coverage,
}
use aff4tools.Map.Decode.{parse_targets, parse_entries}
use aff4tools.Map.Sort.{sort_by_offset}
use aff4tools.Map.Coverage.{Cover, resolve_coverage}

-- The checks of one entry, `count` targets being listed.
unfoldable pub check_entry : ℕ → ℕ → MapEntry → Result MapError (Unit {0})
unfolding checked_end
check_entry count index e =
    if e.length == 0
    then err (zero_length index)
    else if leb count e.target_id
    then err (bad_target index e.target_id count)
    else (elim (checked_end e) [ none ↦ err (bad_extent index e.offset e.length) | some _ ↦ ok tt ])

unfoldable pub check_entries : ℕ → ℕ → List MapEntry → Result MapError (Unit {0})
check_entries count index [] = ok tt
check_entries count index (e ∷ es) =
    check_entry count index e >>= λ (_ : Unit {0}). check_entries count (index + 1) es

-- From the decoded segments on.
unfoldable pub assemble : Arn → List MapEntry → List Target → ℕ → GapPolicy → Result MapError Map
assemble arn entries targets declared_size policy =
    resolve_coverage (sort_by_offset entries) targets declared_size policy
    >>= λ (p : List MapEntry × Cover).
        if p.1.covered == declared_size
        then ok (record {
          arn = arn;
          entries = p.0;
          targets = p.1.targets;
          size = declared_size;
          gaps = p.1.gaps;
          gap_target_id = p.1.gap_target_id;
        })
        else err (bad_coverage p.1.covered declared_size)

unfoldable pub check_and_assemble :
    Arn → List Target → ℕ → GapPolicy → List MapEntry → Result MapError Map
check_and_assemble arn targets declared_size policy entries =
    if length entries == 0
    then err no_entries
    else check_entries (length targets) 0 entries >>= λ (_ : Unit {0}).
        assemble arn entries targets declared_size policy

-- `Map::parse_with`
unfoldable pub parse_with : Arn → List ℕ → List ℕ → ℕ → GapPolicy → Result MapError Map
unfolding check_and_assemble
parse_with arn map_bytes idx_bytes declared_size policy =
    let targets = parse_targets idx_bytes in
    if length targets == 0
    then err no_targets
    else parse_entries map_bytes >>= check_and_assemble arn targets declared_size policy

-- `Map::parse`
unfoldable pub parse : Arn → List ℕ → List ℕ → ℕ → Result MapError Map
unfolding parse_with
parse arn map_bytes idx_bytes declared_size =
    parse_with arn map_bytes idx_bytes declared_size refuse
