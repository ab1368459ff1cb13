-- ===== src/Map/Coverage.antt =====
-- aff4tools: src/map.rs, `resolve_coverage`: the sorted entries must cover the address space, and
-- holes are filled where the policy allows it.
use aff4tools.Prelude.{
  ℕ, ◌+◌, ◌-◌, Bool, Option, none, some, List, [], ◌∷◌, ◌++◌, ltb, if◌then◌else◌, sat_add,
  checked_add, u32_max, length,
}
use aff4tools.Prelude.Results.{Result, ok, err, ◌>>=◌}
use aff4tools.Map.{
  Target, MapEntry, checked_end, GapPolicy, refuse, filling, GapFill, GapSummary, no_gaps, MapError,
  gap, overlap, bad_extent, total_overflow, too_many_targets,
}
use aff4tools.Map.Targets.{gap_fill_name}
use aff4tools.Map.Sort.{sort_by_offset}

-- The variables of the loop.
pub record Cover : Type 0 where
  pub targets : List Target
  pub gap_target_id : Option ℕ
  pub filled : List MapEntry
  pub gaps : GapSummary
  pub covered : ℕ
  pub previous_end : ℕ

abbrev pub uncovered : List Target → Cover
uncovered targets = record {
  targets = targets;
  gap_target_id = none;
  filled = [];
  gaps = no_gaps;
  covered = 0;
  previous_end = 0;
}

-- `gap_target_of`: the id of the gap target, which is appended at its first use.
unfoldable pub gap_target_of : Cover → Target → Result MapError (ℕ × Cover)
gap_target_of c gap_target = elim c.gap_target_id [
  | some id ↦ ok (id, c)
  | none ↦
      if ltb u32_max (length c.targets)
      then err too_many_targets
      else ok (
        length c.targets,
        record c {
          targets = c.targets ++ (gap_target ∷ []);
          gap_target_id = some (length c.targets);
        },
      )
]

-- `if gaps.fill.is_none() { gaps.fill = Some(…) }`
unfoldable pub name_fill : Target → Bool → Option GapFill → Option GapFill
name_fill gap_target declared (some f) = some f
name_fill gap_target declared none =
    some (record { name = gap_fill_name gap_target; declared = declared })

-- The hole from `previous_end` to `stop`, filled and counted.
unfoldable pub fill_hole : Target → Bool → ℕ → Cover → Result MapError Cover
unfolding gap_target_of name_fill
fill_hole gap_target declared stop c = gap_target_of c gap_target >>= λ (p : ℕ × Cover).
    let n = stop - p.1.previous_end in
    ok (record p.1 {
      filled =
          p.1.filled
          ++ (record { offset = p.1.previous_end; length = n; target_offset = 0; target_id = p.0 }
              ∷ []);
      gaps = record {
        count = p.1.gaps.count + 1;
        bytes = sat_add p.1.gaps.bytes n;
        fill_source = name_fill gap_target declared p.1.gaps.fill_source;
      };
      covered = sat_add p.1.covered n;
    })

-- The test of an entry's offset against `previous_end`.
unfoldable pub reach : GapPolicy → ℕ → MapEntry → Cover → Result MapError Cover
unfolding fill_hole
reach policy position e c =
    if ltb c.previous_end e.offset
    then (elim policy [
      | refuse ↦ err (gap position c.previous_end e.offset)
      | filling gap_target declared ↦ fill_hole gap_target declared e.offset c
    ])
    else if ltb e.offset c.previous_end
    then err (overlap position e.offset c.previous_end)
    else ok c

-- `previous_end` and `covered` after an entry.
unfoldable pub advance : ℕ → MapEntry → Cover → Result MapError Cover
unfolding checked_end
advance position e c = elim (checked_end e) [
  | none ↦ err (bad_extent position e.offset e.length)
  | some stop ↦ elim (checked_add c.covered e.length) [
    | none ↦ err (total_overflow position)
    | some covered ↦ ok (record c { covered = covered; previous_end = stop })
  ]
]

-- The loop over the sorted entries.
unfoldable pub cover_entries : GapPolicy → ℕ → List MapEntry → Cover → Result MapError Cover
cover_entries policy position [] c = ok c
cover_entries policy position (e ∷ es) c =
    reach policy position e c >>= advance position e >>= cover_entries policy (position + 1) es

-- A hole at the end of the address space.
unfoldable pub cover_tail : GapPolicy → ℕ → Cover → Result MapError Cover
unfolding fill_hole
cover_tail refuse declared_size c = ok c
cover_tail (filling gap_target declared) declared_size c =
    if ltb c.previous_end declared_size then fill_hole gap_target declared declared_size c else ok c

-- `if !filled.is_empty() { entries.extend(filled); entries.sort… }`
unfoldable pub merge_filled : List MapEntry → List MapEntry → List MapEntry
merge_filled entries [] = entries
merge_filled entries (f ∷ fs) = sort_by_offset (entries ++ f ∷ fs)

-- `resolve_coverage`: the entries that it leaves, and its last state.
unfoldable pub resolve_coverage :
    List MapEntry → List Target → ℕ → GapPolicy → Result MapError (List MapEntry × Cover)
resolve_coverage entries targets declared_size policy =
    cover_entries policy 0 entries (uncovered targets)
    >>= cover_tail policy declared_size
    >>= λ (c : Cover). ok (merge_filled entries c.filled, c)
