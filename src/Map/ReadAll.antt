-- ===== src/Map/ReadAll.antt =====
-- aff4tools: src/map.rs, `Map::read_all`, `Map::runs`, `Map::emit_described` and the counts that
-- the map gives of itself.
pub mod Image
pub mod Total
use aff4tools.Prelude.{
  ℕ, zero, suc, ◌+◌, ◌-◌, Bool, true, false, Option, none, some, List, [], ◌∷◌, ◌==◌, if◌then◌else◌,
  length, get_elem?, sat_add,
}
use aff4tools.Prelude.Results.{Result, ok, err}
use aff4tools.Prelude.Exec.{Exec, Sink, pure, raise, on_second, ◌>>=◌, ◌>>◌}
use aff4tools.Arn.{Arn}
use aff4tools.Map.{
  Target, stored, repeated_byte, unknown, block_hash, unrecognised, MapEntry, Map, MapError,
  GapFill, target_of, is_stored, missing_target, lost_chunk, unresolved, bad_total, not_described,
  no_such_entry,
}
use aff4tools.Map.Source.{StreamSource}
use aff4tools.Map.Produce.{produce_stored, produce_repeated, produce_unknown}
use aff4tools.Map.Emit.{emit_repeated, emit_unknown}

-- `ReadAccounting`
pub record ReadAccounting : Type 0 where
  pub stored_count : ℕ
  pub described : ℕ
  pub unknown_placeholder : ℕ
  pub gap_filled : ℕ
  pub gap_fill : Option GapFill

-- `ReadAccounting { gap_fill, ..ReadAccounting::default() }`
abbrev pub nothing_read : Option GapFill → ReadAccounting
nothing_read fill_source = record {
  stored_count = 0;
  described = 0;
  unknown_placeholder = 0;
  gap_filled = 0;
  gap_fill = fill_source;
}

-- `ReadAccounting::total`
unfoldable pub total : ReadAccounting → ℕ
unfolding sat_add
total a = sat_add (sat_add (sat_add a.stored_count a.described) a.unknown_placeholder) a.gap_filled

-- `self.gap_target_id == Some(entry.target_id)`
unfoldable pub is_gap : Map → MapEntry → Bool
is_gap m e = elim m.gap_target_id [ none ↦ false | some id ↦ id == e.target_id ]

-- The accounting after a repeated run.
unfoldable pub count_repeated : Map → MapEntry → ReadAccounting → ReadAccounting
unfolding is_gap
count_repeated m e a =
    if is_gap m e
    then record a { gap_filled = sat_add a.gap_filled e.length }
    else record a { described = sat_add a.described e.length }

module _ {Src T : Type 0} (source : StreamSource Src) (sink : Sink MapError T) where
  -- The body of the loop, on the target that the entry names.
  unfoldable pub read_target :
      Map → ℕ → MapEntry → ReadAccounting → Option Target → Exec MapError (Src × T) ReadAccounting
  unfolding count_repeated produce_stored produce_repeated produce_unknown
  read_target m position e a none = raise (missing_target position e.target_id (length m.targets))
  read_target m position e a (some (stored arn)) =
      produce_stored source sink arn e.target_offset e.length >>= λ _.
      pure (record a { stored_count = sat_add a.stored_count e.length })
  read_target m position e a (some (repeated_byte byte)) =
      produce_repeated source sink byte e.length >>= λ _. pure (count_repeated m e a)
  read_target m position e a (some (unknown kind)) =
      produce_unknown source sink kind e.length e.target_offset >>= λ _.
      pure (record a { unknown_placeholder = sat_add a.unknown_placeholder e.length })
  read_target m position e a (some (block_hash text)) = raise (lost_chunk position text)
  read_target m position e a (some (unrecognised text)) = raise (unresolved position text)

  unfoldable pub read_entries :
      Map → ℕ → List MapEntry → ReadAccounting → Exec MapError (Src × T) ReadAccounting
  unfolding target_of
  read_entries m position [] a = pure a
  read_entries m position (e ∷ es) a =
      read_target m position e a (target_of m e) >>= read_entries m (position + 1) es

  -- `Map::read_all`
  unfoldable pub read_all : Map → Exec MapError (Src × T) ReadAccounting
  unfolding total
  read_all m =
      read_entries m 0 m.entries (nothing_read m.gaps.fill_source) >>= λ (a : ReadAccounting).
      if total a == m.size then pure a else raise (bad_total (total a) m.size)

-- `ImageRun`
pub data ImageRun : Type 0 where
  stored_run : Arn → ℕ → ℕ → ImageRun
  described_run : ℕ → ImageRun

-- One entry of `Map::runs`: `target_for`, then the run or the refusal of `unreadable_target`.
unfoldable pub run_of : Map → ℕ → MapEntry → Option Target → Result MapError ImageRun
run_of m position e none = err (missing_target position e.target_id (length m.targets))
run_of m position e (some (stored arn)) = ok (stored_run arn e.target_offset e.length)
run_of m position e (some (repeated_byte _)) = ok (described_run position)
run_of m position e (some (unknown _)) = ok (described_run position)
run_of m position e (some (block_hash text)) = err (lost_chunk position text)
run_of m position e (some (unrecognised text)) = err (unresolved position text)

unfoldable pub runs_from : Map → ℕ → List MapEntry → Result MapError (List ImageRun)
unfolding run_of target_of
runs_from m position [] = ok []
runs_from m position (e ∷ es) =
    let rest = runs_from m (position + 1) es in
    elim (run_of m position e (target_of m e)) [
      | err x ↦ err x
      | ok r ↦ elim rest [ err x ↦ err x | ok rs ↦ ok (r ∷ rs) ]
    ]

-- `Map::runs`
unfoldable pub runs : Map → Result MapError (List ImageRun)
unfolding runs_from
runs m = runs_from m 0 m.entries

module _ {T : Type 0} (sink : Sink MapError T) where
  unfoldable pub emit_target : Map → ℕ → MapEntry → Option Target → Exec MapError T ReadAccounting
  unfolding is_gap
  emit_target m position e none = raise (missing_target position e.target_id (length m.targets))
  emit_target m position e (some (repeated_byte byte)) =
      let a = nothing_read m.gaps.fill_source in
      emit_repeated sink byte e.length >>= λ _.
      pure (
        if is_gap m e
        then record a { gap_filled = e.length }
        else record a { described = e.length })
  emit_target m position e (some (unknown kind)) =
      emit_unknown sink kind e.length e.target_offset >>= λ _.
      pure (record (nothing_read m.gaps.fill_source) { unknown_placeholder = e.length })
  emit_target m position e (some _) = raise (not_described position)

  -- `Map::emit_described`
  unfoldable pub emit_described : Map → ℕ → Exec MapError T ReadAccounting
  unfolding emit_target target_of
  emit_described m position = elim (get_elem? m.entries position) [
    | none ↦ raise (no_such_entry position)
    | some e ↦ emit_target m position e (target_of m e)
  ]

-- `Map::stored_bytes`
unfoldable pub stored_total : Map → List MapEntry → ℕ
unfolding target_of is_stored
stored_total m [] = 0
stored_total m (e ∷ es) =
    let rest = stored_total m es in
    elim (target_of m e) [
      | none ↦ rest
      | some target ↦ if is_stored target then e.length + rest else rest
    ]

unfoldable pub stored_bytes : Map → ℕ
unfolding stored_total
stored_bytes m = stored_total m m.entries

-- `Map::described_bytes`
unfoldable pub described_bytes : Map → ℕ
unfolding stored_bytes
described_bytes m = m.size - stored_bytes m - m.gaps.bytes
