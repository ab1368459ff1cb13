-- ===== src/Map.antt =====
-- aff4tools: src/map.rs, the data of a map: its targets, entries and gaps, and its errors.
-- The operations are in the children. A `Locus` and the wording of a message are not modelled: an
-- error is a constructor for each refusal, with the numbers and names that its message prints.
pub mod Targets
mod Tests
pub mod Decode
pub mod Sort
pub mod Tiling
pub mod Coverage
pub mod Covering
pub mod Parse
pub mod WellFormed
pub mod Filling
pub mod Refusing
pub mod Accepted
pub mod Lookup
pub mod Emit
pub mod Source
pub mod Simulation
pub mod Produce
pub mod ReadAll
pub mod ReadAt
use aff4tools.Prelude.{
  ℕ, ◌+◌, Bool, true, false, Option, none, some, List, ltb, sat_add, checked_add, length, get_elem?,
}
use aff4tools.Text.{Text}
use aff4tools.Arn.{Arn}

-- `UnknownKind`
pub data UnknownKind : Type 0 where
  not_acquired unreadable : UnknownKind

-- `UnknownRegions`
pub data UnknownRegions : Type 0 where
  fill report : UnknownRegions

-- `Target`
pub data Target : Type 0 where
  stored : Arn → Target
  repeated_byte : ℕ → Target
  unknown : UnknownKind → Target
  block_hash : Text → Target
  unrecognised : Text → Target

-- `MapEntry`
pub record MapEntry : Type 0 where
  pub offset : ℕ
  pub length : ℕ
  pub target_offset : ℕ
  pub target_id : ℕ

-- `MapEntry::end`
unfoldable pub end : MapEntry → ℕ
unfolding sat_add
end e = sat_add e.offset e.length

-- `MapEntry::checked_end`
unfoldable pub checked_end : MapEntry → Option ℕ
unfolding checked_add
checked_end e = checked_add e.offset e.length

-- `GapPolicy`: `Fill(target, declared)`
pub data GapPolicy : Type 0 where
  refuse : GapPolicy
  filling : Target → Bool → GapPolicy

-- `GapPolicy::spec_default`
unfoldable pub spec_default : GapPolicy
spec_default = filling (repeated_byte 0) false

-- `GapFill`
pub record GapFill : Type 0 where
  pub name : Text
  pub declared : Bool

-- `GapSummary`
pub record GapSummary : Type 0 where
  pub count : ℕ
  pub bytes : ℕ
  pub fill_source : Option GapFill

abbrev pub no_gaps : GapSummary
no_gaps = record { count = 0; bytes = 0; fill_source = none }

-- `Map`
pub record Map : Type 0 where
  pub arn : Arn
  pub entries : List MapEntry
  pub targets : List Target
  pub size : ℕ
  pub gaps : GapSummary
  pub gap_target_id : Option ℕ

-- `Map::target_of`
unfoldable pub target_of : Map → MapEntry → Option Target
target_of m e = get_elem? m.targets e.target_id

-- `Target::is_stored`
unfoldable pub is_stored : Target → Bool
is_stored (stored _) = true
is_stored _ = false

-- `Error`, as the functions of map.rs raise it. `other` is an error of a sink or a source.
pub data MapError : Type 0 where
  no_targets no_entries too_many_targets no_size : MapError
  undescribed_stream no_volume : Text → MapError
  ragged : ℕ → MapError
  zero_length : ℕ → MapError
  bad_target : ℕ → ℕ → ℕ → MapError
  bad_extent : ℕ → ℕ → ℕ → MapError
  gap : ℕ → ℕ → ℕ → MapError
  overlap : ℕ → ℕ → ℕ → MapError
  total_overflow : ℕ → MapError
  bad_coverage : ℕ → ℕ → MapError
  missing_target : ℕ → ℕ → ℕ → MapError
  lost_chunk : ℕ → Text → MapError
  unresolved : ℕ → Text → MapError
  bad_total : ℕ → ℕ → MapError
  not_described : ℕ → MapError
  no_such_entry : ℕ → MapError
  unknown_region : ℕ → ℕ → UnknownKind → MapError
  bad_piece : ℕ → ℕ → ℕ → MapError
  other : ℕ → MapError
