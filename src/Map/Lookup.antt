-- ===== src/Map/Lookup.antt =====
-- aff4tools: src/map.rs, `Map::entry_at`: the entry that covers an offset, by binary search.
-- `slice::binary_search_by` is written as the standard library's loop.
pub mod Search
use aff4tools.Prelude.{
  ℕ, zero, suc, ◌+◌, ◌-◌, ◌/◌, Option, none, some, List, [], ◌∷◌, ltb, leb, ◌==◌, if◌then◌else◌,
  length, get_elem?,
}
use aff4tools.Map.{MapEntry, end, Map}

-- `Ordering`: where the probed entry lies against the offset.
pub data Side : Type 0 where
  less equal greater : Side

-- The closure of `entry_at`.
unfoldable pub side : ℕ → MapEntry → Side
unfolding end
side offset e = if leb (end e) offset then less else if ltb offset e.offset then greater else equal

-- The index that a round goes on from: `base`, or `mid` unless the entry there is `greater`.
unfoldable pub next_base : List MapEntry → ℕ → ℕ → ℕ → ℕ
next_base es offset base mid = elim (get_elem? es mid) [
  | none ↦ base
  | some e ↦ elim (side offset e) [ greater ↦ base | _ ↦ mid ]
]

-- `while size > 1 { … }`
unfoldable pub search_loop : ℕ → List MapEntry → ℕ → ℕ → ℕ → ℕ
unfolding next_base
search_loop zero es offset size base = base
search_loop (suc fuel) es offset size base =
    let rest =
      search_loop fuel es offset (size - size / 2) (next_base es offset base (base + size / 2)) in
    if ltb 1 size then rest else base

-- `entries.binary_search_by(…).ok().and_then(|index| entries.get(index))`. As many rounds as there
-- are entries are enough.
unfoldable pub binary_search : List MapEntry → ℕ → Option MapEntry
unfolding search_loop side
binary_search es offset = elim (get_elem? es (search_loop (length es) es offset (length es) 0)) [
  | none ↦ none
  | some e ↦ elim (side offset e) [ equal ↦ some e | _ ↦ none ]
]

-- `Map::entry_at`
unfoldable pub entry_at : Map → ℕ → Option MapEntry
unfolding binary_search
entry_at m offset = binary_search m.entries offset
