-- ===== src/Map/Lookup/Search.antt =====
-- The binary search of `Map::entry_at` against a scan from the front.
use aff4tools.Prelude.{
  ℕ, zero, suc, ◌+◌, ◌-◌, ◌/◌, ◌≤◌, ◌<◌, ◌≡◌, refl, ◌⊎◌, inl, inr, Option, none, some, List, [],
  ◌∷◌, arith, ltb, leb, ◌==◌, if◌then◌else◌, length, get_elem?, get_elem?-some, ◌∙◌, u64_max,
  sat_add, Bool-cases, Option-cases, ltb→lt,
}
use aff4tools.Map.{MapEntry, end, Map}
use aff4tools.Map.Tiling.{Tiles, Chain-le, Tiles-Chain}
use aff4tools.Map.WellFormed.{IsWellFormed}
use aff4tools.Map.Lookup.{
  Side, less, equal, greater, side, next_base, search_loop, binary_search, entry_at,
}

-- The first entry that ends behind the offset, and its index.
abbrev pub scan : List MapEntry → ℕ → Option MapEntry
scan [] offset = none
scan (e ∷ es) offset =
    let rest = scan es offset in if ltb offset (e.offset + e.length) then some e else rest

abbrev scan_index : List MapEntry → ℕ → ℕ
scan_index [] offset = 0
scan_index (e ∷ es) offset =
    let rest = scan_index es offset in if ltb offset (e.offset + e.length) then 0 else suc rest

abbrev side_of : ℕ → ℕ → Side
side_of i k = if ltb i k then less else if i == k then equal else greater

-- An entry of a tiling that begins behind the offset is `greater`.
later :
    (start : ℕ) (es : List MapEntry) (stop offset i : ℕ) (e : MapEntry)
    → Tiles start es stop
    → stop ≤ u64_max
    → offset < start
    → get_elem? es i ≡ some e
    → side offset e ≡ greater
unfolding side end sat_add
later start [] stop offset i e t small lt h = cc
later start (x ∷ es) stop offset zero e t small lt h =
    let bound =
      Chain-le (x.offset + x.length) es stop (Tiles-Chain (x.offset + x.length) es stop t.2) in
    let same : x ≡ e = ground arith in rw (← same) (ground arith)
later start (x ∷ es) stop offset (suc i) e t small lt h =
    later (x.offset + x.length) es stop offset i e t.2 small (omega arith) h

behind_zero : (i : ℕ) → greater ≡ side_of (suc i) 0
behind_zero i = ground arith

shift : {s : Side} (i k : ℕ) → s ≡ side_of i k → s ≡ side_of (suc i) (suc k)
shift i k h = ground arith

-- Where an index of a tiling lies against the index that the scan finds.
side-scan_index :
    (start : ℕ) (es : List MapEntry) (stop offset i : ℕ) (e : MapEntry)
    → Tiles start es stop
    → stop ≤ u64_max
    → start ≤ offset
    → get_elem? es i ≡ some e
    → side offset e ≡ side_of i (scan_index es offset)
unfolding side end sat_add
side-scan_index start [] stop offset i e t small le h = cc
side-scan_index start (x ∷ es) stop offset zero e t small le h =
    let bound =
      Chain-le (x.offset + x.length) es stop (Tiles-Chain (x.offset + x.length) es stop t.2) in
    let same : x ≡ e = ground arith in rw (← same) (ground arith)
side-scan_index start (x ∷ es) stop offset (suc i) e t small le h =
    elim (Bool-cases (ltb offset (x.offset + x.length))) [
      | inl p ↦ rw p (
          later (x.offset + x.length) es stop offset i e t.2 small (ltb→lt offset _ p) h
          ∙ behind_zero i)
      | inr p ↦ rw p (
          shift i (scan_index es offset)
            (side-scan_index (x.offset + x.length) es stop offset i e t.2 small (ground arith) h))
    ]

module _ (es : List MapEntry) (stop offset : ℕ) (tiles : Tiles 0 es stop)
    (small : stop ≤ u64_max) where
  abbrev index : ℕ
  index = scan_index es offset

  next_base_lem :
      (base mid : ℕ)
      → mid < length es
      → next_base es offset base mid ≡ (if leb mid index then mid else base)
  unfolding next_base
  next_base_lem base mid h =
      let (e, found) = get_elem?-some es mid h in
      ground (arith, found, side-scan_index 0 es stop offset mid e tiles small (omega arith) found)

  -- A round keeps the index of the scan between `base` and `base + size`.
  search_loop_lem :
      (fuel size base : ℕ)
      → size ≤ fuel
      → base + size ≤ length es
      → base ≤ index
      → index < base + size
      → search_loop fuel es offset size base ≡ index
  unfolding search_loop
  search_loop_lem zero size base enough fits lo hi = absurd (omega arith)
  search_loop_lem (suc fuel) size base enough fits lo hi = elim (Bool-cases (ltb 1 size)) [
    | inr one ↦ rw one (ground arith)
    | inl more ↦
        let mid : ℕ = base + size / 2 in
        rw (more, next_base_lem base mid (ground arith))
          (elim (Bool-cases (leb mid index)) [
            | inl up ↦ rw up (
                search_loop_lem fuel (size - size / 2) mid (ground arith) (ground arith)
                  (ground arith) (ground arith))
            | inr down ↦ rw down (
                search_loop_lem fuel (size - size / 2) base (ground arith) (ground arith) lo
                  (ground arith))
          ])
  ]

-- An offset below the end of a tiling lies in the entry that the scan finds.
pub scan-covers :
    (start : ℕ) (es : List MapEntry) (stop offset : ℕ)
    → Tiles start es stop
    → start ≤ offset
    → offset < stop
    → (e : MapEntry) × (scan es offset ≡ some e)
      × (get_elem? es (scan_index es offset) ≡ some e)
      × (e.offset ≤ offset)
      × (offset < e.offset + e.length)
scan-covers start [] stop offset t lo hi = absurd (omega arith)
scan-covers start (x ∷ es) stop offset t lo hi =
    elim (Bool-cases (ltb offset (x.offset + x.length))) [
      | inl p ↦ rw p (x, refl, refl, omega arith, ltb→lt offset _ p)
      | inr p ↦ rw p (scan-covers (x.offset + x.length) es stop offset t.2 (ground arith) hi)
    ]

pub scan-none :
    (start : ℕ) (es : List MapEntry) (stop offset : ℕ)
    → Tiles start es stop
    → stop ≤ offset
    → scan es offset ≡ none
scan-none start [] stop offset t h = refl
scan-none start (x ∷ es) stop offset t h =
    let bound =
      Chain-le (x.offset + x.length) es stop (Tiles-Chain (x.offset + x.length) es stop t.2) in
    ground (arith, scan-none (x.offset + x.length) es stop offset t.2 h)

scan_index-lt :
    (start : ℕ) (es : List MapEntry) (stop offset : ℕ)
    → Tiles start es stop
    → offset < stop
    → start ≤ offset
    → scan_index es offset < length es
scan_index-lt start [] stop offset t h lo = absurd (omega arith)
scan_index-lt start (x ∷ es) stop offset t h lo =
    ground (arith, scan_index-lt (x.offset + x.length) es stop offset t.2 h)

-- Past the end every entry is `less`.
all_less :
    (start : ℕ) (es : List MapEntry) (stop offset i : ℕ) (e : MapEntry)
    → Tiles start es stop
    → stop ≤ u64_max
    → stop ≤ offset
    → get_elem? es i ≡ some e
    → side offset e ≡ less
unfolding side end sat_add
all_less start [] stop offset i e t small le h = cc
all_less start (x ∷ es) stop offset zero e t small le h =
    let bound =
      Chain-le (x.offset + x.length) es stop (Tiles-Chain (x.offset + x.length) es stop t.2) in
    let same : x ≡ e = ground arith in rw (← same) (ground arith)
all_less start (x ∷ es) stop offset (suc i) e t small le h =
    all_less (x.offset + x.length) es stop offset i e t.2 small le h

binary_search-scan :
    (es : List MapEntry) (stop offset : ℕ)
    → Tiles 0 es stop
    → stop ≤ u64_max
    → binary_search es offset ≡ scan es offset
unfolding binary_search
binary_search-scan es stop offset tiles small = elim (Bool-cases (ltb offset stop)) [
  | inl p ↦
      let (e, found, at, from, to) =
        scan-covers 0 es stop offset tiles (omega arith) (ltb→lt offset stop p) in
      let below = scan_index-lt 0 es stop offset tiles (ltb→lt offset stop p) (omega arith) in
      let place =
        search_loop_lem es stop offset tiles small (length es) (length es) 0 (omega arith)
          (omega arith) (omega arith) (omega arith) in
      rw found (
        ground (
          arith,
          place,
          at,
          side-scan_index 0 es stop offset (scan_index es offset) e tiles small (omega arith) at,
        ))
  | inr p ↦
      rw (scan-none 0 es stop offset tiles (ground arith))
        (elim (Option-cases (get_elem? es (search_loop (length es) es offset (length es) 0))) [
          | inl none_there ↦ ground (arith, none_there)
          | inr (e, there) ↦
              ground (arith, there, all_less 0 es stop offset _ e tiles small (ground arith) there)
        ])
]

-- In a well-formed map the binary search of `Map::entry_at` finds what a scan from the front
-- finds.
pub entry_at-scan :
    (m : Map) (offset : ℕ) → IsWellFormed m → entry_at m offset ≡ scan m.entries offset
unfolding entry_at
entry_at-scan m offset v = binary_search-scan m.entries m.size offset v.tiles v.small

-- In a well-formed map `Map::entry_at` answers for every offset below the size, with an entry
-- that covers the offset, and for no other offset.
pub entry_at_covers :
    (m : Map) (offset : ℕ)
    → IsWellFormed m
    → ((offset < m.size)
        × (e : MapEntry) × (entry_at m offset ≡ some e)
        × (e.offset ≤ offset)
        × (offset < e.offset + e.length))
      ⊎ ((m.size ≤ offset) × (entry_at m offset ≡ none))
entry_at_covers m offset v = elim (Bool-cases (ltb offset m.size)) [
  | inl p ↦
      let lt : offset < m.size = ltb→lt offset m.size p in
      let (e, found, at, from, to) =
        scan-covers 0 m.entries m.size offset v.tiles (omega arith) lt in
      inl (lt, e, entry_at-scan m offset v ∙ found, from, to)
  | inr p ↦
      let le : m.size ≤ offset = ground arith in
      inr (le, entry_at-scan m offset v ∙ scan-none 0 m.entries m.size offset v.tiles le)
]
