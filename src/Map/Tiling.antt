-- ===== src/Map/Tiling.antt =====
-- The address space as an independent description: entries that tile a range, the holes that a
-- chain of entries leaves, and the chain with its holes filled in.
use aff4tools.Prelude.{
  ℕ, ◌+◌, ◌-◌, ◌≤◌, ◌<◌, ◌≡◌, refl, ap, true, false, List, [], ◌∷◌, ◌++◌, arith, ltb, if◌then◌else◌,
  All, ◌∙◌, Bool-cases, inl, inr, ltb→lt,
}
use native.Mathlib.Nat.{le_refl}
use aff4tools.Map.{MapEntry}
use aff4tools.Map.Sort.{
  Before, From, From-weaken, sort_by_offset, sort_by_offset_least, insert, insert_least,
}

-- The entries cover `start` to `stop`, each byte by exactly one entry, in order.
abbrev pub Tiles : ℕ → List MapEntry → ℕ → Type 0
Tiles start [] stop = start ≡ stop
Tiles start (e ∷ es) stop =
    (e.offset ≡ start) × (0 < e.length) × Tiles (e.offset + e.length) es stop

-- The entries follow one another from `start` on, without overlap, and the last ends at `stop`.
abbrev pub Chain : ℕ → List MapEntry → ℕ → Type 0
Chain start [] stop = start ≡ stop
Chain start (e ∷ es) stop =
    (start ≤ e.offset) × (0 < e.length) × Chain (e.offset + e.length) es stop

abbrev pub hole : ℕ → ℕ → ℕ → MapEntry
hole id start stop = record {
  offset = start;
  length = stop - start;
  target_offset = 0;
  target_id = id;
}

-- The holes in front of the entries of a chain, as entries of the target `id`.
unfoldable pub holes : ℕ → ℕ → List MapEntry → List MapEntry
holes id start [] = []
holes id start (e ∷ es) =
    let rest = holes id (e.offset + e.length) es in
    if ltb start e.offset then hole id start e.offset ∷ rest else rest

-- The chain with its holes filled in.
unfoldable pub woven : ℕ → ℕ → List MapEntry → List MapEntry
woven id start [] = []
woven id start (e ∷ es) =
    let rest = woven id (e.offset + e.length) es in
    if ltb start e.offset then hole id start e.offset ∷ e ∷ rest else e ∷ rest

abbrev pub total_length : List MapEntry → ℕ
total_length [] = 0
total_length (e ∷ es) = e.length + total_length es

pub Chain-le : (start : ℕ) (es : List MapEntry) (stop : ℕ) → Chain start es stop → start ≤ stop
Chain-le start [] stop h = omega arith
Chain-le start (e ∷ es) stop h = omega (arith, Chain-le (e.offset + e.length) es stop h.2)

pub Chain-From : (start : ℕ) (es : List MapEntry) (stop : ℕ) → Chain start es stop → From start es
Chain-From start [] stop h = tt
Chain-From start (e ∷ es) stop h = (
  h.0,
  From-weaken start (e.offset + e.length) es (omega arith)
      (Chain-From (e.offset + e.length) es stop h.2),
)

pub Tiles-Chain :
    (start : ℕ) (es : List MapEntry) (stop : ℕ) → Tiles start es stop → Chain start es stop
Tiles-Chain start [] stop h = h
Tiles-Chain start (e ∷ es) stop h =
    (omega arith, h.1, Tiles-Chain (e.offset + e.length) es stop h.2)

pub holes-From :
    (id start : ℕ) (es : List MapEntry) (stop : ℕ)
    → Chain start es stop
    → From start (holes id start es)
unfolding holes
holes-From id start [] stop h = tt
holes-From id start (e ∷ es) stop h = ground (
  arith,
  From-weaken start (e.offset + e.length) (holes id (e.offset + e.length) es),
  holes-From id (e.offset + e.length) es stop h.2,
)

ltb-pos : (a b : ℕ) → ltb a b ≡ true → 0 < b - a
ltb-pos a b h = ground arith

ltb-false : (a b : ℕ) → ltb a b ≡ false → a ≤ b → b ≡ a
ltb-false a b h k = ground arith

-- With the holes filled in the chain tiles its range.
pub woven-Tiles :
    (id start : ℕ) (es : List MapEntry) (stop : ℕ)
    → Chain start es stop
    → Tiles start (woven id start es) stop
unfolding woven
woven-Tiles id start [] stop h = h
woven-Tiles id start (e ∷ es) stop h =
    let rest = woven-Tiles id (e.offset + e.length) es stop h.2 in
    elim (Bool-cases (ltb start e.offset)) [
      | inl p ↦
          rw p (refl, ltb-pos start e.offset p, (omega (arith, ltb→lt start e.offset p), h.1, rest))
      | inr p ↦ rw p (ltb-false start e.offset p h.0, h.1, rest)
    ]

-- What is left behind an entry `e` of a chain begins behind `e`.
behind :
    (e : MapEntry) (xs : List MapEntry)
    → 0 < e.length
    → From (e.offset + e.length) xs
    → From e.offset xs
behind e xs h f = From-weaken e.offset (e.offset + e.length) xs (omega arith) f

-- Sorting the entries with the holes behind them puts each hole in its place.
pub sort-holes :
    (id start : ℕ) (es : List MapEntry) (stop : ℕ)
    → Chain start es stop
    → sort_by_offset (es ++ holes id start es) ≡ woven id start es
unfolding holes woven sort_by_offset
sort-holes id start [] stop h = refl
sort-holes id start (e ∷ es) stop h =
    let next : ℕ = e.offset + e.length in
    let ih : sort_by_offset (es ++ holes id next es) ≡ woven id next es =
      sort-holes id next es stop h.2 in
    let in_place : insert e (woven id next es) ≡ e ∷ woven id next es =
      insert_least e (woven id next es) (
        behind e (woven id next es) h.1 (
          Chain-From next (woven id next es) stop
            (Tiles-Chain next (woven id next es) stop (woven-Tiles id next es stop h.2)))) in
    elim (Bool-cases (ltb start e.offset)) [
      | inl p ↦ rw p (
          sort_by_offset_least (hole id start e.offset) e.offset (e ∷ es) (holes id next es)
            (ltb→lt start e.offset p)
            (le_refl e.offset, behind e es h.1 (Chain-From next es stop h.2))
            (behind e (holes id next es) h.1 (holes-From id next es stop h.2))
          ∙ ap (λ t. hole id start e.offset ∷ t) (ap (insert e) ih ∙ in_place))
      | inr p ↦ rw p (ap (insert e) ih ∙ in_place)
    ]

-- A chain with no hole is its own filling.
pub woven-Tiles_self :
    (id start : ℕ) (es : List MapEntry) (stop : ℕ)
    → Tiles start es stop
    → (woven id start es ≡ es) × (holes id start es ≡ [])
unfolding woven holes
woven-Tiles_self id start [] stop h = (refl, refl)
woven-Tiles_self id start (e ∷ es) stop h =
    ground (arith, woven-Tiles_self id (e.offset + e.length) es stop h.2)

-- The entries and the holes of a chain begin before its end.
pub Chain-Before :
    (id start : ℕ) (es : List MapEntry) (stop : ℕ)
    → Chain start es stop
    → Before stop es × Before stop (holes id start es)
unfolding holes
Chain-Before id start [] stop h = (tt, tt)
Chain-Before id start (e ∷ es) stop h =
    let rest = Chain-Before id (e.offset + e.length) es stop h.2 in
    let le : e.offset + e.length ≤ stop = Chain-le (e.offset + e.length) es stop h.2 in
    elim (Bool-cases (ltb start e.offset)) [
      | inl p ↦ rw p ((omega arith, rest.0), (omega arith, rest.1))
      | inr p ↦ rw p ((omega arith, rest.0), rest.1)
    ]

pub Tiles-append_last :
    (start : ℕ) (es : List MapEntry) (mid : ℕ) (e : MapEntry)
    → Tiles start es mid
    → e.offset ≡ mid
    → 0 < e.length
    → Tiles start (es ++ e ∷ []) (e.offset + e.length)
Tiles-append_last start [] mid e h p q = (omega arith, q, refl)
Tiles-append_last start (x ∷ es) mid e h p q =
    (h.0, h.1, Tiles-append_last (x.offset + x.length) es mid e h.2 p q)

-- All holes name the target `id`.
pub holes-target_id :
    (id start : ℕ) (es : List MapEntry)
    → All (λ (e : MapEntry). e.target_id ≡ id) (holes id start es)
unfolding holes
holes-target_id id start [] = tt
holes-target_id id start (e ∷ es) = elim (Bool-cases (ltb start e.offset)) [
  | inl p ↦ rw p (refl, holes-target_id id (e.offset + e.length) es)
  | inr p ↦ rw p (holes-target_id id (e.offset + e.length) es)
]

-- A chain with no hole is its own filling.
pub woven-eq_self :
    (id start : ℕ) (es : List MapEntry) → holes id start es ≡ [] → woven id start es ≡ es
unfolding holes woven
woven-eq_self id start [] h = refl
woven-eq_self id start (e ∷ es) h = elim (Bool-cases (ltb start e.offset)) [
  | inl p ↦ cc (rw p at h)
  | inr p ↦ rw p (ap (λ t. e ∷ t) (woven-eq_self id (e.offset + e.length) es (rw p at h)))
]

pub Tiles-total :
    (start : ℕ) (es : List MapEntry) (stop : ℕ)
    → Tiles start es stop
    → start + total_length es ≡ stop
Tiles-total start [] stop h = omega arith
Tiles-total start (e ∷ es) stop h = omega (arith, Tiles-total (e.offset + e.length) es stop h.2)

pub total_length-append :
    (xs ys : List MapEntry) → total_length (xs ++ ys) ≡ total_length xs + total_length ys
total_length-append [] ys = omega arith
total_length-append (x ∷ xs) ys = omega (arith, total_length-append xs ys)

-- The filled chain has the bytes of its entries and of its holes.
pub total_length-woven :
    (id start : ℕ) (es : List MapEntry)
    → total_length (woven id start es) ≡ total_length es + total_length (holes id start es)
unfolding woven holes
total_length-woven id start [] = refl
total_length-woven id start (e ∷ es) = elim (Bool-cases (ltb start e.offset)) [
  | inl p ↦ rw p (omega (arith, total_length-woven id (e.offset + e.length) es))
  | inr p ↦ rw p (omega (arith, total_length-woven id (e.offset + e.length) es))
]
