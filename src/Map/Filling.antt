-- ===== src/Map/Filling.antt =====
-- aff4tools: src/map.rs, the entries that `resolve_coverage` leaves where holes are filled.
use aff4tools.Prelude.{
  ℕ, ◌+◌, ◌-◌, ◌<◌, ◌≡◌, refl, sym, ap, ◌∙◌, inl, inr, Bool, List, [], ◌∷◌, ◌++◌, append-nil,
  append_assoc, arith, ltb, if◌then◌else◌, length, length-append, All, Bool-cases, ltb→lt,
}
use aff4tools.Map.{Target, MapEntry}
use aff4tools.Map.Sort.{
  sort_by_offset, sort_by_offset-All, sort_by_offset_last, All-append, Before-append,
}
use aff4tools.Map.Coverage.{Cover, merge_filled}
use aff4tools.Map.Covering.{Resolved, tail_hole}
use aff4tools.Map.Tiling.{
  Tiles, Chain, hole, holes, woven, woven-Tiles, sort-holes, Chain-Before, Tiles-append_last,
  holes-target_id, woven-eq_self,
}
use aff4tools.Map.WellFormed.{IsSound, All-map}

merge_filled_last :
    (es fs : List MapEntry) (t : MapEntry)
    → merge_filled es (fs ++ t ∷ []) ≡ sort_by_offset (es ++ (fs ++ t ∷ []))
unfolding merge_filled
merge_filled_last es [] t = refl
merge_filled_last es (f ∷ fs) t = refl

merge_filled-eq_sort :
    (es fs : List MapEntry)
    → (fs ≡ [] → sort_by_offset (es ++ fs) ≡ es)
    → merge_filled es fs ≡ sort_by_offset (es ++ fs)
unfolding merge_filled
merge_filled-eq_sort es [] h = sym (h refl)
merge_filled-eq_sort es (f ∷ fs) h = refl

-- Merging the filled holes puts each in its place.
pub merge_filled_lem :
    (id : ℕ) (es : List MapEntry) (last size : ℕ)
    → Chain 0 es last
    → merge_filled es (holes id 0 es ++ (if ltb last size then hole id last size ∷ [] else []))
      ≡ woven id 0 es ++ (if ltb last size then hole id last size ∷ [] else [])
merge_filled_lem id es last size h =
    let sorted : sort_by_offset (es ++ holes id 0 es) ≡ woven id 0 es = sort-holes id 0 es last h in
    elim (Bool-cases (ltb last size)) [
      | inl p ↦
          let before = Chain-Before id 0 es last h in
          rw p (
            merge_filled_last es (holes id 0 es) (hole id last size)
            ∙ ap sort_by_offset (sym (append_assoc es (holes id 0 es) (hole id last size ∷ [])))
            ∙ sort_by_offset_last (hole id last size) (es ++ holes id 0 es)
                (Before-append last es (holes id 0 es) before.0 before.1)
            ∙ ap (λ t. t ++ hole id last size ∷ []) sorted)
      | inr p ↦
          rw (p, append-nil (holes id 0 es), append-nil (woven id 0 es))
            (merge_filled-eq_sort es (holes id 0 es) (λ none. sorted ∙ woven-eq_self id 0 es none)
              ∙ sorted)
    ]

merge_filled-All :
    (P : MapEntry → Type 0) (es fs : List MapEntry)
    → All P es
    → All P fs
    → All P (merge_filled es fs)
unfolding merge_filled
merge_filled-All P es [] he hf = he
merge_filled-All P es (f ∷ fs) he hf =
    sort_by_offset-All P (es ++ f ∷ fs) (All-append P es (f ∷ fs) he hf)

module _ (ts : List Target) (g : Target) (d : Bool) where
  -- The last byte that the entries and the tail reach is the declared size.
  pub filled-Tiles :
      (es : List MapEntry) (size : ℕ) (c : Cover)
      → Resolved ts g d es size c
      → c.covered ≡ size
      → Tiles 0 (merge_filled es c.filled) size
  filled-Tiles es size c r eq =
      rw (r.filled, merge_filled_lem (length ts) es r.last size r.chain)
        (elim (Bool-cases (ltb r.last size)) [
          | inl p ↦
              let lt : r.last < size = ltb→lt r.last size p in
              let all : r.last + (size - r.last) ≡ size = omega arith in
              rw p (
                rw all at (
                  Tiles-append_last 0 (woven (length ts) 0 es) r.last (hole (length ts) r.last size)
                    (woven-Tiles (length ts) 0 es r.last r.chain) refl (omega arith)))
          | inr p ↦
              let all : r.last ≡ size = sym (rw p at r.reached) ∙ eq in
              rw (p, append-nil (woven (length ts) 0 es), ← all)
                (woven-Tiles (length ts) 0 es r.last r.chain)
        ])

  tail-listed :
      (c : Cover) (last size : ℕ)
      → length c.targets ≡ length ts + 1
      → All (λ (e : MapEntry). e.target_id < length c.targets) (tail_hole ts g d last size)
  tail-listed c last size h = elim (Bool-cases (ltb last size)) [
    | inl p ↦ rw p (omega arith, tt)
    | inr p ↦ rw p tt
  ]

  pub filled-listed :
      (es : List MapEntry) (size : ℕ) (c : Cover)
      → All (IsSound (length ts)) es
      → Resolved ts g d es size c
      → All (λ (e : MapEntry). e.target_id < length c.targets) (merge_filled es c.filled)
  unfolding merge_filled
  filled-listed es size c all r = elim r.gap_state [
    | inl (unlisted, same, empty) ↦
        rw (empty, same)
          (All-map (IsSound (length ts)) (λ e. e.target_id < length ts) (λ e s. s.1) es all)
    | inr (listed, more) ↦
        let one_more : length c.targets ≡ length ts + 1 =
          omega (arith, ap length more, length-append ts (g ∷ [])) in
        merge_filled-All (λ e. e.target_id < length c.targets) es c.filled
          (All-map (IsSound (length ts)) (λ e. e.target_id < length c.targets)
            (λ e s. omega (arith, s.1, one_more)) es all)
          (rw r.filled (
            All-append (λ e. e.target_id < length c.targets) (holes (length ts) 0 es)
              (tail_hole ts g d r.last size)
              (All-map (λ (e : MapEntry). e.target_id ≡ length ts)
                (λ e. e.target_id < length c.targets) (λ e s. omega (arith, s, one_more))
                (holes (length ts) 0 es) (holes-target_id (length ts) 0 es))
              (tail-listed c r.last size one_more)))
  ]
