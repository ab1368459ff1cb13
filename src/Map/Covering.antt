-- ===== src/Map/Covering.antt =====
-- aff4tools: src/map.rs, what `resolve_coverage` computes: the loop's holes are those of the chain.
use aff4tools.Prelude.{
  ℕ, ◌+◌, ◌-◌, ◌≤◌, ◌<◌, ◌≡◌, refl, sym, ap, ◌∙◌, ◌⊎◌, inl, inr, Bool, none, some, List, [], ◌∷◌,
  ◌++◌, append-nil, append_assoc, arith, ltb, if◌then◌else◌, length, length-append, All, sat_add,
  checked_add, u64_max, Bool-cases,
}
use mathlib.Core.Path.{ap₂}
use aff4tools.Prelude.Results.{ok, ◌>>=◌, >>=-eq-ok, ok-injective}
use aff4tools.Map.{Target, MapEntry, filling}
use aff4tools.Map.Coverage.{Cover, uncovered, fill_hole, reach, advance, cover_entries, cover_tail}
use aff4tools.Map.Tiling.{Chain, hole, holes, total_length, total_length-append}

-- The state of the gap target: not yet listed, or listed behind the `ts` of the `idx` segment.
abbrev pub GapState : List Target → Target → Cover → Type 0
GapState ts g c =
    ((c.gap_target_id ≡ none) × (c.targets ≡ ts) × (c.filled ≡ []))
    ⊎ ((c.gap_target_id ≡ some (length ts)) × (c.targets ≡ ts ++ g ∷ []))

-- What holds between the rounds of the loop.
pub record IsCovered (ts : List Target) (g : Target) (c : Cover) : Type 0 where
  pub gap_state : GapState ts g c
  pub level : c.covered ≡ c.previous_end
  pub fits : c.previous_end ≤ u64_max
  pub bytes_fit : c.gaps.bytes ≤ c.previous_end
  pub bytes : c.gaps.bytes ≡ total_length c.filled
  pub count : c.gaps.count ≡ length c.filled

pub advance_lem :
    (position : ℕ) (e : MapEntry) (c1 c' : Cover)
    → advance position e c1 ≡ ok c'
    → (e.offset + e.length ≤ u64_max)
      × (c'.previous_end ≡ e.offset + e.length)
      × (c'.covered ≡ c1.covered + e.length)
      × (c'.filled ≡ c1.filled)
      × (c'.gaps ≡ c1.gaps)
      × (c'.targets ≡ c1.targets)
      × (c'.gap_target_id ≡ c1.gap_target_id)
unfolding advance checked_add
advance_lem position e c1 c' h = ground arith

module _ (ts : List Target) (g : Target) (d : Bool) where
  abbrev Filled : ℕ → Cover → Cover → Type 0
  Filled stop c c' =
      (c'.filled ≡ c.filled ++ hole (length ts) c.previous_end stop ∷ [])
      × (c'.gap_target_id ≡ some (length ts))
      × (c'.targets ≡ ts ++ g ∷ [])
      × (c'.covered ≡ c.covered + (stop - c.previous_end))
      × (c'.previous_end ≡ c.previous_end)
      × (c'.gaps.bytes ≡ c.gaps.bytes + (stop - c.previous_end))
      × (c'.gaps.count ≡ c.gaps.count + 1)

  fill_hole_lem :
      (stop : ℕ) (c c' : Cover)
      → IsCovered ts g c
      → c.previous_end ≤ stop
      → stop ≤ u64_max
      → fill_hole g d stop c ≡ ok c'
      → Filled stop c c'
  unfolding fill_hole sat_add
  fill_hole_lem stop c c' v le fits h = ground arith

  fill_hole-IsCovered :
      (stop : ℕ) (c c' : Cover)
      → IsCovered ts g c
      → c.previous_end ≤ stop
      → Filled stop c c'
      → record {
        gap_state : GapState ts g c';
        level : c'.covered ≡ stop;
        bytes_fit : c'.gaps.bytes ≤ stop;
        bytes : c'.gaps.bytes ≡ total_length c'.filled;
        count : c'.gaps.count ≡ length c'.filled;
      }
  fill_hole-IsCovered stop c c' v le f = record {
    gap_state = inr (f.1, f.2);
    level = omega (arith, v.level);
    bytes_fit = omega (arith, v.bytes_fit);
    bytes = omega (
      arith,
      v.bytes,
      ap total_length f.0,
      total_length-append c.filled (hole (length ts) c.previous_end stop ∷ []),
    );
    count = omega (
      arith,
      v.count,
      ap length f.0,
      length-append c.filled (hole (length ts) c.previous_end stop ∷ []),
    );
  }

  -- What one round appends.
  abbrev front_hole : ℕ → MapEntry → List MapEntry
  front_hole start e = if ltb start e.offset then hole (length ts) start e.offset ∷ [] else []

  -- The state at the entry's offset, the hole in front of it filled.
  abbrev Reached : MapEntry → Cover → Cover → Type 0
  Reached e c c1 =
      GapState ts g c1
      × (c1.covered ≡ e.offset)
      × (c1.gaps.bytes ≤ e.offset)
      × (c1.gaps.bytes ≡ total_length c1.filled)
      × (c1.gaps.count ≡ length c1.filled)
      × (c1.filled ≡ c.filled ++ front_hole c.previous_end e)
      × (c.previous_end ≤ e.offset)

  reach_lem :
      (position : ℕ) (e : MapEntry) (c c1 : Cover)
      → IsCovered ts g c
      → e.offset ≤ u64_max
      → reach (filling g d) position e c ≡ ok c1
      → Reached e c c1
  unfolding reach
  reach_lem position e c c1 v fits h = elim (Bool-cases (ltb c.previous_end e.offset)) [
    | inl p ↦
        let le : c.previous_end ≤ e.offset = ground arith in
        let f = fill_hole_lem e.offset c c1 v le fits (unfold fill_hole in ground arith) in
        let w = fill_hole-IsCovered e.offset c c1 v le f in
        (w.gap_state, w.level, w.bytes_fit, w.bytes, w.count, rw p (f.0), le)
    | inr p ↦
        let eq : e.offset ≡ c.previous_end = ground arith in
        let same : c1 ≡ c = ground arith in
        rw (same, p)
          (
            v.gap_state,
            omega (arith, v.level),
            omega (arith, v.bytes_fit),
            v.bytes,
            v.count,
            sym (append-nil c.filled),
            omega arith,
          )
  ]

  round :
      (position : ℕ) (e : MapEntry) (c c' : Cover)
      → IsCovered ts g c
      → (reach (filling g d) position e c >>= advance position e) ≡ ok c'
      → IsCovered ts g c'
        × (c'.filled ≡ c.filled ++ front_hole c.previous_end e)
        × (c.previous_end ≤ e.offset)
        × (c'.previous_end ≡ e.offset + e.length)
  round position e c c' v h =
      let (c1, reached, advanced) =
        >>=-eq-ok (reach (filling g d) position e c) (advance position e) h in
      let a = advance_lem position e c1 c' advanced in
      let r = reach_lem position e c c1 v (omega (arith, a.0)) reached in
      (
        record {
          gap_state = rw (a.6, a.5, a.3) r.0;
          level = omega (arith, a.1, a.2, r.1);
          fits = omega (arith, a.0, a.1);
          bytes_fit = rw (a.4, a.1) (omega (arith, r.2));
          bytes = rw (a.4, a.3) r.3;
          count = rw (a.4, a.3) r.4;
        },
        a.3 ∙ r.5,
        r.6,
        a.1,
      )

  regroup :
      (start : ℕ) (e : MapEntry) (before hs : List MapEntry)
      → (before ++ front_hole start e) ++ hs
        ≡ before ++ (if ltb start e.offset then hole (length ts) start e.offset ∷ hs else hs)
  regroup start e before hs = elim (Bool-cases (ltb start e.offset)) [
    | inl p ↦ rw p (append_assoc before (hole (length ts) start e.offset ∷ []) hs)
    | inr p ↦ rw (p, append-nil before)
  ]

  -- The loop: its entries are a chain, and it fills the holes of that chain.
  pub cover_entries_lem :
      (position : ℕ) (es : List MapEntry) (c c' : Cover)
      → All (λ (e : MapEntry). 0 < e.length) es
      → IsCovered ts g c
      → cover_entries (filling g d) position es c ≡ ok c'
      → IsCovered ts g c'
        × (c'.filled ≡ c.filled ++ holes (length ts) c.previous_end es)
        × Chain c.previous_end es c'.previous_end
  unfolding cover_entries holes
  cover_entries_lem position [] c c' all v h =
      let same : c' ≡ c = ground arith in rw same (v, sym (append-nil c.filled), refl)
  cover_entries_lem position (e ∷ es) c c' all v h =
      let (c1, first, rest) =
        >>=-eq-ok (reach (filling g d) position e c >>= advance position e)
          (cover_entries (filling g d) (position + 1) es) h in
      let r = round position e c c1 v first in
      let ih = cover_entries_lem (position + 1) es c1 c' all.1 r.0 rest in
      (
        ih.0,
        ih.1
            ∙ ap₂ (λ (a : List MapEntry) (b : ℕ). a ++ holes (length ts) b es) r.1 r.3
            ∙ regroup c.previous_end e c.filled (holes (length ts) (e.offset + e.length) es),
        (r.2, all.0, rw r.3 at ih.2),
      )

  abbrev pub tail_hole : ℕ → ℕ → List MapEntry
  tail_hole start stop = if ltb start stop then hole (length ts) start stop ∷ [] else []

  -- What is true of the state that `resolve_coverage` ends with, its entries being `es`.
  pub record Resolved (es : List MapEntry) (size : ℕ) (c : Cover) : Type 0 where
    pub last : ℕ
    pub chain : Chain 0 es last
    pub reached : c.covered ≡ (if ltb last size then size else last)
    pub filled : c.filled ≡ holes (length ts) 0 es ++ tail_hole last size
    pub gap_state : GapState ts g c
    pub bytes : c.gaps.bytes ≡ total_length c.filled
    pub count : c.gaps.count ≡ length c.filled

  start-IsCovered : IsCovered ts g (uncovered ts)
  start-IsCovered = record {
    gap_state = inl (refl, refl, refl);
    level = refl;
    fits = omega arith;
    bytes_fit = omega arith;
    bytes = refl;
    count = refl;
  }

  pub resolved :
      (es : List MapEntry) (size : ℕ) (c : Cover)
      → All (λ (e : MapEntry). 0 < e.length) es
      → size ≤ u64_max
      → (cover_entries (filling g d) 0 es (uncovered ts) >>= cover_tail (filling g d) size) ≡ ok c
      → Resolved es size c
  unfolding cover_tail
  resolved es size c all fits h =
      let (c1, looped, tailed) =
        >>=-eq-ok (cover_entries (filling g d) 0 es (uncovered ts)) (cover_tail (filling g d) size)
          h in
      let (v, filled, chain) =
        cover_entries_lem 0 es (uncovered ts) c1 all start-IsCovered looped in
      elim (Bool-cases (ltb c1.previous_end size)) [
        | inl p ↦
            let le : c1.previous_end ≤ size = ground arith in
            let f = fill_hole_lem size c1 c v le fits (rw p at tailed) in
            let w = fill_hole-IsCovered size c1 c v le f in
            record {
              last = c1.previous_end;
              chain = chain;
              reached = rw p w.level;
              filled =
                  rw p (f.0 ∙ ap (λ t. t ++ hole (length ts) c1.previous_end size ∷ []) filled);
              gap_state = w.gap_state;
              bytes = w.bytes;
              count = w.count;
            }
        | inr p ↦
            let same : c ≡ c1 = sym (ok-injective (rw p at tailed)) in
            rw same (record {
              last = c1.previous_end;
              chain = chain;
              reached = rw p v.level;
              filled = rw p (filled ∙ sym (append-nil (holes (length ts) 0 es)));
              gap_state = v.gap_state;
              bytes = v.bytes;
              count = v.count;
            })
      ]
