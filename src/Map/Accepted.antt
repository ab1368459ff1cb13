-- ===== src/Map/Accepted.antt =====
-- aff4tools: src/map.rs, what `Map::parse_with` and `Map::parse` accept, and what they build.
use aff4tools.Prelude.{
  ℕ, ◌+◌, ◌≤◌, ◌<◌, ◌≡◌, ◌↔◌, refl, sym, ap, ◌∙◌, inl, inr, Bool, false, none, List, [], ◌∷◌, ◌++◌,
  arith, ltb, ◌==◌, if◌then◌else◌, length, length-append, All, u64_max, Bool-cases, ==_iff,
}
use aff4tools.Prelude.Results.{ok, err, ◌>>=◌, >>=-eq-ok, ok-injective}
use aff4tools.Arn.{Arn}
use aff4tools.Map.{Target, MapEntry, GapPolicy, refuse, filling, Map, no_gaps, bad_coverage}
use aff4tools.Map.Sort.{sort_by_offset, sort_by_offset-All}
use aff4tools.Map.Decode.{parse_targets, parse_entries}
use aff4tools.Map.Coverage.{
  Cover, uncovered, cover_entries, cover_tail, merge_filled, resolve_coverage,
}
use aff4tools.Map.Covering.{resolved}
use aff4tools.Map.Tiling.{
  Tiles, Chain, hole, holes, woven, total_length, total_length-append, total_length-woven,
  Tiles-total,
}
use aff4tools.Map.Parse.{check_entries, assemble, check_and_assemble, parse_with, parse}
use aff4tools.Map.WellFormed.{IsWellFormed, IsSound, check_entries-ok, ok-check_entries, All-map}
use aff4tools.Map.Filling.{merge_filled_lem, filled-Tiles, filled-listed}
use aff4tools.Map.Refusing.{refuse_entries, refuse_entries_ok}

-- The map that `Map::parse` builds where it accepts.
abbrev pub plain : Arn → List MapEntry → List Target → ℕ → Map
plain arn entries targets size = record {
  arn = arn;
  entries = entries;
  targets = targets;
  size = size;
  gaps = no_gaps;
  gap_target_id = none;
}

abbrev result_map : Arn → ℕ → List MapEntry × Cover → Map
result_map arn size p = record {
  arn = arn;
  entries = p.0;
  targets = p.1.targets;
  size = size;
  gaps = p.1.gaps;
  gap_target_id = p.1.gap_target_id;
}

-- What a successful `assemble` went through.
assemble-inv :
    (arn : Arn) (es : List MapEntry) (ts : List Target) (size : ℕ) (policy : GapPolicy) (m : Map)
    → assemble arn es ts size policy ≡ ok m
    → (c : Cover) × ((cover_entries policy 0 (sort_by_offset es) (uncovered ts)
          >>= cover_tail policy size)
        ≡ ok c)
      × (c.covered ≡ size)
      × (m ≡ result_map arn size (merge_filled (sort_by_offset es) c.filled, c))
unfolding assemble resolve_coverage
assemble-inv arn es ts size policy m h =
    let (p, covered, built) =
      >>=-eq-ok (resolve_coverage (sort_by_offset es) ts size policy)
        (λ (q : List MapEntry × Cover).
          if q.1.covered == size
          then ok (result_map arn size q)
          else err (bad_coverage q.1.covered size))
        h in
    let (c, looped, merged) =
      >>=-eq-ok
        (cover_entries policy 0 (sort_by_offset es) (uncovered ts) >>= cover_tail policy size)
        (λ (q : Cover). ok (merge_filled (sort_by_offset es) q.filled, q)) covered in
    let pair : (merge_filled (sort_by_offset es) c.filled, c) ≡ p = ok-injective merged in
    elim (Bool-cases (p.1.covered == size)) [
      | inl e ↦ (
        c,
        looped,
        ap (λ (q : List MapEntry × Cover). q.1.covered) pair ∙ (==_iff p.1.covered size).0 e,
        sym (ok-injective (rw e at built)) ∙ ap (result_map arn size) (sym pair),
      )
      | inr e ↦ cc (rw e at built)
    ]

assemble-refuse :
    (arn : Arn) (es : List MapEntry) (ts : List Target) (size : ℕ) (m : Map)
    → All (λ (e : MapEntry). 0 < e.length) (sort_by_offset es)
    → assemble arn es ts size refuse ≡ ok m
    → Tiles 0 (sort_by_offset es) size × (m ≡ plain arn (sort_by_offset es) ts size)
unfolding cover_tail merge_filled
assemble-refuse arn es ts size m all h =
    let (c, run, level, built) = assemble-inv arn es ts size refuse m h in
    let (c1, looped, tailed) =
      >>=-eq-ok (cover_entries refuse 0 (sort_by_offset es) (uncovered ts)) (cover_tail refuse size)
        run in
    let same : c ≡ c1 = sym (ok-injective tailed) in
    let (tiles, form) = refuse_entries 0 (sort_by_offset es) (uncovered ts) c1 all refl looped in
    let stop : c1.previous_end ≡ size =
      sym (ap (λ (x : Cover). x.covered) form) ∙ ap (λ (x : Cover). x.covered) (sym same) ∙ level in
    (
      rw stop at tiles,
      built
          ∙ ap (λ (x : Cover). result_map arn size (merge_filled (sort_by_offset es) x.filled, x))
              (same ∙ form),
    )

assemble-refuse_ok :
    (arn : Arn) (es : List MapEntry) (ts : List Target) (size : ℕ)
    → All (λ (e : MapEntry). e.offset + e.length ≤ u64_max) (sort_by_offset es)
    → Tiles 0 (sort_by_offset es) size
    → assemble arn es ts size refuse ≡ ok (plain arn (sort_by_offset es) ts size)
unfolding assemble resolve_coverage cover_tail merge_filled
assemble-refuse_ok arn es ts size all t =
    rw (refuse_entries_ok 0 (sort_by_offset es) (uncovered ts) size refl all t) (ground arith)

Sound-positive :
    (n : ℕ) (es : List MapEntry) → All (IsSound n) es → All (λ (e : MapEntry). 0 < e.length) es
Sound-positive n = All-map (IsSound n) (λ e. 0 < e.length) (λ e s. s.0)

Sound-fits :
    (n : ℕ) (es : List MapEntry)
    → All (IsSound n) es
    → All (λ (e : MapEntry). e.offset + e.length ≤ u64_max) es
Sound-fits n = All-map (IsSound n) (λ e. e.offset + e.length ≤ u64_max) (λ e s. s.2)

Sound-listed :
    (n : ℕ) (es : List MapEntry) → All (IsSound n) es → All (λ (e : MapEntry). e.target_id < n) es
Sound-listed n = All-map (IsSound n) (λ e. e.target_id < n) (λ e s. s.1)

-- What a successful `parse_with` went through.
parse_with-inv :
    (arn : Arn) (map_bytes idx_bytes : List ℕ) (size : ℕ) (policy : GapPolicy) (m : Map)
    → parse_with arn map_bytes idx_bytes size policy ≡ ok m
    → (es : List MapEntry) × (parse_entries map_bytes ≡ ok es)
      × ((length (parse_targets idx_bytes) == 0) ≡ false)
      × ((length es == 0) ≡ false)
      × All (IsSound (length (parse_targets idx_bytes))) es
      × (assemble arn es (parse_targets idx_bytes) size policy ≡ ok m)
unfolding parse_with check_and_assemble
parse_with-inv arn map_bytes idx_bytes size policy m h =
    let ts = parse_targets idx_bytes in
    elim (Bool-cases (length ts == 0)) [
      | inl e ↦ cc (rw e at h)
      | inr e ↦
          let (es, decoded, rest) =
            >>=-eq-ok (parse_entries map_bytes) (check_and_assemble arn ts size policy)
              (rw e at h) in
          elim (Bool-cases (length es == 0)) [
            | inl z ↦ cc (rw z at rest)
            | inr z ↦
                let (u, checked, built) =
                  >>=-eq-ok (check_entries (length ts) 0 es)
                    (λ (_ : Unit {0}). assemble arn es ts size policy) (rw z at rest) in
                (es, decoded, e, z, check_entries-ok (length ts) 0 es checked, built)
          ]
    ]

assemble-filling :
    (arn : Arn) (es : List MapEntry) (ts : List Target) (size : ℕ) (g : Target) (d : Bool) (m : Map)
    → All (IsSound (length ts)) es
    → size ≤ u64_max
    → assemble arn es ts size (filling g d) ≡ ok m
    → IsWellFormed m × (m.size ≡ size)
assemble-filling arn es ts size g d m all small h =
    let (c, run, level, built) = assemble-inv arn es ts size (filling g d) m h in
    let sorted = sort_by_offset-All (IsSound (length ts)) es all in
    let r =
      resolved ts g d (sort_by_offset es) size c
        (Sound-positive (length ts) (sort_by_offset es) sorted) small run in
    rw built (
      record {
        tiles = filled-Tiles ts g d (sort_by_offset es) size c r level;
        listed = filled-listed ts g d (sort_by_offset es) size c sorted r;
        small = small;
      },
      refl,
    )

-- Every map that `Map::parse_with` accepts, under either gap policy and for a declared size that
-- is a u64, is well formed: its entries
-- tile the address space from 0 to the declared size, each byte covered once, and each entry
-- names a listed target. The declared size is that of the map.
pub parse_with-IsWellFormed :
    (arn : Arn) (map_bytes idx_bytes : List ℕ) (size : ℕ) (policy : GapPolicy) (m : Map)
    → size ≤ u64_max
    → parse_with arn map_bytes idx_bytes size policy ≡ ok m
    → IsWellFormed m × (m.size ≡ size)
parse_with-IsWellFormed arn map_bytes idx_bytes size (filling g d) m small h =
    let (es, decoded, t, z, all, built) =
      parse_with-inv arn map_bytes idx_bytes size (filling g d) m h in
    assemble-filling arn es (parse_targets idx_bytes) size g d m all small built
parse_with-IsWellFormed arn map_bytes idx_bytes size refuse m small h =
    let (es, decoded, t, z, all, built) = parse_with-inv arn map_bytes idx_bytes size refuse m h in
    let ts = parse_targets idx_bytes in
    let sorted = sort_by_offset-All (IsSound (length ts)) es all in
    let (tiles, form) =
      assemble-refuse arn es ts size m (Sound-positive (length ts) (sort_by_offset es) sorted)
        built in
    rw form (
      record {
        tiles = tiles;
        listed = Sound-listed (length ts) (sort_by_offset es) sorted;
        small = small;
      },
      refl,
    )

-- What `Map::parse` accepts, in terms of the decoded segments.
pub record IsAccepted (es : List MapEntry) (ts : List Target) (size : ℕ) : Type 0 where
  pub some_target : 0 < length ts
  pub some_entry : 0 < length es
  pub sound : All (IsSound (length ts)) es
  pub tiles : Tiles 0 (sort_by_offset es) size

zero_test : (n : ℕ) → 0 < n → (n == 0) ≡ false
zero_test n h = ground arith

-- Where the `map` segment decodes to the entries `es`, `Map::parse` succeeds exactly if there is a
-- target and an entry, each entry is sound, and the entries sorted by offset tile the address
-- space from 0 to the declared size; and the map then holds just those entries and targets.
pub parse_iff :
    (arn : Arn) (map_bytes idx_bytes : List ℕ) (size : ℕ) (es : List MapEntry) (m : Map)
    → parse_entries map_bytes ≡ ok es
    → (parse arn map_bytes idx_bytes size ≡ ok m) ↔ (
        IsAccepted es (parse_targets idx_bytes) size
        × (m ≡ plain arn (sort_by_offset es) (parse_targets idx_bytes) size))
unfolding parse
parse_iff arn map_bytes idx_bytes size es m decodes = (accepts, builds)
  where
    accepts :
        parse arn map_bytes idx_bytes size ≡ ok m
        → IsAccepted es (parse_targets idx_bytes) size
          × (m ≡ plain arn (sort_by_offset es) (parse_targets idx_bytes) size)
    accepts h =
        let (es', decoded, t, z, all, built) =
          parse_with-inv arn map_bytes idx_bytes size refuse m h in
        let same : es' ≡ es = ok-injective (sym decoded ∙ decodes) in
        let n : ℕ = length (parse_targets idx_bytes) in
        let sorted = sort_by_offset-All (IsSound n) es' all in
        let (tiles, form) =
          assemble-refuse arn es' (parse_targets idx_bytes) size m
            (Sound-positive n (sort_by_offset es') sorted) built in
        rw (← same) (
          record {
            some_target = ground arith;
            some_entry = ground arith;
            sound = all;
            tiles = tiles;
          },
          form,
        )

    builds :
        IsAccepted es (parse_targets idx_bytes) size
          × (m ≡ plain arn (sort_by_offset es) (parse_targets idx_bytes) size)
        → parse arn map_bytes idx_bytes size ≡ ok m
    builds (a, form) =
        let n : ℕ = length (parse_targets idx_bytes) in
        let fits = sort_by_offset-All (IsSound n) es a.sound in
        unfold parse_with check_and_assemble in
        rw
          (
            zero_test n a.some_target,
            decodes,
            zero_test (length es) a.some_entry,
            ok-check_entries n 0 es a.sound,
            assemble-refuse_ok arn es (parse_targets idx_bytes) size
                (Sound-fits n (sort_by_offset es) fits) a.tiles,
          )
          (ap (λ (x : Map). ok x) (sym form))

abbrev pub tail_of : ℕ → ℕ → ℕ → List MapEntry
tail_of id last size = if ltb last size then hole id last size ∷ [] else []

bytes_exact :
    (id : ℕ) (es : List MapEntry) (last size bytes : ℕ)
    → bytes ≡ total_length (holes id 0 es ++ tail_of id last size)
    → Tiles 0 (woven id 0 es ++ tail_of id last size) size
    → total_length es + bytes ≡ size
bytes_exact id es last size bytes h t = omega (
  arith,
  h,
  Tiles-total 0 (woven id 0 es ++ tail_of id last size) size t,
  total_length-append (woven id 0 es) (tail_of id last size),
  total_length-append (holes id 0 es) (tail_of id last size),
  total_length-woven id 0 es,
)

-- Where `Map::parse_with` accepts a map under `GapPolicy::Fill`, and the `map` segment decodes to
-- some entries and the declared size is a u64, the entries of the map are the decoded ones
-- in order with one more for each hole between them, and for a hole at the end; the gap summary
-- counts just these, and its bytes are those that no decoded entry covers.
pub parse_with-filling :
    (arn : Arn) (map_bytes idx_bytes : List ℕ) (size : ℕ) (g : Target) (d : Bool)
    (es : List MapEntry) (m : Map)
    → parse_entries map_bytes ≡ ok es
    → size ≤ u64_max
    → parse_with arn map_bytes idx_bytes size (filling g d) ≡ ok m
    → (last : ℕ) × Chain 0 (sort_by_offset es) last
      × (m.entries
          ≡ woven (length (parse_targets idx_bytes)) 0 (sort_by_offset es)
            ++ tail_of (length (parse_targets idx_bytes)) last size)
      × (m.gaps.count
          ≡ length (holes (length (parse_targets idx_bytes)) 0 (sort_by_offset es))
            + length (tail_of (length (parse_targets idx_bytes)) last size))
      × (total_length (sort_by_offset es) + m.gaps.bytes ≡ size)
parse_with-filling arn map_bytes idx_bytes size g d es m decodes small h =
    let (es', decoded, t, z, all, built) =
      parse_with-inv arn map_bytes idx_bytes size (filling g d) m h in
    let same : es' ≡ es = ok-injective (sym decoded ∙ decodes) in
    let ts = parse_targets idx_bytes in
    let sorted = sort_by_offset-All (IsSound (length ts)) es (rw same at all) in
    let (c, run, level, form) = assemble-inv arn es ts size (filling g d) m (rw same at built) in
    let r =
      resolved ts g d (sort_by_offset es) size c
        (Sound-positive (length ts) (sort_by_offset es) sorted) small run in
    rw form (
      r.last,
      r.chain,
      rw r.filled (merge_filled_lem (length ts) (sort_by_offset es) r.last size r.chain),
      r.count
          ∙ ap length r.filled
          ∙ length-append (holes (length ts) 0 (sort_by_offset es))
              (tail_of (length ts) r.last size),
      bytes_exact (length ts) (sort_by_offset es) r.last size c.gaps.bytes
          (r.bytes ∙ ap total_length r.filled)
          (rw (r.filled, merge_filled_lem (length ts) (sort_by_offset es) r.last size r.chain) at
            (filled-Tiles ts g d (sort_by_offset es) size c r level)),
    )
