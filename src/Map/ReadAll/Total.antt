-- ===== src/Map/ReadAll/Total.antt =====
-- `Map::read_all` succeeds on a well-formed map whose regions can be produced, with an accounting
-- of every byte.
use aff4tools.Prelude.{
  ℕ, ◌+◌, ◌-◌, ◌≤◌, ◌≡◌, refl, ap, ◌∙◌, Option, none, some, List, [], ◌∷◌, arith, ◌==◌,
  if◌then◌else◌, All, flatten, sat_add, u64_max, slice_of, ==_refl,
}
use aff4tools.Prelude.Results.{Result, ok, err}
use aff4tools.Prelude.Exec.{Sink, pure, raise, feed, continue}
use aff4tools.Arn.{Arn}
use aff4tools.Map.{
  Target, stored, repeated_byte, unknown, block_hash, unrecognised, MapEntry, Map, MapError,
  target_of, bad_total,
}
use aff4tools.Map.Tiling.{Tiles-total, total_length}
use aff4tools.Map.WellFormed.{IsWellFormed}
use aff4tools.Map.Source.{StreamSource, Serves, Producible, IsReadable, image_byte}
use aff4tools.Map.ReadAll.{ReadAccounting, nothing_read, count_repeated, read_all, total}
use aff4tools.Map.ReadAll.Image.{
  count_target, count_entries, image, composition, answer_of, read_entries-Delivers,
}

abbrev sum_of : ReadAccounting → ℕ
sum_of a = a.stored_count + a.described + a.unknown_placeholder + a.gap_filled

module _ (size : Arn → Option ℕ) (m : Map) where
  count_target_exact :
      (e : MapEntry) (a : ReadAccounting) (target : Option Target)
      → Producible size target e
      → sum_of a + e.length ≤ u64_max
      → sum_of (count_target m e a target) ≡ sum_of a + e.length
  unfolding count_repeated sat_add
  count_target_exact e a none h fits = elim h [ ]
  count_target_exact e a (some (stored arn)) h fits = omega arith
  count_target_exact e a (some (repeated_byte b)) h fits = ground arith
  count_target_exact e a (some (unknown k)) h fits = omega arith
  count_target_exact e a (some (block_hash x)) h fits = elim h [ ]
  count_target_exact e a (some (unrecognised x)) h fits = elim h [ ]

  count_entries_exact :
      (es : List MapEntry) (a : ReadAccounting)
      → All
          (λ (e : MapEntry).
            Producible size (target_of m e) e × (e.target_offset + e.length ≤ u64_max))
          es
      → sum_of a + total_length es ≤ u64_max
      → sum_of (count_entries m a es) ≡ sum_of a + total_length es
  count_entries_exact [] a all fits = omega arith
  count_entries_exact (e ∷ es) a all fits =
      let one = count_target_exact e a (target_of m e) all.0.0 (omega arith) in
      omega (
        arith,
        one,
        count_entries_exact es (count_target m e a (target_of m e)) all.1 (omega (arith, one)),
      )

  total-composition : IsWellFormed m → IsReadable size m → total (composition m) ≡ m.size
  unfolding total sat_add
  total-composition v readable =
      let covered = Tiles-total 0 m.entries m.size v.tiles in
      omega (
        arith,
        v.small,
        covered,
        count_entries_exact m.entries (nothing_read m.gaps.fill_source) readable
            (omega (arith, v.small, covered)),
      )

-- On a well-formed map whose regions can all be produced, from a source that serves its streams,
-- `Map::read_all` feeds pieces to the sink that join to the image, byte for byte in address order.
-- It answers as the sink does: with the sink's error, or with an accounting whose total is the
-- size of the map.
pub read_all_delivers :
    {Src T : Type 0} (source : StreamSource Src) (content : Arn → ℕ → ℕ) (size : Arn → Option ℕ)
    (sink : Sink MapError T) (m : Map) (src : Src) (t : T)
    → Serves source content size
    → IsWellFormed m
    → IsReadable size m
    → (ps : List (List ℕ)) × (src' : Src) × (flatten ps ≡ image content m)
      × (read_all source sink m (src, t)
          ≡ (answer_of (composition m) (feed sink ps t).0, (src', (feed sink ps t).1)))
      × (total (composition m) ≡ m.size)
unfolding read_all
read_all_delivers {Src} {T} source content size sink m src t law v readable =
    let (ps, src', joined, ran) =
      read_entries-Delivers source content size law sink m 0 0 m.size m.entries
        (nothing_read m.gaps.fill_source) v.tiles readable (λ o le. refl) src t in
    let whole : m.size - 0 ≡ m.size = omega arith in
    (
      ps,
      src',
      joined ∙ ap (λ n. slice_of (image_byte content m) 0 n) whole,
      rw ran (checked (feed sink ps t).0 src' (feed sink ps t).1),
      all,
    )
  where
    all : total (composition m) ≡ m.size
    all = total-composition size m v readable

    checked :
        (r : Result MapError (Unit {0})) (src' : Src) (t' : T)
        → continue {S = Src × T}
            (answer_of (composition m) r)
            (λ (a : ReadAccounting).
              if total a == m.size then pure a else raise (bad_total (total a) m.size))
            (src', t')
          ≡ (answer_of (composition m) r, (src', t'))
    checked (ok u) src' t' = rw (all, ==_refl m.size) refl
    checked (err e) src' t' = refl
