-- ===== src/Map/ReadAt/Total.antt =====
-- What `Map::read_at` and `Map::read_at_with` answer.
use aff4tools.Prelude.{
  ℕ, zero, suc, ◌+◌, ◌-◌, ◌≤◌, ◌<◌, ◌≡◌, ◌⊎◌, refl, sym, ap, ◌∙◌, inl, inr, min, Option, none, some,
  List, ◌++◌, arith, length, drop, slice_of, u64_max,
}
use aff4tools.Prelude.Results.{Result, ok}
use aff4tools.Arn.{Arn}
use aff4tools.Map.{
  Target, stored, repeated_byte, unknown, block_hash, unrecognised, UnknownRegions, fill, MapEntry,
  Map, MapError, target_of,
}
use aff4tools.Map.WellFormed.{IsWellFormed}
use aff4tools.Map.Lookup.Search.{scan}
use aff4tools.Map.Source.{StreamSource, Serves, image_byte, IsReadable}
use aff4tools.Map.ReadAt.{reported, read_at_with, read_at}
use aff4tools.Map.ReadAt.Serve.{kind_of, kind_found, kind_at}
use aff4tools.Map.ReadAt.Outcome.{Outcome, read, refused, loop_outcome}

-- The rounds of `read_at_impl` end: the length of the buffer, a u64, bounds them. A read of a
-- well-formed map whose regions can all be produced, from a source that serves its streams,
-- either writes the bytes of the image from the offset on, none of which lies in a region to be
-- reported, until the buffer is full, the image ends or such a region begins; or it writes
-- nothing and refuses the region that covers the offset.
pub read_at_with-Outcome :
    {Src : Type 0} (source : StreamSource Src) (content : Arn → ℕ → ℕ) (size : Arn → Option ℕ)
    → Serves source content size
    → (m : Map) → IsWellFormed m
    → IsReadable size m
    → (mode : UnknownRegions) (offset : ℕ) (src : Src) (buf : List ℕ) → length buf ≤ u64_max
    → Outcome Src content mode m offset 0 buf (read_at_with source m mode offset src buf)
unfolding read_at_with
read_at_with-Outcome source content size law m v readable mode offset src buf small =
    loop_outcome source content size law m v readable mode offset (length buf) 0 buf src
      (omega arith) (omega (arith, small))

never_reported : (target : Target) → reported fill target ≡ none
unfolding reported
never_reported (stored arn) = refl
never_reported (repeated_byte byte) = refl
never_reported (unknown kind) = refl
never_reported (block_hash text) = refl
never_reported (unrecognised text) = refl

fill_kind_of : (o : Option Target) → kind_of fill o ≡ none
fill_kind_of none = refl
fill_kind_of (some target) = never_reported target

fill_kind_found : (m : Map) (o : Option MapEntry) → kind_found fill m o ≡ none
fill_kind_found m none = refl
fill_kind_found m (some e) = fill_kind_of (target_of m e)

fill_kind_at : (m : Map) (o : ℕ) → kind_at fill m o ≡ none
unfolding kind_at
fill_kind_at m o = fill_kind_found m (scan m.entries o)

-- The number of bytes that an outcome in `fill` mode has.
fill_amount :
    (m : Map) (offset room n : ℕ)
    → n ≤ room
    → ((i : ℕ) → i < n → (offset + 0 + i < m.size) × (kind_at fill m (offset + 0 + i) ≡ none))
    → (n ≡ room) ⊎ (m.size ≤ offset + 0 + n)
    → n ≡ min room (m.size - offset)
fill_amount m offset room zero le all (inl e) = omega arith
fill_amount m offset room zero le all (inr e) = omega arith
fill_amount m offset room (suc n) le all (inl e) =
    let last = (all n (omega arith)).0 in omega (arith, last)
fill_amount m offset room (suc n) le all (inr e) =
    let last = (all n (omega arith)).0 in omega (arith, last)

zero_add : (n : ℕ) → 0 + n ≡ n
zero_add n = omega arith

fill_total :
    {Src : Type 0} (content : Arn → ℕ → ℕ) (m : Map) (offset : ℕ) (buf : List ℕ)
    (r : Result MapError ℕ × (Src × List ℕ))
    → Outcome Src content fill m offset 0 buf r
    → (src' : Src) × (r ≡ (
      ok (min (length buf) (m.size - offset)),
      (
        src',
        slice_of (image_byte content m) offset (min (length buf) (m.size - offset))
            ++ drop (min (length buf) (m.size - offset)) buf,
      ),
    ))
fill_total content m offset buf r (read n src' le all ends eq) =
    let amount : n ≡ min (length buf) (m.size - offset) = elim ends [
      | inl full ↦ fill_amount m offset (length buf) n le all (inl full)
      | inr (inl past) ↦ fill_amount m offset (length buf) n le all (inr past)
      | inr (inr (pos, stop)) ↦ absurd (stop (fill_kind_at m _))
    ] in
    (
      src',
      eq
          ∙ ap (λ (k : ℕ). (ok k, (src', slice_of (image_byte content m) offset k ++ drop n buf)))
              (zero_add n)
          ∙ ap (λ (k : ℕ). (ok k, (src', slice_of (image_byte content m) offset k ++ drop k buf)))
              amount,
    )
fill_total content m offset buf r (refused e kind src' z room at here eq) =
    let never = sym here ∙ fill_kind_at m offset in cc

-- `Map::read_at` of a well-formed map whose regions can all be produced, from a source that
-- serves its streams into a buffer whose length is a u64, never fails: it writes as many bytes
-- as the buffer and the rest of the image have, they are the bytes of the image from the offset
-- on, and the rest of the buffer stays as it was.
pub read_at_total :
    {Src : Type 0} (source : StreamSource Src) (content : Arn → ℕ → ℕ) (size : Arn → Option ℕ)
    → Serves source content size
    → (m : Map) → IsWellFormed m
    → IsReadable size m
    → (offset : ℕ) (src : Src) (buf : List ℕ) → length buf ≤ u64_max
    → (src' : Src) × (read_at source m offset src buf ≡ (
      ok (min (length buf) (m.size - offset)),
      (
        src',
        slice_of (image_byte content m) offset (min (length buf) (m.size - offset))
            ++ drop (min (length buf) (m.size - offset)) buf,
      ),
    ))
unfolding read_at
read_at_total source content size law m v readable offset src buf small =
    fill_total content m offset buf _
      (read_at_with-Outcome source content size law m v readable fill offset src buf small)
