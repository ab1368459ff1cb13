-- ===== src/Map/ReadAt/Serve.antt =====
-- One round of `read_at_impl`, and the loop.
use mathlib.Core.Path.{ap₂}
use aff4tools.Prelude.{
  ℕ, ◌+◌, ◌-◌, ◌≤◌, ◌<◌, ◌≡◌, refl, sym, ap, ◌∙◌, inl, inr, false, Option, none, some, List, [],
  ◌∷◌, ◌++◌, arith, ltb, length, All, drop, slice_of, slice_of-add, slice_of_ext, length-slice_of,
  flatten, u64_max, Bool-cases, eq_of_some, ==_refl,
}
use aff4tools.Prelude.Results.{Result, ok}
use aff4tools.Arn.{Arn}
use aff4tools.Map.{
  Target, stored, repeated_byte, unknown, block_hash, unrecognised, UnknownRegions, UnknownKind,
  MapEntry, Map, MapError, target_of,
}
use aff4tools.Map.Tiling.{Tiles, Chain-le, Tiles-Chain}
use aff4tools.Map.WellFormed.{IsWellFormed}
use aff4tools.Map.Lookup.Search.{scan}
use aff4tools.Map.Source.{
  StreamSource, Within-le, Serves, target_byte, image_byte, Producible, IsReadable,
}
use aff4tools.Map.Produce.{Feeds, stored-Feeds, repeated-Feeds, unknown-Feeds}
use aff4tools.Map.ReadAt.{Window, copy_piece, reported, produce, after_produce}
use aff4tools.Map.ReadAt.Copy.{at, ok_window, feed-copy_piece}

-- The kind of unknown region that a read in this mode reports at an offset.
abbrev pub kind_of : UnknownRegions → Option Target → Option UnknownKind
kind_of mode none = none
kind_of mode (some target) = reported mode target

abbrev pub kind_found : UnknownRegions → Map → Option MapEntry → Option UnknownKind
kind_found mode m none = none
kind_found mode m (some e) = kind_of mode (target_of m e)

unfoldable pub kind_at : UnknownRegions → Map → ℕ → Option UnknownKind
unfolding reported target_of
kind_at mode m o = kind_found mode m (scan m.entries o)

-- Inside an entry every offset is covered by that entry.
pub scan_inside :
    (start : ℕ) (es : List MapEntry) (stop o o' : ℕ) (e : MapEntry)
    → Tiles start es stop
    → start ≤ o
    → scan es o ≡ some e
    → o ≤ o'
    → o' < e.offset + e.length
    → scan es o' ≡ some e
scan_inside start [] stop o o' e t lo h le lt = cc
scan_inside start (x ∷ es) stop o o' e t lo h le lt =
    elim (Bool-cases (ltb o (x.offset + x.length))) [
      | inl p ↦
          let same : x ≡ e = ground arith in
          ground (arith, ap (λ (y : MapEntry). y.offset) same, ap (λ (y : MapEntry). y.length) same)
      | inr p ↦
          let q : ltb o' (x.offset + x.length) ≡ false = ground arith in
          rw q
            (scan_inside (x.offset + x.length) es stop o o' e t.2 (ground arith) (rw p at h) le lt)
    ]

pub scan-end :
    (start : ℕ) (es : List MapEntry) (stop o : ℕ) (e : MapEntry)
    → Tiles start es stop
    → scan es o ≡ some e
    → e.offset + e.length ≤ stop
scan-end start [] stop o e t h = cc
scan-end start (x ∷ es) stop o e t h = elim (Bool-cases (ltb o (x.offset + x.length))) [
  | inl p ↦
      let same : x ≡ e = eq_of_some (rw p at h) in
      let bound =
        Chain-le (x.offset + x.length) es stop (Tiles-Chain (x.offset + x.length) es stop t.2) in
      rw (← same) bound
  | inr p ↦ scan-end (x.offset + x.length) es stop o e t.2 (rw p at h)
]

pub All-scan :
    (P : MapEntry → Type 0) (es : List MapEntry) (o : ℕ) (e : MapEntry)
    → All P es
    → scan es o ≡ some e
    → P e
All-scan P [] o e all h = cc
All-scan P (x ∷ es) o e all h = elim (Bool-cases (ltb o (x.offset + x.length))) [
  | inl p ↦ let same : x ≡ e = eq_of_some (rw p at h) in rw same at all.0
  | inr p ↦ All-scan P es o e all.1 (rw p at h)
]

after_produce_lem :
    {Src : Type 0} (source : StreamSource Src) (stop want : ℕ)
    (r : Result MapError (Unit {0}) × (Src × Window))
    (k : ℕ → Src → List ℕ → Result MapError ℕ × (Src × List ℕ)) (src' : Src) (dest : List ℕ)
    → r ≡ (ok tt, (src', record { dest = dest; cursor = stop }))
    → after_produce source stop want r k ≡ k stop src' dest
unfolding after_produce
after_produce_lem source stop want r k src' dest e = rw (e, ==_refl stop) refl

module _ {Src : Type 0} (source : StreamSource Src) (content : Arn → ℕ → ℕ) (size : Arn → Option ℕ)
    (law : Serves source content size) (m : Map) (v : IsWellFormed m)
    (readable : IsReadable size m) where
  produce-Feeds :
      (position : ℕ) (target : Target) (e : MapEntry) (o want : ℕ)
      → Producible size (some target) e
      → o + want ≤ e.target_offset + e.length
      → e.target_offset + e.length ≤ u64_max
      → Feeds source copy_piece
          (produce source position target o want)
          (slice_of (target_byte content target) o want)
  unfolding produce
  produce-Feeds position (stored arn) e o want h le fits =
      stored-Feeds source copy_piece content size law arn o want
        (Within-le (size arn) (o + want) (e.target_offset + e.length) le h)
  produce-Feeds position (repeated_byte byte) e o want h le fits =
      repeated-Feeds source copy_piece byte o want
  produce-Feeds position (unknown kind) e o want h le fits =
      unknown-Feeds source copy_piece kind o want (omega arith)
  produce-Feeds position (block_hash text) e o want h le fits = elim h [ ]
  produce-Feeds position (unrecognised text) e o want h le fits = elim h [ ]

  -- The bytes of a region inside one entry are those of the image.
  inside-image :
      (e : MapEntry) (target : Target) (position want : ℕ)
      → scan m.entries position ≡ some e
      → target_of m e ≡ some target
      → e.offset ≤ position
      → position + want ≤ e.offset + e.length
      → slice_of (target_byte content target) (e.target_offset + (position - e.offset)) want
        ≡ slice_of (image_byte content m) position want
  unfolding image_byte
  inside-image e target position want found named from fits =
      slice_of_ext (target_byte content target) (image_byte content m)
        (e.target_offset + (position - e.offset)) position want
        (λ i lt.
          let here : scan m.entries (position + i) ≡ some e =
            scan_inside 0 m.entries m.size position (position + i) e v.tiles (omega arith) found
              (omega arith) (omega arith) in
          let back : e.target_offset + (position + i - e.offset)
              ≡ e.target_offset + (position - e.offset) + i =
            omega arith in
          rw (here, named, back) refl)

  -- What a round writes, and where it goes on.
  pub round :
      (e : MapEntry) (target : Target) (offset written want : ℕ) (src : Src) (rest : List ℕ)
      (k : ℕ → Src → List ℕ → Result MapError ℕ × (Src × List ℕ))
      → scan m.entries (offset + written) ≡ some e
      → target_of m e ≡ some target
      → e.offset ≤ offset + written
      → offset + written + want ≤ e.offset + e.length
      → want ≤ length rest
      → written + length rest ≤ u64_max
      → (src' : Src) × (after_produce source
            (written + want)
            want
            (produce source
              (offset + written)
              target
              (e.target_offset + (offset + written - e.offset))
              want
              (
                src,
                record {
                  dest = slice_of (image_byte content m) offset written ++ rest;
                  cursor = written;
                },
              ))
            k
          ≡ k
              (written + want)
              src'
              (slice_of (image_byte content m) offset (written + want) ++ drop want rest))
  round e target offset written want src rest k found named from within fits small =
      let o : ℕ = e.target_offset + (offset + written - e.offset) in
      let before : List ℕ = slice_of (image_byte content m) offset written in
      let more : List ℕ = slice_of (image_byte content m) (offset + written) want in
      let region = All-scan _ m.entries (offset + written) e readable found in
      let (ps, src', joined, ran) =
        produce-Feeds (offset + written) target e o want (rw named at region.0) (omega arith)
          region.1 src (at before rest) in
      let bytes : flatten ps ≡ more =
        joined ∙ inside-image e target (offset + written) want found named from within in
      let n : length before ≡ written = length-slice_of (image_byte content m) offset written in
      let k' : length more ≡ want =
        length-slice_of (image_byte content m) (offset + written) want in
      let laid = feed-copy_piece ps before rest (rw bytes (omega (arith, k'))) (omega (arith, n)) in
      let whole : before ++ more ≡ slice_of (image_byte content m) offset (written + want) = sym (
        slice_of-add (image_byte content m) offset written want (offset + written) (written + want)
          refl refl) in
      let filled =
        laid
        ∙ ap₂ ok_window
            (ap₂ (λ (t : List ℕ) (j : ℕ). t ++ drop j rest) (ap (λ t. before ++ t) bytes ∙ whole)
              (ap length bytes ∙ k'))
            (ap (λ t. length (before ++ t)) bytes
              ∙ ap length whole
              ∙ length-slice_of (image_byte content m) offset (written + want)) in
      let start : at before rest ≡ record { dest = before ++ rest; cursor = written } =
        ap (λ (c : ℕ). record { dest = before ++ rest; cursor = c }) n in
      (
        src',
        after_produce_lem source (written + want) want
            (produce source (offset + written) target o want
              (src, record { dest = before ++ rest; cursor = written }))
            k src' (slice_of (image_byte content m) offset (written + want) ++ drop want rest)
            (ap (λ (w : Window). produce source (offset + written) target o want (src, w))
                (sym start)
              ∙ ran
              ∙ ap (λ (r : Result MapError (Unit {0}) × Window). (r.0, (src', r.1))) filled),
      )
