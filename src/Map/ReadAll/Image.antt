-- ===== src/Map/ReadAll/Image.antt =====
-- `Map::read_all` delivers the image: the bytes that the map stands for, in address order.
use aff4tools.Prelude.{
  ℕ, ◌+◌, ◌-◌, ◌≤◌, ◌<◌, ◌≡◌, refl, ap, ◌∙◌, inl, inr, Option, none, some, List, [], ◌∷◌, ◌++◌,
  arith, All, slice_of, slice_of-add, slice_of_ext, flatten, flatten-append, sat_add, u64_max,
  Option-cases,
}
use mathlib.Core.Path.{ap₂}
use aff4tools.Prelude.Results.{Result, ok, err}
use aff4tools.Prelude.Exec.{Exec, Sink, pure, feed, feed-append, continue, ◌>>=◌}
use aff4tools.Arn.{Arn}
use aff4tools.Map.{
  Target, stored, repeated_byte, unknown, block_hash, unrecognised, MapEntry, Map, MapError,
  target_of,
}
use aff4tools.Map.Tiling.{Tiles, Chain-le, Tiles-Chain}
use aff4tools.Map.Lookup.Search.{scan}
use aff4tools.Map.Produce.{
  Feeds, produce_stored, produce_repeated, produce_unknown, stored-Feeds, repeated-Feeds,
  unknown-Feeds,
}
use aff4tools.Map.Source.{StreamSource, Serves, target_byte, image_byte, Producible}
use aff4tools.Map.ReadAll.{ReadAccounting, nothing_read, count_repeated, read_target, read_entries}

-- The accounting of one entry, and of a run of entries.
abbrev pub count_target : Map → MapEntry → ReadAccounting → Option Target → ReadAccounting
count_target m e a (some (stored _)) = record a { stored_count = sat_add a.stored_count e.length }
count_target m e a (some (unknown _)) = record a {
  unknown_placeholder = sat_add a.unknown_placeholder e.length;
}
count_target m e a (some (repeated_byte _)) = count_repeated m e a
count_target m e a _ = a

abbrev pub count_entries : Map → ReadAccounting → List MapEntry → ReadAccounting
count_entries m a [] = a
count_entries m a (e ∷ es) = count_entries m (count_target m e a (target_of m e)) es

abbrev pub answer_of : ReadAccounting → Result MapError (Unit {0}) → Result MapError ReadAccounting
answer_of a (ok _) = ok a
answer_of a (err e) = err e

abbrev region_bytes : (Arn → ℕ → ℕ) → Option Target → MapEntry → List ℕ
region_bytes content none e = []
region_bytes content (some target) e =
    slice_of (target_byte content target) e.target_offset e.length

scan_front :
    (e : MapEntry) (es : List MapEntry) (o : ℕ) → o < e.offset + e.length → scan (e ∷ es) o ≡ some e
scan_front e es o h = ground arith

scan_behind :
    (e : MapEntry) (es : List MapEntry) (o : ℕ)
    → e.offset + e.length ≤ o
    → scan (e ∷ es) o ≡ scan es o
scan_behind e es o h = ground arith

module _ {Src T : Type 0} (source : StreamSource Src) (content : Arn → ℕ → ℕ)
    (size : Arn → Option ℕ) (law : Serves source content size) (sink : Sink MapError T)
    (m : Map) where
  -- The run `read` answers as the sink does to pieces that join to `bytes`.
  abbrev pub Delivers : Exec MapError (Src × T) ReadAccounting → List ℕ → ReadAccounting → Type 0
  Delivers read bytes a =
      (src : Src) (t : T)
      → (ps : List (List ℕ)) × (src' : Src) × (flatten ps ≡ bytes)
        × (read (src, t) ≡ (answer_of a (feed sink ps t).0, (src', (feed sink ps t).1)))

  after_feed :
      (a : ReadAccounting) (src : Src) (r : Result MapError (Unit {0})) (t : T)
      → continue {S = Src × T} r (λ (_ : Unit {0}). pure a) (src, t) ≡ (answer_of a r, (src, t))
  after_feed a src (ok u) t = refl
  after_feed a src (err e) t = refl

  Feeds-Delivers :
      (act : Exec MapError (Src × T) (Unit {0})) (bytes : List ℕ) (a : ReadAccounting)
      → Feeds source sink act bytes
      → Delivers (act >>= λ _. pure a) bytes a
  Feeds-Delivers act bytes a h src t =
      let (ps, src', joined, acted) = h src t in
      (ps, src', joined, rw acted (after_feed a src' (feed sink ps t).0 (feed sink ps t).1))

  read_target-Delivers :
      (position : ℕ) (e : MapEntry) (a : ReadAccounting) (target : Option Target)
      → Producible size target e
      → e.target_offset + e.length ≤ u64_max
      → Delivers
          (read_target source sink m position e a target)
          (region_bytes content target e)
          (count_target m e a target)
  unfolding read_target
  read_target-Delivers position e a none h fits = elim h [ ]
  read_target-Delivers position e a (some (stored arn)) h fits =
      Feeds-Delivers (produce_stored source sink arn e.target_offset e.length) _ _
        (stored-Feeds source sink content size law arn e.target_offset e.length h)
  read_target-Delivers position e a (some (repeated_byte b)) h fits =
      Feeds-Delivers (produce_repeated source sink b e.length) _ _
        (repeated-Feeds source sink b e.target_offset e.length)
  read_target-Delivers position e a (some (unknown kind)) h fits =
      Feeds-Delivers (produce_unknown source sink kind e.length e.target_offset) _ _
        (unknown-Feeds source sink kind e.target_offset e.length fits)
  read_target-Delivers position e a (some (block_hash x)) h fits = elim h [ ]
  read_target-Delivers position e a (some (unrecognised x)) h fits = elim h [ ]

  -- One delivery after another.
  join :
      (f : ReadAccounting → Exec MapError (Src × T) ReadAccounting) (a b : ReadAccounting)
      (more : List ℕ)
      → Delivers (f a) more b
      → (src1 : Src) (r : Result MapError (Unit {0})) (t1 : T)
      → (qs : List (List ℕ)) × (src2 : Src) × (flatten qs ≡ more)
        × (continue (answer_of a r) f (src1, t1) ≡ (
            let s = continue r (λ (_ : Unit {0}). feed sink qs) t1 in
            (answer_of b s.0, (src2, s.1))))
  join f a b more h src1 (ok u) t1 = h src1 t1
  join f a b more h src1 (err e) t1 =
      let (qs, src2, joined, ran) = h src1 t1 in (qs, src1, joined, refl)

  Delivers->>= :
      (read : Exec MapError (Src × T) ReadAccounting)
      (f : ReadAccounting → Exec MapError (Src × T) ReadAccounting) (first more : List ℕ)
      (a b : ReadAccounting)
      → Delivers read first a
      → Delivers (f a) more b
      → Delivers (read >>= f) (first ++ more) b
  Delivers->>= read f first more a b h k src t =
      let (ps, src1, joined, ran) = h src t in
      let (qs, src2, more_joined, went_on) =
        join f a b more k src1 (feed sink ps t).0 (feed sink ps t).1 in
      (
        ps ++ qs,
        src2,
        flatten-append ps qs ∙ ap₂ (λ (xs ys : List ℕ). xs ++ ys) joined more_joined,
        rw (ran, feed-append sink ps qs t) went_on,
      )

  -- The scan of the whole map goes on as that of its entries from `start` on.
  abbrev pub ScansAs : ℕ → List MapEntry → Type 0
  ScansAs start es = (o : ℕ) → start ≤ o → scan m.entries o ≡ scan es o

  region-image :
      (e : MapEntry) (es : List MapEntry)
      → ScansAs e.offset (e ∷ es)
      → Producible size (target_of m e) e
      → region_bytes content (target_of m e) e ≡ slice_of (image_byte content m) e.offset e.length
  unfolding image_byte
  region-image e es scans h = elim (Option-cases (target_of m e)) [
    | inl unlisted ↦ absurd (rw unlisted at h)
    | inr (target, found) ↦ rw found (
        slice_of_ext (target_byte content target) (image_byte content m) e.target_offset e.offset
          e.length
          (λ i lt.
            let at : scan m.entries (e.offset + i) ≡ some e =
              scans (e.offset + i) (omega arith) ∙ scan_front e es (e.offset + i) (omega arith) in
            let back : e.target_offset + (e.offset + i - e.offset) ≡ e.target_offset + i =
              omega arith in
            rw (at, found, back) refl))
  ]

  pub read_entries-Delivers :
      (position start stop : ℕ) (es : List MapEntry) (a : ReadAccounting)
      → Tiles start es stop
      → All
          (λ (e : MapEntry).
            Producible size (target_of m e) e × (e.target_offset + e.length ≤ u64_max))
          es
      → ScansAs start es
      → Delivers
          (read_entries source sink m position es a)
          (slice_of (image_byte content m) start (stop - start))
          (count_entries m a es)
  unfolding read_entries
  read_entries-Delivers position start stop [] a t all scans = λ src s.
      let z : 0 ≡ stop - start = omega arith in
      ([], src, ap (λ n. slice_of (image_byte content m) start n) z, unfold feed in refl)
  read_entries-Delivers position start stop (e ∷ es) a t all scans =
      let next : ℕ = e.offset + e.length in
      let le = Chain-le next es stop (Tiles-Chain next es stop t.2) in
      let same : region_bytes content (target_of m e) e
          ≡ slice_of (image_byte content m) start e.length =
        region-image e es (λ o le'. scans o (omega arith)) all.0.0
        ∙ ap (λ k. slice_of (image_byte content m) k e.length) t.0 in
      rw
        (slice_of-add (image_byte content m) start e.length (stop - next) next (stop - start)
          (omega arith) (omega arith))
        (Delivers->>= (read_target source sink m position e a (target_of m e))
          (read_entries source sink m (position + 1) es)
          (slice_of (image_byte content m) start e.length)
          (slice_of (image_byte content m) next (stop - next)) (count_target m e a (target_of m e))
          (count_entries m (count_target m e a (target_of m e)) es)
          (rw same at (read_target-Delivers position e a (target_of m e) all.0.0 all.0.1))
          (read_entries-Delivers (position + 1) next stop es (count_target m e a (target_of m e))
            t.2 all.1 (λ o le'. scans o (omega arith) ∙ scan_behind e es o le')))

-- The image, and the accounting of a traversal of the whole map.
abbrev pub image : (Arn → ℕ → ℕ) → Map → List ℕ
image content m = slice_of (image_byte content m) 0 m.size

abbrev pub composition : Map → ReadAccounting
composition m = count_entries m (nothing_read m.gaps.fill_source) m.entries
