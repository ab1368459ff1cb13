-- ===== src/Map/ReadAt/Outcome.antt =====
-- The outcomes of `read_at_impl`, in either mode.
use aff4tools.Prelude.{
  Option, ℕ, zero, suc, ◌+◌, ◌-◌, ◌≤◌, ◌<◌, ◌≡◌, ◌≢◌, ◌⊎◌, refl, sym, ap, ◌∙◌, inl, inr, min, true,
  false, none, some, List, ◌++◌, arith, ltb, ltb→lt, lt→ltb, if◌then◌else◌, length, length-append,
  length-drop, drop, drop-drop, slice_of, length-slice_of, sat_add, sat_add_exact, u64_max,
  Bool-cases, Option-cases,
}
use mathlib.Core.Path.{ap₂}
use aff4tools.Prelude.Results.{Result, ok, err}
use aff4tools.Arn.{Arn}
use aff4tools.Map.{
  Target, UnknownRegions, UnknownKind, MapEntry, Map, MapError, target_of, unknown_region,
}
use aff4tools.Map.WellFormed.{IsWellFormed}
use aff4tools.Map.Lookup.{entry_at}
use aff4tools.Map.Lookup.Search.{scan, entry_at-scan, scan-none, scan-covers}
use aff4tools.Map.Source.{StreamSource, Serves, image_byte, IsReadable}
use aff4tools.Map.ReadAt.{reported, after_produce, produce, read_round, read_loop}
use aff4tools.Map.ReadAt.Serve.{kind_of, kind_at, scan_inside, scan-end, All-scan, round}

-- Why a read ends after `n` more bytes: the buffer is full, the image ends, or an unknown region
-- that is to be reported begins behind bytes that were written.
abbrev pub Ends : UnknownRegions → Map → (offset written room n : ℕ) → Type 0
Ends mode m offset written room n =
    (n ≡ room)
    ⊎ (m.size ≤ offset + written + n)
    ⊎ ((0 < written + n) × (kind_at mode m (offset + written + n) ≢ none))

-- The outcome of a read at `offset` that has written `written` bytes, with `rest` the part of the
-- buffer behind them.
pub data Outcome (Src : Type 0) (content : Arn → ℕ → ℕ) (mode : UnknownRegions) (m : Map)
    (offset written : ℕ) (rest : List ℕ) (r : Result MapError ℕ × (Src × List ℕ)) : Type 0 where
  read :
      (n : ℕ) (src' : Src)
      → n ≤ length rest
      → ((i : ℕ)
          → i < n
          → (offset + written + i < m.size) × (kind_at mode m (offset + written + i) ≡ none))
      → Ends mode m offset written (length rest) n
      → r ≡ (
        ok (written + n),
        (src', slice_of (image_byte content m) offset (written + n) ++ drop n rest),
      )
      → Outcome Src content mode m offset written rest r
  refused :
      (e : MapEntry) (kind : UnknownKind) (src' : Src)
      → written ≡ 0
      → 0 < length rest
      → scan m.entries offset ≡ some e
      → kind_at mode m offset ≡ some kind
      → r ≡ (err (unknown_region e.offset e.length kind), (src', rest))
      → Outcome Src content mode m offset written rest r

module _ {Src : Type 0} (source : StreamSource Src) (m : Map) (mode : UnknownRegions)
    (offset written : ℕ) (src : Src) (buf : List ℕ)
    (k : ℕ → Src → List ℕ → Result MapError ℕ × (Src × List ℕ)) where
  round_full :
      ltb written (length buf) ≡ false
      → read_round source m mode offset written src buf k ≡ (ok written, (src, buf))
  unfolding read_round
  round_full h = rw (h, read_round) refl

  round_past :
      entry_at m (sat_add offset written) ≡ none
      → read_round source m mode offset written src buf k ≡ (ok written, (src, buf))
  unfolding read_round
  round_past h = elim (Bool-cases (ltb written (length buf))) [
    | inl p ↦ rw (p, h, read_round) refl
    | inr p ↦ rw (p, read_round) refl
  ]

  module _ (e : MapEntry) (target : Target) (room : ltb written (length buf) ≡ true)
      (found : entry_at m (sat_add offset written) ≡ some e)
      (named : target_of m e ≡ some target) where
    round_reported :
        (kind : UnknownKind)
        → reported mode target ≡ some kind
        → read_round source m mode offset written src buf k ≡ (
            if ltb 0 written
            then (ok written, (src, buf))
            else (err (unknown_region e.offset e.length kind), (src, buf)))
    unfolding read_round
    round_reported kind h = rw (room, found, named, h, read_round) refl

    round_produced :
        (position want : ℕ)
        → reported mode target ≡ none
        → sat_add offset written ≡ position
        → sat_add e.target_offset (position - e.offset) ≡ e.target_offset + (position - e.offset)
        → min (e.length - (position - e.offset)) (length buf - written) ≡ want
        → read_round source m mode offset written src buf k
          ≡ after_produce source
              (written + want)
              want
              (produce source position target
                (e.target_offset + (position - e.offset))
                want
                (src, record { dest = buf; cursor = written }))
              k
    unfolding read_round
    round_produced position want h at exact amount =
        rw (room, found, named, h, at, exact, amount, read_round) refl

module _ {Src : Type 0} (source : StreamSource Src) (content : Arn → ℕ → ℕ) (size : Arn → Option ℕ)
    (law : Serves source content size) (m : Map) (v : IsWellFormed m) (readable : IsReadable size m)
    (mode : UnknownRegions) (offset : ℕ) where
  abbrev buffer : ℕ → List ℕ → List ℕ
  buffer written rest = slice_of (image_byte content m) offset written ++ rest

  abbrev OutcomeAt : ℕ → List ℕ → Result MapError ℕ × (Src × List ℕ) → Type 0
  OutcomeAt written rest r = Outcome Src content mode m offset written rest r

  -- Nothing more is written.
  stops :
      (written : ℕ) (rest : List ℕ) (src : Src)
      → Ends mode m offset written (length rest) 0
      → OutcomeAt written rest (ok written, (src, buffer written rest))
  stops written rest src ends =
      let z : written + 0 ≡ written = omega arith in
      read 0 src (omega arith) (λ i lt. absurd (omega arith)) ends
        (ap (λ (w : ℕ). (ok w, (src, slice_of (image_byte content m) offset w ++ rest))) (sym z))

  length-buffer :
      (written : ℕ) (rest : List ℕ) → length (buffer written rest) ≡ written + length rest
  length-buffer written rest =
      length-append (slice_of (image_byte content m) offset written) rest
      ∙ ap (λ n. n + length rest) (length-slice_of (image_byte content m) offset written)

  clear_inside :
      (e : MapEntry) (o o' : ℕ)
      → scan m.entries o ≡ some e
      → kind_of mode (target_of m e) ≡ none
      → o ≤ o'
      → o' < e.offset + e.length
      → kind_at mode m o' ≡ none
  unfolding kind_at
  clear_inside e o o' found clear le lt =
      rw (scan_inside 0 m.entries m.size o o' e v.tiles (omega arith) found le lt) clear

  kind_here :
      (e : MapEntry) (target : Target) (kind : UnknownKind) (o : ℕ)
      → scan m.entries o ≡ some e
      → target_of m e ≡ some target
      → reported mode target ≡ some kind
      → kind_at mode m o ≡ some kind
  unfolding kind_at
  kind_here e target kind o found named stop = rw (found, named) stop

  moved-Ends :
      (written want room n room' : ℕ)
      → room' ≡ room - want
      → want ≤ room
      → Ends mode m offset (written + want) room' n
      → Ends mode m offset written room (want + n)
  moved-Ends written want room n room' same fits (inl full) = inl (omega arith)
  moved-Ends written want room n room' same fits (inr (inl past)) = inr (inl (omega arith))
  moved-Ends written want room n room' same fits (inr (inr (pos, ends))) =
      let here : offset + (written + want) + n ≡ offset + written + (want + n) = omega arith in
      inr (inr (omega arith, rw here at ends))

  -- After a round of `want` bytes inside the entry `e`.
  continues :
      (e : MapEntry) (written want : ℕ) (rest : List ℕ) (r : Result MapError ℕ × (Src × List ℕ))
      → scan m.entries (offset + written) ≡ some e
      → kind_of mode (target_of m e) ≡ none
      → offset + written + want ≤ e.offset + e.length
      → e.offset + e.length ≤ m.size
      → 0 < want
      → want ≤ length rest
      → OutcomeAt (written + want) (drop want rest) r
      → OutcomeAt written rest r
  continues e written want rest r found clear within inside pos fits
        (refused e' kind src' z room at k eq) =
      absurd (omega arith)
  continues e written want rest r found clear within inside pos fits (read n src' le all ends eq) =
      let room = length-drop want rest in
      let sum : written + want + n ≡ written + (want + n) = omega arith in
      read (want + n) src' (omega (arith, room))
        (λ i lt. elim (Bool-cases (ltb i want)) [
          | inl p ↦
              let early : i < want = ltb→lt i want p in
              (
                omega arith,
                clear_inside e (offset + written) (offset + written + i) found clear (omega arith)
                    (omega arith),
              )
          | inr p ↦
              let j : ℕ = i - want in
              let here : offset + (written + want) + j ≡ offset + written + i = ground arith in
              let later = all j (ground arith) in
              (omega (arith, later.0), ap (kind_at mode m) (sym here) ∙ later.1)
        ])
        (moved-Ends written want (length rest) n (length (drop want rest)) room fits ends)
        (eq
          ∙ ap₂
              (λ (w : ℕ) (d : List ℕ).
                (ok w, (src', slice_of (image_byte content m) offset w ++ d)))
              sum (drop-drop want n (want + n) rest refl))

  not_below :
      (written : ℕ) (rest : List ℕ)
      → ltb written (length (buffer written rest)) ≡ false
      → 0 ≡ length rest
  not_below written rest h = ground (arith, length-buffer written rest)

  -- The target of the entry that covers an offset.
  named_at :
      (e : MapEntry) (o : ℕ)
      → scan m.entries o ≡ some e
      → (target : Target) × (target_of m e ≡ some target)
  named_at e o found = elim (Option-cases (target_of m e)) [
    | inl nowhere ↦
        let region = All-scan _ m.entries o e readable found in elim (rw nowhere at region.0) [ ]
    | inr named ↦ named
  ]

  position_at :
      (written : ℕ) → offset + written < m.size → sat_add offset written ≡ offset + written
  position_at written inside = sat_add_exact offset written (omega (arith, v.small))

  entry_here :
      (e : MapEntry) (written : ℕ)
      → offset + written < m.size
      → scan m.entries (offset + written) ≡ some e
      → entry_at m (sat_add offset written) ≡ some e
  entry_here e written inside found =
      ap (entry_at m) (position_at written inside) ∙ entry_at-scan m (offset + written) v ∙ found

  -- An unknown region that is to be reported.
  reports :
      (e : MapEntry) (kind : UnknownKind) (written : ℕ) (rest : List ℕ) (src : Src)
      → 0 < length rest
      → scan m.entries (offset + written) ≡ some e
      → kind_at mode m (offset + written) ≡ some kind
      → OutcomeAt written rest (
          if ltb 0 written
          then (ok written, (src, buffer written rest))
          else (err (unknown_region e.offset e.length kind), (src, buffer written rest)))
  reports e kind zero rest src room found here =
      let z : offset + 0 ≡ offset = omega arith in
      refused e kind src refl room (rw z at found) (rw z at here) refl
  reports e kind (suc written) rest src room found here =
      let z : offset + suc written + 0 ≡ offset + suc written = omega arith in
      rw (lt→ltb 0 (suc written) (omega arith)) (
        stops (suc written) rest src
          (inr (inr (omega arith, rw (z, here) (λ (q : some kind ≡ none). cc)))))

  -- One round inside the image with room in the buffer.
  round_outcome :
      (written : ℕ) (rest : List ℕ) (src : Src) (e : MapEntry) (target : Target)
      (k : ℕ → Src → List ℕ → Result MapError ℕ × (Src × List ℕ))
      → written + length rest ≤ u64_max
      → 0 < length rest
      → offset + written < m.size
      → scan m.entries (offset + written) ≡ some e
      → e.offset ≤ offset + written
      → offset + written < e.offset + e.length
      → target_of m e ≡ some target
      → reported mode target ≡ none
      → ((want : ℕ) (src' : Src)
          → 0 < want
          → want ≤ length rest
          → OutcomeAt
              (written + want)
              (drop want rest)
              (k (written + want) src' (buffer (written + want) (drop want rest))))
      → OutcomeAt written rest (read_round source m mode offset written src (buffer written rest) k)
  round_outcome written rest src e target k small room inside found from to named clear next =
      let position : ℕ = offset + written in
      let want : ℕ = min (e.length - (position - e.offset)) (length rest) in
      let len = length-buffer written rest in
      let region = All-scan _ m.entries position e readable found in
      let (src', ran) =
        round source content size law m v readable e target offset written want src rest k found
          named from (omega arith) (omega arith) small in
      let step =
        round_produced source m mode offset written src (buffer written rest) k e target
          (lt→ltb written (length (buffer written rest)) (omega (arith, len)))
          (entry_here e written inside found) named position want clear (position_at written inside)
          (sat_add_exact e.target_offset (position - e.offset) (omega (arith, region.1)))
          (omega (arith, len)) in
      rw (step ∙ ran) (
        continues e written want rest _ found (ap (kind_of mode) named ∙ clear) (omega arith)
          (scan-end 0 m.entries m.size position e v.tiles found) (omega arith) (omega arith)
          (next want src' (omega arith) (omega arith)))

  past_size :
      (written : ℕ) → ltb (offset + written) m.size ≡ false → m.size ≤ sat_add offset written
  unfolding sat_add
  past_size written past = ground (arith, v.small)

  some_room :
      (written : ℕ) (rest : List ℕ)
      → ltb written (length (buffer written rest)) ≡ true
      → 0 < length rest
  some_room written rest h = ground (arith, length-buffer written rest)

  -- A round that starts inside the image.
  inside_outcome :
      (written : ℕ) (rest : List ℕ) (src : Src)
      (k : ℕ → Src → List ℕ → Result MapError ℕ × (Src × List ℕ))
      → written + length rest ≤ u64_max
      → 0 < length rest
      → offset + written < m.size
      → ((want : ℕ) (src' : Src)
          → 0 < want
          → want ≤ length rest
          → OutcomeAt
              (written + want)
              (drop want rest)
              (k (written + want) src' (buffer (written + want) (drop want rest))))
      → OutcomeAt written rest (read_round source m mode offset written src (buffer written rest) k)
  inside_outcome written rest src k small room inside next =
      let (e, found, at, from, to) =
        scan-covers 0 m.entries m.size (offset + written) v.tiles (omega arith) inside in
      let (target, named) = named_at e (offset + written) found in
      elim (Option-cases (reported mode target)) [
        | inl clear ↦
            round_outcome written rest src e target k small room inside found from to named clear
              next
        | inr (kind, stop) ↦
            rw
              (round_reported source m mode offset written src (buffer written rest) k e target
                (lt→ltb written (length (buffer written rest))
                  (omega (arith, length-buffer written rest)))
                (entry_here e written inside found) named kind stop)
              (reports e kind written rest src room found
                (kind_here e target kind (offset + written) found named stop))
      ]

  -- The loop, from any state that it reaches.
  pub loop_outcome :
      (fuel written : ℕ) (rest : List ℕ) (src : Src)
      → length rest ≤ fuel
      → written + length rest ≤ u64_max
      → OutcomeAt written rest
          (read_loop source fuel m mode offset written src (buffer written rest))
  unfolding read_loop
  loop_outcome zero written rest src enough small = stops written rest src (inl (omega arith))
  loop_outcome (suc fuel) written rest src enough small =
      let k = λ (w : ℕ) (s : Src) (b : List ℕ). read_loop source fuel m mode offset w s b in
      elim (Bool-cases (ltb written (length (buffer written rest)))) [
        | inr full ↦
            rw (round_full source m mode offset written src (buffer written rest) k full)
              (stops written rest src (inl (not_below written rest full)))
        | inl room ↦ elim (Bool-cases (ltb (offset + written) m.size)) [
          | inr past ↦
              let nothing =
                entry_at-scan m (sat_add offset written) v
                ∙ scan-none 0 m.entries m.size (sat_add offset written) v.tiles
                    (past_size written past) in
              rw (round_past source m mode offset written src (buffer written rest) k nothing)
                (stops written rest src (inr (inl (ground arith))))
          | inl inside ↦
              inside_outcome written rest src k small (some_room written rest room)
                (ltb→lt _ _ inside)
                (λ want src' pos fits.
                  loop_outcome fuel (written + want) (drop want rest) src'
                    (omega (arith, length-drop want rest)) (omega (arith, length-drop want rest)))
        ]
      ]
