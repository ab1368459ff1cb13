-- ===== src/Map/ReadAt.antt =====
-- aff4tools: src/map.rs, `read_at_impl`, the random-access read behind `Map::read_at` and
-- `Map::read_at_with`.
pub mod Copy
pub mod Serve
pub mod Outcome
pub mod Total
use aff4tools.Prelude.{
  ℕ, zero, suc, ◌+◌, ◌-◌, min, Bool, true, false, ◌&&◌, Option, none, some, List, [], ◌∷◌, ◌++◌,
  ◌==◌, ltb, if◌then◌else◌, length, take, drop, sat_add,
}
use aff4tools.Prelude.Results.{Result, ok, err}
use aff4tools.Prelude.Exec.{Exec, Sink, raise}
use aff4tools.Arn.{Arn}
use aff4tools.Map.{
  Target, stored, repeated_byte, unknown, block_hash, unrecognised, UnknownRegions, fill, report,
  UnknownKind, MapEntry, Map, MapError, target_of, missing_target, lost_chunk, unresolved,
  unknown_region, bad_piece,
}
use aff4tools.Map.Lookup.{entry_at}
use aff4tools.Map.Source.{StreamSource}
use aff4tools.Map.Produce.{produce_stored, produce_repeated, produce_unknown}

-- `dest` and `cursor` of the shared sink.
pub record Window : Type 0 where
  pub dest : List ℕ
  pub cursor : ℕ

-- The sink: copies a piece to the running position, cut where the buffer ends.
unfoldable pub copy_piece : Sink MapError Window
unfolding sat_add
copy_piece piece w =
    let stop = min (sat_add w.cursor (length piece)) (length w.dest) in
    (
      ok tt,
      record {
        dest = take w.cursor w.dest ++ (take (stop - w.cursor) piece ++ drop stop w.dest);
        cursor = stop;
      },
    )

-- `UnknownRegions::Report` met an unknown region.
unfoldable pub reported : UnknownRegions → Target → Option UnknownKind
reported report (unknown kind) = some kind
reported _ _ = none

module _ {Src : Type 0} (source : StreamSource Src) where
  -- The last `match` of the loop's body: `want` bytes of the target from `o` on.
  unfoldable pub produce : ℕ → Target → ℕ → ℕ → Exec MapError (Src × Window) (Unit {0})
  unfolding produce_stored produce_repeated produce_unknown
  produce position (stored arn) o want = produce_stored source copy_piece arn o want
  produce position (repeated_byte byte) o want = produce_repeated source copy_piece byte want
  produce position (unknown kind) o want = produce_unknown source copy_piece kind want o
  produce position (block_hash text) o want = raise (lost_chunk position text)
  produce position (unrecognised text) o want = raise (unresolved position text)

  -- The test behind it: a piece that is too short ends the read.
  unfoldable pub after_produce :
      ℕ
      → ℕ
      → Result MapError (Unit {0}) × (Src × Window)
      → (ℕ → Src → List ℕ → Result MapError ℕ × (Src × List ℕ))
      → Result MapError ℕ × (Src × List ℕ)
  after_produce stop take' (err e, (src, w)) k = (err e, (src, w.dest))
  after_produce stop take' (ok _, (src, w)) k =
      if w.cursor == stop
      then k w.cursor src w.dest
      else (err (bad_piece stop w.cursor take'), (src, w.dest))

  -- The body of the loop of `read_at_impl`, with what follows it.
  unfoldable pub read_round :
      Map
      → UnknownRegions
      → ℕ
      → ℕ
      → Src
      → List ℕ
      → (ℕ → Src → List ℕ → Result MapError ℕ × (Src × List ℕ))
      → Result MapError ℕ × (Src × List ℕ)
  unfolding produce after_produce
  read_round m mode offset written src buf go_on = elim (ltb written (length buf)) [
    | false ↦ (ok written, (src, buf))
    | true ↦ elim (entry_at m (sat_add offset written)) [
      | none ↦ (ok written, (src, buf))
      | some e ↦ elim (target_of m e) [
        | none ↦ (
          err (missing_target (sat_add offset written) e.target_id (length m.targets)),
          (src, buf),
        )
        | some target ↦ elim (reported mode target) [
          | some kind ↦
              if ltb 0 written
              then (ok written, (src, buf))
              else (err (unknown_region e.offset e.length kind), (src, buf))
          | none ↦
              let position = sat_add offset written in
              let into_entry = position - e.offset in
              let want = min (e.length - into_entry) (length buf - written) in
              after_produce (written + want) want
                (produce position target (sat_add e.target_offset into_entry) want
                  (src, record { dest = buf; cursor = written }))
                go_on
        ]
      ]
    ]
  ]

  -- The loop; each round that goes on writes a byte at least.
  unfoldable pub read_loop :
      ℕ → Map → UnknownRegions → ℕ → ℕ → Src → List ℕ → Result MapError ℕ × (Src × List ℕ)
  unfolding read_round
  read_loop zero m mode offset written src buf = (ok written, (src, buf))
  read_loop (suc fuel) m mode offset written src buf =
      read_round m mode offset written src buf (λ w s b. read_loop fuel m mode offset w s b)

  -- `Map::read_at_with`: the bytes written, and the buffer after it.
  unfoldable pub read_at_with :
      Map → UnknownRegions → ℕ → Src → List ℕ → Result MapError ℕ × (Src × List ℕ)
  unfolding read_loop
  read_at_with m mode offset src buf = read_loop (length buf) m mode offset 0 src buf

  -- `Map::read_at`
  unfoldable pub read_at : Map → ℕ → Src → List ℕ → Result MapError ℕ × (Src × List ℕ)
  unfolding read_at_with
  read_at m offset src buf = read_at_with m fill offset src buf
