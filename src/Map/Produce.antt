-- ===== src/Map/Produce.antt =====
-- How a region of a target is produced, shared by `Map::read_all` and `Map::read_at`: the three
-- calls of src/map.rs, and the pieces that they feed.
use aff4tools.Prelude.{
  ℕ, ◌+◌, ◌≤◌, Option, ◌≡◌, sym, ◌∙◌, List, slice_of, slice_of_const, flatten, u64_max,
}
use aff4tools.Prelude.Exec.{Exec, Sink, on_second, feed}
use aff4tools.Arn.{Arn}
use aff4tools.Map.{MapError, UnknownKind}
use aff4tools.Map.Emit.{emit_repeated, emit_unknown}
use aff4tools.Map.Emit.Pieces.{unknown_byte, emit_repeated_pieces, emit_unknown_pieces}
use aff4tools.Map.Source.{StreamSource, Within, Serves}

module _ {Src T : Type 0} (source : StreamSource Src) (sink : Sink MapError T) where
  -- `source.read_region(…)`, `emit_repeated(…)` or `emit_unknown(…)` for `n` bytes at `o`.
  unfoldable pub produce_stored : Arn → ℕ → ℕ → Exec MapError (Src × T) (Unit {0})
  produce_stored arn o n = source.read_region T arn o n sink

  unfoldable pub produce_repeated : ℕ → ℕ → Exec MapError (Src × T) (Unit {0})
  produce_repeated byte n = on_second (emit_repeated sink byte n)

  unfoldable pub produce_unknown : UnknownKind → ℕ → ℕ → Exec MapError (Src × T) (Unit {0})
  produce_unknown kind n o = on_second (emit_unknown sink kind n o)

  -- The action answers as the sink does to pieces that join to `bytes`.
  abbrev pub Feeds : Exec MapError (Src × T) (Unit {0}) → List ℕ → Type 0
  Feeds act bytes =
      (src : Src) (t : T)
      → (ps : List (List ℕ)) × (src' : Src) × (flatten ps ≡ bytes)
        × (act (src, t) ≡ ((feed sink ps t).0, (src', (feed sink ps t).1)))

  pub stored-Feeds :
      (content : Arn → ℕ → ℕ) (size : Arn → Option ℕ)
      → Serves source content size
      → (arn : Arn) (o n : ℕ) → Within (size arn) (o + n)
      → Feeds (produce_stored arn o n) (slice_of (content arn) o n)
  unfolding produce_stored
  stored-Feeds content size law arn o n h src t = law.serves arn o n h T sink src t

  pub repeated-Feeds : (byte o n : ℕ) → Feeds (produce_repeated byte n) (slice_of (λ _. byte) o n)
  unfolding produce_repeated
  repeated-Feeds byte o n src t =
      let (ps, joined, fed) = emit_repeated_pieces byte n in
      (ps, src, joined ∙ sym (slice_of_const byte o n), rw (fed T sink))

  pub unknown-Feeds :
      (kind : UnknownKind) (o n : ℕ)
      → o + n ≤ u64_max
      → Feeds (produce_unknown kind n o) (slice_of (unknown_byte kind) o n)
  unfolding produce_unknown
  unknown-Feeds kind o n h src t =
      let (ps, joined, fed) = emit_unknown_pieces kind n o h in (ps, src, joined, rw (fed T sink))
