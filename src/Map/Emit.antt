-- ===== src/Map/Emit.antt =====
-- aff4tools: src/map.rs, `emit_repeated` and `emit_unknown`: the bytes of a region that is
-- described rather than stored, in pieces of at most `RUN_BUFFER_LEN`.
pub mod Pieces
use aff4tools.Prelude.{
  ℕ, zero, suc, ◌+◌, ◌-◌, ◌%◌, ◌^◌, min, List, [], ◌∷◌, ◌==◌, ltb, leb, if◌then◌else◌, length,
  replicate, get_or, sat_add, true, false,
}
use aff4tools.Prelude.Exec.{Exec, Sink, pure, ◌>>=◌}
use aff4tools.Map.{UnknownKind, MapError}
use aff4tools.Map.Targets.{filler}

-- `RUN_BUFFER_LEN`
abbrev pub run_buffer_len : ℕ
run_buffer_len = 65536

-- `BLOCK`: the pattern of an unknown region restarts every 1 MiB.
abbrev pub block_len : ℕ
block_len = 1048576

-- The byte at an offset within a block, as the inner loop of `emit_unknown` picks it.
unfoldable pub pattern_byte : UnknownKind → ℕ → ℕ
unfolding filler
pattern_byte kind i = get_or (filler kind) (i % length (filler kind)) b'?'

-- `for i in 0..want { buffer.push(…) }`
unfoldable pub pattern_piece : UnknownKind → ℕ → ℕ → List ℕ
pattern_piece kind within_block zero = []
pattern_piece kind within_block (suc want) =
    pattern_byte kind within_block ∷ pattern_piece kind (suc within_block) want

module _ {S : Type 0} (sink : Sink MapError S) where
  -- The loop of `emit_repeated`; each round emits a byte at least.
  unfoldable pub repeat_loop : ℕ → ℕ → ℕ → ℕ → Exec MapError S (Unit {0})
  repeat_loop zero byte buffer_len remaining = pure tt
  repeat_loop (suc fuel) byte buffer_len remaining =
      let rest = repeat_loop fuel byte buffer_len (remaining - min remaining buffer_len) in
      if remaining == 0
      then pure tt
      else (sink (replicate (min remaining buffer_len) byte) >>= λ _. rest)

  -- `emit_repeated`
  unfoldable pub emit_repeated : ℕ → ℕ → Exec MapError S (Unit {0})
  unfolding repeat_loop
  emit_repeated byte n = repeat_loop n byte (min n run_buffer_len) n

  -- How much of a region is emitted at once: never across a block boundary.
  abbrev pub want_at : ℕ → ℕ → ℕ
  want_at position left = min (min left (block_len - position % block_len)) run_buffer_len

  -- The loop of `emit_unknown`.
  unfoldable pub unknown_loop : ℕ → UnknownKind → ℕ → ℕ → ℕ → Exec MapError S (Unit {0})
  unknown_loop zero kind n target_offset produced = pure tt
  unknown_loop (suc fuel) kind n target_offset produced =
      let position = sat_add target_offset produced in
      let want = want_at position (n - produced) in
      let rest = unknown_loop fuel kind n target_offset (produced + want) in
      if ltb produced n
      then (sink (pattern_piece kind (position % block_len) want) >>= λ _. rest)
      else pure tt

  -- `emit_unknown`
  unfoldable pub emit_unknown : UnknownKind → ℕ → ℕ → Exec MapError S (Unit {0})
  unfolding unknown_loop
  emit_unknown kind n target_offset = unknown_loop n kind n target_offset 0
