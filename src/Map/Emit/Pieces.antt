-- ===== src/Map/Emit/Pieces.antt =====
-- What `emit_repeated` and `emit_unknown` feed to a sink: pieces that join to the bytes of the
-- region, wherever the region begins.
use aff4tools.Prelude.{
  ℕ, zero, suc, ◌+◌, ◌-◌, ◌%◌, ◌≤◌, ◌<◌, ◌≡◌, refl, sym, ap, ◌∙◌, inl, inr, min, List, [], ◌∷◌,
  ◌++◌, arith, ◌==◌, ltb, if◌then◌else◌, replicate, slice_of, slice_of-add, flatten, sat_add,
  sat_add_exact, u64_max, Bool-cases, ==_iff, slice_of_ext, ltb→lt,
}
use mathlib.Core.Path.{ap₂}
use aff4tools.Prelude.Exec.{Exec, Sink, feed, ◌>>=◌}
use aff4tools.Map.{UnknownKind, MapError}
use aff4tools.Map.Emit.{
  block_len, run_buffer_len, pattern_byte, pattern_piece, repeat_loop, emit_repeated, unknown_loop,
  emit_unknown,
}

-- The byte that v1.0a defines for a position of an unknown region.
unfoldable pub unknown_byte : UnknownKind → ℕ → ℕ
unfolding pattern_byte
unknown_byte kind position = pattern_byte kind (position % block_len)

unfoldable pub repeat_pieces : ℕ → ℕ → ℕ → ℕ → List (List ℕ)
repeat_pieces zero byte buffer_len remaining = []
repeat_pieces (suc fuel) byte buffer_len remaining =
    let rest = repeat_pieces fuel byte buffer_len (remaining - min remaining buffer_len) in
    if remaining == 0 then [] else replicate (min remaining buffer_len) byte ∷ rest

unfoldable pub unknown_pieces : ℕ → UnknownKind → ℕ → ℕ → ℕ → List (List ℕ)
unknown_pieces zero kind n target_offset produced = []
unknown_pieces (suc fuel) kind n target_offset produced =
    let position = sat_add target_offset produced in
    let want = min (min (n - produced) (block_len - position % block_len)) run_buffer_len in
    let rest = unknown_pieces fuel kind n target_offset (produced + want) in
    if ltb produced n then pattern_piece kind (position % block_len) want ∷ rest else []

module _ {S : Type 0} (sink : Sink MapError S) where
  repeat_loop-feed :
      (fuel byte buffer_len remaining : ℕ)
      → repeat_loop sink fuel byte buffer_len remaining
        ≡ feed sink (repeat_pieces fuel byte buffer_len remaining)
  unfolding repeat_loop repeat_pieces feed
  repeat_loop-feed zero byte buffer_len remaining = refl
  repeat_loop-feed (suc fuel) byte buffer_len remaining = elim (Bool-cases (remaining == 0)) [
    | inl p ↦ rw p
    | inr p ↦ rw p (
        ap
          (λ (k : Exec MapError S (Unit {0})).
            sink (replicate (min remaining buffer_len) byte) >>= λ _. k)
          (repeat_loop-feed fuel byte buffer_len (remaining - min remaining buffer_len)))
  ]

  unknown_loop-feed :
      (fuel : ℕ) (kind : UnknownKind) (n target_offset produced : ℕ)
      → unknown_loop sink fuel kind n target_offset produced
        ≡ feed sink (unknown_pieces fuel kind n target_offset produced)
  unfolding unknown_loop unknown_pieces feed
  unknown_loop-feed zero kind n target_offset produced = refl
  unknown_loop-feed (suc fuel) kind n target_offset produced =
      let position = sat_add target_offset produced in
      let want = min (min (n - produced) (block_len - position % block_len)) run_buffer_len in
      elim (Bool-cases (ltb produced n)) [
        | inl p ↦ rw p (
            ap
              (λ (k : Exec MapError S (Unit {0})).
                sink (pattern_piece kind (position % block_len) want) >>= λ _. k)
              (unknown_loop-feed fuel kind n target_offset (produced + want)))
        | inr p ↦ rw p
      ]

replicate-add {ℓ} :
    {A : Type ℓ} (a : A) (m n k : ℕ) → m + n ≡ k → replicate m a ++ replicate n a ≡ replicate k a
replicate-add a zero n k h = let e : n ≡ k = omega arith in cc
replicate-add a (suc m) n zero h = absurd (omega arith)
replicate-add a (suc m) n (suc k) h = ap (λ t. a ∷ t) (replicate-add a m n k (omega arith))

repeat_pieces-flatten :
    (fuel byte buffer_len remaining : ℕ)
    → remaining ≤ fuel
    → 0 < buffer_len
    → flatten (repeat_pieces fuel byte buffer_len remaining) ≡ replicate remaining byte
unfolding repeat_pieces
repeat_pieces-flatten zero byte buffer_len zero h b = refl
repeat_pieces-flatten zero byte buffer_len (suc n) h b = absurd (omega arith)
repeat_pieces-flatten (suc fuel) byte buffer_len remaining h b =
    elim (Bool-cases (remaining == 0)) [
      | inl p ↦ let z : remaining ≡ 0 = (==_iff remaining 0).0 p in rw z refl
      | inr p ↦
          let left : ℕ = remaining - min remaining buffer_len in
          rw p (
            ap (λ t. replicate (min remaining buffer_len) byte ++ t)
              (repeat_pieces-flatten fuel byte buffer_len left (ground arith) b)
            ∙ replicate-add byte (min remaining buffer_len) left remaining (omega arith))
    ]

pattern_piece-slice_plain :
    (kind : UnknownKind) (w n : ℕ) → pattern_piece kind w n ≡ slice_of (pattern_byte kind) w n
unfolding pattern_piece
pattern_piece-slice_plain kind w zero = refl
pattern_piece-slice_plain kind w (suc n) =
    ap (λ t. pattern_byte kind w ∷ t) (pattern_piece-slice_plain kind (suc w) n)

mod_shift :
    (position want i : ℕ)
    → position % block_len + want ≤ block_len
    → i < want
    → position % block_len + i ≡ (position + i) % block_len
mod_shift position want i h lt = omega arith

pattern_piece-slice :
    (kind : UnknownKind) (position want : ℕ)
    → position % block_len + want ≤ block_len
    → pattern_piece kind (position % block_len) want ≡ slice_of (unknown_byte kind) position want
pattern_piece-slice kind position want h =
    pattern_piece-slice_plain kind (position % block_len) want
    ∙ slice_of_ext (pattern_byte kind) (unknown_byte kind) (position % block_len) position want
        in_phase
  where
    in_phase :
        (i : ℕ)
        → i < want
        → pattern_byte kind (position % block_len + i) ≡ unknown_byte kind (position + i)
    in_phase i lt = unfold unknown_byte in ap (pattern_byte kind) (mod_shift position want i h lt)

unknown_pieces-flatten :
    (fuel : ℕ) (kind : UnknownKind) (n target_offset produced : ℕ)
    → n ≤ produced + fuel
    → produced ≤ n
    → target_offset + n ≤ u64_max
    → flatten (unknown_pieces fuel kind n target_offset produced)
      ≡ slice_of (unknown_byte kind) (target_offset + produced) (n - produced)
unfolding unknown_pieces
unknown_pieces-flatten zero kind n target_offset produced enough le fits =
    let z : 0 ≡ n - produced = omega arith in
    ap (λ k. slice_of (unknown_byte kind) (target_offset + produced) k) z
unknown_pieces-flatten (suc fuel) kind n target_offset produced enough le fits =
    elim (Bool-cases (ltb produced n)) [
      | inl p ↦
          let position : ℕ = target_offset + produced in
          let want : ℕ =
            min (min (n - produced) (block_len - position % block_len)) run_buffer_len in
          let exact : sat_add target_offset produced ≡ position =
            sat_add_exact target_offset produced (omega arith) in
          let more : produced < n = ltb→lt produced n p in
          rw (p, exact)
            (ap₂ (λ (xs ys : List ℕ). xs ++ ys)
                (pattern_piece-slice kind position want (omega arith))
                (unknown_pieces-flatten fuel kind n target_offset (produced + want) (omega arith)
                  (omega arith) fits)
              ∙ sym (
                  slice_of-add (unknown_byte kind) position want (n - (produced + want))
                    (target_offset + (produced + want)) (n - produced) (omega arith) (omega arith)))
      | inr p ↦
          let z : 0 ≡ n - produced = ground arith in
          rw p (ap (λ k. slice_of (unknown_byte kind) (target_offset + produced) k) z)
    ]

slice_of_whole : (f : ℕ → ℕ) (start n : ℕ) → slice_of f (start + 0) (n - 0) ≡ slice_of f start n
slice_of_whole f start n =
    let a : start + 0 ≡ start = omega arith in let b : n - 0 ≡ n = omega arith in cc

-- `emit_repeated` feeds pieces that join to `n` copies of the byte; the pieces depend on the byte
-- and on `n` alone.
pub emit_repeated_pieces :
    (byte n : ℕ)
    → (ps : List (List ℕ)) × (flatten ps ≡ replicate n byte)
      × ((S : Type 0) (sink : Sink MapError S) → emit_repeated sink byte n ≡ feed sink ps)
unfolding emit_repeated
emit_repeated_pieces byte zero = ([], refl, λ S sink. unfold repeat_loop feed in refl)
emit_repeated_pieces byte (suc n) = (
  repeat_pieces (suc n) byte (min (suc n) run_buffer_len) (suc n),
  repeat_pieces-flatten (suc n) byte (min (suc n) run_buffer_len) (suc n) (omega arith)
      (omega arith),
  λ S sink. repeat_loop-feed sink (suc n) byte (min (suc n) run_buffer_len) (suc n),
)

-- Where its range ends at a u64, `emit_unknown` feeds pieces that join to the placeholder bytes of
-- the range: the byte at a position depends on the position alone, so a read that begins anywhere
-- is in phase.
pub emit_unknown_pieces :
    (kind : UnknownKind) (n target_offset : ℕ)
    → target_offset + n ≤ u64_max
    → (ps : List (List ℕ)) × (flatten ps ≡ slice_of (unknown_byte kind) target_offset n)
      × ((S : Type 0) (sink : Sink MapError S)
          → emit_unknown sink kind n target_offset ≡ feed sink ps)
unfolding emit_unknown
emit_unknown_pieces kind n target_offset fits = (
  unknown_pieces n kind n target_offset 0,
  unknown_pieces-flatten n kind n target_offset 0 (omega arith) (omega arith) fits
      ∙ slice_of_whole (unknown_byte kind) target_offset n,
  λ S sink. unknown_loop-feed sink n kind n target_offset 0,
)
