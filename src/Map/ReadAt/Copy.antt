-- ===== src/Map/ReadAt/Copy.antt =====
-- The sink of `read_at_impl`: pieces that fit are laid down one behind the other.
use aff4tools.Prelude.{
  ℕ, zero, suc, ◌+◌, ◌-◌, ◌≤◌, ◌≡◌, refl, sym, ◌∙◌, min, List, [], ◌∷◌, ◌++◌, append-nil,
  append_assoc, arith, length, length-append, drop, drop-drop, take_all, take-append, length-drop,
  flatten, sat_add, sat_add_exact, u64_max,
}
use mathlib.Core.Path.{ap₂}
use aff4tools.Prelude.Results.{Result, ok}
use aff4tools.Map.{MapError}
use aff4tools.Prelude.Exec.{feed}
use aff4tools.Map.ReadAt.{Window, copy_piece}

abbrev pub at : List ℕ → List ℕ → Window
at before rest = record { dest = before ++ rest; cursor = length before }

abbrev pub ok_window : List ℕ → ℕ → Result MapError (Unit {0}) × Window
ok_window dest cursor = (ok tt, record { dest = dest; cursor = cursor })

drop-append_behind : (xs ys : List ℕ) (n k : ℕ) → length xs + n ≡ k → drop k (xs ++ ys) ≡ drop n ys
drop-append_behind [] ys n k h = let e : k ≡ n = omega arith in cc
drop-append_behind (x ∷ xs) ys n zero h = absurd (omega arith)
drop-append_behind (x ∷ xs) ys n (suc k) h = drop-append_behind xs ys n k (omega arith)

copy_piece_lem :
    (piece before rest : List ℕ)
    → length piece ≤ length rest
    → length before + length rest ≤ u64_max
    → copy_piece piece (at before rest) ≡ (ok tt, at (before ++ piece) (drop (length piece) rest))
unfolding copy_piece
copy_piece_lem piece before rest fits small =
    let n : ℕ = length before in
    let k : ℕ = length piece in
    let total : length (before ++ rest) ≡ n + length rest = length-append before rest in
    let stop : min (sat_add n k) (length (before ++ rest)) ≡ n + k =
      omega (arith, total, sat_add_exact n k (omega arith)) in
    let room : n + k - n ≡ k = omega arith in
    rw
      (
        stop,
        room,
        take-append before rest,
        take_all k piece (omega arith),
        drop-append_behind before rest k (n + k) refl,
      )
      (ap₂ (λ (d : List ℕ) (c : ℕ). ok_window d c) (sym (append_assoc before piece (drop k rest)))
        (sym (length-append before piece)))

-- Pieces that fit the buffer are laid down one behind the other, and nothing else changes.
pub feed-copy_piece :
    (ps : List (List ℕ)) (before rest : List ℕ)
    → length (flatten ps) ≤ length rest
    → length before + length rest ≤ u64_max
    → feed copy_piece ps (at before rest)
      ≡ ok_window
          ((before ++ flatten ps) ++ drop (length (flatten ps)) rest)
          (length (before ++ flatten ps))
unfolding feed
feed-copy_piece [] before rest fits small = rw append-nil refl
feed-copy_piece (p ∷ ps) before rest fits small =
    let here = length-append p (flatten ps) in
    let left = length-drop (length p) rest in
    rw (copy_piece_lem p before rest (omega (arith, here)) small) (
      feed-copy_piece ps (before ++ p) (drop (length p) rest) (omega (arith, here, left))
        (omega (arith, here, left, length-append before p))
      ∙ ap₂ (λ (d : List ℕ) (r : List ℕ). ok_window (d ++ r) (length d))
          (append_assoc before p (flatten ps))
          (drop-drop (length p) (length (flatten ps)) (length (p ++ flatten ps)) rest (sym here)))
