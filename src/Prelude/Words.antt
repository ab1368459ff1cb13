-- ===== src/Prelude/Words.antt =====
-- 64-bit unsigned arithmetic as the source writes it: `saturating_add`, `checked_add`,
-- `saturating_sub` (subtraction on ℕ), and the bounds of the widths.
use Prim.Native.Nat.{ℕ, ◌+◌, ◌-◌, ◌^◌, ◌≤◌, min}
use mathlib.Core.Path.{◌≡◌}
use mathlib.Core.Option.{Option, none, some}
use native.Mathlib.Omega.{arith}
use aff4tools.Prelude.Tests.{ltb, if◌then◌else◌}

abbrev pub u64_max : ℕ
u64_max = 2 ^ 64 - 1

abbrev pub u32_max : ℕ
u32_max = 2 ^ 32 - 1

-- `a.saturating_add(b)` on u64 (and on usize, which has 64 bits here).
unfoldable pub sat_add : ℕ → ℕ → ℕ
sat_add a b = min (a + b) u64_max

-- `a.checked_add(b)` on u64.
unfoldable pub checked_add : ℕ → ℕ → Option ℕ
checked_add a b = if ltb u64_max (a + b) then none else some (a + b)

pub sat_add_exact : (a b : ℕ) → a + b ≤ u64_max → sat_add a b ≡ a + b
unfolding sat_add
sat_add_exact a b h = omega arith

pub sat_add-le : (a b : ℕ) → sat_add a b ≤ u64_max
unfolding sat_add
sat_add-le a b = omega arith

pub checked_add_exact : (a b : ℕ) → a + b ≤ u64_max → checked_add a b ≡ some (a + b)
unfolding checked_add
checked_add_exact a b h = ground arith

pub checked_add-some : (a b c : ℕ) → checked_add a b ≡ some c → (c ≡ a + b) × (a + b ≤ u64_max)
unfolding checked_add
checked_add-some a b c h = ground arith
