-- ===== src/Map/WellFormed.antt =====
-- aff4tools: src/map.rs, the invariant of a parsed map and what `Map::parse_with` accepts.
use aff4tools.Prelude.{
  ℕ, ◌+◌, ◌≤◌, ◌<◌, ◌≡◌, ◌↔◌, refl, List, [], ◌∷◌, arith, length, All, checked_add, u64_max,
}
use aff4tools.Prelude.Results.{ok, >>=-eq-ok}
use aff4tools.Map.{MapEntry, Map}
use aff4tools.Map.Tiling.{Tiles}
use aff4tools.Map.Parse.{check_entry, check_entries}

-- The entries tile the address space, each names a listed target, and the size is a u64.
pub record IsWellFormed (m : Map) : Type 0 where
  pub tiles : Tiles 0 m.entries m.size
  pub listed : All (λ (e : MapEntry). e.target_id < length m.targets) m.entries
  pub small : m.size ≤ u64_max

-- An entry that `check_entry` passes, `count` targets being listed.
abbrev pub IsSound : ℕ → MapEntry → Type 0
IsSound count e = (0 < e.length) × (e.target_id < count) × (e.offset + e.length ≤ u64_max)

pub check_entry_iff :
    (count index : ℕ) (e : MapEntry) → (check_entry count index e ≡ ok tt) ↔ IsSound count e
unfolding check_entry checked_add
check_entry_iff count index e = ground arith

pub check_entries-ok :
    (count index : ℕ) (es : List MapEntry)
    → check_entries count index es ≡ ok tt
    → All (IsSound count) es
unfolding check_entries
check_entries-ok count index [] h = tt
check_entries-ok count index (e ∷ es) h =
    let (u, first, rest) =
      >>=-eq-ok (check_entry count index e) (λ (_ : Unit {0}). check_entries count (index + 1) es)
        h in
    ((check_entry_iff count index e).0 first, check_entries-ok count (index + 1) es rest)

pub ok-check_entries :
    (count index : ℕ) (es : List MapEntry)
    → All (IsSound count) es
    → check_entries count index es ≡ ok tt
unfolding check_entries
ok-check_entries count index [] h = refl
ok-check_entries count index (e ∷ es) h =
    rw ((check_entry_iff count index e).1 h.0) (ok-check_entries count (index + 1) es h.1)

pub All-map {ℓ} :
    {A : Type ℓ} (P Q : A → Type 0) (f : (a : A) → P a → Q a) (xs : List A) → All P xs → All Q xs
All-map P Q f [] all = tt
All-map P Q f (x ∷ xs) all = (f x all.0, All-map P Q f xs all.1)
