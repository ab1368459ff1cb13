-- ===== src/Map/Refusing.antt =====
-- aff4tools: src/map.rs, the loop of `resolve_coverage` under `GapPolicy::Refuse`.
use aff4tools.Prelude.{
  ℕ, ◌+◌, ◌≤◌, ◌<◌, ◌≡◌, refl, sym, ap, ◌∙◌, List, [], ◌∷◌, arith, All, checked_add, u64_max,
}
use aff4tools.Prelude.Results.{ok, ◌>>=◌, >>=-eq-ok, ok-injective}
use aff4tools.Map.{MapEntry, refuse}
use aff4tools.Map.Coverage.{Cover, reach, advance, cover_entries}
use aff4tools.Map.Tiling.{Tiles}

-- Under `refuse` the loop accepts the entries that tile, and changes the two numbers alone.
abbrev pub at_end : Cover → ℕ → Cover
at_end c stop = record c { covered = stop; previous_end = stop }

refuse_round :
    (position : ℕ) (e : MapEntry) (c c' : Cover)
    → c.covered ≡ c.previous_end
    → (reach refuse position e c >>= advance position e) ≡ ok c'
    → (e.offset ≡ c.previous_end)
      × (e.offset + e.length ≤ u64_max)
      × (c' ≡ at_end c (e.offset + e.length))
unfolding reach advance checked_add
refuse_round position e c c' h p = ground arith

refuse_round_ok :
    (position : ℕ) (e : MapEntry) (c : Cover)
    → c.covered ≡ c.previous_end
    → e.offset ≡ c.previous_end
    → e.offset + e.length ≤ u64_max
    → (reach refuse position e c >>= advance position e) ≡ ok (at_end c (e.offset + e.length))
unfolding reach advance checked_add
refuse_round_ok position e c h p q = ground arith

pub refuse_entries :
    (position : ℕ) (es : List MapEntry) (c c' : Cover)
    → All (λ (e : MapEntry). 0 < e.length) es
    → c.covered ≡ c.previous_end
    → cover_entries refuse position es c ≡ ok c'
    → Tiles c.previous_end es c'.previous_end × (c' ≡ at_end c c'.previous_end)
unfolding cover_entries
refuse_entries position [] c c' all h p =
    let same : c' ≡ c = sym (ok-injective p) in rw same (refl, ground arith)
refuse_entries position (e ∷ es) c c' all h p =
    let (c1, first, rest) =
      >>=-eq-ok (reach refuse position e c >>= advance position e)
        (cover_entries refuse (position + 1) es) p in
    let (at, fits, next) = refuse_round position e c c1 h first in
    let ih = refuse_entries (position + 1) es c1 c' all.1 (rw next refl) rest in
    (
      (at, all.0, rw (ap (λ (x : Cover). x.previous_end) next) at ih.0),
      ih.1 ∙ ap (λ (x : Cover). at_end x c'.previous_end) next,
    )

pub refuse_entries_ok :
    (position : ℕ) (es : List MapEntry) (c : Cover) (stop : ℕ)
    → c.covered ≡ c.previous_end
    → All (λ (e : MapEntry). e.offset + e.length ≤ u64_max) es
    → Tiles c.previous_end es stop
    → cover_entries refuse position es c ≡ ok (at_end c stop)
unfolding cover_entries
refuse_entries_ok position [] c stop h all t = ground arith
refuse_entries_ok position (e ∷ es) c stop h all t =
    rw (refuse_round_ok position e c h t.0 all.0)
      (refuse_entries_ok (position + 1) es (at_end c (e.offset + e.length)) stop refl all.1 t.2)
