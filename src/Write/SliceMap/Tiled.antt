-- ===== src/Write/SliceMap/Tiled.antt =====
-- aff4tools: src/write/map_writer.rs, the entries of a sliced map tile the file and name its chunks.
use aff4tools.Prelude.{
  ℕ, suc, ◌+◌, ◌-◌, ◌*◌, ◌≤◌, ◌<◌, ◌≡◌, refl, sym, ap, ◌∙◌, inl, inr, min, List, [], ◌∷◌, ◌++◌,
  append_assoc, append-nil, arith, ◌==◌, length, get_elem?, u64_max, All, Bool-cases, Option-cases,
}
use aff4tools.Prelude.Results.{Result, ok, err, ok-injective, >>=-eq-ok}
use mathlib.Core.Path.{subst}
use native.Mathlib.Nat.{mul-le-mul_right, suc-mul}
use aff4tools.Text.{Text}
use aff4tools.Map.{MapEntry}
use aff4tools.Map.Decode.{parse_entries}
use aff4tools.Map.Tiling.{Tiles}
use aff4tools.Write.SliceMap.{
  SliceError, SliceMap, encode_entry, encode_entries, encode_targets, local_id_of, push_entry,
  offset_of, slice_loop, slice_map, unknown_chunk,
}
use aff4tools.Write.SliceMap.ReadsBack.{
  IsRepresentable, parse_entries-encode, encode_entries-append, Names, Extends, local_id_of-Names,
}

module _ (targets : List Text) where
  -- The entries of the first chunks, in order: each from the start of the target of its chunk.
  abbrev pub Follows : List Text → List MapEntry → List ℕ → Type 0
  Follows local_targets [] ts = Unit
  Follows local_targets (e ∷ es) [] = ⊥
  Follows local_targets (e ∷ es) (t ∷ ts) =
      (e.target_offset ≡ 0)
      × (get_elem? local_targets e.target_id ≡ get_elem? targets t)
      × Follows local_targets es ts

  module _ (size chunk_size stop : ℕ) (positive : 0 < chunk_size) (small : size ≤ u64_max)
      (word : stop * chunk_size ≤ u64_max) where
    -- What the loop adds from the chunk `index` on.
    abbrev Adds : ℕ → List ℕ → SliceMap → SliceMap → Type 0
    Adds index ts s s' =
        (es : List MapEntry) × (s'.map_bytes ≡ s.map_bytes ++ encode_entries es)
        × Follows s'.local_targets es ts
        × Tiles (min size (index * chunk_size)) es (min size (stop * chunk_size))
        × All IsRepresentable es
        × Extends targets s.local_targets s'.local_targets

    nothing_added :
        (index : ℕ) (ts : List ℕ) (s s' : SliceMap)
        → min size (index * chunk_size) ≡ min size (stop * chunk_size)
        → ◌≡◌ {A = Result SliceError SliceMap} (ok s) (ok s')
        → Adds index ts s s'
    unfolding encode_entries
    nothing_added index ts s s' ends h =
        let e : s ≡ s' = ok-injective h in
        subst (λ x. Adds index ts s x) e
          ([], sym (append-nil s.map_bytes), tt, ends, tt, λ i w there. there)

    -- A round that adds an entry.
    entry_added :
        (index t : ℕ) (ts : List ℕ) (text : Text) (s s1 s' : SliceMap) (id : ℕ)
        → index * chunk_size < size
        → suc index * chunk_size ≤ u64_max
        → Names targets s1.local_targets (t, id)
        → s1.map_bytes ≡ s.map_bytes
        → Extends targets s.local_targets s1.local_targets
        → Adds
            (suc index)
            ts
            (push_entry (index * chunk_size) (min chunk_size (size - index * chunk_size)) id s1)
            s'
        → Adds index (t ∷ ts) s s'
    unfolding push_entry
    entry_added index t ts text s s1 s' id inside fits (w, global, local, narrow) bytes more
          (es, rest, follows, tiles, all, more') =
        let n = min chunk_size (size - index * chunk_size) in
        let e : MapEntry = record {
          offset = index * chunk_size;
          length = n;
          target_offset = 0;
          target_id = id;
        } in
        let next = suc-mul index chunk_size in
        let some_length : 0 < n = omega (arith, inside, positive) in
        let start : index * chunk_size ≡ min size (index * chunk_size) = omega (arith, inside) in
        let after : min size (suc index * chunk_size) ≡ index * chunk_size + n =
          omega (arith, next, inside) in
        (
          e ∷ es,
          rest
              ∙ ap (λ b. (b ++ encode_entry e) ++ encode_entries es) bytes
              ∙ append_assoc s.map_bytes (encode_entry e) (encode_entries es)
              ∙ ap (λ b. s.map_bytes ++ b) (sym (encode_entries-append es e)),
          (refl, more' id w local ∙ sym global, follows),
          (start, some_length, subst (λ k. Tiles k es (min size (stop * chunk_size))) after tiles),
          ((omega (arith, next, fits), omega (arith, small), omega arith, narrow), all),
          λ i v there. more' i v (more i v there),
        )

    slice_loop-Adds :
        (index : ℕ) (ts : List ℕ) (s s' : SliceMap)
        → index + length ts ≡ stop
        → All (Names targets s.local_targets) s.local_of
        → slice_loop targets size chunk_size index ts s ≡ ok s'
        → Adds index ts s s'
    unfolding slice_loop push_entry
    slice_loop-Adds index [] s s' at names h =
        let e : index ≡ stop = omega (arith, at) in
        nothing_added index [] s s' (ap (λ k. min size (k * chunk_size)) e) h
    slice_loop-Adds index (t ∷ ts) s s' at names h = elim (Option-cases (get_elem? targets t)) [
      | inl missing ↦
          let clash : ◌≡◌ {A = Result SliceError SliceMap} (err (unknown_chunk t)) (ok s') =
            rw (missing, slice_loop) at h in
          cc
      | inr (text, global) ↦
          let upto : index * chunk_size ≤ stop * chunk_size =
            mul-le-mul_right chunk_size (omega (arith, at)) in
          let upto' : suc index * chunk_size ≤ stop * chunk_size =
            mul-le-mul_right chunk_size (omega (arith, at)) in
          let exact : offset_of index chunk_size ≡ index * chunk_size = omega (arith, upto, word) in
          elim (Bool-cases (min chunk_size (size - offset_of index chunk_size) == 0)) [
            | inl past ↦
                let ends : min size (index * chunk_size) ≡ min size (stop * chunk_size) =
                  ground (arith, past, positive, upto, exact) in
                nothing_added index (t ∷ ts) s s' ends (rw (global, past, slice_loop) at h)
            | inr more ↦
                let inside : index * chunk_size < size = ground (arith, more, exact) in
                let go_on : ℕ × SliceMap → Result SliceError SliceMap = λ r.
                  slice_loop targets size chunk_size (suc index) ts (
                    push_entry (offset_of index chunk_size)
                      (min chunk_size (size - offset_of index chunk_size)) r.0 r.1) in
                let ((id, s1), found, later) =
                  >>=-eq-ok (local_id_of t text s) go_on (rw (global, more, slice_loop) at h) in
                let (named, names1, bytes, extends) =
                  local_id_of-Names targets t text s s1 id global names found in
                entry_added index t ts text s s1 s' id inside (omega (arith, upto', word)) named
                  bytes extends
                  (slice_loop-Adds (suc index) ts
                    (push_entry (index * chunk_size) (min chunk_size (size - index * chunk_size)) id
                      s1)
                    s' (omega (arith, at)) names1
                    (subst
                      (λ o.
                        slice_loop targets size chunk_size (suc index) ts
                          (push_entry o (min chunk_size (size - o)) id s1)
                        ≡ ok s')
                      exact later))
          ]
    ]

-- Where `write_slice_map` writes the map of a file of `size` bytes, from chunks of `chunk_size` bytes
-- that are not empty and end within a u64, the segment reads back: its entries tile the file from
-- 0 on, to its end or to the end of the last chunk, in the order of the chunks, each from the start of
-- the target that the chunk names, by a local id that the segment `idx` gives that target.
pub slice_map-Tiles :
    (chunk_targets : List ℕ) (targets : List Text) (size chunk_size : ℕ)
    (map_bytes idx_bytes : List ℕ)
    → 0 < chunk_size
    → size ≤ u64_max
    → length chunk_targets * chunk_size ≤ u64_max
    → slice_map chunk_targets targets size chunk_size ≡ ok (map_bytes, idx_bytes)
    → (es : List MapEntry) × (local_targets : List Text) × (parse_entries map_bytes ≡ ok es)
      × (idx_bytes ≡ encode_targets local_targets)
      × Tiles 0 es (min size (length chunk_targets * chunk_size))
      × Follows targets local_targets es chunk_targets
unfolding slice_map
slice_map-Tiles chunk_targets targets size chunk_size map_bytes idx_bytes positive small word h =
    let first : SliceMap = record { local_of = []; local_targets = []; map_bytes = [] } in
    let (s, ran, written) =
      >>=-eq-ok (slice_loop targets size chunk_size 0 chunk_targets first) _ h in
    let both : ◌≡◌ {A = List ℕ × List ℕ} (s.map_bytes, encode_targets s.local_targets)
        (map_bytes, idx_bytes) =
      ok-injective written in
    let (es, bytes, follows, tiles, all, more) =
      slice_loop-Adds targets size chunk_size (length chunk_targets) positive small word 0
        chunk_targets first s (omega arith) tt ran in
    let zero' : min size (0 * chunk_size) ≡ 0 = omega arith in
    (
      es,
      s.local_targets,
      ap (λ b. parse_entries b) (sym (ap (λ p. p.0) both) ∙ bytes) ∙ parse_entries-encode es all,
      sym (ap (λ p. p.1) both),
      subst (λ k. Tiles k es (min size (length chunk_targets * chunk_size))) zero' tiles,
      follows,
    )
