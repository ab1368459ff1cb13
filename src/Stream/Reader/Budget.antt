-- ===== src/Stream/Reader/Budget.antt =====
-- aff4tools: src/stream.rs, how much the resident bevies of `ChunkReader` take.
use aff4tools.Prelude.{
  ℕ, ◌+◌, ◌≤◌, ◌≡◌, ◌⊎◌, refl, ap, inl, inr, Option, none, some, List, [], ◌∷◌, ◌++◌, arith, ltb,
  ◌==◌, length, length-append, Bool-cases, Option-cases, eq_of_some,
}
use aff4tools.Prelude.Results.{Result}
use aff4tools.Prelude.Exec.{Exec, Keeps, Keeps->>=, lift, raise}
use aff4tools.Prelude.Exec
use aff4tools.Text.{Text}
use aff4tools.Arn.Member.{NameMapping}
use aff4tools.Codec.{Decoders}
use aff4tools.Stream.{
  ImageStream, StreamError, Volume, ChunkLocation, index_suffix, bevy_name, parse_index_bounded,
  on_first,
}
use aff4tools.Stream.Reader.{
  Bevy, ChunkReader, bevy_cache_bytes, resident_bytes, make_room, find_bevy, without_bevy,
  hold_bevy, fetch_bevy, load_bevy,
}

-- The bevies fit the budget, or there is one at most.
abbrev pub IsWithinBudget : List Bevy → Type 0
IsWithinBudget bevies = (resident_bytes bevies ≤ bevy_cache_bytes) ⊎ (length bevies ≤ 1)

resident_bytes-append :
    (bs cs : List Bevy) → resident_bytes (bs ++ cs) ≡ resident_bytes bs + resident_bytes cs
unfolding resident_bytes
resident_bytes-append [] cs = omega arith
resident_bytes-append (b ∷ bs) cs = let rest = resident_bytes-append bs cs in omega (arith, rest)

-- The newcomer fits behind what is left, or nothing is left.
make_room_lem :
    (incoming : ℕ) (bs : List Bevy)
    → (resident_bytes (make_room incoming bs) + incoming ≤ bevy_cache_bytes)
      ⊎ (make_room incoming bs ≡ [])
unfolding make_room resident_bytes
make_room_lem incoming [] = inr refl
make_room_lem incoming (b ∷ bs) =
    elim (Bool-cases (ltb bevy_cache_bytes (resident_bytes (b ∷ bs) + incoming))) [
      | inl full ↦ rw full (make_room_lem incoming bs)
      | inr room ↦ rw room (inl (ground (arith, room)))
    ]

-- Taking a bevy out.
without_bevy_lem :
    (i : ℕ) (bs : List Bevy) (hit : Bevy)
    → find_bevy i bs ≡ some hit
    → (resident_bytes (without_bevy i bs) + length hit.bytes ≡ resident_bytes bs)
      × (length (without_bevy i bs) + 1 ≡ length bs)
unfolding find_bevy without_bevy resident_bytes
without_bevy_lem i [] hit h = cc
without_bevy_lem i (b ∷ bs) hit h = elim (Bool-cases (b.index == i)) [
  | inl here ↦
      let e : b ≡ hit = eq_of_some (rw here at h) in
      let l : length b.bytes ≡ length hit.bytes = ap (λ (x : Bevy). length x.bytes) e in
      rw here (omega (arith, l), omega arith)
  | inr later ↦
      let rest = without_bevy_lem i bs hit (rw later at h) in
      rw later (omega (arith, rest), omega (arith, rest))
]

hold-IsWithinBudget :
    (bs : List Bevy) (b : Bevy) → IsWithinBudget (make_room (length b.bytes) bs ++ (b ∷ []))
unfolding resident_bytes
hold-IsWithinBudget bs b =
    let sum = resident_bytes-append (make_room (length b.bytes) bs) (b ∷ []) in
    elim (make_room_lem (length b.bytes) bs) [
      | inl fits ↦ inl (omega (arith, sum, fits))
      | inr alone ↦ inr (let n = ap length (ap (λ xs. xs ++ (b ∷ [])) alone) in omega (arith, n))
    ]

move-IsWithinBudget :
    (i : ℕ) (bs : List Bevy) (hit : Bevy)
    → find_bevy i bs ≡ some hit
    → IsWithinBudget bs
    → IsWithinBudget (without_bevy i bs ++ (hit ∷ []))
unfolding resident_bytes
move-IsWithinBudget i bs hit h budget =
    let sum = resident_bytes-append (without_bevy i bs) (hit ∷ []) in
    let both = without_bevy_lem i bs hit h in
    let count = length-append (without_bevy i bs) (hit ∷ []) in
    elim budget [
      | inl fits ↦ inl (omega (arith, sum, both, fits))
      | inr one ↦ inr (omega (arith, count, both, one))
    ]

module _ (decoders : Decoders) (stream : ImageStream) {V : Type 0} (volume : Volume V)
    (mapping : NameMapping) where
  abbrev Kept : V × ChunkReader → Type 0
  Kept s = IsWithinBudget s.1.resident

  abbrev Anything : {A : Type 0} → Result StreamError A × (V × ChunkReader) → Type 0
  Anything r = Unit

  fetch_bevy-Kept :
      (i : ℕ) (name : Option Text)
      → Keeps Kept (fetch_bevy decoders stream volume mapping i name) (Anything {A = Unit {0}})
  unfolding fetch_bevy hold_bevy
  fetch_bevy-Kept i none s kept = (kept, tt)
  fetch_bevy-Kept i (some name) s0 kept0 =
      Keeps->>= Kept (Anything {A = List ℕ}) (Anything {A = Unit {0}})
        (λ index.
          Exec.◌>>=◌ (lift (parse_index_bounded index stream.chunks_in_segment)) (λ locations.
            Exec.◌>>=◌ (on_first (volume.read_segment name)) (λ bytes.
              hold_bevy decoders stream volume mapping
                (record { index = i; bytes = bytes; locations = locations }))))
        (on_first (volume.read_segment (name ++ index_suffix))) (λ s kept. (kept, tt))
        (λ index s kept u.
          Keeps->>= Kept (Anything {A = List ChunkLocation}) (Anything {A = Unit {0}})
            (λ locations. Exec.◌>>=◌ (on_first (volume.read_segment name)) (λ bytes.
              hold_bevy decoders stream volume mapping
                (record { index = i; bytes = bytes; locations = locations })))
            (lift (parse_index_bounded index stream.chunks_in_segment)) (λ s kept. (kept, tt))
            (λ locations s kept u.
              Keeps->>= Kept (Anything {A = List ℕ}) (Anything {A = Unit {0}})
                (λ bytes.
                  hold_bevy decoders stream volume mapping
                    (record { index = i; bytes = bytes; locations = locations }))
                (on_first (volume.read_segment name)) (λ s kept. (kept, tt))
                (λ bytes s kept u. (
                  hold-IsWithinBudget s.1.resident
                      (record { index = i; bytes = bytes; locations = locations }),
                  tt,
                ))
                (λ e s u. tt) s kept)
            (λ e s u. tt) s kept)
        (λ e s u. tt) s0 kept0

  -- Whatever the volume answers, `load_bevy` keeps the resident bevies within `BEVY_CACHE_BYTES`, or at
  -- a single bevy, which may exceed it.
  pub load_bevy-IsWithinBudget :
      (i : ℕ) (s : V × ChunkReader)
      → IsWithinBudget s.1.resident
      → IsWithinBudget (load_bevy decoders stream volume mapping i s).1.1.resident
  unfolding load_bevy
  load_bevy-IsWithinBudget i s kept = elim (Option-cases (find_bevy i s.1.resident)) [
    | inl absent ↦
        rw (absent, load_bevy) (fetch_bevy-Kept i (bevy_name stream volume.arn mapping i) s kept).0
    | inr (hit, found) ↦ rw (found, load_bevy) (move-IsWithinBudget i s.1.resident hit found kept)
  ]
