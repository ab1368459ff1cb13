-- ===== src/Stream/Reader/Coherent.antt =====
-- aff4tools: src/stream.rs, the caches of `ChunkReader` stay coherent, and `decompress` answers as
-- the reference does.
use aff4tools.Prelude.{
  ℕ, ◌/◌, ◌≡◌, ◌⊎◌, refl, ◌∙◌, inl, inr, Option, none, some, List, [], ◌∷◌, ◌++◌, length,
  append-All, Option-cases,
}
use aff4tools.Prelude.Results.{Result, ok, err}
use aff4tools.Prelude.Exec.{Exec, Keeps, Keeps->>=, pure, raise, lift}
use aff4tools.Prelude.Exec
use aff4tools.Text.{Text}
use aff4tools.Arn.Member.{NameMapping}
use aff4tools.Codec.{Decoders}
use aff4tools.Stream.{
  ChunkLocation, ImageStream, StreamError, Volume, index_suffix, bevy_name, parse_index_bounded,
  on_first,
}
use aff4tools.Stream.Reader.{
  Bevy, ChunkReader, find_bevy, without_bevy, make_room, chunk_in_bevy, hold_bevy, fetch_bevy,
  load_bevy, from_resident, by_bevy,
}
use aff4tools.Stream.Reader.Caches.{
  All-find_bevy, All-without_bevy, All-make_room, find_bevy-append, find_bevy-append_at,
}
use aff4tools.Stream.Reader.Reference.{
  to_option, Agrees, Holds, listed_in, locations_of, bytes_of, chunk_of, BevyAgrees, IsCoherent,
}

module _ (decoders : Decoders) (stream : ImageStream) {V : Type 0} (volume : Volume V)
    (mapping : NameMapping) (stored : Text → Option (List ℕ)) (Fault : Type 0)
    (law : Holds volume stored Fault) (start : ChunkReader) where
  abbrev pub Coherent : ChunkReader → Type 0
  Coherent reader = IsCoherent decoders stream volume mapping stored reader

  abbrev pub SameChunks : ChunkReader → Type 0
  SameChunks reader =
      (reader.chunk ≡ start.chunk)
      × (reader.chunk_order ≡ start.chunk_order)
      × (reader.chunk_bytes_held ≡ start.chunk_bytes_held)

  -- Coherent, and the chunk cache is that of `start`.
  abbrev pub Good : V × ChunkReader → Type 0
  Good s = Coherent s.1 × SameChunks s.1

  abbrev pub listed : ℕ → Option (List ChunkLocation)
  listed i = locations_of decoders stream volume mapping stored i

  abbrev pub whole_bevy : ℕ → Option (List ℕ)
  whole_bevy i = bytes_of decoders stream volume mapping stored i

  abbrev pub plain_of : ℕ → Option (List ℕ)
  plain_of n = chunk_of decoders stream volume mapping stored n

  abbrev pub bevy_of : ℕ → ℕ
  bevy_of n = n / stream.chunks_in_segment

  pub agrees_self : {A : Type 0} (r : Result StreamError A) → Agrees Fault (to_option r) r
  agrees_self (ok a) = refl
  agrees_self (err e) = inl refl

  pub read_whole :
      (name : Text)
      → Keeps Good (on_first (volume.read_segment name)) (λ r. Agrees Fault (stored name) r.0)
  read_whole name s good = (good, law.whole name s.0)

  pub parse_raw :
      (raw : List ℕ)
      → Keeps Good
          (lift (parse_index_bounded raw stream.chunks_in_segment))
          (λ r. Agrees Fault (listed_in decoders stream volume mapping stored (some raw)) r.0)
  parse_raw raw s good = (good, agrees_self (parse_index_bounded raw stream.chunks_in_segment))

  -- The end of `load_bevy`: the bevy is resident, or the reference has no such bevy.
  abbrev Loaded : ℕ → Result StreamError (Unit {0}) × (V × ChunkReader) → Type 0
  Loaded i (ok u, s) = (b : Bevy) × (find_bevy i s.1.resident ≡ some b)
  Loaded i (err e, s) = (listed i ≡ none) ⊎ ((whole_bevy i ≡ none) ⊎ Fault)

  hold_bevy-Good :
      (i : ℕ) (bytes : List ℕ) (locations : List ChunkLocation) (s : V × ChunkReader)
      → Good s
      → listed i ≡ some locations
      → whole_bevy i ≡ some bytes
      → (let r =
            hold_bevy decoders stream volume mapping
              (record { index = i; bytes = bytes; locations = locations })
              s in
          Good r.1 × Loaded i r)
  unfolding hold_bevy
  hold_bevy-Good i bytes locations s (c, same) at there =
      let b : Bevy = record { index = i; bytes = bytes; locations = locations } in
      let room = All-make_room _ (length bytes) s.1.resident c.bevies in
      (
        (
          record {
            bevies =
                append-All _ (make_room (length bytes) s.1.resident) (b ∷ []) room
                  ((at, there), tt);
            indexes = c.indexes;
            chunks = c.chunks;
          },
          same,
        ),
        find_bevy-append (make_room (length bytes) s.1.resident) b,
      )

  -- What the parts of a bevy are under its name.
  pub listed_at :
      (i : ℕ) (name : Text) (raw : List ℕ) (locations : List ChunkLocation)
      → bevy_name stream volume.arn mapping i ≡ some name
      → stored (name ++ index_suffix) ≡ some raw
      → listed_in decoders stream volume mapping stored (some raw) ≡ some locations
      → listed i ≡ some locations
  unfolding locations_of
  listed_at i name raw locations named there parsed = rw (named, there) parsed

  pub whole_at :
      (i : ℕ) (name : Text)
      → bevy_name stream volume.arn mapping i ≡ some name
      → whole_bevy i ≡ stored name
  unfolding bytes_of
  whole_at i name named = rw named refl

  pub not_listed :
      (i : ℕ) (name : Text)
      → bevy_name stream volume.arn mapping i ≡ some name
      → (stored (name ++ index_suffix) ≡ none) ⊎ Fault
      → (listed i ≡ none) ⊎ Fault
  unfolding locations_of
  not_listed i name named (inl missing) = inl (rw (named, missing) refl)
  not_listed i name named (inr fault) = inr fault

  pub not_parsed :
      (i : ℕ) (name : Text) (raw : List ℕ)
      → bevy_name stream volume.arn mapping i ≡ some name
      → stored (name ++ index_suffix) ≡ some raw
      → (listed_in decoders stream volume mapping stored (some raw) ≡ none) ⊎ Fault
      → (listed i ≡ none) ⊎ Fault
  unfolding locations_of
  not_parsed i name raw named there (inl bad) = inl (rw (named, there) bad)
  not_parsed i name raw named there (inr fault) = inr fault

  unloaded :
      (i : ℕ) → (listed i ≡ none) ⊎ Fault → (listed i ≡ none) ⊎ ((whole_bevy i ≡ none) ⊎ Fault)
  unloaded i (inl h) = inl h
  unloaded i (inr fault) = inr (inr fault)

  fetch_bevy-Good :
      (i : ℕ) (name : Option Text)
      → bevy_name stream volume.arn mapping i ≡ name
      → Keeps Good (fetch_bevy decoders stream volume mapping i name) (Loaded i)
  unfolding fetch_bevy
  fetch_bevy-Good i none named s good = (good, inl (unfold locations_of in rw named refl))
  fetch_bevy-Good i (some name) named s0 good0 =
      Keeps->>= Good (λ r. Agrees Fault (stored (name ++ index_suffix)) r.0) (Loaded i)
        (λ index.
          Exec.◌>>=◌ (lift (parse_index_bounded index stream.chunks_in_segment)) (λ locations.
            Exec.◌>>=◌ (on_first (volume.read_segment name)) (λ bytes.
              hold_bevy decoders stream volume mapping
                (record { index = i; bytes = bytes; locations = locations }))))
        (on_first (volume.read_segment (name ++ index_suffix))) (read_whole (name ++ index_suffix))
        (λ raw s good there.
          Keeps->>= Good
            (λ r. Agrees Fault (listed_in decoders stream volume mapping stored (some raw)) r.0)
            (Loaded i)
            (λ locations. Exec.◌>>=◌ (on_first (volume.read_segment name)) (λ bytes.
              hold_bevy decoders stream volume mapping
                (record { index = i; bytes = bytes; locations = locations })))
            (lift (parse_index_bounded raw stream.chunks_in_segment)) (parse_raw raw)
            (λ locations s1 good1 parsed.
              Keeps->>= Good (λ r. Agrees Fault (stored name) r.0) (Loaded i)
                (λ bytes.
                  hold_bevy decoders stream volume mapping
                    (record { index = i; bytes = bytes; locations = locations }))
                (on_first (volume.read_segment name)) (read_whole name)
                (λ bytes s2 good2 found.
                  hold_bevy-Good i bytes locations s2 good2
                    (listed_at i name raw locations named there parsed)
                    (whole_at i name named ∙ found))
                (λ e s2 missing. inr (no_bytes i name named missing)) s1 good1)
            (λ e s1 bad. unloaded i (not_parsed i name raw named there bad)) s good)
        (λ e s missing. unloaded i (not_listed i name named missing)) s0 good0
    where
      no_bytes :
          (j : ℕ) (label : Text)
          → bevy_name stream volume.arn mapping j ≡ some label
          → (stored label ≡ none) ⊎ Fault
          → (whole_bevy j ≡ none) ⊎ Fault
      no_bytes j label h (inl missing) = inl (whole_at j label h ∙ missing)
      no_bytes j label h (inr fault) = inr fault

  moved_bevy-Good :
      (i : ℕ) (hit : Bevy) (s : V × ChunkReader)
      → Good s
      → find_bevy i s.1.resident ≡ some hit
      → Good (s.0, record s.1 { resident = without_bevy i s.1.resident ++ (hit ∷ []) })
        × ((b : Bevy) × (find_bevy i (without_bevy i s.1.resident ++ (hit ∷ [])) ≡ some b))
  moved_bevy-Good i hit s good found =
      let (agrees, at) = All-find_bevy _ i s.1.resident hit good.0.bevies found in
      (
        (
          record {
            bevies =
                append-All _ (without_bevy i s.1.resident) (hit ∷ [])
                  (All-without_bevy _ i s.1.resident good.0.bevies) (agrees, tt);
            indexes = good.0.indexes;
            chunks = good.0.chunks;
          },
          good.1,
        ),
        find_bevy-append_at i (without_bevy i s.1.resident) hit at,
      )

  load_bevy-Good : (i : ℕ) → Keeps Good (load_bevy decoders stream volume mapping i) (Loaded i)
  unfolding load_bevy
  load_bevy-Good i s good = elim (Option-cases (find_bevy i s.1.resident)) [
    | inl absent ↦
        rw (absent, load_bevy)
          (fetch_bevy-Good i (bevy_name stream volume.arn mapping i) refl s good)
    | inr (hit, found) ↦ rw (found, load_bevy) (moved_bevy-Good i hit s good found)
  ]

  -- A chunk out of a resident bevy.
  resident_chunk :
      (n : ℕ) (b : Bevy)
      → BevyAgrees decoders stream volume mapping stored b
      → b.index ≡ bevy_of n
      → Agrees Fault (plain_of n) (chunk_in_bevy decoders stream n b.locations b.bytes)
  unfolding chunk_of
  resident_chunk n b agrees at =
      let l : listed (bevy_of n) ≡ some b.locations = rw (← at) agrees.0 in
      let w : whole_bevy (bevy_of n) ≡ some b.bytes = rw (← at) agrees.1 in
      rw (l, w) (agrees_self (chunk_in_bevy decoders stream n b.locations b.bytes))

  from_resident-Good :
      (n : ℕ) (s : V × ChunkReader) (b : Bevy)
      → Good s
      → find_bevy (bevy_of n) s.1.resident ≡ some b
      → (let r = from_resident decoders stream volume mapping n s in
          Good r.1 × Agrees Fault (plain_of n) r.0)
  unfolding from_resident
  from_resident-Good n s b good found =
      let (agrees, at) = All-find_bevy _ (bevy_of n) s.1.resident b good.0.bevies found in
      rw (found, from_resident) (good, resident_chunk n b agrees at)

  no_plain :
      (n : ℕ)
      → (listed (bevy_of n) ≡ none) ⊎ ((whole_bevy (bevy_of n) ≡ none) ⊎ Fault)
      → (plain_of n ≡ none) ⊎ Fault
  unfolding chunk_of
  no_plain n (inl h) = inl (rw h refl)
  no_plain n (inr (inl h)) = elim (Option-cases (listed (bevy_of n))) [
    | inl nothing ↦ inl (rw nothing refl)
    | inr (ls, there) ↦ inl (rw (there, h) refl)
  ]
  no_plain n (inr (inr fault)) = inr fault

  pub by_bevy-Good :
      (n : ℕ)
      → Keeps Good (by_bevy decoders stream volume mapping n) (λ r. Agrees Fault (plain_of n) r.0)
  unfolding by_bevy
  by_bevy-Good n =
      Keeps->>= Good (Loaded (bevy_of n)) (λ r. Agrees Fault (plain_of n) r.0)
        (λ _. from_resident decoders stream volume mapping n)
        (load_bevy decoders stream volume mapping (bevy_of n)) (load_bevy-Good (bevy_of n))
        (λ u s good ready. from_resident-Good n s ready.0 good ready.1) (λ e s bad. no_plain n bad)
