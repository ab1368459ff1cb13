-- ===== src/Stream/Reader/ByRange.antt =====
-- aff4tools: src/stream.rs, `decompress_by_range` and `decompress` answer as the reference does.
use aff4tools.Prelude.{
  ℕ, ◌/◌, ◌%◌, ◌<◌, ◌≡◌, ◌⊎◌, refl, ◌∙◌, inl, inr, Option, none, some, List, ◌++◌, arith, ◌==◌,
  get_elem?, Bool-cases, Option-cases,
}
use aff4tools.Prelude.Results.{Result, ok, err, ◌>>=◌}
use aff4tools.Prelude.Exec.{Exec, Keeps, Keeps->>=, pure, raise, lift}
use aff4tools.Prelude.Exec
use aff4tools.Text.{Text}
use aff4tools.Arn.Member.{NameMapping}
use aff4tools.Codec.{Decoders, decompress_chunk}
use aff4tools.Stream.{
  ChunkLocation, ImageStream, StreamError, Volume, index_suffix, bevy_name, parse_index_bounded,
  slice_chunk, chunk_result, on_first,
}
use aff4tools.Stream.Exact.{slice_chunk_iff}
use aff4tools.Stream.Reader.{
  ChunkReader, get, find_bevy, cut_chunk, chunk_in_bevy, remember_index, chunk_location, from_range,
  from_location, decompress_by_range, or_by_bevy, decompress,
}
use aff4tools.Stream.Reader.Caches.{All-get, All-insert}
use aff4tools.Stream.Reader.Reference.{to_option, Agrees, RangeAgrees, Holds, listed_in, chunk_of}
use aff4tools.Stream.Reader.Coherent.{
  Good, listed, whole_bevy, plain_of, bevy_of, read_whole, parse_raw, by_bevy-Good, listed_at,
  not_listed, not_parsed, whole_at,
}

module _ (decoders : Decoders) (stream : ImageStream) {V : Type 0} (volume : Volume V)
    (mapping : NameMapping) (stored : Text → Option (List ℕ)) (Fault : Type 0)
    (law : Holds volume stored Fault) (start : ChunkReader) where
  abbrev list_of : ℕ → Option (List ChunkLocation)
  list_of n =
      listed decoders stream volume mapping stored Fault law start
        (bevy_of decoders stream volume mapping stored Fault law start n)

  abbrev plain : ℕ → Option (List ℕ)
  plain n = plain_of decoders stream volume mapping stored Fault law start n

  abbrev Fine : V × ChunkReader → Type 0
  Fine s = Good decoders stream volume mapping stored Fault law start s

  abbrev here : ℕ → ℕ
  here n = bevy_of decoders stream volume mapping stored Fault law start n

  -- The way by range: a chunk, or no answer.
  abbrev Ranged : ℕ → Result StreamError (Option (List ℕ)) → Type 0
  Ranged n (ok none) = Unit
  Ranged n (ok (some bytes)) = plain n ≡ some bytes
  Ranged n (err e) = (plain n ≡ none) ⊎ Fault

  abbrev Located : ℕ → Result StreamError (Option ChunkLocation) → Type 0
  Located n (ok none) = Unit
  Located n (ok (some location)) =
      (locations : List ChunkLocation) × (list_of n ≡ some locations)
      × (get_elem? locations (n % stream.chunks_in_segment) ≡ some location)
  Located n (err e) = (list_of n ≡ none) ⊎ Fault

  get-Located :
      (n : ℕ) (locations : List ChunkLocation)
      → list_of n ≡ some locations
      → Located n (ok (get_elem? locations (n % stream.chunks_in_segment)))
  get-Located n locations h =
      elim (Option-cases (get_elem? locations (n % stream.chunks_in_segment))) [
        | inl nothing ↦ rw nothing tt
        | inr (location, there) ↦ rw there (locations, h, there)
      ]

  remember_index-Good :
      (n : ℕ) (locations : List ChunkLocation) (s : V × ChunkReader)
      → Fine s
      → list_of n ≡ some locations
      → (let r =
            remember_index decoders stream volume mapping
              (here n)
              (n % stream.chunks_in_segment)
              locations
              s in
          Fine r.1 × Located n r.0)
  unfolding remember_index
  remember_index-Good n locations s good h = (
    (
      record {
        bevies = good.0.bevies;
        indexes = All-insert _ (here n) locations s.1.index good.0.indexes h;
        chunks = good.0.chunks;
      },
      good.1,
    ),
    get-Located n locations h,
  )

  -- The index out of the volume.
  fetch_index-Good :
      (n : ℕ) (name : Text)
      → bevy_name stream volume.arn mapping (here n) ≡ some name
      → Keeps Fine
          (Exec.◌>>=◌ (on_first (volume.read_segment (name ++ index_suffix))) (λ raw.
            Exec.◌>>=◌ (lift (parse_index_bounded raw stream.chunks_in_segment)) (λ locations.
              remember_index decoders stream volume mapping
                (here n)
                (n % stream.chunks_in_segment)
                locations)))
          (λ r. Located n r.0)
  fetch_index-Good n name named =
      Keeps->>= Fine (λ r. Agrees Fault (stored (name ++ index_suffix)) r.0) (λ r. Located n r.0)
        (λ raw. Exec.◌>>=◌ (lift (parse_index_bounded raw stream.chunks_in_segment)) (λ locations.
          remember_index decoders stream volume mapping (here n) (n % stream.chunks_in_segment)
            locations))
        (on_first (volume.read_segment (name ++ index_suffix)))
        (read_whole decoders stream volume mapping stored Fault law start (name ++ index_suffix))
        (λ raw s good there.
          Keeps->>= Fine
            (λ r. Agrees Fault (listed_in decoders stream volume mapping stored (some raw)) r.0)
            (λ r. Located n r.0)
            (λ locations.
              remember_index decoders stream volume mapping (here n) (n % stream.chunks_in_segment)
                locations)
            (lift (parse_index_bounded raw stream.chunks_in_segment))
            (parse_raw decoders stream volume mapping stored Fault law start raw)
            (λ locations s1 good1 parsed. remember_index-Good n locations s1 good1 (
              listed_at decoders stream volume mapping stored Fault law start (here n) name raw
                locations named there parsed))
            (λ e s1 bad.
              not_parsed decoders stream volume mapping stored Fault law start (here n) name raw
                named there bad)
            s good)
        (λ e s missing.
          not_listed decoders stream volume mapping stored Fault law start (here n) name named
            missing)

  chunk_location-Good :
      (n : ℕ) (name : Text)
      → bevy_name stream volume.arn mapping (here n) ≡ some name
      → Keeps Fine
          (chunk_location decoders stream volume mapping
            (here n)
            name
            (n % stream.chunks_in_segment))
          (λ r. Located n r.0)
  unfolding chunk_location
  chunk_location-Good n name named s good = elim (Option-cases (get (here n) s.1.index)) [
    | inr (locations, there) ↦
        rw (there, chunk_location)
          (
            good,
            get-Located n locations (All-get _ (here n) s.1.index locations good.0.indexes there),
          )
    | inl absent ↦ elim (Bool-cases (volume.has_segment s.0 (name ++ index_suffix))) [
      | inl has ↦ rw (absent, has, chunk_location) (fetch_index-Good n name named s good)
      | inr lacks ↦ rw (absent, lacks, chunk_location) (good, tt)
    ]
  ]

  -- The bytes of a range, decompressed and cut.
  abbrev plaintext : ℕ → List ℕ → Result StreamError (List ℕ)
  plaintext n input = do
    bytes ← chunk_result (decompress_chunk decoders stream.codec input stream.chunk_size)
    ok (cut_chunk decoders stream n bytes)

  plain_at :
      (n : ℕ) (locations : List ChunkLocation) (location : ChunkLocation) (whole input : List ℕ)
      → list_of n ≡ some locations
      → get_elem? locations (n % stream.chunks_in_segment) ≡ some location
      → whole_bevy decoders stream volume mapping stored Fault law start (here n) ≡ some whole
      → slice_chunk whole location (n % stream.chunks_in_segment) ≡ ok input
      → plain n ≡ to_option (plaintext n input)
  unfolding chunk_of chunk_in_bevy
  plain_at n locations location whole input l there w cut = rw (l, w, there, cut) refl

  from_range-Ranged :
      (n : ℕ) (input : List ℕ) (s : V × ChunkReader)
      → Fine s
      → plain n ≡ to_option (plaintext n input)
      → (let r = from_range decoders stream volume mapping n (some input) s in
          Fine r.1 × Ranged n r.0)
  unfolding from_range
  from_range-Ranged n input s good h =
      by_result (chunk_result (decompress_chunk decoders stream.codec input stream.chunk_size)) h
    where
      by_result :
          (r : Result StreamError (List ℕ))
          → plain n ≡ to_option (r >>= λ bytes. ok (cut_chunk decoders stream n bytes))
          → (let q =
                Exec.◌>>=◌ (lift r) (λ bytes. pure (some (cut_chunk decoders stream n bytes))) s in
              Fine q.1 × Ranged n q.0)
      by_result (ok bytes) same = (good, same)
      by_result (err e) same = (good, inl same)

  read_range :
      (name : Text) (offset count : ℕ)
      → Keeps Fine
          (on_first (volume.read_segment_range name offset count))
          (λ r. RangeAgrees Fault (stored name) offset count r.0)
  read_range name offset count s good = (good, law.range name offset count s.0)

  from_range-Good :
      (n : ℕ) (name : Text) (location : ChunkLocation) (locations : List ChunkLocation)
      → bevy_name stream volume.arn mapping (here n) ≡ some name
      → list_of n ≡ some locations
      → get_elem? locations (n % stream.chunks_in_segment) ≡ some location
      → 0 < location.length
      → (answer : Option (List ℕ)) (s : V × ChunkReader) → Fine s
      → RangeAgrees Fault (stored name) location.offset location.length (ok answer)
      → (let r = from_range decoders stream volume mapping n answer s in Fine r.1 × Ranged n r.0)
  from_range-Good n name location locations named l there nonempty none s good agrees =
      unfold from_range in (good, tt)
  from_range-Good n name location locations named l there nonempty (some input) s good
        (whole, w, inside, cut) =
      let slice : slice_chunk whole location (n % stream.chunks_in_segment) ≡ ok input =
        (slice_chunk_iff whole location (n % stream.chunks_in_segment) input
            (law.small name whole w)).1
          (nonempty, inside, cut) in
      from_range-Ranged n input s good (
        plain_at n locations location whole input l there
          (whole_at decoders stream volume mapping stored Fault law start (here n) name named ∙ w)
          slice)

  from_location-Good :
      (n : ℕ) (name : Text)
      → bevy_name stream volume.arn mapping (here n) ≡ some name
      → (found : Option ChunkLocation) (s : V × ChunkReader) → Fine s
      → Located n (ok found)
      → (let r = from_location decoders stream volume mapping n name found s in
          Fine r.1 × Ranged n r.0)
  unfolding from_location
  from_location-Good n name named none s good at = (good, tt)
  from_location-Good n name named (some location) s good (locations, l, there) =
      elim (Bool-cases (location.length == 0)) [
        | inl zero' ↦ rw zero' (good, tt)
        | inr nonzero ↦
            let nonempty : 0 < location.length = ground arith in
            rw nonzero (
              Keeps->>= Fine
                (λ r. RangeAgrees Fault (stored name) location.offset location.length r.0)
                (λ r. Ranged n r.0) (from_range decoders stream volume mapping n)
                (on_first (volume.read_segment_range name location.offset location.length))
                (read_range name location.offset location.length)
                (from_range-Good n name location locations named l there nonempty)
                (λ e s1 fault. inr fault) s good)
      ]

  no_list : (n : ℕ) → (list_of n ≡ none) ⊎ Fault → (plain n ≡ none) ⊎ Fault
  unfolding chunk_of
  no_list n (inl h) = inl (rw h refl)
  no_list n (inr fault) = inr fault

  decompress_by_range-Good :
      (n : ℕ) (name : Option Text)
      → bevy_name stream volume.arn mapping (here n) ≡ name
      → Keeps Fine (decompress_by_range decoders stream volume mapping n name) (λ r. Ranged n r.0)
  unfolding decompress_by_range
  decompress_by_range-Good n none named s good = (good, tt)
  decompress_by_range-Good n (some name) named s0 good0 =
      Keeps->>= Fine (λ r. Located n r.0) (λ r. Ranged n r.0)
        (from_location decoders stream volume mapping n name)
        (chunk_location decoders stream volume mapping (here n) name (n % stream.chunks_in_segment))
        (chunk_location-Good n name named) (from_location-Good n name named)
        (λ e s bad. no_list n bad) s0 good0

  or_by_bevy-Good :
      (n : ℕ) (answer : Option (List ℕ)) (s : V × ChunkReader)
      → Fine s
      → Ranged n (ok answer)
      → (let r = or_by_bevy decoders stream volume mapping n answer s in
          Fine r.1 × Agrees Fault (plain n) r.0)
  unfolding or_by_bevy
  or_by_bevy-Good n none s good at =
      by_bevy-Good decoders stream volume mapping stored Fault law start n s good
  or_by_bevy-Good n (some bytes) s good at = (good, at)

  pub decompress-Good :
      (n : ℕ)
      → Keeps Fine (decompress decoders stream volume mapping n) (λ r. Agrees Fault (plain n) r.0)
  unfolding decompress
  decompress-Good n s good =
      elim (Option-cases (find_bevy (n / stream.chunks_in_segment) s.1.resident)) [
        | inr (hit, found) ↦
            rw (found, decompress)
              (by_bevy-Good decoders stream volume mapping stored Fault law start n s good)
        | inl absent ↦
            rw (absent, decompress)
              (Keeps->>= Fine (λ r. Ranged n r.0) (λ r. Agrees Fault (plain n) r.0)
                (or_by_bevy decoders stream volume mapping n)
                (decompress_by_range decoders stream volume mapping n
                  (bevy_name stream volume.arn mapping (n / stream.chunks_in_segment)))
                (decompress_by_range-Good n (bevy_name stream volume.arn mapping (here n)) refl)
                (or_by_bevy-Good n) (λ e s1 bad. bad) s good)
      ]
