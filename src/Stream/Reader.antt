-- ===== src/Stream/Reader.antt =====
-- aff4tools: src/stream.rs, `ChunkReader`: regions of a stream on demand, with its three caches.
pub mod Reference
pub mod Caches
pub mod Coherent
pub mod ByRange
pub mod Eviction
pub mod Chunks
pub mod Region
pub mod Invariant
pub mod Budget
use aff4tools.Prelude.{
  ℕ, zero, suc, ◌+◌, ◌-◌, ◌*◌, ◌/◌, ◌%◌, min, Bool, true, false, ◌&&◌, Option, none, some, List, [],
  ◌∷◌, ◌++◌, ltb, ◌==◌, if◌then◌else◌, length, get_elem?, take, drop, checked_add,
}
use aff4tools.Prelude.Results.{Result, ok, err, ok_or, ◌>>=◌}
use aff4tools.Prelude.Exec.{Exec, Sink, pure, raise, lift}
use aff4tools.Prelude.Exec
use aff4tools.Text.{Text, text_eq}
use aff4tools.Arn.{Arn}
use aff4tools.Arn.Member.{NameMapping}
use aff4tools.Codec.{Decoders, decompress_chunk}
use aff4tools.Stream.{
  ChunkLocation, ImageStream, StreamError, no_member, no_bevy, no_chunk, region_overflow,
  region_outside, chunk_short, Volume, index_suffix, bevy_name, parse_index_bounded, slice_chunk,
  chunk_result, on_first, wrapping_mul,
}

-- `Bevy`
pub record Bevy : Type 0 where
  pub index : ℕ
  pub bytes : List ℕ
  pub locations : List ChunkLocation

-- The fields of `ChunkReader` that reading changes. The stream, the volume and the mapping are
-- parameters; a `HashMap` is an association list.
pub record ChunkReader : Type 0 where
  pub resident : List Bevy
  pub chunk : List (ℕ × List ℕ)
  pub chunk_order : List ℕ
  pub chunk_bytes_held : ℕ
  pub index : List (ℕ × List ChunkLocation)

-- `Residency`
pub record Residency : Type 0 where
  pub stream : Arn
  pub held : ChunkReader

-- `BEVY_CACHE_BYTES` and `CHUNK_CACHE_BYTES`
abbrev pub bevy_cache_bytes : ℕ
bevy_cache_bytes = 512 * 1024 * 1024

abbrev pub chunk_cache_bytes : ℕ
chunk_cache_bytes = 256 * 1024 * 1024

-- `HashMap::get`, `HashMap::insert` and `HashMap::remove`.
module _ {A : Type 0} where
  unfoldable pub get : ℕ → List (ℕ × A) → Option A
  get key [] = none
  get key ((k, a) ∷ entries) = if k == key then some a else get key entries

  unfoldable pub insert : ℕ → A → List (ℕ × A) → List (ℕ × A)
  insert key a [] = (key, a) ∷ []
  insert key a ((k, b) ∷ entries) =
      if k == key then (k, a) ∷ entries else (k, b) ∷ insert key a entries

  unfoldable pub remove : ℕ → List (ℕ × A) → List (ℕ × A)
  remove key [] = []
  remove key ((k, b) ∷ entries) = if k == key then entries else (k, b) ∷ remove key entries

-- `ChunkReader::new`
unfoldable pub empty_reader : ChunkReader
empty_reader = record {
  resident = [];
  chunk = [];
  chunk_order = [];
  chunk_bytes_held = 0;
  index = [];
}

-- `ChunkReader::into_residency`
unfoldable pub into_residency : ImageStream → ChunkReader → Residency
into_residency stream reader = record { stream = stream.arn; held = reader }

-- `ChunkReader::restore`
unfoldable pub restore : ImageStream → Residency → ChunkReader → ChunkReader
unfolding text_eq
restore stream residency reader =
    if text_eq residency.stream.lexical stream.arn.lexical then residency.held else reader

-- `resident.iter().find(|b| b.index == bevy_index)`
unfoldable pub find_bevy : ℕ → List Bevy → Option Bevy
find_bevy i [] = none
find_bevy i (b ∷ bs) = if b.index == i then some b else find_bevy i bs

-- `resident.remove(pos)` at the position of a bevy: the list without it.
unfoldable pub without_bevy : ℕ → List Bevy → List Bevy
without_bevy i [] = []
without_bevy i (b ∷ bs) = if b.index == i then bs else b ∷ without_bevy i bs

-- `resident.iter().map(|b| b.bytes.len()).sum()`
unfoldable pub resident_bytes : List Bevy → ℕ
resident_bytes [] = 0
resident_bytes (b ∷ bs) = length b.bytes + resident_bytes bs

-- The eviction loop of `load_bevy`: the oldest bevy goes while the newcomer does not fit.
unfoldable pub make_room : ℕ → List Bevy → List Bevy
unfolding resident_bytes
make_room incoming [] = []
make_room incoming (b ∷ bs) =
    let rest = make_room incoming bs in
    if ltb bevy_cache_bytes (resident_bytes (b ∷ bs) + incoming) then rest else b ∷ bs

-- The bytes of a chunk that `chunk.remove(&victim)` gave.
unfoldable pub bytes_gone : Option (List ℕ) → ℕ
bytes_gone none = 0
bytes_gone (some gone) = length gone

-- The chunk cache in the eviction loop of `chunk_bytes`.
pub record ChunkCache : Type 0 where
  pub chunks : List (ℕ × List ℕ)
  pub order : List ℕ
  pub held : ℕ

-- The eviction loop of `chunk_bytes`: never the last chunk.
unfoldable pub evict : ℕ → List ℕ → List (ℕ × List ℕ) → ℕ → ChunkCache
unfolding get remove bytes_gone
evict incoming [] chunks held = record { chunks = chunks; order = []; held = held }
evict incoming (victim ∷ []) chunks held = record {
  chunks = chunks;
  order = victim ∷ [];
  held = held;
}
evict incoming (victim ∷ next ∷ order) chunks held =
    let rest =
      evict incoming (next ∷ order) (remove victim chunks)
        (held - bytes_gone (get victim chunks)) in
    if ltb chunk_cache_bytes (held + incoming)
    then rest
    else record { chunks = chunks; order = victim ∷ next ∷ order; held = held }

-- The insertion behind it.
unfoldable pub with_chunk : ℕ → List ℕ → ChunkReader → ChunkReader
unfolding evict insert
with_chunk n plain reader =
    let kept = evict (length plain) reader.chunk_order reader.chunk reader.chunk_bytes_held in
    record reader {
      chunk = insert n plain kept.chunks;
      chunk_order = kept.order ++ (n ∷ []);
      chunk_bytes_held = kept.held + length plain;
    }

module _ (decoders : Decoders) (stream : ImageStream) where
  -- The final chunk of a stream is short.
  unfoldable pub cut_chunk : ℕ → List ℕ → List ℕ
  cut_chunk n plain =
      let remaining = stream.size - wrapping_mul n stream.chunk_size in
      if ltb remaining (length plain) then take remaining plain else plain

  -- The chunk out of a bevy: the second half of `decompress`.
  unfoldable pub chunk_in_bevy : ℕ → List ChunkLocation → List ℕ → Result StreamError (List ℕ)
  unfolding slice_chunk decompress_chunk cut_chunk
  chunk_in_bevy n locations bytes = do
    location ←
        ok_or (get_elem? locations (n % stream.chunks_in_segment)) (no_chunk n (length locations))
    input ← slice_chunk bytes location (n % stream.chunks_in_segment)
    plain ← chunk_result (decompress_chunk decoders stream.codec input stream.chunk_size)
    ok (cut_chunk n plain)

  module _ {V : Type 0} (volume : Volume V) (mapping : NameMapping) where
    abbrev pub Reading : Type 0 → Type 0
    Reading A = Exec StreamError (V × ChunkReader) A

    -- The bevy at the most-recent end, after the eviction.
    unfoldable pub hold_bevy : Bevy → Reading (Unit {0})
    unfolding make_room
    hold_bevy bevy s = (
      ok tt,
      (s.0, record s.1 { resident = make_room (length bevy.bytes) s.1.resident ++ (bevy ∷ []) }),
    )

    -- The part of `load_bevy` that reads.
    unfoldable pub fetch_bevy : ℕ → Option Text → Reading (Unit {0})
    unfolding parse_index_bounded hold_bevy
    fetch_bevy bevy_index none = raise no_member
    fetch_bevy bevy_index (some name) =
        Exec.◌>>=◌ (on_first (volume.read_segment (name ++ index_suffix))) (λ index.
          Exec.◌>>=◌ (lift (parse_index_bounded index stream.chunks_in_segment)) (λ locations.
            Exec.◌>>=◌ (on_first (volume.read_segment name)) (λ bytes.
              hold_bevy (record { index = bevy_index; bytes = bytes; locations = locations }))))

    -- `load_bevy`
    unfoldable pub load_bevy : ℕ → Reading (Unit {0})
    unfolding find_bevy without_bevy fetch_bevy bevy_name
    load_bevy bevy_index s = elim (find_bevy bevy_index s.1.resident) [
      | some hit ↦ (
        ok tt,
        (s.0, record s.1 { resident = without_bevy bevy_index s.1.resident ++ (hit ∷ []) }),
      )
      | none ↦ fetch_bevy bevy_index (bevy_name stream volume.arn mapping bevy_index) s
    ]

    -- What `index.get(&bevy_index).and_then(|l| l.get(within_bevy))` answers after an insertion.
    unfoldable pub remember_index : ℕ → ℕ → List ChunkLocation → Reading (Option ChunkLocation)
    unfolding insert
    remember_index bevy_index within locations s = (
      ok (get_elem? locations within),
      (s.0, record s.1 { index = insert bevy_index locations s.1.index }),
    )

    -- `chunk_location`
    unfoldable pub chunk_location : ℕ → Text → ℕ → Reading (Option ChunkLocation)
    unfolding get remember_index parse_index_bounded
    chunk_location bevy_index name within s = elim (get bevy_index s.1.index) [
      | some locations ↦ (ok (get_elem? locations within), s)
      | none ↦ elim (volume.has_segment s.0 (name ++ index_suffix)) [
        | false ↦ (ok none, s)
        | true ↦
            Exec.◌>>=◌ (on_first (volume.read_segment (name ++ index_suffix)))
              (λ raw.
                Exec.◌>>=◌ (lift (parse_index_bounded raw stream.chunks_in_segment))
                  (λ locations. remember_index bevy_index within locations))
              s
      ]
    ]

    -- `decompress_by_range` from the bytes of the range on.
    unfoldable pub from_range : ℕ → Option (List ℕ) → Reading (Option (List ℕ))
    unfolding decompress_chunk cut_chunk
    from_range n none = pure none
    from_range n (some input) =
        Exec.◌>>=◌
          (lift (chunk_result (decompress_chunk decoders stream.codec input stream.chunk_size)))
          (λ plain. pure (some (cut_chunk n plain)))

    -- `decompress_by_range` from the location on.
    unfoldable pub from_location : ℕ → Text → Option ChunkLocation → Reading (Option (List ℕ))
    unfolding from_range
    from_location n name none = pure none
    from_location n name (some location) =
        if location.length == 0
        then pure none
        else Exec.◌>>=◌ (on_first (volume.read_segment_range name location.offset location.length))
            (from_range n)

    -- `decompress_by_range`; `none` asks for the way through the whole bevy.
    unfoldable pub decompress_by_range : ℕ → Option Text → Reading (Option (List ℕ))
    unfolding chunk_location from_location
    decompress_by_range n none = pure none
    decompress_by_range n (some name) =
        Exec.◌>>=◌
          (chunk_location (n / stream.chunks_in_segment) name (n % stream.chunks_in_segment))
          (from_location n name)

    -- The resident bevy, looked up again after `load_bevy`.
    unfoldable pub from_resident : ℕ → Reading (List ℕ)
    unfolding find_bevy chunk_in_bevy
    from_resident n s = elim (find_bevy (n / stream.chunks_in_segment) s.1.resident) [
      | none ↦ (err (no_bevy (n / stream.chunks_in_segment)), s)
      | some bevy ↦ (chunk_in_bevy n bevy.locations bevy.bytes, s)
    ]

    -- The way through the whole bevy.
    unfoldable pub by_bevy : ℕ → Reading (List ℕ)
    unfolding load_bevy from_resident
    by_bevy n = Exec.◌>>=◌ (load_bevy (n / stream.chunks_in_segment)) (λ _. from_resident n)

    unfoldable pub or_by_bevy : ℕ → Option (List ℕ) → Reading (List ℕ)
    unfolding by_bevy
    or_by_bevy n none = by_bevy n
    or_by_bevy n (some plain) = pure plain

    -- `decompress`
    unfoldable pub decompress : ℕ → Reading (List ℕ)
    unfolding find_bevy decompress_by_range or_by_bevy bevy_name
    decompress n s = elim (find_bevy (n / stream.chunks_in_segment) s.1.resident) [
      | some _ ↦ by_bevy n s
      | none ↦
          Exec.◌>>=◌
            (decompress_by_range n
              (bevy_name stream volume.arn mapping (n / stream.chunks_in_segment)))
            (or_by_bevy n) s
    ]

    -- The look-up at the end of `chunk_bytes`.
    unfoldable pub present : ℕ → ChunkReader → List ℕ
    unfolding get
    present n reader = elim (get n reader.chunk) [ none ↦ [] | some plain ↦ plain ]

    unfoldable pub remember_chunk : ℕ → List ℕ → Reading (List ℕ)
    unfolding with_chunk present
    remember_chunk n plain s =
        let reader = with_chunk n plain s.1 in (ok (present n reader), (s.0, reader))

    -- `chunk_bytes`
    unfoldable pub chunk_bytes : ℕ → Reading (List ℕ)
    unfolding get decompress remember_chunk
    chunk_bytes n s = elim (get n s.1.chunk) [
      | some plain ↦ (ok plain, s)
      | none ↦ Exec.◌>>=◌ (decompress n) (remember_chunk n) s
    ]

    -- `read_region` feeds a sink whose errors are of another type; `wrap` makes one of a refusal.
    module _ {E T : Type 0} (wrap : StreamError → E) (sink : Sink E T) where
      -- A round of the loop on the plaintext of its chunk, with what follows it.
      unfoldable pub feed_chunk :
          (position stop : ℕ)
          → (ℕ → Exec E ((V × ChunkReader) × T) (Unit {0}))
          → Result StreamError (List ℕ) × (V × ChunkReader)
          → T
          → Result E (Unit {0}) × ((V × ChunkReader) × T)
      feed_chunk position stop go_on (err e, s) t = (err (wrap e), (s, t))
      feed_chunk position stop go_on (ok plain, s) t =
          let within = position % stream.chunk_size in
          let take' = min (length plain - within) (stop - position) in
          if ltb within (length plain)
          then Exec.◌>>=◌ (Exec.on_second (sink (take take' (drop within plain))))
              (λ _. go_on (position + take')) (s, t)
          else (err (wrap (chunk_short (position / stream.chunk_size) (length plain))), (s, t))

      -- The loop of `read_region`; each round advances by a byte at least.
      unfoldable pub region_loop :
          ℕ → (position stop : ℕ) → Exec E ((V × ChunkReader) × T) (Unit {0})
      unfolding feed_chunk chunk_bytes
      region_loop zero position stop st = (ok tt, st)
      region_loop (suc fuel) position stop st = elim (ltb position stop) [
        | false ↦ (ok tt, st)
        | true ↦
            feed_chunk position stop (λ p. region_loop fuel p stop)
              (chunk_bytes (position / stream.chunk_size) st.0) st.1
      ]

      -- `ChunkReader::read_region`
      unfoldable pub read_region : (offset n : ℕ) → Exec E ((V × ChunkReader) × T) (Unit {0})
      unfolding checked_add region_loop
      read_region offset n st = elim (checked_add offset n) [
        | none ↦ (err (wrap (region_overflow offset n)), st)
        | some stop ↦
            if ltb stream.size stop
            then (err (wrap (region_outside offset stop)), st)
            else region_loop n offset stop st
      ]
