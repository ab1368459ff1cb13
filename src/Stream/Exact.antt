-- ===== src/Stream/Exact.antt =====
-- aff4tools: src/stream.rs, what `slice_chunk` and `parse_index_bounded` answer.
use aff4tools.Prelude.{
  ℕ, zero, suc, ◌+◌, ◌*◌, ◌/◌, ◌%◌, ◌≤◌, ◌<◌, ◌≡◌, ◌↔◌, refl, sym, ap, ◌∙◌, inl, inr, List, [], ◌∷◌,
  some, arith, ltb, ◌==◌, if◌then◌else◌, length, take, drop, drop-drop, map, get_elem?, eq_of_some,
  checked_add, u64_max, Bool-cases,
}
use aff4tools.Prelude.Results.{ok, err, else-eq-ok, ok-injective}
use aff4tools.Map.Decode.{chunks}
use aff4tools.Stream.{
  ChunkLocation, slice_chunk, parse_index, parse_index_bounded, decode_location, index_entry_len,
  ragged_index,
}

-- A chunk of a bevy, whose length is a u64, is cut out exactly if its location is not empty and
-- lies inside the bevy, and then it is the bytes of that location.
pub slice_chunk_iff :
    (bevy : List ℕ) (location : ChunkLocation) (chunk_index : ℕ) (out : List ℕ)
    → length bevy ≤ u64_max
    → (slice_chunk bevy location chunk_index ≡ ok out) ↔ (
        (0 < location.length)
        × (location.offset + location.length ≤ length bevy)
        × (out ≡ take location.length (drop location.offset bevy)))
unfolding slice_chunk checked_add
slice_chunk_iff bevy location chunk_index out small = ground arith

length-chunks : (n count : ℕ) (bytes : List ℕ) → length (chunks n count bytes) ≡ count
unfolding chunks
length-chunks n zero bytes = refl
length-chunks n (suc count) bytes = ap suc (length-chunks n count (drop n bytes))

length-map : {A B : Type 0} (f : A → B) (xs : List A) → length (map f xs) ≡ length xs
length-map f [] = refl
length-map f (x ∷ xs) = ap suc (length-map f xs)

get_elem?-chunks :
    {B : Type 0} (f : List ℕ → B) (n count k : ℕ) (bytes : List ℕ) (b : B)
    → get_elem? (map f (chunks n count bytes)) k ≡ some b
    → f (take n (drop (n * k) bytes)) ≡ b
unfolding chunks
get_elem?-chunks f n zero k bytes b h = cc
get_elem?-chunks f n (suc count) zero bytes b h =
    let none_before : n * 0 ≡ 0 = omega arith in rw none_before (eq_of_some h)
get_elem?-chunks f n (suc count) (suc k) bytes b h =
    let later = get_elem?-chunks f n count k (drop n bytes) b h in
    let e : drop (n * k) (drop n bytes) ≡ drop (n * suc k) bytes =
      drop-drop n (n * k) (n * suc k) bytes (omega arith) in
    rw (← e) later

-- What an index that is accepted holds.
parse_index_bounded-ok :
    (bytes : List ℕ) (chunks_in_segment : ℕ) (locations : List ChunkLocation)
    → parse_index_bounded bytes chunks_in_segment ≡ ok locations
    → (0 < length bytes)
      × (length bytes % index_entry_len ≡ 0)
      × (length bytes / index_entry_len ≤ chunks_in_segment)
      × (map decode_location (chunks index_entry_len (length bytes / index_entry_len) bytes)
          ≡ locations)
unfolding parse_index_bounded parse_index
parse_index_bounded-ok bytes chunks_in_segment locations h =
    let (bounded, h1) =
      else-eq-ok (ltb chunks_in_segment (length bytes / index_entry_len)) _ (parse_index bytes) h in
    let (some_bytes, h2) =
      else-eq-ok (length bytes == 0) _
        (if length bytes % index_entry_len == 0
          then ok
              (map decode_location (chunks index_entry_len (length bytes / index_entry_len) bytes))
          else err (ragged_index (length bytes)))
        h1 in
    (elim (Bool-cases (length bytes % index_entry_len == 0)) [
      | inr ragged ↦ let no : err _ ≡ ok locations = rw ragged at h2 in cc
      | inl whole ↦ (
        ground (arith, some_bytes),
        ground (arith, whole),
        ground (arith, bounded),
        ok-injective (rw whole at h2),
      )
    ])

-- An index that `parse_index_bounded` accepts has 12 bytes for each of its chunks, at least one
-- chunk, and at most as many as the stream declares for a bevy.
pub parse_index_bounded_size :
    (bytes : List ℕ) (chunks_in_segment : ℕ) (locations : List ChunkLocation)
    → parse_index_bounded bytes chunks_in_segment ≡ ok locations
    → (index_entry_len * length locations ≡ length bytes)
      × (0 < length locations)
      × (length locations ≤ chunks_in_segment)
parse_index_bounded_size bytes chunks_in_segment locations h =
    let (some_bytes, whole, bounded, same) =
      parse_index_bounded-ok bytes chunks_in_segment locations h in
    let n =
      ap length (sym same)
      ∙ length-map decode_location (chunks index_entry_len (length bytes / index_entry_len) bytes)
      ∙ length-chunks index_entry_len (length bytes / index_entry_len) bytes in
    (omega (arith, n, whole), omega (arith, n, whole, some_bytes), omega (arith, n, bounded))

-- The location at place `k` of an index that is accepted is its entry `k`.
pub get_elem?-parse_index_bounded :
    (bytes : List ℕ) (chunks_in_segment k : ℕ) (locations : List ChunkLocation)
    (location : ChunkLocation)
    → parse_index_bounded bytes chunks_in_segment ≡ ok locations
    → get_elem? locations k ≡ some location
    → decode_location (take index_entry_len (drop (index_entry_len * k) bytes)) ≡ location
get_elem?-parse_index_bounded bytes chunks_in_segment k locations location h here =
    let (some_bytes, whole, bounded, same) =
      parse_index_bounded-ok bytes chunks_in_segment locations h in
    get_elem?-chunks decode_location index_entry_len (length bytes / index_entry_len) k bytes
      location (rw (← same) at here)
