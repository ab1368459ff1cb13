-- ===== src/Write/SliceMap.antt =====
-- aff4tools: src/write/map_writer.rs, the segments `map` and `idx` of a file that is a list of chunks.
pub mod ReadsBack
pub mod Tiled
mod Tests
use aff4tools.Prelude.{
  ℕ, suc, ◌+◌, ◌-◌, ◌*◌, ◌%◌, ◌^◌, min, Bool, true, false, Option, none, some, List, [], ◌∷◌, ◌++◌,
  leb, ◌==◌, if◌then◌else◌, length, get_elem?,
}
use aff4tools.Prelude.Results.{Result, ok, err, ◌>>=◌}
use aff4tools.Text.{Text}
use aff4tools.Map.{MapEntry}
use aff4tools.Stream.Reader.{get, insert}
use aff4tools.Write.Bevy.{to_le_bytes}

-- The refusals of `write_slice_map` on its chunks.
pub data SliceError : Type 0 where
  unknown_chunk : (target_id : ℕ) → SliceError
  too_many_chunks : SliceError

-- The loop's `local_of`, `local_targets` and `map_bytes`.
pub record SliceMap : Type 0 where
  pub local_of : List (ℕ × ℕ)
  pub local_targets : List Text
  pub map_bytes : List ℕ

-- One entry of a `map` segment, as the writers of this file append it.
unfoldable pub encode_entry : MapEntry → List ℕ
unfolding to_le_bytes
encode_entry e =
    to_le_bytes 8 e.offset
    ++ (to_le_bytes 8 e.length ++ (to_le_bytes 8 e.target_offset ++ to_le_bytes 4 e.target_id))

-- The `map` segment of `write_map_as`.
unfoldable pub encode_entries : List MapEntry → List ℕ
unfolding encode_entry
encode_entries [] = []
encode_entries (e ∷ es) = encode_entry e ++ encode_entries es

-- The `idx` segment: a target on each line.
unfoldable pub encode_targets : List Text → List ℕ
encode_targets [] = []
encode_targets (t ∷ ts) = t ++ (10 ∷ encode_targets ts)

-- The local id of a chunk, a new one for a chunk that is new.
unfoldable pub local_id_of : ℕ → Text → SliceMap → Result SliceError (ℕ × SliceMap)
unfolding get insert
local_id_of target_id text s = elim (get target_id s.local_of) [
  | some id ↦ ok (id, s)
  | none ↦
      if leb (2 ^ 32) (length s.local_targets)
      then err too_many_chunks
      else ok (
        length s.local_targets,
        record s {
          local_of = insert target_id (length s.local_targets) s.local_of;
          local_targets = s.local_targets ++ (text ∷ []);
        },
      )
]

unfoldable pub push_entry : (offset length id : ℕ) → SliceMap → SliceMap
unfolding encode_entry
push_entry offset length id s = record s {
  map_bytes =
      s.map_bytes
      ++ encode_entry
          (record { offset = offset; length = length; target_offset = 0; target_id = id });
}

-- `index as u64 * chunk_size` as a release build computes it.
abbrev pub offset_of : (index chunk_size : ℕ) → ℕ
offset_of index chunk_size = (index * chunk_size) % 2 ^ 64

-- The loop of `write_slice_map` over `chunk_targets`, from the chunk `index` on.
unfoldable pub slice_loop :
    (targets : List Text) (size chunk_size index : ℕ)
    → List ℕ
    → SliceMap
    → Result SliceError SliceMap
unfolding local_id_of push_entry
slice_loop targets size chunk_size index [] s = ok s
slice_loop targets size chunk_size index (t ∷ ts) s = elim (get_elem? targets t) [
  | none ↦ err (unknown_chunk t)
  | some text ↦
      let offset = offset_of index chunk_size in
      let n = min chunk_size (size - offset) in
      elim (n == 0) [
        | true ↦ ok s
        | false ↦ local_id_of t text s >>= λ r.
            slice_loop targets size chunk_size (suc index) ts (push_entry offset n r.0 r.1)
      ]
]

-- The segments `map` and `idx` that `write_slice_map` writes.
unfoldable pub slice_map :
    (chunk_targets : List ℕ) (targets : List Text) (size chunk_size : ℕ)
    → Result SliceError (List ℕ × List ℕ)
unfolding slice_loop encode_targets
slice_map chunk_targets targets size chunk_size = do
  s ←
      slice_loop targets size chunk_size 0 chunk_targets
        (record { local_of = []; local_targets = []; map_bytes = [] })
  ok (s.map_bytes, encode_targets s.local_targets)
