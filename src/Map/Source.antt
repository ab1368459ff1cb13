-- ===== src/Map/Source.antt =====
-- aff4tools: src/map.rs, `StreamSource` and the bytes that an image stands for.
use aff4tools.Prelude.{
  ℕ, ◌+◌, ◌-◌, ◌≤◌, ◌≡◌, Option, none, some, List, slice_of, flatten, u64_max, All, arith,
}
use aff4tools.Prelude.Exec.{Exec, Sink, feed}
use aff4tools.Arn.{Arn}
use aff4tools.Map.{
  Target, stored, repeated_byte, unknown, block_hash, unrecognised, MapEntry, Map, MapError,
  target_of,
}
use aff4tools.Map.Emit.Pieces.{unknown_byte}
use aff4tools.Map.Lookup.Search.{scan}

-- The trait `StreamSource`, with its state `Src`: feeds `length` bytes of a stream from `offset`
-- on to a sink, whose state is beside its own.
pub record StreamSource (Src : Type 0) : Type 1 where
  pub read_region :
      (T : Type 0) → Arn → ℕ → ℕ → Sink MapError T → Exec MapError (Src × T) (Unit {0})

-- `n` bytes are within a size, where there is one.
abbrev pub Within : Option ℕ → ℕ → Type 0
Within none n = ⊥
Within (some size) n = n ≤ size

pub Within-le : (size : Option ℕ) (m n : ℕ) → m ≤ n → Within size n → Within size m
Within-le none m n le h = h
Within-le (some size) m n le h = omega arith

-- What the trait documents, over streams whose bytes are `content` and whose sizes are `size`: the
-- pieces fed for a region inside a stream join to its bytes, in order, and the answer is the sink's.
pub record Serves {Src : Type 0} (source : StreamSource Src) (content : Arn → ℕ → ℕ)
    (size : Arn → Option ℕ) : Type 1 where
  pub serves :
      (arn : Arn) (offset n : ℕ)
      → Within (size arn) (offset + n)
      → (T : Type 0) (sink : Sink MapError T) (src : Src) (t : T)
      → (ps : List (List ℕ)) × (src' : Src) × (flatten ps ≡ slice_of (content arn) offset n)
        × (source.read_region T arn offset n sink (src, t)
            ≡ ((feed sink ps t).0, (src', (feed sink ps t).1)))

-- The byte at an offset of a target. A target whose bytes cannot be produced has none.
abbrev pub target_byte : (Arn → ℕ → ℕ) → Target → ℕ → ℕ
target_byte content (stored arn) o = content arn o
target_byte content (repeated_byte b) o = b
target_byte content (unknown kind) o = unknown_byte kind o
target_byte content (block_hash _) o = 0
target_byte content (unrecognised _) o = 0

-- The byte at an image offset, by the entry that covers it.
abbrev pub entry_byte : (Arn → ℕ → ℕ) → Option Target → MapEntry → ℕ → ℕ
entry_byte content none e offset = 0
entry_byte content (some target) e offset =
    target_byte content target (e.target_offset + (offset - e.offset))

abbrev pub found_byte : (Arn → ℕ → ℕ) → Map → Option MapEntry → ℕ → ℕ
found_byte content m none offset = 0
found_byte content m (some e) offset = entry_byte content (target_of m e) e offset

unfoldable pub image_byte : (Arn → ℕ → ℕ) → Map → ℕ → ℕ
unfolding target_of
image_byte content m offset = found_byte content m (scan m.entries offset) offset

-- A region that can be produced: described, or inside a stored stream.
abbrev pub Producible : (Arn → Option ℕ) → Option Target → MapEntry → Type 0
Producible size none e = ⊥
Producible size (some (stored arn)) e = Within (size arn) (e.target_offset + e.length)
Producible size (some (repeated_byte _)) e = Unit
Producible size (some (unknown _)) e = Unit
Producible size (some (block_hash _)) e = ⊥
Producible size (some (unrecognised _)) e = ⊥

-- Every region of the map can be produced, and none runs past the largest offset of its target.
abbrev pub IsReadable : (Arn → Option ℕ) → Map → Type 0
IsReadable size m =
    All
      (λ (e : MapEntry). Producible size (target_of m e) e × (e.target_offset + e.length ≤ u64_max))
      m.entries
