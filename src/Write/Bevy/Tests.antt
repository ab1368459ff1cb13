-- ===== src/Write/Bevy/Tests.antt =====
-- A bevy of two chunks, one of which is compressed, and an instance of what is proved of bevies.
use aff4tools.Prelude.{
  ℕ, zero, suc, ◌<◌, ◌≡◌, refl, sym, ap, ◌∙◌, inl, inr, Bool, true, false, Option, none, some, List,
  [], ◌∷◌, arith, ◌==◌, ==_iff, if◌then◌else◌, length, map, replicate, Bool-cases,
}
use aff4tools.Prelude.Results.{ok}
use mathlib.Core.Path.{ap₂}
use aff4tools.Text.{Text, codes}
use aff4tools.Codec.{Decoders, lz4}
use aff4tools.Stream.{ImageStream, decode_bevy}
use aff4tools.Write.Bevy.{BevyBuilder, Encoders, padded, with_block_algorithm, finish}
use aff4tools.Write.Bevy.Built.{Inverts}
use aff4tools.Write.Bevy.Pushed.{push_all}
use aff4tools.Write.Bevy.RoundTrip.{decode_bevy-finish}

abbrev all_zero : List ℕ → Bool
all_zero [] = true
all_zero (x ∷ xs) = if x == 0 then all_zero xs else false

all_zero-replicate : (xs : List ℕ) → all_zero xs ≡ true → replicate (length xs) 0 ≡ xs
all_zero-replicate [] h = refl
all_zero-replicate (x ∷ xs) h = elim (Bool-cases (x == 0)) [
  | inl nul ↦
      let e : 0 ≡ x = sym ((==_iff x 0).0 nul) in
      let rest = all_zero-replicate xs (rw nul at h) in ap₂ (λ a b. a ∷ b) e rest
  | inr other ↦ let clash : false ≡ true = rw other at h in cc
]

-- A compressor that knows zeros only.
abbrev zeros : Encoders
zeros = record {
  snap = λ c. none;
  deflate_zlib = λ c. some (0 ∷ c);
  lz4_block = λ c. if all_zero c then 1 ∷ [] else 0 ∷ c;
}

abbrev tagged : List ℕ → ℕ → Option (List ℕ)
tagged [] n = none
tagged (zero ∷ c) n = some c
tagged (suc k ∷ c) n = some (replicate n 0)

abbrev untag : List ℕ → Option (List ℕ × Bool)
untag [] = none
untag (x ∷ c) = some (c, true)

abbrev zeros_back : Decoders
zeros_back = record {
  snap_len = λ input. none;
  snap = λ input. none;
  inflate = λ input capacity. untag input;
  lz4_block = tagged;
}

zlib-untag :
    (c z : List ℕ) → zeros.deflate_zlib c ≡ some z → (0 < length z) × (untag z ≡ some (c, true))
zlib-untag c z h = let e : 0 ∷ c ≡ z = cc in rw (← e) (omega arith, refl)

lz4-tagged :
    (c : List ℕ)
    → length c ≡ 32
    → (0 < length (zeros.lz4_block c)) × (tagged (zeros.lz4_block c) 32 ≡ some c)
lz4-tagged c n = elim (Bool-cases (all_zero c)) [
  | inl nul ↦
      rw nul (omega arith, ap some (ap (λ k. replicate k 0) (sym n) ∙ all_zero-replicate c nul))
  | inr other ↦ rw other (omega arith, refl)
]

zeros-Inverts : Inverts zeros_back zeros 32
zeros-Inverts = record {
  snappy_back = λ c z n h. cc;
  zlib_back = λ c z n h. zlib-untag c z h;
  zlib_done = λ c n. (0 ∷ c, refl);
  lz4_back = λ c n. lz4-tagged c n;
}

abbrev small_stream : ImageStream
small_stream = record {
  arn = record { lexical = codes "aff4://v/s"; path_start = some 8; range_start = none };
  size = 33;
  chunk_size = 32;
  chunks_in_segment = 4;
  codec = lz4;
}

-- Zeros, and a short chunk.
abbrev two_chunks : List (List ℕ)
two_chunks = replicate 32 0 ∷ (7 ∷ []) ∷ []

abbrev no_suffix : Unit {0} → Option Text
no_suffix u = none

abbrev no_digest : Unit {0} → List ℕ → Option (List ℕ)
no_digest u c = none

decode_bevy-finish_example :
    (b : BevyBuilder (Unit {0})) × (push_all zeros_back zeros 32 zeros-Inverts
        (omega arith)
        (omega arith)
        lz4
        tt
        no_suffix
        no_digest
        two_chunks
        (with_block_algorithm zeros no_suffix no_digest lz4 32 4 none)
      ≡ (ok tt, b))
    × (let r = (finish zeros no_suffix no_digest b).0 in
        (decode_bevy zeros_back small_stream r.body r.index ≡ ok (map (padded 32) two_chunks))
        × (r.chunk_count ≡ 2))
decode_bevy-finish_example =
    decode_bevy-finish zeros_back zeros 32 zeros-Inverts (omega arith) (omega arith) lz4 tt
      small_stream refl refl no_suffix no_digest 4 none two_chunks (omega arith, (omega arith, tt))
      (omega arith) (omega arith) (omega arith)
