-- ===== src/Naming/Letters.antt =====
-- aff4tools: src/naming.rs, the letters of base64 and the groups of four that `base64_decode` reads.
use aff4tools.Prelude.{
  ℕ, zero, suc, ◌+◌, ◌*◌, ◌/◌, ◌%◌, ◌<◌, ◌≡◌, refl, ap, ◌∙◌, Bool, true, false, ◌&&◌, not, none,
  some, List, [], ◌∷◌, ◌++◌, arith, ◌==◌, take, get_or, Bool-cases, inl, inr,
}
use aff4tools.Text.{Text}
use aff4tools.Naming.{
  alphabet, letter, pack, base64_value, packed_with, byte_of, three_bytes, decode_body,
}

-- The letter of a value reads back as the value, and is no padding.
reads_back : ℕ → Bool
unfolding base64_value
reads_back v =
    (elim (base64_value (get_or alphabet v 0)) [ none ↦ false | some w ↦ w == v ])
    && not (get_or alphabet v 0 == b'=')

all_below : ℕ → (ℕ → Bool) → Bool
all_below zero p = true
all_below (suc n) p = p n && all_below n p

all_read_back : all_below 64 reads_back ≡ true
unfolding all_below reads_back
all_read_back = refl

below : (n i : ℕ) (p : ℕ → Bool) → all_below n p ≡ true → i < n → p i ≡ true
unfolding all_below
below zero i p h lt = absurd (omega arith)
below (suc n) i p h lt = elim (Bool-cases (p n)) [
  | inr bad ↦ let never : false ≡ true = rw bad at h in cc
  | inl good ↦ elim (Bool-cases (i == n)) [
    | inl same ↦ let e : i ≡ n = ground arith in rw e good
    | inr other ↦ below n i p (rw good at h) (ground arith)
  ]
]

value_of : (v : ℕ) → v < 64 → base64_value (get_or alphabet v 0) ≡ some v
unfolding reads_back
value_of v lt = ground (arith, below 64 v reads_back all_read_back lt)

no_padding : (v : ℕ) → v < 64 → (get_or alphabet v 0 == b'=') ≡ false
unfolding reads_back
no_padding v lt = ground (arith, below 64 v reads_back all_read_back lt)

pub whole :
    (p : ℕ)
    → p < 16777216
    → p / 262144 % 64 * 262144 + (p / 4096 % 64 * 4096 + (p / 64 % 64 * 64 + (p / 1 % 64 * 1 + 0)))
      ≡ p
whole p lt = omega arith

pub parts : (a b c : ℕ) → a < 256 → b < 256 → c < 256 → three_bytes (pack a b c) ≡ a ∷ b ∷ c ∷ []
parts a b c la lb lc =
    let x : byte_of (pack a b c) 65536 ≡ a = omega arith in
    let y : byte_of (pack a b c) 256 ≡ b = omega arith in
    let z : byte_of (pack a b c) 1 ≡ c = omega arith in rw (x, y, z) refl

letter_lem : (p u q : ℕ) → packed_with (letter p u) u (some q) ≡ some (p / u % 64 * u + q)
unfolding packed_with letter
letter_lem p u q = rw (value_of (p / u % 64) (omega arith), packed_with) refl

pub letter_no_padding : (p u : ℕ) → (letter p u == b'=') ≡ false
unfolding letter
letter_no_padding p u = no_padding (p / u % 64) (omega arith)

pub two_letters :
    (c0 c1 p : ℕ)
    → packed_with c0 262144 (packed_with c1 4096 (some 0)) ≡ some p
    → decode_body (c0 ∷ c1 ∷ []) ≡ some (take 1 (three_bytes p))
unfolding decode_body
two_letters c0 c1 p h = rw (h, decode_body) refl

pub three_letters :
    (c0 c1 c2 p : ℕ)
    → packed_with c0 262144 (packed_with c1 4096 (packed_with c2 64 (some 0))) ≡ some p
    → decode_body (c0 ∷ c1 ∷ c2 ∷ []) ≡ some (take 2 (three_bytes p))
unfolding decode_body
three_letters c0 c1 c2 p h = rw (h, decode_body) refl

pub four_letters :
    (c0 c1 c2 c3 p : ℕ) (text : Text) (bytes : List ℕ)
    → packed_with c0 262144 (packed_with c1 4096 (packed_with c2 64 (packed_with c3 1 (some 0))))
      ≡ some p
    → decode_body text ≡ some bytes
    → decode_body (c0 ∷ c1 ∷ c2 ∷ c3 ∷ text) ≡ some (three_bytes p ++ bytes)
unfolding decode_body
four_letters c0 c1 c2 c3 p text bytes h rest = rw (h, rest, decode_body) refl

pub packed_two :
    (p : ℕ)
    → packed_with (letter p 262144) 262144 (packed_with (letter p 4096) 4096 (some 0))
      ≡ some (p / 262144 % 64 * 262144 + (p / 4096 % 64 * 4096 + 0))
packed_two p =
    ap (packed_with (letter p 262144) 262144) (letter_lem p 4096 0)
    ∙ letter_lem p 262144 (p / 4096 % 64 * 4096 + 0)

pub packed_three :
    (p : ℕ)
    → packed_with
        (letter p 262144)
        262144
        (packed_with (letter p 4096) 4096 (packed_with (letter p 64) 64 (some 0)))
      ≡ some (p / 262144 % 64 * 262144 + (p / 4096 % 64 * 4096 + (p / 64 % 64 * 64 + 0)))
packed_three p =
    ap (λ o. packed_with (letter p 262144) 262144 (packed_with (letter p 4096) 4096 o))
      (letter_lem p 64 0)
    ∙ ap (packed_with (letter p 262144) 262144) (letter_lem p 4096 (p / 64 % 64 * 64 + 0))
    ∙ letter_lem p 262144 (p / 4096 % 64 * 4096 + (p / 64 % 64 * 64 + 0))

pub packed_four :
    (p : ℕ)
    → packed_with (letter p 262144) 262144 (
        packed_with
          (letter p 4096)
          4096
          (packed_with (letter p 64) 64 (packed_with (letter p 1) 1 (some 0))))
      ≡ some (
          p / 262144 % 64 * 262144
          + (p / 4096 % 64 * 4096 + (p / 64 % 64 * 64 + (p / 1 % 64 * 1 + 0))))
packed_four p =
    ap
      (λ o.
        packed_with (letter p 262144) 262144
          (packed_with (letter p 4096) 4096 (packed_with (letter p 64) 64 o)))
      (letter_lem p 1 0)
    ∙ ap (λ o. packed_with (letter p 262144) 262144 (packed_with (letter p 4096) 4096 o))
        (letter_lem p 64 (p / 1 % 64 * 1 + 0))
    ∙ ap (packed_with (letter p 262144) 262144)
        (letter_lem p 4096 (p / 64 % 64 * 64 + (p / 1 % 64 * 1 + 0)))
    ∙ letter_lem p 262144 (p / 4096 % 64 * 4096 + (p / 64 % 64 * 64 + (p / 1 % 64 * 1 + 0)))
