-- ===== src/Naming/Display.antt =====
-- aff4tools: src/naming.rs, what a recorded name keeps and what its display form shows.
use aff4tools.Prelude.{
  ℕ, ◌/◌, ◌%◌, ◌≤◌, ◌<◌, ◌≡◌, refl, Option, none, some, List, [], ◌∷◌, arith, if◌then◌else◌, All,
  append-All, Bool-cases, inl, inr,
}
use aff4tools.Text.Utf8.{is_utf8}
use aff4tools.Arn.Member.{hex_upper, percent}
use aff4tools.Naming.{base64_decode, is_escaped, needs_raw_form, display_form, RecordedName, of}
use aff4tools.Naming.RoundTrip.{base64_decode-encode}

-- The bytes that a recorded name stands for.
unfoldable pub recovered : RecordedName → Option (List ℕ)
unfolding base64_decode
recovered name = elim name.raw [ none ↦ some name.display | some text ↦ base64_decode text ]

-- A recorded name is lossless: the raw form where there is one, and else the display form, gives
-- back the bytes of the name.
pub recovered-of :
    (bytes : List ℕ) → All (λ (b : ℕ). b < 256) bytes → recovered (of bytes) ≡ some bytes
unfolding recovered of
recovered-of bytes all = elim (Bool-cases (needs_raw_form bytes)) [
  | inl coded ↦ rw coded (base64_decode-encode bytes all)
  | inr plain ↦ elim (Bool-cases (is_utf8 bytes)) [
    | inl valid ↦ rw (plain, valid) refl
    | inr broken ↦ rw (plain, broken) (base64_decode-encode bytes all)
  ]
]

abbrev pub IsPrintable : ℕ → Type 0
IsPrintable c = (0x20 ≤ c) × (c < 0x7F)

hex_digit : (d : ℕ) → d < 16 → IsPrintable (hex_upper d)
unfolding hex_upper
hex_digit d lt = ground arith

percent-IsPrintable : (b : ℕ) → b < 256 → All IsPrintable (percent b)
unfolding percent
percent-IsPrintable b lt = (
  (omega arith, omega arith),
  (hex_digit (b / 16) (omega arith), (hex_digit (b % 16) (omega arith), tt)),
)

piece-IsPrintable : (b : ℕ) → b < 256 → All IsPrintable (if is_escaped b then percent b else b ∷ [])
unfolding is_escaped
piece-IsPrintable b lt = elim (Bool-cases (is_escaped b)) [
  | inl escaped ↦ rw escaped (percent-IsPrintable b lt)
  | inr plain ↦ rw plain (ground arith)
]

-- Every byte of a display form is printable ASCII, whatever the bytes of the name.
pub display_form-IsPrintable :
    (bytes : List ℕ) → All (λ (b : ℕ). b < 256) bytes → All IsPrintable (display_form bytes)
unfolding display_form
display_form-IsPrintable [] all = tt
display_form-IsPrintable (b ∷ bytes) all =
    append-All IsPrintable (if is_escaped b then percent b else b ∷ []) (display_form bytes)
      (piece-IsPrintable b all.0) (display_form-IsPrintable bytes all.1)
