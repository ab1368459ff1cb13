-- ===== src/Naming.antt =====
-- aff4tools: src/naming.rs, the recorded form of a file name.
pub mod Letters
pub mod RoundTrip
pub mod Display
mod Tests
use aff4tools.Prelude.{
  ℕ, suc, ◌+◌, ◌-◌, ◌*◌, ◌/◌, ◌%◌, Bool, true, false, ◌&&◌, ◌||◌, not, Option, none, some, List, [],
  ◌∷◌, ◌++◌, ltb, leb, ◌==◌, if◌then◌else◌, length, take, get_or,
}
use aff4tools.Text.{Text, codes}
use aff4tools.Text.Utf8.{is_utf8}
use aff4tools.Arn.Member.{percent}
use mathlib.Core.List.{reverse}

-- `ALPHABET`
abbrev pub alphabet : Text
alphabet = codes "ABCDEFGHIJKLMNOPQRSTUVWXYZabcdefghijklmnopqrstuvwxyz0123456789+/"

-- `ALPHABET[(packed >> shift) & 0x3f]`, with `2 ^ shift`.
unfoldable pub letter : ℕ → ℕ → ℕ
letter packed unit = get_or alphabet (packed / unit % 64) 0

-- `(b0 << 16) | (b1 << 8) | b2`: the bytes share no bit.
abbrev pub pack : ℕ → ℕ → ℕ → ℕ
pack b0 b1 b2 = b0 * 65536 + b1 * 256 + b2

-- `base64_encode`, chunk by chunk.
unfoldable pub base64_encode : List ℕ → Text
unfolding letter
base64_encode [] = []
base64_encode (b0 ∷ []) = letter (pack b0 0 0) 262144 ∷ letter (pack b0 0 0) 4096 ∷ b'=' ∷ b'=' ∷ []
base64_encode (b0 ∷ b1 ∷ []) =
    letter (pack b0 b1 0) 262144 ∷ letter (pack b0 b1 0) 4096 ∷ letter (pack b0 b1 0) 64 ∷ b'=' ∷ []
base64_encode (b0 ∷ b1 ∷ b2 ∷ bytes) =
    letter (pack b0 b1 b2) 262144
    ∷ letter (pack b0 b1 b2) 4096
    ∷ letter (pack b0 b1 b2) 64
    ∷ letter (pack b0 b1 b2) 1
    ∷ base64_encode bytes

-- `base64_value`
unfoldable pub base64_value : ℕ → Option ℕ
base64_value c =
    if leb b'A' c && leb c b'Z'
    then some (c - b'A')
    else if leb b'a' c && leb c b'z'
    then some (c - b'a' + 26)
    else if leb b'0' c && leb c b'9'
    then some (c - b'0' + 52)
    else if c == b'+'
    then some 62
    else if c == b'/'
    then some 63
    else none

-- `bytes.iter().rev().take_while(|&&c| c == b'=').count()`, on the reversed bytes.
unfoldable pub leading_padding : Text → ℕ
leading_padding [] = 0
leading_padding (c ∷ cs) = let rest = leading_padding cs in if c == b'=' then suc rest else 0

-- `body.contains(&b'=')`
unfoldable pub has_padding : Text → Bool
has_padding [] = false
has_padding (c ∷ cs) = c == b'=' || has_padding cs

-- `packed |= base64_value(c)? << (18 - 6 * i)`; the values share no bit.
unfoldable pub packed_with : ℕ → ℕ → Option ℕ → Option ℕ
packed_with c unit none = none
packed_with c unit (some packed) = elim (base64_value c) [
  | none ↦ none
  | some v ↦ some (v * unit + packed)
]

-- The byte `(packed >> shift) & 0xff`.
abbrev pub byte_of : ℕ → ℕ → ℕ
byte_of packed unit = packed / unit % 256

abbrev pub prepended : List ℕ → Option (List ℕ) → Option (List ℕ)
prepended bytes none = none
prepended bytes (some rest) = some (bytes ++ rest)

abbrev pub three_bytes : ℕ → List ℕ
three_bytes packed = byte_of packed 65536 ∷ byte_of packed 256 ∷ byte_of packed 1 ∷ []

-- The loop of `base64_decode` over `body.chunks(4)`.
unfoldable pub decode_body : Text → Option (List ℕ)
unfolding packed_with base64_value
decode_body [] = some []
decode_body (c0 ∷ []) = none
decode_body (c0 ∷ c1 ∷ []) = elim (packed_with c0 262144 (packed_with c1 4096 (some 0))) [
  | none ↦ none
  | some packed ↦ some (take 1 (three_bytes packed))
]
decode_body (c0 ∷ c1 ∷ c2 ∷ []) =
    elim (packed_with c0 262144 (packed_with c1 4096 (packed_with c2 64 (some 0)))) [
      | none ↦ none
      | some packed ↦ some (take 2 (three_bytes packed))
    ]
decode_body (c0 ∷ c1 ∷ c2 ∷ c3 ∷ text) =
    let rest = decode_body text in
    elim (packed_with c0 262144
      (packed_with c1 4096 (packed_with c2 64 (packed_with c3 1 (some 0))))) [
        | none ↦ none
        | some packed ↦ prepended (three_bytes packed) rest
      ]

-- `base64_decode`
unfoldable pub base64_decode : Text → Option (List ℕ)
unfolding leading_padding has_padding decode_body
base64_decode text =
    let padding = leading_padding (reverse text) in
    if length text == 0
    then some []
    else if not (length text % 4 == 0)
    then none
    else if ltb 2 padding
    then none
    else if has_padding (take (length text - padding) text)
    then none
    else decode_body (take (length text - padding) text)

-- `is_escaped`
unfoldable pub is_escaped : ℕ → Bool
is_escaped byte = leb byte 0x1F || byte == b'%' || leb 0x7F byte

-- `bytes.iter().any(|&b| b <= 0x1f || b == 0x25 || b == 0x7f)`
unfoldable pub has_control : List ℕ → Bool
has_control [] = false
has_control (b ∷ bs) = leb b 0x1F || b == 0x25 || b == 0x7F || has_control bs

-- `needs_raw_form`
unfoldable pub needs_raw_form : List ℕ → Bool
unfolding is_utf8 has_control
needs_raw_form bytes = not (is_utf8 bytes) || has_control bytes

-- `display_form`
unfoldable pub display_form : List ℕ → Text
unfolding is_escaped percent
display_form [] = []
display_form (b ∷ bs) = (if is_escaped b then percent b else b ∷ []) ++ display_form bs

pub record RecordedName : Type 0 where
  pub display : Text
  pub raw : Option Text

abbrev escaped_name : List ℕ → RecordedName
escaped_name bytes = record { display = display_form bytes; raw = some (base64_encode bytes) }

-- `RecordedName::of`
unfoldable pub of : List ℕ → RecordedName
unfolding needs_raw_form display_form base64_encode
of bytes =
    if needs_raw_form bytes
    then escaped_name bytes
    else if is_utf8 bytes
    then record { display = bytes; raw = none }
    else escaped_name bytes

-- `RecordedName::is_encoded`
unfoldable pub is_encoded : RecordedName → Bool
is_encoded name = elim name.raw [ none ↦ false | some _ ↦ true ]
