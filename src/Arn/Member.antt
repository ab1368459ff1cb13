-- ===== src/Arn/Member.antt =====
-- aff4tools: src/arn.rs, `member_name` and the percent escapes.
use aff4tools.Prelude.{
  ℕ, ◌+◌, ◌/◌, ◌%◌, Bool, true, false, ◌&&◌, ◌||◌, Option, none, some, [], ◌∷◌, ◌++◌, ltb, leb,
  ◌==◌, if◌then◌else◌,
}
use aff4tools.Text.{Text, from_str_radix}
use aff4tools.Text.Utf8.{from_utf8_lossy}
use aff4tools.Arn.{Arn, volume, stored_path, is_byte_range, is_within}
use mathlib.Core.Option

pub data NameMapping : Type 0 where
  escaped literal : NameMapping

-- `FORBIDDEN`
unfoldable pub is_forbidden : ℕ → Bool
is_forbidden c =
    c == b'<'
    || c == b'>'
    || c == 0x5C
    || c == b'^'
    || c == b'`'
    || c == b'{'
    || c == b'|'
    || c == b'}'
    || c == 0x22
    || c == b' '

-- One uppercase hex digit, and `%{byte:02X}`.
unfoldable pub hex_upper : ℕ → ℕ
hex_upper d = if ltb d 10 then 48 + d else 55 + d

unfoldable pub percent : ℕ → Text
unfolding hex_upper
percent b = b'%' ∷ hex_upper (b / 16) ∷ hex_upper (b % 16) ∷ []

-- `c.is_control() || FORBIDDEN.contains(&c) || c == ':' || c == '/' || c == '%'`, on one byte.
unfoldable pub is_escaped_ascii : ℕ → Bool
unfolding is_forbidden
is_escaped_ascii c =
    leb c 0x1F || c == 0x7F || is_forbidden c || c == b':' || c == b'/' || c == b'%'

-- The control characters U+0080 to U+009F are the pairs of 0xC2 and 0x80 to 0x9F.
unfoldable pub is_c1_control : ℕ → ℕ → Bool
is_c1_control a b = a == 0xC2 && leb 0x80 b && leb b 0x9F

-- `escape_char`, over the bytes of the text: `escape_component`.
unfoldable pub escape_component : Text → Text
unfolding percent is_escaped_ascii is_c1_control
escape_component [] = []
escape_component (a ∷ []) = if is_escaped_ascii a then percent a else a ∷ []
escape_component (a ∷ b ∷ rest) = elim (is_c1_control a b) [
  | true ↦ percent a ++ percent b ++ escape_component rest
  | false ↦ (if is_escaped_ascii a then percent a else a ∷ []) ++ escape_component (b ∷ rest)
]

-- `path.replace("%20", " ")`
unfoldable pub decode_escaped_spaces : Text → Text
decode_escaped_spaces (a ∷ b ∷ c ∷ rest) = elim (a == b'%' && b == b'2' && c == b'0') [
  | true ↦ b' ' ∷ decode_escaped_spaces rest
  | false ↦ a ∷ decode_escaped_spaces (b ∷ c ∷ rest)
]
decode_escaped_spaces (a ∷ b ∷ []) = a ∷ b ∷ []
decode_escaped_spaces (a ∷ []) = a ∷ []
decode_escaped_spaces [] = []

-- `name.replace(' ', "%20")`
unfoldable pub encode_spaces : Text → Text
encode_spaces [] = []
encode_spaces (c ∷ cs) =
    let rest = encode_spaces cs in if c == b' ' then b'%' ∷ b'2' ∷ b'0' ∷ rest else c ∷ rest

unfoldable pub mapped_path : NameMapping → Text → Text
mapped_path escaped p = decode_escaped_spaces p
mapped_path literal p = p

unfoldable pub mapped_volume : NameMapping → Text → Text
mapped_volume escaped v = escape_component v
mapped_volume literal v = v

-- `Arn::member_name`
unfoldable pub member_name : Arn → Arn → NameMapping → Option Text
unfolding mapped_path mapped_volume
member_name a v mapping =
    if is_byte_range a
    then none
    else if is_within a v
    then Option.map (mapped_path mapping) (stored_path a)
    else (elim (stored_path a) [
      | none ↦ some (mapped_volume mapping (volume a))
      | some p ↦ some (mapped_volume mapping (volume a) ++ (b'/' ∷ mapped_path mapping p))
    ])

-- `&text[i..j]` panics where `j` is inside a character: the byte there is a continuation byte.
-- `unescape` slices `&text[i + 1..i + 3]` behind a `%`.
pub data Sliced {ℓ} (A : Type ℓ) : Type ℓ where
  done : A → Sliced A
  panic : Sliced A

unfoldable pub consed : ℕ → Sliced Text → Sliced Text
consed b (done t) = done (b ∷ t)
consed b panic = panic

abbrev pub is_continuation : ℕ → Bool
is_continuation b = leb 0x80 b && leb b 0xBF

-- Whether `&text[0..2]` cuts a character: the front is no character boundary, or the byte behind
-- the two is a continuation byte.
unfoldable pub cuts_character : ℕ → Text → Bool
cuts_character h1 [] = is_continuation h1
cuts_character h1 (next ∷ _) = is_continuation h1 || is_continuation next

-- The loop of `unescape`: the bytes it pushes.
unfoldable pub unescape_bytes : Text → Sliced Text
unfolding consed cuts_character
unescape_bytes [] = done []
unescape_bytes (c ∷ []) = done (c ∷ [])
unescape_bytes (c ∷ h1 ∷ []) = consed c (unescape_bytes (h1 ∷ []))
unescape_bytes (c ∷ h1 ∷ h2 ∷ rest) = elim (c == b'%') [
  | false ↦ consed c (unescape_bytes (h1 ∷ h2 ∷ rest))
  | true ↦ elim (cuts_character h1 rest) [
    | true ↦ panic
    | false ↦ elim (from_str_radix 16 255 (h1 ∷ h2 ∷ [])) [
      | some byte ↦ consed byte (unescape_bytes rest)
      | none ↦ consed c (unescape_bytes (h1 ∷ h2 ∷ rest))
    ]
  ]
]

unfoldable pub lossy : Sliced Text → Sliced Text
lossy (done t) = done (from_utf8_lossy t)
lossy panic = panic

-- `unescape`
unfoldable pub unescape : Text → Sliced Text
unfolding unescape_bytes lossy
unescape text = lossy (unescape_bytes text)
