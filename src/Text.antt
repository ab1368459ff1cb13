-- ===== src/Text.antt =====
-- Rust's `&str` as the list of its UTF-8 bytes, and the string functions of the standard library
-- that the source calls. A search for an ASCII character is a search for its byte.
pub mod Utf8
use aff4tools.Prelude.{
  ℕ, zero, suc, ◌+◌, ◌-◌, ◌*◌, ◌/◌, ◌%◌, ◌≡◌, ◌↔◌, inl, inr, ==_iff, ==_refl, Bool-cases, refl,
  Bool, true, false, ◌&&◌, ◌||◌, not, Option, none, some, List, [], ◌∷◌, ◌++◌, ltb, leb, ◌==◌,
  if◌then◌else◌, u64_max, length, take, drop,
}
use mathlib.Core.List.{reverse}
use mathlib.Core.Option
use Prim.Native.Char.{code}
use Prim.Native.String.{String}

abbrev pub Text : Type 0
Text = List ℕ

-- The bytes of an ASCII literal.
abbrev pub codes : String → Text
codes String.[] = []
codes (String.◌∷◌ c s) = code c ∷ codes s

-- `a == b` on texts.
unfoldable pub text_eq : Text → Text → Bool
text_eq [] [] = true
text_eq (x ∷ xs) (y ∷ ys) = x == y && text_eq xs ys
text_eq _ _ = false

pub text_eq_iff : (x y : Text) → (text_eq x y ≡ true) ↔ (x ≡ y)
unfolding text_eq
text_eq_iff x y = (sound x y, λ e. rw e (reflexive y))
  where
    sound : (x y : Text) → text_eq x y ≡ true → x ≡ y
    sound [] [] h = refl
    sound [] (b ∷ y) h = cc
    sound (a ∷ x) [] h = cc
    sound (a ∷ x) (b ∷ y) h = elim (Bool-cases (a == b)) [
      | inl same ↦ let e : a ≡ b = (==_iff a b).0 same in let rest = sound x y (rw same at h) in cc
      | inr differs ↦ let clash : false ≡ true = rw differs at h in cc
    ]

    reflexive : (x : Text) → text_eq x x ≡ true
    reflexive [] = refl
    reflexive (a ∷ x) = rw (==_refl a) (reflexive x)

-- `text.strip_prefix(p)`
unfoldable pub strip_prefix : Text → Text → Option Text
strip_prefix [] text = some text
strip_prefix (p ∷ ps) [] = none
strip_prefix (p ∷ ps) (c ∷ cs) = if p == c then strip_prefix ps cs else none

-- `text.starts_with(p)`
unfoldable pub starts_with : Text → Text → Bool
unfolding strip_prefix
starts_with p text = elim (strip_prefix p text) [ none ↦ false | some _ ↦ true ]

-- `text.find(c)`: the offset of the first byte `c`.
unfoldable pub find : ℕ → Text → Option ℕ
find c [] = none
find c (x ∷ xs) = if x == c then some 0 else Option.map suc (find c xs)

-- `text.rfind(c)`: the offset of the last byte `c`.
unfoldable pub rfind : ℕ → Text → Option ℕ
rfind c [] = none
rfind c (x ∷ xs) = elim (rfind c xs) [
  | some i ↦ some (suc i)
  | none ↦ if x == c then some 0 else none
]

-- `text.ends_with(c)`
unfoldable pub ends_with : ℕ → Text → Bool
ends_with c [] = false
ends_with c (x ∷ []) = x == c
ends_with c (x ∷ y ∷ ys) = ends_with c (y ∷ ys)

-- `text.split_once(c)`: around the first `c`.
unfoldable pub split_once : ℕ → Text → Option (Text × Text)
split_once c [] = none
split_once c (x ∷ xs) =
    if x == c
    then some ([], xs)
    else Option.map (λ (p : Text × Text). ((x ∷ p.0), p.1)) (split_once c xs)

-- `text.rsplit_once(set).map_or(text, |(_, name)| name)`: what follows the last byte of the set.
unfoldable pub after_last : (ℕ → Bool) → Text → Option Text
after_last p [] = none
after_last p (x ∷ xs) = elim (after_last p xs) [
  | some t ↦ some t
  | none ↦ if p x then some xs else none
]

-- The value of a digit in a radix up to 36: 0-9, a-z, A-Z.
unfoldable pub digit_value : ℕ → ℕ → Option ℕ
digit_value radix c =
    let d =
      if leb 48 c && leb c 57
      then c - 48
      else if leb 97 c && leb c 122
      then c - 87
      else if leb 65 c && leb c 90
      then c - 55
      else 36 in
    if ltb d radix then some d else none

-- The digits of `from_str_radix` into an unsigned type whose largest value is `limit`.
unfoldable pub radix_digits : ℕ → ℕ → ℕ → Text → Option ℕ
unfolding digit_value
radix_digits radix limit acc [] = some acc
radix_digits radix limit acc (c ∷ cs) = elim (digit_value radix c) [
  | none ↦ none
  | some d ↦
      if ltb limit (acc * radix + d) then none else radix_digits radix limit (acc * radix + d) cs
]

-- `uN::from_str_radix(text, radix).ok()`: one leading `+` is allowed, the empty text is not.
unfoldable pub from_str_radix : ℕ → ℕ → Text → Option ℕ
unfolding radix_digits
from_str_radix radix limit [] = none
from_str_radix radix limit (c ∷ []) = radix_digits radix limit 0 (c ∷ [])
from_str_radix radix limit (c ∷ d ∷ cs) =
    if c == b'+'
    then radix_digits radix limit 0 (d ∷ cs)
    else radix_digits radix limit 0 (c ∷ d ∷ cs)

-- `text.parse::<u64>().ok()`
unfoldable pub parse_u64 : Text → Option ℕ
unfolding from_str_radix
parse_u64 text = from_str_radix 10 u64_max text

abbrev is_ascii_space : ℕ → Bool
is_ascii_space c = (leb 9 c && leb c 13) || c == 32

abbrev is_two_byte_space : ℕ → ℕ → Bool
is_two_byte_space a b = a == 0xC2 && (b == 0x85 || b == 0xA0)

abbrev is_three_byte_space : ℕ → ℕ → ℕ → Bool
is_three_byte_space a b c =
    (a == 0xE1 && b == 0x9A && c == 0x80)
    || (a == 0xE2 && b == 0x80 && (leb 0x80 c && leb c 0x8A || c == 0xA8 || c == 0xA9 || c == 0xAF))
    || (a == 0xE2 && b == 0x81 && c == 0x9F)
    || (a == 0xE3 && b == 0x80 && c == 0x80)

-- `text.trim_start()`: drops the characters with the Unicode property White_Space.
unfoldable pub trim_start : Text → Text
trim_start (a ∷ b ∷ c ∷ rest) = elim (is_ascii_space a) [
  | true ↦ trim_start (b ∷ c ∷ rest)
  | false ↦ elim (is_two_byte_space a b) [
    | true ↦ trim_start (c ∷ rest)
    | false ↦ elim (is_three_byte_space a b c) [ true ↦ trim_start rest | false ↦ a ∷ b ∷ c ∷ rest ]
  ]
]
trim_start (a ∷ b ∷ []) = elim (is_ascii_space a) [
  | true ↦ trim_start (b ∷ [])
  | false ↦ if is_two_byte_space a b then [] else a ∷ b ∷ []
]
trim_start (a ∷ []) = if is_ascii_space a then [] else a ∷ []
trim_start [] = []

-- The same from the end, on the reversed bytes.
unfoldable pub trim_end_reversed : Text → Text
trim_end_reversed (c ∷ b ∷ a ∷ rest) = elim (is_ascii_space c) [
  | true ↦ trim_end_reversed (b ∷ a ∷ rest)
  | false ↦ elim (is_two_byte_space b c) [
    | true ↦ trim_end_reversed (a ∷ rest)
    | false ↦ elim (is_three_byte_space a b c) [
      | true ↦ trim_end_reversed rest
      | false ↦ c ∷ b ∷ a ∷ rest
    ]
  ]
]
trim_end_reversed (c ∷ b ∷ []) = elim (is_ascii_space c) [
  | true ↦ trim_end_reversed (b ∷ [])
  | false ↦ if is_two_byte_space b c then [] else c ∷ b ∷ []
]
trim_end_reversed (c ∷ []) = if is_ascii_space c then [] else c ∷ []
trim_end_reversed [] = []

-- `text.trim()`
unfoldable pub trim : Text → Text
unfolding trim_start trim_end_reversed
trim text = reverse (trim_end_reversed (reverse (trim_start text)))

trim_test : trim (codes "  a b\n") ≡ codes "a b"
unfolding trim
trim_test = refl

parse_u64_test : parse_u64 (codes "+18446744073709551615") ≡ some u64_max
unfolding parse_u64
parse_u64_test = refl
