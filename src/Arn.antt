-- ===== src/Arn.antt =====
-- aff4tools: src/arn.rs, AFF4 resource names. `Arn` and its accessors are here, the ZIP member
-- names and percent escapes in the child `Member`. An offset is a byte offset.
pub mod Member
pub mod Spaces
mod Tests
use aff4tools.Prelude.{
  ℕ, suc, ◌+◌, ◌-◌, ◌≡◌, refl, Bool, true, false, ◌&&◌, Option, none, some, List, [], ◌∷◌, ltb,
  ◌==◌, if◌then◌else◌, u64_max, length, take, drop,
}
use aff4tools.Prelude.Results.{Result, ok, err, ◌>>=◌}
use aff4tools.Text.{
  Text, codes, text_eq, strip_prefix, find, rfind, ends_with, split_once, from_str_radix, parse_u64,
}
use mathlib.Core.Option

-- `SCHEME`
abbrev pub scheme : Text
scheme = codes "aff4://"

abbrev pub scheme_len : ℕ
scheme_len = 7

pub record ByteRange : Type 0 where
  pub start : ℕ
  pub length : ℕ

pub record Arn : Type 0 where
  pub lexical : Text
  pub path_start : Option ℕ
  pub range_start : Option ℕ

-- The refusals of `Arn::parse`, one for each message.
pub data ArnError : Type 0 where
  no_scheme empty_name bad_range empty_authority : ArnError

-- `parse_offset`
unfoldable pub parse_offset : Text → Option ℕ
unfolding strip_prefix from_str_radix parse_u64
parse_offset text = elim (strip_prefix (codes "0x") text) [
  | some hex ↦ from_str_radix 16 u64_max hex
  | none ↦ elim (strip_prefix (codes "0X") text) [
    | some hex ↦ from_str_radix 16 u64_max hex
    | none ↦ parse_u64 text
  ]
]

-- `parse_byte_range`
unfoldable pub parse_byte_range : Text → Option ByteRange
unfolding split_once parse_offset
parse_byte_range inner = elim (split_once b':' inner) [
  | none ↦ none
  | some p ↦ elim (parse_offset p.0) [
    | none ↦ none
    | some start ↦ elim (parse_offset p.1) [
      | none ↦ none
      | some length ↦ some (record { start = start; length = length })
    ]
  ]
]

-- The range suffix of what follows the scheme: the offset of its bracket in the whole name.
unfoldable pub range_suffix : Text → Result ArnError (Option ℕ)
unfolding rfind ends_with parse_byte_range
range_suffix rest = elim (rfind b'[' rest) [
  | none ↦ ok none
  | some idx ↦
      if ends_with b']' rest
      then (elim (parse_byte_range (take (length rest - 1 - (idx + 1)) (drop (idx + 1) rest))) [
        | none ↦ err bad_range
        | some _ ↦ ok (some (scheme_len + idx))
      ])
      else ok none
]

-- `range_start.unwrap_or(text.len())`
unfoldable pub end_or : Option ℕ → ℕ → ℕ
end_or none len = len
end_or (some i) len = i

-- The path of what follows the scheme, and the test that a volume stands before it.
unfoldable pub with_path : Text → Text → Option ℕ → Result ArnError Arn
unfolding end_or find
with_path text rest range_start =
    let scan_end = end_or range_start (length text) - scheme_len in
    let path_start = Option.map (λ i. scheme_len + i) (find b'/' (take scan_end rest)) in
    let arn : Arn = record { lexical = text; path_start = path_start; range_start = range_start } in
    elim path_start [
      | none ↦ ok arn
      | some start ↦ if start == scheme_len then err empty_authority else ok arn
    ]

-- `Arn::parse`
unfoldable pub parse : Text → Result ArnError Arn
unfolding range_suffix with_path strip_prefix
parse text = elim (strip_prefix scheme text) [
  | none ↦ err no_scheme
  | some rest ↦
      if length rest == 0 then err empty_name else range_suffix rest >>= with_path text rest
]

-- `Arn::volume`
unfoldable pub volume : Arn → Text
unfolding end_or
volume a =
    take (elim a.path_start [ some i ↦ i | none ↦ end_or a.range_start (length a.lexical) ])
      a.lexical

-- `Arn::path`
unfoldable pub path : Arn → Option Text
unfolding end_or
path a = elim a.path_start [
  | none ↦ none
  | some start ↦
      some (take (end_or a.range_start (length a.lexical) - start) (drop start a.lexical))
]

-- `Arn::stored_path`
unfoldable pub stored_path : Arn → Option Text
unfolding path strip_prefix
stored_path a = elim (path a) [ none ↦ none | some p ↦ strip_prefix (codes "/") p ]

-- `Arn::byte_range`
unfoldable pub byte_range : Arn → Option ByteRange
byte_range a = elim a.range_start [
  | none ↦ none
  | some start ↦
      parse_byte_range (take (length a.lexical - 1 - (start + 1)) (drop (start + 1) a.lexical))
]

-- `Arn::without_range`
unfoldable pub without_range : Arn → Text
unfolding end_or
without_range a = take (end_or a.range_start (length a.lexical)) a.lexical

-- `Arn::is_byte_range`
unfoldable pub is_byte_range : Arn → Bool
is_byte_range a = elim a.range_start [ none ↦ false | some _ ↦ true ]

-- `Arn::is_within`
unfoldable pub is_within : Arn → Arn → Bool
unfolding volume text_eq
is_within a v = text_eq (volume a) (volume v)
