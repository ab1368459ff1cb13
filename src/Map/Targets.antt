-- ===== src/Map/Targets.antt =====
-- aff4tools: src/map.rs, how a line of the `idx` segment names a target, and a target's names.
use aff4tools.Prelude.{
  ℕ, Bool, ◌||◌, Option, none, some, [], ◌∷◌, ◌++◌, ◌==◌, if◌then◌else◌, length,
}
use aff4tools.Prelude.Results.{ok, err}
use aff4tools.Text.{
  Text, codes, text_eq, strip_prefix, starts_with, after_last, from_str_radix, trim,
}
use aff4tools.Arn
use aff4tools.Arn.Member.{percent}
use aff4tools.Map.{
  Target, stored, repeated_byte, unknown, block_hash, unrecognised, UnknownKind, not_acquired,
  unreadable,
}

-- `BLOCK_HASH_PREFIX`
abbrev pub block_hash_prefix : Text
block_hash_prefix = codes "aff4:sha512:"

-- `UnknownKind::filler`
unfoldable pub filler : UnknownKind → Text
filler not_acquired = codes "UNKNOWN"
filler unreadable = codes "UNREADABLEDATA"

-- `is_symbolic_target`: `rsplit('/').next()` is what follows the last slash, or the whole text.
unfoldable pub is_symbolic_target : Text → Bool
unfolding starts_with text_eq after_last
is_symbolic_target iri =
    let tail : Text = elim (after_last (λ c. c == b'/') iri) [ none ↦ iri | some t ↦ t ] in
    starts_with (codes "SymbolicStream") tail
    || text_eq tail (codes "Zero")
    || text_eq tail (codes "UnknownData")
    || text_eq tail (codes "UnreadableData")
    || text_eq tail (codes "FF")

-- The `SymbolicStreamNN` and bare `NN` forms.
unfoldable pub parse_run : Text → Text → Target
unfolding strip_prefix from_str_radix
parse_run text name =
    let hex : Text = elim (strip_prefix (codes "SymbolicStream") name) [
      | none ↦ name
      | some h ↦ h
    ] in
    if length hex == 2
    then (elim (from_str_radix 16 255 hex) [
      | none ↦ unrecognised text
      | some byte ↦ repeated_byte byte
    ])
    else unrecognised text

-- The symbolic vocabularies, by the part of the text after its last `#` or `/`.
unfoldable pub parse_symbolic : Text → Target
unfolding parse_run text_eq after_last
parse_symbolic text =
    let name : Text = elim (after_last (λ c. c == b'#' || c == b'/') text) [
      | none ↦ text
      | some t ↦ t
    ] in
    if text_eq name (codes "Zero")
    then repeated_byte 0x00
    else if text_eq name (codes "UnknownData")
    then unknown not_acquired
    else if text_eq name (codes "UnreadableData")
    then unknown unreadable
    else parse_run text name

-- `Target::parse`
unfoldable pub parse : Text → Target
unfolding parse_symbolic trim starts_with
parse untrimmed =
    let text = trim untrimmed in
    if starts_with Arn.scheme text
    then (elim (Arn.parse text) [ ok arn ↦ stored arn | err _ ↦ unrecognised text ])
    else if starts_with block_hash_prefix text
    then block_hash text
    else parse_symbolic text

-- `Target::block_hash`
unfoldable pub block_hash_of : Target → Option Text
block_hash_of (block_hash arn) = some arn
block_hash_of _ = none

-- `0x{b:02X}`
unfoldable pub hex_byte : ℕ → Text
unfolding percent
hex_byte b = codes "0x" ++ (elim (percent b) [ [] ↦ [] | _ ∷ digits ↦ digits ])

-- `Target::gap_fill_name`
unfoldable pub gap_fill_name : Target → Text
unfolding hex_byte
gap_fill_name (repeated_byte b) =
    if b == 0x00
    then codes "aff4:Zero"
    else if b == 0xFF
    then codes "aff4:FF"
    else codes "a run of " ++ hex_byte b
gap_fill_name (stored arn) = arn.lexical
gap_fill_name (block_hash arn) = arn
gap_fill_name (unknown not_acquired) = codes "aff4:UnknownData"
gap_fill_name (unknown unreadable) = codes "aff4:UnreadableData"
gap_fill_name (unrecognised text) = text
