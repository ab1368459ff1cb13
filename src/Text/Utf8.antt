-- ===== src/Text/Utf8.antt =====
-- `String::from_utf8_lossy`: each maximal ill-formed part becomes U+FFFD (EF BF BD).
use aff4tools.Prelude.{
  ℕ, zero, suc, ◌≡◌, refl, Bool, true, false, ◌&&◌, Option, none, some, [], ◌∷◌, ◌++◌, leb, ◌==◌,
  if◌then◌else◌, length,
}
use aff4tools.Text.{Text}

abbrev between : ℕ → ℕ → ℕ → Bool
between lo hi b = leb lo b && leb b hi

abbrev is_cont : ℕ → Bool
is_cont b = between 0x80 0xBF b

-- How many bytes follow the lead byte `b`; `none` where no character begins with `b`.
unfoldable pub followers : ℕ → Option ℕ
followers b =
    if leb b 0x7F
    then some 0
    else if between 0xC2 0xDF b
    then some 1
    else if between 0xE0 0xEF b
    then some 2
    else if between 0xF0 0xF4 b
    then some 3
    else none

-- Whether `c` may follow the lead byte `b` directly.
unfoldable pub second_ok : ℕ → ℕ → Bool
second_ok b c =
    if b == 0xE0
    then between 0xA0 0xBF c
    else if b == 0xED
    then between 0x80 0x9F c
    else if b == 0xF0
    then between 0x90 0xBF c
    else if b == 0xF4
    then between 0x80 0x8F c
    else is_cont c

-- What follows a lead byte: the bytes of the character still to come, and those already seen.
-- `none`: the character is cut short. The rest is what comes after the part that was taken.
abbrev Taken : Type 0
Taken = Option Text × Text

unfoldable pub take_conts : ℕ → Text → Taken
take_conts zero rest = (some [], rest)
take_conts (suc n) [] = (none, [])
take_conts (suc n) (c ∷ rest) =
    let (more, rest') = take_conts n rest in
    if is_cont c
    then (elim more [ none ↦ none | some cs ↦ some (c ∷ cs) ], rest')
    else (none, c ∷ rest)

unfoldable pub take_followers : ℕ → ℕ → Text → Taken
unfolding take_conts second_ok
take_followers b zero rest = (some [], rest)
take_followers b (suc n) [] = (none, [])
take_followers b (suc n) (c ∷ rest) =
    let (more, rest') = take_conts n rest in
    if second_ok b c
    then (elim more [ none ↦ none | some cs ↦ some (c ∷ cs) ], rest')
    else (none, c ∷ rest)

abbrev replacement : Text
replacement = 0xEF ∷ 0xBF ∷ 0xBD ∷ []

-- Each round takes a byte at least, so as many rounds as there are bytes are enough.
unfoldable pub lossy_loop : ℕ → Text → Text
unfolding followers take_followers
lossy_loop zero bytes = []
lossy_loop (suc fuel) [] = []
lossy_loop (suc fuel) (b ∷ rest) = elim (followers b) [
  | none ↦ replacement ++ lossy_loop fuel rest
  | some n ↦
      let (character, rest') = take_followers b n rest in
      elim character [
        | none ↦ replacement ++ lossy_loop fuel rest'
        | some cs ↦ (b ∷ cs) ++ lossy_loop fuel rest'
      ]
]

unfoldable pub from_utf8_lossy : Text → Text
unfolding lossy_loop
from_utf8_lossy bytes = lossy_loop (length bytes) bytes

-- `std::str::from_utf8(bytes).is_ok()`
unfoldable pub valid_loop : ℕ → Text → Bool
unfolding followers take_followers
valid_loop zero bytes = true
valid_loop (suc fuel) [] = true
valid_loop (suc fuel) (b ∷ rest) = elim (followers b) [
  | none ↦ false
  | some n ↦
      let (character, rest') = take_followers b n rest in
      elim character [ none ↦ false | some cs ↦ valid_loop fuel rest' ]
]

unfoldable pub is_utf8 : Text → Bool
unfolding valid_loop
is_utf8 bytes = valid_loop (length bytes) bytes

lossy_test :
    from_utf8_lossy (0x61 ∷ 0xE2 ∷ 0x82 ∷ 0x62 ∷ 0xC3 ∷ 0xA9 ∷ 0xFF ∷ [])
    ≡ 0x61 ∷ 0xEF ∷ 0xBF ∷ 0xBD ∷ 0x62 ∷ 0xC3 ∷ 0xA9 ∷ 0xEF ∷ 0xBF ∷ 0xBD ∷ []
unfolding from_utf8_lossy
lossy_test = refl
