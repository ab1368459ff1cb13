-- ===== src/Naming/RoundTrip.antt =====
-- aff4tools: src/naming.rs, what `base64_decode` makes of an encoding.
use aff4tools.Prelude.{
  ℕ, zero, suc, ◌+◌, ◌-◌, ◌*◌, ◌/◌, ◌%◌, ◌≤◌, ◌<◌, ◌≡◌, refl, ap, ◌∙◌, true, false, some, List, [],
  ◌∷◌, ◌++◌, arith, ltb, ◌==◌, length, length-append, length-replicate, take, take-append,
  replicate, All, Bool-cases, inl, inr,
}
use aff4tools.Text.{Text}
use mathlib.Core.List.{reverse, reverse-append, reverse-cons}
use aff4tools.Naming.{
  letter, pack, base64_encode, leading_padding, has_padding, decode_body, base64_decode,
}
use aff4tools.Naming.Letters.{
  letter_no_padding, two_letters, three_letters, four_letters, packed_two, packed_three,
  packed_four, whole, parts,
}

-- What an encoding consists of: letters that decode to the bytes, and at most two `=`.
record Shape (bytes : List ℕ) (text : Text) : Type 0 where
  body : Text
  count : ℕ
  joined : text ≡ body ++ replicate count b'='
  at_most_two : count ≤ 2
  clean : has_padding body ≡ false
  decoded : decode_body body ≡ some bytes
  fours : length text % 4 ≡ 0

one-Shape : (a : ℕ) → a < 256 → Shape (a ∷ []) (base64_encode (a ∷ []))
unfolding base64_encode
one-Shape a la =
    let p : ℕ = pack a 0 0 in
    let back : p / 262144 % 64 * 262144 + (p / 4096 % 64 * 4096 + 0) ≡ p = omega arith in
    record {
      body = letter p 262144 ∷ letter p 4096 ∷ [];
      count = 2;
      joined = refl;
      at_most_two = omega arith;
      clean = unfold has_padding in rw (letter_no_padding p 262144, letter_no_padding p 4096) refl;
      decoded =
          two_letters (letter p 262144) (letter p 4096) p (packed_two p ∙ ap (λ n. some n) back)
          ∙ ap (λ t. some (take 1 t)) (parts a 0 0 la (omega arith) (omega arith));
      fours = refl;
    }

two-Shape : (a b : ℕ) → a < 256 → b < 256 → Shape (a ∷ b ∷ []) (base64_encode (a ∷ b ∷ []))
unfolding base64_encode
two-Shape a b la lb =
    let p : ℕ = pack a b 0 in
    let back : p / 262144 % 64 * 262144 + (p / 4096 % 64 * 4096 + (p / 64 % 64 * 64 + 0)) ≡ p =
      omega arith in
    record {
      body = letter p 262144 ∷ letter p 4096 ∷ letter p 64 ∷ [];
      count = 1;
      joined = refl;
      at_most_two = omega arith;
      clean =
          unfold has_padding in
          rw (letter_no_padding p 262144, letter_no_padding p 4096, letter_no_padding p 64) refl;
      decoded =
          three_letters (letter p 262144) (letter p 4096) (letter p 64) p
            (packed_three p ∙ ap (λ n. some n) back)
          ∙ ap (λ t. some (take 2 t)) (parts a b 0 la lb (omega arith));
      fours = refl;
    }

more-Shape :
    (a b c : ℕ) (bytes : List ℕ)
    → a < 256
    → b < 256
    → c < 256
    → Shape bytes (base64_encode bytes)
    → Shape (a ∷ b ∷ c ∷ bytes) (base64_encode (a ∷ b ∷ c ∷ bytes))
unfolding base64_encode
more-Shape a b c bytes la lb lc rest =
    let p : ℕ = pack a b c in
    record {
      body = letter p 262144 ∷ letter p 4096 ∷ letter p 64 ∷ letter p 1 ∷ rest.body;
      count = rest.count;
      joined = ap (λ t. letter p 262144 ∷ letter p 4096 ∷ letter p 64 ∷ letter p 1 ∷ t) rest.joined;
      at_most_two = rest.at_most_two;
      clean =
          unfold has_padding in
          rw
            (
              letter_no_padding p 262144,
              letter_no_padding p 4096,
              letter_no_padding p 64,
              letter_no_padding p 1,
            )
            rest.clean;
      decoded =
          four_letters (letter p 262144) (letter p 4096) (letter p 64) (letter p 1) p rest.body
            bytes (packed_four p ∙ ap (λ n. some n) (whole p (omega arith))) rest.decoded
          ∙ ap (λ t. some (t ++ bytes)) (parts a b c la lb lc);
      fours = omega (arith, rest.fours);
    }

no-Shape : Shape [] (base64_encode [])
unfolding base64_encode has_padding decode_body
no-Shape = record {
  body = [];
  count = 0;
  joined = refl;
  at_most_two = omega arith;
  clean = refl;
  decoded = refl;
  fours = refl;
}

encoded : (bytes : List ℕ) → All (λ (b : ℕ). b < 256) bytes → Shape bytes (base64_encode bytes)
encoded [] all = no-Shape
encoded (a ∷ []) all = one-Shape a all.0
encoded (a ∷ b ∷ []) all = two-Shape a b all.0 all.1.0
encoded (a ∷ b ∷ c ∷ bytes) all =
    more-Shape a b c bytes all.0 all.1.0 all.1.1.0 (encoded bytes all.1.1.1)

clean_append :
    (xs ys : Text)
    → has_padding xs ≡ false
    → has_padding ys ≡ false
    → has_padding (xs ++ ys) ≡ false
unfolding has_padding
clean_append [] ys hx hy = hy
clean_append (x ∷ xs) ys hx hy = elim (Bool-cases (x == b'=')) [
  | inl same ↦ let never : true ≡ false = rw same at hx in cc
  | inr other ↦ rw other (clean_append xs ys (rw other at hx) hy)
]

clean_reverse : (xs : Text) → has_padding xs ≡ false → has_padding (reverse xs) ≡ false
unfolding has_padding
clean_reverse [] h = refl
clean_reverse (x ∷ xs) h = elim (Bool-cases (x == b'=')) [
  | inl same ↦ let never : true ≡ false = rw same at h in cc
  | inr other ↦
      let last : has_padding (x ∷ []) ≡ false = rw other refl in
      ap has_padding (reverse-cons x xs)
      ∙ clean_append (reverse xs) (x ∷ []) (clean_reverse xs (rw other at h)) last
]

no_leading : (xs : Text) → has_padding xs ≡ false → leading_padding xs ≡ 0
unfolding has_padding leading_padding
no_leading [] h = refl
no_leading (x ∷ xs) h = elim (Bool-cases (x == b'=')) [
  | inl same ↦ let never : true ≡ false = rw same at h in cc
  | inr other ↦ rw other refl
]

abbrev equals : ℕ
equals = b'='

leading : (k : ℕ) (ys : Text) → leading_padding (replicate k equals ++ ys) ≡ k + leading_padding ys
unfolding leading_padding
leading zero ys = omega arith
leading (suc k) ys = omega (arith, leading k ys)

reverse-replicate : (k : ℕ) → k ≤ 2 → reverse (replicate k equals) ≡ replicate k equals
reverse-replicate zero h = refl
reverse-replicate (suc zero) h = refl
reverse-replicate (suc (suc zero)) h = refl
reverse-replicate (suc (suc (suc k))) h = absurd (omega arith)

padding_of :
    (body : Text) (k : ℕ)
    → k ≤ 2
    → has_padding body ≡ false
    → leading_padding (reverse (body ++ replicate k equals)) ≡ k
padding_of body k le clean =
    ap leading_padding (reverse-append body (replicate k equals))
    ∙ ap (λ t. leading_padding (t ++ reverse body)) (reverse-replicate k le)
    ∙ leading k (reverse body)
    ∙ omega (arith, no_leading (reverse body) (clean_reverse body clean))

body_of :
    (body : Text) (k n : ℕ)
    → n ≡ length (body ++ replicate k equals) - k
    → take n (body ++ replicate k equals) ≡ body
body_of body k n e =
    let m : n ≡ length body =
      omega (arith, e, length-append body (replicate k equals), length-replicate k equals) in
    rw m (take-append body (replicate k equals))

decoded_text :
    (text body : Text) (bytes : List ℕ) (padding : ℕ)
    → leading_padding (reverse text) ≡ padding
    → (length text == 0) ≡ false
    → (length text % 4 == 0) ≡ true
    → ltb 2 padding ≡ false
    → take (length text - padding) text ≡ body
    → has_padding body ≡ false
    → decode_body body ≡ some bytes
    → base64_decode text ≡ some bytes
unfolding base64_decode
decoded_text text body bytes padding p full fours few cut clean decoded =
    rw (p, full, fours, few, cut, clean) decoded

not_empty : (a : ℕ) (bytes : List ℕ) → (length (base64_encode (a ∷ bytes)) == 0) ≡ false
unfolding base64_encode
not_empty a [] = refl
not_empty a (b ∷ []) = refl
not_empty a (b ∷ c ∷ bytes) = ground arith

-- `base64_decode` gives back the bytes that `base64_encode` was given, for every list of bytes.
pub base64_decode-encode :
    (bytes : List ℕ)
    → All (λ (b : ℕ). b < 256) bytes
    → base64_decode (base64_encode bytes) ≡ some bytes
base64_decode-encode [] all = unfold base64_decode base64_encode in refl
base64_decode-encode (a ∷ bytes) all =
    let shape = encoded (a ∷ bytes) all in
    decoded_text (base64_encode (a ∷ bytes)) shape.body (a ∷ bytes) shape.count
      (ap (λ t. leading_padding (reverse t)) shape.joined
        ∙ padding_of shape.body shape.count shape.at_most_two shape.clean)
      (not_empty a bytes) (ground (arith, shape.fours)) (ground (arith, shape.at_most_two))
      (ap (take (length (base64_encode (a ∷ bytes)) - shape.count)) shape.joined
        ∙ body_of shape.body shape.count (length (base64_encode (a ∷ bytes)) - shape.count)
            (ap (λ t. length t - shape.count) shape.joined))
      shape.clean shape.decoded
