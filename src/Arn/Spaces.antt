-- ===== src/Arn/Spaces.antt =====
-- aff4tools: src/arn.rs, `encode_spaces` and `decode_escaped_spaces`.
use aff4tools.Prelude.{
  ℕ, ◌≡◌, refl, ap, ◌∙◌, Bool, true, false, ◌&&◌, ◌||◌, [], ◌∷◌, arith, ◌==◌, Bool-cases, inl, inr,
}
use aff4tools.Text.{Text}
use aff4tools.Arn.Member.{encode_spaces, decode_escaped_spaces}

abbrev pub has_space : Text → Bool
has_space [] = false
has_space (c ∷ cs) = c == b' ' || has_space cs

first : (c : ℕ) (cs : Text) → has_space (c ∷ cs) ≡ false → (c == b' ') ≡ false
first c cs h = elim (Bool-cases (c == b' ')) [
  | inl same ↦ let never : true ≡ false = rw same at h in cc
  | inr other ↦ other
]

later : (c : ℕ) (cs : Text) → has_space (c ∷ cs) ≡ false → has_space cs ≡ false
later c cs h = rw (first c cs h) at h

kept : (c : ℕ) (cs : Text) → (c == b' ') ≡ false → encode_spaces (c ∷ cs) ≡ c ∷ encode_spaces cs
unfolding encode_spaces
kept c cs other = rw other refl

none_left : encode_spaces [] ≡ []
unfolding encode_spaces
none_left = refl

space : (cs : Text) → encode_spaces (b' ' ∷ cs) ≡ b'%' ∷ b'2' ∷ b'0' ∷ encode_spaces cs
unfolding encode_spaces
space cs = refl

escape_bytes :
    (a b c : ℕ)
    → (a == b'%' && b == b'2' && c == b'0') ≡ true
    → (a ≡ b'%') × (b ≡ b'2') × (c ≡ b'0')
escape_bytes a b c h = ground arith

decode_escape :
    (a b c : ℕ) (rest : Text)
    → (a == b'%' && b == b'2' && c == b'0') ≡ true
    → decode_escaped_spaces (a ∷ b ∷ c ∷ rest) ≡ b' ' ∷ decode_escaped_spaces rest
unfolding decode_escaped_spaces
decode_escape a b c rest h = rw (h, decode_escaped_spaces) refl

decode_other :
    (a b c : ℕ) (rest : Text)
    → (a == b'%' && b == b'2' && c == b'0') ≡ false
    → decode_escaped_spaces (a ∷ b ∷ c ∷ rest) ≡ a ∷ decode_escaped_spaces (b ∷ c ∷ rest)
unfolding decode_escaped_spaces
decode_other a b c rest h = rw (h, decode_escaped_spaces) refl

decode_one : (a : ℕ) → decode_escaped_spaces (a ∷ []) ≡ a ∷ []
unfolding decode_escaped_spaces
decode_one a = refl

decode_two : (a b : ℕ) → decode_escaped_spaces (a ∷ b ∷ []) ≡ a ∷ b ∷ []
unfolding decode_escaped_spaces
decode_two a b = refl

decode_none : decode_escaped_spaces [] ≡ []
unfolding decode_escaped_spaces
decode_none = refl

-- Encoding the spaces again undoes the decoding, in every text that has no space of its own.
pub encode_spaces-decode_escaped_spaces :
    (text : Text) → has_space text ≡ false → encode_spaces (decode_escaped_spaces text) ≡ text
encode_spaces-decode_escaped_spaces [] h = ap encode_spaces decode_none ∙ none_left
encode_spaces-decode_escaped_spaces (a ∷ []) h =
    ap encode_spaces (decode_one a) ∙ kept a [] (first a [] h) ∙ ap (λ t. a ∷ t) none_left
encode_spaces-decode_escaped_spaces (a ∷ b ∷ []) h =
    ap encode_spaces (decode_two a b)
    ∙ kept a (b ∷ []) (first a (b ∷ []) h)
    ∙ ap (λ t. a ∷ t) (kept b [] (first b [] (later a (b ∷ []) h)) ∙ ap (λ t. b ∷ t) none_left)
encode_spaces-decode_escaped_spaces (a ∷ b ∷ c ∷ rest) h =
    elim (Bool-cases (a == b'%' && b == b'2' && c == b'0')) [
      | inl escape ↦
          let (x, y, z) = escape_bytes a b c escape in
          let clear = later c rest (later b (c ∷ rest) (later a (b ∷ c ∷ rest) h)) in
          let whole : b'%' ∷ b'2' ∷ b'0' ∷ rest ≡ a ∷ b ∷ c ∷ rest = rw (x, y, z) refl in
          ap encode_spaces (decode_escape a b c rest escape)
          ∙ space (decode_escaped_spaces rest)
          ∙ ap (λ t. b'%' ∷ b'2' ∷ b'0' ∷ t) (encode_spaces-decode_escaped_spaces rest clear)
          ∙ whole
      | inr plain ↦
          ap encode_spaces (decode_other a b c rest plain)
          ∙ kept a (decode_escaped_spaces (b ∷ c ∷ rest)) (first a (b ∷ c ∷ rest) h)
          ∙ ap (λ t. a ∷ t)
              (encode_spaces-decode_escaped_spaces (b ∷ c ∷ rest) (later a (b ∷ c ∷ rest) h))
    ]
