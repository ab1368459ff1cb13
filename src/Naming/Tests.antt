-- ===== src/Naming/Tests.antt =====
-- Runs of the recorded names on small inputs, and instances of what is proved of them.
use aff4tools.Prelude.{ℕ, ◌<◌, ◌≡◌, refl, none, some, List, [], ◌∷◌, All, arith}
use aff4tools.Text.{codes}
use aff4tools.Naming.{base64_encode, base64_decode, display_form, of}
use aff4tools.Naming.RoundTrip.{base64_decode-encode}
use aff4tools.Naming.Display.{recovered, recovered-of, IsPrintable, display_form-IsPrintable}

-- `foob` of RFC 4648, and a name with a byte that is not UTF-8 and a `%`.
abbrev foob : List ℕ
foob = 0x66 ∷ 0x6F ∷ 0x6F ∷ 0x62 ∷ []

abbrev broken : List ℕ
broken = 0x41 ∷ 0xFF ∷ 0x25 ∷ []

encoded_foob : base64_encode foob ≡ codes "Zm9vYg=="
unfolding base64_encode
encoded_foob = refl

refused : base64_decode (codes "Zg==Zg==") ≡ none
unfolding base64_decode
refused = refl

foob_bytes : All (λ (b : ℕ). b < 256) foob
foob_bytes = (omega arith, (omega arith, (omega arith, (omega arith, tt))))

broken_bytes : All (λ (b : ℕ). b < 256) broken
broken_bytes = (omega arith, (omega arith, (omega arith, tt)))

base64_decode-encode_example : base64_decode (base64_encode foob) ≡ some foob
base64_decode-encode_example = base64_decode-encode foob foob_bytes

recovered-of_example : recovered (of broken) ≡ some broken
recovered-of_example = recovered-of broken broken_bytes

display_form-IsPrintable_example : All IsPrintable (display_form broken)
display_form-IsPrintable_example = display_form-IsPrintable broken broken_bytes
