-- ===== src/Arn/Tests.antt =====
-- Runs of the ARN functions on small inputs, and instances of what is proved of them.
use aff4tools.Prelude.{◌≡◌, refl, none, some, [], ◌∷◌, ◌++◌}
use aff4tools.Prelude.Results.{ok}
use aff4tools.Text.{codes}
use aff4tools.Arn.{parse}
use aff4tools.Arn.Member.{panic, unescape, encode_spaces, decode_escaped_spaces}
use aff4tools.Arn.Spaces.{encode_spaces-decode_escaped_spaces}

range_parsed :
    parse (codes "aff4://u/p[0x10:32]")
    ≡ ok (record {
      lexical = codes "aff4://u/p[0x10:32]";
      path_start = some 8;
      range_start = some 10;
    })
unfolding parse
range_parsed = refl

-- A range behind an empty name is accepted.
bare_range :
    parse (codes "aff4://[0x0:0x10]")
    ≡ ok (record { lexical = codes "aff4://[0x0:0x10]"; path_start = none; range_start = some 7 })
unfolding parse
bare_range = refl

-- The euro sign is the three bytes 0xE2, 0x82, 0xAC; the slice behind the `%` ends in it.
cut_escape : unescape (codes "%a" ++ (0xE2 ∷ 0x82 ∷ 0xAC ∷ [])) ≡ panic
unfolding unescape
cut_escape = refl

encode_spaces-decode_escaped_spaces_example :
    encode_spaces (decode_escaped_spaces (codes "a%20b")) ≡ codes "a%20b"
encode_spaces-decode_escaped_spaces_example =
    encode_spaces-decode_escaped_spaces (codes "a%20b") refl
