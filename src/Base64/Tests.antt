-- ===== src/Base64/Tests.antt =====
-- Runs of 高编项目/base64.c, and the theorems at concrete strings.
use mycode_c.Base.{ℕ, ◌≡◌, refl, some, List, [], ◌∷◌, arith}
use mycode_c.Base64.{base64_encode, base64_decode}
use mycode_c.Base64.RoundTrip.{decode-encode}

-- "pass" and its encoding
abbrev text : List ℕ
text = b'a' ∷ b's' ∷ b's' ∷ []

encode_pass :
    base64_encode (b'p' ∷ b'a' ∷ b's' ∷ b's' ∷ 0 ∷ [])
    ≡ some (b'c' ∷ b'G' ∷ b'F' ∷ b'z' ∷ b'c' ∷ b'w' ∷ b'=' ∷ b'=' ∷ 0 ∷ [])
unfolding base64_encode
encode_pass = refl

decode-encode_example :
    (e : List ℕ) × (base64_encode (b'p' ∷ b'a' ∷ b's' ∷ b's' ∷ 0 ∷ 77 ∷ []) ≡ some e)
    × (base64_decode e ≡ some (b'p' ∷ b'a' ∷ b's' ∷ b's' ∷ 0 ∷ []))
decode-encode_example = decode-encode b'p' text (77 ∷ []) (omega arith)
