-- ===== src/Text/Base64.antt =====
-- base64.RawURLEncoding.EncodeToString.
use geotagger.Prelude.{ℕ, ◌+◌, ◌-◌, ◌*◌, ◌/◌, ◌%◌, ◌≡◌, refl, [], ◌∷◌, ltb, ◌==◌, if◌then◌else◌}
use geotagger.Text.Bytes.{Str, codes}

-- The digit for a value below 64.
unfoldable pub url_digit : ℕ → ℕ
url_digit n =
    if ltb n 26
    then b'A' + n
    else if ltb n 52
    then b'a' + (n - 26)
    else if ltb n 62
    then b'0' + (n - 52)
    else if n == 62
    then b'-'
    else b'_'

unfoldable pub base64_encode : Str → Str
unfolding url_digit
base64_encode [] = []
base64_encode (a ∷ []) = url_digit (a / 4) ∷ url_digit (a % 4 * 16) ∷ []
base64_encode (a ∷ b ∷ []) =
    url_digit (a / 4) ∷ url_digit (a % 4 * 16 + b / 16) ∷ url_digit (b % 16 * 4) ∷ []
base64_encode (a ∷ b ∷ c ∷ s) =
    url_digit (a / 4)
    ∷ url_digit (a % 4 * 16 + b / 16)
    ∷ url_digit (b % 16 * 4 + c / 64)
    ∷ url_digit (c % 64)
    ∷ base64_encode s

base64_encode_test : base64_encode (255 ∷ 239 ∷ 65 ∷ 66 ∷ []) ≡ codes "_-9BQg"
unfolding base64_encode
base64_encode_test = refl
