-- ===== src/Text/Hex.antt =====
-- hex.EncodeToString and hex.DecodeString.
use geotagger.Prelude.{
  ℕ, suc, ◌+◌, ◌-◌, ◌*◌, ◌/◌, ◌%◌, ◌<◌, ◌≡◌, refl, sym, ap, ◌∙◌, ◌&&◌, [], ◌∷◌, Option, none, some,
  arith, leb, ltb, if◌then◌else◌, length, All,
}
use mathlib.Core.Option
use geotagger.Text.Bytes.{Str}

abbrev pub IsByte : ℕ → Type 0
IsByte c = c < 256

-- The digit for a value below sixteen: "0123456789abcdef".
unfoldable pub hex_digit : ℕ → ℕ
hex_digit n = if ltb n 10 then b'0' + n else b'a' + (n - 10)

unfoldable pub hex_encode : Str → Str
unfolding hex_digit
hex_encode [] = []
hex_encode (c ∷ s) = hex_digit (c / 16) ∷ hex_digit (c % 16) ∷ hex_encode s

-- The value of a digit, in either case.
hex_value : ℕ → Option ℕ
hex_value c =
    if leb b'0' c && leb c b'9'
    then some (c - b'0')
    else if leb b'a' c && leb c b'f'
    then some (c - b'a' + 10)
    else if leb b'A' c && leb c b'F'
    then some (c - b'A' + 10)
    else none

-- One more byte before a decoded rest, unless one of the parts was refused.
hex_join : Option ℕ → Option ℕ → Option Str → Option Str
hex_join (some h) (some l) (some rest) = some ((h * 16 + l) ∷ rest)
hex_join _ _ _ = none

unfoldable pub hex_decode : Str → Option Str
unfolding hex_value hex_join
hex_decode [] = some []
hex_decode (c ∷ []) = none
hex_decode (c ∷ d ∷ s) = hex_join (hex_value c) (hex_value d) (hex_decode s)

hex_value-hex_digit : (n : ℕ) → n < 16 → hex_value (hex_digit n) ≡ some n
unfolding hex_value hex_digit
hex_value-hex_digit n h = ground arith

hex_join-digits :
    (c : ℕ) (rest : Option Str)
    → c < 256
    → hex_join (hex_value (hex_digit (c / 16))) (hex_value (hex_digit (c % 16))) rest
      ≡ Option.map (λ t. c ∷ t) rest
unfolding hex_join
hex_join-digits c none h =
    rw (hex_value-hex_digit (c / 16) (omega arith))
      (rw (hex_value-hex_digit (c % 16) (omega arith)))
hex_join-digits c (some t) h =
    rw (hex_value-hex_digit (c / 16) (omega arith))
      (rw (hex_value-hex_digit (c % 16) (omega arith)) (ground arith))

-- Decoding undoes encoding.
pub hex_decode-hex_encode : (s : Str) → All IsByte s → hex_decode (hex_encode s) ≡ some s
unfolding hex_decode hex_encode
hex_decode-hex_encode [] h = refl
hex_decode-hex_encode (c ∷ s) (hc, hs) =
    hex_join-digits c (hex_decode (hex_encode s)) hc
    ∙ ap (Option.map (λ t. c ∷ t)) (hex_decode-hex_encode s hs)

pub length-hex_encode : (s : Str) → length (hex_encode s) ≡ 2 * length s
unfolding hex_encode
length-hex_encode [] = omega arith
length-hex_encode (c ∷ s) = omega (arith, length-hex_encode s)

hex_join-some :
    (a b : Option ℕ) (r : Option Str) (t : Str)
    → hex_join a b r ≡ some t
    → (rest : Str) × (r ≡ some rest) × (length t ≡ suc (length rest))
unfolding hex_join
hex_join-some (some h) (some l) (some rest) t e =
    let same : (h * 16 + l) ∷ rest ≡ t = cc in (rest, refl, ap length (sym same))
hex_join-some (some h) (some l) none t e = cc
hex_join-some (some h) none r t e = cc
hex_join-some none b r t e = cc

-- A text that decodes is two digits for each byte.
pub length-hex_decode : (s t : Str) → hex_decode s ≡ some t → length s ≡ 2 * length t
unfolding hex_decode
length-hex_decode [] t h = ground arith
length-hex_decode (c ∷ []) t h = cc
length-hex_decode (c ∷ d ∷ s) t h =
    let (rest, decoded, longer) = hex_join-some (hex_value c) (hex_value d) (hex_decode s) t h in
    omega (arith, longer, length-hex_decode s rest decoded)
