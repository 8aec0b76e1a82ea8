-- ===== src/Text/Graphic.antt =====
-- Texts of graphic ASCII: TrimSpace leaves them as they are, and the encoders write nothing else.
use geotagger.Prelude.{
  ℕ, ◌<◌, ◌+◌, ◌*◌, ◌/◌, ◌%◌, ◌≡◌, ◌≢◌, refl, [], ◌∷◌, arith, reverse, All, All-append,
}
use mathlib.Core.List.{reverse-reverse, reverse-cons}
use geotagger.Text.Bytes.{Str}
use geotagger.Text.Strings.{Lacks}
use geotagger.Text.Trim.{space_width, space_width_back, trim_front, trim_space}
use geotagger.Text.Hex.{hex_digit, hex_encode}
use geotagger.Text.Base64.{url_digit, base64_encode}

abbrev pub IsGraphic : ℕ → Type 0
IsGraphic c = (32 < c) × (c < 127)

space_width_graphic : (c : ℕ) (s : Str) → IsGraphic c → space_width (c ∷ s) ≡ 0
unfolding space_width
space_width_graphic c s h = ground arith

space_width_back_graphic : (c : ℕ) (s : Str) → IsGraphic c → space_width_back (c ∷ s) ≡ 0
unfolding space_width_back
space_width_back_graphic c s h = ground arith

All-reverse : (s : Str) → All IsGraphic s → All IsGraphic (reverse s)
All-reverse [] h = tt
All-reverse (c ∷ s) (hc, hs) =
    rw reverse-cons (All-append IsGraphic (reverse s) (c ∷ []) (All-reverse s hs) (hc, tt))

trim_front_graphic : (s : Str) → All IsGraphic s → trim_front space_width 0 s ≡ s
unfolding trim_front
trim_front_graphic [] h = refl
trim_front_graphic (c ∷ s) (hc, hs) = rw (space_width_graphic c s hc, trim_front)

trim_back_graphic : (s : Str) → All IsGraphic s → trim_front space_width_back 0 s ≡ s
unfolding trim_front
trim_back_graphic [] h = refl
trim_back_graphic (c ∷ s) (hc, hs) = rw (space_width_back_graphic c s hc, trim_front)

pub trim_space_graphic : (s : Str) → All IsGraphic s → trim_space s ≡ s
trim_space_graphic s h =
    unfold trim_space in
    rw (trim_front_graphic s h)
      (rw (trim_back_graphic (reverse s) (All-reverse s h)) (reverse-reverse s))

hex_digit-IsGraphic : (n : ℕ) → n < 16 → IsGraphic (hex_digit n)
unfolding hex_digit
hex_digit-IsGraphic n h = ground arith

digit : (n : ℕ) → IsGraphic (url_digit n)
unfolding url_digit
digit n = ground arith

pub hex_encode-IsGraphic : (s : Str) → All (λ c. c < 256) s → All IsGraphic (hex_encode s)
unfolding hex_encode
hex_encode-IsGraphic [] h = tt
hex_encode-IsGraphic (c ∷ s) (hc, hs) = (
  hex_digit-IsGraphic (c / 16) (omega arith),
  (hex_digit-IsGraphic (c % 16) (omega arith), hex_encode-IsGraphic s hs),
)

pub base64_encode-IsGraphic : (s : Str) → All IsGraphic (base64_encode s)
unfolding base64_encode
base64_encode-IsGraphic [] = tt
base64_encode-IsGraphic (a ∷ []) = (digit (a / 4), (digit (a % 4 * 16), tt))
base64_encode-IsGraphic (a ∷ b ∷ []) =
    (digit (a / 4), (digit (a % 4 * 16 + b / 16), (digit (b % 16 * 4), tt)))
base64_encode-IsGraphic (a ∷ b ∷ c ∷ s) = (
  digit (a / 4),
  (
    digit (a % 4 * 16 + b / 16),
    (digit (b % 16 * 4 + c / 64), (digit (c % 64), base64_encode-IsGraphic s)),
  ),
)

hex_digit-ne-comma : (n : ℕ) → hex_digit n ≢ b','
unfolding hex_digit
hex_digit-ne-comma n = ground arith

pub hex_encode-Lacks_comma : (s : Str) → Lacks b',' (hex_encode s)
unfolding hex_encode
hex_encode-Lacks_comma [] = tt
hex_encode-Lacks_comma (c ∷ s) =
    (hex_digit-ne-comma (c / 16), (hex_digit-ne-comma (c % 16), hex_encode-Lacks_comma s))
