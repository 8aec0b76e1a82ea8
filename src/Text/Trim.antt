-- ===== src/Text/Trim.antt =====
-- strings.TrimSpace on UTF-8 bytes. White space is that of unicode.IsSpace: six ASCII bytes, two
-- runes of two bytes and the wide spaces of three.
use geotagger.Prelude.{
  ℕ, zero, suc, ◌≡◌, refl, Bool, ◌&&◌, ◌||◌, [], ◌∷◌, ◌==◌, leb, reverse, if◌then◌else◌,
}
use geotagger.Text.Bytes.{Str}

-- '\t', '\n', '\v', '\f', '\r', ' '
is_ascii_space : ℕ → Bool
is_ascii_space c = (leb 9 c && leb c 13) || c == 32

-- U+0085 and U+00A0
is_narrow_space : ℕ → ℕ → Bool
is_narrow_space a b = a == 0xc2 && (b == 0x85 || b == 0xa0)

-- U+1680, U+2000 to U+200A, U+2028, U+2029, U+202F, U+205F and U+3000
is_wide_space : ℕ → ℕ → ℕ → Bool
is_wide_space a b c =
    (a == 0xe1 && b == 0x9a && c == 0x80)
    || (a == 0xe2
        && b == 0x80
        && ((leb 0x80 c && leb c 0x8a) || c == 0xa8 || c == 0xa9 || c == 0xaf))
    || (a == 0xe2 && b == 0x81 && c == 0x9f)
    || (a == 0xe3 && b == 0x80 && c == 0x80)

-- The byte at the front, or a value that is no byte.
first : Str → ℕ
first [] = 256
first (c ∷ s) = c

second : Str → ℕ
unfolding first
second [] = 256
second (c ∷ s) = first s

third : Str → ℕ
unfolding second
third [] = 256
third (c ∷ s) = second s

-- The bytes of the white-space rune at the front, 0 where there is none.
unfoldable pub space_width : Str → ℕ
unfolding is_ascii_space is_narrow_space is_wide_space first second third
space_width s =
    let a = first s in
    let b = second s in
    let c = third s in
    if is_ascii_space a
    then 1
    else if is_narrow_space a b
    then 2
    else if is_wide_space a b c
    then 3
    else 0

-- The same at the end of a string that is read backwards.
unfoldable pub space_width_back : Str → ℕ
unfolding is_ascii_space is_narrow_space is_wide_space first second third
space_width_back s =
    let c = first s in
    let b = second s in
    let a = third s in
    if is_ascii_space c
    then 1
    else if is_narrow_space b c
    then 2
    else if is_wide_space a b c
    then 3
    else 0

-- Drops runes from the front as long as `width` is positive; the number is what is left of the
-- rune that is being dropped.
unfoldable pub trim_front : (Str → ℕ) → ℕ → Str → Str
trim_front width k [] = []
trim_front width (suc k) (c ∷ s) = trim_front width k s
trim_front width zero (c ∷ s) = elim (width (c ∷ s)) [ zero ↦ c ∷ s | suc k ↦ trim_front width k s ]

-- strings.TrimSpace(s)
unfoldable pub trim_space : Str → Str
unfolding trim_front space_width space_width_back
trim_space s = reverse (trim_front space_width_back 0 (reverse (trim_front space_width 0 s)))

trim_space_tests :
    trim_space (32 ∷ 0xc2 ∷ 0xa0 ∷ 65 ∷ 32 ∷ 66 ∷ 0xe3 ∷ 0x80 ∷ 0x80 ∷ 10 ∷ []) ≡ 65 ∷ 32 ∷ 66 ∷ []
unfolding trim_space
trim_space_tests = refl
