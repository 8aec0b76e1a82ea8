-- ===== src/Text/Order.antt =====
-- s < t on Go strings: the order of their bytes.
use geotagger.Prelude.{◌≡◌, refl, Bool, true, false, ◌&&◌, ◌||◌, [], ◌∷◌, arith, ltb, ◌==◌}
use geotagger.Text.Bytes.{Str}

unfoldable pub str_lt : Str → Str → Bool
str_lt [] [] = false
str_lt [] (y ∷ t) = true
str_lt (x ∷ s) [] = false
str_lt (x ∷ s) (y ∷ t) = ltb x y || (x == y && str_lt s t)

pub str_lt_asym : (s t : Str) → str_lt s t ≡ true → str_lt t s ≡ false
unfolding str_lt
str_lt_asym [] [] h = cc
str_lt_asym [] (y ∷ t) h = refl
str_lt_asym (x ∷ s) [] h = cc
str_lt_asym (x ∷ s) (y ∷ t) h = ground (arith, str_lt_asym s t)

pub str_lt_trans : (s t u : Str) → str_lt t s ≡ false → str_lt u t ≡ false → str_lt u s ≡ false
unfolding str_lt
str_lt_trans [] t [] h k = refl
str_lt_trans [] t (z ∷ u) h k = refl
str_lt_trans (x ∷ s) [] u h k = absurd (cc h)
str_lt_trans (x ∷ s) (y ∷ t) [] h k = absurd (cc k)
str_lt_trans (x ∷ s) (y ∷ t) (z ∷ u) h k = ground (arith, str_lt_trans s t u)
