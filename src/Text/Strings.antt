-- ===== src/Text/Strings.antt =====
-- strings.Cut, Split, HasPrefix, TrimPrefix and IndexByte, for a separator of one byte.
use geotagger.Prelude.{
  ℕ, ◌≡◌, ◌≢◌, refl, sym, ap, append-nil, append_assoc, Bool, true, false, ◌&&◌, ◌||◌, List, [],
  ◌∷◌, ◌++◌, Option, none, some, arith, ◌==◌, if◌then◌else◌, All,
}
use geotagger.Text.Bytes.{Str}

-- strings.HasPrefix(s, prefix)
unfoldable pub has_prefix : Str → Str → Bool
has_prefix s [] = true
has_prefix [] (p ∷ ps) = false
has_prefix (c ∷ s) (p ∷ ps) = c == p && has_prefix s ps

-- The text behind a prefix that the string has.
unfoldable pub after_prefix : Str → Str → Option Str
after_prefix s [] = some s
after_prefix [] (p ∷ ps) = none
after_prefix (c ∷ s) (p ∷ ps) = if c == p then after_prefix s ps else none

-- strings.TrimPrefix(s, prefix)
unfoldable pub trim_prefix : Str → Str → Str
trim_prefix s p = elim (after_prefix s p) [ none ↦ s | some rest ↦ rest ]

-- strings.Cut(s, sep)
unfoldable pub cut : ℕ → Str → Option (Str × Str)
cut c [] = none
cut c (x ∷ s) =
    let rest = cut c s in
    if x == c then some ([], s) else elim rest [ none ↦ none | some (a, b) ↦ some (x ∷ a, b) ]

-- strings.Split(s, sep): `cur` is the part that has been read so far.
unfoldable pub split_from : ℕ → Str → Str → List Str
split_from c cur [] = cur ∷ []
split_from c cur (x ∷ s) = elim (x == c) [
  | true ↦ cur ∷ split_from c [] s
  | false ↦ split_from c (cur ++ x ∷ []) s
]

unfoldable pub split : ℕ → Str → List Str
unfolding split_from
split c s = split_from c [] s

-- strings.Contains(s, string(c))
unfoldable pub contains : ℕ → Str → Bool
contains c [] = false
contains c (x ∷ s) = x == c || contains c s

abbrev pub Lacks : ℕ → Str → Type 0
Lacks c = All (λ x. x ≢ c)

pub contains-Lacks : (c : ℕ) (s : Str) → contains c s ≡ false → Lacks c s
unfolding contains
contains-Lacks c [] h = tt
contains-Lacks c (x ∷ s) h = ground (arith, contains-Lacks c s)

pub contains_of_Lacks : (c : ℕ) (s : Str) → Lacks c s → contains c s ≡ false
unfolding contains
contains_of_Lacks c [] h = refl
contains_of_Lacks c (x ∷ s) h = ground (arith, contains_of_Lacks c s)

pub after_prefix-append : (p s : Str) → after_prefix (p ++ s) p ≡ some s
unfolding after_prefix
after_prefix-append [] s = refl
after_prefix-append (c ∷ p) s = ground (arith, after_prefix-append p s)

pub has_prefix-append : (p s : Str) → has_prefix (p ++ s) p ≡ true
unfolding has_prefix
has_prefix-append [] s = refl
has_prefix-append (c ∷ p) s = ground (arith, has_prefix-append p s)

pub trim_prefix-append : (p s : Str) → trim_prefix (p ++ s) p ≡ s
unfolding trim_prefix
trim_prefix-append p s = rw (after_prefix-append p s, trim_prefix)

after_prefix_sound : (s p t : Str) → after_prefix s p ≡ some t → s ≡ p ++ t
unfolding after_prefix
after_prefix_sound s [] t h = cc
after_prefix_sound [] (c ∷ p) t h = cc
after_prefix_sound (x ∷ s) (c ∷ p) t h = ground (arith, after_prefix_sound s p t)

after_prefix_complete :
    (s p : Str) → has_prefix s p ≡ true → (t : Str) × (after_prefix s p ≡ some t)
unfolding after_prefix has_prefix
after_prefix_complete s [] h = (s, refl)
after_prefix_complete [] (c ∷ p) h = cc
after_prefix_complete (x ∷ s) (c ∷ p) h = ground (arith, after_prefix_complete s p)

-- A string that has the prefix is the prefix and what TrimPrefix leaves.
pub has_prefix-split : (s p : Str) → has_prefix s p ≡ true → s ≡ p ++ trim_prefix s p
has_prefix-split s p h =
    let (t, found) = after_prefix_complete s p h in
    unfold trim_prefix in rw (found, trim_prefix) (after_prefix_sound s p t found)

pub cut_sound : (c : ℕ) (s a b : Str) → cut c s ≡ some (a, b) → (s ≡ a ++ c ∷ b) × Lacks c a
unfolding cut
cut_sound c [] a b h = cc
cut_sound c (x ∷ s) [] b h = ground arith
cut_sound c (x ∷ s) (y ∷ a) b h = ground (arith, cut_sound c s a b)

pub cut-append : (c : ℕ) (a b : Str) → Lacks c a → cut c (a ++ c ∷ b) ≡ some (a, b)
unfolding cut
cut-append c [] b h = ground arith
cut-append c (x ∷ a) b h = ground (arith, cut-append c a b)

pub split_from-Lacks : (c : ℕ) (cur s : Str) → Lacks c s → split_from c cur s ≡ (cur ++ s) ∷ []
unfolding split_from
split_from-Lacks c cur [] h = ap (λ t. t ∷ []) (sym (append-nil cur))
split_from-Lacks c cur (x ∷ s) h =
    ground (arith, split_from-Lacks c (cur ++ x ∷ []) s, append_assoc cur (x ∷ []) s)

pub split_from-append :
    (c : ℕ) (cur a b : Str)
    → Lacks c a
    → split_from c cur (a ++ c ∷ b) ≡ (cur ++ a) ∷ split_from c [] b
unfolding split_from
split_from-append c [] [] b h = ground arith
split_from-append c (y ∷ cur) [] b h = ground (arith, append-nil cur)
split_from-append c cur (x ∷ a) b h =
    ground (arith, split_from-append c (cur ++ x ∷ []) a b, append_assoc cur (x ∷ []) a)
