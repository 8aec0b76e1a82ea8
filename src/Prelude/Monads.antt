-- ===== src/Prelude/Monads.antt =====
-- The two ways in which the program's functions return: a value or an error, and a value beside
-- a state that the call has changed.
use mathlib.Core.Path.{◌≡◌, refl}
use mathlib.Core.Bool.{Bool, true, false}
use geotagger.Prelude.Tests.{if◌then◌else◌}

-- A Go result pair `(T, error)`. The error's text is kept as a label where a caller can see it.
pub data Result {ℓ κ} (E : Type κ) (A : Type ℓ) : Type (ℓ ⊔ κ) where
  ok : A → Result E A
  err : E → Result E A

infixl 5 ◌>>=◌ ◌>>◌
abbrev pub ◌>>=◌ {ℓ κ ι} :
    {B : Type κ} {E : Type ι} {A : Type ℓ} → Result E A → (A → Result E B) → Result E B
err failure >>= next = err failure
ok value >>= next = next value

abbrev pub ◌>>◌ {ℓ ι} : {B : Type ℓ} {E : Type ι} → Result E (Unit {0}) → Result E B → Result E B
check >> rest = check >>= (λ done. rest)

module _ {ℓ κ ι} {E : Type ι} {A : Type ℓ} {B : Type κ} where
  -- A chain that succeeds has a first part that did, and the rest succeeds from its value.
  pub >>=-eq-ok :
      (first : Result E A) (next : A → Result E B) {out : B}
      → (first >>= next) ≡ ok out
      → (value : A) × (first ≡ ok value) × (next value ≡ ok out)
  >>=-eq-ok (err failure) next h = cc
  >>=-eq-ok (ok value) next h = (value, refl, h)

-- Inversion of a guard that returns an error.
pub guard-eq-ok {ℓ ι} :
    {E : Type ι} {A : Type ℓ} (b : Bool) (e : E) (m : Result E A) {a : A}
    → (if b then err e else m) ≡ ok a
    → (b ≡ false) × (m ≡ ok a)
guard-eq-ok true e m h = cc
guard-eq-ok false e m h = (refl, h)
