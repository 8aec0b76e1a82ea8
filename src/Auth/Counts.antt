-- ===== src/Auth/Counts.antt =====
-- ManagedCounts, against what VerifyAuthorization accepts.
use geotagger.Prelude.{ℕ, suc, ◌+◌, ◌≡◌, none, some, [], ◌∷◌, arith, ok, err, length}
use geotagger.Text.Bytes.{Str}
use geotagger.Text.Dict.{Dict}
use geotagger.Auth.{
  Verifier, ManagedCredential, ManagedCounts, expected_digest, count_one, count_from,
  managed_counts,
}

-- The credentials that VerifyAuthorization would compare with.
unfoldable pub count_usable : ℕ → Dict ManagedCredential → ℕ
count_usable now [] = 0
count_usable now ((id, c) ∷ m) = elim (expected_digest now none (some c)) [
  | ok d ↦ suc (count_usable now m)
  | err e ↦ count_usable now m
]

count_one_lem :
    (now : ℕ) (c : ManagedCredential) (k : ManagedCounts)
    → ((count_one now c k).total ≡ k.total)
      × ((count_one now c k).active + (count_one now c k).revoked + (count_one now c k).expired
          ≡ k.active + k.revoked + k.expired + 1)
      × ((count_one now c k).active
          ≡ k.active + elim (expected_digest now none (some c)) [ ok d ↦ 1 | err e ↦ 0 ])
unfolding count_one expected_digest
count_one_lem now c k = ground arith

count_usable-cons :
    (now : ℕ) (id : Str) (c : ManagedCredential) (m : Dict ManagedCredential)
    → count_usable now ((id, c) ∷ m)
      ≡ elim (expected_digest now none (some c)) [ ok d ↦ 1 | err e ↦ 0 ] + count_usable now m
unfolding count_usable
count_usable-cons now id c m = ground arith

count_from_lem :
    (now : ℕ) (m : Dict ManagedCredential) (k : ManagedCounts)
    → ((count_from now m k).total ≡ k.total)
      × ((count_from now m k).active + (count_from now m k).revoked + (count_from now m k).expired
          ≡ k.active + k.revoked + k.expired + length m)
      × ((count_from now m k).active ≡ k.active + count_usable now m)
unfolding count_from
count_from_lem now [] k = unfold count_usable in omega arith
count_from_lem now ((id, c) ∷ m) k = omega (
  arith,
  count_one_lem now c k,
  count_from_lem now m (count_one now c k),
  count_usable-cons now id c m,
)

-- The counts add up to the number of managed credentials, and `active` counts exactly those that
-- VerifyAuthorization compares secrets with at that instant.
pub managed_counts_lem :
    (now : ℕ) (v : Verifier)
    → ((managed_counts now v).total ≡ length v.managed)
      × ((managed_counts now v).active
            + (managed_counts now v).revoked
            + (managed_counts now v).expired
          ≡ length v.managed)
      × ((managed_counts now v).active ≡ count_usable now v.managed)
unfolding managed_counts
managed_counts_lem now v = omega (
  arith,
  count_from_lem now v.managed
      (record { total = length v.managed; active = 0; revoked = 0; expired = 0 }),
)
