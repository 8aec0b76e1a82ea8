-- ===== src/Auth/Verify.antt =====
-- What VerifyAuthorization accepts, against a description that does not mention its code.
use geotagger.Prelude.{
  ℕ, ◌<◌, ◌≤◌, ◌≡◌, ◌≢◌, refl, sym, ◌∙◌, ap, some-injective, ◌↔◌, ◌⊎◌, inl, inr, true, false, [],
  ◌∷◌, ◌++◌, Option, none, some, arith, Result, ok, err, >>=-eq-ok, Bool-cases, Option-cases,
}
use geotagger.Text.Bytes.{Str, str_eq_iff, str_eq_refl}
use geotagger.Text.Strings.{
  has_prefix, trim_prefix, cut, Lacks, cut_sound, cut-append, has_prefix-split, has_prefix-append,
  trim_prefix-append,
}
use geotagger.Text.Trim.{trim_space}
use geotagger.Text.Dict.{lookup}
use geotagger.Auth.{
  AuthError, ManagedCredential, Verifier, unauthorized, has_expired, expected_digest, bearer,
  check_secret, verify_authorization,
}

-- `header` is the scheme, then, up to white space, an id that has no dot, a dot and a secret.
pub record Presents (header id secret : Str) : Type 0 where
  pub rest : Str
  pub scheme : header ≡ bearer ++ rest
  pub token : trim_space rest ≡ id ++ b'.' ∷ secret
  pub no_dot : Lacks b'.' id
  pub has_id : id ≢ []
  pub has_secret : secret ≢ []

-- The instant lies before the expiry, where there is one.
pub data Before (now : ℕ) : Option ℕ → Type 0 where
  never : Before now none
  until : {t : ℕ} → now < t → Before now (some t)

-- The expiry is the instant or lies before it.
abbrev pub Past : ℕ → Option ℕ → Type 0
Past now limit = (t : ℕ) × (limit ≡ some t) × (t ≤ now)

-- The credential with that id, static or managed, is in force and has that digest.
pub data Grants (v : Verifier) (now : ℕ) (id digest : Str) : Type 0 where
  static : lookup id v.managed ≡ none → lookup id v.static ≡ some digest → Grants v now id digest
  managed :
      (c : ManagedCredential)
      → lookup id v.managed ≡ some c
      → c.revoked_at ≡ none
      → Before now c.expires_at
      → c.digest ≡ digest
      → Grants v now id digest

Before-of_not_expired : (now : ℕ) (t : Option ℕ) → has_expired now t ≡ false → Before now t
unfolding has_expired
Before-of_not_expired now none h = never
Before-of_not_expired now (some t) h = until (ground arith)

not_expired_of_Before : (now : ℕ) (t : Option ℕ) → Before now t → has_expired now t ≡ false
unfolding has_expired
not_expired_of_Before now none h = refl
not_expired_of_Before now (some t) (until h) = ground arith

expected_digest-managed :
    (now : ℕ) (s : Option Str) (c : ManagedCredential) (d : Str)
    → expected_digest now s (some c) ≡ ok d
    → (c.revoked_at ≡ none) × (has_expired now c.expires_at ≡ false) × (c.digest ≡ d)
unfolding expected_digest
expected_digest-managed now none c d h = ground arith
expected_digest-managed now (some s) c d h = ground arith

module _ (v : Verifier) (now : ℕ) (id : Str) where
  expected_digest_sound :
      (d : Str)
      → expected_digest now (lookup id v.static) (lookup id v.managed) ≡ ok d
      → Grants v now id d
  unfolding expected_digest
  expected_digest_sound d h = elim (Option-cases (lookup id v.managed)) [
    | inl absent ↦ static absent (expected_digest-static (lookup id v.static) (rw absent at h))
    | inr (c, found) ↦
        let (live, current, same) =
          expected_digest-managed now (lookup id v.static) c d (rw found at h) in
        managed c found live (Before-of_not_expired now c.expires_at current) same
  ]
    where
      expected_digest-static : (s : Option Str) → expected_digest now s none ≡ ok d → s ≡ some d
      expected_digest-static none e = cc
      expected_digest-static (some x) e = cc

  expected_digest_complete :
      (d : Str)
      → Grants v now id d
      → expected_digest now (lookup id v.static) (lookup id v.managed) ≡ ok d
  unfolding expected_digest
  expected_digest_complete d (static absent found) = rw absent (rw found)
  expected_digest_complete d (managed c found live before same) =
      rw found (rw live (rw (not_expired_of_Before now c.expires_at before) (ap ok same)))

module _ (sha256 : Str → Str) (v : Verifier) (now : ℕ) where
  check_secret_sound :
      (id secret who : Str)
      → check_secret sha256 v now id secret ≡ ok who
      → (who ≡ id) × (id ≢ []) × (secret ≢ []) × Grants v now id (sha256 secret)
  unfolding check_secret
  check_secret_sound (c ∷ id) (d ∷ secret) who h =
      let (e, found, accepted) =
        >>=-eq-ok (expected_digest now (lookup (c ∷ id) v.static) (lookup (c ∷ id) v.managed)) _
          h in
      let same : e ≡ sha256 (d ∷ secret) = (str_eq_iff e (sha256 (d ∷ secret))).0 (ground arith) in
      (ground arith, cc, cc, expected_digest_sound v now (c ∷ id) _ (rw (← same) found))
  check_secret_sound [] secret who h = cc
  check_secret_sound (c ∷ id) [] who h = cc

  check_secret_complete :
      (id secret : Str)
      → id ≢ []
      → secret ≢ []
      → Grants v now id (sha256 secret)
      → check_secret sha256 v now id secret ≡ ok id
  unfolding check_secret
  check_secret_complete [] secret h k g = absurd (h refl)
  check_secret_complete (c ∷ id) [] h k g = absurd (k refl)
  check_secret_complete (c ∷ id) (d ∷ secret) h k g =
      rw (expected_digest_complete v now (c ∷ id) _ g) (rw (str_eq_refl (sha256 (d ∷ secret))))

  after_cut :
      (header who : Str) (o : Option (Str × Str))
      → cut b'.' (trim_space (trim_prefix header bearer)) ≡ o
      → has_prefix header bearer ≡ true
      → elim o [ none ↦ err unauthorized | some (id, secret) ↦ check_secret sha256 v now id secret ]
        ≡ ok who
      → (secret : Str) × Presents header who secret × Grants v now who (sha256 secret)
  after_cut header who none e pre h = cc
  after_cut header who (some (id, secret)) e pre h =
      let (same, has_id, has_secret, grants) = check_secret_sound id secret who h in
      let (token, no_dot) = cut_sound b'.' _ id secret e in
      (
        secret,
        record {
          rest = trim_prefix header bearer;
          scheme = has_prefix-split header bearer pre;
          token = rw same token;
          no_dot = rw same no_dot;
          has_id = rw same has_id;
          has_secret = has_secret;
        },
        rw same grants,
      )

  verify_sound :
      (header who : Str)
      → verify_authorization sha256 v now header ≡ ok who
      → (secret : Str) × Presents header who secret × Grants v now who (sha256 secret)
  unfolding verify_authorization
  verify_sound header who h = elim (Bool-cases (has_prefix header bearer)) [
    | inl pre ↦ after_cut header who _ refl pre (rw pre at h)
    | inr other ↦ absurd (err-ne-ok (rw other at h))
  ]
    where
      err-ne-ok : ◌≡◌ {A = Result AuthError Str} (err unauthorized) (ok who) → ⊥
      err-ne-ok e = cc

  pub verify_complete :
      (header who secret : Str)
      → Presents header who secret
      → Grants v now who (sha256 secret)
      → verify_authorization sha256 v now header ≡ ok who
  unfolding verify_authorization
  verify_complete header who secret p g = rw p.scheme (
      rw (has_prefix-append bearer p.rest) (
        rw (trim_prefix-append bearer p.rest) (
          rw p.token (
            rw (cut-append b'.' who secret p.no_dot)
              (check_secret_complete who secret p.has_id p.has_secret g)))))

  -- A header is accepted for a key id exactly if it presents that id with a secret whose digest
  -- is that of the credential in force under the id at that instant: the managed one if there
  -- is one, neither revoked nor expired, and the static one otherwise.
  pub verify_authorization_iff :
      (header who : Str)
      → (verify_authorization sha256 v now header ≡ ok who)
        ↔ ((secret : Str) × Presents header who secret × Grants v now who (sha256 secret))
  verify_authorization_iff header who =
      (verify_sound header who, λ q. verify_complete header who q.0 q.1 q.2)

  early : {t : ℕ} (limit : Option ℕ) → Before now limit → limit ≡ some t → t ≤ now → ⊥
  early none never same past = cc
  early (some t') (until before) same past = omega (arith, some-injective same)

  -- A managed key that is revoked, or whose expiry is now or has passed, is refused with every
  -- header, and a static credential of the same id does not bring it back.
  pub verify_authorization_dead :
      (header id : Str) (c : ManagedCredential)
      → lookup id v.managed ≡ some c
      → (c.revoked_at ≢ none) ⊎ Past now c.expires_at
      → verify_authorization sha256 v now header ≢ ok id
  verify_authorization_dead header id c found dead accepted =
      not_granted dead (verify_sound header id accepted).2
    where
      ended :
          {e : ManagedCredential}
          → e ≡ c
          → (c.revoked_at ≢ none) ⊎ Past now c.expires_at
          → e.revoked_at ≡ none
          → Before now e.expires_at
          → ⊥
      ended {e} same (inl revoked) live before = revoked (ap (λ k. k.revoked_at) (sym same) ∙ live)
      ended {e} same (inr (t, limit, past)) live before =
          early e.expires_at before (ap (λ k. k.expires_at) same ∙ limit) past

      not_granted :
          {d : Str} → (c.revoked_at ≢ none) ⊎ Past now c.expires_at → Grants v now id d → ⊥
      not_granted h (static absent _) = cc (found, absent)
      not_granted h (managed e found' live before _) =
          let same : e ≡ c = cc (found, found') in ended same h live before
