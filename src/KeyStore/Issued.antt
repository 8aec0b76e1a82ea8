-- ===== src/KeyStore/Issued.antt =====
-- Tokens of the key store at an API whose verifier holds the store's records.
use geotagger.Prelude.{
  ℕ, ◌≡◌, ◌≢◌, refl, sym, ap, ◌∙◌, subst, inl, List, [], ◌++◌, Option, none, some, arith, Result,
  ok, All-append,
}
use geotagger.Text.Bytes.{Str}
use geotagger.Text.Base64.{base64_encode}
use geotagger.Text.Graphic.{IsGraphic, trim_space_graphic, base64_encode-IsGraphic}
use geotagger.Text.Dict.{lookup}
use geotagger.Auth.{
  AuthError, Verifier, ManagedKey, ManagedCredential, bearer, decode_digest, replace_managed,
  verify_authorization,
}
use geotagger.Auth.Verify.{Before, Grants, verify_complete, verify_authorization_dead}
use geotagger.Auth.Managed.{Installs, find_key, Answers, kept, installed, replace_managed_installs}
use geotagger.Keygen.RoundTrip.{IsDigest, decode_digest-hex_encode, base64_encode-ne-nil}
use geotagger.KeyStore.Records.{KeyRecord, CreateInput}
use geotagger.KeyStore.Operations.{KeyValue, create, rotate, revoke}
use geotagger.KeyStore.Records.{Entry}
use geotagger.KeyStore.Inversion.{Issued, create-Issued}
use geotagger.KeyStore.Changed.{Replaced, rotate-Issued, revoke_sound}

-- What `apply` of StartVerifierSync makes of a record.
unfoldable pub managed_key : KeyRecord → ManagedKey
managed_key r = record {
  id = r.id;
  digest_hex = r.secret_sha256;
  expires_at = r.expires_at;
  revoked_at = r.revoked_at;
}

-- The verifier has taken over a list of records in which this one stands first under its id.
pub record Holds (v v' : Verifier) (keys : List ManagedKey) (r : KeyRecord) : Type 0 where
  pub replaced : replace_managed v keys ≡ (v', none)
  pub listed : find_key r.id keys ≡ some (managed_key r)

Holds-lookup :
    (v v' : Verifier) (keys : List ManagedKey) (r : KeyRecord)
    → Holds v v' keys r
    → (c : ManagedCredential) × (lookup r.id v'.managed ≡ some c) × Installs (managed_key r) c
Holds-lookup v v' keys r h =
    let table = replace_managed_installs v keys (ap (λ p. p.1) h.replaced) in
    subst
      (λ x. (c : ManagedCredential) × (lookup r.id x.managed ≡ some c) × Installs (managed_key r) c)
      (ap (λ p. p.0) h.replaced) (go _ (table.2 r.id))
  where
    some-injective : {a b : ManagedKey} → some a ≡ some b → a ≡ b
    some-injective e = cc

    go :
        (o : Option ManagedCredential)
        → Answers r.id none keys o
        → (c : ManagedCredential) × (o ≡ some c) × Installs (managed_key r) c
    go o (kept absent _) = cc (absent, h.listed)
    go o (installed key c found _ after installs) =
        (c, after, subst (λ k. Installs k c) (some-injective (sym found ∙ h.listed)) installs)

module _ (sha256 : Str → Str) (sized : (s : Str) → IsDigest (sha256 s)) (v v' : Verifier)
    (keys : List ManagedKey) where
  pub Issued-accepted :
      (random : Option Str) (r : KeyRecord) (token : Str) (t : ℕ)
      → random ≢ some []
      → Issued sha256 random r token
      → Holds v v' keys r
      → Before t r.expires_at
      → verify_authorization sha256 v' t (bearer ++ token) ≡ ok r.id
  unfolding managed_key
  Issued-accepted random r token t filled i held before =
      let (c, found, installs) = Holds-lookup v v' keys r held in
      let secret = base64_encode i.bytes in
      let decoded : decode_digest r.id r.secret_sha256 ≡ ok (sha256 secret) =
        ap (decode_digest r.id) i.digest
        ∙ decode_digest-hex_encode r.id (sha256 secret) (sized secret).0 (sized secret).1 in
      verify_complete sha256 v' t (bearer ++ token) r.id secret
        (record {
          rest = token;
          scheme = refl;
          token = rw i.printed (
              trim_space_graphic _ (
                All-append IsGraphic r.id _ i.id.graphic
                  (omega arith, base64_encode-IsGraphic i.bytes)));
          no_dot = i.id.key_id.no_dot;
          has_id = i.id.key_id.present;
          has_secret = base64_encode-ne-nil i.bytes (λ e. filled (i.read ∙ ap some e));
        })
        (Grants.managed c found (installs.revoked_at ∙ i.live)
          (subst (Before t) (sym installs.expires_at) before)
          (ok-injective (sym installs.digest ∙ decoded)))
    where
      ok-injective : {a b : Str} → ◌≡◌ {A = Result AuthError Str} (ok a) (ok b) → a ≡ b
      ok-injective e = cc

  module _ {S : Type 0} (kv : KeyValue S) (marshal : KeyRecord → Option Str)
      (unmarshal : Str → Option KeyRecord) where
    -- Where a SHA-256 digest has 32 bytes and rand.Read gives at least one byte: a token that
    -- Create returns is accepted for the new key at every instant before its expiry, by each API
    -- whose verifier holds the record that Create returns with it.
    pub create_accepted :
        (now : ℕ) (random : Option Str) (input : CreateInput) (s s' : S) (r : KeyRecord)
        (token : Str) (t : ℕ)
        → random ≢ some []
        → create kv sha256 marshal unmarshal now random input s ≡ (s', ok (r, token))
        → Holds v v' keys r
        → Before t input.expires_at
        → verify_authorization sha256 v' t (bearer ++ token) ≡ ok input.id
    create_accepted now random input s s' r token t filled created held before =
        let (issued, expiry, id) =
          create-Issued kv sha256 marshal unmarshal now random input s s' r token created in
        Issued-accepted random r token t filled issued held (subst (Before t) (sym expiry) before)
        ∙ ap ok id

    module _ (keyed : (id : Str) (s t : S) (e : Entry) → kv.get id s ≡ (t, ok e) → e.key ≡ id) where
      -- Where a SHA-256 digest has 32 bytes, rand.Read gives at least one byte and kv.Get returns
      -- an entry of the key asked for: Rotate returns a record only after a write that replaced the
      -- entry that it read, at that entry's revision. Its token is accepted for the key at every
      -- instant before the record's expiry, by each API whose verifier holds the record.
      pub rotate_accepted :
          (now : ℕ) (random : Option Str) (id : Str) (s s' : S) (r : KeyRecord) (token : Str)
          (t : ℕ)
          → random ≢ some []
          → rotate kv sha256 marshal unmarshal now random id s ≡ (s', ok (r, token))
          → Holds v v' keys r
          → Before t r.expires_at
          → Replaced kv id s s' × (verify_authorization sha256 v' t (bearer ++ token) ≡ ok id)
      rotate_accepted now random id s s' r token t filled rotated held before =
          let (issued, replaced, same) =
            rotate-Issued kv sha256 marshal unmarshal keyed now random id s s' r token rotated in
          (replaced, Issued-accepted random r token t filled issued held before ∙ ap ok same)

      -- Where a SHA-256 digest has 32 bytes and kv.Get returns an entry of the key asked for: if
      -- Revoke returns a record, each API whose verifier holds the record refuses every header for
      -- the key at every instant, whether or not a static credential has the same id.
      pub revoke_refused :
          (now : ℕ) (reason id : Str) (s s' : S) (r : KeyRecord) (header : Str) (t : ℕ)
          → revoke kv sha256 marshal unmarshal now reason id s ≡ (s', ok r)
          → Holds v v' keys r
          → verify_authorization sha256 v' t header ≢ ok id
      unfolding managed_key
      revoke_refused now reason id s s' r header t revoked held accepted =
          let (dead, same, _) =
            revoke_sound kv sha256 marshal unmarshal keyed now reason id s s' r revoked in
          let (c, found, installs) = Holds-lookup v v' keys r held in
          verify_authorization_dead sha256 v' t header r.id c found
            (inl (λ e. dead (sym installs.revoked_at ∙ e))) (accepted ∙ ap ok (sym same))
