-- ===== src/KeyStore/Changed.antt =====
-- Rotate and Revoke where they return a record.
use geotagger.Prelude.{
  ℕ, ◌≡◌, ◌≢◌, ◌⊎◌, inl, inr, refl, sym, ap, ◌∙◌, Bool, true, false, ◌∷◌, ◌++◌, Option, none, some,
  ok, is_some,
}
use geotagger.Text.Bytes.{Str}
use geotagger.Text.Trim.{trim_space}
use geotagger.Text.Hex.{hex_encode}
use geotagger.Text.Base64.{base64_encode}
use geotagger.KeyStore.Records.{KeyRecord, Entry, generate_secret}
use geotagger.KeyStore.Operations.{
  KeyValue, load, save, rotate_loaded, rotate, revoke_loaded, revoke,
}
use geotagger.KeyStore.Inversion.{
  IsTokenId, Issued, call-eq-ok, lift-eq-ok, ok-injective, generate_secret_sound, load_sound,
  save_sound,
}

-- The write replaced the entry that was read: kv.Update was called with that entry's revision.
pub record Replaced {S : Type 0} (kv : KeyValue S) (id : Str) (s s' : S) : Type 0 where
  pub read : S
  pub entry : Entry
  pub value : Str
  pub revision : ℕ
  pub got : kv.get id s ≡ (read, ok entry)
  pub updated : kv.update id value entry.revision read ≡ (s', ok revision)

module _ {S : Type 0} (kv : KeyValue S) (sha256 : Str → Str) (marshal : KeyRecord → Option Str)
    (unmarshal : Str → Option KeyRecord)
    (keyed : (id : Str) (s t : S) (e : Entry) → kv.get id s ≡ (t, ok e) → e.key ≡ id) where
  pub rotate-Issued :
      (now : ℕ) (random : Option Str) (id : Str) (s s' : S) (r : KeyRecord) (token : Str)
      → rotate kv sha256 marshal unmarshal now random id s ≡ (s', ok (r, token))
      → Issued sha256 random r token × Replaced kv id s s' × (r.id ≡ id)
  unfolding rotate rotate_loaded
  rotate-Issued now random id s s' r token h =
      let (t, loaded, was_loaded, h₁) = call-eq-ok (load kv sha256 marshal unmarshal id s) _ h in
      let (valid, key, got) = load_sound kv sha256 marshal unmarshal id s t loaded was_loaded in
      go t loaded.0 loaded.1 (is_some loaded.1.revoked_at) loaded.1.revoked_at refl refl valid
        (key ∙ keyed id s t loaded.0 got) got h₁
    where
      go :
          (t : S) (e : Entry) (d : KeyRecord) (b : Bool) (o : Option ℕ)
          → d.revoked_at ≡ o
          → is_some o ≡ b
          → IsTokenId d.id
          → d.id ≡ id
          → kv.get id s ≡ (t, ok e)
          → rotate_loaded kv sha256 marshal unmarshal now random id e d b t ≡ (s', ok (r, token))
          → Issued sha256 random r token × Replaced kv id s s' × (r.id ≡ id)
      go t e d true o at_ b valid key got h' = cc
      go t e d false (some x) at_ b valid key got h' = cc
      go t e d false none at_ b valid key got h' =
          let (secret, made, h₁) =
            lift-eq-ok (generate_secret sha256 random) _ t s' (r, token) h' in
          let changed : KeyRecord = record d { secret_sha256 = secret.1; rotated_at = some now } in
          let (u, saved, was_saved, h₂) =
            call-eq-ok (save kv sha256 marshal unmarshal id e changed t) _ h₁ in
          let same = ok-injective h₂ in
          let (bytes, read, is_secret, is_digest) =
            generate_secret_sound sha256 random secret made in
          let (payload, n, called, printed, with_revision) =
            save_sound kv sha256 marshal unmarshal id e changed saved t u was_saved in
          let is_saved : r ≡ record changed { revision = n } = ap (λ p. p.0) same ∙ with_revision in
          let its_id : r.id ≡ d.id = ap (λ x. x.id) is_saved in
          (
            record {
              id = rw its_id valid;
              bytes = bytes;
              read = read;
              printed =
                  ap (λ p. p.1) same
                  ∙ ap (λ x. id ++ b'.' ∷ x) is_secret
                  ∙ ap (λ x. x ++ b'.' ∷ base64_encode bytes) (sym key ∙ sym its_id);
              digest =
                  ap (λ x. x.secret_sha256) is_saved
                  ∙ is_digest
                  ∙ ap (λ x. hex_encode (sha256 x)) is_secret;
              live = ap (λ x. x.revoked_at) is_saved ∙ at_;
            },
            record {
              read = t;
              entry = e;
              value = payload;
              revision = n;
              got = got;
              updated = called ∙ ap (λ x. (x.0, ok n)) h₂;
            },
            its_id ∙ key,
          )

  -- What Revoke leaves: the record it read, which was revoked, or a write that replaced the entry.
  pub revoke_sound :
      (now : ℕ) (reason id : Str) (s s' : S) (r : KeyRecord)
      → revoke kv sha256 marshal unmarshal now reason id s ≡ (s', ok r)
      → (r.revoked_at ≢ none)
        × (r.id ≡ id)
        × (((e : Entry) × (kv.get id s ≡ (s', ok e))) ⊎ Replaced kv id s s')
  unfolding revoke revoke_loaded
  revoke_sound now reason id s s' r h =
      let (t, loaded, was_loaded, h₁) = call-eq-ok (load kv sha256 marshal unmarshal id s) _ h in
      let (valid, key, got) = load_sound kv sha256 marshal unmarshal id s t loaded was_loaded in
      go t loaded.0 loaded.1 (is_some loaded.1.revoked_at) loaded.1.revoked_at refl refl
        (key ∙ keyed id s t loaded.0 got) got h₁
    where
      go :
          (t : S) (e : Entry) (d : KeyRecord) (b : Bool) (o : Option ℕ)
          → d.revoked_at ≡ o
          → is_some o ≡ b
          → d.id ≡ id
          → kv.get id s ≡ (t, ok e)
          → revoke_loaded kv sha256 marshal unmarshal now reason id e d b t ≡ (s', ok r)
          → (r.revoked_at ≢ none)
            × (r.id ≡ id)
            × (((e : Entry) × (kv.get id s ≡ (s', ok e))) ⊎ Replaced kv id s s')
      go t e d true none at_ b key got h' = cc
      go t e d true (some x) at_ b key got h' =
          let same = ok-injective h' in
          (
            λ gone. cc (ap (λ y. y.revoked_at) same, at_, gone),
            ap (λ y. y.id) same ∙ key,
            inl (e, got ∙ ap (λ y. (y.0, ok e)) h'),
          )
      go t e d false o at_ b key got h' =
          let changed : KeyRecord = record d {
            revoked_at = some now;
            revocation_reason = trim_space reason;
          } in
          let (payload, n, called, printed, with_revision) =
            save_sound kv sha256 marshal unmarshal id e changed r t s' h' in
          (
            λ gone. cc (ap (λ y. y.revoked_at) with_revision, gone),
            ap (λ y. y.id) with_revision ∙ key,
            inr (record {
              read = t;
              entry = e;
              value = payload;
              revision = n;
              got = got;
              updated = called;
            }),
          )
