-- ===== src/KeyStore/Rewritten.antt =====
-- After Rotate or Revoke, the bucket has the record that they return.
use geotagger.Prelude.{ℕ, ◌≡◌, sym, ap, ◌∙◌, subst, Bool, true, false, Option, some, ok, is_some}
use geotagger.Text.Bytes.{Str}
use geotagger.Text.Trim.{trim_space}
use geotagger.Keygen.RoundTrip.{IsDigest}
use geotagger.KeyStore.Records.{KeyRecord, Entry, decode_entry, generate_secret}
use geotagger.KeyStore.Operations.{
  KeyValue, with_errors, map_get_error, load, save, rotate_loaded, rotate, revoke_loaded, revoke,
}
use geotagger.KeyStore.Inversion.{
  call-eq-ok, lift-eq-ok, ok-injective, load_sound, with_errors-eq-ok,
}
use geotagger.KeyStore.Listed.{IsBucket, Stored}
use geotagger.KeyStore.Written.{
  IsValid, IsJson, check_record-IsValid, generate_secret-digest, save-Stored,
}

module _ {S : Type 0} (kv : KeyValue S) (view : S → Str → Option Entry) (sha256 : Str → Str)
    (marshal : KeyRecord → Option Str) (unmarshal : Str → Option KeyRecord)
    (bucket : IsBucket kv view) (json : IsJson marshal unmarshal) where
  -- What Rotate and Revoke have read.
  record Loaded (id : Str) (s t : S) (p : Entry × KeyRecord) : Type 0 where
    valid : IsValid p.1
    its_id : p.1.id ≡ id
    stored : Stored kv view unmarshal t p.1

  load-Loaded :
      (id : Str) (s t : S) (p : Entry × KeyRecord)
      → load kv sha256 marshal unmarshal id s ≡ (t, ok p)
      → Loaded id s t p
  unfolding load
  load-Loaded id s t p h =
      let (v, entry, got, h₁) = call-eq-ok (with_errors (map_get_error id) (kv.get id s)) _ h in
      let (r, decoded, h₂) = lift-eq-ok (decode_entry unmarshal entry) _ v t _ h₁ in
      let same = ok-injective h₂ in
      let (back, shown) =
        bucket.found id s v entry (with_errors-eq-ok (map_get_error id) (kv.get id s) got) in
      let (_, key, _) = load_sound kv sha256 marshal unmarshal id s t p h in
      let is : p.1 ≡ r = ap (λ x. x.1) same in
      let its_id : p.1.id ≡ id = key ∙ ap (λ x. x.0.key) same ∙ bucket.keyed s id entry shown in
      let now : s ≡ t = sym back ∙ ap (λ x. x.0) h₂ in
      record {
        valid = subst IsValid (sym is) (
            check_record-IsValid unmarshal entry (unmarshal entry.value) r
              (unfold decode_entry in decoded));
        its_id = its_id;
        stored = record {
          entry = entry;
          shown = ap (view t) its_id ∙ ap (λ x. view x id) (sym now) ∙ shown;
          decoded = decoded ∙ ap ok (sym is);
        };
      }

  pub rotate-Stored :
      (now : ℕ) (random : Option Str) (id : Str) (s t : S) (r : KeyRecord) (token : Str)
      → ((text : Str) → IsDigest (sha256 text))
      → rotate kv sha256 marshal unmarshal now random id s ≡ (t, ok (r, token))
      → Stored kv view unmarshal t r
  unfolding rotate rotate_loaded
  rotate-Stored now random id s t r token sized h =
      let (u, loaded, was_loaded, h₁) = call-eq-ok (load kv sha256 marshal unmarshal id s) _ h in
      go u loaded.0 loaded.1 (is_some loaded.1.revoked_at) (load-Loaded id s u loaded was_loaded) h₁
    where
      go :
          (u : S) (e : Entry) (d : KeyRecord) (b : Bool)
          → Loaded id s u (e, d)
          → rotate_loaded kv sha256 marshal unmarshal now random id e d b u ≡ (t, ok (r, token))
          → Stored kv view unmarshal t r
      go u e d true l h' = absurd (cc h')
      go u e d false l h' =
          let (secret, made, h₁) = lift-eq-ok (generate_secret sha256 random) _ u t (r, token) h' in
          let changed : KeyRecord = record d { secret_sha256 = secret.1; rotated_at = some now } in
          let (v, saved, was_saved, h₂) =
            call-eq-ok (save kv sha256 marshal unmarshal id e changed u) _ h₁ in
          let at_end : v ≡ t = ap (λ p. p.0) h₂ in
          subst (λ x. Stored kv view unmarshal x r) at_end
            (subst (Stored kv view unmarshal v) (sym (ap (λ p. p.0) (ok-injective h₂))) (
              save-Stored kv view sha256 marshal unmarshal bucket json id e changed saved u v
                (record {
                  id = l.valid.id;
                  digest = generate_secret-digest sha256 random secret sized made;
                })
                l.its_id was_saved))

  pub revoke-Stored :
      (now : ℕ) (reason id : Str) (s t : S) (r : KeyRecord)
      → revoke kv sha256 marshal unmarshal now reason id s ≡ (t, ok r)
      → Stored kv view unmarshal t r
  unfolding revoke revoke_loaded
  revoke-Stored now reason id s t r h =
      let (u, loaded, was_loaded, h₁) = call-eq-ok (load kv sha256 marshal unmarshal id s) _ h in
      go u loaded.0 loaded.1 (is_some loaded.1.revoked_at) (load-Loaded id s u loaded was_loaded) h₁
    where
      go :
          (u : S) (e : Entry) (d : KeyRecord) (b : Bool)
          → Loaded id s u (e, d)
          → revoke_loaded kv sha256 marshal unmarshal now reason id e d b u ≡ (t, ok r)
          → Stored kv view unmarshal t r
      go u e d true l h' =
          subst (Stored kv view unmarshal t) (sym (ok-injective h'))
            (subst (λ x. Stored kv view unmarshal x d) (ap (λ p. p.0) h') l.stored)
      go u e d false l h' =
          save-Stored kv view sha256 marshal unmarshal bucket json id e
            (record d { revoked_at = some now; revocation_reason = trim_space reason }) r u t
            (record { id = l.valid.id; digest = l.valid.digest }) l.its_id h'
