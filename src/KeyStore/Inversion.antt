-- ===== src/KeyStore/Inversion.antt =====
-- What the operations of the key store have done where they return a record.
use geotagger.Prelude.{
  ℕ, ◌≡◌, refl, sym, ap, ◌∙◌, not, ◌∷◌, ◌++◌, Option, none, some, arith, Result, ok, err, All,
  guard-eq-ok, >>=-eq-ok,
}
use geotagger.Text.Bytes.{Str, str_eq, str_eq_iff}
use geotagger.Text.Hex.{hex_encode}
use geotagger.Text.Base64.{base64_encode}
use geotagger.Text.Graphic.{IsGraphic}
use geotagger.Auth.{clone_time}
use geotagger.Auth.Static.{IsKeyId}
use geotagger.KeyStore.Records.{
  KeyRecord, CreateInput, Entry, StoreError, update_failed, validate_key_id,
  validate_key_id-IsKeyId, check_record, decode_entry, generate_secret,
}
use geotagger.KeyStore.Operations.{
  KvError, KeyValue, Store, chain, ◌>>=◌, lift, with_errors, map_get_error, map_create_error,
  payload_of, create, load, save,
}

pub call-eq-ok :
    {S A B : Type 0} (r : S × Result StoreError A) (f : A → Store S B) {s' : S} {b : B}
    → chain r.1 f r.0 ≡ (s', ok b)
    → (t : S) × (a : A) × (r ≡ (t, ok a)) × (f a t ≡ (s', ok b))
call-eq-ok (t, ok a) f h = (t, a, refl, h)
call-eq-ok (t, err x) f h = cc

pub lift-eq-ok :
    {S A B : Type 0} (r : Result StoreError A) (f : A → Store S B) (s s' : S) (b : B)
    → (lift r >>= f) s ≡ (s', ok b)
    → (a : A) × (r ≡ ok a) × (f a s ≡ (s', ok b))
lift-eq-ok (ok a) f s s' b h = (a, refl, h)
lift-eq-ok (err e) f s s' b h = cc

pub with_errors-eq-ok :
    {S A : Type 0} (f : KvError → StoreError) (r : S × Result KvError A) {t : S} {a : A}
    → with_errors f r ≡ (t, ok a)
    → r ≡ (t, ok a)
unfolding with_errors
with_errors-eq-ok f (t, ok a) h = cc
with_errors-eq-ok f (t, err e) h = cc

pub payload_of-eq-ok : (o : Option Str) (p : Str) → payload_of o ≡ ok p → o ≡ some p
unfolding payload_of
payload_of-eq-ok none p h = cc
payload_of-eq-ok (some q) p h = cc

pub clone_time_lem : (t : Option ℕ) → clone_time t ≡ t
unfolding clone_time
clone_time_lem none = refl
clone_time_lem (some t) = refl

pub ok-injective :
    {S A : Type 0} {s s' : S} {a b : A}
    → ◌≡◌ {A = S × Result StoreError A} (s, ok a) (s', ok b)
    → b ≡ a
ok-injective e = cc

-- An id that stands in a token as it is.
pub record IsTokenId (id : Str) : Type 0 where
  pub key_id : IsKeyId id
  pub graphic : All IsGraphic id

validate_key_id-IsTokenId : (id : Str) → validate_key_id id ≡ ok tt → IsTokenId id
validate_key_id-IsTokenId id h =
    let (key_id, no_comma, graphic, short) = validate_key_id-IsKeyId id h in
    record { key_id = key_id; graphic = graphic }

pub check_record_sound :
    (unmarshal : Str → Option KeyRecord) (e : Entry) (o : Option KeyRecord) (r : KeyRecord)
    → check_record unmarshal e o ≡ ok r
    → IsTokenId r.id × (r.id ≡ e.key)
unfolding check_record
check_record_sound unmarshal e none r h = cc
check_record_sound unmarshal e (some d) r h =
    let (same, h₁) = guard-eq-ok (not (str_eq d.id e.key)) _ _ h in
    let (u, valid, h₂) = >>=-eq-ok (validate_key_id d.id) _ h₁ in
    let kept : d.id ≡ r.id = ground (arith, h₂) in
    (
      rw (← kept) (validate_key_id-IsTokenId d.id valid),
      ground (arith, kept, str_eq_iff d.id e.key),
    )

pub generate_secret_sound :
    (sha256 : Str → Str) (random : Option Str) (p : Str × Str)
    → generate_secret sha256 random ≡ ok p
    → (bytes : Str) × (random ≡ some bytes)
      × (p.0 ≡ base64_encode bytes)
      × (p.1 ≡ hex_encode (sha256 p.0))
unfolding generate_secret
generate_secret_sound sha256 none p h = cc
generate_secret_sound sha256 (some bytes) p h = (bytes, refl, cc, cc)

-- A record and a token that a client was given for it: the secret is made of the bytes read.
pub record Issued (sha256 : Str → Str) (random : Option Str) (r : KeyRecord) (token : Str)
    : Type 0 where
  pub id : IsTokenId r.id
  pub bytes : Str
  pub read : random ≡ some bytes
  pub printed : token ≡ r.id ++ b'.' ∷ base64_encode bytes
  pub digest : r.secret_sha256 ≡ hex_encode (sha256 (base64_encode bytes))
  pub live : r.revoked_at ≡ none

module _ {S : Type 0} (kv : KeyValue S) (sha256 : Str → Str) (marshal : KeyRecord → Option Str)
    (unmarshal : Str → Option KeyRecord) where
  pub create-Issued :
      (now : ℕ) (random : Option Str) (input : CreateInput) (s s' : S) (r : KeyRecord) (token : Str)
      → create kv sha256 marshal unmarshal now random input s ≡ (s', ok (r, token))
      → Issued sha256 random r token × (r.expires_at ≡ input.expires_at) × (r.id ≡ input.id)
  unfolding create
  create-Issued now random input s s' r token h =
      let (u, valid, h₁) = lift-eq-ok (validate_key_id input.id) _ s s' _ h in
      let (secret, made, h₂) = lift-eq-ok (generate_secret sha256 random) _ s s' _ h₁ in
      let (payload, printed, h₃) = lift-eq-ok (payload_of _) _ s s' (r, token) h₂ in
      let (t, revision, called, h₄) =
        call-eq-ok (with_errors (map_create_error input.id) (kv.create input.id payload s)) _ h₃ in
      let (bytes, read, is_secret, is_digest) = generate_secret_sound sha256 random secret made in
      let same = ok-injective h₄ in
      let id : r.id ≡ input.id = ap (λ p. p.0.id) same in
      (
        record {
          id = rw id (validate_key_id-IsTokenId input.id valid);
          bytes = bytes;
          read = read;
          printed =
              ap (λ p. p.1) same
              ∙ ap (λ x. input.id ++ b'.' ∷ x) is_secret
              ∙ ap (λ x. x ++ b'.' ∷ base64_encode bytes) (sym id);
          digest =
              ap (λ p. p.0.secret_sha256) same
              ∙ is_digest
              ∙ ap (λ x. hex_encode (sha256 x)) is_secret;
          live = ap (λ p. p.0.revoked_at) same;
        },
        ap (λ p. p.0.expires_at) same ∙ clone_time_lem input.expires_at,
        id,
      )

  pub load_sound :
      (id : Str) (s t : S) (p : Entry × KeyRecord)
      → load kv sha256 marshal unmarshal id s ≡ (t, ok p)
      → IsTokenId p.1.id × (p.1.id ≡ p.0.key) × (kv.get id s ≡ (t, ok p.0))
  unfolding load decode_entry
  load_sound id s t p h =
      let (t₁, entry, got, h₁) = call-eq-ok (with_errors (map_get_error id) (kv.get id s)) _ h in
      let (r, decoded, h₂) =
        lift-eq-ok (check_record unmarshal entry (unmarshal entry.value)) _ t₁ t _ h₁ in
      let same = ok-injective h₂ in
      let (valid, key) = check_record_sound unmarshal entry (unmarshal entry.value) r decoded in
      let left : t₁ ≡ t = ap (λ x. x.0) h₂ in
      (
        rw same valid,
        rw same key,
        rw same
            (with_errors-eq-ok (map_get_error id) (kv.get id s) got ∙ ap (λ x. (x, ok entry)) left),
      )

  pub save_sound :
      (id : Str) (e : Entry) (r r' : KeyRecord) (s s' : S)
      → save kv sha256 marshal unmarshal id e r s ≡ (s', ok r')
      → (payload : Str) × (n : ℕ) × (kv.update id payload e.revision s ≡ (s', ok n))
        × (marshal r ≡ some payload)
        × (r' ≡ record r { revision = n })
  unfolding save
  save_sound id e r r' s s' h =
      let (payload, printed, h₁) = lift-eq-ok (payload_of (marshal r)) _ s s' _ h in
      let (t, n, called, h₂) =
        call-eq-ok (with_errors (λ _. update_failed id) (kv.update id payload e.revision s)) _ h₁ in
      (
        payload,
        n,
        with_errors-eq-ok (λ _. update_failed id) (kv.update id payload e.revision s) called
            ∙ ap (λ x. (x.0, ok n)) h₂,
        payload_of-eq-ok (marshal r) payload printed,
        ok-injective h₂,
      )
