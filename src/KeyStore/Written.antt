-- ===== src/KeyStore/Written.antt =====
-- After Create, the bucket has the record that it returns; what the other writes share with it.
use geotagger.Prelude.{
  ℕ, ◌*◌, ◌≡◌, refl, sym, ap, ◌∙◌, subst, false, not, Option, none, some, ok, arith, guard-eq-ok,
  >>=-eq-ok, is_some, length, ==_iff,
}
use geotagger.Text.Bytes.{Str, str_eq, str_eq_refl}
use geotagger.Text.Hex.{hex_encode, hex_decode-hex_encode, length-hex_encode}
use geotagger.Auth.{digest_size}
use geotagger.Keygen.RoundTrip.{IsDigest}
use geotagger.KeyStore.Records.{
  KeyRecord, CreateInput, Entry, validate_key_id, bad_digest, check_record, decode_entry,
  generate_secret,
}
use geotagger.KeyStore.Operations.{
  KeyValue, with_errors, map_create_error, payload_of, create, save,
}
use geotagger.KeyStore.Inversion.{
  call-eq-ok, lift-eq-ok, ok-injective, generate_secret_sound, save_sound, clone_time_lem,
  with_errors-eq-ok, payload_of-eq-ok,
}
use geotagger.KeyStore.Listed.{IsBucket, Stored}

-- A record that decodeEntry does not refuse.
pub record IsValid (r : KeyRecord) : Type 0 where
  pub id : validate_key_id r.id ≡ ok tt
  pub digest : bad_digest r.secret_sha256 ≡ false

-- JSON decodes what it has encoded, but for the revision, which it leaves out.
pub record IsJson (marshal : KeyRecord → Option Str) (unmarshal : Str → Option KeyRecord)
    : Type 0 where
  pub decodes :
      (r : KeyRecord) (text : Str)
      → marshal r ≡ some text
      → unmarshal text ≡ some (record r { revision = 0 })

pub check_record-IsValid :
    (unmarshal : Str → Option KeyRecord) (e : Entry) (o : Option KeyRecord) (r : KeyRecord)
    → check_record unmarshal e o ≡ ok r
    → IsValid r
unfolding check_record
check_record-IsValid unmarshal e none r h = absurd (cc h)
check_record-IsValid unmarshal e (some d) r h =
    let (same, h₁) = guard-eq-ok (not (str_eq d.id e.key)) _ _ h in
    let (u, valid, h₂) = >>=-eq-ok (validate_key_id d.id) _ h₁ in
    let (good, h₃) = guard-eq-ok (bad_digest d.secret_sha256) _ _ h₂ in
    let kept : d.id ≡ r.id = cc in
    let digest : d.secret_sha256 ≡ r.secret_sha256 = cc in
    record { id = rw (← kept) valid; digest = rw (← digest) good }

check_record_complete :
    (unmarshal : Str → Option KeyRecord) (e : Entry) (r : KeyRecord) (n : ℕ)
    → IsValid r
    → e.key ≡ r.id
    → check_record unmarshal e (some (record r { revision = n }))
      ≡ ok (record r { revision = e.revision })
unfolding check_record
check_record_complete unmarshal e r n v key = rw key (
    rw (str_eq_refl r.id) (
      rw (v.id) (
        rw v.digest (
          rw (clone_time_lem r.rotated_at, clone_time_lem r.expires_at, clone_time_lem r.revoked_at)
            refl))))

pub generate_secret-digest :
    (sha256 : Str → Str) (random : Option Str) (p : Str × Str)
    → ((s : Str) → IsDigest (sha256 s))
    → generate_secret sha256 random ≡ ok p
    → bad_digest p.1 ≡ false
unfolding bad_digest
generate_secret-digest sha256 random p sized h =
    let (bytes, read, is_secret, is_digest) = generate_secret_sound sha256 random p h in
    let (small, size) = sized p.0 in
    let long : length (hex_encode (sha256 p.0)) ≡ digest_size * 2 =
      omega (arith, length-hex_encode (sha256 p.0), size) in
    rw is_digest (
      rw (hex_decode-hex_encode (sha256 p.0) small, is_some)
        (rw ((==_iff (length (hex_encode (sha256 p.0))) (digest_size * 2)).1 long) refl))

module _ {S : Type 0} (kv : KeyValue S) (view : S → Str → Option Entry) (sha256 : Str → Str)
    (marshal : KeyRecord → Option Str) (unmarshal : Str → Option KeyRecord)
    (bucket : IsBucket kv view) (json : IsJson marshal unmarshal) where
  Stored-of_entry :
      (s : S) (r : KeyRecord) (text : Str) (n : ℕ)
      → IsValid r
      → marshal r ≡ some text
      → view s r.id ≡ some (record { key = r.id; value = text; revision = n })
      → Stored kv view unmarshal s (record r { revision = n })
  Stored-of_entry s r text n valid printed shown = record {
    entry = record { key = r.id; value = text; revision = n };
    shown = shown;
    decoded =
        unfold decode_entry in
        (ap (check_record unmarshal (record { key = r.id; value = text; revision = n }))
            (json.decodes r text printed)
          ∙ check_record_complete unmarshal (record { key = r.id; value = text; revision = n }) r 0
              valid refl);
  }

  pub save-Stored :
      (id : Str) (e : Entry) (r r' : KeyRecord) (s t : S)
      → IsValid r
      → r.id ≡ id
      → save kv sha256 marshal unmarshal id e r s ≡ (t, ok r')
      → Stored kv view unmarshal t r'
  save-Stored id e r r' s t valid same h =
      let (text, n, called, printed, is) = save_sound kv sha256 marshal unmarshal id e r r' s t h in
      subst (Stored kv view unmarshal t) (sym is) (
        Stored-of_entry t r text n valid printed (
          subst (λ k. view t k ≡ some (record { key = k; value = text; revision = n })) (sym same)
            (bucket.updated id text e.revision s t n called)))

  pub create-Stored :
      (now : ℕ) (random : Option Str) (input : CreateInput) (s t : S) (r : KeyRecord) (token : Str)
      → ((text : Str) → IsDigest (sha256 text))
      → create kv sha256 marshal unmarshal now random input s ≡ (t, ok (r, token))
      → Stored kv view unmarshal t r
  unfolding create
  create-Stored now random input s t r token sized h =
      let (u, valid, h₁) = lift-eq-ok (validate_key_id input.id) _ s t _ h in
      let (secret, made, h₂) = lift-eq-ok (generate_secret sha256 random) _ s t _ h₁ in
      let (payload, printed, h₃) = lift-eq-ok (payload_of _) _ s t (r, token) h₂ in
      let (v, revision, called, h₄) =
        call-eq-ok (with_errors (map_create_error input.id) (kv.create input.id payload s)) _ h₃ in
      let same = ok-injective h₄ in
      let at_end : v ≡ t = ap (λ p. p.0) h₄ in
      subst (Stored kv view unmarshal t) (sym (ap (λ p. p.0) same)) (
        Stored-of_entry t _ payload revision
          (record { id = valid; digest = generate_secret-digest sha256 random secret sized made })
          (payload_of-eq-ok _ payload printed)
          (subst
            (λ x.
              view x input.id
              ≡ some (record { key = input.id; value = payload; revision = revision }))
            at_end
            (bucket.created input.id payload s v revision (
              with_errors-eq-ok (map_create_error input.id) (kv.create input.id payload s)
                called))))
