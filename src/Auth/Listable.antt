-- ===== src/Auth/Listable.antt =====
-- The lists of keys that ReplaceManaged takes, and what it does with any other.
use geotagger.Prelude.{
  ◌≡◌, ◌≢◌, refl, ap, ◌⊎◌, inl, inr, false, List, [], ◌∷◌, none, some, arith, Result, ok, err,
  >>=-eq-ok, Bool-cases, length, ==_iff,
}
use geotagger.Text.Bytes.{Str, str_eq, str_eq_iff, str_eq_refl}
use geotagger.Text.Hex.{hex_decode}
use geotagger.Text.Dict.{Dict, lookup, insert, has_key, lookup-insert}
use geotagger.Auth.{
  AuthError, Verifier, ManagedKey, ManagedCredential, digest_size, decode_digest, clone_time,
  add_managed, build_managed, replace_managed,
}
use geotagger.Auth.Static.{IsKeyId, validate_id_complete}
use geotagger.Auth.Managed.{
  Added, Answers, kept, installed, find_key, add_managed_sound, build_managed-Answers,
}

-- A proper id that no static credential has, and the hexadecimal form of a digest of 32 bytes.
pub record IsListable (static : Dict Str) (key : ManagedKey) : Type 0 where
  pub id : IsKeyId key.id
  pub not_static : has_key key.id static ≡ false
  pub digest : Str
  pub decoded : hex_decode key.digest_hex ≡ some digest
  pub size : length digest ≡ digest_size

-- Keys that can be listed, no two of them with the same id.
abbrev pub AreListable : Dict Str → List ManagedKey → Type 0
AreListable static [] = Unit {0}
AreListable static (key ∷ keys) =
    IsListable static key × (find_key key.id keys ≡ none) × AreListable static keys

decode_digest_sound :
    (id hex digest : Str)
    → decode_digest id hex ≡ ok digest
    → (hex_decode hex ≡ some digest) × (length digest ≡ digest_size)
unfolding decode_digest
decode_digest_sound id hex digest h = ground arith

decode_digest_complete :
    (id hex digest : Str)
    → hex_decode hex ≡ some digest
    → length digest ≡ digest_size
    → decode_digest id hex ≡ ok digest
unfolding decode_digest
decode_digest_complete id hex digest h size =
    rw (h, decode_digest) (rw ((==_iff (length digest) digest_size).1 size))

module _ (static : Dict Str) where
  build_managed_sound :
      (m next : Dict ManagedCredential) (keys : List ManagedKey)
      → build_managed static m keys ≡ ok next
      → AreListable static keys
  unfolding build_managed
  build_managed_sound m next [] h = tt
  build_managed_sound m next (key ∷ keys) h =
      let (m', added, rest) = >>=-eq-ok (add_managed static m key) _ h in
      let a = add_managed_sound static m m' key added in
      let (decoded, size) =
        decode_digest_sound key.id key.digest_hex a.cred.digest a.installs.digest in
      (
        record {
          id = a.id;
          not_static = a.not_static;
          digest = a.cred.digest;
          decoded = decoded;
          size = size;
        },
        once a (build_managed-Answers static m' next keys key.id rest),
        build_managed_sound m' next keys rest,
      )
    where
      once :
          {m' : Dict ManagedCredential}
          → Added static m m' key
          → Answers key.id (lookup key.id m') keys (lookup key.id next)
          → find_key key.id keys ≡ none
      once a (kept absent same) = absent
      once a (installed k c found none_before after i) = ground (
        arith,
        none_before,
        ap (lookup key.id) a.inserted,
        lookup-insert key.id key.id a.cred m,
        str_eq_refl key.id,
      )

  -- No key of the list is in the table yet.
  abbrev AreNew : List ManagedKey → Dict ManagedCredential → Type 0
  AreNew keys m = (id : Str) (key : ManagedKey) → find_key id keys ≡ some key → has_key id m ≡ false

  add_managed_complete :
      (m : Dict ManagedCredential) (key : ManagedKey)
      → IsListable static key
      → has_key key.id m ≡ false
      → (c : ManagedCredential) × (add_managed static m key ≡ ok (insert key.id c m))
  unfolding add_managed
  add_managed_complete m key l new = (
    record {
      digest = l.digest;
      expires_at = clone_time key.expires_at;
      revoked_at = clone_time key.revoked_at;
    },
    rw (validate_id_complete key.id l.id) (
        rw l.not_static
          (rw new (rw (decode_digest_complete key.id key.digest_hex l.digest l.decoded l.size)))),
  )

  build_managed_complete :
      (m : Dict ManagedCredential) (keys : List ManagedKey)
      → AreListable static keys
      → AreNew keys m
      → (next : Dict ManagedCredential) × (build_managed static m keys ≡ ok next)
  unfolding build_managed find_key
  build_managed_complete m [] l new = (m, refl)
  build_managed_complete m (key ∷ keys) (first, once, rest) new =
      let (c, added) =
        add_managed_complete m key first (new key.id key (rw (str_eq_refl key.id) refl)) in
      let (next, built) = build_managed_complete (insert key.id c m) keys rest (still c) in
      (next, rw added built)
    where
      still : (c : ManagedCredential) → AreNew keys (insert key.id c m)
      still c id k found = elim (Bool-cases (str_eq key.id id)) [
        | inl hit ↦ cc ((str_eq_iff key.id id).0 hit, once, found)
        | inr miss ↦ rw (lookup-insert key.id id c m) (rw miss (new id k (rw miss found)))
      ]

module _ (v : Verifier) (keys : List ManagedKey) where
  -- Either each submitted key has a proper id that no static credential has and the hexadecimal
  -- form of a digest of 32 bytes, no two of them have the same id, and ReplaceManaged returns no
  -- error; or this is not so, ReplaceManaged returns an error, and the verifier is as it was.
  pub replace_managed_cases :
      AreListable v.static keys × ((replace_managed v keys).1 ≡ none)
      ⊎ (¬ AreListable v.static keys
          × ((replace_managed v keys).1 ≢ none)
          × ((replace_managed v keys).0 ≡ v))
  unfolding replace_managed
  replace_managed_cases = go (build_managed v.static [] keys) refl
    where
      go :
          (r : Result AuthError (Dict ManagedCredential))
          → build_managed v.static [] keys ≡ r
          → AreListable v.static keys × ((replace_managed v keys).1 ≡ none)
            ⊎ (¬ AreListable v.static keys
                × ((replace_managed v keys).1 ≢ none)
                × ((replace_managed v keys).0 ≡ v))
      go (ok next) e =
          inl (build_managed_sound v.static [] next keys e, rw (e, replace_managed) refl)
      go (err x) e = inr (
        λ l.
            let (next, built) =
              build_managed_complete v.static [] keys l (λ id key found. unfold lookup in refl) in
            cc (e, built),
        rw (e, replace_managed) (λ same. cc same),
        rw (e, replace_managed) refl,
      )
