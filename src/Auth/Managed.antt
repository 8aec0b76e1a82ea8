-- ===== src/Auth/Managed.antt =====
-- ReplaceManaged and ManagedCounts: what a replacement installs, and what the counts count.
use geotagger.Prelude.{
  ℕ, ◌≡◌, refl, sym, ap, inl, inr, false, List, [], ◌∷◌, Option, none, some, arith, Result, ok, err,
  >>=-eq-ok, guard-eq-ok, Bool-cases, some-ne-none, if◌then◌else◌, length, All,
}
use geotagger.Text.Bytes.{Str, str_eq, str_eq_iff}
use geotagger.Text.Dict.{
  Dict, lookup, insert, has_key, lookup-insert, insert-All, insert-IsDistinct, IsDistinct,
  lookup-eq-none,
}
use geotagger.Auth.{
  AuthError, Verifier, ManagedKey, ManagedCredential, digest_size, validate_id, decode_digest,
  clone_time, add_managed, build_managed, replace_managed,
}
use geotagger.Auth.Static.{IsKeyId, validate_id-IsKeyId, decode_digest-length}

-- The credential that a submitted key stands for.
pub record Installs (key : ManagedKey) (c : ManagedCredential) : Type 0 where
  pub digest : decode_digest key.id key.digest_hex ≡ ok c.digest
  pub expires_at : c.expires_at ≡ key.expires_at
  pub revoked_at : c.revoked_at ≡ key.revoked_at

abbrev pub IsManagedEntry : Dict Str → Str × ManagedCredential → Type 0
IsManagedEntry static (id, c) =
    IsKeyId id × (length c.digest ≡ digest_size) × (has_key id static ≡ false)

-- The managed credentials have proper ids that no static credential has, each once.
abbrev pub IsManagedTable : Dict Str → Dict ManagedCredential → Type 0
IsManagedTable static m = All (IsManagedEntry static) m × IsDistinct m

-- The key with that id in a submitted list.
unfoldable pub find_key : Str → List ManagedKey → Option ManagedKey
find_key id [] = none
find_key id (key ∷ keys) = if str_eq key.id id then some key else find_key id keys

-- What stands under an id after the loop: what stood there, if no key has that id, and the
-- credential of the first key with that id, if there is one and nothing stood there.
pub data Answers (id : Str) (before : Option ManagedCredential) (keys : List ManagedKey)
    (after : Option ManagedCredential) : Type 0 where
  kept : find_key id keys ≡ none → after ≡ before → Answers id before keys after
  installed :
      (key : ManagedKey) (c : ManagedCredential)
      → find_key id keys ≡ some key
      → before ≡ none
      → after ≡ some c
      → Installs key c
      → Answers id before keys after

clone_time_lem : (t : Option ℕ) → clone_time t ≡ t
unfolding clone_time
clone_time_lem none = refl
clone_time_lem (some t) = refl

-- What a round that succeeds has checked and added.
pub record Added (static : Dict Str) (m next : Dict ManagedCredential) (key : ManagedKey)
    : Type 0 where
  pub cred : ManagedCredential
  pub id : IsKeyId key.id
  pub not_static : has_key key.id static ≡ false
  pub fresh : has_key key.id m ≡ false
  pub installs : Installs key cred
  pub inserted : next ≡ insert key.id cred m

module _ (static : Dict Str) where
  pub add_managed_sound :
      (m next : Dict ManagedCredential) (key : ManagedKey)
      → add_managed static m key ≡ ok next
      → Added static m next key
  unfolding add_managed
  add_managed_sound m next key h =
      let (u, valid, h') = >>=-eq-ok (validate_id key.id) _ h in
      let (not_static, h₂) = guard-eq-ok (has_key key.id static) _ _ h' in
      let (fresh, h₃) = guard-eq-ok (has_key key.id m) _ _ h₂ in
      let (raw, decoded, last) = >>=-eq-ok (decode_digest key.id key.digest_hex) _ h₃ in
      record {
        cred = record {
          digest = raw;
          expires_at = clone_time key.expires_at;
          revoked_at = clone_time key.revoked_at;
        };
        id = validate_id-IsKeyId key.id valid;
        not_static = not_static;
        fresh = fresh;
        installs = record {
          digest = decoded;
          expires_at = clone_time_lem key.expires_at;
          revoked_at = clone_time_lem key.revoked_at;
        };
        inserted = ok_inj (sym last);
      }
    where
      ok_inj :
          {a b : Dict ManagedCredential}
          → ◌≡◌ {A = Result AuthError (Dict ManagedCredential)} (ok a) (ok b)
          → a ≡ b
      ok_inj e = cc

  add_managed-IsManagedTable :
      (m next : Dict ManagedCredential) (key : ManagedKey)
      → IsManagedTable static m
      → Added static m next key
      → IsManagedTable static next
  add_managed-IsManagedTable m next key (entries, distinct) a = rw a.inserted (
    insert-All (IsManagedEntry static) key.id a.cred m
        (a.id, decode_digest-length key.id key.digest_hex _ a.installs.digest, a.not_static)
        entries,
    insert-IsDistinct key.id a.cred m distinct,
  )

  build_managed-IsManagedTable :
      (m next : Dict ManagedCredential) (keys : List ManagedKey)
      → IsManagedTable static m
      → build_managed static m keys ≡ ok next
      → IsManagedTable static next
  unfolding build_managed
  build_managed-IsManagedTable m next [] t h = let same : m ≡ next = cc in rw (← same) t
  build_managed-IsManagedTable m next (key ∷ keys) t h =
      let (m', added, rest) = >>=-eq-ok (add_managed static m key) _ h in
      build_managed-IsManagedTable m' next keys
        (add_managed-IsManagedTable m m' key t (add_managed_sound m m' key added)) rest

  pub build_managed-Answers :
      (m next : Dict ManagedCredential) (keys : List ManagedKey) (id : Str)
      → build_managed static m keys ≡ ok next
      → Answers id (lookup id m) keys (lookup id next)
  unfolding build_managed find_key
  build_managed-Answers m next [] id h = let same : m ≡ next = cc in rw same (kept refl refl)
  build_managed-Answers m next (key ∷ keys) id h =
      let (m', added, rest) = >>=-eq-ok (add_managed static m key) _ h in
      step (add_managed_sound m m' key added) (build_managed-Answers m' next keys id rest)
    where
      step :
          {m' : Dict ManagedCredential}
          → Added static m m' key
          → Answers id (lookup id m') keys (lookup id next)
          → Answers id (lookup id m) (key ∷ keys) (lookup id next)
      step a (kept absent same) = elim (Bool-cases (str_eq key.id id)) [
        | inl hit ↦
            let now : lookup id next ≡ some a.cred =
              ground (arith, same, ap (lookup id) a.inserted, lookup-insert key.id id a.cred m) in
            installed key a.cred (rw hit)
              (rw (← (str_eq_iff key.id id).0 hit) (lookup-eq-none key.id m a.fresh)) now a.installs
        | inr miss ↦
            kept (rw miss absent)
              (ground (arith, same, ap (lookup id) a.inserted, lookup-insert key.id id a.cred m))
      ]
      step a (installed k c found none_before after i) = elim (Bool-cases (str_eq key.id id)) [
        | inl hit ↦
            cc (none_before, ap (lookup id) a.inserted, lookup-insert key.id id a.cred m, hit)
        | inr miss ↦
            installed k c (rw miss found)
              (ground
                (arith, none_before, ap (lookup id) a.inserted, lookup-insert key.id id a.cred m))
              after i
      ]

module _ (v : Verifier) (keys : List ManagedKey) where
  replace_managed-build :
      (replace_managed v keys).1 ≡ none
      → (next : Dict ManagedCredential) × (build_managed v.static [] keys ≡ ok next)
        × ((replace_managed v keys).0 ≡ record v { managed = next })
  unfolding replace_managed
  replace_managed-build h = go (build_managed v.static [] keys) refl h
    where
      go :
          (r : Result AuthError (Dict ManagedCredential))
          → build_managed v.static [] keys ≡ r
          → (replace_managed v keys).1 ≡ none
          → (next : Dict ManagedCredential) × (build_managed v.static [] keys ≡ ok next)
            × ((replace_managed v keys).0 ≡ record v { managed = next })
      go (ok next) e h' = (next, e, rw (e, replace_managed) refl)
      go (err x) e h' = absurd (some-ne-none (rw (e, replace_managed) at h'))

  -- A replacement that returns no error leaves the static table alone. Each managed id is then
  -- proper, stands once, is no static id and has a digest of 32 bytes; and for every id the
  -- managed table has the credential of the submitted key with that id, with its expiry, its
  -- revocation and its decoded digest, and nothing if no key has the id.
  pub replace_managed_installs :
      (replace_managed v keys).1 ≡ none
      → ((replace_managed v keys).0.static ≡ v.static)
        × IsManagedTable v.static (replace_managed v keys).0.managed
        × ((id : Str) → Answers id none keys (lookup id (replace_managed v keys).0.managed))
  replace_managed_installs h =
      let (next, built, same) = replace_managed-build h in
      rw same (
        refl,
        build_managed-IsManagedTable v.static [] next keys (tt, tt) built,
        λ id. unfold lookup in build_managed-Answers v.static [] next keys id built,
      )
