-- ===== src/Auth.antt =====
-- internal/auth/tokens.go: the bearer credentials that the API accepts. A `*Verifier` that a
-- method changes is returned anew; the lock makes each method one step. Instants are numbers of
-- nanoseconds, on which `UTC()` is the identity. SHA-256 is an argument of what calls it.
pub mod Verify
pub mod Counts
pub mod Managed
pub mod Listable
pub mod Static
use geotagger.Prelude.{
  ℕ, suc, ◌+◌, Bool, true, false, ◌&&◌, ◌||◌, not, List, [], ◌∷◌, Option, none, some, Result, ok,
  err, ◌>>=◌, ◌>>◌, ltb, ◌==◌, if◌then◌else◌, length, is_some,
}
use geotagger.Text.Bytes.{Str, codes, str_eq, is_empty}
use geotagger.Text.Strings.{has_prefix, trim_prefix, cut, split, contains}
use geotagger.Text.Trim.{trim_space}
use geotagger.Text.Hex.{hex_decode}
use geotagger.Text.Dict.{Dict, lookup, insert, has_key}

pub record ManagedKey : Type 0 where
  pub id : Str
  pub digest_hex : Str
  pub expires_at : Option ℕ
  pub revoked_at : Option ℕ

pub record ManagedCredential : Type 0 where
  pub digest : Str
  pub expires_at : Option ℕ
  pub revoked_at : Option ℕ

pub record ManagedCounts : Type 0 where
  pub total : ℕ
  pub active : ℕ
  pub revoked : ℕ
  pub expired : ℕ

pub record Verifier : Type 0 where
  pub static : Dict Str
  pub managed : Dict ManagedCredential

pub data AuthError : Type 0 where
  unauthorized no_keys id_required : AuthError
  invalid_entry bad_id bad_digest duplicate_id collides_with_static : Str → AuthError

-- sha256.Size
abbrev pub digest_size : ℕ
digest_size = 32

unfoldable pub validate_id : Str → Result AuthError (Unit {0})
validate_id id =
    if is_empty id
    then err id_required
    else if contains b'.' id || contains b':' id
    then err (bad_id id)
    else ok tt

-- The array that is returned beside an error is not read.
unfoldable pub decode_digest : Str → Str → Result AuthError Str
decode_digest id digest = elim (hex_decode digest) [
  | none ↦ err (bad_digest id)
  | some raw ↦ if length raw == digest_size then ok raw else err (bad_digest id)
]

unfoldable pub clone_time : Option ℕ → Option ℕ
clone_time none = none
clone_time (some t) = some t

-- What the loop of NewVerifier does with an entry that it has cut in two.
unfoldable pub add_static : Dict Str → Str → Str → Result AuthError (Dict Str)
add_static static id digest = do
  validate_id id
  expected ← decode_digest id digest
  if has_key id static then err (duplicate_id id) else ok (insert id expected static)

-- The same with the two parts still to be checked for being there.
unfoldable pub add_cut : Dict Str → Str → Option (Str × Str) → Result AuthError (Dict Str)
add_cut static entry none = err (invalid_entry entry)
add_cut static entry (some (id, digest)) =
    if is_empty id || is_empty digest
    then err (invalid_entry entry)
    else add_static static id digest

-- One round of the loop of NewVerifier.
unfoldable pub add_entry : Dict Str → Str → Result AuthError (Dict Str)
add_entry static raw =
    let entry = trim_space raw in
    if is_empty entry then ok static else add_cut static entry (cut b':' entry)

unfoldable pub add_entries : Dict Str → List Str → Result AuthError (Dict Str)
add_entries static [] = ok static
add_entries static (raw ∷ more) = do next ← add_entry static raw; add_entries next more

abbrev pub with_static : Dict Str → Result AuthError Verifier
with_static [] = err no_keys
with_static (e ∷ static) = ok (record { static = e ∷ static; managed = [] })

unfoldable pub new_verifier : Str → Result AuthError Verifier
new_verifier spec = do static ← add_entries [] (split b',' spec); with_static static

-- One round of the loop of ReplaceManaged.
unfoldable pub add_managed :
    Dict Str → Dict ManagedCredential → ManagedKey → Result AuthError (Dict ManagedCredential)
add_managed static next key = do
  validate_id key.id
  if has_key key.id static
      then err (collides_with_static key.id)
      else if has_key key.id next
      then err (duplicate_id key.id)
      else do
        digest ← decode_digest key.id key.digest_hex
        ok (
            insert key.id
              (record {
                digest = digest;
                expires_at = clone_time key.expires_at;
                revoked_at = clone_time key.revoked_at;
              })
              next)

unfoldable pub build_managed :
    Dict Str → Dict ManagedCredential → List ManagedKey → Result AuthError (Dict ManagedCredential)
build_managed static next [] = ok next
build_managed static next (key ∷ keys) = do
  next' ← add_managed static next key
  build_managed static next' keys

-- On an error the verifier is as it was.
unfoldable pub replace_managed : Verifier → List ManagedKey → Verifier × Option AuthError
replace_managed v keys = elim (build_managed v.static [] keys) [
  | ok next ↦ (record v { managed = next }, none)
  | err e ↦ (v, some e)
]

unfoldable pub has_static_id : Verifier → Str → Bool
has_static_id v id = has_key id v.static

-- key.expiresAt != nil && !now.Before(*key.expiresAt)
unfoldable pub has_expired : ℕ → Option ℕ → Bool
has_expired now none = false
has_expired now (some t) = not (ltb now t)

-- The digest to compare with, from the two map reads. A managed credential shadows a static one.
unfoldable pub expected_digest : ℕ → Option Str → Option ManagedCredential → Result AuthError Str
expected_digest now none none = err unauthorized
expected_digest now (some digest) none = ok digest
expected_digest now static (some cred) =
    if is_some cred.revoked_at || has_expired now cred.expires_at
    then err unauthorized
    else ok cred.digest

abbrev pub bearer : Str
bearer = codes "Bearer "

module _ (sha256 : Str → Str) where
  -- The part of VerifyAuthorization behind the cut. subtle.ConstantTimeCompare is equality; the
  -- comparisons of dummies have no effect but time.
  unfoldable pub check_secret : Verifier → ℕ → Str → Str → Result AuthError Str
  check_secret v now id secret = if is_empty id || is_empty secret then err unauthorized else do
    expected ← expected_digest now (lookup id v.static) (lookup id v.managed)
    if str_eq expected (sha256 secret) then ok id else err unauthorized

  unfoldable pub verify_authorization : Verifier → ℕ → Str → Result AuthError Str
  verify_authorization v now header =
      if not (has_prefix header bearer)
      then err unauthorized
      else elim (cut b'.' (trim_space (trim_prefix header bearer))) [
        | none ↦ err unauthorized
        | some (id, secret) ↦ check_secret v now id secret
      ]

-- One round of the loop of ManagedCounts.
unfoldable pub count_one : ℕ → ManagedCredential → ManagedCounts → ManagedCounts
count_one now key counts =
    if is_some key.revoked_at
    then record counts { revoked = counts.revoked + 1 }
    else if has_expired now key.expires_at
    then record counts { expired = counts.expired + 1 }
    else record counts { active = counts.active + 1 }

unfoldable pub count_from : ℕ → Dict ManagedCredential → ManagedCounts → ManagedCounts
count_from now [] counts = counts
count_from now ((id, key) ∷ more) counts = count_from now more (count_one now key counts)

unfoldable pub managed_counts : ℕ → Verifier → ManagedCounts
managed_counts now v =
    count_from now v.managed
      (record { total = length v.managed; active = 0; revoked = 0; expired = 0 })
