-- ===== src/Examples/Credentials.antt =====
-- Credentials: static, managed and printed by keygen.
use geotagger.Prelude.{
  ◌+◌, ◌≡◌, ◌≢◌, ◌↔◌, ◌⊎◌, refl, inr, [], ◌∷◌, ◌++◌, none, some, ok, err, length, arith,
}
use geotagger.Text.Bytes.{Str, codes, str_eq}
use geotagger.Text.Strings.{split, split_from, cut, contains}
use geotagger.Text.Trim.{trim_space}
use geotagger.Text.Hex.{hex_decode}
use geotagger.Text.Dict.{lookup, insert}
use geotagger.Auth.{
  add_entries, add_entry, add_cut, add_static, Verifier, ManagedKey, invalid_entry, bearer,
  verify_authorization, new_verifier, replace_managed, build_managed, add_managed, validate_id,
  decode_digest, managed_counts,
}
use geotagger.Auth.Verify.{Presents, Grants, verify_authorization_iff, verify_authorization_dead}
use geotagger.Auth.Static.{IsStaticTable, new_verifier-IsStaticTable}
use geotagger.Auth.Managed.{IsManagedTable, Answers, replace_managed_installs}
use geotagger.Auth.Listable.{AreListable, replace_managed_cases}
use geotagger.Auth.Counts.{count_usable, managed_counts_lem}
use geotagger.Keygen.{keygen, printed, Printed}
use geotagger.Keygen.RoundTrip.{keygen_accepted}
use geotagger.Keygen.Comma.{keygen_comma_rejected}
use geotagger.Examples.Fixtures.{zeros, hash, active, verifier}

verify_authorization_iff_example :
    (verify_authorization hash verifier 50 (codes "Bearer web.secret") ≡ ok (codes "web")) ↔ (
      (secret : Str) × Presents (codes "Bearer web.secret") (codes "web") secret
      × Grants verifier 50 (codes "web") (hash secret))
verify_authorization_iff_example =
    verify_authorization_iff hash verifier 50 (codes "Bearer web.secret") (codes "web")

web_found : lookup (codes "web") verifier.managed ≡ some active
unfolding lookup str_eq
web_found = refl

verify_authorization_dead_example :
    verify_authorization hash verifier 100 (codes "Bearer web.secret") ≢ ok (codes "web")
verify_authorization_dead_example =
    verify_authorization_dead hash verifier 100 (codes "Bearer web.secret") (codes "web") active
      web_found (inr (100, refl, omega arith))

managed_counts_lem_example :
    ((managed_counts 50 verifier).total ≡ length verifier.managed)
    × ((managed_counts 50 verifier).active
          + (managed_counts 50 verifier).revoked
          + (managed_counts 50 verifier).expired
        ≡ length verifier.managed)
    × ((managed_counts 50 verifier).active ≡ count_usable 50 verifier.managed)
managed_counts_lem_example = managed_counts_lem 50 verifier

abbrev spec : Str
spec = codes "app:0000000000000000000000000000000000000000000000000000000000000000"

abbrev app_only : Verifier
app_only = record { static = (codes "app", zeros) ∷ []; managed = [] }

spec_accepted : new_verifier spec ≡ ok app_only
unfolding new_verifier add_entries add_entry add_cut add_static validate_id decode_digest split
    split_from cut contains trim_space hex_decode lookup insert str_eq
spec_accepted = refl

new_verifier-IsStaticTable_example :
    IsStaticTable app_only.static × (app_only.static ≢ []) × (app_only.managed ≡ [])
new_verifier-IsStaticTable_example = new_verifier-IsStaticTable spec app_only spec_accepted

abbrev web_key : ManagedKey
web_key = record {
  id = codes "web";
  digest_hex = codes "0000000000000000000000000000000000000000000000000000000000000000";
  expires_at = some 100;
  revoked_at = none;
}

replaced : (replace_managed app_only (web_key ∷ [])).1 ≡ none
unfolding replace_managed lookup build_managed add_managed validate_id contains str_eq decode_digest
    hex_decode
replaced = refl

replace_managed_installs_example :
    ((replace_managed app_only (web_key ∷ [])).0.static ≡ app_only.static)
    × IsManagedTable app_only.static (replace_managed app_only (web_key ∷ [])).0.managed
    × ((id : Str)
        → Answers id none
            (web_key ∷ [])
            (lookup id (replace_managed app_only (web_key ∷ [])).0.managed))
replace_managed_installs_example = replace_managed_installs app_only (web_key ∷ []) replaced

abbrev app_key : ManagedKey
app_key = record web_key { id = codes "app" }

replace_managed_cases_example :
    AreListable app_only.static (app_key ∷ [])
      × ((replace_managed app_only (app_key ∷ [])).1 ≡ none)
    ⊎ (¬ AreListable app_only.static (app_key ∷ [])
        × ((replace_managed app_only (app_key ∷ [])).1 ≢ none)
        × ((replace_managed app_only (app_key ∷ [])).0 ≡ app_only))
replace_managed_cases_example = replace_managed_cases app_only (app_key ∷ [])

keygen_accepted_example :
    (p : Printed) × (keygen hash (codes "app" ∷ []) (some (7 ∷ [])) ≡ printed p)
    × (v : Verifier) × (new_verifier p.entry ≡ ok v)
    × (verify_authorization hash v 50 (bearer ++ p.token) ≡ ok (codes "app"))
keygen_accepted_example =
    keygen_accepted hash (λ s. (omega arith, refl)) (codes "app") (7 ∷ []) 50
      (record {
        key_id = record { present = λ e. cc; no_dot = omega arith; no_colon = omega arith };
        graphic = omega arith;
        no_comma = omega arith;
      })
      (λ e. cc)

keygen_comma_rejected_example :
    (p : Printed) × (keygen hash (codes "a,b" ∷ []) (some (7 ∷ [])) ≡ printed p)
    × (new_verifier p.entry ≡ err (invalid_entry (codes "a")))
keygen_comma_rejected_example =
    keygen_comma_rejected hash (codes "a") (codes "b") (7 ∷ []) (λ e. cc) (omega arith)
      (omega arith) (omega arith) (omega arith) (omega arith)
