-- ===== src/Config/Bounds.antt =====
-- The settings that a process starts with.
use geotagger.Prelude.{
  ℕ, ◌^◌, ◌≤◌, ◌<◌, ◌≡◌, ◌≢◌, refl, sym, ap, ◌∙◌, subst, ◌⊎◌, inl, inr, ◌↔◌, Bool, true, false,
  ◌&&◌, ◌||◌, not, String, [], ◌∷◌, Option, none, some, Result, ok, >>=-eq-ok, guard-eq-ok,
  some-injective, some-ne-none, ltb→lt, leb→le, zero, suc, ◌==◌, ltb, leb, length, Bool-cases,
  arith,
}
use geotagger.Text.Bytes.{Str, codes, str_eq, str_eq_iff, is_empty}
use geotagger.NatsAudit.Stream.{ℤ, pos, negsuc}
use geotagger.Config.Values.{
  Env, ConfigError, parse_natural, signed, parse_int, negate, or_bad, int_value, bool_value,
  duration, is_positive, is_one_of,
}
use geotagger.Config.Load.{ApiConfig, api_config, check_api, load_api, milliseconds}

-- A positive number of 63 bits.
pub record IsCount (z : ℤ) : Type 0 where
  pub size : ℕ
  pub is : z ≡ pos size
  pub positive : 0 < size
  pub small : size < 2 ^ 63

-- What the API relies on in its configuration.
pub record IsUsable (c : ApiConfig) : Type 0 where
  pub api_keys : c.api_keys ≢ []
  pub ip_mode :
      (c.audit_ip_mode ≡ codes "hmac") × (32 ≤ length c.audit_hmac_key)
      ⊎ ((c.audit_ip_mode ≡ codes "raw") ⊎ (c.audit_ip_mode ≡ codes "omit"))
  pub max_body : IsCount c.max_body_bytes
  pub audit_timeout : (n : ℕ) × (c.audit_timeout ≡ pos n) × (0 < n)
  pub access : (c.cf_access_team_domain ≡ []) ↔ (c.cf_access_audience ≡ [])

-- A number of 63 bits and a sign.
abbrev pub IsInt64 : ℤ → Type 0
IsInt64 (pos n) = n < 2 ^ 63
IsInt64 (negsuc n) = n < 2 ^ 63

signed-IsInt64 : (b : Bool) (o : Option ℕ) (z : ℤ) → signed b o ≡ some z → IsInt64 z
unfolding signed
signed-IsInt64 b none z h = absurd (cc h)
signed-IsInt64 false (some n) z h = elim (Bool-cases (ltb n (2 ^ 63))) [
  | inl small ↦ subst IsInt64 (some-injective (rw small at h)) (ltb→lt n (2 ^ 63) small)
  | inr large ↦ absurd (some-ne-none (sym (rw large at h)))
]
signed-IsInt64 true (some n) z h = elim (Bool-cases (leb n (2 ^ 63))) [
  | inl small ↦ subst IsInt64 (some-injective (rw small at h)) (below n (leb→le n (2 ^ 63) small))
  | inr large ↦ absurd (some-ne-none (sym (rw large at h)))
]
  where
    below : (n : ℕ) → n ≤ 2 ^ 63 → IsInt64 (negate n)
    below zero h = omega arith
    below (suc n) h = omega (arith, h)

parse_int-IsInt64 : (s : Str) (z : ℤ) → parse_int s ≡ some z → IsInt64 z
unfolding parse_int
parse_int-IsInt64 [] z h = absurd (cc h)
parse_int-IsInt64 (c ∷ s) z h = elim (Bool-cases (c == b'-')) [
  | inl minus ↦ signed-IsInt64 true (parse_natural s) z (rw minus at h)
  | inr other ↦ elim (Bool-cases (c == b'+')) [
    | inl plus ↦ signed-IsInt64 false (parse_natural s) z (rw (other, plus) at h)
    | inr digit ↦ signed-IsInt64 false (parse_natural (c ∷ s)) z (rw (other, digit) at h)
  ]
]

pub int_value-IsInt64 :
    (env : Env) (key : String) (fallback z : ℤ)
    → IsInt64 fallback
    → int_value env key fallback ≡ ok z
    → IsInt64 z
unfolding int_value
int_value-IsInt64 env key fallback z fits h = elim (Bool-cases (is_empty (env key))) [
  | inl unset ↦ subst IsInt64 (ok-injective (rw unset at h)) fits
  | inr set ↦ parsed (parse_int (env key)) refl (rw set at h)
]
  where
    ok-injective : {a b : ℤ} → ◌≡◌ {A = Result ConfigError ℤ} (ok a) (ok b) → a ≡ b
    ok-injective e = cc

    parsed : (o : Option ℤ) → parse_int (env key) ≡ o → or_bad key o ≡ ok z → IsInt64 z
    parsed none same h' = absurd (cc h')
    parsed (some y) same h' = parse_int-IsInt64 (env key) z (same ∙ ap some (ok-injective h'))

pub is_positive_lem : (z : ℤ) → not (is_positive z) ≡ false → (n : ℕ) × (z ≡ pos n) × (0 < n)
unfolding is_positive
is_positive_lem (pos n) h = (n, refl, ground arith)
is_positive_lem (negsuc n) h = absurd (cc h)

is_empty_iff : (s : Str) → (is_empty s ≡ true) ↔ (s ≡ [])
is_empty_iff [] = (λ _. refl, λ _. refl)
is_empty_iff (x ∷ s) = (λ h. absurd (cc h), λ h. absurd (cc h))

ip_mode_lem :
    (c : ApiConfig)
    → not (is_one_of c.audit_ip_mode ("hmac" ∷ "raw" ∷ "omit" ∷ [])) ≡ false
    → (str_eq c.audit_ip_mode (codes "hmac") && ltb (length c.audit_hmac_key) 32) ≡ false
    → (c.audit_ip_mode ≡ codes "hmac") × (32 ≤ length c.audit_hmac_key)
      ⊎ ((c.audit_ip_mode ≡ codes "raw") ⊎ (c.audit_ip_mode ≡ codes "omit"))
unfolding is_one_of
ip_mode_lem c known keyed = elim (Bool-cases (str_eq c.audit_ip_mode (codes "hmac"))) [
  | inl hmac ↦ inl ((str_eq_iff c.audit_ip_mode (codes "hmac")).0 hmac, ground arith)
  | inr other ↦ elim (Bool-cases (str_eq c.audit_ip_mode (codes "raw"))) [
    | inl raw ↦ inr (inl ((str_eq_iff c.audit_ip_mode (codes "raw")).0 raw))
    | inr not_raw ↦ inr (inr ((str_eq_iff c.audit_ip_mode (codes "omit")).0 (ground arith)))
  ]
]

pair_iff :
    (s t : Str)
    → ((is_empty s && not (is_empty t)) || (not (is_empty s) && is_empty t)) ≡ false
    → (s ≡ []) ↔ (t ≡ [])
pair_iff [] [] h = (λ _. refl, λ _. refl)
pair_iff [] (y ∷ t) h = absurd (cc h)
pair_iff (x ∷ s) [] h = absurd (cc h)
pair_iff (x ∷ s) (y ∷ t) h = (λ e. absurd (cc e), λ e. absurd (cc e))

check_api-IsUsable : (c d : ApiConfig) → IsInt64 c.max_body_bytes → check_api c ≡ ok d → IsUsable d
unfolding check_api
check_api-IsUsable c d fits h =
    let (keys, h₁) = guard-eq-ok (is_empty c.api_keys) _ _ h in
    let (bucket, h₂) = guard-eq-ok (is_empty c.managed_key_bucket) _ _ h₁ in
    let (paths, h₃) = guard-eq-ok (is_empty c.city_mmdb_path || is_empty c.asn_mmdb_path) _ _ h₂ in
    let (mode, h₄) =
      guard-eq-ok (not (is_one_of c.audit_ip_mode ("hmac" ∷ "raw" ∷ "omit" ∷ []))) _ _ h₃ in
    let (keyed, h₅) =
      guard-eq-ok (str_eq c.audit_ip_mode (codes "hmac") && ltb (length c.audit_hmac_key) 32) _ _
        h₄ in
    let (body, h₆) = guard-eq-ok (not (is_positive c.max_body_bytes)) _ _ h₅ in
    let (timeout, h₇) = guard-eq-ok (not (is_positive c.audit_timeout)) _ _ h₆ in
    let (access, last) =
      guard-eq-ok
        ((is_empty c.cf_access_team_domain && not (is_empty c.cf_access_audience))
          || (not (is_empty c.cf_access_team_domain) && is_empty c.cf_access_audience))
        _ _ h₇ in
    let (n, is, positive) = is_positive_lem c.max_body_bytes body in
    subst IsUsable (ok-injective last) (record {
      api_keys = λ e. cc (ap is_empty e, keys);
      ip_mode = ip_mode_lem c mode keyed;
      max_body = record { size = n; is = is; positive = positive; small = subst IsInt64 is fits };
      audit_timeout = is_positive_lem c.audit_timeout timeout;
      access = pair_iff c.cf_access_team_domain c.cf_access_audience access;
    })
  where
    ok-injective : {a b : ApiConfig} → ◌≡◌ {A = Result ConfigError ApiConfig} (ok a) (ok b) → a ≡ b
    ok-injective e = cc

-- A configuration that LoadAPI returns has static keys; an audit mode that is raw, omit, or hmac
-- with a key of at least 32 bytes; a limit on bodies that is positive and an int64; a positive
-- audit timeout; and the team domain of Cloudflare Access exactly if it has the audience.
pub load_api-IsUsable :
    (parse_duration : Str → Option ℤ) (env : Env) (c : ApiConfig)
    → load_api parse_duration env ≡ ok c
    → IsUsable c
unfolding load_api api_config
load_api-IsUsable parse_duration env c h =
    let (reload, read₁, h₁) =
      >>=-eq-ok (duration parse_duration env "MMDB_RELOAD_INTERVAL" (milliseconds 300000)) _ h in
    let (timeout, read₂, h₂) =
      >>=-eq-ok (duration parse_duration env "AUDIT_TIMEOUT" (milliseconds 50)) _ h₁ in
    let (shutdown, read₃, h₃) =
      >>=-eq-ok (duration parse_duration env "SHUTDOWN_TIMEOUT" (milliseconds 10000)) _ h₂ in
    let (body, read₄, h₄) = >>=-eq-ok (int_value env "MAX_BODY_BYTES" (pos 1024)) _ h₃ in
    let (private, read₅, h₅) = >>=-eq-ok (bool_value env "ALLOW_PRIVATE_IPS" false) _ h₄ in
    check_api-IsUsable (api_config env reload timeout shutdown body private) c
      (int_value-IsInt64 env "MAX_BODY_BYTES" (pos 1024) body (omega arith) read₄) h₅
