-- ===== src/Config/Values.antt =====
-- Settings as text, numbers, flags and durations. An environment gives the text of each variable,
-- empty where it is not set. time.ParseDuration is an argument.
use geotagger.Prelude.{
  ℕ, zero, suc, ◌+◌, ◌*◌, ◌-◌, ◌^◌, Bool, true, false, ◌&&◌, ◌||◌, String, List, [], ◌∷◌, Option,
  none, some, Result, ok, err, ltb, leb, ◌==◌, if◌then◌else◌,
}
use geotagger.Text.Bytes.{Str, codes, str_eq, is_empty}
use geotagger.NatsAudit.Stream.{ℤ, pos, negsuc}

abbrev pub Env : Type 0
Env = String → Str

pub data ConfigError : Type 0 where
  bad_value missing : String → ConfigError
  bad_ip_mode short_hmac_key access_half_configured : ConfigError
  not_positive : String → ConfigError

-- getenv
unfoldable pub getenv : Env → String → String → Str
getenv env key fallback = if is_empty (env key) then codes fallback else env key

-- The value of a number's digits, behind those that were read before.
unfoldable pub parse_digits : ℕ → Str → Option ℕ
parse_digits n [] = some n
parse_digits n (c ∷ s) =
    let rest = parse_digits (n * 10 + (c - b'0')) s in
    if leb b'0' c && leb c b'9' then rest else none

unfoldable pub parse_natural : Str → Option ℕ
unfolding parse_digits
parse_natural [] = none
parse_natural (c ∷ s) = parse_digits 0 (c ∷ s)

abbrev pub negate : ℕ → ℤ
negate zero = pos 0
negate (suc n) = negsuc n

-- A magnitude as an int64.
unfoldable pub signed : Bool → Option ℕ → Option ℤ
signed negative none = none
signed false (some n) = if ltb n (2 ^ 63) then some (pos n) else none
signed true (some n) = if leb n (2 ^ 63) then some (negate n) else none

-- strconv.ParseInt(s, 10, 64), and strconv.Atoi where an int has 64 bits.
unfoldable pub parse_int : Str → Option ℤ
unfolding parse_natural signed
parse_int [] = none
parse_int (c ∷ s) =
    if c == b'-'
    then signed true (parse_natural s)
    else if c == b'+'
    then signed false (parse_natural s)
    else signed false (parse_natural (c ∷ s))

unfoldable pub is_one_of : Str → List String → Bool
is_one_of s [] = false
is_one_of s (word ∷ words) = str_eq s (codes word) || is_one_of s words

-- strconv.ParseBool
unfoldable pub parse_bool : Str → Option Bool
unfolding is_one_of
parse_bool s =
    if is_one_of s ("1" ∷ "t" ∷ "T" ∷ "true" ∷ "TRUE" ∷ "True" ∷ [])
    then some true
    else if is_one_of s ("0" ∷ "f" ∷ "F" ∷ "false" ∷ "FALSE" ∷ "False" ∷ [])
    then some false
    else none

abbrev pub or_bad {ℓ} : {A : Type ℓ} → String → Option A → Result ConfigError A
or_bad key none = err (bad_value key)
or_bad key (some a) = ok a

-- intValue and int64Value
unfoldable pub int_value : Env → String → ℤ → Result ConfigError ℤ
unfolding parse_int
int_value env key fallback =
    if is_empty (env key) then ok fallback else or_bad key (parse_int (env key))

-- boolValue
unfoldable pub bool_value : Env → String → Bool → Result ConfigError Bool
unfolding parse_bool
bool_value env key fallback =
    if is_empty (env key) then ok fallback else or_bad key (parse_bool (env key))

-- duration, in nanoseconds
unfoldable pub duration : (Str → Option ℤ) → Env → String → ℤ → Result ConfigError ℤ
duration parse_duration env key fallback =
    if is_empty (env key) then ok fallback else or_bad key (parse_duration (env key))

unfoldable pub is_positive : ℤ → Bool
is_positive (pos n) = ltb 0 n
is_positive (negsuc n) = false
