-- ===== src/AdminHttp/Actions.antt =====
-- The steps that the handlers share: readings, responses, the log, the checks of a mutation, and
-- the decoding of a body.
use geotagger.Prelude.{
  ℕ, ◌+◌, ◌^◌, ◌-◌, Bool, true, false, ◌&&◌, not, String, [], ◌∷◌, ◌++◌, Option, none, some, Result,
  ltb, leb, ◌==◌, length, take, if◌then◌else◌,
}
use geotagger.Text.Bytes.{Str, codes, str_eq, is_empty}
use geotagger.Text.Trim.{trim_space}
use geotagger.Text.Dict.{insert}
use geotagger.KeyStore.Records.{StoreError}
use geotagger.KeyStore.Operations.{Store}
use geotagger.AdminHttp.Server.{
  Session, Decoded, malformed, decoded, Body, error, Request, Outside, Server, Action, give, stop,
  ◌>>◌,
}

module _ {S : Type 0} where
  unfoldable pub set_header : String → Str → Action S (Unit {0})
  set_header name value w = (some tt, record w { headers = insert (codes name) value w.headers })

  -- writeJSON
  unfoldable pub write_json : ℕ → Body → Action S (Unit {0})
  unfolding set_header
  write_json status body = do
    set_header "Content-Type" (codes "application/json")
    λ w. (
      some tt,
      record w {
        sent = w.sent ++ record { status = status; headers = w.headers; body = body } ∷ [];
      },
    )

  -- writeJSON and return
  unfoldable pub answer : {A : Type 0} → ℕ → Body → Action S A
  unfolding write_json
  answer status body = do write_json status body; stop

  unfoldable pub log_mutation : Session → String → Str → String → Action S (Unit {0})
  log_mutation session operation id outcome w = (
    some tt,
    record w {
      log =
          w.log
          ++ record {
            admin_email = session.email;
            operation = operation;
            key_id = id;
            outcome = outcome;
          }
            ∷ [];
    },
  )

  -- A method of the key store.
  unfoldable pub call : {A : Type 0} → Store S A → Action S (Result StoreError A)
  call method w = let r = method w.bucket in (some r.1, record w { bucket = r.0 })

  unfoldable pub tick : Action S ℕ
  tick w = (some w.readings, record w { readings = w.readings + 1 })

-- 'A' to 'Z' become 'a' to 'z'.
unfoldable pub lower : ℕ → ℕ
lower c = if leb b'A' c && leb c b'Z' then c + 32 else c

-- strings.ToLower, as far as it makes ASCII: besides the letters, U+0130 becomes i and U+212A k.
unfoldable pub to_lower : Str → Str
unfolding lower
to_lower [] = []
to_lower (a ∷ []) = lower a ∷ []
to_lower (a ∷ b ∷ []) = elim (a == 0xc4 && b == 0xb0) [
  | true ↦ b'i' ∷ []
  | false ↦ lower a ∷ to_lower (b ∷ [])
]
to_lower (a ∷ b ∷ c ∷ s) = elim (a == 0xc4 && b == 0xb0) [
  | true ↦ b'i' ∷ to_lower (c ∷ s)
  | false ↦ elim (a == 0xe2 && b == 0x84 && c == 0xaa) [
    | true ↦ b'k' ∷ to_lower s
    | false ↦ lower a ∷ to_lower (b ∷ c ∷ s)
  ]
]

-- site != "" && site != "same-origin" && site != "same-site"
unfoldable pub is_cross_site : Str → Bool
is_cross_site site =
    not (is_empty site)
    && not (str_eq site (codes "same-origin"))
    && not (str_eq site (codes "same-site"))

-- io.ReadAll of the body behind the limit, of which one is added as an int64.
unfoldable pub read_body : ℕ → Request → Option Str
read_body max r =
    let limit = if ltb max (2 ^ 63 - 1) then max + 1 else 0 in
    if leb limit (length r.body)
    then some (take limit r.body)
    else if r.body_fails
    then none
    else some r.body

module _ {S : Type 0} where
  unfoldable pub mutation_allowed : Request → Action S (Unit {0})
  unfolding is_cross_site to_lower answer
  mutation_allowed r =
      if not (str_eq r.csrf (codes "1"))
      then answer 403 (error "admin CSRF header required")
      else if is_cross_site (to_lower (trim_space r.sec_fetch_site))
      then answer 403 (error "cross-site admin mutation rejected")
      else give tt

  unfoldable pub decoded_json : {A : Type 0} → Decoded A → Action S A
  unfolding answer
  decoded_json malformed = answer 400 (error "invalid JSON body")
  decoded_json (decoded a true) = give a
  decoded_json (decoded a false) = answer 400 (error "body must contain one JSON object")

  unfoldable pub read_json : {A : Type 0} → Server → (Str → Decoded A) → Option Str → Action S A
  unfolding decoded_json
  read_json s decode none = answer 400 (error "invalid request body")
  read_json s decode (some body) =
      if ltb s.max_body_size (length body)
      then answer 413 (error "request body too large")
      else decoded_json (decode body)

  unfoldable pub decode_media :
      {A : Type 0} → Server → (Str → Decoded A) → Request → Option Str → Action S A
  unfolding read_json read_body
  decode_media s decode r none = answer 415 (error "Content-Type must be application/json")
  decode_media s decode r (some media) =
      if str_eq media (codes "application/json")
      then read_json s decode (read_body s.max_body_size r)
      else answer 415 (error "Content-Type must be application/json")

  unfoldable pub decode_json :
      {A : Type 0} → Outside S → Server → (Str → Decoded A) → Request → Action S A
  unfolding decode_media
  decode_json o s decode r = decode_media s decode r (o.media_type r.content_type)
