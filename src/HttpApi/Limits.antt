-- ===== src/HttpApi/Limits.antt =====
-- The limit on the bodies that ipFromJSON reads.
use geotagger.Prelude.{
  ℕ, ◌+◌, ◌-◌, ◌^◌, ◌≤◌, ◌<◌, ◌≡◌, ◌⊎◌, inl, inr, refl, ap, ◌∙◌, false, [], ◌∷◌, Option, none, some,
  arith, ltb, leb, if◌then◌else◌, length, length-take, take, Bool-cases, leb→le, le→ltb_false,
}
use geotagger.Text.Bytes.{Str}
use geotagger.Net.{Addr, invalid}
use geotagger.HttpApi.Server.{Outside, Server, Request, malformed}
use geotagger.HttpApi.Actions.{refuse}
use geotagger.HttpApi.Handlers.{read_limit, read_body, ip_from_decoded, ip_from_json}

-- Where the limit is less than the greatest int64 and the body does not fail: a body within the
-- limit is read whole, and of a longer one exactly one byte more than the limit.
pub read_body_lem :
    (max : ℕ) (r : Request)
    → max < 2 ^ 63 - 1
    → r.body_fails ≡ false
    → ((length r.body ≤ max) × (read_body max r ≡ some r.body))
      ⊎ ((max < length r.body) × ((b : Str) × ((read_body max r ≡ some b) × (length b ≡ max + 1))))
unfolding read_body
read_body_lem max r small whole =
    let limit : read_limit max ≡ max + 1 = unfold read_limit in ground arith in
    elim (Bool-cases (leb (read_limit max) (length r.body))) [
      | inl over ↦ inr (
        omega (arith, leb→le (read_limit max) (length r.body) over, limit),
        (
          take (read_limit max) r.body,
          (
            rw over refl,
            omega (
              arith,
              length-take (read_limit max) r.body,
              limit,
              leb→le (read_limit max) (length r.body) over,
            ),
          ),
        ),
      )
      | inr within ↦ inl (ground (arith, limit), rw (within, whole) refl)
    ]

read_body_wrap : (r : Request) → read_body (2 ^ 63 - 1) r ≡ some []
unfolding read_body read_limit
read_body_wrap r = ground arith

module _ (s : Server) (o : Outside) where
  decode_empty :
      (id caller : Str) (body : Option Str) (max : ℕ)
      → body ≡ some []
      → o.decode_ip [] ≡ malformed
      → elim body [
        | none ↦
            refuse o s {A = Addr} id caller invalid "invalid_request" 400 "invalid request body"
        | some b ↦
            if ltb max (length b)
            then refuse o s id caller invalid "request_too_large" 413 "request body too large"
            else ip_from_decoded s o id caller (o.decode_ip b)
      ]
        ≡ refuse o s id caller invalid "invalid_request" 400 "body must be JSON with an ip field"
  decode_empty id caller none max e empty = cc
  decode_empty id caller (some (c ∷ b)) max e empty = cc
  decode_empty id caller (some []) max e empty =
      rw (le→ltb_false max 0 (omega arith))
        (ap (ip_from_decoded s o id caller) empty ∙ unfold ip_from_decoded in refl)

  -- A server whose limit is the greatest int64 reads nothing of any body: where the decoder refuses
  -- the empty text, each POST is refused as malformed.
  pub ip_from_json_greatest_limit :
      (id caller : Str) (r : Request)
      → s.max_body_bytes ≡ 2 ^ 63 - 1
      → o.decode_ip [] ≡ malformed
      → ip_from_json s o id caller r
        ≡ refuse o s id caller invalid "invalid_request" 400 "body must be JSON with an ip field"
  unfolding ip_from_json
  ip_from_json_greatest_limit id caller r greatest empty =
      decode_empty id caller (read_body s.max_body_bytes r) s.max_body_bytes
        (ap (λ max. read_body max r) greatest ∙ read_body_wrap r) empty
