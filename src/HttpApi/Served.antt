-- ===== src/HttpApi/Served.antt =====
-- One request to the API from end to end.
use geotagger.Prelude.{
  ℕ, ◌+◌, ◌≡◌, ◌≢◌, refl, ◌∙◌, false, [], ◌∷◌, Option, none, some, Option-cases, inl, inr,
}
use geotagger.Text.Bytes.{Str, codes, str_eq, is_empty}
use geotagger.Text.Dict.{lookup, insert}
use geotagger.Text.Hex.{hex_encode}
use geotagger.Auth.{verify_authorization}
use geotagger.HttpApi.Server.{
  Outside, Server, Request, Route, country, lookup_post, lookup_get, me, unmatched, World,
}
use geotagger.HttpApi.Routes.{dispatch, open_request, close_request, serve}
use geotagger.HttpApi.Answered.{header_id, Answered, Untouched}
use geotagger.HttpApi.Ends.{Ends, Looks-same, Answered-after, Answered-then}
use geotagger.HttpApi.Audited.{caller_of, verdict}
use geotagger.HttpApi.RouteEnds.{
  serve_country-Ends, serve_lookup_post-Ends, serve_lookup_get-Ends, serve_me-Ends,
}

-- A route of the API, and not an answer that ServeMux gives by itself.
abbrev pub IsKnown : Route → Type 0
IsKnown (unmatched status) = ⊥
IsKnown _ = Unit

-- rand.Read fills its buffer of 16 bytes, and a printed time is not empty.
pub record MakesIds (o : Outside) : Type 0 where
  pub random : (n : ℕ) (bytes : Str) → o.random_bytes n ≡ some bytes → bytes ≢ []
  pub time : (t : ℕ) → o.rfc3339_nano t ≢ []

hex_encode-ne-nil : (s : Str) → s ≢ [] → is_empty (hex_encode s) ≡ false
unfolding hex_encode
hex_encode-ne-nil [] h = absurd (h refl)
hex_encode-ne-nil (c ∷ s) h = refl

-- The id that the middleware makes with the n-th reading.
unfoldable pub made_id : Outside → ℕ → Str
made_id o n = elim (o.random_bytes n) [
  | none ↦ hex_encode (o.rfc3339_nano (o.clock n))
  | some bytes ↦ hex_encode bytes
]

pub made_id-ne-nil : (o : Outside) (n : ℕ) → MakesIds o → is_empty (made_id o n) ≡ false
unfolding made_id
made_id-ne-nil o n makes = elim (Option-cases (o.random_bytes n)) [
  | inl broken ↦ rw (broken, made_id) (hex_encode-ne-nil _ (makes.time (o.clock n)))
  | inr (bytes, read) ↦ rw (read, made_id) (hex_encode-ne-nil bytes (makes.random n bytes read))
]

-- The world with that id as the X-Request-ID of the response, and no other header yet.
abbrev pub with_id : Str → World → World
with_id id w = record w { headers = (codes "X-Request-ID", id) ∷ [] }

-- The world in which the handler is called.
unfoldable pub opened : Outside → World → World
unfolding open_request
opened o w = (open_request o (record w { headers = [] })).1

module _ (s : Server) (o : Outside) where
  dispatch-Ends :
      (id : Str) (r : Request) (w : World) (route : Route)
      → is_empty id ≡ false
      → IsKnown route
      → Ends s id (caller_of (verdict s o r.authorization w)) (λ _. ⊥) w (dispatch s o route id r w)
  unfolding dispatch
  dispatch-Ends id r w country some_id _ = serve_country-Ends s o id some_id r w
  dispatch-Ends id r w lookup_post some_id _ = serve_lookup_post-Ends s o id some_id r w
  dispatch-Ends id r w lookup_get some_id _ = serve_lookup_get-Ends s o id some_id r w
  dispatch-Ends id r w me some_id _ = serve_me-Ends s o id some_id r w
  dispatch-Ends id r w (unmatched status) some_id known = absurd known

  Ends-Answered :
      {id caller : Str} {w : World} (r : Option (Unit {0}) × World)
      → Ends s id caller (λ _. ⊥) w r
      → Answered s id caller w r.1
  Ends-Answered (none, w') e = e.at
  Ends-Answered (some a, w') e = absurd e.at.1

  pub serve_lem :
      (r : Request) (w : World)
      → serve s o r w
        ≡ (close_request o
            (o.clock w.readings)
            (dispatch s o r.route (made_id o (w.readings + 1)) r (opened o w)).1).1
  unfolding serve opened made_id
  serve_lem r w = refl

  opened_id : (w : World) → header_id (opened o w).headers ≡ some (made_id o (w.readings + 1))
  unfolding opened made_id lookup insert str_eq
  opened_id w = refl

  opened-Untouched : (w : World) → Untouched s (with_id (made_id o (w.readings + 1)) w) (opened o w)
  opened-Untouched w = record {
    audits = unfold opened in refl;
    sent = unfold opened in refl;
    labelled = opened_id w ∙ unfold lookup str_eq in refl;
    looks = unfold opened in Looks-same s (with_id _ w) _ refl;
  }

  close_request-Untouched : (started : ℕ) (w : World) → Untouched s w (close_request o started w).1
  unfolding close_request
  close_request-Untouched started w = record {
    audits = refl;
    sent = refl;
    labelled = refl;
    looks = Looks-same s w _ refl;
  }

  -- Where random bytes and printed times are not empty: every request to a route of the API,
  -- however it is answered, publishes exactly one audit event and writes exactly one response. The
  -- event and the response's header X-Request-ID bear the same id, which is the hexadecimal form of
  -- the random bytes of the request's second reading, or of the printed time of that reading where
  -- there are none; and the event names the caller whom the Authorization header authenticates at
  -- the third reading, or "unauthenticated". The response has the event's status, and a 200 is
  -- written only if the event was accepted; or the event was not accepted and the response is 503.
  -- Addresses that the server does not allow are not looked up.
  pub serve-Answered :
      (r : Request) (w : World)
      → MakesIds o
      → IsKnown r.route
      → Answered s
          (made_id o (w.readings + 1))
          (caller_of
            (verify_authorization o.sha256 s.auth (o.clock (w.readings + 1 + 1)) r.authorization))
          (with_id (made_id o (w.readings + 1)) w)
          (serve s o r w)
  unfolding opened
  serve-Answered r w makes known =
      let id : Str = made_id o (w.readings + 1) in
      let some_id = made_id-ne-nil o (w.readings + 1) makes in
      let answered = Ends-Answered _ (dispatch-Ends id r (opened o w) r.route some_id known) in
      rw serve_lem (
        Answered-then (Answered-after (opened-Untouched w) answered)
          (close_request-Untouched (o.clock w.readings) _))
