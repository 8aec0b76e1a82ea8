-- ===== src/AdminHttp/Routes.antt =====
-- The routes of the admin API behind requireAccess and secureHeaders.
use geotagger.Prelude.{ℕ, [], ◌∷◌, ◌++◌, Option, none, some, if◌then◌else◌}
use geotagger.Text.Bytes.{Str, codes, is_empty}
use geotagger.Text.Hex.{hex_encode}
use geotagger.Text.Trim.{trim_space}
use geotagger.AdminHttp.Server.{
  Session, error, session, plain, Route, index, script, style, get_session, get_status, list_keys,
  create_key, rotate_key, revoke_key, unmatched, Request, World, Outside, Server, Action, ◌>>=◌,
  ◌>>◌,
}
use geotagger.AdminHttp.Actions.{set_header, write_json, answer, tick}
use geotagger.AdminHttp.Handlers as Handlers

module _ {S : Type 0} (s : Server) (o : Outside S) where
  -- What ServeMux writes by itself for a path or a method that it has no route for.
  abbrev plain_status : ℕ → Action S (Unit {0})
  plain_status code w = (
    some tt,
    record w { sent = w.sent ++ record { status = code; headers = w.headers; body = plain } ∷ [] },
  )

  unfoldable pub dispatch : Route → Session → Request → Action S (Unit {0})
  unfolding Handlers.serve_embedded Handlers.get_status Handlers.list_keys Handlers.create_key
      Handlers.rotate_key Handlers.revoke_key write_json
  dispatch index who r = Handlers.serve_embedded o "ui/index.html" "text/html; charset=utf-8"
  dispatch script who r = Handlers.serve_embedded o "ui/app.js" "text/javascript; charset=utf-8"
  dispatch style who r = Handlers.serve_embedded o "ui/style.css" "text/css; charset=utf-8"
  dispatch get_session who r = write_json 200 (session who)
  dispatch get_status who r = Handlers.get_status o s
  dispatch list_keys who r = Handlers.list_keys o
  dispatch create_key who r = Handlers.create_key o s who r
  dispatch (rotate_key path) who r = Handlers.rotate_key o who path r
  dispatch (revoke_key path) who r = Handlers.revoke_key o s who path r
  dispatch (unmatched code) who r = plain_status code

  -- The answer of s.access.Verify, which may read the clock.
  unfoldable pub admit : Request → Option Session → Action S (Unit {0})
  unfolding dispatch answer
  admit r none = answer 401 (error "Cloudflare Access authorization failed")
  admit r (some who) = dispatch r.route who r

  unfoldable pub require_access : Request → Action S (Unit {0})
  unfolding admit answer tick
  require_access r =
      if s.configured
      then (do
        let token = trim_space r.access_jwt
        if is_empty token
            then answer 401 (error "Cloudflare Access token required")
            else (do n ← tick; admit r (o.access token n)))
      else answer 503 (error "admin control plane is not configured")

  -- requestID: from 16 random bytes, or from the time where the random source fails.
  unfoldable pub request_id : ℕ → Str
  request_id n = elim (o.random_16 n) [
    | none ↦ hex_encode (o.rfc3339_nano n)
    | some bytes ↦ hex_encode bytes
  ]

  -- What secureHeaders sets before it calls the handler.
  unfoldable pub secure_headers : Action S (Unit {0})
  unfolding request_id set_header tick
  secure_headers = do
    set_header "Cache-Control" (codes "no-store")
    set_header "Pragma" (codes "no-cache")
    set_header "X-Content-Type-Options" (codes "nosniff")
    set_header "X-Frame-Options" (codes "DENY")
    set_header "Referrer-Policy" (codes "no-referrer")
    set_header "Permissions-Policy"
        (codes "camera=(), microphone=(), geolocation=(), payment=(), usb=()")
    set_header "Content-Security-Policy" (
        codes
          "default-src 'none'; script-src 'self'; style-src 'self'; connect-src 'self'; img-src 'self' data:; base-uri 'none'; frame-ancestors 'none'; form-action 'self'")
    n ← tick
    set_header "X-Request-ID" (request_id n)

  -- Handler on one request, over headers that are still empty.
  unfoldable pub serve : Request → World S → World S
  unfolding secure_headers require_access
  serve r w = ((secure_headers >> require_access r) (record w { headers = [] })).1
