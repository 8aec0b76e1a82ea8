-- ===== src/AdminHttp/Outcomes.antt =====
-- What a request to the admin API can change, and how it is answered.
use geotagger.Prelude.{
  ◌+◌, ◌≡◌, refl, ap, ◌∙◌, if◌then◌else◌, inl, inr, Bool, true, false, String, List, [], ◌∷◌, ◌++◌,
  Option, none, some, Result, ok, err,
}
use geotagger.Text.Bytes.{Str, is_empty}
use geotagger.Text.Trim.{trim_space}
use geotagger.KeyStore.Records.{KeyRecord, StoreError}
use geotagger.KeyStore.Listing.{list_records}
use geotagger.AdminHttp.Server.{
  Session, error, Response, Route, index, script, style, get_session, get_status, list_keys,
  create_key, rotate_key, revoke_key, unmatched, Request, World, Outside, Server, ◌>>=◌,
}
use geotagger.AdminHttp.Actions.{set_header, write_json, answer, call, tick}
use geotagger.AdminHttp.Handlers as Handlers
use geotagger.AdminHttp.Routes.{dispatch, admit, require_access, secure_headers, serve}
use geotagger.AdminHttp.Verdicts.{Quiet, Same, Same-Quiet}
use geotagger.AdminHttp.Effects.{Settled, Settled-from}
use geotagger.AdminHttp.Checks.{Allows, mutation_allowed-cases}
use geotagger.AdminHttp.Guarded.{create_key-Settled, rotate_key-Settled, revoke_key-Settled}

-- The operation of a route that changes keys.
abbrev pub mutation_of : Route → Option String
mutation_of create_key = some "create"
mutation_of (rotate_key path) = some "rotate"
mutation_of (revoke_key path) = some "revoke"
mutation_of _ = none

module _ {S : Type 0} (s : Server) (o : Outside S) where
  -- The listing of the keys: one response.
  pub record Listed (w v : World S) : Type 0 where
    pub response : Response
    pub sent : v.sent ≡ w.sent ++ response ∷ []
    pub bucket : v.bucket ≡ (list_records o.kv o.unmarshal w.bucket).0
    pub auth : v.auth ≡ w.auth
    pub log : v.log ≡ w.log

  -- What a handler does for a session.
  pub data Outcome (who : Session) (r : Request) (w v : World S) : Type 0 where
    quiet : Quiet w v → Outcome who r w v
    listed : r.route ≡ list_keys → Listed w v → Outcome who r w v
    mutated :
        (operation : String)
        → mutation_of r.route ≡ some operation
        → Allows r
        → Settled o who operation w v
        → Outcome who r w v

  -- What a request leaves: an answer that changes nothing, or what a handler does for the session
  -- that Verify found for the request's token.
  pub data Guarded (r : Request) (w v : World S) : Type 0 where
    shut : Quiet w v → Guarded r w v
    opened :
        (who : Session)
        → s.configured ≡ true
        → o.access (trim_space r.access_jwt) (w.readings + 1) ≡ some who
        → Outcome who r w v
        → Guarded r w v

  create_key-Outcome :
      (who : Session) (r : Request) (w : World S)
      → r.route ≡ create_key
      → Outcome who r w (Handlers.create_key o s who r w).1
  create_key-Outcome who r w route = elim (mutation_allowed-cases r w) [
    | inl (allows, allowed) ↦
        mutated _ (ap mutation_of route) allows (create_key-Settled o s who r w allowed)
    | inr (v, denied, q) ↦ unfold Handlers.create_key in rw denied (quiet q)
  ]

  rotate_key-Outcome :
      (who : Session) (path : Str) (r : Request) (w : World S)
      → r.route ≡ rotate_key path
      → Outcome who r w (Handlers.rotate_key o who path r w).1
  rotate_key-Outcome who path r w route = elim (mutation_allowed-cases r w) [
    | inl (allows, allowed) ↦
        mutated _ (ap mutation_of route) allows (rotate_key-Settled o who path r w allowed)
    | inr (v, denied, q) ↦ unfold Handlers.rotate_key in rw denied (quiet q)
  ]

  revoke_key-Outcome :
      (who : Session) (path : Str) (r : Request) (w : World S)
      → r.route ≡ revoke_key path
      → Outcome who r w (Handlers.revoke_key o s who path r w).1
  revoke_key-Outcome who path r w route = elim (mutation_allowed-cases r w) [
    | inl (allows, allowed) ↦
        mutated _ (ap mutation_of route) allows (revoke_key-Settled o s who path r w allowed)
    | inr (v, denied, q) ↦ unfold Handlers.revoke_key in rw denied (quiet q)
  ]

  pub list_keys-Listed : (w : World S) → Listed w (Handlers.list_keys o w).1
  unfolding Handlers.list_keys call Handlers.send_keys Handlers.now tick answer write_json
      set_header
  list_keys-Listed w = go (list_records o.kv o.unmarshal w.bucket).1
    where
      go :
          (r : Result StoreError (List KeyRecord))
          → Listed w
              (Handlers.send_keys o r
                (record w { bucket = (list_records o.kv o.unmarshal w.bucket).0 })).1
      go (ok records) = record { response = _; sent = refl; bucket = refl; auth = refl; log = refl }
      go (err e) = record { response = _; sent = refl; bucket = refl; auth = refl; log = refl }

  pub serve_embedded-Quiet :
      (path content_type : String) (w : World S)
      → Quiet w (Handlers.serve_embedded o path content_type w).1
  unfolding Handlers.serve_embedded Handlers.send_asset Handlers.send_plain set_header
  serve_embedded-Quiet path content_type w = go (o.asset path)
    where
      go : (a : Option Str) → Quiet w (Handlers.send_asset o content_type a w).1
      go none = record {
        response = _;
        sent = refl;
        bucket = refl;
        auth = refl;
        log = refl;
        plain = tt;
      }
      go (some body) = record {
        response = _;
        sent = refl;
        bucket = refl;
        auth = refl;
        log = refl;
        plain = tt;
      }

  dispatch-Outcome :
      (route : Route) (who : Session) (r : Request) (w : World S)
      → r.route ≡ route
      → Outcome who r w (dispatch s o route who r w).1
  unfolding dispatch
  dispatch-Outcome index who r w same =
      quiet (serve_embedded-Quiet "ui/index.html" "text/html; charset=utf-8" w)
  dispatch-Outcome script who r w same =
      quiet (serve_embedded-Quiet "ui/app.js" "text/javascript; charset=utf-8" w)
  dispatch-Outcome style who r w same =
      quiet (serve_embedded-Quiet "ui/style.css" "text/css; charset=utf-8" w)
  dispatch-Outcome get_session who r w same =
      unfold write_json set_header in
      quiet
        (record { response = _; sent = refl; bucket = refl; auth = refl; log = refl; plain = tt })
  dispatch-Outcome get_status who r w same =
      unfold Handlers.get_status Handlers.now tick write_json set_header in
      quiet
        (record { response = _; sent = refl; bucket = refl; auth = refl; log = refl; plain = tt })
  dispatch-Outcome list_keys who r w same = listed same (list_keys-Listed w)
  dispatch-Outcome create_key who r w same = create_key-Outcome who r w same
  dispatch-Outcome (rotate_key path) who r w same = rotate_key-Outcome who path r w same
  dispatch-Outcome (revoke_key path) who r w same = revoke_key-Outcome who path r w same
  dispatch-Outcome (unmatched code) who r w same =
      quiet
        (record { response = _; sent = refl; bucket = refl; auth = refl; log = refl; plain = tt })

  Outcome-from :
      (who : Session) (r : Request) (w u v : World S)
      → Same w u
      → Outcome who r u v
      → Outcome who r w v
  Outcome-from who r w u v a (quiet q) = quiet (Same-Quiet w u v a q)
  Outcome-from who r w u v a (listed route l) = listed route (record {
    response = l.response;
    sent = l.sent ∙ ap (λ x. x ++ l.response ∷ []) a.sent;
    bucket = l.bucket ∙ ap (λ b. (list_records o.kv o.unmarshal b).0) a.bucket;
    auth = l.auth ∙ a.auth;
    log = l.log ∙ a.log;
  })
  Outcome-from who r w u v a (mutated operation route allows d) =
      mutated operation route allows (Settled-from o who operation w u v a d)

  -- The way of a request to its handler.
  pub serve_by :
      (r : Request) (w : World S) (P : World S → Type 0)
      → ((v : World S) → Quiet w v → P v)
      → ((who : Session) (u : World S)
          → s.configured ≡ true
          → o.access (trim_space r.access_jwt) (w.readings + 1) ≡ some who
          → Same w u
          → P (dispatch s o r.route who r u).1)
      → P (serve s o r w)
  unfolding serve secure_headers require_access set_header tick answer write_json admit
  serve_by r w P of_quiet of_session = gate s.configured (is_empty (trim_space r.access_jwt)) refl
    where
      under : World S
      under = (secure_headers s o (record w { headers = [] })).1

      before : World S
      before = record under { readings = w.readings + 1 + 1 }

      verified :
          s.configured ≡ true
          → (found : Option Session) → o.access (trim_space r.access_jwt) (w.readings + 1) ≡ found
          → P (admit s o r found before).1
      verified configured none same =
          of_quiet _ (record {
            response = _;
            sent = refl;
            bucket = refl;
            auth = refl;
            log = refl;
            plain = tt;
          })
      verified configured (some who) same =
          of_session who before configured same
            (record { bucket = refl; auth = refl; log = refl; sent = refl })

      gate :
          (configured absent : Bool)
          → s.configured ≡ configured
          → P
              ((if configured
                  then (if absent
                      then answer 401 (error "Cloudflare Access token required")
                      else tick >>= λ n. admit s o r (o.access (trim_space r.access_jwt) n))
                  else answer 503 (error "admin control plane is not configured"))
                under).1
      gate false absent same =
          of_quiet _ (record {
            response = _;
            sent = refl;
            bucket = refl;
            auth = refl;
            log = refl;
            plain = tt;
          })
      gate true true same =
          of_quiet _ (record {
            response = _;
            sent = refl;
            bucket = refl;
            auth = refl;
            log = refl;
            plain = tt;
          })
      gate true false same =
          verified same (o.access (trim_space r.access_jwt) (w.readings + 1)) refl

  -- A request to the admin API gets exactly one response. The keys, the verifier and the log stay
  -- as they were, unless the server is configured, Verify accepts the request's trimmed token, and
  -- the request is a listing, which changes neither the verifier nor the log, or goes to create,
  -- rotate or revoke with the CSRF header "1" and no cross-site fetch metadata. In the latter case,
  -- with no call of the store all three stay as they were; after a call of the route's own
  -- operation, Create, Rotate or Revoke, that failed the verifier and the log stay as they were;
  -- and after one that succeeded, whether or not the verifier could be refreshed, the log has
  -- exactly one entry more, with the session's e-mail, that operation and the id of the key of the
  -- call.
  pub serve-Guarded : (r : Request) (w : World S) → Guarded r w (serve s o r w)
  serve-Guarded r w =
      serve_by r w (Guarded r w) (λ v q. shut q)
        (λ who u configured verified same.
          opened who configured verified
            (Outcome-from who r w u _ same (dispatch-Outcome r.route who r u refl)))
