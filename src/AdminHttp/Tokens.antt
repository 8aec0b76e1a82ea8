-- ===== src/AdminHttp/Tokens.antt =====
-- The tokens that the admin API hands out, and the keys that it reports as revoked.
use geotagger.Prelude.{
  ℕ, ◌≡◌, ◌≢◌, refl, sym, ◌∙◌, subst, inl, inr, false, List, [], ◌∷◌, ◌++◌, Option, none, some,
  Result, ok, err,
}
use geotagger.Text.Bytes.{Str}
use geotagger.Text.Trim.{trim_space}
use geotagger.Auth.{bearer, verify_authorization}
use geotagger.Auth.Verify.{Before}
use geotagger.KeyStore.Records.{KeyRecord, Entry, StoreError}
use geotagger.KeyStore.Listing.{list_records}
use geotagger.AdminHttp.Server.{
  Session, KeyView, issued, revoked, Response, Route, index, script, style, get_session, get_status,
  list_keys, create_key, rotate_key, revoke_key, unmatched, Request, World, Outside, Server, Action,
}
use geotagger.AdminHttp.Actions.{set_header, write_json, answer, call, tick, mutation_allowed}
use geotagger.AdminHttp.Checks.{mutation_allowed-cases}
use geotagger.AdminHttp.Mutations.{create_key_by, rotate_key_by, revoke_key_by}
use geotagger.AdminHttp.Issues.{create_checked-Promised, rotated-Promised, revoked-Promised}
use geotagger.AdminHttp.Promises.{
  IsSound, Kept, Promised, Quiet-Promised, Promised-from, Promised-IsRobust,
}
use geotagger.AdminHttp.Handlers as Handlers
use geotagger.AdminHttp.Routes.{dispatch, serve}
use geotagger.AdminHttp.Outcomes.{serve_by, serve_embedded-Quiet}

module _ {S : Type 0} (o : Outside S) (view : S → Str → Option Entry) (sound : IsSound o view) where
  mutation-Promised :
      (r : Request) (w : World S) (handler : Action S (Unit {0}))
      → (mutation_allowed r w ≡ (some tt, w) → Promised o w (handler w).1)
      → ((v : World S) → mutation_allowed r w ≡ (none, v) → handler w ≡ (none, v))
      → Promised o w (handler w).1
  mutation-Promised r w handler passed denied = elim (mutation_allowed-cases r w) [
    | inl (allows, allowed) ↦ passed allowed
    | inr (v, refused, q) ↦
        subst (λ x. Promised o w x.1) (sym (denied v refused)) (Quiet-Promised o w v q)
  ]

  dispatch-Promised :
      (s : Server) (route : Route) (who : Session) (r : Request) (w : World S)
      → Promised o w (dispatch s o route who r w).1
  unfolding dispatch Handlers.create_key Handlers.rotate_key Handlers.revoke_key
  dispatch-Promised s index who r w =
      Quiet-Promised o w _ (serve_embedded-Quiet s o "ui/index.html" "text/html; charset=utf-8" w)
  dispatch-Promised s script who r w =
      Quiet-Promised o w _ (serve_embedded-Quiet s o "ui/app.js" "text/javascript; charset=utf-8" w)
  dispatch-Promised s style who r w =
      Quiet-Promised o w _ (serve_embedded-Quiet s o "ui/style.css" "text/css; charset=utf-8" w)
  dispatch-Promised s get_session who r w =
      unfold write_json set_header Kept in record { response = _; sent = refl; kept = tt }
  dispatch-Promised s get_status who r w =
      unfold Handlers.get_status Handlers.now tick write_json set_header Kept in
      record { response = _; sent = refl; kept = tt }
  dispatch-Promised s list_keys who r w =
      unfold Handlers.list_keys call in listing (list_records o.kv o.unmarshal w.bucket).1
    where
      listing :
          (l : Result StoreError (List KeyRecord))
          → Promised o w
              (Handlers.send_keys o l
                (record w { bucket = (list_records o.kv o.unmarshal w.bucket).0 })).1
      listing (ok records) =
          unfold Handlers.send_keys Handlers.now tick answer write_json set_header Kept in
          record { response = _; sent = refl; kept = tt }
      listing (err e) =
          unfold Handlers.send_keys Handlers.now tick answer write_json set_header Kept in
          record { response = _; sent = refl; kept = tt }
  dispatch-Promised s create_key who r w =
      mutation-Promised r w (Handlers.create_key o s who r)
        (λ allowed.
          create_key_by o (Promised-IsRobust o) s who r w allowed
            (create_checked-Promised o view sound who))
        (λ v refused. rw refused refl)
  dispatch-Promised s (rotate_key path) who r w =
      mutation-Promised r w (Handlers.rotate_key o who path r)
        (λ allowed.
          rotate_key_by o (Promised-IsRobust o) who path r w allowed
            (rotated-Promised o view sound who (trim_space path)))
        (λ v refused. rw refused refl)
  dispatch-Promised s (revoke_key path) who r w =
      mutation-Promised r w (Handlers.revoke_key o s who path r)
        (λ allowed.
          revoke_key_by o (Promised-IsRobust o) s who path r w allowed
            (λ reason. revoked-Promised o view sound who reason (trim_space path)))
        (λ v refused. rw refused refl)
  dispatch-Promised s (unmatched code) who r w =
      unfold Kept in record { response = _; sent = refl; kept = tt }

  serve-Promised : (s : Server) (r : Request) (w : World S) → Promised o w (serve s o r w)
  serve-Promised s r w =
      serve_by s o r w (Promised o w) (λ v q. Quiet-Promised o w v q)
        (λ who u _ _ same. Promised-from o w u _ same.sent (dispatch-Promised s r.route who r u))

  serve-Kept :
      (s : Server) (r : Request) (w : World S) (response : Response)
      → (serve s o r w).sent ≡ w.sent ++ response ∷ []
      → Kept o (serve s o r w).auth response.body
  serve-Kept s r w response sent =
      let p = serve-Promised s r w in
      subst (λ x. Kept o (serve s o r w).auth x.body)
        (last_injective w.sent p.response response (sym p.sent ∙ sent)) p.kept
    where
      last_injective : (l : List Response) (a b : Response) → l ++ a ∷ [] ≡ l ++ b ∷ [] → a ≡ b
      last_injective [] a b e = cc
      last_injective (x ∷ l) a b e = last_injective l a b (cc e)

  -- Where the calls of the bucket answer truly and no other process writes between them, JSON
  -- decodes what it has encoded, a SHA-256 digest has 32 bytes and rand.Read gives at least one
  -- byte: if the admin API answers a request with a token and without the warning that the replica
  -- has not refreshed its verifier, the verifier that the request leaves accepts that token for the
  -- shown key at every instant before the key's expiry.
  pub serve_issued :
      (s : Server) (r : Request) (w : World S) (response : Response) (v : KeyView) (token : Str)
      (t : ℕ)
      → (serve s o r w).sent ≡ w.sent ++ response ∷ []
      → response.body ≡ issued v token false
      → Before t v.expires_at
      → verify_authorization o.sha256 (serve s o r w).auth t (bearer ++ token) ≡ ok v.id
  unfolding Kept
  serve_issued s r w response v token t sent body before =
      subst (Kept o (serve s o r w).auth) body (serve-Kept s r w response sent) t before

  -- Where the calls of the bucket answer truly and no other process writes between them, JSON
  -- decodes what it has encoded, a SHA-256 digest has 32 bytes and rand.Read gives at least one
  -- byte: if the admin API answers a request with a revoked key and without the
  -- warning that the replica has not refreshed its verifier, the verifier that the request leaves
  -- accepts no header for that key, at any instant.
  pub serve_revoked :
      (s : Server) (r : Request) (w : World S) (response : Response) (v : KeyView) (header : Str)
      (t : ℕ)
      → (serve s o r w).sent ≡ w.sent ++ response ∷ []
      → response.body ≡ revoked v false
      → verify_authorization o.sha256 (serve s o r w).auth t header ≢ ok v.id
  unfolding Kept
  serve_revoked s r w response v header t sent body =
      subst (Kept o (serve s o r w).auth) body (serve-Kept s r w response sent) header t
