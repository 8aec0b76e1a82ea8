-- ===== src/AdminHttp/Promises.antt =====
-- What an answer of the admin API promises of the replica that gives it.
use geotagger.Prelude.{
  ℕ, ◌≡◌, ◌≢◌, refl, ap, ◌∙◌, Bool, true, false, not, String, List, [], ◌∷◌, ◌++◌, Option, none,
  some, Result, ok, err, is_some, if◌then◌else◌,
}
use geotagger.Text.Bytes.{Str}
use geotagger.Auth.{AuthError, Verifier, ManagedKey, bearer, verify_authorization, replace_managed}
use geotagger.Auth.Verify.{Before}
use geotagger.Keygen.RoundTrip.{IsDigest}
use geotagger.KeyStore.Records.{KeyRecord, Entry, StoreError}
use geotagger.KeyStore.Listing.{list_records}
use geotagger.KeyStore.Listed.{IsBucket, Stored}
use geotagger.KeyStore.Written.{IsJson}
use geotagger.KeyStore.Issued.{Holds}
use geotagger.AdminHttp.Server.{
  Session, Body, issued, revoked, error, store_error, metadata_error, status, keys, asset, plain,
  session, Response, World, Outside, ◌>>=◌,
}
use geotagger.AdminHttp.Actions.{set_header, write_json, log_mutation, call}
use geotagger.AdminHttp.Verdicts.{Quiet, IsPlain, IsRobust}
use geotagger.AdminHttp.Refreshed.{list_records-find_key}
use geotagger.AdminHttp.Handlers as Handlers

-- The bucket answers truly, JSON decodes what it encoded, a digest has 32 bytes, and the random
-- source gives at least one byte.
pub record IsSound {S : Type 0} (o : Outside S) (view : S → Str → Option Entry) : Type 0 where
  pub bucket : IsBucket o.kv view
  pub json : IsJson o.marshal o.unmarshal
  pub sized : (text : Str) → IsDigest (o.sha256 text)
  pub filled : (n : ℕ) → o.random n ≢ some []

module _ {S : Type 0} (o : Outside S) where
  -- A token is accepted until its key expires; a revoked key has no token that is accepted.
  unfoldable pub Kept : Verifier → Body → Type 0
  Kept auth (issued v token false) =
      (t : ℕ)
      → Before t v.expires_at
      → verify_authorization o.sha256 auth t (bearer ++ token) ≡ ok v.id
  Kept auth (revoked v false) =
      (header : Str) (t : ℕ) → verify_authorization o.sha256 auth t header ≢ ok v.id
  Kept auth (issued v token true) = Unit
  Kept auth (revoked v true) = Unit
  Kept auth (error text) = Unit
  Kept auth (store_error e) = Unit
  Kept auth (metadata_error e) = Unit
  Kept auth (session who) = Unit
  Kept auth (status view) = Unit
  Kept auth (keys views) = Unit
  Kept auth (asset content) = Unit
  Kept auth plain = Unit

  pub record Promised (w v : World S) : Type 0 where
    pub response : Response
    pub sent : v.sent ≡ w.sent ++ response ∷ []
    pub kept : Kept v.auth response.body

  Kept-plain : (auth : Verifier) (b : Body) → IsPlain b → Kept auth b
  unfolding Kept
  Kept-plain auth (error text) p = tt
  Kept-plain auth (store_error e) p = tt
  Kept-plain auth (metadata_error e) p = tt
  Kept-plain auth (session who) p = tt
  Kept-plain auth (status view) p = tt
  Kept-plain auth (keys views) p = tt
  Kept-plain auth (asset content) p = tt
  Kept-plain auth plain p = tt
  Kept-plain auth (issued v token pending) p = absurd p
  Kept-plain auth (revoked v pending) p = absurd p

  pub Quiet-Promised : (w v : World S) → Quiet w v → Promised w v
  Quiet-Promised w v q = record {
    response = q.response;
    sent = q.sent;
    kept = Kept-plain v.auth q.response.body q.plain;
  }

  pub Promised-from : (w u v : World S) → u.sent ≡ w.sent → Promised u v → Promised w v
  Promised-from w u v same p = record {
    response = p.response;
    sent = p.sent ∙ ap (λ l. l ++ p.response ∷ []) same;
    kept = p.kept;
  }

  pub Promised-IsRobust : IsRobust Promised
  Promised-IsRobust = record {
    of_quiet = Quiet-Promised;
    of_same = λ w u v a p. Promised-from w u v a.sent p;
  }

  module _ (view : S → Str → Option Entry) (sound : IsSound o view) where
    -- The end of a mutation, for a body that keeps its promise where the verifier holds the record.
    pub finish_mutation-Promised :
        (who : Session) (operation : String) (id : Str) (code : ℕ) (body : Bool → Body)
        (r : KeyRecord) (w : World S)
        → Stored o.kv view o.unmarshal w.bucket r
        → ((auth : Verifier) → Kept auth (body true))
        → ((submitted : List ManagedKey) (auth : Verifier)
            → Holds w.auth auth submitted r
            → Kept auth (body false))
        → Promised w (Handlers.finish_mutation o who operation id code body w).1
    unfolding Handlers.finish_mutation Handlers.refresh_verifier call Handlers.take_over
        log_mutation write_json set_header
    finish_mutation-Promised who operation id code body r w stored pending fresh =
        go (list_records o.kv o.unmarshal w.bucket).1 refl
      where
        after : World S
        after = record w { bucket = (list_records o.kv o.unmarshal w.bucket).0 }

        replaced :
            (submitted : List ManagedKey) (e : Verifier × Option AuthError)
            → replace_managed w.auth submitted ≡ e
            → ((replace_managed w.auth submitted ≡ (e.0, none)) → Holds w.auth e.0 submitted r)
            → Kept e.0 (body (not (not (is_some e.1))))
        replaced submitted (auth, none) same holds = fresh submitted auth (holds same)
        replaced submitted (auth, some e) same holds = pending auth

        go :
            (l : Result StoreError (List KeyRecord))
            → (list_records o.kv o.unmarshal w.bucket).1 ≡ l
            → Promised w
                ((Handlers.take_over o l >>= λ refreshed.
                    log_mutation who operation id
                      (if refreshed then "ok" else "stored_refresh_pending")
                    >>= λ _. write_json code (body (not refreshed)))
                  after).1
        go (err e) same = record { response = _; sent = refl; kept = pending w.auth }
        go (ok records) same = record {
          response = _;
          sent = refl;
          kept =
              replaced (Handlers.managed_keys records)
                (replace_managed w.auth (Handlers.managed_keys records)) refl
                (λ taken. record {
                  replaced = taken;
                  listed =
                      list_records-find_key o.kv view o.unmarshal sound.bucket w.bucket after.bucket
                        r records stored (ap (λ x. (after.bucket, x)) same);
                });
        }
