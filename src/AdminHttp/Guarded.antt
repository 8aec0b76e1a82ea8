-- ===== src/AdminHttp/Guarded.antt =====
-- The handlers that change keys, behind mutationAllowed: one response, and a log that says who did
-- it.
use geotagger.Prelude.{
  ℕ, ◌+◌, ◌≡◌, refl, Bool, not, List, none, some, Result, ok, err, if◌then◌else◌,
}
use geotagger.Text.Bytes.{Str}
use geotagger.Text.Trim.{trim_space}
use geotagger.KeyStore.Records.{KeyRecord, CreateInput, StoreError}
use geotagger.KeyStore.Operations.{rotate, revoke}
use geotagger.KeyStore.Listing.{list_records}
use geotagger.AdminHttp.Server.{Session, Body, Request, World, Outside, Server, ◌>>=◌}
use geotagger.AdminHttp.Actions.{
  set_header, write_json, answer, log_mutation, call, tick, mutation_allowed,
}
use geotagger.AdminHttp.Effects.{
  StoreCall, create_call, rotate_call, revoke_call, operation_of, key_of, error_of, called, failed,
  stored, Settled, Settled-IsRobust,
}
use geotagger.AdminHttp.Mutations.{create_key_by, rotate_key_by, revoke_key_by}
use geotagger.AdminHttp.Handlers as Handlers

module _ {S : Type 0} (o : Outside S) where
  -- The world behind a call that left that bucket.
  abbrev behind : World S → S → ℕ → World S
  behind w bucket n = record w { readings = n; bucket = bucket }

  finish_mutation-Settled :
      (who : Session) (c : StoreCall) (code : ℕ) (body : Bool → Body) (w : World S) (bucket : S)
      (n : ℕ)
      → called o c w.bucket ≡ (bucket, none)
      → Settled o who
          (operation_of c)
          w
          (Handlers.finish_mutation o who
            (operation_of c)
            (key_of c)
            code
            body
            (behind w bucket n)).1
  unfolding Handlers.finish_mutation Handlers.refresh_verifier call Handlers.take_over log_mutation
      write_json set_header
  finish_mutation-Settled who c code body w bucket n done =
      go (list_records o.kv o.unmarshal bucket).1
    where
      go :
          (r : Result StoreError (List KeyRecord))
          → Settled o who
              (operation_of c)
              w
              ((Handlers.take_over o r >>= λ refreshed.
                  log_mutation who
                    (operation_of c)
                    (key_of c)
                    (if refreshed then "ok" else "stored_refresh_pending")
                  >>= λ _. write_json code (body (not refreshed)))
                (behind w (list_records o.kv o.unmarshal bucket).0 n)).1
      go (ok records) = record {
        response = _;
        sent = refl;
        effect = stored c bucket _ refl done refl refl;
      }
      go (err e) = record {
        response = _;
        sent = refl;
        effect = stored c bucket _ refl done refl refl;
      }

  send_issued-Settled :
      (who : Session) (c : StoreCall) (code : ℕ) (r : Result StoreError (KeyRecord × Str))
      (w : World S) (bucket : S) (n : ℕ)
      → called o c w.bucket ≡ (bucket, error_of r)
      → Settled o who
          (operation_of c)
          w
          (Handlers.send_issued o who (operation_of c) (key_of c) code r (behind w bucket n)).1
  unfolding Handlers.send_issued Handlers.now tick
  send_issued-Settled who c code (ok (r, token)) w bucket n done =
      finish_mutation-Settled who c code
        (λ pending. Body.issued (Handlers.view (o.clock n) r) token pending) w bucket (n + 1) done
  send_issued-Settled who c code (err e) w bucket n done =
      unfold answer write_json set_header in
      record { response = _; sent = refl; effect = failed c e refl done refl refl }

  send_revoked-Settled :
      (who : Session) (now : ℕ) (reason id : Str) (r : Result StoreError KeyRecord) (w : World S)
      (bucket : S) (n : ℕ)
      → called o (revoke_call now reason id) w.bucket ≡ (bucket, error_of r)
      → Settled o who "revoke" w (Handlers.send_revoked o who id r (behind w bucket n)).1
  unfolding Handlers.send_revoked Handlers.now tick
  send_revoked-Settled who now reason id (ok r) w bucket n done =
      finish_mutation-Settled who (revoke_call now reason id) 200
        (λ pending. Body.revoked (Handlers.view (o.clock n) r) pending) w bucket (n + 1) done
  send_revoked-Settled who now reason id (err e) w bucket n done =
      unfold answer write_json set_header in
      record {
        response = _;
        sent = refl;
        effect = failed (revoke_call now reason id) e refl done refl refl;
      }

  create_checked-Settled :
      (who : Session) (input : CreateInput) (w : World S)
      → Settled o who "create" w (Handlers.create_checked o who input w).1
  unfolding Handlers.create_checked call tick
  create_checked-Settled who input w =
      send_issued-Settled who (create_call (o.clock w.readings) (o.random w.readings) input) 201 _ w
        _ (w.readings + 1) refl

  rotated-Settled :
      (who : Session) (id : Str) (w : World S)
      → Settled o who "rotate" w
          ((tick >>= λ n.
              call (rotate o.kv o.sha256 o.marshal o.unmarshal (o.clock n) (o.random n) id)
              >>= λ made. Handlers.send_issued o who "rotate" id 200 made)
            w).1
  unfolding call tick
  rotated-Settled who id w =
      send_issued-Settled who (rotate_call (o.clock w.readings) (o.random w.readings) id) 200 _ w _
        (w.readings + 1) refl

  revoked-Settled :
      (who : Session) (reason id : Str) (w : World S)
      → Settled o who "revoke" w
          ((tick >>= λ n.
              call (revoke o.kv o.sha256 o.marshal o.unmarshal (o.clock n) reason id) >>= λ done.
              Handlers.send_revoked o who id done)
            w).1
  unfolding call tick
  revoked-Settled who reason id w =
      send_revoked-Settled who (o.clock w.readings) reason id _ w _ (w.readings + 1) refl

  pub create_key-Settled :
      (s : Server) (who : Session) (r : Request) (w : World S)
      → mutation_allowed r w ≡ (some tt, w)
      → Settled o who "create" w (Handlers.create_key o s who r w).1
  create_key-Settled s who r w allowed =
      create_key_by o (Settled-IsRobust o who "create") s who r w allowed
        (create_checked-Settled who)

  pub rotate_key-Settled :
      (who : Session) (path : Str) (r : Request) (w : World S)
      → mutation_allowed r w ≡ (some tt, w)
      → Settled o who "rotate" w (Handlers.rotate_key o who path r w).1
  rotate_key-Settled who path r w allowed =
      rotate_key_by o (Settled-IsRobust o who "rotate") who path r w allowed
        (rotated-Settled who (trim_space path))

  pub revoke_key-Settled :
      (s : Server) (who : Session) (path : Str) (r : Request) (w : World S)
      → mutation_allowed r w ≡ (some tt, w)
      → Settled o who "revoke" w (Handlers.revoke_key o s who path r w).1
  revoke_key-Settled s who path r w allowed =
      revoke_key_by o (Settled-IsRobust o who "revoke") s who path r w allowed
        (λ reason. revoked-Settled who reason (trim_space path))
