-- ===== src/AdminHttp/Issues.antt =====
-- Create, rotate and revoke keep what their answers promise.
use geotagger.Prelude.{ℕ, ◌+◌, ◌≡◌, ◌≢◌, refl, ap, ◌∙◌, String, [], Option, some, Result, ok, err}
use geotagger.Text.Bytes.{Str}
use geotagger.KeyStore.Records.{KeyRecord, CreateInput, Entry, StoreError}
use geotagger.KeyStore.Operations.{create, rotate, revoke}
use geotagger.KeyStore.Inversion.{Issued, create-Issued}
use geotagger.KeyStore.Changed.{rotate-Issued, revoke_sound}
use geotagger.KeyStore.Listed.{Stored}
use geotagger.KeyStore.Written.{create-Stored}
use geotagger.KeyStore.Rewritten.{rotate-Stored, revoke-Stored}
use geotagger.KeyStore.Issued.{Issued-accepted, revoke_refused}
use geotagger.AdminHttp.Server.{Session, issued, revoked, World, Outside, ◌>>=◌}
use geotagger.AdminHttp.Actions.{set_header, write_json, answer, call, tick}
use geotagger.AdminHttp.Promises.{IsSound, Kept, Promised, Promised-from, finish_mutation-Promised}
use geotagger.AdminHttp.Handlers as Handlers

module _ {S : Type 0} (o : Outside S) (view : S → Str → Option Entry) (sound : IsSound o view) where
  keyed : (id : Str) (s t : S) (e : Entry) → o.kv.get id s ≡ (t, ok e) → e.key ≡ id
  keyed id s t e got = sound.bucket.keyed s id e (sound.bucket.found id s t e got).1

  send_issued-Promised :
      (who : Session) (operation : String) (id : Str) (code : ℕ) (random : Option Str)
      (made : Result StoreError (KeyRecord × Str)) (w : World S)
      → random ≢ some []
      → ((r : KeyRecord) (token : Str)
          → made ≡ ok (r, token)
          → Issued o.sha256 random r token × Stored o.kv view o.unmarshal w.bucket r)
      → Promised o w (Handlers.send_issued o who operation id code made w).1
  unfolding Handlers.send_issued Handlers.now tick Kept Handlers.view
  send_issued-Promised who operation id code random (ok (r, token)) w filled facts =
      let (is, stored) = facts r token refl in
      Promised-from o w _ _ refl (
        finish_mutation-Promised o view sound who operation id code
          (λ pending. issued (Handlers.view (o.clock w.readings) r) token pending) r
          (record w { readings = w.readings + 1 }) stored (λ auth. tt)
          (λ submitted auth holds t before.
            Issued-accepted o.sha256 sound.sized w.auth auth submitted random r token t filled is
              holds before))
  send_issued-Promised who operation id code random (err e) w filled facts =
      unfold answer write_json set_header in record { response = _; sent = refl; kept = tt }

  send_revoked-Promised :
      (who : Session) (id : Str) (done : Result StoreError KeyRecord) (w : World S) (now : ℕ)
      (reason : Str) (s : S)
      → revoke o.kv o.sha256 o.marshal o.unmarshal now reason id s ≡ (w.bucket, done)
      → Promised o w (Handlers.send_revoked o who id done w).1
  unfolding Handlers.send_revoked Handlers.now tick Kept Handlers.view
  send_revoked-Promised who id (ok r) w now reason s h =
      let (dead, same, how) =
        revoke_sound o.kv o.sha256 o.marshal o.unmarshal keyed now reason id s w.bucket r h in
      Promised-from o w _ _ refl (
        finish_mutation-Promised o view sound who "revoke" id 200
          (λ pending. revoked (Handlers.view (o.clock w.readings) r) pending) r
          (record w { readings = w.readings + 1 })
          (revoke-Stored o.kv view o.sha256 o.marshal o.unmarshal sound.bucket sound.json now reason
            id s w.bucket r h)
          (λ auth. tt)
          (λ submitted auth holds header t accepted.
            revoke_refused o.sha256 sound.sized w.auth auth submitted o.kv o.marshal o.unmarshal
              keyed now reason id s w.bucket r header t h holds (accepted ∙ ap ok same)))
  send_revoked-Promised who id (err e) w now reason s h =
      unfold answer write_json set_header in record { response = _; sent = refl; kept = tt }

  pub create_checked-Promised :
      (who : Session) (input : CreateInput) (w : World S)
      → Promised o w (Handlers.create_checked o who input w).1
  unfolding Handlers.create_checked call tick
  create_checked-Promised who input w =
      let now = o.clock w.readings in
      let random = o.random w.readings in
      let made = create o.kv o.sha256 o.marshal o.unmarshal now random input w.bucket in
      Promised-from o w _ _ refl (
        send_issued-Promised who "create" input.id 201 random made.1
          (record w { readings = w.readings + 1; bucket = made.0 }) (sound.filled w.readings)
          (λ r token h.
            let whole = ap (λ x. (made.0, x)) h in
            (
              (create-Issued o.kv o.sha256 o.marshal o.unmarshal now random input w.bucket made.0 r
                  token whole).0,
              create-Stored o.kv view o.sha256 o.marshal o.unmarshal sound.bucket sound.json now
                  random input w.bucket made.0 r token sound.sized whole,
            )))

  pub rotated-Promised :
      (who : Session) (id : Str) (w : World S)
      → Promised o w
          ((tick >>= λ n.
              call (rotate o.kv o.sha256 o.marshal o.unmarshal (o.clock n) (o.random n) id)
              >>= λ made. Handlers.send_issued o who "rotate" id 200 made)
            w).1
  unfolding call tick
  rotated-Promised who id w =
      let now = o.clock w.readings in
      let random = o.random w.readings in
      let made = rotate o.kv o.sha256 o.marshal o.unmarshal now random id w.bucket in
      Promised-from o w _ _ refl (
        send_issued-Promised who "rotate" id 200 random made.1
          (record w { readings = w.readings + 1; bucket = made.0 }) (sound.filled w.readings)
          (λ r token h.
            let whole = ap (λ x. (made.0, x)) h in
            (
              (rotate-Issued o.kv o.sha256 o.marshal o.unmarshal keyed now random id w.bucket made.0
                  r token whole).0,
              rotate-Stored o.kv view o.sha256 o.marshal o.unmarshal sound.bucket sound.json now
                  random id w.bucket made.0 r token sound.sized whole,
            )))

  pub revoked-Promised :
      (who : Session) (reason id : Str) (w : World S)
      → Promised o w
          ((tick >>= λ n.
              call (revoke o.kv o.sha256 o.marshal o.unmarshal (o.clock n) reason id) >>= λ done.
              Handlers.send_revoked o who id done)
            w).1
  unfolding call tick
  revoked-Promised who reason id w =
      let done =
        revoke o.kv o.sha256 o.marshal o.unmarshal (o.clock w.readings) reason id w.bucket in
      Promised-from o w _ _ refl (
        send_revoked-Promised who id done.1
          (record w { readings = w.readings + 1; bucket = done.0 }) (o.clock w.readings) reason
          w.bucket refl)
