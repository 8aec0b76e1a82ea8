-- ===== src/AdminHttp/Effects.antt =====
-- What the handlers' calls of the key store leave in the bucket, and what the log says of them.
use geotagger.Prelude.{
  ℕ, ◌≡◌, sym, ap, ◌∙◌, String, [], ◌∷◌, ◌++◌, Option, none, some, Result, ok, err,
}
use geotagger.Text.Bytes.{Str}
use geotagger.KeyStore.Records.{CreateInput, StoreError}
use geotagger.KeyStore.Operations.{create, rotate, revoke}
use geotagger.KeyStore.Listing.{list_records}
use geotagger.AdminHttp.Server.{Session, Response, Mutation, World, Outside}
use geotagger.AdminHttp.Verdicts.{Same, Quiet, IsRobust}

-- A call that changes the bucket, with the reading of the clock and the random bytes.
pub data StoreCall : Type 0 where
  create_call : ℕ → Option Str → CreateInput → StoreCall
  rotate_call : ℕ → Option Str → Str → StoreCall
  revoke_call : ℕ → Str → Str → StoreCall

abbrev pub operation_of : StoreCall → String
operation_of (create_call now random input) = "create"
operation_of (rotate_call now random id) = "rotate"
operation_of (revoke_call now reason id) = "revoke"

abbrev pub key_of : StoreCall → Str
key_of (create_call now random input) = input.id
key_of (rotate_call now random id) = id
key_of (revoke_call now reason id) = id

abbrev entry_of : Session → StoreCall → String → Mutation
entry_of who c outcome = record {
  admin_email = who.email;
  operation = operation_of c;
  key_id = key_of c;
  outcome = outcome;
}

abbrev pub error_of : {A : Type 0} → Result StoreError A → Option StoreError
error_of (ok a) = none
error_of (err e) = some e

module _ {S : Type 0} (o : Outside S) where
  -- The bucket after the call, and its error.
  abbrev pub called : StoreCall → S → S × Option StoreError
  called (create_call now random input) bucket =
      let r = create o.kv o.sha256 o.marshal o.unmarshal now random input bucket in
      (r.0, error_of r.1)
  called (rotate_call now random id) bucket =
      let r = rotate o.kv o.sha256 o.marshal o.unmarshal now random id bucket in (r.0, error_of r.1)
  called (revoke_call now reason id) bucket =
      let r = revoke o.kv o.sha256 o.marshal o.unmarshal now reason id bucket in (r.0, error_of r.1)

  -- No call of the store: bucket, verifier and log are as they were. A call of the operation that failed: the bucket
  -- is the one that it left, and verifier and log are as they were. A call of it that succeeded: the
  -- bucket is the one that it left, listed once, and the log has one entry more, with the session's
  -- e-mail and the operation and the key of the call.
  pub data Effect (who : Session) (operation : String) (w v : World S) : Type 0 where
    untouched : v.bucket ≡ w.bucket → v.auth ≡ w.auth → v.log ≡ w.log → Effect who operation w v
    failed :
        (c : StoreCall) (e : StoreError)
        → operation_of c ≡ operation
        → called c w.bucket ≡ (v.bucket, some e)
        → v.auth ≡ w.auth
        → v.log ≡ w.log
        → Effect who operation w v
    stored :
        (c : StoreCall) (bucket : S) (outcome : String)
        → operation_of c ≡ operation
        → called c w.bucket ≡ (bucket, none)
        → v.bucket ≡ (list_records o.kv o.unmarshal bucket).0
        → v.log ≡ w.log ++ entry_of who c outcome ∷ []
        → Effect who operation w v

  -- One response, and an effect.
  pub record Settled (who : Session) (operation : String) (w v : World S) : Type 0 where
    pub response : Response
    pub sent : v.sent ≡ w.sent ++ response ∷ []
    pub effect : Effect who operation w v

  Quiet-Settled :
      (who : Session) (operation : String) (w v : World S) → Quiet w v → Settled who operation w v
  Quiet-Settled who operation w v q = record {
    response = q.response;
    sent = q.sent;
    effect = untouched q.bucket q.auth q.log;
  }

  pub Settled-from :
      (who : Session) (operation : String) (w u v : World S)
      → Same w u
      → Settled who operation u v
      → Settled who operation w v
  Settled-from who operation w u v a d = record {
    response = d.response;
    sent = d.sent ∙ ap (λ l. l ++ d.response ∷ []) a.sent;
    effect = elim d.effect [
      | untouched bucket auth log ↦ untouched (bucket ∙ a.bucket) (auth ∙ a.auth) (log ∙ a.log)
      | failed c e named call auth log ↦
          failed c e named (ap (called c) (sym a.bucket) ∙ call) (auth ∙ a.auth) (log ∙ a.log)
      | stored c bucket outcome named call listed log ↦
          stored c bucket outcome named (ap (called c) (sym a.bucket) ∙ call) listed
            (log ∙ ap (λ l. l ++ entry_of who c outcome ∷ []) a.log)
    ];
  }

  pub Settled-IsRobust : (who : Session) (operation : String) → IsRobust (Settled who operation)
  Settled-IsRobust who operation = record {
    of_quiet = Quiet-Settled who operation;
    of_same = Settled-from who operation;
  }
