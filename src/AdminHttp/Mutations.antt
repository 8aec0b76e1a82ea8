-- ===== src/AdminHttp/Mutations.antt =====
-- The handlers that change keys, as the sequence of their checks and the part behind them.
use geotagger.Prelude.{◌≡◌, some}
use geotagger.Text.Bytes.{Str}
use geotagger.Text.Trim.{trim_space}
use geotagger.KeyStore.Records.{CreateInput, validate_key_id}
use geotagger.KeyStore.Operations.{rotate, revoke}
use geotagger.AdminHttp.Server.{Session, Body, Request, World, Outside, Server, ◌>>=◌}
use geotagger.AdminHttp.Actions.{call, tick, mutation_allowed, decode_json}
use geotagger.AdminHttp.Checks.{
  decode_json-Verdict, validate_metadata-Verdict, check_id-Verdict, check_reserved-Verdict,
  read_reason-Verdict, check_reason-Verdict,
}
use geotagger.AdminHttp.Verdicts.{IsRobust, bind-IsRobust}
use geotagger.AdminHttp.Handlers as Handlers

module _ {S : Type 0} (o : Outside S) {P : World S → World S → Type 0} (robust : IsRobust P) where
  pub create_key_by :
      (s : Server) (who : Session) (r : Request) (w : World S)
      → mutation_allowed r w ≡ (some tt, w)
      → ((input : CreateInput) (x : World S) → P x (Handlers.create_checked o who input x).1)
      → P w (Handlers.create_key o s who r w).1
  unfolding Handlers.create_key
  create_key_by s who r w allowed rest = rw allowed (
      bind-IsRobust robust (decode_json o s o.decode_create r) _ w
        (decode_json-Verdict o s o.decode_create r w)
        (λ raw u.
          let input = Handlers.trim_input raw in
          bind-IsRobust robust (Handlers.validate_metadata o input) _ u
            (validate_metadata-Verdict o input u)
            (λ _ v.
              bind-IsRobust robust (Handlers.check_reserved o input) _ v
                (check_reserved-Verdict o input v) (λ _ x. rest input x))))

  pub rotate_key_by :
      (who : Session) (path : Str) (r : Request) (w : World S)
      → mutation_allowed r w ≡ (some tt, w)
      → ((u : World S)
          → P u
              ((tick >>= λ n.
                  call (
                    rotate o.kv o.sha256 o.marshal o.unmarshal
                      (o.clock n)
                      (o.random n)
                      (trim_space path))
                  >>= λ made. Handlers.send_issued o who "rotate" (trim_space path) 200 made)
                u).1)
      → P w (Handlers.rotate_key o who path r w).1
  unfolding Handlers.rotate_key
  rotate_key_by who path r w allowed rest =
      let id = trim_space path in
      rw allowed (
        bind-IsRobust robust (Handlers.check_id o Body.store_error (validate_key_id id)) _ w
          (check_id-Verdict o Body.store_error (λ _. tt) (validate_key_id id) w) (λ _ u. rest u))

  pub revoke_key_by :
      (s : Server) (who : Session) (path : Str) (r : Request) (w : World S)
      → mutation_allowed r w ≡ (some tt, w)
      → ((reason : Str) (u : World S)
          → P u
              ((tick >>= λ n.
                  call (
                    revoke o.kv o.sha256 o.marshal o.unmarshal (o.clock n) reason (trim_space path))
                  >>= λ done. Handlers.send_revoked o who (trim_space path) done)
                u).1)
      → P w (Handlers.revoke_key o s who path r w).1
  unfolding Handlers.revoke_key
  revoke_key_by s who path r w allowed rest =
      let id = trim_space path in
      rw allowed (
        bind-IsRobust robust (Handlers.check_id o Body.store_error (validate_key_id id)) _ w
          (check_id-Verdict o Body.store_error (λ _. tt) (validate_key_id id) w)
          (λ _ u.
            bind-IsRobust robust (Handlers.read_reason o s r) _ u (read_reason-Verdict o s r u)
              (λ reason v.
                bind-IsRobust robust (Handlers.check_reason o reason) _ v
                  (check_reason-Verdict o reason v) (λ _ x. rest reason x))))
