-- ===== src/KeyStore/Follows.antt =====
-- The synchronisation over any sequence of updates.
use geotagger.Prelude.{
  ◌≡◌, refl, ap, ◌∙◌, Bool, true, false, List, [], ◌∷◌, ◌++◌, Option, none, some, Result, ok, err,
  if◌then◌else◌,
}
use geotagger.Text.Bytes.{Str, str_eq}
use geotagger.Text.Dict.{lookup, insert, delete, insert-All, lookup-insert}
use geotagger.Auth.{Verifier, replace_managed}
use geotagger.KeyStore.Records.{KeyRecord, Entry, StoreError, decode_entry}
use geotagger.KeyStore.Sync.{
  SyncError, Update, cancelled, watch_error, no_error, errors_closed, updates_closed, snapshot_end,
  removed, put, Sync, keys_of, start_sync, applied, apply, finish, report, started, report_outcome,
  after_change, put_decoded, handle, sync_step, sync_run,
}
use geotagger.KeyStore.Synced.{answers, IsSynced, delete-All, apply-Applied}
use geotagger.KeyStore.Rounds.{
  Changing, IsSynced-Changing, after_change-IsSynced, finish-IsSynced, first-answer, sent_once,
  complain-IsSynced, started-IsSynced,
}

if_true : {A : Type 0} {x : A} (y : A) (b : Bool) → b ≡ true → (if b then x else y) ≡ x
if_true y true h = refl
if_true y false h = cc

module _ (unmarshal : Str → Option KeyRecord) where
  handle-IsSynced :
      (u : Update) (s : Sync) → Changing s → IsSynced s → IsSynced (handle unmarshal u s)
  unfolding handle
  handle-IsSynced cancelled s c h = go s.ready_sent refl
    where
      go :
          (b : Bool)
          → s.ready_sent ≡ b
          → IsSynced (
              finish
                (if b then s else record s { ready = s.ready ++ some SyncError.context_done ∷ [] }))
      go true sent = finish-IsSynced s c.keyed (sent_once s c sent) c.initialized_sent
      go false unsent =
          finish-IsSynced (record s { ready = s.ready ++ some SyncError.context_done ∷ [] }) c.keyed
            (first-answer s (some SyncError.context_done) c unsent) c.initialized_sent
  handle-IsSynced watch_error s c h = complain-IsSynced SyncError.watch_failure s c
  handle-IsSynced no_error s c h = h
  handle-IsSynced errors_closed s c h = h
  handle-IsSynced updates_closed s c h = go s.ready_sent refl
    where
      go :
          (b : Bool)
          → s.ready_sent ≡ b
          → IsSynced (
              finish (
                if b
                then report SyncError.watch_closed s
                else record s { ready = s.ready ++ some SyncError.closed_early ∷ [] }))
      go true sent =
          finish-IsSynced (report SyncError.watch_closed s) c.keyed (sent_once s c sent)
            c.initialized_sent
      go false unsent =
          finish-IsSynced (record s { ready = s.ready ++ some SyncError.closed_early ∷ [] }) c.keyed
            (first-answer s (some SyncError.closed_early) c unsent) c.initialized_sent
  handle-IsSynced snapshot_end s c h = go s.initialized refl s.ready_sent refl
    where
      go :
          (b : Bool)
          → s.initialized ≡ b
          → (sent : Bool) → s.ready_sent ≡ sent
          → IsSynced (if b then s else started (apply s))
      go true init sent e = h
      go false init false unsent = started-IsSynced s (apply s) c unsent (apply-Applied s c.keyed)
      go false init true sent = absurd (cc (c.sent_initialized sent, init))
  handle-IsSynced (removed key) s c h =
      after_change-IsSynced (record s { state = delete key s.state })
        (record {
          keyed = delete-All (λ e. e.0 ≡ e.1.id) key s.state c.keyed;
          startup = c.startup;
          on = c.on;
          healthy_initialized = c.healthy_initialized;
          initialized_sent = c.initialized_sent;
          sent_initialized = c.sent_initialized;
        })
  handle-IsSynced (put entry) s c h = decoded (decode_entry unmarshal entry)
    where
      decoded : (r : Result StoreError KeyRecord) → IsSynced (put_decoded r s)
      decoded (ok r) =
          unfold put_decoded in
          after_change-IsSynced (record s { state = insert r.id r s.state })
            (record {
              keyed = insert-All (λ e. e.0 ≡ e.1.id) r.id r s.state refl c.keyed;
              startup = c.startup;
              on = c.on;
              healthy_initialized = c.healthy_initialized;
              initialized_sent = c.initialized_sent;
              sent_initialized = c.sent_initialized;
            })
      decoded (err e) = unfold put_decoded in complain-IsSynced (SyncError.undecoded e) s c

  sync_step-IsSynced : (u : Update) (s : Sync) → IsSynced s → IsSynced (sync_step unmarshal u s)
  unfolding sync_step
  sync_step-IsSynced u s h = go s.running refl
    where
      go : (b : Bool) → s.running ≡ b → IsSynced (if b then handle unmarshal u s else s)
      go true on = handle-IsSynced u s (IsSynced-Changing s on h) h
      go false off = h

  sync_run_keeps : (us : List Update) (s : Sync) → IsSynced s → IsSynced (sync_run unmarshal us s)
  unfolding sync_run
  sync_run_keeps [] s h = h
  sync_run_keeps (u ∷ us) s h =
      sync_run_keeps us (sync_step unmarshal u s) (sync_step-IsSynced u s h)

  -- After any updates, from any verifier: `ready` has been given exactly one answer once the start
  -- is over or the goroutine has returned, and none before. While the store is healthy the
  -- goroutine runs and has started, and for every id the verifier has the managed credential of the
  -- record in the map, with its digest, expiry and revocation, and none where the map has no
  -- record.
  pub sync_run-IsSynced :
      (us : List Update) (v : Verifier) → IsSynced (sync_run unmarshal us (start_sync v))
  unfolding start_sync answers
  sync_run-IsSynced us v = sync_run_keeps us (start_sync v) (record {
    keyed = tt;
    mirrors = λ h. absurd cc;
    startup = refl;
    healthy_running = λ h. cc;
    healthy_initialized = λ h. cc;
    initialized_sent = λ h. cc;
    sent_initialized = λ _ h. cc;
  })

  -- On a store that runs and has started, an undecodable record of a key marks it as unhealthy. The
  -- next record of another key, if the verifier takes the map over, marks it as healthy again,
  -- while the map still has the older record of the key.
  pub sync_run_stale :
      (bad good : Entry) (r : KeyRecord) (e : StoreError) (s : Sync)
      → IsSynced s
      → s.running ≡ true
      → s.initialized ≡ true
      → decode_entry unmarshal bad ≡ err e
      → decode_entry unmarshal good ≡ ok r
      → str_eq r.id bad.key ≡ false
      → (replace_managed s.verifier (keys_of (insert r.id r s.state))).1 ≡ none
      → ((sync_run unmarshal (put bad ∷ []) s).healthy ≡ false)
        × ((sync_run unmarshal (put bad ∷ put good ∷ []) s).healthy ≡ true)
        × (lookup bad.key (sync_run unmarshal (put bad ∷ put good ∷ []) s).state
            ≡ lookup bad.key s.state)
  unfolding sync_run sync_step handle put_decoded after_change apply applied report_outcome
  sync_run_stale bad good r e s h on init undecoded decoded other taken = (
    ap (λ x. x.healthy) first,
    ap (λ x. x.healthy) both,
    ap (λ x. lookup bad.key x.state) both
        ∙ lookup-insert r.id bad.key r s.state
        ∙ ap (λ b. if b then some r else lookup bad.key s.state) other,
  )
    where
      marked : Sync
      marked = report (SyncError.undecoded e) (record s { healthy = false })

      updated : Sync
      updated = record marked {
        state = insert r.id r s.state;
        verifier = (replace_managed s.verifier (keys_of (insert r.id r s.state))).0;
        healthy = true;
      }

      first : sync_step unmarshal (put bad) s ≡ marked
      first =
          if_true _ s.running on
          ∙ ap (λ d. put_decoded d s) undecoded
          ∙ if_true _ s.ready_sent (h.initialized_sent init)

      second : sync_step unmarshal (put good) marked ≡ updated
      second =
          if_true _ s.running on
          ∙ ap (λ d. put_decoded d marked) decoded
          ∙ if_true _ s.initialized init
          ∙ ap
              (λ o. report_outcome (
                applied ((replace_managed s.verifier (keys_of (insert r.id r s.state))).0, o)
                  (record marked { state = insert r.id r s.state })))
              taken

      both : sync_step unmarshal (put good) (sync_step unmarshal (put bad) s) ≡ updated
      both = ap (sync_step unmarshal (put good)) first ∙ second
