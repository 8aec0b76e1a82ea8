-- ===== src/KeyStore/Sync.antt =====
-- StartVerifierSync: the goroutine that keeps the verifier at the records of the bucket, as a step
-- on the cases of its select.
use geotagger.Prelude.{
  Bool, true, false, List, [], ◌∷◌, ◌++◌, Option, none, some, Result, ok, err, if◌then◌else◌,
}
use geotagger.Text.Bytes.{Str}
use geotagger.Text.Dict.{Dict, insert, delete}
use geotagger.Auth.{AuthError, Verifier, ManagedKey, replace_managed}
use geotagger.KeyStore.Records.{KeyRecord, Entry, StoreError, decode_entry}
use geotagger.KeyStore.Issued.{managed_key}

pub data SyncError : Type 0 where
  context_done watch_failure closed_early watch_closed : SyncError
  rejected : AuthError → SyncError
  undecoded : StoreError → SyncError

-- What the select receives: an error of the watcher, a nil one or the end of its errors; the end of
-- the updates, the nil update behind the initial snapshot, a deletion or purge, and a record.
pub data Update : Type 0 where
  cancelled watch_error no_error errors_closed updates_closed snapshot_end : Update
  removed : Str → Update
  put : Entry → Update

-- The variables of the goroutine, the store's flag, the verifier, what was sent on `ready` and
-- what was reported.
pub record Sync : Type 0 where
  pub state : Dict KeyRecord
  pub initialized : Bool
  pub ready_sent : Bool
  pub running : Bool
  pub healthy : Bool
  pub verifier : Verifier
  pub ready : List (Option SyncError)
  pub reported : List SyncError

unfoldable pub start_sync : Verifier → Sync
start_sync v = record {
  state = [];
  initialized = false;
  ready_sent = false;
  running = true;
  healthy = false;
  verifier = v;
  ready = [];
  reported = [];
}

abbrev pub keys_of : Dict KeyRecord → List ManagedKey
keys_of [] = []
keys_of ((id, r) ∷ more) = managed_key r ∷ keys_of more

-- The closure `apply`, from the outcome of ReplaceManaged.
unfoldable pub applied : Verifier × Option AuthError → Sync → Option SyncError × Sync
applied (v, none) s = (none, record s { verifier = v; healthy = true })
applied (v, some e) s = (some (rejected e), record s { verifier = v; healthy = false })

unfoldable pub apply : Sync → Option SyncError × Sync
unfolding applied
apply s = applied (replace_managed s.verifier (keys_of s.state)) s

-- The deferred calls of a return.
abbrev pub finish : Sync → Sync
finish s = record s { running = false; healthy = false }

-- An error before the start is told on `ready`, and ends the goroutine.
unfoldable pub fail_start : SyncError → Sync → Sync
fail_start e s = finish (record s { ready = s.ready ++ some e ∷ []; ready_sent = true })

abbrev pub report : SyncError → Sync → Sync
report e s = record s { reported = s.reported ++ e ∷ [] }

-- The first nil update.
unfoldable pub started : Option SyncError × Sync → Sync
started (none, s) = record s { ready = s.ready ++ none ∷ []; ready_sent = true; initialized = true }
started (some e, s) = fail_start e s

unfoldable pub report_outcome : Option SyncError × Sync → Sync
report_outcome (none, s) = s
report_outcome (some e, s) = report e s

-- The last part of a round, after a change of the map.
unfoldable pub after_change : Sync → Sync
unfolding apply report_outcome
after_change s = if s.initialized then report_outcome (apply s) else s

unfoldable pub put_decoded : Result StoreError KeyRecord → Sync → Sync
unfolding after_change fail_start
put_decoded (ok r) s = after_change (record s { state = insert r.id r s.state })
put_decoded (err e) s =
    if s.ready_sent
    then report (undecoded e) (record s { healthy = false })
    else fail_start (undecoded e) s

module _ (unmarshal : Str → Option KeyRecord) where
  unfoldable pub handle : Update → Sync → Sync
  unfolding apply started put_decoded after_change fail_start
  handle cancelled s =
      finish (if s.ready_sent then s else record s { ready = s.ready ++ some context_done ∷ [] })
  handle watch_error s =
      if s.ready_sent
      then report watch_failure (record s { healthy = false })
      else fail_start watch_failure s
  handle no_error s = s
  handle errors_closed s = s
  handle updates_closed s = finish (
      if s.ready_sent
      then report watch_closed s
      else record s { ready = s.ready ++ some closed_early ∷ [] })
  handle snapshot_end s = if s.initialized then s else started (apply s)
  handle (removed key) s = after_change (record s { state = delete key s.state })
  handle (put entry) s = put_decoded (decode_entry unmarshal entry) s

  unfoldable pub sync_step : Update → Sync → Sync
  unfolding handle
  sync_step u s = if s.running then handle u s else s

  unfoldable pub sync_run : List Update → Sync → Sync
  unfolding sync_step
  sync_run [] s = s
  sync_run (u ∷ us) s = sync_run us (sync_step u s)
