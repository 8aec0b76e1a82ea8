-- ===== src/KeyStore/Rounds.antt =====
-- The parts of a round of the synchronisation.
use geotagger.Prelude.{
  ◌≡◌, refl, sym, ap, ◌∙◌, Bool, true, false, List, [], ◌∷◌, ◌++◌, Option, none, some, arith,
  length, length-append, if◌then◌else◌,
}
use geotagger.KeyStore.Sync.{
  SyncError, Sync, apply, finish, fail_start, report, started, report_outcome, after_change,
}
use geotagger.KeyStore.Synced.{IsKeyed, answers, IsSynced, Applied, apply-Applied}

-- What holds within a round, while the verifier may lag behind the map.
pub record Changing (s : Sync) : Type 0 where
  pub keyed : IsKeyed s.state
  pub startup : length s.ready ≡ answers s.ready_sent true
  pub on : s.running ≡ true
  pub healthy_initialized : s.healthy ≡ true → s.initialized ≡ true
  pub initialized_sent : s.initialized ≡ true → s.ready_sent ≡ true
  pub sent_initialized : s.ready_sent ≡ true → s.initialized ≡ true

pub IsSynced-Changing : (s : Sync) → s.running ≡ true → IsSynced s → Changing s
IsSynced-Changing s on h = record {
  keyed = h.keyed;
  startup = h.startup ∙ ap (answers s.ready_sent) on;
  on = on;
  healthy_initialized = h.healthy_initialized;
  initialized_sent = h.initialized_sent;
  sent_initialized = h.sent_initialized on;
}

report_outcome-IsSynced :
    (s : Sync) (r : Option SyncError × Sync)
    → Changing s
    → s.initialized ≡ true
    → Applied s r
    → IsSynced (report_outcome r)
unfolding report_outcome
report_outcome-IsSynced s (o, t) c init a = go o a
  where
    synced :
        (o : Option SyncError)
        → Applied s (o, t)
        → (said : List SyncError) → IsSynced (record t { reported = said })
    synced o a said = record {
      keyed = rw a.state c.keyed;
      mirrors = λ h id. rw a.state ((a.mirrors h).1 id);
      startup = rw (a.ready, a.ready_sent, a.running, c.on) c.startup;
      healthy_running = λ _. a.running ∙ c.on;
      healthy_initialized = λ _. a.initialized ∙ init;
      initialized_sent = λ _. a.ready_sent ∙ c.initialized_sent init;
      sent_initialized = λ _ _. a.initialized ∙ init;
    }

    go : (o : Option SyncError) → Applied s (o, t) → IsSynced (report_outcome (o, t))
    go none a = synced none a t.reported
    go (some e) a = synced (some e) a (t.reported ++ e ∷ [])

pub after_change-IsSynced : (s : Sync) → Changing s → IsSynced (after_change s)
unfolding after_change
after_change-IsSynced s c = go s.initialized refl
  where
    go : (b : Bool) → s.initialized ≡ b → IsSynced (if b then report_outcome (apply s) else s)
    go true init = report_outcome-IsSynced s (apply s) c init (apply-Applied s c.keyed)
    go false init = record {
      keyed = c.keyed;
      mirrors = λ h. absurd (cc (c.healthy_initialized h, init));
      startup = c.startup ∙ ap (answers s.ready_sent) (sym c.on);
      healthy_running = λ _. c.on;
      healthy_initialized = c.healthy_initialized;
      initialized_sent = c.initialized_sent;
      sent_initialized = λ _. c.sent_initialized;
    }

-- A return whose one answer on `ready` has been or is being given.
pub finish-IsSynced :
    (s : Sync)
    → IsKeyed s.state
    → length s.ready ≡ 1
    → (s.initialized ≡ true → s.ready_sent ≡ true)
    → IsSynced (finish s)
unfolding answers
finish-IsSynced s keyed once sent = record {
  keyed = keyed;
  mirrors = λ h. absurd cc;
  startup = once ∙ one s.ready_sent;
  healthy_running = λ h. cc;
  healthy_initialized = λ h. cc;
  initialized_sent = sent;
  sent_initialized = λ off. cc;
}
  where
    one : (b : Bool) → 1 ≡ answers b false
    one true = refl
    one false = refl

pub first-answer :
    (s : Sync) (o : Option SyncError)
    → Changing s
    → s.ready_sent ≡ false
    → length (s.ready ++ o ∷ []) ≡ 1
unfolding answers
first-answer s o c unsent =
    let none_yet : length s.ready ≡ 0 = c.startup ∙ ap (λ b. answers b true) unsent in
    omega (arith, none_yet, length-append s.ready (o ∷ []))

pub fail_start-IsSynced :
    (e : SyncError) (s : Sync) → Changing s → s.ready_sent ≡ false → IsSynced (fail_start e s)
unfolding fail_start
fail_start-IsSynced e s c unsent =
    finish-IsSynced (record s { ready = s.ready ++ some e ∷ []; ready_sent = true }) c.keyed
      (first-answer s (some e) c unsent) (λ _. refl)

pub sent_once : (s : Sync) → Changing s → s.ready_sent ≡ true → length s.ready ≡ 1
unfolding answers
sent_once s c sent = c.startup ∙ ap (λ b. answers b true) sent

-- The flag goes down after the start; before it, the goroutine ends.
pub complain-IsSynced :
    (e : SyncError) (s : Sync)
    → Changing s
    → IsSynced (if s.ready_sent then report e (record s { healthy = false }) else fail_start e s)
complain-IsSynced e s c = go s.ready_sent refl
  where
    go :
        (b : Bool)
        → s.ready_sent ≡ b
        → IsSynced (if b then report e (record s { healthy = false }) else fail_start e s)
    go true sent = record {
      keyed = c.keyed;
      mirrors = λ h. absurd cc;
      startup = c.startup ∙ ap (answers s.ready_sent) (sym c.on);
      healthy_running = λ h. cc;
      healthy_initialized = λ h. cc;
      initialized_sent = c.initialized_sent;
      sent_initialized = λ _. c.sent_initialized;
    }
    go false unsent = fail_start-IsSynced e s c unsent

pub started-IsSynced :
    (s : Sync) (r : Option SyncError × Sync)
    → Changing s
    → s.ready_sent ≡ false
    → Applied s r
    → IsSynced (started r)
unfolding started answers
started-IsSynced s (none, t) c unsent a = record {
  keyed = rw a.state c.keyed;
  mirrors = λ h id. rw a.state ((a.mirrors h).1 id);
  startup = rw (a.ready) (first-answer s none c unsent);
  healthy_running = λ _. a.running ∙ c.on;
  healthy_initialized = λ _. refl;
  initialized_sent = λ _. refl;
  sent_initialized = λ _ _. refl;
}
started-IsSynced s (some e, t) c unsent a =
    unfold fail_start in
    finish-IsSynced (record t { ready = t.ready ++ some e ∷ []; ready_sent = true })
      (rw a.state c.keyed) (rw a.ready (first-answer s (some e) c unsent)) (λ _. refl)
