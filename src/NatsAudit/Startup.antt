-- ===== src/NatsAudit/Startup.antt =====
-- What ensureAuditStream leaves on the server, and when it refuses to start.
use geotagger.Prelude.{
  ◌≡◌, ◌≢◌, refl, sym, ap, ◌∙◌, subst, Bool, true, false, Result, ok, err, Option, some, Bool-cases,
  inl, inr, ◌⊎◌,
}
use geotagger.Text.Bytes.{Str, str_eq_refl}
use geotagger.NatsAudit.Stream.{
  int_eq, is_discard_new, Storage, file, memory, is_file, Retention, limits, interest, work_queue,
  is_work_queue, StreamConfig,
}
use geotagger.NatsAudit.Settings.{IsSafe, settle_config, Tracks, reconcile-Tracks}
use geotagger.NatsAudit.{
  InfoError, stream_not_found, info_unavailable, EnsureError, wrong_storage, wrong_retention,
  Change, set_unless, is_only, reconcile, audit_config, JetStream, updated, apply_changes,
  check_existing, after_race, after_add, after_info, ensure_audit_stream,
}

is_file_sound : (s : Storage) → is_file s ≡ true → s ≡ file
unfolding is_file
is_file_sound file h = refl
is_file_sound memory h = cc

is_work_queue_sound : (r : Retention) → is_work_queue r ≡ true → r ≡ work_queue
unfolding is_work_queue
is_work_queue_sound work_queue h = refl
is_work_queue_sound limits h = cc
is_work_queue_sound interest h = cc

audit_config-IsSafe : (stream subject : Str) → IsSafe subject (audit_config stream subject)
unfolding audit_config
audit_config-IsSafe stream subject = record {
  subjects = refl;
  storage = refl;
  retention = refl;
  max_consumers = refl;
  max_msgs = refl;
  max_msgs_per_subject = refl;
  max_bytes = refl;
  max_age = refl;
  discard = refl;
  no_ack = refl;
}

settle_config-IsSafe :
    (subject : Str) (c : StreamConfig)
    → c.storage ≡ file
    → c.retention ≡ work_queue
    → IsSafe subject (settle_config subject c)
settle_config-IsSafe subject c on_disk queue = record {
  subjects = refl;
  storage = on_disk;
  retention = queue;
  max_consumers = refl;
  max_msgs = refl;
  max_msgs_per_subject = refl;
  max_bytes = refl;
  max_age = refl;
  discard = refl;
  no_ack = refl;
}

-- What the calls of a JetStream server tell about the stream of that name, which `view` shows: an
-- answer that the call succeeded means that the stream has the configuration told or asked for.
pub record Reports {S : Type 0} (js : JetStream S) (view : S → Option StreamConfig) (stream : Str)
    : Type 0 where
  pub stream_info :
      (s s' : S) (c : StreamConfig) → js.stream_info stream s ≡ (s', ok c) → view s' ≡ some c
  pub add_stream : (s s' : S) (c : StreamConfig) → js.add_stream c s ≡ (s', true) → view s' ≡ some c
  pub update_stream :
      (s s' : S) (c : StreamConfig) → js.update_stream c s ≡ (s', true) → view s' ≡ some c

module _ {S : Type 0} (js : JetStream S) (view : S → Option StreamConfig) (stream subject : Str)
    (reports : Reports js view stream) where
  -- The server shows a stream with a safe configuration.
  abbrev pub ShowsSafe : S → Type 0
  ShowsSafe s = (c : StreamConfig) × ((view s ≡ some c) × IsSafe subject c)

  check_existing_safe :
      (c : StreamConfig) (s s' : S)
      → view s ≡ some c
      → check_existing js stream subject c s ≡ (s', ok tt)
      → ShowsSafe s'
  unfolding check_existing
  check_existing_safe c s s' shown h = elim (Bool-cases (is_file c.storage)) [
    | inr other ↦ cc (rw other at h)
    | inl on_disk ↦ elim (Bool-cases (is_work_queue c.retention)) [
      | inr other ↦ cc (rw (on_disk, other) at h)
      | inl queue ↦
          applied (reconcile subject c) (reconcile-Tracks subject c)
            (settle_config-IsSafe subject c (is_file_sound c.storage on_disk)
              (is_work_queue_sound c.retention queue))
            (rw (on_disk, queue) at h)
    ]
  ]
    where
      answered :
          (d : StreamConfig) (r : S × Bool)
          → js.update_stream d s ≡ r
          → IsSafe subject d
          → updated js stream subject r ≡ (s', ok tt)
          → ShowsSafe s'
      answered d (t, true) asked safe e =
          unfold updated in
          (d, (reports.update_stream s s' d (asked ∙ ap (λ x. (x.0, true)) e), safe))
      answered d (t, false) asked safe e = unfold updated in cc

      applied :
          (change : Change)
          → Tracks c change (settle_config subject c)
          → IsSafe subject (settle_config subject c)
          → apply_changes js stream subject change s ≡ (s', ok tt)
          → ShowsSafe s'
      applied (d, true) tracks safe e =
          unfold apply_changes in
          answered d (js.update_stream d s) refl (subst (IsSafe subject) (sym tracks.config) safe) e
      applied (d, false) tracks safe e =
          unfold apply_changes in
          (
            c,
            (
              sym (ap view (ap (λ x. x.0) e)) ∙ shown,
              subst (IsSafe subject) (tracks.unchanged refl) safe,
            ),
          )

  -- Where the answers of the server are true, ensureAuditStream returns without an error only if
  -- the server then shows the stream on disk, with the WorkQueue retention, only the subject given,
  -- no limit but the bytes, which are 8 GiB, no age limit, DiscardNew and acknowledgements: in an
  -- existing stream, in one it creates and in one that another process creates meanwhile.
  pub ensure_audit_stream-IsSafe :
      (s s' : S) → ensure_audit_stream js stream subject s ≡ (s', ok tt) → ShowsSafe s'
  unfolding ensure_audit_stream
  ensure_audit_stream-IsSafe s s' h = informed s (js.stream_info stream s) refl h
    where
      raced :
          (s : S) (r : S × Result InfoError StreamConfig)
          → js.stream_info stream s ≡ r
          → after_race js stream subject r ≡ (s', ok tt)
          → ShowsSafe s'
      raced s (t, ok c) asked e =
          unfold after_race in check_existing_safe c t s' (reports.stream_info s t c asked) e
      raced s (t, err _) asked e = unfold after_race in cc

      added :
          (s : S) (r : S × Bool)
          → js.add_stream (audit_config stream subject) s ≡ r
          → after_add js stream subject r ≡ (s', ok tt)
          → ShowsSafe s'
      added s (t, true) asked e =
          unfold after_add in
          (
            audit_config stream subject,
            (
              reports.add_stream s s' (audit_config stream subject)
                  (asked ∙ ap (λ x. (x.0, true)) e),
              audit_config-IsSafe stream subject,
            ),
          )
      added s (t, false) asked e = unfold after_add in raced t (js.stream_info stream t) refl e

      informed :
          (s : S) (r : S × Result InfoError StreamConfig)
          → js.stream_info stream s ≡ r
          → after_info js stream subject r ≡ (s', ok tt)
          → ShowsSafe s'
      informed s (t, ok c) asked e =
          unfold after_info in check_existing_safe c t s' (reports.stream_info s t c asked) e
      informed s (t, err stream_not_found) asked e =
          unfold after_info in added t (js.add_stream (audit_config stream subject) t) refl e
      informed s (t, err info_unavailable) asked e = unfold after_info in cc

settle_config_fixed :
    (subject : Str) (c : StreamConfig) → IsSafe subject c → settle_config subject c ≡ c
settle_config_fixed subject c h = λ i. record c {
  subjects = sym h.subjects i;
  max_consumers = sym h.max_consumers i;
  max_msgs = sym h.max_msgs i;
  max_msgs_per_subject = sym h.max_msgs_per_subject i;
  max_age = sym h.max_age i;
  max_bytes = sym h.max_bytes i;
  discard = sym h.discard i;
  no_ack = sym h.no_ack i;
}

reconcile-settle_config :
    (subject : Str) (c : StreamConfig)
    → reconcile subject (settle_config subject c) ≡ (settle_config subject c, false)
unfolding reconcile set_unless is_only int_eq is_discard_new
reconcile-settle_config subject c = rw str_eq_refl refl

reconcile_fixed :
    (subject : Str) (c : StreamConfig) → IsSafe subject c → reconcile subject c ≡ (c, false)
reconcile_fixed subject c h =
    subst (λ d. reconcile subject d ≡ (d, false)) (settle_config_fixed subject c h)
      (reconcile-settle_config subject c)

module _ {S : Type 0} (js : JetStream S) (stream subject : Str) where
  -- A start that finds a stream in memory, or with another retention than WorkQueue, returns an
  -- error and changes nothing on the server.
  pub ensure_audit_stream_refuses :
      (s : S) (c : StreamConfig)
      → js.stream_info stream s ≡ (s, ok c)
      → (c.storage ≡ file → c.retention ≢ work_queue)
      → (e : EnsureError) × (ensure_audit_stream js stream subject s ≡ (s, err e))
  unfolding ensure_audit_stream after_info check_existing
  ensure_audit_stream_refuses s c found bad = rw found (go (Bool-cases (is_file c.storage)))
    where
      go :
          (is_file c.storage ≡ true) ⊎ (is_file c.storage ≡ false)
          → (e : EnsureError) × (check_existing js stream subject c s ≡ (s, err e))
      go (inr other) = (wrong_storage, rw other refl)
      go (inl on_disk) = elim (Bool-cases (is_work_queue c.retention)) [
        | inr other ↦ (wrong_retention, rw (on_disk, other) refl)
        | inl queue ↦
            absurd (bad (is_file_sound c.storage on_disk) (is_work_queue_sound c.retention queue))
      ]

  -- A start that finds the stream with a safe configuration succeeds and changes nothing on the
  -- server.
  pub ensure_audit_stream_keeps :
      (s : S) (c : StreamConfig)
      → js.stream_info stream s ≡ (s, ok c)
      → IsSafe subject c
      → ensure_audit_stream js stream subject s ≡ (s, ok tt)
  unfolding ensure_audit_stream after_info check_existing apply_changes is_file is_work_queue
  ensure_audit_stream_keeps s c found safe =
      let on_disk : is_file c.storage ≡ true = ap is_file safe.storage in
      let queue : is_work_queue c.retention ≡ true = ap is_work_queue safe.retention in
      rw found (
        rw (on_disk, queue)
          (ap (λ change. apply_changes js stream subject change s)
            (reconcile_fixed subject c safe)))
