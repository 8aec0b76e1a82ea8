-- ===== src/NatsAudit.antt =====
-- internal/natsaudit/nats.go: the stream that the audit events are published on, created or
-- brought to its safe settings when an API starts.
pub mod Stream
pub mod Settings
pub mod Startup
use geotagger.Prelude.{
  ℕ, ◌*◌, ◌^◌, Bool, true, false, not, ◌&&◌, List, [], ◌∷◌, ◌==◌, if◌then◌else◌, Result, ok, err,
}
use geotagger.Text.Bytes.{Str, str_eq}
use geotagger.NatsAudit.Stream.{
  ℤ, pos, negsuc, int_eq, Storage, file, memory, is_file, Retention, limits, interest, work_queue,
  is_work_queue, Discard, discard_old, discard_new, is_discard_new, StreamConfig,
}

-- const auditStreamMaxBytes int64 = 8 << 30
abbrev pub audit_stream_max_bytes : ℤ
audit_stream_max_bytes = pos (8 * 2 ^ 30)

pub data InfoError : Type 0 where
  stream_not_found info_unavailable : InfoError

pub data EnsureError : Type 0 where
  info_failed create_failed wrong_storage wrong_retention update_failed : EnsureError

-- The configuration and the flag `changed` while ensureAuditStream goes through the settings.
abbrev pub Change : Type 0
Change = StreamConfig × Bool

-- if !good(cfg) { set(&cfg); changed = true }
unfoldable pub set_unless : (StreamConfig → Bool) → (StreamConfig → StreamConfig) → Change → Change
set_unless good set (cfg, changed) = if good cfg then (cfg, changed) else (set cfg, true)

unfoldable pub is_only : Str → List Str → Bool
is_only subject [] = false
is_only subject (s ∷ []) = str_eq s subject
is_only subject (s ∷ t ∷ more) = false

unfoldable pub reconcile : Str → StreamConfig → Change
unfolding set_unless is_only
reconcile subject cfg =
    let c1 =
      set_unless (λ c. is_only subject c.subjects) (λ c. record c { subjects = subject ∷ [] })
        (cfg, false) in
    let c2 =
      set_unless (λ c. int_eq c.max_consumers (negsuc 0))
        (λ c. record c { max_consumers = negsuc 0 }) c1 in
    let c3 =
      set_unless (λ c. int_eq c.max_msgs (negsuc 0)) (λ c. record c { max_msgs = negsuc 0 }) c2 in
    let c4 =
      set_unless (λ c. int_eq c.max_msgs_per_subject (negsuc 0))
        (λ c. record c { max_msgs_per_subject = negsuc 0 }) c3 in
    let c5 = set_unless (λ c. int_eq c.max_age (pos 0)) (λ c. record c { max_age = pos 0 }) c4 in
    let c6 =
      set_unless (λ c. int_eq c.max_bytes audit_stream_max_bytes)
        (λ c. record c { max_bytes = audit_stream_max_bytes }) c5 in
    let c7 =
      set_unless (λ c. is_discard_new c.discard) (λ c. record c { discard = discard_new }) c6 in
    set_unless (λ c. not c.no_ack) (λ c. record c { no_ack = false }) c7

unfoldable pub audit_config : Str → Str → StreamConfig
audit_config stream subject = record {
  name = stream;
  subjects = subject ∷ [];
  storage = file;
  retention = work_queue;
  max_consumers = negsuc 0;
  max_msgs = negsuc 0;
  max_msgs_per_subject = negsuc 0;
  max_bytes = audit_stream_max_bytes;
  max_age = pos 0;
  discard = discard_new;
  no_ack = false;
}

-- The calls of nats.JetStreamContext, over a state of the server that each of them may find
-- changed.
pub record JetStream (S : Type 0) : Type 0 where
  pub stream_info : Str → S → S × Result InfoError StreamConfig
  pub add_stream : StreamConfig → S → S × Bool
  pub update_stream : StreamConfig → S → S × Bool

module _ {S : Type 0} (js : JetStream S) (stream subject : Str) where
  unfoldable pub updated : S × Bool → S × Result EnsureError (Unit {0})
  updated (s, true) = (s, ok tt)
  updated (s, false) = (s, err update_failed)

  unfoldable pub apply_changes : Change → S → S × Result EnsureError (Unit {0})
  unfolding updated
  apply_changes (cfg, true) s = updated (js.update_stream cfg s)
  apply_changes (cfg, false) s = (s, ok tt)

  -- From the structural checks on.
  unfoldable pub check_existing : StreamConfig → S → S × Result EnsureError (Unit {0})
  unfolding reconcile apply_changes
  check_existing cfg s =
      if not (is_file cfg.storage)
      then (s, err wrong_storage)
      else if not (is_work_queue cfg.retention)
      then (s, err wrong_retention)
      else apply_changes (reconcile subject cfg) s

  -- The second StreamInfo, behind an AddStream that failed.
  unfoldable pub after_race : S × Result InfoError StreamConfig → S × Result EnsureError (Unit {0})
  unfolding check_existing
  after_race (s, ok cfg) = check_existing cfg s
  after_race (s, err e) = (s, err create_failed)

  unfoldable pub after_add : S × Bool → S × Result EnsureError (Unit {0})
  unfolding after_race
  after_add (s, true) = (s, ok tt)
  after_add (s, false) = after_race (js.stream_info stream s)

  unfoldable pub after_info : S × Result InfoError StreamConfig → S × Result EnsureError (Unit {0})
  unfolding after_add check_existing audit_config
  after_info (s, ok cfg) = check_existing cfg s
  after_info (s, err stream_not_found) = after_add (js.add_stream (audit_config stream subject) s)
  after_info (s, err info_unavailable) = (s, err info_failed)

  unfoldable pub ensure_audit_stream : S → S × Result EnsureError (Unit {0})
  unfolding after_info
  ensure_audit_stream s = after_info (js.stream_info stream s)
