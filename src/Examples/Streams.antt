-- ===== src/Examples/Streams.antt =====
-- The audit stream on a server that holds at most one stream.
use geotagger.Prelude.{◌≡◌, refl, true, Option, none, some, ok, err, Result}
use geotagger.Text.Bytes.{codes, str_eq}
use geotagger.NatsAudit.Stream.{
  is_file, is_work_queue, is_discard_new, int_eq, StreamConfig, memory, discard_old,
}
use geotagger.NatsAudit.{
  JetStream, InfoError, stream_not_found, EnsureError, audit_config, ensure_audit_stream,
}
use geotagger.NatsAudit.Settings.{IsSafe}
use geotagger.NatsAudit.Startup.{
  Reports, ensure_audit_stream-IsSafe, ensure_audit_stream_refuses, ensure_audit_stream_keeps,
}

abbrev Held : Type 0
Held = Option StreamConfig

abbrev info : Held → Held × Result InfoError StreamConfig
info none = (none, err stream_not_found)
info (some c) = (some c, ok c)

abbrev js : JetStream Held
js = record {
  stream_info = λ name s. info s;
  add_stream = λ c s. (some c, true);
  update_stream = λ c s. (some c, true);
}

told : (s s' : Held) (c : StreamConfig) → info s ≡ (s', ok c) → s' ≡ some c
told none s' c e = cc
told (some d) s' c e = cc

reports : Reports js (λ s. s) (codes "AUDIT")
reports = record { stream_info = told; add_stream = λ s s' c e. cc; update_stream = λ s s' c e. cc }

abbrev safe : StreamConfig
safe = audit_config (codes "AUDIT") (codes "audit.events")

abbrev evicting : StreamConfig
evicting = record safe { discard = discard_old }

abbrev in_memory : StreamConfig
in_memory = record safe { storage = memory }

repaired :
    ensure_audit_stream js (codes "AUDIT") (codes "audit.events") (some evicting)
    ≡ (some safe, ok tt)
unfolding ensure_audit_stream audit_config str_eq is_file is_work_queue is_discard_new int_eq
repaired = refl

ensure_audit_stream-IsSafe_example :
    (c : StreamConfig) × ((some safe ≡ some c) × IsSafe (codes "audit.events") c)
ensure_audit_stream-IsSafe_example =
    ensure_audit_stream-IsSafe js (λ s. s) (codes "AUDIT") (codes "audit.events") reports
      (some evicting) (some safe) repaired

ensure_audit_stream_refuses_example :
    (e : EnsureError) × (ensure_audit_stream js
        (codes "AUDIT")
        (codes "audit.events")
        (some in_memory)
      ≡ (some in_memory, err e))
ensure_audit_stream_refuses_example =
    ensure_audit_stream_refuses js (codes "AUDIT") (codes "audit.events") (some in_memory) in_memory
      refl (λ e. cc)

safe-IsSafe : IsSafe (codes "audit.events") safe
unfolding audit_config
safe-IsSafe = record {
  subjects = refl;
  storage = refl;
  retention = refl;
  max_consumers = refl;
  max_msgs = refl;
  max_msgs_per_subject = refl;
  max_bytes = refl;
  max_age = refl;
  discard = refl;
  no_ack = refl;
}

ensure_audit_stream_keeps_example :
    ensure_audit_stream js (codes "AUDIT") (codes "audit.events") (some safe) ≡ (some safe, ok tt)
ensure_audit_stream_keeps_example =
    ensure_audit_stream_keeps js (codes "AUDIT") (codes "audit.events") (some safe) safe refl
      safe-IsSafe
