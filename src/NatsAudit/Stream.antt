-- ===== src/NatsAudit/Stream.antt =====
-- The configuration of a JetStream stream (nats.StreamConfig), as far as ensureAuditStream sets or
-- tests it, with the integers of Go over the native numbers.
use geotagger.Prelude.{ℕ, ◌≡◌, ap, Bool, true, false, ◌==◌, ==_iff, List, arith}
use geotagger.Text.Bytes.{Str}

pub data ℤ : Type 0 where
  pos negsuc : ℕ → ℤ

unfoldable pub int_eq : ℤ → ℤ → Bool
int_eq (pos a) (pos b) = a == b
int_eq (negsuc a) (negsuc b) = a == b
int_eq (pos a) (negsuc b) = false
int_eq (negsuc a) (pos b) = false

pub int_eq_sound : (a b : ℤ) → int_eq a b ≡ true → b ≡ a
unfolding int_eq
int_eq_sound (pos a) (pos b) h = ap pos (omega (arith, (==_iff a b).0 h))
int_eq_sound (negsuc a) (negsuc b) h = ap negsuc (omega (arith, (==_iff a b).0 h))
int_eq_sound (pos a) (negsuc b) h = cc
int_eq_sound (negsuc a) (pos b) h = cc

pub data Storage : Type 0 where
  file memory : Storage

unfoldable pub is_file : Storage → Bool
is_file file = true
is_file memory = false

pub data Retention : Type 0 where
  limits interest work_queue : Retention

unfoldable pub is_work_queue : Retention → Bool
is_work_queue work_queue = true
is_work_queue limits = false
is_work_queue interest = false

pub data Discard : Type 0 where
  discard_old discard_new : Discard

unfoldable pub is_discard_new : Discard → Bool
is_discard_new discard_new = true
is_discard_new discard_old = false

pub record StreamConfig : Type 0 where
  pub name : Str
  pub subjects : List Str
  pub storage : Storage
  pub retention : Retention
  pub max_consumers : ℤ
  pub max_msgs : ℤ
  pub max_msgs_per_subject : ℤ
  pub max_bytes : ℤ
  pub max_age : ℤ
  pub discard : Discard
  pub no_ack : Bool
