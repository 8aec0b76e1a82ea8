-- ===== src/NatsAudit/Settings.antt =====
-- The settings that ensureAuditStream reconciles, one after another.
use geotagger.Prelude.{
  ◌≡◌, refl, sym, ap, ◌∙◌, Bool, true, false, not, List, [], ◌∷◌, Bool-cases, inl, inr,
}
use geotagger.Text.Bytes.{Str, str_eq_iff}
use geotagger.NatsAudit.Stream.{
  pos, negsuc, int_eq_sound, file, work_queue, Discard, discard_old, discard_new, is_discard_new,
  StreamConfig,
}
use geotagger.NatsAudit.{audit_stream_max_bytes, Change, set_unless, is_only, reconcile}

-- A configuration under which an event that was accepted stays until a worker acknowledges it.
pub record IsSafe (subject : Str) (c : StreamConfig) : Type 0 where
  pub subjects : c.subjects ≡ subject ∷ []
  pub storage : c.storage ≡ file
  pub retention : c.retention ≡ work_queue
  pub max_consumers : c.max_consumers ≡ negsuc 0
  pub max_msgs : c.max_msgs ≡ negsuc 0
  pub max_msgs_per_subject : c.max_msgs_per_subject ≡ negsuc 0
  pub max_bytes : c.max_bytes ≡ audit_stream_max_bytes
  pub max_age : c.max_age ≡ pos 0
  pub discard : c.discard ≡ discard_new
  pub no_ack : c.no_ack ≡ false

-- The configuration with every mutable setting at its safe value.
abbrev pub settle_config : Str → StreamConfig → StreamConfig
settle_config subject c = record c {
  subjects = subject ∷ [];
  max_consumers = negsuc 0;
  max_msgs = negsuc 0;
  max_msgs_per_subject = negsuc 0;
  max_age = pos 0;
  max_bytes = audit_stream_max_bytes;
  discard = discard_new;
  no_ack = false;
}

set_unless_sets :
    (good : StreamConfig → Bool) (set : StreamConfig → StreamConfig) (s : Change)
    → ((c : StreamConfig) → good c ≡ true → set c ≡ c)
    → (set_unless good set s).0 ≡ set s.0
unfolding set_unless
set_unless_sets good set (c, changed) same = elim (Bool-cases (good c)) [
  | inl held ↦ rw held (sym (same c held))
  | inr unset ↦ rw unset refl
]

set_unless_unchanged :
    (good : StreamConfig → Bool) (set : StreamConfig → StreamConfig) (s : Change)
    → (set_unless good set s).1 ≡ false
    → ((set_unless good set s).0 ≡ s.0) × (s.1 ≡ false)
unfolding set_unless
set_unless_unchanged good set (c, changed) h = elim (Bool-cases (good c)) [
  | inl held ↦ rw held (refl, rw held at h)
  | inr unset ↦ cc (rw unset at h)
]

-- The settings so far have made `t` of `c`; where none was changed, `t` is `c`.
pub record Tracks (c : StreamConfig) (s : Change) (t : StreamConfig) : Type 0 where
  pub config : s.0 ≡ t
  pub unchanged : s.1 ≡ false → t ≡ c

set_unless-Tracks :
    (c : StreamConfig) (good : StreamConfig → Bool) (set : StreamConfig → StreamConfig) (s : Change)
    (t : StreamConfig)
    → ((d : StreamConfig) → good d ≡ true → set d ≡ d)
    → Tracks c s t
    → Tracks c (set_unless good set s) (set t)
set_unless-Tracks c good set s t same h = record {
  config = set_unless_sets good set s same ∙ ap set h.config;
  unchanged = λ kept.
      let (unset, before) = set_unless_unchanged good set s kept in
      ap set (sym h.config)
      ∙ sym (set_unless_sets good set s same)
      ∙ unset
      ∙ h.config
      ∙ h.unchanged before;
}

is_only_sound :
    (subject : Str) (subjects : List Str)
    → is_only subject subjects ≡ true
    → subject ∷ [] ≡ subjects
unfolding is_only
is_only_sound subject [] h = cc
is_only_sound subject (s ∷ []) h = ap (λ t. t ∷ []) (sym ((str_eq_iff s subject).0 h))
is_only_sound subject (s ∷ t ∷ more) h = cc

is_discard_new_sound : (d : Discard) → is_discard_new d ≡ true → discard_new ≡ d
unfolding is_discard_new
is_discard_new_sound discard_new h = refl
is_discard_new_sound discard_old h = cc

not_sound : (b : Bool) → not b ≡ true → false ≡ b
not_sound true h = cc
not_sound false h = refl

pub reconcile-Tracks :
    (subject : Str) (c : StreamConfig) → Tracks c (reconcile subject c) (settle_config subject c)
unfolding reconcile
reconcile-Tracks subject c =
    set_unless-Tracks c _ (λ d. record d { no_ack = false }) _ _
      (λ d h. ap (λ x. record d { no_ack = x }) (not_sound d.no_ack h))
      (set_unless-Tracks c _ (λ d. record d { discard = discard_new }) _ _
        (λ d h. ap (λ x. record d { discard = x }) (is_discard_new_sound d.discard h))
        (set_unless-Tracks c _ (λ d. record d { max_bytes = audit_stream_max_bytes }) _ _
          (λ d h. ap (λ x. record d { max_bytes = x }) (int_eq_sound d.max_bytes _ h))
          (set_unless-Tracks c _ (λ d. record d { max_age = pos 0 }) _ _
            (λ d h. ap (λ x. record d { max_age = x }) (int_eq_sound d.max_age _ h))
            (set_unless-Tracks c _ (λ d. record d { max_msgs_per_subject = negsuc 0 }) _ _
              (λ d h.
                ap (λ x. record d { max_msgs_per_subject = x })
                  (int_eq_sound d.max_msgs_per_subject _ h))
              (set_unless-Tracks c _ (λ d. record d { max_msgs = negsuc 0 }) _ _
                (λ d h. ap (λ x. record d { max_msgs = x }) (int_eq_sound d.max_msgs _ h))
                (set_unless-Tracks c _ (λ d. record d { max_consumers = negsuc 0 }) _ _
                  (λ d h.
                    ap (λ x. record d { max_consumers = x }) (int_eq_sound d.max_consumers _ h))
                  (set_unless-Tracks c _ (λ d. record d { subjects = subject ∷ [] }) _ _
                    (λ d h.
                      ap (λ x. record d { subjects = x }) (is_only_sound subject d.subjects h))
                    (record { config = refl; unchanged = λ _. refl }))))))))
