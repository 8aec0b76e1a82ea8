-- ===== src/KeyStore/Synced.antt =====
-- What the verifier holds while the synchronisation tells that it is healthy.
use geotagger.Prelude.{
  ℕ, ◌≡◌, refl, sym, ap, ◌∙◌, subst, ◌⊎◌, inl, inr, Bool, true, false, [], ◌∷◌, Option, none, some,
  All, length, Bool-cases,
}
use geotagger.Text.Bytes.{Str, str_eq}
use geotagger.Text.Dict.{Dict, lookup, delete}
use geotagger.Auth.{AuthError, Verifier, ManagedKey, ManagedCredential, replace_managed}
use geotagger.Auth.Managed.{Installs, find_key, Answers, kept, installed, replace_managed_installs}
use geotagger.KeyStore.Records.{KeyRecord}
use geotagger.KeyStore.Issued.{managed_key}
use geotagger.KeyStore.Sync.{SyncError, Sync, keys_of, applied, apply}

-- Under that id, the verifier has the credential of the record, and none where there is no record.
pub data Mirrors : Option KeyRecord → Option ManagedCredential → Type 0 where
  absent : Mirrors none none
  present :
      {r : KeyRecord} {c : ManagedCredential}
      → Installs (managed_key r) c
      → Mirrors (some r) (some c)

-- Each record stands under its own id.
abbrev pub IsKeyed : Dict KeyRecord → Type 0
IsKeyed = All (λ e. e.0 ≡ e.1.id)

-- How often the startup has been answered.
unfoldable pub answers : Bool → Bool → ℕ
answers true running = 1
answers false false = 1
answers false true = 0

pub record IsSynced (s : Sync) : Type 0 where
  pub keyed : IsKeyed s.state
  pub mirrors :
      s.healthy ≡ true → (id : Str) → Mirrors (lookup id s.state) (lookup id s.verifier.managed)
  pub startup : length s.ready ≡ answers s.ready_sent s.running
  pub healthy_running : s.healthy ≡ true → s.running ≡ true
  pub healthy_initialized : s.healthy ≡ true → s.initialized ≡ true
  pub initialized_sent : s.initialized ≡ true → s.ready_sent ≡ true
  pub sent_initialized : s.running ≡ true → s.ready_sent ≡ true → s.initialized ≡ true

pub delete-All :
    (P : Str × KeyRecord → Type 0) (k : Str) (m : Dict KeyRecord) → All P m → All P (delete k m)
unfolding delete
delete-All P k [] h = tt
delete-All P k ((j, r) ∷ m) (p, h) = elim (Bool-cases (str_eq j k)) [
  | inl hit ↦ rw hit (delete-All P k m h)
  | inr miss ↦ rw miss (p, delete-All P k m h)
]

find_key-keys_of :
    (id : Str) (m : Dict KeyRecord)
    → IsKeyed m
    → ((lookup id m ≡ none) × (find_key id (keys_of m) ≡ none))
      ⊎ ((r : KeyRecord) × (lookup id m ≡ some r)
          × (find_key id (keys_of m) ≡ some (managed_key r)))
unfolding find_key lookup managed_key
find_key-keys_of id [] h = inl (refl, refl)
find_key-keys_of id ((j, r) ∷ m) (own, h) = elim (Bool-cases (str_eq j id)) [
  | inl hit ↦ inr (r, rw hit refl, rw (← own) (rw hit refl))
  | inr miss ↦ rw (← own) (rw miss (find_key-keys_of id m h))
]

Mirrors-of_Answers :
    (id : Str) (m : Dict KeyRecord) (o : Option ManagedCredential)
    → IsKeyed m
    → Answers id none (keys_of m) o
    → Mirrors (lookup id m) o
Mirrors-of_Answers id m o h (kept unlisted gone) = elim (find_key-keys_of id m h) [
  | inl (no_record, _) ↦ rw (no_record, gone) absent
  | inr (r, _, listed) ↦ absurd (cc (unlisted, listed))
]
Mirrors-of_Answers id m o h (installed key c found _ after installs) =
    elim (find_key-keys_of id m h) [
      | inl (_, unlisted) ↦ absurd (cc (unlisted, found))
      | inr (r, has_record, listed) ↦
          rw (has_record, after)
            (present (subst (λ k. Installs k c) (some-injective (sym found ∙ listed)) installs))
    ]
  where
    some-injective : {a b : ManagedKey} → some a ≡ some b → a ≡ b
    some-injective e = cc

-- What `apply` leaves of a keyed state.
pub record Applied (s : Sync) (r : Option SyncError × Sync) : Type 0 where
  pub state : r.1.state ≡ s.state
  pub ready : r.1.ready ≡ s.ready
  pub ready_sent : r.1.ready_sent ≡ s.ready_sent
  pub running : r.1.running ≡ s.running
  pub initialized : r.1.initialized ≡ s.initialized
  pub mirrors :
      r.1.healthy ≡ true
      → (r.0 ≡ none) × ((id : Str) → Mirrors (lookup id s.state) (lookup id r.1.verifier.managed))

pub apply-Applied : (s : Sync) → IsKeyed s.state → Applied s (apply s)
unfolding apply
apply-Applied s keyed = go (replace_managed s.verifier (keys_of s.state)) refl
  where
    go :
        (r : Verifier × Option AuthError)
        → replace_managed s.verifier (keys_of s.state) ≡ r
        → Applied s (applied r s)
    go (v, none) e =
        unfold applied in
        record {
          state = refl;
          ready = refl;
          ready_sent = refl;
          running = refl;
          initialized = refl;
          mirrors = λ _. (
            refl,
            λ id. Mirrors-of_Answers id s.state (lookup id v.managed) keyed (
                subst (λ x. Answers id none (keys_of s.state) (lookup id x.managed))
                  (ap (λ p. p.0) e)
                  ((replace_managed_installs s.verifier (keys_of s.state) (ap (λ p. p.1) e)).2 id)),
          );
        }
    go (v, some x) e =
        unfold applied in
        record {
          state = refl;
          ready = refl;
          ready_sent = refl;
          running = refl;
          initialized = refl;
          mirrors = λ h. cc;
        }
