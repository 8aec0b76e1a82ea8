-- ===== src/Examples/Slot.antt =====
-- A bucket with room for one entry, and a format with texts for two records.
use geotagger.Prelude.{
  ℕ, suc, ◌≡◌, ◌≢◌, refl, sym, ap, ◌∙◌, subst, ◌⊎◌, inl, inr, Bool, true, false, ◌&&◌, List, [],
  ◌∷◌, Option, none, some, Result, ok, err, is_some, not, ◌==◌, ==_iff, if◌then◌else◌, Bool-cases,
  &&-true, some-injective, some-ne-none, Elem,
}
use geotagger.Text.Bytes.{Str, codes, str_eq, str_eq_iff, str_eq_refl, is_empty}
use geotagger.KeyStore.Records.{KeyRecord, Entry}
use geotagger.KeyStore.Operations.{
  KvError, key_not_found, key_deleted, no_keys_found, kv_unavailable, KeyValue,
}
use geotagger.KeyStore.Listed.{IsBucket}
use geotagger.KeyStore.Written.{IsJson}

abbrev pub shown : Option Entry → Str → Option Entry
shown none id = none
shown (some e) id = if str_eq e.key id then some e else none

abbrev pub answer_get : Option Entry → Result KvError Entry
answer_get none = err key_not_found
answer_get (some e) = ok e

abbrev pub put : Str → Str → Option Entry → Option Entry × Result KvError ℕ
put id value none = (some (record { key = id; value = value; revision = 1 }), ok 1)
put id value (some e) = (some e, err kv_unavailable)

abbrev pub key_names : Option Entry → Result KvError (List Str)
key_names none = err no_keys_found
key_names (some e) = ok (e.key ∷ [])

abbrev pub slot : KeyValue (Option Entry)
slot = record {
  get = λ id s. (s, answer_get (shown s id));
  create = put;
  update = λ id value revision s.
      (some (record { key = id; value = value; revision = suc revision }), ok (suc revision));
  keys = λ s. (s, key_names s);
}

abbrev pub live : KeyRecord
live = record {
  id = codes "web";
  secret_sha256 = codes "0000000000000000000000000000000000000000000000000000000000000000";
  display_name = [];
  owner = [];
  environment = [];
  created_at = 5;
  rotated_at = none;
  expires_at = none;
  revoked_at = none;
  revocation_reason = [];
  revision = 0;
}

abbrev pub dead : KeyRecord
dead = record live { revoked_at = some 5 }

abbrev pub is_five : Option ℕ → Bool
is_five none = false
is_five (some n) = n == 5

-- The record is `live` but for its revision and its revocation.
abbrev pub is_web : KeyRecord → Bool
is_web r =
    str_eq r.id live.id
    && (str_eq r.secret_sha256 live.secret_sha256
        && (is_empty r.display_name
            && (is_empty r.owner
                && (is_empty r.environment
                    && (r.created_at == 5
                        && (not (is_some r.rotated_at)
                            && (not (is_some r.expires_at) && is_empty r.revocation_reason)))))))

-- A format that has texts for two records.
abbrev pub marshal : KeyRecord → Option Str
marshal r =
    if is_web r
    then (if is_five r.revoked_at
        then some (codes "dead")
        else if is_some r.revoked_at
        then none
        else some (codes "live"))
    else none

abbrev pub unmarshal : Str → Option KeyRecord
unmarshal text = if str_eq text (codes "dead") then some dead else some live

got : (o : Option Entry) (e : Entry) → answer_get o ≡ ok e → o ≡ some e
got none e h = cc
got (some x) e h = cc

not_got : (o : Option Entry) → answer_get o ≡ err key_not_found → o ≡ none
not_got none h = refl
not_got (some x) h = cc

not_deleted : (o : Option Entry) → answer_get o ≢ err key_deleted
not_deleted none h = cc
not_deleted (some x) h = cc

shown_key : (s : Option Entry) (id : Str) (e : Entry) → shown s id ≡ some e → e.key ≡ id
shown_key none id e h = cc
shown_key (some x) id e h = elim (Bool-cases (str_eq x.key id)) [
  | inl hit ↦
      let same : x ≡ e = some-injective (rw hit at h) in
      ap (λ y. y.key) (sym same) ∙ (str_eq_iff x.key id).0 hit
  | inr miss ↦ absurd (some-ne-none (sym (rw miss at h)))
]

listed_keys :
    (s t : Option Entry) (names : List Str)
    → ◌≡◌ {A = Option Entry × Result KvError (List Str)} (s, key_names s) (t, ok names)
    → (t ≡ s) × ((id : Str) → (shown s id ≡ none) ⊎ Elem id names)
listed_keys none t names h = cc
listed_keys (some x) t names h = (
  sym (ap (λ p. p.0) h),
  λ id. elim (Bool-cases (str_eq x.key id)) [
    | inl hit ↦
        let is : x.key ∷ [] ≡ names = cc in
        inr (subst (Elem id) is (inl (sym ((str_eq_iff x.key id).0 hit))))
    | inr miss ↦ inl (rw miss refl)
  ],
)

no_listed_keys :
    (s t : Option Entry)
    → ◌≡◌ {A = Option Entry × Result KvError (List Str)} (s, key_names s) (t, err no_keys_found)
    → (t ≡ s) × ((id : Str) → shown s id ≡ none)
no_listed_keys none t h = (sym (ap (λ p. p.0) h), λ id. refl)
no_listed_keys (some x) t h = cc

was_put :
    (id value : Str) (s t : Option Entry) (n : ℕ)
    → put id value s ≡ (t, ok n)
    → shown t id ≡ some (record { key = id; value = value; revision = n })
was_put id value none t n h =
    let there_ : some (record { key = id; value = value; revision = 1 }) ≡ t = ap (λ p. p.0) h in
    let first : 1 ≡ n = cc in rw (← there_, ← first, str_eq_refl id) refl
was_put id value (some x) t n h = cc

was_updated :
    (id value : Str) (revision : ℕ) (t : Option Entry) (n : ℕ)
    → ◌≡◌ {A = Option Entry × Result KvError ℕ}
        (some (record { key = id; value = value; revision = suc revision }), ok (suc revision))
        (t, ok n)
    → shown t id ≡ some (record { key = id; value = value; revision = n })
was_updated id value revision t n h =
    let there_ : some (record { key = id; value = value; revision = suc revision }) ≡ t =
      ap (λ p. p.0) h in
    let next : suc revision ≡ n = cc in rw (← there_, ← next, str_eq_refl id) refl

pub slot-IsBucket : IsBucket slot shown
slot-IsBucket = record {
  found = λ id s t e h. (sym (ap (λ p. p.0) h), got (shown s id) e (ap (λ p. p.1) h));
  absent = λ id s t h. (sym (ap (λ p. p.0) h), not_got (shown s id) (ap (λ p. p.1) h));
  deleted = λ id s t h. absurd (not_deleted (shown s id) (ap (λ p. p.1) h));
  keyed = shown_key;
  all_keys = listed_keys;
  no_keys = no_listed_keys;
  created = was_put;
  updated = λ id value revision s t n h. was_updated id value revision t n h;
}

is_empty_lem : (s : Str) → is_empty s ≡ true → s ≡ []
is_empty_lem [] h = refl
is_empty_lem (x ∷ s) h = cc

absent_lem : {A : Type 0} (o : Option A) → not (is_some o) ≡ true → o ≡ none
absent_lem none h = refl
absent_lem (some a) h = cc

is_web_lem : (r : KeyRecord) → is_web r ≡ true → record r { revision = 0; revoked_at = none } ≡ live
is_web_lem r h =
    let (id, h₁) = &&-true _ _ h in
    let (digest, h₂) = &&-true _ _ h₁ in
    let (name, h₃) = &&-true _ _ h₂ in
    let (owner, h₄) = &&-true _ _ h₃ in
    let (environment, h₅) = &&-true _ _ h₄ in
    let (created_at, h₆) = &&-true _ _ h₅ in
    let (rotated, h₇) = &&-true _ _ h₆ in
    let (expires, reason) = &&-true _ _ h₇ in
    cc (
      (str_eq_iff r.id live.id).0 id,
      (str_eq_iff r.secret_sha256 live.secret_sha256).0 digest,
      is_empty_lem r.display_name name,
      is_empty_lem r.owner owner,
      is_empty_lem r.environment environment,
      (==_iff r.created_at 5).0 created_at,
      absent_lem r.rotated_at rotated,
      absent_lem r.expires_at expires,
      is_empty_lem r.revocation_reason reason,
    )

abbrev pub with_revoked : KeyRecord → Option ℕ → KeyRecord
with_revoked r o = record r { revision = 0; revoked_at = o }

pub json : IsJson marshal unmarshal
unfolding str_eq
json = record { decodes = decodes }
  where
    stated : KeyRecord → Option ℕ → Option Str
    stated r revoked_at =
        if is_web r
        then (if is_five revoked_at
            then some (codes "dead")
            else if is_some revoked_at
            then none
            else some (codes "live"))
        else none

    decodes :
        (r : KeyRecord) (text : Str)
        → marshal r ≡ some text
        → unmarshal text ≡ some (record r { revision = 0 })
    decodes r text h = elim (Bool-cases (is_web r)) [
      | inl web ↦ go r.revoked_at refl web (rw web at h)
      | inr other ↦ absurd (some-ne-none (sym (rw other at h)))
    ]
      where
        go :
            (o : Option ℕ)
            → r.revoked_at ≡ o
            → is_web r ≡ true
            → (if is_five o
                then some (codes "dead")
                else if is_some o
                then none
                else some (codes "live"))
              ≡ some text
            → unmarshal text ≡ some (record r { revision = 0 })
        go none at_ web h' =
            subst (λ x. unmarshal x ≡ some (record r { revision = 0 })) (some-injective h')
              (ap some (sym (ap (with_revoked r) at_ ∙ is_web_lem r web)))
        go (some n) at_ web h' = elim (Bool-cases (n == 5)) [
          | inl five ↦
              subst (λ x. unmarshal x ≡ some (record r { revision = 0 }))
                (some-injective (rw five at h'))
                (ap some (
                  sym (
                    ap (with_revoked r) (at_ ∙ ap some ((==_iff n 5).0 five))
                    ∙ ap (λ x. with_revoked x (some 5)) (is_web_lem r web))))
          | inr other ↦ absurd (some-ne-none (sym (rw other at h')))
        ]
