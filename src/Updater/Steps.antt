-- ===== src/Updater/Steps.antt =====
-- The steps that store a file in the staging directory.
use geotagger.Prelude.{◌≡◌, refl, ap, ◌∙◌, inl, inr, true, [], Result, ok, err, Bool-cases}
use geotagger.Text.Bytes.{Str}
use geotagger.Text.Dict.{Dict, insert, has_key}
use geotagger.Updater.Disk.{
  Disk, UpdateError, Outside, Action, go_on, ◌>>◌, ticked, syscall, attempt,
}
use geotagger.Updater.Download.{
  limited, remove_staged, remove_and_fail, or_remove, create_file, copy_file, verify_file, store,
}

-- Nothing outside the staging directory has changed.
pub record Keeps (d d' : Disk) : Type 0 where
  pub current : d'.current ≡ d.current
  pub link : d'.link ≡ d.link
  pub releases : d'.releases ≡ d.releases

pub Keeps-trans : (a b c : Disk) → Keeps a b → Keeps b c → Keeps a c
Keeps-trans a b c x y = record {
  current = y.current ∙ x.current;
  link = y.link ∙ x.link;
  releases = y.releases ∙ x.releases;
}

module _ (o : Outside) where
  -- A step that changes the staging directory in one way and has checked something, or has failed.
  pub data Does (f : Dict Str → Dict Str) (P : Type 0) (d : Disk)
      : Result UpdateError (Unit {0}) × Disk → Type 0 where
    worked :
        (d' : Disk) (u : Unit {0}) → Keeps d d' → d'.stage ≡ f d.stage → P → Does f P d (ok u, d')
    did_not : (d' : Disk) (e : UpdateError) → Keeps d d' → Does f P d (err e, d')

  then_Does :
      {f g : Dict Str → Dict Str} {P Q : Type 0} (m k : Action (Unit {0})) (d : Disk)
      → Does f P d (m d)
      → ((d' : Disk) → Does g Q d' (k d'))
      → Does (λ s. g (f s)) Q d ((m >> k) d)
  then_Does {f} {g} {P} {Q} m k d first next = go (m d) first
    where
      after :
          (d' : Disk) (r : Result UpdateError (Unit {0}) × Disk)
          → Keeps d d'
          → d'.stage ≡ f d.stage
          → Does g Q d' r
          → Does (λ s. g (f s)) Q d r
      after d' r keeps stage (worked x u keeps' stage' q) =
          worked x u (Keeps-trans d d' x keeps keeps') (stage' ∙ ap g stage) q
      after d' r keeps stage (did_not x e keeps') = did_not x e (Keeps-trans d d' x keeps keeps')

      go :
          (r : Result UpdateError (Unit {0}) × Disk)
          → Does f P d r
          → Does (λ s. g (f s)) Q d (go_on r.0 (λ _. k) r.1)
      go r (worked d' u keeps stage p) = after d' (k d') keeps stage (next d')
      go r (did_not d' e keeps) = did_not d' e keeps

  fails_Does :
      {f : Dict Str → Dict Str} {P : Type 0} (name : Str) (e : UpdateError) (d : Disk)
      → Does f P d (remove_and_fail o name e d)
  unfolding remove_and_fail remove_staged attempt
  fails_Does name e d = elim (Bool-cases (o.fails d.calls)) [
    | inl bad ↦ rw bad (did_not _ e (record { current = refl; link = refl; releases = refl }))
    | inr good ↦ rw good (did_not _ e (record { current = refl; link = refl; releases = refl }))
  ]

  later_Does :
      {f : Dict Str → Dict Str} {P : Type 0} (d : Disk) (r : Result UpdateError (Unit {0}) × Disk)
      → Does f P (ticked d) r
      → Does f P d r
  later_Does d r (worked d' u k stage p) =
      worked d' u (record { current = k.current; link = k.link; releases = k.releases }) stage p
  later_Does d r (did_not d' e k) =
      did_not d' e (record { current = k.current; link = k.link; releases = k.releases })

  create_file-Does :
      (name : Str) (d : Disk) → Does (insert name []) (Unit {0}) d (create_file o name d)
  unfolding create_file syscall
  create_file-Does name d = elim (Bool-cases (has_key name d.stage)) [
    | inl there_ ↦ rw there_ (did_not _ _ (record { current = refl; link = refl; releases = refl }))
    | inr absent ↦ elim (Bool-cases (o.fails d.calls)) [
      | inl bad ↦
          rw (absent, bad) (did_not _ _ (record { current = refl; link = refl; releases = refl }))
      | inr good ↦
          rw (absent, good)
            (worked _ _ (record { current = refl; link = refl; releases = refl }) refl tt)
    ]
  ]

  copy_file-Does :
      (name content : Str) (d : Disk)
      → Does (insert name (limited content)) (Unit {0}) d (copy_file o name content d)
  unfolding copy_file
  copy_file-Does name content d = elim (Bool-cases (o.fails d.calls)) [
    | inl bad ↦ rw bad (later_Does d _ (fails_Does name UpdateError.io_failed (ticked d)))
    | inr good ↦
        rw good (worked _ _ (record { current = refl; link = refl; releases = refl }) refl tt)
  ]

  or_remove-Does : {P : Type 0} (name : Str) (d : Disk) → P → Does (λ s. s) P d (or_remove o name d)
  unfolding or_remove
  or_remove-Does name d p = elim (Bool-cases (o.fails d.calls)) [
    | inl bad ↦ rw bad (later_Does d _ (fails_Does name UpdateError.io_failed (ticked d)))
    | inr good ↦
        rw good (worked _ _ (record { current = refl; link = refl; releases = refl }) refl p)
  ]

  verify_file-Does :
      (name content : Str) (d : Disk)
      → Does
          (λ s. s)
          ((o.opens content ≡ true) × (o.verifies content ≡ true))
          d
          (verify_file o name content d)
  unfolding verify_file
  verify_file-Does name content d = elim (Bool-cases (o.opens content)) [
    | inr closed ↦ rw closed (fails_Does name UpdateError.not_opened d)
    | inl opens ↦ elim (Bool-cases (o.verifies content)) [
      | inr bad ↦ rw (opens, bad) (fails_Does name UpdateError.not_verified d)
      | inl verifies ↦ rw (opens, verifies) (or_remove-Does name d (refl, refl))
    ]
  ]

  pub store-Does :
      (name content : Str) (d : Disk)
      → Does
          (λ s. insert name (limited content) (insert name [] s))
          ((o.opens (limited content) ≡ true) × (o.verifies (limited content) ≡ true))
          d
          (store o name content d)
  unfolding store
  store-Does name content d = then_Does (create_file o name) _ d (create_file-Does name d) (λ d₁.
      then_Does (copy_file o name content) _ d₁ (copy_file-Does name content d₁) (λ d₂.
        then_Does (or_remove o name) _ d₂ (or_remove-Does name d₂ tt) (λ d₃.
          then_Does (or_remove o name) _ d₃ (or_remove-Does name d₃ tt)
            (λ d₄. verify_file-Does name (limited content) d₄))))
