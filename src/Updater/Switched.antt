-- ===== src/Updater/Switched.antt =====
-- The link `current` leads to what it led to, or to a complete bundle.
use geotagger.Prelude.{
  ◌≡◌, ◌≢◌, refl, sym, ◌∙◌, subst, ◌⊎◌, inl, inr, List, [], ◌∷◌, Option, none, some, Result, ok,
  err, Elem, Bool-cases, is_some,
}
use geotagger.Text.Bytes.{Str}
use geotagger.Text.Dict.{Dict}
use geotagger.Updater.Disk.{
  Disk, UpdateError, Outside, Action, go_on, ◌>>◌, ticked, syscall, attempt,
}
use geotagger.Updater.Download.{mmdb_name}
use geotagger.Updater.Bundle.{
  release_name, target_of, download_all, clean_stage, stage_bundle, or_unlink, rename_link,
  make_link, switch_link, publish_bundle,
}
use geotagger.Updater.Staged.{Verified, AllStored, all_stored, not_all, download_all-AllStored}

module _ (o : Outside) (editions : List Str) where
  -- The new release is there, with a verified file for each edition.
  pub record Released (d : Disk) : Type 0 where
    pub files : Dict Str
    pub there : Elem (record { name = release_name o; files = files }) d.releases
    pub complete : (e : Str) → Elem e editions → Verified o files (mmdb_name e)

  -- The link leads to it.
  pub record Active (d : Disk) : Type 0 where
    pub released : Released d
    pub current : d.current ≡ some (target_of (release_name o))

  pub data Switched (before : Option Str) : Result UpdateError (Unit {0}) × Disk → Type 0 where
    unswitched : (d : Disk) (e : UpdateError) → d.current ≡ before → Switched before (err e, d)
    switched : (d : Disk) (r : Result UpdateError (Unit {0})) → Active d → Switched before (r, d)

  moved : (d d' : Disk) → d'.releases ≡ d.releases → Released d → Released d'
  moved d d' same r = record {
    files = r.files;
    there = subst (Elem (record { name = release_name o; files = r.files })) (sym same) r.there;
    complete = r.complete;
  }

  syscall-cases :
      (f : Disk → Disk) (d : Disk)
      → (syscall o f d ≡ (err UpdateError.io_failed, ticked d))
        ⊎ (syscall o f d ≡ (ok tt, f (ticked d)))
  unfolding syscall
  syscall-cases f d = elim (Bool-cases (o.fails d.calls)) [
    | inl bad ↦ inl (rw bad refl)
    | inr good ↦ inr (rw good refl)
  ]

  module _ (c : Option Str) where
    synced : (d : Disk) → Active d → Switched c (syscall o (λ x. x) d)
    synced d a = elim (syscall-cases (λ x. x) d) [
      | inl bad ↦
          rw bad
            (switched _ _ (record { released = moved d _ refl a.released; current = a.current }))
      | inr good ↦
          rw good
            (switched _ _ (record { released = moved d _ refl a.released; current = a.current }))
    ]

    unlinked : (d : Disk) → (attempt o (λ x. record x { link = none }) d).1.current ≡ d.current
    unfolding attempt
    unlinked d = elim (Bool-cases (o.fails d.calls)) [
      | inl bad ↦ rw bad refl
      | inr good ↦ rw good refl
    ]

    renamed :
        (d : Disk)
        → d.current ≡ c
        → d.link ≡ some (target_of (release_name o))
        → Released d
        → Switched c ((rename_link o >> syscall o (λ x. x)) d)
    unfolding rename_link or_unlink
    renamed d same linked r =
        elim (syscall-cases (λ x. record x { current = x.link; link = none }) d) [
          | inr good ↦ rw good (
              synced (record (ticked d) { current = d.link; link = none })
                (record { released = moved d _ refl r; current = linked }))
          | inl bad ↦ rw bad (unswitched _ _ (unlinked (ticked d) ∙ same))
        ]

    made :
        (d : Disk)
        → d.current ≡ c
        → Released d
        → Switched c ((make_link o >> (rename_link o >> syscall o (λ x. x))) d)
    unfolding make_link
    made d same r = elim (Bool-cases (is_some d.link)) [
      | inl taken ↦ rw taken (unswitched _ _ same)
      | inr free ↦
          rw free
            (elim (syscall-cases (λ x. record x { link = some (target_of (release_name o)) }) d) [
              | inl bad ↦ rw bad (unswitched _ _ same)
              | inr good ↦ rw good (renamed _ same refl (moved d _ refl r))
            ])
    ]

    attempt_then :
        (f : Disk → Disk) (k : Action (Unit {0})) (d : Disk)
        → Switched c (k (ticked d))
        → Switched c (k (f (ticked d)))
        → Switched c ((attempt o f >> k) d)
    unfolding attempt
    attempt_then f k d kept changed = elim (Bool-cases (o.fails d.calls)) [
      | inl bad ↦ rw bad kept
      | inr good ↦ rw good changed
    ]

    switch_link-Switched : (d : Disk) → d.current ≡ c → Released d → Switched c (switch_link o d)
    unfolding switch_link
    switch_link-Switched d same r = elim (syscall-cases (λ x. x) d) [
      | inl bad ↦ rw bad (unswitched _ _ same)
      | inr good ↦ rw good (
          attempt_then (λ x. record x { link = none })
            (make_link o >> (rename_link o >> syscall o (λ x. x))) (ticked d)
            (made (ticked (ticked d)) same (moved d _ refl r))
            (made (record (ticked (ticked d)) { link = none }) same (moved d _ refl r)))
    ]

    cleaned :
        (d : Disk) (e : UpdateError)
        → d.current ≡ c
        → Switched c (
            (λ (p : Result UpdateError (Unit {0}) × Disk). go_on p.0 (λ _. switch_link o) p.1)
              (clean_stage o (err e, d)))
    unfolding clean_stage attempt
    cleaned d e same = elim (Bool-cases (o.fails d.calls)) [
      | inl kept ↦ rw kept (unswitched _ _ same)
      | inr gone ↦ rw gone (unswitched _ _ same)
    ]

    -- The end of the staging, or its clean-up.
    staged_then :
        (d : Disk) (r : Result UpdateError (Unit {0}) × Disk)
        → d.current ≡ c
        → AllStored o editions d r
        → Switched c (
            (λ (p : Result UpdateError (Unit {0}) × Disk). go_on p.0 (λ _. switch_link o) p.1)
              (clean_stage o (
                (λ (p : Result UpdateError (Unit {0}) × Disk).
                    go_on p.0
                      (λ _.
                        syscall o (λ x. x)
                        >> syscall o (λ x. record x {
                          stage = [];
                          releases = record { name = release_name o; files = x.stage } ∷ x.releases;
                        }))
                      p.1)
                  r)))
    unfolding clean_stage
    staged_then d r same (not_all d' e keeps) = cleaned d' e (keeps.current ∙ same)
    staged_then d r same (all_stored d' u keeps all others) = elim (syscall-cases (λ x. x) d') [
      | inl bad ↦ rw bad (cleaned (ticked d') UpdateError.io_failed (keeps.current ∙ same))
      | inr synced_ ↦
          rw synced_
            (elim (syscall-cases
              (λ x. record x {
                stage = [];
                releases = record { name = release_name o; files = x.stage } ∷ x.releases;
              })
              (ticked d')) [
                | inl bad ↦
                    rw bad
                      (cleaned (ticked (ticked d')) UpdateError.io_failed (keeps.current ∙ same))
                | inr good ↦ rw good (
                    switch_link-Switched _ (keeps.current ∙ same)
                      (record { files = d'.stage; there = inl refl; complete = all }))
              ])
    ]

    publish_bundle-Switched : (d : Disk) → d.current ≡ c → Switched c (publish_bundle o editions d)
    unfolding publish_bundle stage_bundle
    publish_bundle-Switched d same = elim (syscall-cases (λ x. x) d) [
      | inl bad ↦ rw bad (unswitched _ _ same)
      | inr first ↦ rw first (elim (syscall-cases (λ x. x) (ticked d)) [
        | inl bad ↦ rw bad (unswitched _ _ same)
        | inr second ↦
            rw second (elim (syscall-cases (λ x. record x { stage = [] }) (ticked (ticked d))) [
              | inl bad ↦ rw bad (unswitched _ _ same)
              | inr third ↦ rw third (
                  staged_then (record (ticked (ticked (ticked d))) { stage = [] })
                    (download_all o editions (record (ticked (ticked (ticked d))) { stage = [] }))
                    same
                    (download_all-AllStored o editions
                      (record (ticked (ticked (ticked d))) { stage = [] })))
            ])
      ])
    ]

  -- Whatever calls fail, after the work of updateBundle up to the pruning the link `current` leads
  -- where it led, and an error is returned; or it leads to the new release, which is there and has
  -- for each edition a file that the MaxMind library opens and verifies.
  pub publish_bundle_switches :
      (d : Disk)
      → (((publish_bundle o editions d).1.current ≡ d.current)
          × ((publish_bundle o editions d).0 ≢ ok tt))
        ⊎ Active (publish_bundle o editions d).1
  publish_bundle_switches d =
      go (publish_bundle o editions d) (publish_bundle-Switched d.current d refl)
    where
      go :
          (r : Result UpdateError (Unit {0}) × Disk)
          → Switched d.current r
          → ((r.1.current ≡ d.current) × (r.0 ≢ ok tt)) ⊎ Active r.1
      go r (unswitched d' e same) = inl (same, λ h. cc h)
      go r (switched d' x active) = inr active
