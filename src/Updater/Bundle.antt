-- ===== src/Updater/Bundle.antt =====
-- updateBundle and pruneReleases.
use geotagger.Prelude.{
  ℕ, zero, suc, Bool, List, [], ◌∷◌, ◌++◌, none, some, Result, ok, err, sort, is_some,
  if◌then◌else◌,
}
use geotagger.Text.Bytes.{Str, codes, str_eq}
use geotagger.Text.Strings.{has_prefix}
use geotagger.Text.Paths.{join}
use geotagger.Text.Order.{str_lt}
use geotagger.Updater.Disk.{
  Release, Disk, UpdateError, io_failed, Outside, Action, ◌>>◌, give, ticked, syscall, attempt,
}
use geotagger.Updater.Download.{download_edition}

abbrev pub retained_releases : ℕ
retained_releases = 3

unfoldable pub release_name : Outside → Str
release_name o = codes "release-" ++ o.stamp ++ b'-' ∷ o.suffix

-- The link's target.
unfoldable pub target_of : Str → Str
target_of name = join (codes "releases") name

unfoldable pub release_names : List Release → List Str
release_names [] = []
release_names (r ∷ releases) =
    let rest = release_names releases in
    if has_prefix r.name (codes "release-") then r.name ∷ rest else rest

unfoldable pub drop_names : ℕ → List Str → List Str
drop_names zero names = names
drop_names (suc n) [] = []
drop_names (suc n) (name ∷ names) = drop_names n names

unfoldable pub without : Str → List Release → List Release
without name [] = []
without name (r ∷ releases) =
    let rest = without name releases in if str_eq r.name name then rest else r ∷ rest

-- sort.Sort(sort.Reverse(sort.StringSlice(names))) puts the greatest name first.
abbrev pub newest_first : Str → Str → Bool
newest_first a b = str_lt b a

module _ (o : Outside) where
  unfoldable pub remove_releases : List Str → Action (Unit {0})
  unfolding syscall without
  remove_releases [] = give (ok tt)
  remove_releases (name ∷ names) = do
    syscall o (λ d. record d { releases = without name d.releases })
    remove_releases names

  -- pruneReleases; a fsync changes nothing that a reader sees.
  unfoldable pub prune_releases : ℕ → Action (Unit {0})
  unfolding remove_releases release_names drop_names sort
  prune_releases keep = do
    syscall o (λ d. d)
    λ d. remove_releases (drop_names keep (sort newest_first (release_names d.releases))) d
    syscall o (λ d. d)

  unfoldable pub download_all : List Str → Action (Unit {0})
  unfolding download_edition
  download_all [] = give (ok tt)
  download_all (edition ∷ editions) = do download_edition o edition; download_all editions

  -- The deferred function while the staging directory is there.
  unfoldable pub clean_stage :
      Result UpdateError (Unit {0}) × Disk → Result UpdateError (Unit {0}) × Disk
  unfolding attempt
  clean_stage (ok _, d) = (ok tt, d)
  clean_stage (err e, d) = (err e, (attempt o (λ x. record x { stage = [] }) d).1)

  -- Up to the rename of the staging directory.
  unfoldable pub stage_bundle : List Str → Action (Unit {0})
  unfolding download_all syscall
  stage_bundle editions = do
    download_all editions
    syscall o (λ d. d)
    syscall o (λ d. record d {
      stage = [];
      releases = record { name = release_name o; files = d.stage } ∷ d.releases;
    })

  -- The new link is removed where the rename has failed.
  unfoldable pub or_unlink :
      Result UpdateError (Unit {0}) × Disk → Result UpdateError (Unit {0}) × Disk
  unfolding attempt
  or_unlink (ok _, d) = (ok tt, d)
  or_unlink (err e, d) = (err e, (attempt o (λ x. record x { link = none }) d).1)

  unfoldable pub rename_link : Action (Unit {0})
  unfolding syscall or_unlink
  rename_link d = or_unlink (syscall o (λ x. record x { current = x.link; link = none }) d)

  unfoldable pub make_link : Action (Unit {0})
  unfolding syscall target_of release_name
  make_link d =
      if is_some d.link
      then (err io_failed, ticked d)
      else syscall o (λ x. record x { link = some (target_of (release_name o)) }) d

  unfoldable pub switch_link : Action (Unit {0})
  unfolding make_link rename_link attempt
  switch_link = do
    syscall o (λ d. d)
    attempt o (λ d. record d { link = none })
    make_link
    rename_link
    syscall o (λ d. d)

  -- updateBundle up to the pruning, over a staging directory of its own.
  unfoldable pub publish_bundle : List Str → Action (Unit {0})
  unfolding stage_bundle clean_stage switch_link syscall
  publish_bundle editions = do
    syscall o (λ d. d)
    syscall o (λ d. d)
    syscall o (λ d. record d { stage = [] })
    λ d. clean_stage (stage_bundle editions d)
    switch_link

  -- updateBundle
  unfoldable pub update_bundle : List Str → Action (Unit {0})
  unfolding publish_bundle prune_releases
  update_bundle editions = do
    publish_bundle editions
    λ d. (ok tt, (prune_releases retained_releases d).1)
