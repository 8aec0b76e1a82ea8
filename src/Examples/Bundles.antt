-- ===== src/Examples/Bundles.antt =====
-- A bundle of one edition that is published, and releases that are pruned.
use geotagger.Prelude.{◌≡◌, ◌≢◌, ◌⊎◌, refl, true, false, none, some, [], ◌∷◌, ok}
use geotagger.Text.Bytes.{Str, codes, str_eq}
use geotagger.Text.Strings.{has_prefix}
use geotagger.Text.Order.{str_lt}
use geotagger.Updater.Disk.{Release, Disk, Outside, entry, end_of_archive}
use geotagger.Updater.Bundle.{publish_bundle, prune_releases}
use geotagger.Updater.Switched.{Active, publish_bundle_switches}

abbrev outside : Outside
outside = record {
  fails = λ n. false;
  download = λ n edition. some (entry true (codes "x/A.mmdb") (codes "data") end_of_archive);
  opens = λ content. true;
  verifies = λ content. true;
  suffix = codes "1";
  stamp = codes "2026";
}

abbrev release : Str → Release
release name = record { name = name; files = [] }

abbrev disk : Disk
disk = record {
  current = some (codes "releases/release-1");
  link = none;
  stage = [];
  releases = release (codes "release-1") ∷ [];
  calls = 0;
}

publish_bundle_switches_example :
    (((publish_bundle outside (codes "A" ∷ []) disk).1.current ≡ disk.current)
      × ((publish_bundle outside (codes "A" ∷ []) disk).0 ≢ ok tt))
    ⊎ Active outside (codes "A" ∷ []) (publish_bundle outside (codes "A" ∷ []) disk).1
publish_bundle_switches_example = publish_bundle_switches outside (codes "A" ∷ []) disk

-- The release that was added last goes, where three others have greater names.
abbrev four_releases : Disk
four_releases = record disk {
  releases =
      release (codes "release-1")
      ∷ release (codes "release-2")
      ∷ release (codes "release-3")
      ∷ release (codes "release-4")
      ∷ [];
}

least_name_pruned :
    (prune_releases outside 3 four_releases).1.releases
    ≡ release (codes "release-2") ∷ release (codes "release-3") ∷ release (codes "release-4") ∷ []
unfolding prune_releases has_prefix str_eq str_lt
least_name_pruned = refl
