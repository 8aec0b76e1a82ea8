-- ===== src/Examples/Databases.antt =====
-- Two databases behind one link that stays, and one whose files change with every call.
use geotagger.Prelude.{ℕ, ◌≡◌, refl, true, false, some, ok}
use geotagger.Text.Bytes.{Str, codes, str_eq}
use geotagger.Text.Strings.{has_prefix, split}
use geotagger.Text.Paths.{clean, dir}
use geotagger.MaxMindGeo.Files.{Outside, World}
use geotagger.MaxMindGeo.Reload.{same_logical_dir, open_max_mind, reload_if_changed, watch}
use geotagger.MaxMindGeo.Pairs.{IsCoherent}
use geotagger.MaxMindGeo.Watching.{reload_if_changed_kept, watch_opened-IsCoherent}

abbrev files : Outside
files = record {
  eval_symlinks = λ n path. some path;
  stat_file = λ n path. some (record { size = 10; mod_time = 3 });
  open_file = λ n path. some (record { database_type = codes "City"; build_time = 1 });
  verify = λ n reader. true;
  close_fails = λ reader. false;
  rfc3339 = λ t. codes "1970";
}

abbrev changing_files : Outside
changing_files = record files { stat_file = λ n path. some (record { size = 10; mod_time = n }) }

abbrev city : Str
city = codes "/data/city"

abbrev asn : Str
asn = codes "/data/asn"

abbrev opened : World
opened = (open_max_mind files city asn 0).1

opened_ok : open_max_mind files city asn 0 ≡ (ok tt, opened)
unfolding open_max_mind same_logical_dir str_eq clean has_prefix dir split
opened_ok = refl

watch_opened-IsCoherent_example :
    IsCoherent (watch changing_files 3 (open_max_mind changing_files city asn 0).1).1
unfolding open_max_mind same_logical_dir str_eq clean has_prefix dir split
watch_opened-IsCoherent_example =
    watch_opened-IsCoherent changing_files city asn 0 3 (open_max_mind changing_files city asn 0).1
      refl

opened-IsCoherent : IsCoherent opened
unfolding watch
opened-IsCoherent = watch_opened-IsCoherent files city asn 0 0 opened opened_ok

reload_if_changed_kept_example :
    ((reload_if_changed files opened).1.maxmind ≡ opened.maxmind)
    × ((k : ℕ) → (reload_if_changed files opened).1.is_open k ≡ opened.is_open k)
unfolding reload_if_changed open_max_mind same_logical_dir str_eq clean has_prefix dir split
reload_if_changed_kept_example =
    reload_if_changed_kept files opened (reload_if_changed files opened).1 (ok false)
      opened-IsCoherent refl (λ e. cc e)
