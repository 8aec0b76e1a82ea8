-- ===== src/MaxMindGeo/Reload.antt =====
-- OpenMaxMind, Version, Close, Watch and ReloadIfChanged.
use geotagger.Prelude.{
  ℕ, zero, suc, Bool, true, false, ◌||◌, not, List, [], ◌∷◌, ◌++◌, Option, none, some, Result, ok,
  err, ltb, ◌==◌, if◌then◌else◌,
}
use geotagger.Text.Bytes.{Str, codes, str_eq}
use geotagger.Text.Paths.{clean, dir}
use geotagger.MaxMindGeo.Files.{
  FileStamp, Reader, MaxMind, FileInfo, Metadata, Outside, StampError, unresolved, no_info,
  empty_file, OpenError, unopened, unverified, MaxMindError, stat_city, stat_asn, open_city,
  open_asn, incoherent, World, Action, ◌>>=◌, ◌>>◌, give, wrapped, tick, changed, close_reader,
  close_old,
}

-- fileStamp{}
abbrev pub no_stamp : FileStamp
no_stamp = record { resolved_path = []; mod_time = 0; size = 0 }

unfoldable pub stamp_info : Str → Option FileInfo → Result StampError FileStamp
stamp_info resolved none = err no_info
stamp_info resolved (some info) =
    if ltb 0 info.size
    then ok (record { resolved_path = resolved; mod_time = info.mod_time; size = info.size })
    else err empty_file

unfoldable pub same_logical_dir : MaxMind → Bool
same_logical_dir m = str_eq (clean (dir m.city_path)) (clean (dir m.asn_path))

unfoldable pub install_city : FileStamp → Option (Reader × Str) → MaxMind → MaxMind
install_city stamp none m = m
install_city stamp (some (r, version)) m = record m {
  city_reader = some r;
  city_version = version;
  city_stamp = stamp;
}

unfoldable pub install_asn : FileStamp → Option (Reader × Str) → MaxMind → MaxMind
install_asn stamp none m = m
install_asn stamp (some (r, version)) m = record m {
  asn_reader = some r;
  asn_version = version;
  asn_stamp = stamp;
}

-- The old reader of a database that has changed.
unfoldable pub close_changed : Bool → Option Reader → Action MaxMindError (Unit {0})
unfolding close_old
close_changed false old = give (ok tt)
close_changed true old = close_old old

-- newCity is closed where the other database does not open.
unfoldable pub or_close :
    Option (Reader × Str)
    → Result OpenError (Option (Reader × Str))
    → Action MaxMindError (Option (Reader × Str))
unfolding close_reader
or_close new_city (ok new_asn) = give (ok new_asn)
or_close none (err e) = give (err (open_asn e))
or_close (some (r, version)) (err e) = do close_reader r; give (err (open_asn e))

unfoldable pub exchange :
    Bool
    → Bool
    → FileStamp
    → FileStamp
    → Option (Reader × Str)
    → Option (Reader × Str)
    → Action MaxMindError (Unit {0})
unfolding install_city install_asn close_changed
exchange city_changed asn_changed city_stamp asn_stamp new_city new_asn w =
    let old = w.maxmind in
    (close_changed city_changed old.city_reader >> close_changed asn_changed old.asn_reader)
      (record w { maxmind = install_asn asn_stamp new_asn (install_city city_stamp new_city old) })

unfoldable pub version : MaxMind → Str
version m = codes "city=" ++ m.city_version ++ codes ";asn=" ++ m.asn_version

-- What Watch reports in a round.
pub data Report : Type 0 where
  failed : MaxMindError → Report
  reloaded : Str → Report

unfoldable pub report : Result MaxMindError Bool × World → List Report
unfolding version
report (err e, w) = failed e ∷ []
report (ok true, w) = reloaded (version w.maxmind) ∷ []
report (ok false, w) = []

module _ (o : Outside) where
  unfoldable pub stamp_resolved : Option Str → Action StampError FileStamp
  unfolding stamp_info
  stamp_resolved none = give (err unresolved)
  stamp_resolved (some resolved) = do n ← tick; give (stamp_info resolved (o.stat_file n resolved))

  -- stampFile
  unfoldable pub stamp_file : Str → Action StampError FileStamp
  unfolding stamp_resolved
  stamp_file path = do n ← tick; stamp_resolved (o.eval_symlinks n path)

  -- The loop of snapshot, with the attempts that are left.
  unfoldable pub snapshot_from : Bool → MaxMind → ℕ → Action MaxMindError (FileStamp × FileStamp)
  unfolding stamp_file
  snapshot_from same_logical_dir m zero = give (err incoherent)
  snapshot_from same_logical_dir m (suc attempts) = do
    city_stamp ← wrapped stat_city (stamp_file m.city_path)
    asn_stamp ← wrapped stat_asn (stamp_file m.asn_path)
    let again = snapshot_from same_logical_dir m attempts
    if not same_logical_dir || str_eq (dir city_stamp.resolved_path) (dir asn_stamp.resolved_path)
        then give (ok (city_stamp, asn_stamp))
        else again

  unfoldable pub snapshot : Action MaxMindError (FileStamp × FileStamp)
  unfolding snapshot_from
  snapshot w = snapshot_from (same_logical_dir w.maxmind) w.maxmind 4 w

  unfoldable pub check_reader : Reader → Metadata → Bool → Action OpenError (Reader × Str)
  unfolding close_reader
  check_reader r meta true = give (ok (r, meta.database_type ++ b'@' ∷ o.rfc3339 meta.build_time))
  check_reader r meta false = do close_reader r; give (err unverified)

  -- A reader that was opened at the n-th call.
  unfoldable pub opened : ℕ → Str → Option Metadata → Action OpenError (Reader × Str)
  unfolding check_reader
  opened n path none w = (err unopened, w)
  opened n path (some meta) w =
      let r : Reader = record { handle = n; path = path } in
      (tick >>= λ v. check_reader r meta (o.verify v r))
        (record w { is_open = λ k. if k == n then true else w.is_open k })

  -- openVerified
  unfoldable pub open_verified : Str → Action OpenError (Reader × Str)
  unfolding opened
  open_verified path = do n ← tick; opened n path (o.open_file n path)

  -- The part of reload that opens a changed database: nothing for one that has not changed.
  unfoldable pub open_changed : Bool → FileStamp → Action OpenError (Option (Reader × Str))
  unfolding open_verified
  open_changed false stamp = give (ok none)
  open_changed true stamp = do new ← open_verified stamp.resolved_path; give (ok (some new))

  unfoldable pub reload : Bool → Bool → FileStamp → FileStamp → Action MaxMindError (Unit {0})
  unfolding open_changed or_close exchange
  reload city_changed asn_changed city_stamp asn_stamp = do
    new_city ← wrapped open_city (open_changed city_changed city_stamp)
    new_asn ← λ w. (let r = open_changed asn_changed asn_stamp w in or_close new_city r.0 r.1)
    exchange city_changed asn_changed city_stamp asn_stamp new_city new_asn

  unfoldable pub reload_where : FileStamp → FileStamp → Bool → Bool → Action MaxMindError Bool
  unfolding reload
  reload_where city_stamp asn_stamp false false = give (ok false)
  reload_where city_stamp asn_stamp true asn_changed = do
    reload true asn_changed city_stamp asn_stamp
    give (ok true)
  reload_where city_stamp asn_stamp false true = do
    reload false true city_stamp asn_stamp
    give (ok true)

  -- ReloadIfChanged
  unfoldable pub reload_if_changed : Action MaxMindError Bool
  unfolding snapshot reload_where changed
  reload_if_changed = do
    (city_stamp, asn_stamp) ← snapshot
    λ w.
        reload_where city_stamp asn_stamp (changed city_stamp w.maxmind.city_stamp)
          (changed asn_stamp w.maxmind.asn_stamp) w

  -- OpenMaxMind, over a process that has no reader open.
  unfoldable pub open_max_mind : Str → Str → ℕ → Result MaxMindError (Unit {0}) × World
  unfolding snapshot reload
  open_max_mind city_path asn_path calls =
      (snapshot >>= λ (city_stamp, asn_stamp). reload true true city_stamp asn_stamp) (record {
        maxmind = record {
          city_path = city_path;
          asn_path = asn_path;
          city_reader = none;
          asn_reader = none;
          city_version = [];
          asn_version = [];
          city_stamp = no_stamp;
          asn_stamp = no_stamp;
        };
        calls = calls;
        is_open = λ k. false;
      })

  -- Watch over a number of ticks that come before the stop, with both callbacks.
  unfoldable pub watch : ℕ → World → List Report × World
  unfolding reload_if_changed report
  watch zero w = ([], w)
  watch (suc ticks) w =
      let r = reload_if_changed w in let rest = watch ticks r.1 in (report r ++ rest.0, rest.1)

  -- Close: whether it returned an error.
  unfoldable pub close_one : Option Reader → World → Bool × World
  unfolding close_reader
  close_one none w = (false, w)
  close_one (some r) w = (o.close_fails r, (close_reader {E = MaxMindError} r w).1)

  unfoldable pub close : World → Bool × World
  unfolding close_one
  close w =
      let city = close_one w.maxmind.city_reader w in
      let asn = close_one w.maxmind.asn_reader city.1 in
      (
        city.0 || asn.0,
        record asn.1 { maxmind = record w.maxmind { city_reader = none; asn_reader = none } },
      )
