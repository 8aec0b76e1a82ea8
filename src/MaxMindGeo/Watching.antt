-- ===== src/MaxMindGeo/Watching.antt =====
-- ReloadIfChanged, OpenMaxMind and Watch keep the databases coherent.
use geotagger.Prelude.{
  ℕ, zero, suc, ◌≡◌, ◌≢◌, refl, sym, subst, Bool, true, false, [], none, Result, ok, err,
}
use geotagger.Text.Bytes.{Str}
use geotagger.MaxMindGeo.Files.{FileStamp, Outside, MaxMindError, World, follow, give, changed}
use geotagger.MaxMindGeo.Reload.{
  snapshot, reload, reload_where, reload_if_changed, open_max_mind, no_stamp,
}
use geotagger.MaxMindGeo.Coherent.{Reads, Reads-trans, IsPair}
use geotagger.MaxMindGeo.Snapshot.{Snapped, pair, no_pair, snapshot-Snapped}
use geotagger.MaxMindGeo.Steady.{IsTidy, Reloaded, undone}
use geotagger.MaxMindGeo.Reload.{watch}
use geotagger.MaxMindGeo.Reloads.{reload-Reloaded}
use geotagger.MaxMindGeo.Pairs.{
  IsCoherent, Refreshed, kept, changed_over, IsTidy-Reads, IsCoherent-Reads, unchanged_path,
  Reloaded-IsCoherent,
}

module _ (o : Outside) where
  pub reload_if_changed_lem :
      (w : World)
      → IsCoherent w
      → IsCoherent (reload_if_changed o w).1 × Refreshed w (reload_if_changed o w)
  unfolding reload_if_changed reload_where
  reload_if_changed_lem w coherent = taken (snapshot o w) (snapshot-Snapped o w)
    where
      Claim : Result MaxMindError Bool × World → Type 0
      Claim r = IsCoherent r.1 × Refreshed w r

      fails : (v : World) (e : MaxMindError) → Reads w v → Claim (err e, v)
      fails v e reads = (IsCoherent-Reads w v reads coherent, kept v (err e) (λ h. cc h) reads)

      reloaded :
          (x y : Bool) (c a : FileStamp) (v : World)
          → Reads w v
          → IsPair w.maxmind (c, a)
          → (x ≡ false → c.resolved_path ≡ v.maxmind.city_stamp.resolved_path)
          → (y ≡ false → a.resolved_path ≡ v.maxmind.asn_stamp.resolved_path)
          → (r : Result MaxMindError (Unit {0}) × World) → Reloaded x y c a v r
          → Claim (
              (λ (p : Result MaxMindError (Unit {0}) × World). follow p.0 (λ _. give (ok true)) p.1)
                r)
      reloaded x y c a v reads good city_path asn_path (ok _, u) d =
          let now = IsCoherent-Reads w v reads coherent in
          (
            Reloaded-IsCoherent x y c a v u (subst (λ m. IsPair m (c, a)) (sym reads.maxmind) good)
                (λ e. (now.city, city_path e)) (λ e. (now.asn, asn_path e)) d,
            changed_over u,
          )
      reloaded x y c a v reads good city_path asn_path (err e, u) (undone u' e' more) =
          fails u e (Reads-trans w v u reads more)

      chosen :
          (x y : Bool) (c a : FileStamp) (v : World)
          → Reads w v
          → IsPair w.maxmind (c, a)
          → (x ≡ false → c.resolved_path ≡ v.maxmind.city_stamp.resolved_path)
          → (y ≡ false → a.resolved_path ≡ v.maxmind.asn_stamp.resolved_path)
          → Claim (reload_where o c a x y v)
      chosen false false c a v reads good city_path asn_path =
          (IsCoherent-Reads w v reads coherent, kept v (ok false) (λ h. cc h) reads)
      chosen true y c a v reads good city_path asn_path =
          reloaded true y c a v reads good city_path asn_path _
            (reload-Reloaded o true y c a v (IsCoherent-Reads w v reads coherent).tidy)
      chosen false true c a v reads good city_path asn_path =
          reloaded false true c a v reads good city_path asn_path _
            (reload-Reloaded o false true c a v (IsCoherent-Reads w v reads coherent).tidy)

      taken :
          (r : Result MaxMindError (FileStamp × FileStamp) × World)
          → Snapped w.maxmind w r
          → Claim (
              (λ (p : Result MaxMindError (FileStamp × FileStamp) × World).
                  follow p.0
                    (λ q u.
                      reload_where o q.0 q.1
                        (changed q.0 u.maxmind.city_stamp)
                        (changed q.1 u.maxmind.asn_stamp)
                        u)
                    p.1)
                r)
      taken (ok (c, a), v) (pair v' p reads good) =
          chosen (changed c v.maxmind.city_stamp) (changed a v.maxmind.asn_stamp) c a v reads good
            (unchanged_path c v.maxmind.city_stamp good.city_size)
            (unchanged_path a v.maxmind.asn_stamp good.asn_size)
      taken (err e, v) (no_pair v' e' reads) = fails v e reads

  open_max_mind-IsCoherent :
      (city_path asn_path : Str) (calls : ℕ) (w : World)
      → open_max_mind o city_path asn_path calls ≡ (ok tt, w)
      → IsCoherent w
  unfolding open_max_mind
  open_max_mind-IsCoherent city_path asn_path calls w h =
      taken (snapshot o start) (snapshot-Snapped o start) h
    where
      start : World
      start = record {
        maxmind = record {
          city_path = city_path;
          asn_path = asn_path;
          city_reader = none;
          asn_reader = none;
          city_version = [];
          asn_version = [];
          city_stamp = no_stamp;
          asn_stamp = no_stamp;
        };
        calls = calls;
        is_open = λ k. false;
      }

      tidy : (v : World) → Reads start v → IsTidy v
      tidy v reads = IsTidy-Reads start v reads (record {
        open_exactly = λ k. refl;
        city_old = λ k e. cc e;
        asn_old = λ k e. cc e;
        distinct = λ k e. cc e;
      })

      taken :
          (r : Result MaxMindError (FileStamp × FileStamp) × World)
          → Snapped start.maxmind start r
          → follow r.0 (λ q. reload o true true q.0 q.1) r.1 ≡ (ok tt, w)
          → IsCoherent w
      taken (ok (c, a), v) (pair v' p reads good) h' =
          Reloaded-IsCoherent true true c a v w
            (subst (λ m. IsPair m (c, a)) (sym reads.maxmind) good) (λ e. cc e) (λ e. cc e)
            (subst (Reloaded true true c a v) h' (reload-Reloaded o true true c a v (tidy v reads)))
      taken (err e, v) (no_pair v' e' reads) h' = cc

  watch-IsCoherent : (ticks : ℕ) (w : World) → IsCoherent w → IsCoherent (watch o ticks w).1
  unfolding watch
  watch-IsCoherent zero w coherent = coherent
  watch-IsCoherent (suc ticks) w coherent =
      watch-IsCoherent ticks (reload_if_changed o w).1 (reload_if_changed_lem w coherent).0

  -- A call of ReloadIfChanged on coherent databases that returns an error, or false, leaves the
  -- databases, their versions and stamps, and the set of open readers as they were: what it had
  -- opened before the error is closed again.
  pub reload_if_changed_kept :
      (w v : World) (r : Result MaxMindError Bool)
      → IsCoherent w
      → reload_if_changed o w ≡ (r, v)
      → r ≢ ok true
      → (v.maxmind ≡ w.maxmind) × ((k : ℕ) → v.is_open k ≡ w.is_open k)
  reload_if_changed_kept w v r coherent h not_true =
      go r v (subst (Refreshed w) h (reload_if_changed_lem w coherent).1) not_true
    where
      go :
          (r : Result MaxMindError Bool) (v : World)
          → Refreshed w (r, v)
          → r ≢ ok true
          → (v.maxmind ≡ w.maxmind) × ((k : ℕ) → v.is_open k ≡ w.is_open k)
      go r v (kept v' r' _ reads) other = (reads.maxmind, reads.is_open)
      go r v (changed_over v') other = absurd (other refl)

  -- After OpenMaxMind has returned no error and Watch has run for any number of ticks, however the
  -- files and links change between the calls: both databases are there; exactly their two readers
  -- are open; each reader was opened on the file that its stamp names; and where the two configured
  -- paths lie in one directory, the two files do too.
  pub watch_opened-IsCoherent :
      (city_path asn_path : Str) (calls ticks : ℕ) (w : World)
      → open_max_mind o city_path asn_path calls ≡ (ok tt, w)
      → IsCoherent (watch o ticks w).1
  watch_opened-IsCoherent city_path asn_path calls ticks w h =
      watch-IsCoherent ticks w (open_max_mind-IsCoherent city_path asn_path calls w h)
