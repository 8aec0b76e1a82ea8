-- ===== src/MaxMindGeo/Pairs.antt =====
-- Coherent databases, and how they stay so.
use geotagger.Prelude.{
  ℕ, ◌<◌, ◌≡◌, ◌≢◌, refl, sym, ap, ◌∙◌, subst, ◌⊎◌, inl, inr, Bool, true, false, Option, Result, ok,
  arith,
}
use geotagger.Text.Bytes.{str_eq_iff}
use geotagger.Text.Paths.{dir}
use geotagger.MaxMindGeo.Files.{FileStamp, Reader, MaxMindError, World, changed}
use geotagger.MaxMindGeo.Reload.{same_logical_dir}
use geotagger.MaxMindGeo.Coherent.{Reads, IsPair}
use geotagger.MaxMindGeo.Steady.{
  owns, IsTidy, FromStamp, Installed, as_before, replaced, Reloaded, done,
}

-- The databases are the two that are open, each on the file that its stamp names, and the two files
-- lie in one directory where the two paths do.
pub record IsCoherent (w : World) : Type 0 where
  pub tidy : IsTidy w
  pub city : FromStamp w.maxmind.city_reader w.maxmind.city_stamp
  pub asn : FromStamp w.maxmind.asn_reader w.maxmind.asn_stamp
  pub same_dir :
      (same_logical_dir w.maxmind ≡ false)
      ⊎ (dir w.maxmind.city_stamp.resolved_path ≡ dir w.maxmind.asn_stamp.resolved_path)

-- What a reload leaves: the invariant, and the old databases where it returns an error or false.
pub data Refreshed (w : World) : Result MaxMindError Bool × World → Type 0 where
  kept : (v : World) (r : Result MaxMindError Bool) → r ≢ ok true → Reads w v → Refreshed w (r, v)
  changed_over : (v : World) → Refreshed w (ok true, v)

pub IsTidy-Reads : (w v : World) → Reads w v → IsTidy w → IsTidy v
IsTidy-Reads w v a t =
    let city : (k : ℕ) → owns v.maxmind.city_reader k ≡ owns w.maxmind.city_reader k =
      λ k. ap (λ m. owns m.city_reader k) a.maxmind in
    let asn : (k : ℕ) → owns v.maxmind.asn_reader k ≡ owns w.maxmind.asn_reader k =
      λ k. ap (λ m. owns m.asn_reader k) a.maxmind in
    record {
      open_exactly = λ k. ground (arith, a.is_open k, t.open_exactly k, city k, asn k);
      city_old = λ k e. ground (arith, t.city_old k, city k, a.calls);
      asn_old = λ k e. ground (arith, t.asn_old k, asn k, a.calls);
      distinct = λ k e. ground (arith, t.distinct k, city k, asn k);
    }

pub IsCoherent-Reads : (w v : World) → Reads w v → IsCoherent w → IsCoherent v
IsCoherent-Reads w v a c = record {
  tidy = IsTidy-Reads w v a c.tidy;
  city = subst (λ m. FromStamp m.city_reader m.city_stamp) (sym a.maxmind) c.city;
  asn = subst (λ m. FromStamp m.asn_reader m.asn_stamp) (sym a.maxmind) c.asn;
  same_dir =
      subst
        (λ m.
          (same_logical_dir m ≡ false)
          ⊎ (dir m.city_stamp.resolved_path ≡ dir m.asn_stamp.resolved_path))
        (sym a.maxmind) c.same_dir;
}

pub unchanged_path :
    (s p : FileStamp) → 0 < s.size → changed s p ≡ false → s.resolved_path ≡ p.resolved_path
unfolding changed
unchanged_path s p big same = (str_eq_iff s.resolved_path p.resolved_path).0 (ground arith)

-- What became of one database, where one that has not changed was already on its file.
Installed-FromStamp :
    (b : Bool) (s : FileStamp) (o o' : Option Reader) (stamp stamp' : FileStamp)
    → (b ≡ false → FromStamp o stamp × (s.resolved_path ≡ stamp.resolved_path))
    → Installed b s o stamp o' stamp'
    → FromStamp o' stamp' × (stamp'.resolved_path ≡ s.resolved_path)
Installed-FromStamp b s o o' stamp stamp' before (as_before unchanged same same') =
    let (from, path) = before unchanged in rw (same, same') (from, sym path)
Installed-FromStamp b s o o' stamp stamp' before (replaced is_changed from same) =
    rw same (from, refl)

pub Reloaded-IsCoherent :
    (x y : Bool) (c a : FileStamp) (w v : World)
    → IsPair w.maxmind (c, a)
    → (x ≡ false
        → FromStamp w.maxmind.city_reader w.maxmind.city_stamp
          × (c.resolved_path ≡ w.maxmind.city_stamp.resolved_path))
    → (y ≡ false
        → FromStamp w.maxmind.asn_reader w.maxmind.asn_stamp
          × (a.resolved_path ≡ w.maxmind.asn_stamp.resolved_path))
    → Reloaded x y c a w (ok tt, v)
    → IsCoherent v
Reloaded-IsCoherent x y c a w v good city_before asn_before (done v' tidy city asn same) =
    let (from_city, city_path) = Installed-FromStamp x c _ _ _ _ city_before city in
    let (from_asn, asn_path) = Installed-FromStamp y a _ _ _ _ asn_before asn in
    record {
      tidy = tidy;
      city = from_city;
      asn = from_asn;
      same_dir = elim good.same_dir [
        | inl apart ↦ inl (same ∙ apart)
        | inr together ↦ inr (ap dir city_path ∙ together ∙ ap dir (sym asn_path))
      ];
    }
