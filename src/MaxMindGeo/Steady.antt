-- ===== src/MaxMindGeo/Steady.antt =====
-- The invariant of the databases, and what reload makes of it.
use geotagger.Prelude.{
  ℕ, ◌<◌, ◌≡◌, Bool, true, false, ◌||◌, Option, none, some, Result, ok, err, ◌==◌,
}
use geotagger.MaxMindGeo.Files.{FileStamp, Reader, MaxMindError, World}
use geotagger.MaxMindGeo.Reload.{same_logical_dir}
use geotagger.MaxMindGeo.Coherent.{Reads}

abbrev pub owns : Option Reader → ℕ → Bool
owns none k = false
owns (some r) k = k == r.handle

-- Exactly the readers of the two databases are open.
pub record IsTidy (w : World) : Type 0 where
  pub open_exactly :
      (k : ℕ) → w.is_open k ≡ (owns w.maxmind.city_reader k || owns w.maxmind.asn_reader k)
  pub city_old : (k : ℕ) → owns w.maxmind.city_reader k ≡ true → k < w.calls
  pub asn_old : (k : ℕ) → owns w.maxmind.asn_reader k ≡ true → k < w.calls
  pub distinct : (k : ℕ) → owns w.maxmind.city_reader k ≡ true → owns w.maxmind.asn_reader k ≡ false

-- A reader of the stamped file.
pub record FromStamp (o : Option Reader) (s : FileStamp) : Type 0 where
  pub reader : Reader
  pub there : o ≡ some reader
  pub path : reader.path ≡ s.resolved_path

-- What reload makes of one database.
pub data Installed (changed : Bool) (s : FileStamp) (before : Option Reader) (stamp : FileStamp)
    (after : Option Reader) (stamp' : FileStamp) : Type 0 where
  as_before :
      changed ≡ false
      → after ≡ before
      → stamp' ≡ stamp
      → Installed changed s before stamp after stamp'
  replaced :
      changed ≡ true
      → FromStamp after s
      → stamp' ≡ s
      → Installed changed s before stamp after stamp'

pub data Reloaded (city asn : Bool) (c a : FileStamp) (w : World)
    : Result MaxMindError (Unit {0}) × World → Type 0 where
  done :
      (v : World)
      → IsTidy v
      → Installed city c w.maxmind.city_reader w.maxmind.city_stamp v.maxmind.city_reader
          v.maxmind.city_stamp
      → Installed asn a w.maxmind.asn_reader w.maxmind.asn_stamp v.maxmind.asn_reader
          v.maxmind.asn_stamp
      → same_logical_dir v.maxmind ≡ same_logical_dir w.maxmind
      → Reloaded city asn c a w (ok tt, v)
  undone : (v : World) (e : MaxMindError) → Reads w v → Reloaded city asn c a w (err e, v)
