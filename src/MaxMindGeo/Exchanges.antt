-- ===== src/MaxMindGeo/Exchanges.antt =====
-- The exchange of the readers keeps exactly the two in use open.
use geotagger.Prelude.{
  ℕ, ◌≤◌, ◌<◌, ◌≡◌, refl, ap, ◌∙◌, Bool, true, false, ◌&&◌, ◌||◌, Option, none, some, ok,
  if◌then◌else◌, arith, is_some, ==_iff,
}
use geotagger.Text.Bytes.{Str}
use geotagger.MaxMindGeo.Files.{FileStamp, Reader, World, close_reader, close_old}
use geotagger.MaxMindGeo.Reload.{
  same_logical_dir, install_city, install_asn, close_changed, exchange,
}
use geotagger.MaxMindGeo.Coherent.{Reads, IsFresh, Opening, left_alone, new}
use geotagger.MaxMindGeo.Steady.{owns, IsTidy, Installed, as_before, replaced, Reloaded, done}

pub IsTidy-IsFresh : (w : World) → IsTidy w → IsFresh w
IsTidy-IsFresh w t k late = ground (arith, t.open_exactly k, t.city_old k, t.asn_old k)

pub IsFresh-Reads : (w v : World) → Reads w v → IsFresh w → IsFresh v
IsFresh-Reads w v a fresh k late = a.is_open k ∙ fresh k (omega (arith, late, a.calls))

closed :
    (b : Bool) (old : Option Reader) (w : World)
    → close_changed b old w
      ≡ (ok tt, record w { is_open = λ k. if b && owns old k then false else w.is_open k })
unfolding close_changed close_old close_reader
closed false old w = refl
closed true none w = refl
closed true (some r) w = refl

exchange_lem :
    (city asn : Bool) (c a : FileStamp) (nc na : Option (Reader × Str)) (w : World)
    → exchange city asn c a nc na w ≡ (
      ok tt,
      record w {
        maxmind = install_asn a na (install_city c nc w.maxmind);
        is_open = λ k.
            if asn && owns w.maxmind.asn_reader k
            then false
            else if city && owns w.maxmind.city_reader k
            then false
            else w.is_open k;
      },
    )
unfolding exchange
exchange_lem city asn c a nc na w =
    rw (closed city w.maxmind.city_reader) (closed asn w.maxmind.asn_reader _)

abbrev pub option_first : Option (Reader × Str) → Option Reader
option_first none = none
option_first (some (r, version)) = some r

-- The facts of an Opening that has not failed.
pub record Gained (b : Bool) (s : FileStamp) (w v : World) (n : Option (Reader × Str))
    : Type 0 where
  pub maxmind : v.maxmind ≡ w.maxmind
  pub calls : w.calls ≤ v.calls
  pub opens : (k : ℕ) → v.is_open k ≡ (owns (option_first n) k || w.is_open k)
  pub late : (k : ℕ) → owns (option_first n) k ≡ true → (w.calls ≤ k) × (k < v.calls)
  pub flag : b ≡ is_some n
  pub path : (r : Reader) → option_first n ≡ some r → r.path ≡ s.resolved_path

pub Opening-Gained :
    (b : Bool) (s : FileStamp) (w v : World) (n : Option (Reader × Str))
    → Opening b s w (ok n, v)
    → Gained b s w v n
Opening-Gained b s w v n (left_alone v' unchanged reads) = record {
  maxmind = reads.maxmind;
  calls = reads.calls;
  opens = reads.is_open;
  late = λ k e. cc e;
  flag = unchanged;
  path = λ r e. cc e;
}
Opening-Gained b s w v n (new v' r version is_changed path late old same opens) = record {
  maxmind = same;
  calls = omega (arith, late, old);
  opens = λ k. ground (arith, opens k);
  late = λ k e. let k_eq : k ≡ r.handle = (==_iff k r.handle).0 e in (rw k_eq late, rw k_eq old);
  flag = is_changed;
  path = λ r' e. cc (e, path);
}

module _ (city asn : Bool) (c a : FileStamp) (w u v : World) (t : IsTidy w) where
  after : Option (Reader × Str) → Option (Reader × Str) → World
  after nc na = record v {
    maxmind = install_asn a na (install_city c nc v.maxmind);
    is_open = λ k.
        if asn && owns v.maxmind.asn_reader k
        then false
        else if city && owns v.maxmind.city_reader k
        then false
        else v.is_open k;
  }

  after-IsTidy :
      (nc na : Option (Reader × Str))
      → Gained city c w u nc
      → Gained asn a u v na
      → IsTidy (after nc na)
  unfolding after install_city install_asn
  after-IsTidy nc na g h =
      go nc na g h (λ k. ap (λ m. owns m.city_reader k) (h.maxmind ∙ g.maxmind))
        (λ k. ap (λ m. owns m.asn_reader k) (h.maxmind ∙ g.maxmind))
    where
      go :
          (nc na : Option (Reader × Str))
          → Gained city c w u nc
          → Gained asn a u v na
          → ((k : ℕ) → owns v.maxmind.city_reader k ≡ owns w.maxmind.city_reader k)
          → ((k : ℕ) → owns v.maxmind.asn_reader k ≡ owns w.maxmind.asn_reader k)
          → IsTidy (after nc na)
      go none none g h ec ea = record {
        open_exactly =
            λ k. ground (arith, t.open_exactly k, g.opens k, h.opens k, ec k, ea k, g.flag, h.flag);
        city_old = λ k e. ground (arith, t.city_old k, ec k, g.calls, h.calls);
        asn_old = λ k e. ground (arith, t.asn_old k, ea k, g.calls, h.calls);
        distinct = λ k e. ground (arith, t.distinct k, ec k, ea k);
      }
      go (some (r, n)) none g h ec ea = record {
        open_exactly = λ k. ground (
          arith,
          t.open_exactly k,
          t.city_old k,
          t.asn_old k,
          t.distinct k,
          g.opens k,
          h.opens k,
          ec k,
          ea k,
          g.flag,
          h.flag,
          g.late k,
        );
        city_old = λ k e. ground (arith, g.late k e, h.calls);
        asn_old = λ k e. ground (arith, t.asn_old k, ea k, g.calls, h.calls);
        distinct = λ k e. ground (arith, t.asn_old k, ea k, g.late k e);
      }
      go none (some (r, n)) g h ec ea = record {
        open_exactly = λ k. ground (
          arith,
          t.open_exactly k,
          t.city_old k,
          t.asn_old k,
          t.distinct k,
          g.opens k,
          h.opens k,
          ec k,
          ea k,
          g.flag,
          h.flag,
          h.late k,
          g.calls,
        );
        city_old = λ k e. ground (arith, t.city_old k, ec k, g.calls, h.calls);
        asn_old = λ k e. ground (arith, h.late k e);
        distinct = λ k e. ground (arith, t.city_old k, ec k, h.late k, g.calls);
      }
      go (some (r, n)) (some (r', n')) g h ec ea = record {
        open_exactly = λ k. ground (
          arith,
          t.open_exactly k,
          t.city_old k,
          t.asn_old k,
          g.opens k,
          h.opens k,
          ec k,
          ea k,
          g.flag,
          h.flag,
          g.late k,
          h.late k,
          g.calls,
        );
        city_old = λ k e. ground (arith, g.late k e, h.calls);
        asn_old = λ k e. ground (arith, h.late k e);
        distinct = λ k e. ground (arith, g.late k e, h.late k);
      }

  pub exchange-Reloaded :
      (nc na : Option (Reader × Str))
      → Gained city c w u nc
      → Gained asn a u v na
      → Reloaded city asn c a w (exchange city asn c a nc na v)
  unfolding after install_city install_asn same_logical_dir
  exchange-Reloaded nc na g h = rw (exchange_lem city asn c a nc na v) (
      done _ (after-IsTidy nc na g h) (city_part nc na g) (asn_part nc na g h)
        (paths nc na ∙ ap same_logical_dir same))
    where
      same : v.maxmind ≡ w.maxmind
      same = h.maxmind ∙ g.maxmind

      paths :
          (nc na : Option (Reader × Str))
          → same_logical_dir (install_asn a na (install_city c nc v.maxmind))
            ≡ same_logical_dir v.maxmind
      paths none none = refl
      paths none (some p) = refl
      paths (some p) none = refl
      paths (some p) (some q) = refl

      city_part :
          (nc na : Option (Reader × Str))
          → Gained city c w u nc
          → Installed city c w.maxmind.city_reader w.maxmind.city_stamp
              (after nc na).maxmind.city_reader
              (after nc na).maxmind.city_stamp
      city_part none none g =
          as_before g.flag (ap (λ m. m.city_reader) same) (ap (λ m. m.city_stamp) same)
      city_part none (some q) g =
          as_before g.flag (ap (λ m. m.city_reader) same) (ap (λ m. m.city_stamp) same)
      city_part (some (r, n)) none g =
          replaced g.flag (record { reader = r; there = refl; path = g.path r refl }) refl
      city_part (some (r, n)) (some q) g =
          replaced g.flag (record { reader = r; there = refl; path = g.path r refl }) refl

      asn_part :
          (nc na : Option (Reader × Str))
          → Gained city c w u nc
          → Gained asn a u v na
          → Installed asn a w.maxmind.asn_reader w.maxmind.asn_stamp
              (after nc na).maxmind.asn_reader
              (after nc na).maxmind.asn_stamp
      asn_part none none g h =
          as_before h.flag (ap (λ m. m.asn_reader) same) (ap (λ m. m.asn_stamp) same)
      asn_part (some p) none g h =
          as_before h.flag (ap (λ m. m.asn_reader) same) (ap (λ m. m.asn_stamp) same)
      asn_part nc (some (r, n)) g h =
          replaced h.flag (record { reader = r; there = refl; path = h.path r refl }) refl
