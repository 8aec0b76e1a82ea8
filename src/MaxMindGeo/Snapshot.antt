-- ===== src/MaxMindGeo/Snapshot.antt =====
-- The pair of stamps that a snapshot takes.
use geotagger.Prelude.{
  ℕ, zero, suc, ◌<◌, ◌≡◌, refl, ◌⊎◌, inl, inr, Bool, true, false, ◌||◌, not, Result, ok, err,
  if◌then◌else◌, Bool-cases, arith,
}
use geotagger.Text.Bytes.{str_eq, str_eq_iff}
use geotagger.Text.Paths.{dir}
use geotagger.MaxMindGeo.Files.{
  FileStamp, MaxMind, Outside, StampError, MaxMindError, stat_city, stat_asn, incoherent, World,
  Action, follow, give, wrap,
}
use geotagger.MaxMindGeo.Reload.{stamp_file, snapshot_from, same_logical_dir, snapshot}
use geotagger.MaxMindGeo.Coherent.{Reads, Reads-trans, IsPair, stamp_file_lem}

-- What a pair of stamps promises, where there is one.
pub data Snapped (m : MaxMind) (w : World)
    : Result MaxMindError (FileStamp × FileStamp) × World → Type 0 where
  pair : (v : World) (p : FileStamp × FileStamp) → Reads w v → IsPair m p → Snapped m w (ok p, v)
  no_pair : (v : World) (e : MaxMindError) → Reads w v → Snapped m w (err e, v)

Snapped-trans :
    (m : MaxMind) (w u : World) (r : Result MaxMindError (FileStamp × FileStamp) × World)
    → Reads w u
    → Snapped m u r
    → Snapped m w r
Snapped-trans m w u r a (pair v p b good) = pair v p (Reads-trans w u v a b) good
Snapped-trans m w u r a (no_pair v e b) = no_pair v e (Reads-trans w u v a b)

module _ (o : Outside) where
  snapshot_from-Snapped :
      (b : Bool) (m : MaxMind) (attempts : ℕ) (w : World)
      → same_logical_dir m ≡ b
      → Snapped m w (snapshot_from o b m attempts w)
  unfolding snapshot_from
  snapshot_from-Snapped b m zero w same =
      no_pair w incoherent (record { maxmind = refl; is_open = λ k. refl; calls = omega arith })
  snapshot_from-Snapped b m (suc attempts) w same =
      city (stamp_file o m.city_path w) (stamp_file_lem o m.city_path w)
        (λ v. snapshot_from-Snapped b m attempts v same)
    where
      Again : Type 0
      Again = (v : World) → Snapped m v (snapshot_from o b m attempts v)

      choose : FileStamp → FileStamp → Action MaxMindError (FileStamp × FileStamp)
      choose c a =
          if not b || str_eq (dir c.resolved_path) (dir a.resolved_path)
          then give (ok (c, a))
          else snapshot_from o b m attempts

      chosen :
          (u : World) (c a : FileStamp)
          → Reads w u
          → 0 < c.size
          → 0 < a.size
          → Again
          → Snapped m w (choose c a u)
      chosen u c a reads c_size a_size again =
          elim (Bool-cases (not b || str_eq (dir c.resolved_path) (dir a.resolved_path))) [
            | inl fits ↦ rw fits (
                pair u (c, a) reads
                  (record { city_size = c_size; asn_size = a_size; same_dir = either b same fits }))
            | inr differs ↦ rw differs (Snapped-trans m w u _ reads (again u))
          ]
        where
          either :
              (x : Bool)
              → same_logical_dir m ≡ x
              → (not x || str_eq (dir c.resolved_path) (dir a.resolved_path)) ≡ true
              → (same_logical_dir m ≡ false) ⊎ (dir c.resolved_path ≡ dir a.resolved_path)
          either false is fits = inl is
          either true is fits =
              inr ((str_eq_iff (dir c.resolved_path) (dir a.resolved_path)).0 fits)

      asn :
          (u : World) (c : FileStamp) (r : Result StampError FileStamp × World)
          → Reads w u
          → 0 < c.size
          → Reads u r.1 × ((s : FileStamp) → r.0 ≡ ok s → 0 < s.size)
          → Again
          → Snapped m w (
              (λ (p : Result MaxMindError FileStamp × World). follow p.0 (choose c) p.1)
                (wrap stat_asn r.0, r.1))
      asn u c (ok a, v) reads c_size (more, sized) again =
          chosen v c a (Reads-trans w u v reads more) c_size (sized a refl) again
      asn u c (err e, v) reads c_size (more, sized) again =
          no_pair v (stat_asn e) (Reads-trans w u v reads more)

      city :
          (r : Result StampError FileStamp × World)
          → Reads w r.1 × ((s : FileStamp) → r.0 ≡ ok s → 0 < s.size)
          → Again
          → Snapped m w (
              (λ (p : Result MaxMindError FileStamp × World).
                  follow p.0
                    (λ c u.
                      let q = stamp_file o m.asn_path u in
                      follow (wrap stat_asn q.0) (choose c) q.1)
                    p.1)
                (wrap stat_city r.0, r.1))
      city (ok c, u) (reads, sized) again =
          asn u c (stamp_file o m.asn_path u) reads (sized c refl) (stamp_file_lem o m.asn_path u)
            again
      city (err e, u) (reads, sized) again = no_pair u (stat_city e) reads

  pub snapshot-Snapped : (w : World) → Snapped w.maxmind w (snapshot o w)
  unfolding snapshot
  snapshot-Snapped w = snapshot_from-Snapped (same_logical_dir w.maxmind) w.maxmind 4 w refl
