-- ===== src/MaxMindGeo/Coherent.antt =====
-- What reading the files and opening the databases leaves behind.
use geotagger.Prelude.{
  ℕ, ◌+◌, ◌≤◌, ◌<◌, ◌≡◌, refl, ◌∙◌, ◌⊎◌, inl, inr, Bool, true, false, Option, none, some, Result,
  ok, err, ltb, ◌==◌, if◌then◌else◌, Bool-cases, arith,
}
use geotagger.Text.Bytes.{Str}
use geotagger.Text.Paths.{dir}
use geotagger.MaxMindGeo.Files.{
  FileStamp, Reader, MaxMind, FileInfo, Metadata, Outside, StampError, OpenError, unopened,
  unverified, World, follow, give, close_reader,
}
use geotagger.MaxMindGeo.Reload.{
  stamp_info, stamp_resolved, stamp_file, same_logical_dir, check_reader, opened, open_verified,
  open_changed,
}

-- Time has passed, and the databases and the open readers are as they were.
pub record Reads (w v : World) : Type 0 where
  pub maxmind : v.maxmind ≡ w.maxmind
  pub is_open : (k : ℕ) → v.is_open k ≡ w.is_open k
  pub calls : w.calls ≤ v.calls

pub Reads-trans : (w u v : World) → Reads w u → Reads u v → Reads w v
Reads-trans w u v a b = record {
  maxmind = b.maxmind ∙ a.maxmind;
  is_open = λ k. b.is_open k ∙ a.is_open k;
  calls = omega (arith, a.calls, b.calls);
}

-- No reader is open whose number is still to come.
abbrev pub IsFresh : World → Type 0
IsFresh w = (k : ℕ) → w.calls ≤ k → w.is_open k ≡ false

-- Two stamps of files that are not empty, of one directory where the paths have one.
pub record IsPair (m : MaxMind) (p : FileStamp × FileStamp) : Type 0 where
  pub city_size : 0 < p.0.size
  pub asn_size : 0 < p.1.size
  pub same_dir : (same_logical_dir m ≡ false) ⊎ (dir p.0.resolved_path ≡ dir p.1.resolved_path)

-- What opening a database, or leaving it, has done.
pub data Opening (changed : Bool) (stamp : FileStamp) (w : World)
    : Result OpenError (Option (Reader × Str)) × World → Type 0 where
  left_alone : (v : World) → changed ≡ false → Reads w v → Opening changed stamp w (ok none, v)
  new :
      (v : World) (r : Reader) (version : Str)
      → changed ≡ true
      → r.path ≡ stamp.resolved_path
      → w.calls ≤ r.handle
      → r.handle < v.calls
      → v.maxmind ≡ w.maxmind
      → ((k : ℕ) → v.is_open k ≡ (if k == r.handle then true else w.is_open k))
      → Opening changed stamp w (ok (some (r, version)), v)
  unopenable : (v : World) (e : OpenError) → Reads w v → Opening changed stamp w (err e, v)

abbrev newly :
    Result OpenError (Reader × Str) × World → Result OpenError (Option (Reader × Str)) × World
newly p = follow p.0 (λ x. give (ok (some x))) p.1

module _ (o : Outside) where
  pub stamp_file_lem :
      (path : Str) (w : World)
      → Reads w (stamp_file o path w).1
        × ((s : FileStamp) → (stamp_file o path w).0 ≡ ok s → 0 < s.size)
  unfolding stamp_file stamp_resolved stamp_info
  stamp_file_lem path w = resolved (o.eval_symlinks w.calls path)
    where
      sized :
          (name : Str) (i : Option FileInfo) (s : FileStamp) → stamp_info name i ≡ ok s → 0 < s.size
      sized name none s h = cc
      sized name (some i) s h = elim (Bool-cases (ltb 0 i.size)) [
        | inl big ↦
            let h' : ◌≡◌ {A = Result StampError FileStamp}
                (ok (record { resolved_path = name; mod_time = i.mod_time; size = i.size }))
                (ok s) =
              rw big at h in
            let same : i.size ≡ s.size = cc in ground (arith, same)
        | inr small ↦ ground arith
      ]

      resolved :
          (p : Option Str)
          → Reads w (stamp_resolved o p (record w { calls = w.calls + 1 })).1
            × ((s : FileStamp)
                → (stamp_resolved o p (record w { calls = w.calls + 1 })).0 ≡ ok s
                → 0 < s.size)
      resolved none =
          (record { maxmind = refl; is_open = λ k. refl; calls = omega arith }, λ s h. cc h)
      resolved (some name) = (
        record { maxmind = refl; is_open = λ k. refl; calls = omega arith },
        λ s h. sized name (o.stat_file (w.calls + 1) name) s h,
      )

  pub open_changed-Opening :
      (b : Bool) (stamp : FileStamp) (w : World)
      → IsFresh w
      → Opening b stamp w (open_changed o b stamp w)
  unfolding open_changed open_verified opened check_reader close_reader
  open_changed-Opening false stamp w fresh =
      left_alone w refl (record { maxmind = refl; is_open = λ k. refl; calls = omega arith })
  open_changed-Opening true stamp w fresh = meta (o.open_file w.calls stamp.resolved_path)
    where
      ticked : World
      ticked = record w { calls = w.calls + 1 }

      checked :
          (m : Metadata) (b : Bool)
          → Opening true stamp w (
              newly (
                check_reader o
                  (record { handle = w.calls; path = stamp.resolved_path })
                  m
                  b
                  (record ticked {
                    calls = w.calls + 1 + 1;
                    is_open = λ k. if k == w.calls then true else w.is_open k;
                  })))
      checked m true = new _ _ _ refl refl (omega arith) (omega arith) refl (λ k. refl)
      checked m false =
          unopenable _ unverified
            (record { maxmind = refl; is_open = λ k. ground (arith, fresh k); calls = omega arith })

      meta :
          (m : Option Metadata)
          → Opening true stamp w (newly (opened o w.calls stamp.resolved_path m ticked))
      meta none =
          unopenable _ unopened
            (record { maxmind = refl; is_open = λ k. refl; calls = omega arith })
      meta (some m) =
          checked m
            (o.verify (w.calls + 1) (record { handle = w.calls; path = stamp.resolved_path }))
