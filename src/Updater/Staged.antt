-- ===== src/Updater/Staged.antt =====
-- What is staged: the files of the editions, each of them verified.
use geotagger.Prelude.{
  ◌≡◌, refl, sym, ◌∙◌, subst, inl, inr, true, ◌||◌, not, List, [], ◌∷◌, Option, none, some, Result,
  ok, err, Elem, Bool-cases,
}
use geotagger.Text.Bytes.{Str, str_eq, str_eq_iff}
use geotagger.Text.Paths.{base}
use geotagger.Text.Dict.{Dict, lookup, insert, lookup-insert}
use geotagger.Updater.Disk.{
  Disk, Archive, end_of_archive, broken, entry, UpdateError, Outside, go_on, ticked,
}
use geotagger.Updater.Download.{mmdb_name, limited, store, extract, extract_from, download_edition}
use geotagger.Updater.Bundle.{download_all}
use geotagger.Updater.Steps.{Keeps, Keeps-trans, Does, worked, did_not, store-Does}

module _ (o : Outside) where
  -- A file that the MaxMind library opens and verifies.
  pub record Verified (files : Dict Str) (name : Str) : Type 0 where
    pub content : Str
    pub there : lookup name files ≡ some content
    pub opens : o.opens content ≡ true
    pub verifies : o.verifies content ≡ true

  pub data Stored (name : Str) (d : Disk) : Result UpdateError (Unit {0}) × Disk → Type 0 where
    stored :
        (d' : Disk)
        → Keeps d d'
        → Verified d'.stage name
        → ((k : Str) → Verified d.stage k → Verified d'.stage k)
        → Stored name d (ok tt, d')
    not_stored : (d' : Disk) (e : UpdateError) → Keeps d d' → Stored name d (err e, d')

  Verified-insert :
      (m : Dict Str) (name content : Str)
      → o.opens content ≡ true
      → o.verifies content ≡ true
      → Verified (insert name content (insert name [] m)) name
        × ((k : Str) → Verified m k → Verified (insert name content (insert name [] m)) k)
  Verified-insert m name content opens verifies = (here name refl, others)
    where
      here : (k : Str) → name ≡ k → Verified (insert name content (insert name [] m)) k
      here k same = record {
        content = content;
        there =
            lookup-insert name k content (insert name [] m) ∙ rw ((str_eq_iff name k).1 same) refl;
        opens = opens;
        verifies = verifies;
      }

      others : (k : Str) → Verified m k → Verified (insert name content (insert name [] m)) k
      others k v = elim (Bool-cases (str_eq name k)) [
        | inl same ↦ here k ((str_eq_iff name k).0 same)
        | inr other ↦ record {
          content = v.content;
          there =
              lookup-insert name k content (insert name [] m)
              ∙ rw other (lookup-insert name k [] m ∙ rw other v.there);
          opens = v.opens;
          verifies = v.verifies;
        }
      ]

  store-Stored : (name content : Str) (d : Disk) → Stored name d (store o name content d)
  store-Stored name content d = go (store o name content d) (store-Does o name content d)
    where
      go :
          (r : Result UpdateError (Unit {0}) × Disk)
          → Does o
              (λ s. insert name (limited content) (insert name [] s))
              ((o.opens (limited content) ≡ true) × (o.verifies (limited content) ≡ true))
              d
              r
          → Stored name d r
      go r (worked d' u keeps stage (opens, verifies)) =
          let (here, others) = Verified-insert d.stage name (limited content) opens verifies in
          stored d' keeps (subst (λ s. Verified s name) (sym stage) here)
            (λ k v. subst (λ s. Verified s k) (sym stage) (others k v))
      go r (did_not d' e keeps) = not_stored d' e keeps

  extract-Stored : (wanted : Str) (a : Archive) (d : Disk) → Stored wanted d (extract o wanted a d)
  unfolding extract
  extract-Stored wanted end_of_archive d =
      not_stored d _ (record { current = refl; link = refl; releases = refl })
  extract-Stored wanted broken d =
      not_stored d _ (record { current = refl; link = refl; releases = refl })
  extract-Stored wanted (entry regular name content rest) d =
      elim (Bool-cases (not regular || not (str_eq (base name) wanted))) [
        | inl skipped ↦ rw skipped (extract-Stored wanted rest d)
        | inr found ↦ rw found (store-Stored wanted content d)
      ]

  pub download_edition-Stored :
      (edition : Str) (d : Disk) → Stored (mmdb_name edition) d (download_edition o edition d)
  unfolding download_edition extract_from
  download_edition-Stored edition d = later (from (o.download d.calls edition))
    where
      from :
          (a : Option Archive)
          → Stored (mmdb_name edition) (ticked d) (extract_from o (mmdb_name edition) a (ticked d))
      from none = not_stored _ _ (record { current = refl; link = refl; releases = refl })
      from (some a) = extract-Stored (mmdb_name edition) a (ticked d)

      later :
          {r : Result UpdateError (Unit {0}) × Disk}
          → Stored (mmdb_name edition) (ticked d) r
          → Stored (mmdb_name edition) d r
      later (stored d' k v others) =
          stored d' (record { current = k.current; link = k.link; releases = k.releases }) v others
      later (not_stored d' e k) =
          not_stored d' e (record { current = k.current; link = k.link; releases = k.releases })

  -- The directory has each edition's file, and what it had.
  pub data AllStored (editions : List Str) (d : Disk)
      : Result UpdateError (Unit {0}) × Disk → Type 0 where
    all_stored :
        (d' : Disk) (u : Unit {0})
        → Keeps d d'
        → ((e : Str) → Elem e editions → Verified d'.stage (mmdb_name e))
        → ((k : Str) → Verified d.stage k → Verified d'.stage k)
        → AllStored editions d (ok u, d')
    not_all : (d' : Disk) (e : UpdateError) → Keeps d d' → AllStored editions d (err e, d')

  pub download_all-AllStored :
      (editions : List Str) (d : Disk) → AllStored editions d (download_all o editions d)
  unfolding download_all
  download_all-AllStored [] d =
      all_stored d tt (record { current = refl; link = refl; releases = refl }) (λ e h. absurd h)
        (λ k v. v)
  download_all-AllStored (edition ∷ editions) d =
      go (download_edition o edition d) (download_edition-Stored edition d)
        (λ d'. download_all-AllStored editions d')
    where
      after :
          (d' : Disk) (r : Result UpdateError (Unit {0}) × Disk)
          → Keeps d d'
          → Verified d'.stage (mmdb_name edition)
          → ((k : Str) → Verified d.stage k → Verified d'.stage k)
          → AllStored editions d' r
          → AllStored (edition ∷ editions) d r
      after d' r keeps v others (all_stored x u keeps' all others') =
          all_stored x u (Keeps-trans d d' x keeps keeps')
            (λ e h. elim h [
              | inl same ↦
                  subst (λ y. Verified x.stage (mmdb_name y)) (sym same)
                    (others' (mmdb_name edition) v)
              | inr more ↦ all e more
            ])
            (λ k w. others' k (others k w))
      after d' r keeps v others (not_all x e keeps') = not_all x e (Keeps-trans d d' x keeps keeps')

      go :
          (r : Result UpdateError (Unit {0}) × Disk)
          → Stored (mmdb_name edition) d r
          → ((d' : Disk) → AllStored editions d' (download_all o editions d'))
          → AllStored (edition ∷ editions) d (go_on r.0 (λ _. download_all o editions) r.1)
      go r (stored d' keeps v others) next =
          after d' (download_all o editions d') keeps v others (next d')
      go r (not_stored d' e keeps) next = not_all d' e keeps
