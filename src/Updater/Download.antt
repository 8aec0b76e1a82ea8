-- ===== src/Updater/Download.antt =====
-- downloadEdition, into the staging directory.
use geotagger.Prelude.{◌^◌, ◌||◌, not, [], ◌++◌, Option, none, some, ok, err, take, if◌then◌else◌}
use geotagger.Text.Bytes.{Str, codes, str_eq}
use geotagger.Text.Paths.{base}
use geotagger.Text.Dict.{insert, has_key, delete}
use geotagger.Updater.Disk.{
  Archive, end_of_archive, broken, entry, UpdateError, io_failed, no_archive, bad_archive,
  not_opened, not_verified, not_in_archive, Outside, Action, ◌>>◌, give, ticked, syscall, attempt,
}

abbrev pub mmdb_name : Str → Str
mmdb_name edition = edition ++ codes ".mmdb"

-- io.LimitReader(tr, 256<<20)
abbrev pub limited : Str → Str
limited content = take (2 ^ 28) content

module _ (o : Outside) where
  unfoldable pub remove_staged : Str → Action (Unit {0})
  unfolding attempt delete
  remove_staged name = attempt o (λ d. record d { stage = delete name d.stage })

  unfoldable pub remove_and_fail : Str → UpdateError → Action (Unit {0})
  unfolding remove_staged
  remove_and_fail name e = do remove_staged name; give (err e)

  -- A step that fails removes the file.
  unfoldable pub or_remove : Str → Action (Unit {0})
  unfolding remove_and_fail
  or_remove name d =
      if o.fails d.calls then remove_and_fail name io_failed (ticked d) else (ok tt, ticked d)

  -- os.OpenFile with O_EXCL
  unfoldable pub create_file : Str → Action (Unit {0})
  unfolding syscall
  create_file name d =
      if has_key name d.stage
      then (err io_failed, ticked d)
      else syscall o (λ e. record e { stage = insert name [] e.stage }) d

  -- io.Copy: what is there after an error is removed.
  unfoldable pub copy_file : Str → Str → Action (Unit {0})
  unfolding remove_and_fail
  copy_file name content d =
      if o.fails d.calls
      then remove_and_fail name io_failed (ticked d)
      else (ok tt, record (ticked d) { stage = insert name (limited content) d.stage })

  -- maxminddb.Open, Verify and Close
  unfoldable pub verify_file : Str → Str → Action (Unit {0})
  unfolding or_remove
  verify_file name content =
      if not (o.opens content)
      then remove_and_fail name not_opened
      else if not (o.verifies content)
      then remove_and_fail name not_verified
      else or_remove name

  unfoldable pub store : Str → Str → Action (Unit {0})
  unfolding create_file copy_file or_remove verify_file
  store name content = do
    create_file name
    copy_file name content
    or_remove name
    or_remove name
    verify_file name (limited content)

  unfoldable pub extract : Str → Archive → Action (Unit {0})
  unfolding store
  extract wanted end_of_archive = give (err (not_in_archive wanted))
  extract wanted broken = give (err bad_archive)
  extract wanted (entry regular name content rest) =
      let later = extract wanted rest in
      if not regular || not (str_eq (base name) wanted) then later else store wanted content

  unfoldable pub extract_from : Str → Option Archive → Action (Unit {0})
  unfolding extract
  extract_from wanted none = give (err no_archive)
  extract_from wanted (some archive) = extract wanted archive

  unfoldable pub download_edition : Str → Action (Unit {0})
  unfolding extract_from
  download_edition edition d =
      extract_from (mmdb_name edition) (o.download d.calls edition) (ticked d)
