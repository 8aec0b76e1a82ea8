-- ===== src/Updater/Disk.antt =====
-- The directory of the databases, the calls that change it, and the list of editions.
use geotagger.Prelude.{
  ℕ, ◌+◌, Bool, true, false, List, [], ◌∷◌, ◌++◌, Option, Result, ok, err, if◌then◌else◌,
}
use geotagger.Text.Bytes.{Str, str_eq, is_empty}
use geotagger.Text.Strings.{split}
use geotagger.Text.Trim.{trim_space}
use geotagger.Text.Dict.{Dict}

-- A directory under releases, with the contents of its files.
pub record Release : Type 0 where
  pub name : Str
  pub files : Dict Str

-- The target of the link `current`, the link that is to replace it, the staging directory, the
-- releases, and the number of calls so far.
pub record Disk : Type 0 where
  pub current : Option Str
  pub link : Option Str
  pub stage : Dict Str
  pub releases : List Release
  pub calls : ℕ

-- What a reader of the tar archive finds: its end, an error, or an entry that is a regular file or
-- not, with its name and content.
pub data Archive : Type 0 where
  end_of_archive broken : Archive
  entry : Bool → Str → Str → Archive → Archive

pub data UpdateError : Type 0 where
  io_failed no_archive bad_archive not_opened not_verified : UpdateError
  not_in_archive duplicate_edition : Str → UpdateError
  no_editions : UpdateError

-- The n-th call fails or not; what the download of an edition gives; what the MaxMind library says
-- of a content; the suffix of the temporary directory, and the time as it stands in a name.
pub record Outside : Type 0 where
  pub fails : ℕ → Bool
  pub download : ℕ → Str → Option Archive
  pub opens : Str → Bool
  pub verifies : Str → Bool
  pub suffix : Str
  pub stamp : Str

abbrev pub Action : Type 0 → Type 0
Action A = Disk → Result UpdateError A × Disk

abbrev pub go_on : {A B : Type 0} → Result UpdateError A → (A → Action B) → Action B
go_on (ok a) next d = next a d
go_on (err e) next d = (err e, d)

infixl 5 ◌>>=◌ ◌>>◌
abbrev pub ◌>>=◌ : {A B : Type 0} → Action A → (A → Action B) → Action B
◌>>=◌ first next d = let r = first d in go_on r.0 next r.1

abbrev pub ◌>>◌ : {A B : Type 0} → Action A → Action B → Action B
first >> rest = first >>= (λ done. rest)

abbrev pub give : {A : Type 0} → Result UpdateError A → Action A
give r d = (r, d)

abbrev pub ticked : Disk → Disk
ticked d = record d { calls = d.calls + 1 }

-- A call of the file system: one that fails changes nothing.
unfoldable pub syscall : Outside → (Disk → Disk) → Action (Unit {0})
syscall o change d =
    if o.fails d.calls then (err io_failed, ticked d) else (ok tt, change (ticked d))

-- A call whose error is ignored.
unfoldable pub attempt : Outside → (Disk → Disk) → Action (Unit {0})
attempt o change d = (ok tt, if o.fails d.calls then ticked d else change (ticked d))

unfoldable pub is_seen : Str → List Str → Bool
is_seen edition [] = false
is_seen edition (e ∷ seen) = if str_eq e edition then true else is_seen edition seen

-- The loop of parseEditions.
unfoldable pub add_editions : List Str → List Str → Result UpdateError (List Str)
unfolding is_seen
add_editions editions [] = ok editions
add_editions editions (part ∷ parts) =
    let edition = trim_space part in
    if is_empty edition
    then add_editions editions parts
    else if is_seen edition editions
    then err (duplicate_edition edition)
    else add_editions (editions ++ edition ∷ []) parts

abbrev pub or_none : Result UpdateError (List Str) → Result UpdateError (List Str)
or_none (ok []) = err no_editions
or_none (ok (e ∷ editions)) = ok (e ∷ editions)
or_none (err e) = err e

-- parseEditions
unfoldable pub parse_editions : Str → Result UpdateError (List Str)
unfolding add_editions
parse_editions raw = or_none (add_editions [] (split b',' raw))
