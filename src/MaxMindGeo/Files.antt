-- ===== src/MaxMindGeo/Files.antt =====
-- The databases, the file system that their paths lead to, and the steps that read it.
use geotagger.Prelude.{
  ℕ, ◌+◌, Bool, false, ◌&&◌, ◌||◌, not, Option, none, some, Result, ok, err, ltb, ◌==◌,
  if◌then◌else◌,
}
use geotagger.Text.Bytes.{Str, str_eq}

pub record FileStamp : Type 0 where
  pub resolved_path : Str
  pub mod_time : ℕ
  pub size : ℕ

-- A *maxminddb.Reader: the file that it was opened on, and a number of its own.
pub record Reader : Type 0 where
  pub handle : ℕ
  pub path : Str

pub record MaxMind : Type 0 where
  pub city_path : Str
  pub asn_path : Str
  pub city_reader : Option Reader
  pub asn_reader : Option Reader
  pub city_version : Str
  pub asn_version : Str
  pub city_stamp : FileStamp
  pub asn_stamp : FileStamp

pub record FileInfo : Type 0 where
  pub size : ℕ
  pub mod_time : ℕ

pub record Metadata : Type 0 where
  pub database_type : Str
  pub build_time : ℕ

-- What the file system and the reader's library answer. The n-th call has its own answer, since
-- the files and the links can change between two calls.
pub record Outside : Type 0 where
  pub eval_symlinks : ℕ → Str → Option Str
  pub stat_file : ℕ → Str → Option FileInfo
  pub open_file : ℕ → Str → Option Metadata
  pub verify : ℕ → Reader → Bool
  pub close_fails : Reader → Bool
  pub rfc3339 : ℕ → Str

pub data StampError : Type 0 where
  unresolved no_info empty_file : StampError

pub data OpenError : Type 0 where
  unopened unverified : OpenError

pub data MaxMindError : Type 0 where
  stat_city stat_asn : StampError → MaxMindError
  open_city open_asn : OpenError → MaxMindError
  incoherent : MaxMindError

-- The databases, the number of calls so far, and which readers are open.
pub record World : Type 0 where
  pub maxmind : MaxMind
  pub calls : ℕ
  pub is_open : ℕ → Bool

abbrev pub Action : Type 0 → Type 0 → Type 0
Action E A = World → Result E A × World

abbrev pub follow : {E A B : Type 0} → Result E A → (A → Action E B) → Action E B
follow (ok a) next w = next a w
follow (err e) next w = (err e, w)

infixl 5 ◌>>=◌ ◌>>◌
abbrev pub ◌>>=◌ : {E A B : Type 0} → Action E A → (A → Action E B) → Action E B
◌>>=◌ first next w = let r = first w in follow r.0 next r.1

abbrev pub ◌>>◌ : {E A B : Type 0} → Action E A → Action E B → Action E B
first >> rest = first >>= (λ done. rest)

abbrev pub give : {E A : Type 0} → Result E A → Action E A
give r w = (r, w)

-- fmt.Errorf("…: %w", err)
abbrev pub wrap : {E F A : Type 0} → (E → F) → Result E A → Result F A
wrap f (ok a) = ok a
wrap f (err e) = err (f e)

abbrev pub wrapped : {E F A : Type 0} → (E → F) → Action E A → Action F A
wrapped f m w = let r = m w in (wrap f r.0, r.1)

abbrev pub tick : {E : Type 0} → Action E ℕ
tick w = (ok w.calls, record w { calls = w.calls + 1 })

-- fileStamp.changed
unfoldable pub changed : FileStamp → FileStamp → Bool
changed s previous =
    ltb 0 s.size
    && (not (str_eq s.resolved_path previous.resolved_path)
        || not (s.size == previous.size)
        || not (s.mod_time == previous.mod_time))

-- reader.Close
unfoldable pub close_reader : {E : Type 0} → Reader → Action E (Unit {0})
close_reader r w = (ok tt, record w { is_open = λ k. if k == r.handle then false else w.is_open k })

-- The close of a reader that may be nil.
unfoldable pub close_old : {E : Type 0} → Option Reader → Action E (Unit {0})
unfolding close_reader
close_old none = give (ok tt)
close_old (some r) = close_reader r
