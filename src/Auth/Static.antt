-- ===== src/Auth/Static.antt =====
-- NewVerifier: the API_KEYS specification, and the entry that cmd/keygen prints for it.
use geotagger.Prelude.{
  ◌≡◌, ◌≢◌, refl, List, [], ◌∷◌, Option, none, some, arith, ok, >>=-eq-ok, Bool-cases, length, All,
  inl, inr,
}
use geotagger.Text.Bytes.{Str, is_empty}
use geotagger.Text.Strings.{cut, split, Lacks, contains-Lacks, contains_of_Lacks}
use geotagger.Text.Trim.{trim_space}
use geotagger.Text.Dict.{Dict, insert, insert-All, insert-IsDistinct, IsDistinct}
use geotagger.Auth.{
  Verifier, digest_size, validate_id, decode_digest, add_static, add_cut, add_entry, add_entries,
  new_verifier, with_static,
}

-- A key id can stand in a token and in an API_KEYS entry.
pub record IsKeyId (id : Str) : Type 0 where
  pub present : id ≢ []
  pub no_dot : Lacks b'.' id
  pub no_colon : Lacks b':' id

abbrev pub IsStaticEntry : Str × Str → Type 0
IsStaticEntry (id, digest) = IsKeyId id × (length digest ≡ digest_size)

pub validate_id-IsKeyId : (id : Str) → validate_id id ≡ ok tt → IsKeyId id
unfolding validate_id
validate_id-IsKeyId [] h = cc
validate_id-IsKeyId (c ∷ id) h = record {
  present = cc;
  no_dot = contains-Lacks b'.' (c ∷ id) (ground arith);
  no_colon = contains-Lacks b':' (c ∷ id) (ground arith);
}

pub validate_id_complete : (id : Str) → IsKeyId id → validate_id id ≡ ok tt
unfolding validate_id
validate_id_complete [] k = absurd (k.present refl)
validate_id_complete (c ∷ id) k =
    rw (contains_of_Lacks b'.' (c ∷ id) k.no_dot) (rw (contains_of_Lacks b':' (c ∷ id) k.no_colon))

pub decode_digest-length :
    (id digest raw : Str) → decode_digest id digest ≡ ok raw → length raw ≡ digest_size
unfolding decode_digest
decode_digest-length id digest raw h = ground arith

abbrev pub IsStaticTable : Dict Str → Type 0
IsStaticTable m = All IsStaticEntry m × IsDistinct m

add_static-IsStaticTable :
    (m next : Dict Str) (id digest : Str)
    → IsStaticTable m
    → add_static m id digest ≡ ok next
    → IsStaticTable next
unfolding add_static
add_static-IsStaticTable m next id digest (entries, keys) h =
    let (u, valid, rest) = >>=-eq-ok (validate_id id) _ h in
    let (raw, decoded, last) = >>=-eq-ok (decode_digest id digest) _ rest in
    let inserted : insert id raw m ≡ next = ground arith in
    rw (← inserted) (
      insert-All IsStaticEntry id raw m
          (validate_id-IsKeyId id valid, decode_digest-length id digest raw decoded) entries,
      insert-IsDistinct id raw m keys,
    )

add_cut-IsStaticTable :
    (m next : Dict Str) (entry : Str) (o : Option (Str × Str))
    → IsStaticTable m
    → add_cut m entry o ≡ ok next
    → IsStaticTable next
unfolding add_cut
add_cut-IsStaticTable m next entry none table h = cc
add_cut-IsStaticTable m next entry (some (id, digest)) table h =
    add_static-IsStaticTable m next id digest table (ground arith)

add_entry-IsStaticTable :
    (m next : Dict Str) (raw : Str)
    → IsStaticTable m
    → add_entry m raw ≡ ok next
    → IsStaticTable next
unfolding add_entry
add_entry-IsStaticTable m next raw table h = elim (Bool-cases (is_empty (trim_space raw))) [
  | inl blank ↦ let same : m ≡ next = ground arith in rw (← same) table
  | inr text ↦
      add_cut-IsStaticTable m next (trim_space raw) (cut b':' (trim_space raw)) table (ground arith)
]

add_entries-IsStaticTable :
    (m next : Dict Str) (raws : List Str)
    → IsStaticTable m
    → add_entries m raws ≡ ok next
    → IsStaticTable next
unfolding add_entries
add_entries-IsStaticTable m next [] table h = let same : m ≡ next = cc in rw (← same) table
add_entries-IsStaticTable m next (raw ∷ raws) table h =
    let (m', added, rest) = >>=-eq-ok (add_entry m raw) _ h in
    add_entries-IsStaticTable m' next raws (add_entry-IsStaticTable m m' raw table added) rest

with_static_lem :
    (m : Dict Str) (v : Verifier)
    → with_static m ≡ ok v
    → (v.static ≡ m) × (v.static ≢ []) × (v.managed ≡ [])
with_static_lem [] v h = cc
with_static_lem (e ∷ m) v h = ground arith

-- A verifier that NewVerifier returns has at least one static key and no managed one. Every
-- static id can stand in a token and in an entry, stands once, and has a digest of 32 bytes.
pub new_verifier-IsStaticTable :
    (spec : Str) (v : Verifier)
    → new_verifier spec ≡ ok v
    → IsStaticTable v.static × (v.static ≢ []) × (v.managed ≡ [])
unfolding new_verifier
new_verifier-IsStaticTable spec v h =
    let (m, added, last) = >>=-eq-ok (add_entries [] (split b',' spec)) _ h in
    let (same, some_key, no_managed) = with_static_lem m v last in
    (
      rw same (add_entries-IsStaticTable [] m (split b',' spec) (tt, tt) added),
      some_key,
      no_managed,
    )
