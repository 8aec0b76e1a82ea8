-- ===== src/Keygen/RoundTrip.antt =====
-- What keygen prints is accepted by the API that is configured with it.
use geotagger.Prelude.{
  ℕ, ◌<◌, ◌≡◌, ◌≢◌, refl, false, [], ◌∷◌, ◌++◌, some, arith, ok, length, All, All-append, ==_iff,
}
use geotagger.Text.Bytes.{Str, is_empty, str_eq_refl}
use geotagger.Text.Strings.{split, Lacks, contains_of_Lacks, cut-append, split_from-Lacks}
use geotagger.Text.Hex.{hex_encode, hex_decode-hex_encode}
use geotagger.Text.Base64.{base64_encode}
use geotagger.Text.Graphic.{
  IsGraphic, trim_space_graphic, hex_encode-IsGraphic, hex_encode-Lacks_comma,
  base64_encode-IsGraphic,
}
use geotagger.Text.Dict.{lookup, insert}
use geotagger.Auth.{
  Verifier, digest_size, bearer, decode_digest, add_static, add_cut, add_entry, add_entries,
  new_verifier, verify_authorization,
}
use geotagger.Auth.Verify.{Grants, verify_complete}
use geotagger.Auth.Static.{IsKeyId, validate_id_complete}
use geotagger.Keygen.{printed, Printed, print_key, keygen}

pub decode_digest-hex_encode :
    (id digest : Str)
    → All (λ c. c < 256) digest
    → length digest ≡ digest_size
    → decode_digest id (hex_encode digest) ≡ ok digest
unfolding decode_digest
decode_digest-hex_encode id digest bytes size =
    rw (hex_decode-hex_encode digest bytes, decode_digest)
      (rw ((==_iff (length digest) digest_size).1 size))

abbrev single : Str → Str → Verifier
single id digest = record { static = (id, digest) ∷ []; managed = [] }

-- An id that can stand in an entry: also without a comma, and of graphic ASCII, so that TrimSpace
-- does not shorten it.
pub record IsPrintableId (id : Str) : Type 0 where
  pub key_id : IsKeyId id
  pub no_comma : Lacks b',' id
  pub graphic : All IsGraphic id

abbrev pub IsDigest : Str → Type 0
IsDigest d = All (λ c. c < 256) d × (length d ≡ digest_size)

add_static-single :
    (id digest : Str)
    → IsKeyId id
    → IsDigest digest
    → add_static [] id (hex_encode digest) ≡ ok ((id, digest) ∷ [])
unfolding add_static lookup insert
add_static-single id digest k (bytes, size) =
    rw (validate_id_complete id k) (rw (decode_digest-hex_encode id digest bytes size))

hex_encode-ne-nil : (d : Str) → length d ≡ digest_size → is_empty (hex_encode d) ≡ false
unfolding hex_encode
hex_encode-ne-nil [] h = absurd (omega arith)
hex_encode-ne-nil (c ∷ d) h = refl

add_cut-single :
    (id entry digest : Str)
    → IsKeyId id
    → IsDigest digest
    → add_cut [] entry (some (id, hex_encode digest)) ≡ ok ((id, digest) ∷ [])
unfolding add_cut
add_cut-single [] entry digest k d = absurd (k.present refl)
add_cut-single (c ∷ id) entry digest k d =
    rw (hex_encode-ne-nil digest d.1) (add_static-single (c ∷ id) digest k d)

is_empty-append : (s t : Str) (c : ℕ) → is_empty (s ++ c ∷ t) ≡ false
is_empty-append [] t c = refl
is_empty-append (x ∷ s) t c = refl

abbrev Entry : Str → Str → Str
Entry id digest = id ++ b':' ∷ hex_encode digest

Entry-IsGraphic :
    (id digest : Str) → All IsGraphic id → IsDigest digest → All IsGraphic (Entry id digest)
Entry-IsGraphic id digest g d =
    All-append IsGraphic id _ g (omega arith, hex_encode-IsGraphic digest d.0)

add_entry-single :
    (id digest : Str)
    → IsPrintableId id
    → IsDigest digest
    → add_entry [] (Entry id digest) ≡ ok ((id, digest) ∷ [])
unfolding add_entry
add_entry-single id digest p d = rw (trim_space_graphic _ (Entry-IsGraphic id digest p.graphic d)) (
    rw (is_empty-append id (hex_encode digest) b':') (
      rw (cut-append b':' id (hex_encode digest) p.key_id.no_colon)
        (add_cut-single id _ digest p.key_id d)))

new_verifier-single :
    (id digest : Str)
    → IsPrintableId id
    → IsDigest digest
    → new_verifier (Entry id digest) ≡ ok (single id digest)
unfolding new_verifier split add_entries
new_verifier-single id digest p d =
    rw (split_from-Lacks b',' [] (Entry id digest) lacks) (rw (add_entry-single id digest p d))
  where
    lacks : Lacks b',' (Entry id digest)
    lacks = All-append (λ c. c ≢ b',') id _ p.no_comma (omega arith, hex_encode-Lacks_comma digest)

pub base64_encode-ne-nil : (s : Str) → s ≢ [] → base64_encode s ≢ []
unfolding base64_encode
base64_encode-ne-nil [] h = absurd (h refl)
base64_encode-ne-nil (a ∷ []) h = cc
base64_encode-ne-nil (a ∷ b ∷ []) h = cc
base64_encode-ne-nil (a ∷ b ∷ c ∷ s) h = cc

single-Grants : (id digest : Str) (now : ℕ) → Grants (single id digest) now id digest
unfolding lookup
single-Grants id digest now = Grants.static refl (rw (str_eq_refl id))

module _ (sha256 : Str → Str) (sized : (s : Str) → IsDigest (sha256 s)) where
  print_key_accepted :
      (id bytes : Str) (now : ℕ) (p : Printed)
      → IsPrintableId id
      → bytes ≢ []
      → print_key sha256 id (some bytes) ≡ printed p
      → (v : Verifier) × (new_verifier p.entry ≡ ok v)
        × (verify_authorization sha256 v now (bearer ++ p.token) ≡ ok id)
  unfolding print_key
  print_key_accepted id bytes now p ok_id some_bytes h =
      let secret = base64_encode bytes in
      let token : p.token ≡ id ++ b'.' ∷ secret = ground arith in
      let entry : p.entry ≡ Entry id (sha256 secret) = ground arith in
      (
        single id (sha256 secret),
        rw entry (new_verifier-single id (sha256 secret) ok_id (sized secret)),
        verify_complete sha256 (single id (sha256 secret)) now (bearer ++ p.token) id secret
            (record {
              rest = p.token;
              scheme = refl;
              token = rw token (
                  trim_space_graphic _ (
                    All-append IsGraphic id _ ok_id.graphic
                      (omega arith, base64_encode-IsGraphic bytes)));
              no_dot = ok_id.key_id.no_dot;
              has_id = ok_id.key_id.present;
              has_secret = base64_encode-ne-nil bytes some_bytes;
            })
            (single-Grants id (sha256 secret) now),
      )

  -- Where a SHA-256 digest has 32 bytes: for every id of graphic ASCII without comma, dot or colon,
  -- keygen prints a token and an entry, if rand.Read gives it at least one byte. An API whose
  -- API_KEYS is that entry starts, and accepts that token for that id at every instant.
  pub keygen_accepted :
      (id bytes : Str) (now : ℕ)
      → IsPrintableId id
      → bytes ≢ []
      → (p : Printed) × (keygen sha256 (id ∷ []) (some bytes) ≡ printed p)
        × (v : Verifier) × (new_verifier p.entry ≡ ok v)
        × (verify_authorization sha256 v now (bearer ++ p.token) ≡ ok id)
  unfolding keygen print_key
  keygen_accepted id bytes now ok_id some_bytes =
      let (v, starts, accepts) = print_key_accepted id bytes now _ ok_id some_bytes refl in
      (
        _,
        rw (contains_of_Lacks b'.' id ok_id.key_id.no_dot)
            (rw (contains_of_Lacks b':' id ok_id.key_id.no_colon) refl),
        v,
        starts,
        accepts,
      )
