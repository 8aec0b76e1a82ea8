-- ===== src/Keygen/Comma.antt =====
-- Ids with a comma: keygen lets them through, and the API does not start with their entry.
use geotagger.Prelude.{ℕ, ◌≡◌, ◌≢◌, refl, [], ◌∷◌, ◌++◌, none, some, arith, err, All, append_assoc}
use geotagger.Text.Bytes.{Str}
use geotagger.Text.Strings.{cut, split, contains_of_Lacks, Lacks, split_from-append}
use geotagger.Text.Hex.{hex_encode}
use geotagger.Text.Base64.{base64_encode}
use geotagger.Text.Graphic.{IsGraphic, trim_space_graphic}
use geotagger.Auth.{invalid_entry, add_cut, add_entry, add_entries, new_verifier}
use geotagger.Keygen.{printed, Printed, print_key, keygen}

cut-Lacks : (c : ℕ) (s : Str) → Lacks c s → cut c s ≡ none
unfolding cut
cut-Lacks c [] h = refl
cut-Lacks c (x ∷ s) h = ground (arith, cut-Lacks c s)

add_entry-no_colon :
    (a : Str) → a ≢ [] → All IsGraphic a → Lacks b':' a → add_entry [] a ≡ err (invalid_entry a)
unfolding add_entry add_cut
add_entry-no_colon [] some_a g no_colon = absurd (some_a refl)
add_entry-no_colon (c ∷ a) some_a g no_colon =
    rw (trim_space_graphic (c ∷ a) g) (rw (cut-Lacks b':' (c ∷ a) no_colon))

new_verifier_comma :
    (a rest : Str)
    → a ≢ []
    → All IsGraphic a
    → Lacks b':' a
    → Lacks b',' a
    → new_verifier (a ++ b',' ∷ rest) ≡ err (invalid_entry a)
unfolding new_verifier split add_entries
new_verifier_comma a rest some_a g no_colon no_comma =
    rw (split_from-append b',' [] a rest no_comma) (rw (add_entry-no_colon a some_a g no_colon))

-- keygen prints an entry for every id with a comma that has neither dot nor colon; an API whose
-- API_KEYS is that entry refuses to start, if what stands before the comma is graphic ASCII.
pub keygen_comma_rejected :
    (sha256 : Str → Str) (a b bytes : Str)
    → a ≢ []
    → All IsGraphic a
    → Lacks b',' a
    → Lacks b':' a
    → Lacks b'.' (a ++ b',' ∷ b)
    → Lacks b':' (a ++ b',' ∷ b)
    → (p : Printed) × (keygen sha256 ((a ++ b',' ∷ b) ∷ []) (some bytes) ≡ printed p)
      × (new_verifier p.entry ≡ err (invalid_entry a))
unfolding keygen print_key
keygen_comma_rejected sha256 a b bytes some_a g no_comma no_colon no_dot no_colons = (
  record {
    token = (a ++ b',' ∷ b) ++ b'.' ∷ base64_encode bytes;
    entry = (a ++ b',' ∷ b) ++ b':' ∷ hex_encode (sha256 (base64_encode bytes));
  },
  rw (contains_of_Lacks b'.' _ no_dot) (rw (contains_of_Lacks b':' _ no_colons) refl),
  rw (append_assoc a (b',' ∷ b) (b':' ∷ hex_encode (sha256 (base64_encode bytes))))
      (new_verifier_comma a _ some_a g no_colon no_comma),
)
