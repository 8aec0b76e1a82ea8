-- ===== src/Keygen.antt =====
-- cmd/keygen/main.go: a new static credential, as the client's token and the server's entry.
pub mod Comma
pub mod RoundTrip
use geotagger.Prelude.{ℕ, Bool, ◌||◌, List, [], ◌∷◌, ◌++◌, Option, none, some, if◌then◌else◌}
use geotagger.Text.Bytes.{Str}
use geotagger.Text.Strings.{contains}
use geotagger.Text.Hex.{hex_encode}
use geotagger.Text.Base64.{base64_encode}

pub record Printed : Type 0 where
  pub token : Str
  pub entry : Str

pub data Exit : Type 0 where
  usage : Exit
  panicked : Exit
  printed : Printed → Exit

-- main, from the arguments behind the program's name and the outcome of rand.Read on 32 bytes.
module _ (sha256 : Str → Str) where
  unfoldable pub print_key : Str → Option Str → Exit
  print_key id none = panicked
  print_key id (some bytes) =
      let secret = base64_encode bytes in
      printed
        (record { token = id ++ b'.' ∷ secret; entry = id ++ b':' ∷ hex_encode (sha256 secret) })

  unfoldable pub keygen : List Str → Option Str → Exit
  keygen [] random = usage
  keygen (id ∷ extra ∷ more) random = usage
  keygen (id ∷ []) random =
      if contains b'.' id || contains b':' id then usage else print_key id random
