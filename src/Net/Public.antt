-- ===== src/Net/Public.antt =====
-- publicTarget against the CIDR blocks that it keeps out.
use geotagger.Prelude.{
  ℕ, ◌+◌, ◌-◌, ◌*◌, ◌^◌, ◌<◌, ◌≡◌, ◌≢◌, ◌↔◌, ◌⊎◌, true, false, List, [], ◌∷◌, arith, All,
}
use geotagger.Text.Bytes.{Str}
use geotagger.Net.{v4, v6, is_4in6, public_target}

-- a.b.c.d
abbrev pub quad : ℕ → ℕ → ℕ → ℕ → ℕ
quad a b c d = a * 2 ^ 24 + b * 2 ^ 16 + c * 2 ^ 8 + d

-- The number lies in no block: below its first address, or above its last one.
abbrev pub Avoids : ℕ → List (ℕ × ℕ) → Type 0
Avoids n = All (λ block. (n < block.0) ⊎ (block.1 < n))

abbrev pub closed_blocks_4 : List (ℕ × ℕ)
closed_blocks_4 =
    (quad 0 0 0 0, quad 0 0 0 0)
    ∷ (quad 10 0 0 0, quad 10 255 255 255)
    ∷ (quad 127 0 0 0, quad 127 255 255 255)
    ∷ (quad 169 254 0 0, quad 169 254 255 255)
    ∷ (quad 172 16 0 0, quad 172 31 255 255)
    ∷ (quad 192 168 0 0, quad 192 168 255 255)
    ∷ (quad 224 0 0 0, quad 239 255 255 255)
    ∷ (quad 255 255 255 255, quad 255 255 255 255)
    ∷ []

-- An IPv4 address is looked up by default exactly if it is none of 0.0.0.0 and 255.255.255.255 and
-- lies in none of 10/8, 127/8, 169.254/16, 172.16/12, 192.168/16 and 224/4.
pub public_target-v4 : (n : ℕ) → (public_target (v4 n) ≡ true) ↔ Avoids n closed_blocks_4
unfolding public_target
public_target-v4 n = (λ h. ground arith, λ h. ground arith)

abbrev pub closed_blocks_6 : List (ℕ × ℕ)
closed_blocks_6 =
    (1, 1)
    ∷ (0xfc * 2 ^ 120, 0xfe * 2 ^ 120 - 1)
    ∷ (0xfe8 * 2 ^ 116, 0xfec * 2 ^ 116 - 1)
    ∷ (0xff * 2 ^ 120, 2 ^ 128 - 1)
    ∷ []

-- An IPv6 address that is no IPv4 in IPv6 is looked up by default exactly if it lies in none of
-- ::1, fc00::/7, fe80::/10 and ff00::/8 and is not :: without a zone.
pub public_target-v6 :
    (n : ℕ) (zone : Str)
    → n < 2 ^ 128
    → is_4in6 n ≡ false
    → (public_target (v6 n zone) ≡ true) ↔ (Avoids n closed_blocks_6 × ((n ≢ 0) ⊎ (zone ≢ [])))
unfolding public_target
public_target-v6 n [] bound plain = (λ h. ground arith, λ h. ground arith)
public_target-v6 n (c ∷ zone) bound plain = (λ h. ground arith, λ h. ground arith)
