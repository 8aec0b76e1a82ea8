-- ===== src/Net.antt =====
-- net/netip's `Addr`, as far as the API reads it. An address is the number that its bits spell;
-- the tests are those of the standard library on the leading bits. Parsing and printing are
-- arguments of the code that calls them.
pub mod Public
use geotagger.Prelude.{
  ℕ, ◌+◌, ◌-◌, ◌*◌, ◌/◌, ◌%◌, ◌^◌, Bool, true, false, ◌&&◌, ◌||◌, not, ◌==◌, if◌then◌else◌,
}
use geotagger.Text.Bytes.{Str, is_empty}

-- The zero value, an IPv4 address, and an IPv6 address with its zone.
pub data Addr : Type 0 where
  invalid : Addr
  v4 : ℕ → Addr
  v6 : ℕ → Str → Addr

unfoldable pub is_valid : Addr → Bool
is_valid invalid = false
is_valid (v4 n) = true
is_valid (v6 n zone) = true

unfoldable pub is_4 : Addr → Bool
is_4 (v4 n) = true
is_4 _ = false

-- ::ffff:0:0/96 is IPv4 in IPv6.
unfoldable pub is_4in6 : ℕ → Bool
is_4in6 n = n / 2 ^ 32 == 0xffff

unfoldable pub unmap : Addr → Addr
unfolding is_4in6
unmap invalid = invalid
unmap (v4 n) = v4 n
unmap (v6 n zone) = if is_4in6 n then v4 (n % 2 ^ 32) else v6 n zone

-- The tests on an address that is not IPv4 in IPv6.
private_bits : Addr → Bool
private_bits invalid = false
private_bits (v4 n) = n / 2 ^ 24 == 10 || n / 2 ^ 20 == 0xac1 || n / 2 ^ 16 == 0xc0a8
private_bits (v6 n zone) = n / 2 ^ 121 == 0x7e

loopback_bits : Addr → Bool
loopback_bits invalid = false
loopback_bits (v4 n) = n / 2 ^ 24 == 127
loopback_bits (v6 n zone) = n == 1

link_local_bits : Addr → Bool
link_local_bits invalid = false
link_local_bits (v4 n) = n / 2 ^ 16 == 0xa9fe
link_local_bits (v6 n zone) = n / 2 ^ 118 == 0x3fa

multicast_bits : Addr → Bool
multicast_bits invalid = false
multicast_bits (v4 n) = n / 2 ^ 28 == 0xe
multicast_bits (v6 n zone) = n / 2 ^ 120 == 0xff

-- 0.0.0.0, 255.255.255.255 and ::
reserved_bits : Addr → Bool
reserved_bits invalid = true
reserved_bits (v4 n) = n == 0 || n == 2 ^ 32 - 1
reserved_bits (v6 n zone) = n == 0 && is_empty zone

unfoldable pub is_private : Addr → Bool
unfolding private_bits unmap
is_private ip = private_bits (unmap ip)

unfoldable pub is_loopback : Addr → Bool
unfolding loopback_bits unmap
is_loopback ip = loopback_bits (unmap ip)

unfoldable pub is_link_local_unicast : Addr → Bool
unfolding link_local_bits unmap
is_link_local_unicast ip = link_local_bits (unmap ip)

unfoldable pub is_global_unicast : Addr → Bool
unfolding loopback_bits link_local_bits multicast_bits reserved_bits unmap
is_global_unicast ip =
    let plain = unmap ip in
    not (reserved_bits plain)
    && not (loopback_bits plain)
    && not (multicast_bits plain)
    && not (link_local_bits plain)

-- internal/httpapi/server.go: the addresses that the API looks up by default.
unfoldable pub public_target : Addr → Bool
unfolding is_valid is_global_unicast is_private is_loopback is_link_local_unicast
public_target ip =
    is_valid ip
    && is_global_unicast ip
    && not (is_private ip)
    && not (is_loopback ip)
    && not (is_link_local_unicast ip)
