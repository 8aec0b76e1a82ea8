-- ===== src/HttpApi/ClientIp.antt =====
-- clientIP and firstForwardedFor: the address of the caller of /v1/me.
use geotagger.Prelude.{List, [], ◌∷◌, Option, none, some, if◌then◌else◌}
use geotagger.Text.Bytes.{Str, is_empty}
use geotagger.Text.Strings.{cut}
use geotagger.Text.Trim.{trim_space}
use geotagger.Net.{Addr, unmap}
use geotagger.HttpApi.Server.{Outside, Request}

-- v[:i] at the first comma, or v
unfoldable pub first_forwarded_for : Str → Str
first_forwarded_for v = elim (cut b',' v) [
  | none ↦ trim_space v
  | some (hop, more) ↦ trim_space hop
]

module _ (o : Outside) where
  -- netip.ParseAddr(strings.TrimSpace(raw)), then Unmap
  unfoldable pub parse_unmapped : Str → Option Addr
  parse_unmapped raw = elim (o.parse_addr (trim_space raw)) [
    | none ↦ none
    | some ip ↦ some (unmap ip)
  ]

  -- The loop over the two headers, then RemoteAddr.
  unfoldable pub first_parsed : List Str → Str → Option Addr
  first_parsed [] fallback = parse_unmapped fallback
  first_parsed (raw ∷ raws) fallback =
      let rest = first_parsed raws fallback in
      if is_empty raw then rest else elim (parse_unmapped raw) [ none ↦ rest | some ip ↦ some ip ]

  unfoldable pub remote_host : Str → Str
  remote_host addr = elim (o.split_host_port addr) [ none ↦ addr | some host ↦ host ]

  unfoldable pub client_ip : Request → Option Addr
  unfolding first_forwarded_for parse_unmapped first_parsed remote_host
  client_ip r =
      first_parsed (r.cf_connecting_ip ∷ first_forwarded_for r.x_forwarded_for ∷ [])
        (remote_host r.remote_addr)
