-- ===== src/Examples/Bodies.antt =====
-- Bodies at a limit of five bytes and at the greatest one.
use geotagger.Prelude.{◌+◌, ◌-◌, ◌^◌, ◌≤◌, ◌<◌, ◌≡◌, ◌⊎◌, refl, [], some, arith, length}
use geotagger.Text.Bytes.{Str, codes}
use geotagger.Net.{Addr, invalid}
use geotagger.HttpApi.Server.{Outside, Server, malformed}
use geotagger.HttpApi.Actions.{refuse}
use geotagger.HttpApi.Handlers.{read_body, ip_from_json}
use geotagger.HttpApi.Limits.{read_body_lem, ip_from_json_greatest_limit}
use geotagger.Examples.Fixtures.{outside, server, lookup_with}

read_body_lem_example :
    let r = lookup_with [] in
    ((length r.body ≤ 5) × (read_body 5 r ≡ some r.body))
    ⊎ ((5 < length r.body) × ((b : Str) × ((read_body 5 r ≡ some b) × (length b ≡ 5 + 1))))
read_body_lem_example = read_body_lem 5 (lookup_with []) (omega arith) refl

abbrev greatest : Server
greatest = record server { max_body_bytes = 2 ^ 63 - 1 }

abbrev strict : Outside
strict = record outside { decode_ip = λ text. malformed }

ip_from_json_greatest_limit_example :
    ip_from_json greatest strict (codes "id") (codes "app") (lookup_with [])
    ≡ refuse strict greatest {A = Addr}
        (codes "id")
        (codes "app")
        invalid
        "invalid_request"
        400
        "body must be JSON with an ip field"
ip_from_json_greatest_limit_example =
    ip_from_json_greatest_limit greatest strict (codes "id") (codes "app") (lookup_with []) refl
      refl
