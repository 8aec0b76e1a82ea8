-- ===== src/Examples/Addresses.antt =====
-- Addresses that are looked up and addresses that are not, and latencies in their buckets.
use geotagger.Prelude.{
  ℕ, ◌%◌, ◌^◌, ◌≡◌, ◌≢◌, ◌↔◌, ◌⊎◌, refl, true, List, [], ◌∷◌, map, length, arith,
}
use geotagger.Text.Bytes.{Str}
use geotagger.Net.{v4, v6, is_4in6, public_target}
use geotagger.Net.Public.{
  Avoids, quad, closed_blocks_4, closed_blocks_6, public_target-v4, public_target-v6,
}
use geotagger.Metrics.Buckets.{observe_all, empty_histogram, count_within, total, observe_all_lem}

public_target-v4_example :
    (public_target (v4 (quad 8 8 8 8)) ≡ true) ↔ Avoids (quad 8 8 8 8) closed_blocks_4
public_target-v4_example = public_target-v4 (quad 8 8 8 8)

abbrev low : ℕ
low = 1

abbrev no_zone : Str
no_zone = []

public_target-v6_example :
    (public_target (v6 1 []) ≡ true) ↔ (Avoids 1 closed_blocks_6 × ((low ≢ 0) ⊎ (no_zone ≢ [])))
unfolding is_4in6
public_target-v6_example = public_target-v6 1 [] (omega arith) refl

abbrev latencies : List ℕ
latencies = 15 ∷ 5 ∷ 30 ∷ []

observe_all_lem_example :
    observe_all (10 ∷ 20 ∷ []) latencies (empty_histogram (10 ∷ 20 ∷ [])) ≡ record {
      sum = total latencies % 2 ^ 64;
      count = length latencies % 2 ^ 64;
      buckets = map (λ u. count_within u latencies % 2 ^ 64) (10 ∷ 20 ∷ []);
    }
observe_all_lem_example = observe_all_lem (10 ∷ 20 ∷ []) latencies
