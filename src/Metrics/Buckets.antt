-- ===== src/Metrics/Buckets.antt =====
-- A histogram that has seen a list of latencies, against the list.
use geotagger.Prelude.{
  ℕ, ◌+◌, ◌%◌, ◌^◌, ◌≡◌, refl, List, [], ◌∷◌, map, arith, leb, if◌then◌else◌, length,
}
use geotagger.Metrics.{Histogram, observe, record_latency}

-- The histogram of a process that has just started.
unfoldable pub empty_histogram : List ℕ → Histogram
empty_histogram uppers = record { sum = 0; count = 0; buckets = map (λ _. 0) uppers }

unfoldable pub observe_all : List ℕ → List ℕ → Histogram → Histogram
observe_all uppers [] h = h
observe_all uppers (us ∷ more) h = record_latency us uppers (observe_all uppers more h)

-- How many latencies are at most the bound.
unfoldable pub count_within : ℕ → List ℕ → ℕ
count_within upper [] = 0
count_within upper (us ∷ more) = (if leb us upper then 1 else 0) + count_within upper more

unfoldable pub total : List ℕ → ℕ
total [] = 0
total (us ∷ more) = us + total more

observe-map :
    (us : ℕ) (uppers : List ℕ) (seen : List ℕ)
    → observe us uppers (map (λ u. count_within u seen % 2 ^ 64) uppers)
      ≡ map (λ u. count_within u (us ∷ seen) % 2 ^ 64) uppers
unfolding observe count_within
observe-map us [] seen = refl
observe-map us (u ∷ uppers) seen = ground (arith, observe-map us uppers seen)

-- After any latencies, in any order, each bucket has the number of those at most its bound, the
-- count has their number and the sum has their sum, each modulo 2^64.
pub observe_all_lem :
    (uppers seen : List ℕ)
    → observe_all uppers seen (empty_histogram uppers) ≡ record {
      sum = total seen % 2 ^ 64;
      count = length seen % 2 ^ 64;
      buckets = map (λ u. count_within u seen % 2 ^ 64) uppers;
    }
unfolding observe_all record_latency empty_histogram total
observe_all_lem uppers [] = unfold count_within in refl
observe_all_lem uppers (us ∷ seen) =
    rw (observe_all_lem uppers seen) (ground (arith, observe-map us uppers seen))
