-- ===== src/Metrics.antt =====
-- internal/httpapi/metrics.go: counters and latency histograms. An atomic counter is a number
-- below 2^64 that wraps around.
pub mod Buckets
use geotagger.Prelude.{ℕ, ◌+◌, ◌-◌, ◌%◌, ◌^◌, Bool, List, [], ◌∷◌, ◌++◌, leb, if◌then◌else◌}

-- atomic.Uint64.Add
abbrev pub add_64 : ℕ → ℕ → ℕ
add_64 a b = (a + b) % 2 ^ 64

-- atomic.Int64.Add(-1), on the bits
abbrev pub dec_64 : ℕ → ℕ
dec_64 a = (a + (2 ^ 64 - 1)) % 2 ^ 64

abbrev pub lookup_bounds : List ℕ
lookup_bounds = 100 ∷ 250 ∷ 500 ∷ 1000 ∷ 2500 ∷ 5000 ∷ 10000 ∷ 25000 ∷ 50000 ∷ []

abbrev pub audit_publish_bounds : List ℕ
audit_publish_bounds = 100 ∷ 250 ∷ 500 ∷ 1000 ∷ 2500 ∷ 5000 ∷ 10000 ∷ 25000 ∷ 50000 ∷ []

abbrev pub request_bounds : List ℕ
request_bounds =
    500 ∷ 1000 ∷ 2500 ∷ 5000 ∷ 10000 ∷ 25000 ∷ 50000 ∷ 100000 ∷ 250000 ∷ 500000 ∷ 1000000 ∷ 2500000
    ∷ []

-- A sum, a count and the buckets of one histogram.
pub record Histogram : Type 0 where
  pub sum : ℕ
  pub count : ℕ
  pub buckets : List ℕ

pub record Metrics : Type 0 where
  pub requests : ℕ
  pub auth_failures : ℕ
  pub lookup_failures : ℕ
  pub audit_failures : ℕ
  pub lookup : Histogram
  pub audit_publish : Histogram
  pub request : Histogram
  pub inflight : ℕ

-- The loop of `observe`; the buckets are an array as long as the bounds.
unfoldable pub observe : ℕ → List ℕ → List ℕ → List ℕ
observe us [] buckets = buckets
observe us (upper ∷ uppers) [] = []
observe us (upper ∷ uppers) (b ∷ buckets) =
    (if leb us upper then add_64 b 1 else b) ∷ observe us uppers buckets

unfoldable pub record_latency : ℕ → List ℕ → Histogram → Histogram
record_latency us uppers h = record {
  sum = add_64 h.sum us;
  count = add_64 h.count 1;
  buckets = observe us uppers h.buckets;
}

unfoldable pub observe_lookup : ℕ → Metrics → Metrics
observe_lookup us m = record m { lookup = record_latency us lookup_bounds m.lookup }

unfoldable pub observe_audit_publish : ℕ → Metrics → Metrics
observe_audit_publish us m = record m {
  audit_publish = record_latency us audit_publish_bounds m.audit_publish;
}

unfoldable pub observe_request : ℕ → Metrics → Metrics
observe_request us m = record m { request = record_latency us request_bounds m.request }

-- The lines that writeHistogram prints of a histogram: each bound with its bucket, then the count
-- for the bound +Inf, the sum and the count.
pub data Line : Type 0 where
  bucket : ℕ → ℕ → Line
  bucket_inf sum_line count_line : ℕ → Line

unfoldable pub bucket_lines : List ℕ → List ℕ → List Line
bucket_lines [] buckets = []
bucket_lines (upper ∷ uppers) [] = []
bucket_lines (upper ∷ uppers) (b ∷ buckets) = bucket upper b ∷ bucket_lines uppers buckets

unfoldable pub write_histogram : List ℕ → Histogram → List Line
unfolding bucket_lines
write_histogram uppers h =
    bucket_lines uppers h.buckets ++ bucket_inf h.count ∷ sum_line h.sum ∷ count_line h.count ∷ []
