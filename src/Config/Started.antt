-- ===== src/Config/Started.antt =====
-- The worker that cmd/audit-worker/main.go starts with its configuration.
use geotagger.Prelude.{ℕ, ◌<◌, ◌≤◌, ◌*◌, ◌%◌, ◌^◌, ◌≡◌, ◌≢◌, ◌⊎◌, Bool, false, List, []}
use geotagger.NatsAudit.Stream.{ℤ, pos, negsuc}
use geotagger.Config.Load.{WorkerConfig}
use geotagger.Worker.{
  Worker, Insert, Event, Started, started, make_channel_panicked, new_ticker_panicked,
  make_batch_panicked, run,
}
use geotagger.Worker.Runs.{IsSound}

-- The size of the batches is a positive int of 64 bits, and the credentials are there.
pub record IsStartable (c : WorkerConfig) (n : ℕ) : Type 0 where
  pub batch_size : c.batch_size ≡ pos n
  pub positive : 0 < n
  pub small : n < 2 ^ 63
  pub user : c.click_house_user ≢ []
  pub password : c.click_house_password ≢ []

module _ (channel_fits slices_fit : ℕ → Bool) (insert : Insert) (es : List Event) where
  -- A worker in the loop that keeps its invariant over the events; or the call that panicked, and
  -- why.
  pub data Begins (n : ℕ) (flush_interval : ℤ) (s : Started) : Type 0 where
    runs :
        (w : Worker) (k : ℕ)
        → s ≡ started w
        → flush_interval ≡ pos k
        → 0 < k
        → IsSound (run insert es w)
        → Begins n flush_interval s
    no_channel :
        s ≡ make_channel_panicked
        → (2 ^ 63 ≤ (n * 4) % 2 ^ 64) ⊎ (channel_fits ((n * 4) % 2 ^ 64) ≡ false)
        → Begins n flush_interval s
    no_ticker :
        s ≡ new_ticker_panicked
        → (flush_interval ≡ pos 0) ⊎ ((k : ℕ) × (flush_interval ≡ negsuc k))
        → Begins n flush_interval s
    no_batch : s ≡ make_batch_panicked → slices_fit n ≡ false → Begins n flush_interval s
