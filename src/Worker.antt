-- ===== src/Worker.antt =====
-- internal/worker/worker.go: the audit worker, which collects messages of the stream into batches,
-- inserts them into the sink and acknowledges them.
pub mod ClickHouse
pub mod Delivery
pub mod Runs
pub mod Drain
use geotagger.Prelude.{
  ℕ, ◌+◌, ◌*◌, ◌%◌, ◌^◌, Bool, true, false, not, ◌||◌, List, [], ◌∷◌, ◌++◌, map, ltb, leb,
  if◌then◌else◌, length,
}
use geotagger.Text.Bytes.{Str}
use geotagger.NatsAudit.Stream.{ℤ}
use geotagger.Config.Values.{is_positive}

-- A message of the stream; its number tells two of the same content apart.
pub record Msg : Type 0 where
  pub number : ℕ
  pub content : Str

pub record Config : Type 0 where
  pub batch_size : ℕ

-- The channel, the batch of `Run` and, for what the worker tells NATS and the sink, the messages
-- acknowledged and refused and the batches of rows that the sink took, the oldest first.
-- `delivered` is what the subscription has handed to the worker.
pub record Worker : Type 0 where
  pub cfg : Config
  pub delivered : List Msg
  pub ch : List Msg
  pub batch : List Msg
  pub acked : List Msg
  pub nacked : List Msg
  pub taken : List (List Str)
  pub running : Bool

-- The int BatchSize*4, of 64 bits, read without its sign: from 2^63 on it is negative.
abbrev pub channel_size : Config → ℕ
channel_size cfg = (cfg.batch_size * 4) % 2 ^ 64

-- The worker in `Run`, where nothing has panicked.
unfoldable pub new_worker : Config → Worker
new_worker cfg = record {
  cfg = cfg;
  delivered = [];
  ch = [];
  batch = [];
  acked = [];
  nacked = [];
  taken = [];
  running = true;
}

-- How `New` and `Run` come to the loop: with a worker, or with the panic of a call.
pub data Started : Type 0 where
  started : Worker → Started
  make_channel_panicked new_ticker_panicked make_batch_panicked : Started

-- `New` makes the channel and `Run` the ticker and the slices; the connection and the subscription
-- between them, and their errors, are left out. Whether the runtime has room for a channel and for
-- slices of that capacity is an argument.
module _ (channel_fits slices_fit : ℕ → Bool) where
  unfoldable pub start : Config → ℤ → Started
  unfolding new_worker
  start cfg flush_interval =
      if leb (2 ^ 63) (channel_size cfg) || not (channel_fits (channel_size cfg))
      then make_channel_panicked
      else if not (is_positive flush_interval)
      then new_ticker_panicked
      else if not (slices_fit cfg.batch_size)
      then make_batch_panicked
      else started (new_worker cfg)

-- The callback of the subscription: a full channel refuses the message.
unfoldable pub on_message : Msg → Worker → Worker
on_message msg w =
    let w' = record w { delivered = w.delivered ++ msg ∷ [] } in
    if ltb (length w.ch) (channel_size w.cfg)
    then record w' { ch = w.ch ++ msg ∷ [] }
    else record w' { nacked = w.nacked ++ msg ∷ [] }

-- Sink.Insert under a context that is done or not, after the batches that the sink took before:
-- whether it returned no error.
abbrev pub Insert : Type 0
Insert = Bool → List (List Str) → List Str → Bool

-- The cases of the select, and a message that arrives meanwhile.
pub data Event : Type 0 where
  message : Msg → Event
  ready tick cancelled : Event

-- The rows of a flush are taken, and its messages acknowledged, or all are refused.
unfoldable pub settle : Bool → Worker → Worker
settle true w = record w {
  acked = w.acked ++ w.batch;
  taken = w.taken ++ map (λ m. m.content) w.batch ∷ [];
  batch = [];
}
settle false w = record w { nacked = w.nacked ++ w.batch; batch = [] }

module _ (insert : Insert) where
  -- The closure `flush`; the context of its insert derives from that of `Run`, done or not.
  unfoldable pub flush_batch : Bool → List Msg → Worker → Worker
  unfolding settle
  flush_batch ctx_done [] w = w
  flush_batch ctx_done (m ∷ ms) w =
      settle (insert ctx_done w.taken (map (λ m. m.content) (m ∷ ms))) w

  unfoldable pub flush : Bool → Worker → Worker
  unfolding flush_batch
  flush ctx_done w = flush_batch ctx_done w.batch w

  -- case msg := <-w.ch
  unfoldable pub take_message : Msg → List Msg → Worker → Worker
  unfolding flush
  take_message msg ch w =
      let w' = record w { ch = ch; batch = w.batch ++ msg ∷ [] } in
      if leb w.cfg.batch_size (length w'.batch) then flush false w' else w'

  unfoldable pub receive : List Msg → Worker → Worker
  unfolding take_message
  receive [] w = w
  receive (msg ∷ ch) w = take_message msg ch w

  -- A receive waits while the channel is empty, and nothing but the callback runs behind the
  -- return.
  unfoldable pub step : Event → Worker → Worker
  unfolding on_message receive
  step (message msg) w = on_message msg w
  step ready w = if w.running then receive w.ch w else w
  step tick w = if w.running then flush false w else w
  step cancelled w = if w.running then record (flush true w) { running = false } else w

  unfoldable pub run : List Event → Worker → Worker
  unfolding step
  run [] w = w
  run (e ∷ es) w = run es (step e w)
