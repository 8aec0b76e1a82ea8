-- ===== src/Worker/Delivery.antt =====
-- What the worker does with the messages that it is handed.
use mathlib.Core.List.{map-append}
use geotagger.Prelude.{
  ℕ, ◌+◌, ◌≤◌, ◌<◌, ◌≡◌, refl, sym, ap, ◌∙◌, Bool, true, false, List, [], ◌∷◌, ◌++◌, append_assoc,
  map, arith, ltb, if◌then◌else◌, length, length-append, Bool-cases, inl, inr, append-nil,
}
use geotagger.Text.Bytes.{Str}
use geotagger.Worker.{Msg, Worker, Insert, channel_size, on_message, settle, flush_batch, flush}

-- The rows of several batches in one list.
unfoldable pub all_rows : List (List Str) → List Str
all_rows [] = []
all_rows (rows ∷ more) = rows ++ all_rows more

all_rows-append :
    (batches : List (List Str)) (rows : List Str)
    → all_rows (batches ++ rows ∷ []) ≡ all_rows batches ++ rows
unfolding all_rows
all_rows-append [] rows = append-nil rows
all_rows-append (b ∷ batches) rows =
    ap (λ t. b ++ t) (all_rows-append batches rows) ∙ sym (append_assoc b (all_rows batches) rows)

-- How many messages of a list pass a test.
unfoldable pub count : (Msg → Bool) → List Msg → ℕ
count p [] = 0
count p (m ∷ ms) = (if p m then 1 else 0) + count p ms

pub count-append :
    (p : Msg → Bool) (xs ys : List Msg) → count p (xs ++ ys) ≡ count p xs + count p ys
unfolding count
count-append p [] ys = omega arith
count-append p (m ∷ xs) ys = omega (arith, count-append p xs ys)

-- Every message handed over waits in the channel or in the batch, or was acknowledged or refused,
-- and in one place only: for every test, the numbers agree.
abbrev pub IsConserved : Worker → Type 0
IsConserved w =
    (p : Msg → Bool)
    → count p w.delivered ≡ count p w.ch + count p w.batch + count p w.acked + count p w.nacked

-- The messages acknowledged are those of the batches that the sink took, in their order.
abbrev pub IsPersisted : Worker → Type 0
IsPersisted w = map (λ m. m.content) w.acked ≡ all_rows w.taken

-- The batch is not full, and is empty when the worker has returned; the channel keeps its size.
pub record IsBounded (w : Worker) : Type 0 where
  pub batch : length w.batch < w.cfg.batch_size
  pub channel : length w.ch ≤ channel_size w.cfg
  pub stopped : w.running ≡ false → w.batch ≡ []

settle-IsConserved : (b : Bool) (w : Worker) → IsConserved w → IsConserved (settle b w)
unfolding settle count
settle-IsConserved true w h p = omega (arith, h p, count-append p w.acked w.batch)
settle-IsConserved false w h p = omega (arith, h p, count-append p w.nacked w.batch)

settle-IsPersisted : (b : Bool) (w : Worker) → IsPersisted w → IsPersisted (settle b w)
unfolding settle
settle-IsPersisted true w h =
    rw all_rows-append
      (map-append _ w.acked w.batch ∙ ap (λ t. t ++ map (λ m. m.content) w.batch) h)
settle-IsPersisted false w h = h

settle-IsBounded :
    (b : Bool) (w : Worker)
    → 0 < w.cfg.batch_size
    → length w.ch ≤ channel_size w.cfg
    → IsBounded (settle b w)
unfolding settle
settle-IsBounded true w pos room = record { batch = pos; channel = room; stopped = λ _. refl }
settle-IsBounded false w pos room = record { batch = pos; channel = room; stopped = λ _. refl }

settle_config :
    (b : Bool) (w : Worker) → ((settle b w).cfg ≡ w.cfg) × ((settle b w).running ≡ w.running)
unfolding settle
settle_config true w = (refl, refl)
settle_config false w = (refl, refl)

pub on_message-IsConserved : (m : Msg) (w : Worker) → IsConserved w → IsConserved (on_message m w)
unfolding on_message
on_message-IsConserved m w h p = ground (
  arith,
  h p,
  count-append p w.delivered (m ∷ []),
  count-append p w.ch (m ∷ []),
  count-append p w.nacked (m ∷ []),
)

pub on_message-IsPersisted : (m : Msg) (w : Worker) → IsPersisted w → IsPersisted (on_message m w)
unfolding on_message
on_message-IsPersisted m w h = elim (Bool-cases (ltb (length w.ch) (channel_size w.cfg))) [
  | inl room ↦ rw room h
  | inr full ↦ rw full h
]

pub on_message-IsBounded : (m : Msg) (w : Worker) → IsBounded w → IsBounded (on_message m w)
unfolding on_message
on_message-IsBounded m w h = elim (Bool-cases (ltb (length w.ch) (channel_size w.cfg))) [
  | inl room ↦ rw room (record {
    batch = h.batch;
    channel = ground (arith, length-append w.ch (m ∷ []));
    stopped = h.stopped;
  })
  | inr full ↦ rw full (record { batch = h.batch; channel = h.channel; stopped = h.stopped })
]

module _ (insert : Insert) where
  pub flush-IsConserved : (d : Bool) (w : Worker) → IsConserved w → IsConserved (flush insert d w)
  unfolding flush
  flush-IsConserved d w h = go w.batch
    where
      go : (b : List Msg) → IsConserved (flush_batch insert d b w)
      go [] = h
      go (m ∷ ms) = settle-IsConserved _ w h

  pub flush-IsPersisted : (d : Bool) (w : Worker) → IsPersisted w → IsPersisted (flush insert d w)
  unfolding flush
  flush-IsPersisted d w h = go w.batch
    where
      go : (b : List Msg) → IsPersisted (flush_batch insert d b w)
      go [] = h
      go (m ∷ ms) = settle-IsPersisted _ w h

  -- After a flush the batch is empty.
  pub flush_empty :
      (d : Bool) (w : Worker)
      → let w' = flush insert d w in
        (w'.batch ≡ []) × (w'.ch ≡ w.ch) × (w'.cfg ≡ w.cfg) × (w'.running ≡ w.running)
  unfolding flush
  flush_empty d w = go w.batch refl
    where
      settled :
          (b : Bool)
          → ((settle b w).batch ≡ [])
            × ((settle b w).ch ≡ w.ch)
            × ((settle b w).cfg ≡ w.cfg)
            × ((settle b w).running ≡ w.running)
      settled true = unfold settle in (refl, refl, refl, refl)
      settled false = unfold settle in (refl, refl, refl, refl)

      go :
          (b : List Msg)
          → w.batch ≡ b
          → let w' = flush_batch insert d b w in
            (w'.batch ≡ []) × (w'.ch ≡ w.ch) × (w'.cfg ≡ w.cfg) × (w'.running ≡ w.running)
      go [] e = (e, refl, refl, refl)
      go (m ∷ ms) e = settled _
