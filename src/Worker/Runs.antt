-- ===== src/Worker/Runs.antt =====
-- The worker over any sequence of events.
use geotagger.Prelude.{
  ◌≤◌, ◌<◌, ◌≡◌, refl, ap, Bool, true, false, List, [], ◌∷◌, ◌++◌, arith, ltb, leb, if◌then◌else◌,
  length, Bool-cases, inl, inr,
}
use geotagger.Worker.{
  Msg, Config, Worker, Insert, Event, message, ready, tick, cancelled, channel_size, new_worker,
  on_message, flush, take_message, receive, step, run,
}
use geotagger.Worker.Delivery.{
  count, count-append, IsConserved, IsPersisted, IsBounded, all_rows, flush-IsConserved,
  flush-IsPersisted, flush_empty, on_message-IsConserved, on_message-IsPersisted,
  on_message-IsBounded,
}

-- All that holds of the worker between two events.
pub record IsSound (w : Worker) : Type 0 where
  pub conserved : IsConserved w
  pub persisted : IsPersisted w
  pub bounded : IsBounded w

module _ (insert : Insert) where
  flush-IsSound :
      (d : Bool) (w : Worker) → 0 < w.cfg.batch_size → IsSound w → IsSound (flush insert d w)
  flush-IsSound d w pos h =
      let (empty, same_ch, same_cfg, same_on) = flush_empty insert d w in
      record {
        conserved = flush-IsConserved insert d w h.conserved;
        persisted = flush-IsPersisted insert d w h.persisted;
        bounded = record {
          batch = rw empty (rw same_cfg pos);
          channel = rw same_ch (rw same_cfg h.bounded.channel);
          stopped = λ _. empty;
        };
      }

  take_message-IsSound :
      (m : Msg) (ch : List Msg) (w : Worker)
      → w.ch ≡ m ∷ ch
      → 0 < w.cfg.batch_size
      → w.running ≡ true
      → IsSound w
      → IsSound (take_message insert m ch w)
  unfolding take_message
  take_message-IsSound m ch w e pos on h =
      elim (Bool-cases (leb w.cfg.batch_size (length (w.batch ++ m ∷ [])))) [
        | inl full ↦ rw full (flushed moved_conserved)
        | inr room ↦ rw room (record {
          conserved = moved_conserved;
          persisted = h.persisted;
          bounded = record {
            batch = ground arith;
            channel = smaller;
            stopped = λ off. cc (on, off);
          };
        })
      ]
    where
      w' : Worker
      w' = record w { ch = ch; batch = w.batch ++ m ∷ [] }

      smaller : length ch ≤ channel_size w.cfg
      smaller = omega (arith, h.bounded.channel, ap length e)

      moved_conserved : IsConserved w'
      moved_conserved p = omega (
        arith,
        h.conserved p,
        ap (count p) e,
        count-append p w.batch (m ∷ []),
        count-append p (m ∷ []) ch,
      )

      flushed : IsConserved w' → IsSound (flush insert false w')
      flushed c =
          let (empty, same_ch, same_cfg, same_on) = flush_empty insert false w' in
          record {
            conserved = flush-IsConserved insert false w' c;
            persisted = flush-IsPersisted insert false w' h.persisted;
            bounded = record {
              batch = rw empty (rw same_cfg pos);
              channel = rw same_ch (rw same_cfg smaller);
              stopped = λ _. empty;
            };
          }

  step-IsSound :
      (e : Event) (w : Worker) → 0 < w.cfg.batch_size → IsSound w → IsSound (step insert e w)
  unfolding step
  step-IsSound (message m) w pos h = record {
    conserved = on_message-IsConserved m w h.conserved;
    persisted = on_message-IsPersisted m w h.persisted;
    bounded = on_message-IsBounded m w h.bounded;
  }
  step-IsSound ready w pos h = go w.running refl
    where
      received : (ch : List Msg) → w.ch ≡ ch → w.running ≡ true → IsSound (receive insert ch w)
      received [] e on = unfold receive in h
      received (m ∷ ch) e on = unfold receive in take_message-IsSound m ch w e pos on h

      go : (b : Bool) → w.running ≡ b → IsSound (if b then receive insert w.ch w else w)
      go true on = received w.ch refl on
      go false off = h
  step-IsSound tick w pos h = go w.running
    where
      go : (b : Bool) → IsSound (if b then flush insert false w else w)
      go true = flush-IsSound false w pos h
      go false = h
  step-IsSound cancelled w pos h = go w.running
    where
      closed :
          IsSound (flush insert true w) → IsSound (record (flush insert true w) { running = false })
      closed f = record {
        conserved = f.conserved;
        persisted = f.persisted;
        bounded = record {
          batch = f.bounded.batch;
          channel = f.bounded.channel;
          stopped = λ _. (flush_empty insert true w).0;
        };
      }

      go : (b : Bool) → IsSound (if b then record (flush insert true w) { running = false } else w)
      go true = closed (flush-IsSound true w pos h)
      go false = h

  step_config : (e : Event) (w : Worker) → (step insert e w).cfg ≡ w.cfg
  unfolding step on_message receive take_message
  step_config (message m) w = elim (Bool-cases (ltb (length w.ch) (channel_size w.cfg))) [
    | inl room ↦ rw room refl
    | inr full ↦ rw full refl
  ]
  step_config ready w = go w.running
    where
      kept : Msg → List Msg → Worker
      kept m ch = record w { ch = ch; batch = w.batch ++ m ∷ [] }

      taken :
          (m : Msg) (ch : List Msg) (b : Bool)
          → (if b then flush insert false (kept m ch) else kept m ch).cfg ≡ w.cfg
      taken m ch true = (flush_empty insert false (kept m ch)).2
      taken m ch false = refl

      received : (ch : List Msg) → (receive insert ch w).cfg ≡ w.cfg
      received [] = refl
      received (m ∷ ch) = taken m ch (leb w.cfg.batch_size (length (w.batch ++ m ∷ [])))

      go : (b : Bool) → (if b then receive insert w.ch w else w).cfg ≡ w.cfg
      go true = received w.ch
      go false = refl
  step_config tick w = go w.running
    where
      go : (b : Bool) → (if b then flush insert false w else w).cfg ≡ w.cfg
      go true = (flush_empty insert false w).2
      go false = refl
  step_config cancelled w = go w.running
    where
      go :
          (b : Bool)
          → (if b then record (flush insert true w) { running = false } else w).cfg ≡ w.cfg
      go true = (flush_empty insert true w).2
      go false = refl

  run_keeps :
      (es : List Event) (w : Worker) → 0 < w.cfg.batch_size → IsSound w → IsSound (run insert es w)
  unfolding run
  run_keeps [] w pos h = h
  run_keeps (e ∷ es) w pos h =
      run_keeps es (step insert e w) (rw (step_config e w) pos) (step-IsSound e w pos h)

  -- A new worker with batches of at least one message, after any sequence of deliveries, receives,
  -- ticks and a cancellation, and whatever the sink answers: every message delivered waits in the
  -- channel or the batch or was acknowledged or refused, and is in one of these places only; the
  -- messages acknowledged are, in their order, those of the batches that the sink took; the
  -- batch is not full, the channel keeps its size, and a worker that has returned has an empty
  -- batch.
  pub run-IsSound :
      (es : List Event) (cfg : Config)
      → 0 < cfg.batch_size
      → IsSound (run insert es (new_worker cfg))
  unfolding new_worker count all_rows
  run-IsSound es cfg pos = run_keeps es (new_worker cfg) pos (record {
    conserved = λ p. refl;
    persisted = refl;
    bounded = record { batch = pos; channel = omega arith; stopped = λ _. refl };
  })
