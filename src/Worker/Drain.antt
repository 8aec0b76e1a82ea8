-- ===== src/Worker/Drain.antt =====
-- The worker while the sink takes every batch.
use geotagger.Prelude.{
  ◌≡◌, refl, sym, ap, ◌∙◌, Bool, true, false, List, [], ◌∷◌, ◌++◌, append-nil, append_assoc, leb,
  if◌then◌else◌, length,
}
use geotagger.Text.Bytes.{Str}
use geotagger.Worker.{
  Msg, Worker, Insert, Event, ready, tick, settle, flush_batch, flush, take_message, receive, step,
  run,
}

-- One receive for each message, then a tick.
abbrev pub receive_all : List Msg → List Event
receive_all [] = tick ∷ []
receive_all (m ∷ ch) = ready ∷ receive_all ch

-- The worker has moved from `w` to `w'` with `ms` received, `ch` still waiting, and nothing
-- refused.
record Moved (w w' : Worker) (ms ch : List Msg) : Type 0 where
  pub all : w'.acked ++ w'.batch ≡ (w.acked ++ w.batch) ++ ms
  pub waiting : w'.ch ≡ ch
  pub running : w'.running ≡ true
  pub refused : w'.nacked ≡ w.nacked

module _ (insert : Insert)
    (takes : (taken : List (List Str)) (rows : List Str) → insert false taken rows ≡ true) where
  flush-Moved :
      (w : Worker)
      → w.running ≡ true
      → Moved w (flush insert false w) [] w.ch × ((flush insert false w).batch ≡ [])
  unfolding flush
  flush-Moved w on = go w.batch refl
    where
      go :
          (b : List Msg)
          → w.batch ≡ b
          → Moved w (flush_batch insert false b w) [] w.ch
            × ((flush_batch insert false b w).batch ≡ [])
      go [] e =
          unfold flush_batch in
          (
            record {
              all = sym (append-nil (w.acked ++ w.batch));
              waiting = refl;
              running = on;
              refused = refl;
            },
            e,
          )
      go (m ∷ ms) e =
          unfold flush_batch in
          rw (takes, settle)
            (record { all = refl; waiting = refl; running = on; refused = refl }, refl)

  take_message-Moved :
      (m : Msg) (ch : List Msg) (w : Worker)
      → w.running ≡ true
      → Moved w (take_message insert m ch w) (m ∷ []) ch
  unfolding take_message
  take_message-Moved m ch w on = go (leb w.cfg.batch_size (length (w.batch ++ m ∷ [])))
    where
      w' : Worker
      w' = record w { ch = ch; batch = w.batch ++ m ∷ [] }

      go : (full : Bool) → Moved w (if full then flush insert false w' else w') (m ∷ []) ch
      go true =
          let h = (flush-Moved w' on).0 in
          record {
            all =
                h.all
                ∙ append-nil (w.acked ++ (w.batch ++ m ∷ []))
                ∙ sym (append_assoc w.acked w.batch (m ∷ []));
            waiting = h.waiting;
            running = h.running;
            refused = h.refused;
          }
      go false = record {
        all = sym (append_assoc w.acked w.batch (m ∷ []));
        waiting = refl;
        running = on;
        refused = refl;
      }

  -- While the sink takes every batch, a running worker that receives the messages waiting in its
  -- channel and then sees a tick acknowledges its batch and all of these messages, in their order,
  -- refuses none, and is left with an empty batch and an empty channel.
  pub run-receive_all :
      (ch : List Msg) (w : Worker)
      → w.ch ≡ ch
      → w.running ≡ true
      → let w' = run insert (receive_all ch) w in
        (w'.acked ≡ (w.acked ++ w.batch) ++ ch)
        × ((w'.nacked ≡ w.nacked) × ((w'.batch ≡ []) × (w'.ch ≡ [])))
  unfolding run step
  run-receive_all [] w e on = go w.running on
    where
      go :
          (b : Bool)
          → b ≡ true
          → let w' = if b then flush insert false w else w in
            (w'.acked ≡ (w.acked ++ w.batch) ++ [])
            × ((w'.nacked ≡ w.nacked) × ((w'.batch ≡ []) × (w'.ch ≡ [])))
      go true _ =
          let (h, empty) = flush-Moved w on in
          (
            sym (append-nil _) ∙ ap (λ b. (flush insert false w).acked ++ b) (sym empty) ∙ h.all,
            (h.refused, (empty, h.waiting ∙ e)),
          )
      go false off = cc
  run-receive_all (m ∷ ch) w e on =
      let h = take_message-Moved m ch w on in
      go w.running on w.ch e h (run-receive_all ch (take_message insert m ch w) h.waiting h.running)
    where
      Drained : Worker → Worker → List Msg → Type 0
      Drained v w' ms =
          (w'.acked ≡ (v.acked ++ v.batch) ++ ms)
          × ((w'.nacked ≡ v.nacked) × ((w'.batch ≡ []) × (w'.ch ≡ [])))

      go :
          (b : Bool)
          → b ≡ true
          → (waiting : List Msg) → waiting ≡ m ∷ ch
          → Moved w (take_message insert m ch w) (m ∷ []) ch
          → Drained
              (take_message insert m ch w)
              (run insert (receive_all ch) (take_message insert m ch w))
              ch
          → Drained w
              (run insert (receive_all ch) (if b then receive insert waiting w else w))
              (m ∷ ch)
      go true _ waiting same h (acked, (nacked, rest)) =
          rw (same, receive)
            (
              acked ∙ ap (λ t. t ++ ch) h.all ∙ append_assoc (w.acked ++ w.batch) (m ∷ []) ch,
              (nacked ∙ h.refused, rest),
            )
      go false off waiting same h rest = cc
