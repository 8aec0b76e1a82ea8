-- ===== src/Examples/Delivery.antt =====
-- The worker on a few messages, with a sink that takes a batch and one that fails when cancelled.
use geotagger.Prelude.{
  ℕ, ◌≤◌, ◌<◌, ◌≡◌, ◌↔◌, refl, true, not, [], ◌∷◌, ◌++◌, some, ok, length, arith,
}
use geotagger.Text.Bytes.{codes}
use geotagger.Text.Strings.{split}
use geotagger.Worker.{Msg, Config, Worker, Insert, message, ready, tick, cancelled, new_worker, run}
use geotagger.Worker.Runs.{IsSound, run-IsSound}
use geotagger.Worker.Drain.{receive_all, run-receive_all}
use geotagger.Worker.ClickHouse.{
  ClickHouse, insert_request, insert_rows, body_bytes, insert_request_body, insert_rows_iff,
}

abbrev live_only : Insert
live_only ctx_done taken rows = not ctx_done

abbrev cfg : Config
cfg = record { batch_size = 2 }

abbrev first : Msg
first = record { number = 1; content = codes "a" }

abbrev second : Msg
second = record { number = 2; content = codes "b" }

abbrev waiting : Worker
waiting = record {
  cfg = cfg;
  delivered = first ∷ second ∷ [];
  ch = second ∷ [];
  batch = first ∷ [];
  acked = [];
  nacked = [];
  taken = [];
  running = true;
}

run-IsSound_example : IsSound (
    run live_only
      (message first ∷ ready ∷ message second ∷ ready ∷ tick ∷ cancelled ∷ [])
      (new_worker cfg))
run-IsSound_example =
    run-IsSound live_only (message first ∷ ready ∷ message second ∷ ready ∷ tick ∷ cancelled ∷ [])
      cfg (omega arith)

run-receive_all_example :
    let w' = run live_only (receive_all (second ∷ [])) waiting in
    (w'.acked ≡ (waiting.acked ++ waiting.batch) ++ second ∷ [])
    × ((w'.nacked ≡ waiting.nacked) × ((w'.batch ≡ []) × (w'.ch ≡ [])))
run-receive_all_example =
    run-receive_all live_only (λ taken rows. refl) (second ∷ []) waiting refl refl

abbrev sink : ClickHouse
sink = record { endpoint = codes "http://ch"; user = codes "u"; password = codes "p" }

insert_request_body_example :
    (length (insert_request sink (codes "a" ∷ codes "bc" ∷ [])).body
      ≡ body_bytes (length (codes "a" ∷ codes "bc" ∷ [])) (codes "a" ∷ codes "bc" ∷ []))
    × (split b'\n' (insert_request sink (codes "a" ∷ codes "bc" ∷ [])).body
        ≡ (codes "a" ∷ codes "bc" ∷ []) ++ [] ∷ [])
insert_request_body_example = insert_request_body sink (codes "a" ∷ codes "bc" ∷ []) (omega arith)

insert_rows_iff_example :
    (insert_rows (λ url. true) (λ req. some 200) sink (codes "a" ∷ []) ≡ ok tt)
    ↔ ((true ≡ true) × ((code : ℕ) × ((some 200 ≡ some code) × ((200 ≤ code) × (code < 300)))))
insert_rows_iff_example = insert_rows_iff (λ url. true) (λ req. some 200) sink (codes "a") []
