-- ===== src/Siem/Tests.antt =====
-- The theorems on the processor at concrete events.
use rust_samples.Prelude.{ℕ, ◌≡◌, refl, arith, List, [], ◌∷◌, ◌++◌, none, some, true, false}
use rust_samples.Prelude.Text.{codes}
use rust_samples.Siem.{SiemEvent, Config, Attempt, Store}
use rust_samples.Siem.Writer.{write_batch, all_written}
use rust_samples.Siem.Manager.{Wakeup, received, timer_expired, run, new_manager}
use rust_samples.Siem.Saved.{write_batch_lem}
use rust_samples.Siem.Flow.{concat, run_lem}
use rust_samples.Siem.Bounds.{IsBounded, run-IsBounded}

abbrev event : ℕ → SiemEvent
event n = record {
  event_id = n;
  timestamp = 0;
  event_type = codes "Port_Scan";
  source_ip = [];
  destination_ip = [];
  severity = codes "LOW";
  message = [];
}

abbrev json : SiemEvent → List ℕ
json e = codes "{}"

-- The first event of the batch is refused by ClickHouse.
abbrev refusing : Attempt
refusing = record {
  insert_begins = true;
  event_written = λ e. false;
  insert_ends = true;
  wal_opens = true;
  to_string = λ e. some (json e);
  disk_writes = 100;
  flushes = true;
}

abbrev empty_store : Store
empty_store = record { table = []; wal = [] }

write_batch_lem_example :
    write_batch refusing (event 1 ∷ event 2 ∷ []) empty_store
    ≡ record { table = []; wal = codes "{}" ++ 10 ∷ codes "{}" ++ 10 ∷ [] }
unfolding all_written
write_batch_lem_example =
    write_batch_lem refusing json (event 1 ∷ event 2 ∷ []) empty_store
      (record { opens = refl; serializes = λ e. refl; room = omega arith })

abbrev config : Config
config = record { max_batch_size = 2; batch_timeout = 1000; wal_path = codes "wal" }

abbrev wakeups : List (ℕ × Wakeup)
wakeups =
    (1, received (some (event 1)))
    ∷ (2, received (some (event 2)))
    ∷ (3, received (some (event 3)))
    ∷ (1500, timer_expired)
    ∷ (1600, received (some (event 4)))
    ∷ (1700, received none)
    ∷ []

run_lem_example :
    (concat (run config wakeups (new_manager config 0)).sent
        ++ (run config wakeups (new_manager config 0)).buffer
      ≡ event 1 ∷ event 2 ∷ event 3 ∷ event 4 ∷ [])
    × ((run config wakeups (new_manager config 0)).finished ≡ true
        → (run config wakeups (new_manager config 0)).buffer ≡ [])
run_lem_example = run_lem config 0 wakeups

run-IsBounded_example : IsBounded config (run config wakeups (new_manager config 0))
run-IsBounded_example = run-IsBounded config 0 wakeups (omega arith)
