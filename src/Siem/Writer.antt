-- ===== src/Siem/Writer.antt =====
-- siem_clickhouse_processor/src/main.rs, `impl ClickHouseWriter`.
use rust_samples.Prelude.{
  ℕ, zero, suc, List, [], ◌∷◌, ◌++◌, none, some, Bool, true, false, not, if◌then◌else◌,
}
use rust_samples.Prelude.Text.{is_empty}
use rust_samples.Siem.{SiemEvent, Attempt, Store}

-- The bytes that are in the file after some writes, and whether all of them succeeded: each event
-- takes two calls of `write_all`, and a call writes all of its bytes or none.
unfoldable pub write_lines : Attempt → ℕ → List SiemEvent → List ℕ → List ℕ × Bool
write_lines attempt writes [] wal = (wal, true)
write_lines attempt writes (event ∷ events) wal = elim (attempt.to_string event) [
  | none ↦ (wal, false)
  | some serialized ↦ elim writes [
    | zero ↦ (wal, false)
    | suc zero ↦ (wal ++ serialized, false)
    | suc (suc left) ↦ write_lines attempt left events (wal ++ (serialized ++ 10 ∷ []))
  ]
]

-- Whether the batch is saved is the `Result`.
unfoldable pub dump_to_wal : Attempt → List SiemEvent → Store → Store × Bool
unfolding write_lines
dump_to_wal attempt batch store =
    if not attempt.wal_opens
    then (store, false)
    else (let written = write_lines attempt attempt.disk_writes batch store.wal in
        if written.1
        then (record store { wal = written.0 }, attempt.flushes)
        else (record store { wal = written.0 }, false))

-- The loop of `insert.write`, up to the first error.
unfoldable pub all_written : Attempt → List SiemEvent → Bool
all_written attempt [] = true
all_written attempt (event ∷ events) =
    let more = all_written attempt events in if attempt.event_written event then more else false

unfoldable pub write_batch : Attempt → List SiemEvent → Store → Store
unfolding dump_to_wal all_written
write_batch attempt batch store =
    if is_empty batch
    then store
    else if not attempt.insert_begins
    then (dump_to_wal attempt batch store).0
    else if not (all_written attempt batch)
    then (dump_to_wal attempt batch store).0
    else if not attempt.insert_ends
    then (dump_to_wal attempt batch store).0
    else record store { table = store.table ++ batch }
