-- ===== src/DnsTelemetry/Batches.antt =====
-- dns_telemetry/src/main.rs: the size of the worker's batch.
use rust_samples.Prelude.{
  ℕ, ◌+◌, ◌<◌, ◌≡◌, refl, sym, subst, List, [], ◌∷◌, ◌++◌, Bool, true, false, not, length, leb,
  Bool-cases, inl, inr, All, arith,
}
use rust_samples.Prelude.Text.{is_empty}
use rust_samples.DnsTelemetry.{
  DnsRecord, Parsers, Attempt, Telemetry, Event, captures, parses, receives, wakes,
}
use rust_samples.DnsTelemetry.Service.{
  new_telemetry, all_written, flush_to_clickhouse, parse_next, on_record, receive_next, on_tick,
  step, run,
}

-- ClickHouse refuses no record; the insert and its end may fail.
abbrev pub IsAccepting : Event → Type 0
IsAccepting (captures packet) = Unit
IsAccepting (parses now) = Unit
IsAccepting (receives now attempt) = (r : DnsRecord) → attempt.write_ok r ≡ true
IsAccepting (wakes now attempt) = (r : DnsRecord) → attempt.write_ok r ≡ true

all_accepted :
    (write_ok : DnsRecord → Bool) (batch : List DnsRecord)
    → ((r : DnsRecord) → write_ok r ≡ true)
    → all_written write_ok batch ≡ true
all_accepted write_ok [] h = refl
all_accepted write_ok (r ∷ batch) h = rw (h r) (all_accepted write_ok batch h)

-- Then a flush leaves an empty batch.
flush_empties :
    (attempt : Attempt) (t : Telemetry)
    → ((r : DnsRecord) → attempt.write_ok r ≡ true)
    → (flush_to_clickhouse attempt t).batch ≡ []
unfolding flush_to_clickhouse
flush_empties attempt t h = elim (Bool-cases attempt.insert_begins) [
  | inr b ↦ rw (b, flush_to_clickhouse) refl
  | inl b ↦ elim (Bool-cases attempt.end_ok) [
    | inl e ↦ rw (b, flush_to_clickhouse) (rw (all_accepted attempt.write_ok t.batch h) (rw e refl))
    | inr e ↦ rw (b, flush_to_clickhouse) (rw (all_accepted attempt.write_ok t.batch h) (rw e refl))
  ]
]

abbrev IsSmall : List DnsRecord → Type 0
IsSmall batch = length batch < 1000

on_record-IsSmall :
    (now : ℕ) (attempt : Attempt) (r : DnsRecord) (t : Telemetry)
    → ((r : DnsRecord) → attempt.write_ok r ≡ true)
    → IsSmall (on_record now attempt r t).batch
unfolding on_record
on_record-IsSmall now attempt r t h =
    let pushed : Telemetry = record t { batch = t.batch ++ r ∷ [] } in
    elim (Bool-cases (leb 1000 (length (t.batch ++ r ∷ [])))) [
      | inl full ↦
          rw (full, on_record) (subst IsSmall (sym (flush_empties attempt pushed h)) (omega arith))
      | inr room ↦ rw (room, on_record) (below room)
    ]
  where
    below : leb 1000 (length (t.batch ++ r ∷ [])) ≡ false → length (t.batch ++ r ∷ []) < 1000
    below e = under (length (t.batch ++ r ∷ [])) e
      where
        under : (n : ℕ) → leb 1000 n ≡ false → n < 1000
        under n e = ground arith

on_tick-IsSmall :
    (now : ℕ) (attempt : Attempt) (t : Telemetry)
    → ((r : DnsRecord) → attempt.write_ok r ≡ true)
    → IsSmall t.batch
    → IsSmall (on_tick now attempt t).batch
unfolding on_tick
on_tick-IsSmall now attempt t h small = elim (Bool-cases (not (is_empty t.batch))) [
  | inl some_there ↦
      rw (some_there, on_tick) (subst IsSmall (sym (flush_empties attempt t h)) (omega arith))
  | inr none_there ↦ rw (none_there, on_tick) small
]

parse_next-batch :
    (parsers : Parsers) (now : ℕ) (packets : List (List ℕ)) (t : Telemetry)
    → (parse_next parsers now packets t).batch ≡ t.batch
unfolding parse_next
parse_next-batch parsers now [] t = refl
parse_next-batch parsers now (packet_data ∷ packets) t = refl

receive_next-IsSmall :
    (now : ℕ) (attempt : Attempt) (logs : List DnsRecord) (t : Telemetry)
    → ((r : DnsRecord) → attempt.write_ok r ≡ true)
    → IsSmall t.batch
    → IsSmall (receive_next now attempt logs t).batch
unfolding receive_next
receive_next-IsSmall now attempt [] t h small = small
receive_next-IsSmall now attempt (r ∷ logs) t h small =
    on_record-IsSmall now attempt r (record t { logs = logs }) h

step-IsSmall :
    (parsers : Parsers) (event : Event) (t : Telemetry)
    → IsAccepting event
    → IsSmall t.batch
    → IsSmall (step parsers event t).batch
unfolding step
step-IsSmall parsers (captures packet) t h small = small
step-IsSmall parsers (parses now) t h small =
    subst IsSmall (sym (parse_next-batch parsers now t.packets t)) small
step-IsSmall parsers (receives now attempt) t h small =
    receive_next-IsSmall now attempt t.logs t h small
step-IsSmall parsers (wakes now attempt) t h small =
    elim (Bool-cases (leb (t.last_flush + 3000) now)) [
      | inl due ↦ rw (due, step) (on_tick-IsSmall now attempt t h small)
      | inr early ↦ rw (early, step) small
    ]

run-IsSmall :
    (parsers : Parsers) (events : List Event) (t : Telemetry)
    → All IsAccepting events
    → IsSmall t.batch
    → IsSmall (run parsers events t).batch
unfolding run
run-IsSmall parsers [] t h small = small
run-IsSmall parsers (event ∷ events) t (h, hs) small =
    run-IsSmall parsers events (step parsers event t) hs (step-IsSmall parsers event t h small)

-- Where ClickHouse refuses no record, though inserts may fail to begin or to commit, the batch
-- holds fewer than 1000 records after any events of a new service.
pub batch_bound :
    (parsers : Parsers) (start : ℕ) (events : List Event)
    → All IsAccepting events
    → length (run parsers events (new_telemetry start)).batch < 1000
batch_bound parsers start events h =
    run-IsSmall parsers events (new_telemetry start) h (omega arith)
