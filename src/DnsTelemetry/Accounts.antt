-- ===== src/DnsTelemetry/Accounts.antt =====
-- dns_telemetry/src/main.rs: the records between the parsing loop and the table.
use rust_samples.Prelude.{
  ℕ, ◌+◌, ◌<◌, ◌≡◌, refl, ap, sym, subst, ◌∙◌, List, [], ◌∷◌, ◌++◌, append_assoc, Option, none,
  some, true, not, length, leb, Bool-cases, inl, inr,
}
use rust_samples.Prelude.Text.{is_empty}
use rust_samples.DnsTelemetry.{
  DnsRecord, Parsers, Attempt, Telemetry, Event, captures, parses, receives, wakes,
}
use rust_samples.DnsTelemetry.Service.{
  all_written, parse_packet, flush_to_clickhouse, on_record, receive_next, on_tick, step,
}
use rust_samples.DnsTelemetry.Sublists.{Sublist, Sublist-refl, Sublist-front, Sublist-skipped}

-- The records that are still there: in the table, in the batch and in the channel.
abbrev pub accounted : Telemetry → List DnsRecord
accounted t = t.table ++ (t.batch ++ t.logs)

abbrev pub listed : Option DnsRecord → List DnsRecord
listed none = []
listed (some r) = r ∷ []

abbrev pub parsed_next : Parsers → ℕ → List (List ℕ) → List DnsRecord
parsed_next parsers now [] = []
parsed_next parsers now (packet_data ∷ packets) = listed (parse_packet parsers now packet_data)

-- The records that the parsing loop makes, in order.
abbrev pub parsed_by : Parsers → Event → Telemetry → List DnsRecord
parsed_by parsers (captures packet) t = []
parsed_by parsers (parses now) t = parsed_next parsers now t.packets
parsed_by parsers (receives now attempt) t = []
parsed_by parsers (wakes now attempt) t = []

abbrev pub parsed : Parsers → List Event → Telemetry → List DnsRecord
parsed parsers [] t = []
parsed parsers (event ∷ events) t =
    parsed_by parsers event t ++ parsed parsers events (step parsers event t)

-- Nothing is lost: the channel has room for each record, and each flush begins and commits.
abbrev pub IsReliable : Event → Telemetry → Type 0
IsReliable (captures packet) t = Unit
IsReliable (parses now) t = length t.logs < 50000
IsReliable (receives now attempt) t = (attempt.insert_begins ≡ true) × (attempt.end_ok ≡ true)
IsReliable (wakes now attempt) t = (attempt.insert_begins ≡ true) × (attempt.end_ok ≡ true)

abbrev pub AllReliable : Parsers → List Event → Telemetry → Type 0
AllReliable parsers [] t = Unit
AllReliable parsers (event ∷ events) t =
    IsReliable event t × AllReliable parsers events (step parsers event t)

accounted-committed :
    (t : Telemetry) → accounted (record t { table = t.table ++ t.batch; batch = [] }) ≡ accounted t
accounted-committed t = append_assoc t.table t.batch t.logs

-- A flush loses nothing, or the batch.
pub flush_keeps :
    (attempt : Attempt) (t : Telemetry)
    → attempt.insert_begins ≡ true
    → attempt.end_ok ≡ true
    → accounted (flush_to_clickhouse attempt t) ≡ accounted t
unfolding flush_to_clickhouse
flush_keeps attempt t b e = elim (Bool-cases (all_written attempt.write_ok t.batch)) [
  | inl w ↦ rw (b, flush_to_clickhouse) (rw w (rw e (accounted-committed t)))
  | inr w ↦ rw (b, flush_to_clickhouse) (rw w refl)
]

pub flush_loses :
    (attempt : Attempt) (t : Telemetry)
    → Sublist (accounted (flush_to_clickhouse attempt t)) (accounted t)
unfolding flush_to_clickhouse
flush_loses attempt t =
    let cleared : Sublist (t.table ++ t.logs) (accounted t) =
      Sublist-front t.table (Sublist-skipped t.batch t.logs) in
    elim (Bool-cases attempt.insert_begins) [
      | inr b ↦ rw (b, flush_to_clickhouse) cleared
      | inl b ↦ elim (Bool-cases (all_written attempt.write_ok t.batch)) [
        | inr w ↦ rw (b, flush_to_clickhouse) (rw w (Sublist-refl (accounted t)))
        | inl w ↦ elim (Bool-cases attempt.end_ok) [
          | inr e ↦ rw (b, flush_to_clickhouse) (rw w (rw e cleared))
          | inl e ↦
              rw (b, flush_to_clickhouse)
                (rw w (
                  rw e (
                    subst
                      (Sublist (accounted (record t { table = t.table ++ t.batch; batch = [] })))
                      (accounted-committed t)
                      (Sublist-refl
                        (accounted (record t { table = t.table ++ t.batch; batch = [] }))))))
        ]
      ]
    ]

-- The record that the worker takes moves from the channel to the batch.
accounted-moved :
    (r : DnsRecord) (logs : List DnsRecord) (t : Telemetry)
    → t.logs ≡ r ∷ logs
    → accounted (record t { logs = logs; batch = t.batch ++ r ∷ [] }) ≡ accounted t
accounted-moved r logs t e =
    ap (λ l. t.table ++ l) (append_assoc t.batch (r ∷ []) logs ∙ ap (λ l. t.batch ++ l) (sym e))

module _ (R : List DnsRecord → List DnsRecord → Type 0) (attempt : Attempt)
    (flushed : (t : Telemetry) → R (accounted (flush_to_clickhouse attempt t)) (accounted t))
    (same : (l : List DnsRecord) → R l l) where
  pub receive_kept :
      (now : ℕ) (queue : List DnsRecord) (t : Telemetry)
      → t.logs ≡ queue
      → R (accounted (receive_next now attempt queue t)) (accounted t)
  unfolding receive_next on_record
  receive_kept now [] t e = same (accounted t)
  receive_kept now (r ∷ logs) t e =
      let pushed : Telemetry = record t { logs = logs; batch = t.batch ++ r ∷ [] } in
      subst (R (accounted (on_record now attempt r (record t { logs = logs }))))
        (accounted-moved r logs t e)
        (elim (Bool-cases (leb 1000 (length pushed.batch))) [
          | inl full ↦ rw (full, on_record) (flushed pushed)
          | inr room ↦ rw (room, on_record) (same (accounted pushed))
        ])

  tick_kept : (now : ℕ) (t : Telemetry) → R (accounted (on_tick now attempt t)) (accounted t)
  unfolding on_tick
  tick_kept now t = elim (Bool-cases (not (is_empty t.batch))) [
    | inl some_there ↦ rw (some_there, on_tick) (flushed t)
    | inr none_there ↦ rw (none_there, on_tick) (same (accounted t))
  ]

  pub wake_kept :
      (parsers : Parsers) (now : ℕ) (t : Telemetry)
      → R (accounted (step parsers (wakes now attempt) t)) (accounted t)
  unfolding step
  wake_kept parsers now t = elim (Bool-cases (leb (t.last_flush + 3000) now)) [
    | inl due ↦ rw (due, step) (tick_kept now t)
    | inr early ↦ rw (early, step) (same (accounted t))
  ]
