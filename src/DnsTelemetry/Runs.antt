-- ===== src/DnsTelemetry/Runs.antt =====
-- dns_telemetry/src/main.rs: the records over any events.
use rust_samples.Prelude.{
  ℕ, ◌<◌, ◌≡◌, refl, ap, sym, subst, ◌∙◌, List, [], ◌∷◌, ◌++◌, append_assoc, append-nil, Option,
  none, some, length, ltb, lt→ltb, ltb→lt, if_true, if_false, Bool-cases, inl, inr,
}
use rust_samples.DnsTelemetry.{
  DnsRecord, Parsers, Telemetry, Event, captures, parses, receives, wakes,
}
use rust_samples.DnsTelemetry.Service.{new_telemetry, parse_packet, send_log, parse_next, step, run}
use rust_samples.DnsTelemetry.Sublists.{
  Sublist, Sublist-refl, Sublist-trans, Sublist-front, Sublist-back, Sublist-skipped,
}
use rust_samples.DnsTelemetry.Accounts.{
  accounted, listed, parsed_next, parsed_by, parsed, IsReliable, AllReliable, flush_keeps,
  flush_loses, receive_kept, wake_kept,
}

sent_kept :
    (o : Option DnsRecord) (t : Telemetry) (packets : List (List ℕ))
    → length t.logs < 50000
    → accounted (record t { packets = packets; logs = send_log o t.logs }) ≡ accounted t ++ listed o
sent_kept none t packets room = sym (append-nil (accounted t))
sent_kept (some r) t packets room =
    ap (λ l. t.table ++ (t.batch ++ l))
      (if_true (t.logs ++ r ∷ []) t.logs (lt→ltb (length t.logs) 50000 room))
    ∙ ap (λ l. t.table ++ l) (sym (append_assoc t.batch t.logs (r ∷ [])))
    ∙ sym (append_assoc t.table (t.batch ++ t.logs) (r ∷ []))

Sublist-more : (xs ys : List DnsRecord) → Sublist xs (xs ++ ys)
Sublist-more xs ys =
    subst (λ l. Sublist l (xs ++ ys)) (append-nil xs) (Sublist-front xs (all_skipped ys))
  where
    all_skipped : (ys : List DnsRecord) → Sublist [] ys
    all_skipped ys = subst (Sublist []) (append-nil ys) (Sublist-skipped ys [])

sent_or_lost :
    (o : Option DnsRecord) (t : Telemetry) (packets : List (List ℕ))
    → Sublist
        (accounted (record t { packets = packets; logs = send_log o t.logs }))
        (accounted t ++ listed o)
sent_or_lost none t packets = Sublist-more (accounted t) []
sent_or_lost (some r) t packets = elim (Bool-cases (ltb (length t.logs) 50000)) [
  | inl room ↦
      let sent = sent_kept (some r) t packets (ltb→lt (length t.logs) 50000 room) in
      subst (Sublist (accounted (record t { packets = packets; logs = send_log (some r) t.logs })))
        sent
        (Sublist-refl (accounted (record t { packets = packets; logs = send_log (some r) t.logs })))
  | inr full ↦
      subst (λ l. Sublist (t.table ++ (t.batch ++ l)) (accounted t ++ r ∷ []))
        (sym (if_false (t.logs ++ r ∷ []) t.logs full)) (Sublist-more (accounted t) (r ∷ []))
]

parse_kept :
    (parsers : Parsers) (now : ℕ) (packets : List (List ℕ)) (t : Telemetry)
    → length t.logs < 50000
    → accounted (parse_next parsers now packets t) ≡ accounted t ++ parsed_next parsers now packets
unfolding parse_next
parse_kept parsers now [] t room = sym (append-nil (accounted t))
parse_kept parsers now (packet_data ∷ packets) t room =
    sent_kept (parse_packet parsers now packet_data) t packets room

parse_or_lost :
    (parsers : Parsers) (now : ℕ) (packets : List (List ℕ)) (t : Telemetry)
    → Sublist
        (accounted (parse_next parsers now packets t))
        (accounted t ++ parsed_next parsers now packets)
unfolding parse_next
parse_or_lost parsers now [] t = Sublist-more (accounted t) []
parse_or_lost parsers now (packet_data ∷ packets) t =
    sent_or_lost (parse_packet parsers now packet_data) t packets

-- One event.
step_kept :
    (parsers : Parsers) (event : Event) (t : Telemetry)
    → IsReliable event t
    → accounted (step parsers event t) ≡ accounted t ++ parsed_by parsers event t
unfolding step
step_kept parsers (captures packet) t h = sym (append-nil (accounted t))
step_kept parsers (parses now) t h = parse_kept parsers now t.packets t h
step_kept parsers (receives now attempt) t h =
    receive_kept (λ xs ys. xs ≡ ys) attempt (λ u. flush_keeps attempt u h.0 h.1) (λ l. refl) now
      t.logs t refl
    ∙ sym (append-nil (accounted t))
step_kept parsers (wakes now attempt) t h =
    wake_kept (λ xs ys. xs ≡ ys) attempt (λ u. flush_keeps attempt u h.0 h.1) (λ l. refl) parsers
      now t
    ∙ sym (append-nil (accounted t))

step_or_lost :
    (parsers : Parsers) (event : Event) (t : Telemetry)
    → Sublist (accounted (step parsers event t)) (accounted t ++ parsed_by parsers event t)
unfolding step
step_or_lost parsers (captures packet) t = Sublist-more (accounted t) []
step_or_lost parsers (parses now) t = parse_or_lost parsers now t.packets t
step_or_lost parsers (receives now attempt) t =
    Sublist-trans
      (receive_kept Sublist attempt (λ u. flush_loses attempt u) Sublist-refl now t.logs t refl)
      (Sublist-more (accounted t) [])
step_or_lost parsers (wakes now attempt) t =
    Sublist-trans
      (wake_kept Sublist attempt (λ u. flush_loses attempt u) Sublist-refl parsers now t)
      (Sublist-more (accounted t) [])

run_kept :
    (parsers : Parsers) (events : List Event) (t : Telemetry)
    → AllReliable parsers events t
    → accounted (run parsers events t) ≡ accounted t ++ parsed parsers events t
unfolding run
run_kept parsers [] t h = sym (append-nil (accounted t))
run_kept parsers (event ∷ events) t (h, hs) =
    let next : Telemetry = step parsers event t in
    run_kept parsers events next hs
    ∙ ap (λ l. l ++ parsed parsers events next) (step_kept parsers event t h)
    ∙ append_assoc (accounted t) (parsed_by parsers event t) (parsed parsers events next)

run_or_lost :
    (parsers : Parsers) (events : List Event) (t : Telemetry)
    → Sublist (accounted (run parsers events t)) (accounted t ++ parsed parsers events t)
unfolding run
run_or_lost parsers [] t = Sublist-more (accounted t) []
run_or_lost parsers (event ∷ events) t =
    let next : Telemetry = step parsers event t in
    Sublist-trans (run_or_lost parsers events next) (
      subst (Sublist (accounted next ++ parsed parsers events next))
        (append_assoc (accounted t) (parsed_by parsers event t) (parsed parsers events next))
        (Sublist-back (parsed parsers events next) (step_or_lost parsers event t)))

-- Over any events of a new service, whatever ClickHouse refuses: the table, then the batch, then
-- the channel hold records that the parsing loop made, in its order, none of them twice.
pub run-Sublist :
    (parsers : Parsers) (start : ℕ) (events : List Event)
    → let t = run parsers events (new_telemetry start) in
      Sublist (t.table ++ (t.batch ++ t.logs)) (parsed parsers events (new_telemetry start))
run-Sublist parsers start events = run_or_lost parsers events (new_telemetry start)

-- Where the channel has room for each record and ClickHouse begins and commits each insert, though
-- it may refuse records, the table, the batch and the channel hold each record that the parsing
-- loop made, once and in its order.
pub reliable_run_keeps :
    (parsers : Parsers) (start : ℕ) (events : List Event)
    → AllReliable parsers events (new_telemetry start)
    → let t = run parsers events (new_telemetry start) in
      t.table ++ (t.batch ++ t.logs) ≡ parsed parsers events (new_telemetry start)
reliable_run_keeps parsers start events h = run_kept parsers events (new_telemetry start) h
