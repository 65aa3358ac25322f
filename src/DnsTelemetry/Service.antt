-- ===== src/DnsTelemetry/Service.antt =====
-- dns_telemetry/src/main.rs: `run_pcap_sniffer`, the parsing loop, the worker,
-- `parse_dns_to_record` and `flush_to_clickhouse`.
use rust_samples.Prelude.{
  ℕ, ◌+◌, List, [], ◌∷◌, ◌++◌, Option, none, some, Bool, true, not, ◌&&◌, length, leb, ltb,
  if◌then◌else◌, and_then,
}
use rust_samples.Prelude.Text.{codes, is_empty}
use rust_samples.DnsTelemetry.{
  DnsRecord, MessageType, query, response, Message, Parsers, Attempt, Telemetry, Event, captures,
  parses, receives, wakes,
}

abbrev pub new_telemetry : ℕ → Telemetry
new_telemetry now = record { packets = []; logs = []; batch = []; last_flush = now; table = [] }

-- `try_send` on a channel of that capacity, whose error nobody looks at.
abbrev pub try_send {ℓ} : {A : Type ℓ} → ℕ → A → List A → List A
try_send capacity item queue = if ltb (length queue) capacity then queue ++ item ∷ [] else queue

abbrev pub filter_map_data : List (Option (List ℕ)) → List (List ℕ)
filter_map_data [] = []
filter_map_data (none ∷ answers) = filter_map_data answers
filter_map_data (some text ∷ answers) = text ∷ filter_map_data answers

abbrev pub type_and_answers : MessageType → List (Option (List ℕ)) → List ℕ × List (List ℕ)
type_and_answers query answers = (codes "Query", [])
type_and_answers response answers = (codes "Response", filter_map_data answers)

abbrev pub record_of : ℕ → Message → List (List ℕ × List ℕ) → Option DnsRecord
record_of now msg [] = none
record_of now msg ((name, query_type) ∷ queries) =
    let (msg_type, answers) = type_and_answers msg.message_type msg.answers in
    some (record {
      timestamp = now;
      tx_id = msg.id;
      msg_type = msg_type;
      query_type = query_type;
      domain = name;
      answers = answers;
    })

unfoldable pub parse_dns_to_record : ℕ → Message → Option DnsRecord
parse_dns_to_record now msg = record_of now msg msg.queries

-- The body of the parsing loop up to the send.
unfoldable pub parse_packet : Parsers → ℕ → List ℕ → Option DnsRecord
unfolding parse_dns_to_record
parse_packet parsers now packet_data = and_then (parsers.udp_payload packet_data) (λ payload.
    if not (is_empty payload)
    then and_then (parsers.from_bytes payload) (λ dns_msg. parse_dns_to_record now dns_msg)
    else none)

abbrev pub all_written : (DnsRecord → Bool) → List DnsRecord → Bool
all_written write_ok [] = true
all_written write_ok (r ∷ batch) = write_ok r && all_written write_ok batch

-- A refused record returns before the batch is cleared; the other errors do not.
unfoldable pub flush_to_clickhouse : Attempt → Telemetry → Telemetry
flush_to_clickhouse attempt t =
    if attempt.insert_begins
    then (if all_written attempt.write_ok t.batch
        then (if attempt.end_ok
            then record t { table = t.table ++ t.batch; batch = [] }
            else record t { batch = [] })
        else t)
    else record t { batch = [] }

abbrev pub send_log : Option DnsRecord → List DnsRecord → List DnsRecord
send_log none logs = logs
send_log (some r) logs = try_send 50000 r logs

unfoldable pub parse_next : Parsers → ℕ → List (List ℕ) → Telemetry → Telemetry
unfolding parse_packet
parse_next parsers now [] t = t
parse_next parsers now (packet_data ∷ packets) t = record t {
  packets = packets;
  logs = send_log (parse_packet parsers now packet_data) t.logs;
}

unfoldable pub on_record : ℕ → Attempt → DnsRecord → Telemetry → Telemetry
unfolding flush_to_clickhouse
on_record now attempt r t =
    let pushed : Telemetry = record t { batch = t.batch ++ r ∷ [] } in
    if leb 1000 (length pushed.batch)
    then record (flush_to_clickhouse attempt pushed) { last_flush = now }
    else pushed

unfoldable pub receive_next : ℕ → Attempt → List DnsRecord → Telemetry → Telemetry
unfolding on_record
receive_next now attempt [] t = t
receive_next now attempt (r ∷ logs) t = on_record now attempt r (record t { logs = logs })

unfoldable pub on_tick : ℕ → Attempt → Telemetry → Telemetry
unfolding flush_to_clickhouse
on_tick now attempt t =
    record (if not (is_empty t.batch) then flush_to_clickhouse attempt t else t) {
      last_flush = now;
    }

-- A sleep does not end before its time.
unfoldable pub step : Parsers → Event → Telemetry → Telemetry
unfolding parse_next receive_next on_tick
step parsers (captures packet) t = record t { packets = try_send 10000 packet t.packets }
step parsers (parses now) t = parse_next parsers now t.packets t
step parsers (receives now attempt) t = receive_next now attempt t.logs t
step parsers (wakes now attempt) t =
    if leb (t.last_flush + 3000) now then on_tick now attempt t else t

unfoldable pub run : Parsers → List Event → Telemetry → Telemetry
unfolding step
run parsers [] t = t
run parsers (event ∷ events) t = run parsers events (step parsers event t)
