-- ===== src/DnsTelemetry/Tests.antt =====
-- The theorems on the telemetry service at concrete packets.
use rust_samples.Prelude.{ℕ, ◌≡◌, refl, arith, List, [], ◌∷◌, ◌++◌, none, some, Bool, true, false}
use rust_samples.Prelude.Text.{codes}
use rust_samples.DnsTelemetry.{
  DnsRecord, response, Parsers, Attempt, Event, captures, parses, receives, wakes,
}
use rust_samples.DnsTelemetry.Service.{
  new_telemetry, parse_dns_to_record, parse_packet, parse_next, run,
}
use rust_samples.DnsTelemetry.Sublists.{Sublist}
use rust_samples.DnsTelemetry.Runs.{run-Sublist, reliable_run_keeps}

-- A packet is its payload, and a payload a query of the name.
abbrev toy : Parsers
toy = record {
  udp_payload = λ packet. some packet;
  from_bytes = λ payload. some (record {
    id = 7;
    message_type = response;
    queries = (payload, codes "A") ∷ [];
    answers = some (codes "10.0.0.1") ∷ none ∷ [];
  });
}

abbrev attempt_of : Bool → Bool → Attempt
attempt_of begins ends = record { insert_begins = begins; write_ok = λ r. true; end_ok = ends }

abbrev record_for : ℕ → List ℕ → DnsRecord
record_for now name = record {
  timestamp = now;
  tx_id = 7;
  msg_type = codes "Response";
  query_type = codes "A";
  domain = name;
  answers = codes "10.0.0.1" ∷ [];
}

abbrev traffic : Bool → List Event
traffic commits =
    captures (codes "a.")
    ∷ captures (codes "b.")
    ∷ parses 10
    ∷ receives 11 (attempt_of true true)
    ∷ wakes 3000 (attempt_of true commits)
    ∷ parses 3001
    ∷ []

-- The first record is in the table, the second in the channel.
reliable_run_keeps_example :
    let t = run toy (traffic true) (new_telemetry 0) in
    t.table ++ (t.batch ++ t.logs) ≡ record_for 10 (codes "a.") ∷ record_for 3001 (codes "b.") ∷ []
unfolding run parse_next parse_packet parse_dns_to_record
reliable_run_keeps_example =
    reliable_run_keeps toy 0 (traffic true)
      (tt, (tt, (omega arith, ((refl, refl), ((refl, refl), (omega arith, tt))))))

-- The commit fails, and the first record is lost.
run-Sublist_example :
    Sublist
      (record_for 3001 (codes "b.") ∷ [])
      (record_for 10 (codes "a.") ∷ record_for 3001 (codes "b.") ∷ [])
unfolding run parse_next parse_packet parse_dns_to_record
run-Sublist_example = run-Sublist toy 0 (traffic false)
