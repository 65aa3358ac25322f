-- ===== src/Siem/Traffic.antt =====
-- siem_clickhouse_processor/src/main.rs, `simulate_siem_traffic`. The ids and the clock are
-- parameters, and so is whether the channel takes an event.
use rust_samples.Prelude.{
  ℕ, zero, suc, ◌+◌, ◌-◌, ◌≤◌, ◌<◌, ◌≡◌, arith, length, Bool-cases, inl, inr, ◌%◌, List, [], ◌∷◌,
  ◌++◌, Bool, true, not, if◌then◌else◌, leb, ◌==◌, get_or,
}
use rust_samples.Prelude.Text.{codes, decimal}
use rust_samples.Siem.{SiemEvent}

abbrev pub severities : List (List ℕ)
severities = codes "LOW" ∷ codes "MEDIUM" ∷ codes "HIGH" ∷ codes "CRITICAL" ∷ []

abbrev pub types : List (List ℕ)
types =
    codes "Auth_Failure"
    ∷ codes "Malware_Detected"
    ∷ codes "Port_Scan"
    ∷ codes "Data_Exfiltration"
    ∷ []

unfoldable pub make_event : ℕ → ℕ → ℕ → SiemEvent
make_event id now counter = record {
  event_id = id;
  timestamp = now;
  event_type = get_or types (counter % 4) [];
  source_ip = codes "192.168.1." ++ decimal (counter % 254);
  destination_ip = codes "10.0.0.1";
  severity = get_or severities (counter % 4) [];
  message = codes "SIEM alert log sequence id: " ++ decimal counter;
}

-- The milliseconds of the pause after an event.
abbrev pub pause_after : ℕ → ℕ
pause_after counter = if counter % 15 == 0 then 2000 else 10

-- The events sent and the pause after each, from a counter on; the loop ends within its fuel.
unfoldable pub simulate_siem_traffic : (ℕ → ℕ) → (ℕ → ℕ) → (ℕ → Bool) → ℕ → ℕ → List (SiemEvent × ℕ)
unfolding make_event
simulate_siem_traffic new_v4 now is_open zero counter = []
simulate_siem_traffic new_v4 now is_open (suc fuel) counter =
    let next = counter + 1 in
    let rest = simulate_siem_traffic new_v4 now is_open fuel next in
    let sent : SiemEvent × ℕ = (make_event (new_v4 next) (now next) next, pause_after next) in
    if not (is_open next) then [] else if leb 50 next then sent ∷ [] else sent ∷ rest

-- With an open channel the generator sends exactly what is left up to the counter 50, and ends.
pub length-simulate_siem_traffic :
    (new_v4 now : ℕ → ℕ) (is_open : ℕ → Bool) (fuel counter : ℕ)
    → ((n : ℕ) → is_open n ≡ true)
    → counter < 50
    → 50 ≤ fuel + counter
    → length (simulate_siem_traffic new_v4 now is_open fuel counter) ≡ 50 - counter
unfolding simulate_siem_traffic
length-simulate_siem_traffic new_v4 now is_open zero counter open_ below enough = omega arith
length-simulate_siem_traffic new_v4 now is_open (suc fuel) counter open_ below enough =
    elim (Bool-cases (leb 50 (counter + 1))) [
      | inl last ↦ rw (open_ (counter + 1), last) (ground arith)
      | inr more ↦
          let rest =
            length-simulate_siem_traffic new_v4 now is_open fuel (counter + 1) open_ (ground arith)
              (omega arith) in
          rw (open_ (counter + 1), more) (omega (arith, rest))
    ]
