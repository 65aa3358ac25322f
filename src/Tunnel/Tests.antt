-- ===== src/Tunnel/Tests.antt =====
-- The theorems on the tunnel at concrete events.
use rust_samples.Prelude.{ℕ, ◌≡◌, refl, List, [], ◌∷◌, true, false, ◌⊎◌}
use rust_samples.Tunnel.{
  data_stream, Event, client_connects, visitor_connects, accepts_control, accepts_visitor,
  accepts_data, reads_trigger, connects_to_server, connects_to_local, stopped, awaits_data,
}
use rust_samples.Tunnel.Machine.{new_tunnel, step, run}
use rust_samples.Tunnel.Served.{pairs-run}
use rust_samples.Tunnel.Starved.{failed_task_starves}

-- Two visitors come before the first one is served.
abbrev two_served : List Event
two_served =
    visitor_connects 70
    ∷ accepts_control
    ∷ accepts_visitor true
    ∷ visitor_connects 71
    ∷ reads_trigger
    ∷ connects_to_server 0 true
    ∷ accepts_data
    ∷ accepts_visitor true
    ∷ reads_trigger
    ∷ connects_to_local 0 true
    ∷ connects_to_server 1 true
    ∷ accepts_data
    ∷ []

pairs-run_example :
    (run two_served (step client_connects new_tunnel)).pairs
    ≡ (70, data_stream 0) ∷ (71, data_stream 1) ∷ []
unfolding run
pairs-run_example =
    pairs-run two_served (tt, (tt, (tt, (tt, (tt, (tt, (tt, (tt, (tt, (tt, (tt, (tt, tt))))))))))))

abbrev one_called : List Event
one_called = visitor_connects 70 ∷ accepts_control ∷ accepts_visitor true ∷ reads_trigger ∷ []

abbrev another : List Event
another = visitor_connects 71 ∷ accepts_visitor true ∷ accepts_data ∷ reads_trigger ∷ []

failed_task_starves_example :
    let t = run one_called (step client_connects new_tunnel) in
    let later = run another (step (connects_to_server 0 false) t) in
    (later.pairs ≡ []) × ((v : ℕ) × ((later.server ≡ stopped) ⊎ (later.server ≡ awaits_data v)))
unfolding run
failed_task_starves_example =
    failed_task_starves one_called another 0 (tt, (tt, (tt, (tt, tt)))) refl
      (tt, (tt, (tt, (tt, tt))))
