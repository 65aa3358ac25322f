-- ===== src/Tunnel/Starved.antt =====
-- rs_ngrok/src/main.rs: a task of the client that does not reach the server.
use rust_samples.Prelude.{
  ℕ, ◌⊎◌, ◌≡◌, refl, ap, sym, subst, ◌∙◌, List, [], ◌∷◌, Bool, true, false, ==_iff, if◌then◌else◌,
  if_true, if_false, inl, inr, All,
}
use rust_samples.Tunnel.{
  awaits_data, stopped, Tunnel, Event, client_connects, stranger_connects, visitor_connects,
  accepts_control, accepts_visitor, accepts_data, reads_trigger, connects_to_server,
  connects_to_local, accept_fails, client_stops,
}
use rust_samples.Tunnel.Machine.{
  new_tunnel, accept_control, accept_visitor, accept_data, read_trigger, is_among, without,
  connect_to_server, connect_to_local, step, run,
}
use rust_samples.Tunnel.Pairing.{
  IsOwn, visitors, early, idle, called, connects, arrived, lost, ended, Own,
}
use rust_samples.Tunnel.Counting.{server-read_trigger, no_trigger}
use rust_samples.Tunnel.Served.{run-Own, client_first-Own}

-- The server waits for a connection that nobody makes, or has stopped.
abbrev pub IsStuck : ℕ → Tunnel → Type 0
IsStuck v t =
    (t.server ≡ stopped)
    ⊎ ((t.server ≡ awaits_data v) × (t.control_port ≡ []) × (t.triggers ≡ 0) × (t.connecting ≡ []))

-- Stuck, and no pair more.
abbrev Same : ℕ → Tunnel → Tunnel → Type 0
Same v t u = IsStuck v u × (u.pairs ≡ t.pairs)

unchanged : (v : ℕ) (t u : Tunnel) → u ≡ t → IsStuck v t → Same v t u
unchanged v t u e h = (subst (IsStuck v) (sym e) h, ap (λ x. x.pairs) e)

control_same : (v : ℕ) (t : Tunnel) → IsStuck v t → accept_control t.server t.control_port t ≡ t
unfolding accept_control
control_same v t (inl s) = ap (λ x. accept_control x t.control_port t) s
control_same v t (inr (s, p, k, c)) = ap (λ x. accept_control x t.control_port t) s

visitor_same :
    (v : ℕ) (t : Tunnel) (ok : Bool) → IsStuck v t → accept_visitor t.server t.public_port ok t ≡ t
unfolding accept_visitor
visitor_same v t ok (inl s) = ap (λ x. accept_visitor x t.public_port ok t) s
visitor_same v t ok (inr (s, p, k, c)) = ap (λ x. accept_visitor x t.public_port ok t) s

data_same : (v : ℕ) (t : Tunnel) → IsStuck v t → accept_data t.server t.control_port t ≡ t
unfolding accept_data
data_same v t (inl s) = ap (λ x. accept_data x t.control_port t) s
data_same v t (inr (s, p, k, c)) =
    ap (λ x. accept_data x t.control_port t) s ∙ ap (λ q. accept_data (awaits_data v) q t) p

read-Same :
    (v : ℕ) (t : Tunnel)
    → IsStuck v t
    → Same v t (read_trigger t.control t.triggers t.client_runs t)
read-Same v t (inl s) =
    let (same_server, same_pairs) = server-read_trigger t.control t.triggers t.client_runs t in
    (inl (same_server ∙ s), same_pairs)
read-Same v t (inr (s, p, k, c)) =
    unchanged v t (read_trigger t.control t.triggers t.client_runs t)
      (ap (λ x. read_trigger t.control x t.client_runs t) k ∙ no_trigger t.control t.client_runs t)
      (inr (s, p, k, c))

connect-Same :
    (v : ℕ) (t : Tunnel) (task : ℕ) (ok : Bool)
    → IsStuck v t
    → Same v t (if is_among task t.connecting then connect_to_server task ok t else t)
unfolding connect_to_server
connect-Same v t task ok (inr (s, p, k, c)) =
    unchanged v t (if is_among task t.connecting then connect_to_server task ok t else t)
      (if_false (connect_to_server task ok t) t (ap (is_among task) c)) (inr (s, p, k, c))
connect-Same v t task ok (inl s) = over (is_among task t.connecting) ok
  where
    over : (b ok : Bool) → Same v t (if b then connect_to_server task ok t else t)
    over false ok = (inl s, refl)
    over true true = (inl s, refl)
    over true false = (inl s, refl)

local-Same :
    (v : ℕ) (t : Tunnel) (task : ℕ) (ok b : Bool)
    → IsStuck v t
    → Same v t (if b then connect_to_local task ok t else t)
unfolding connect_to_local
local-Same v t task ok false h = (h, refl)
local-Same v t task true true (inl s) = (inl s, refl)
local-Same v t task true true (inr h) = (inr h, refl)
local-Same v t task false true (inl s) = (inl s, refl)
local-Same v t task false true (inr h) = (inr h, refl)

step-Same :
    (v : ℕ) (event : Event) (t : Tunnel) → IsOwn event → IsStuck v t → Same v t (step event t)
unfolding step
step-Same v client_connects t own h = absurd own
step-Same v (stranger_connects name) t own h = absurd own
step-Same v (visitor_connects visitor) t own (inl s) = (inl s, refl)
step-Same v (visitor_connects visitor) t own (inr h) = (inr h, refl)
step-Same v accepts_control t own h =
    unchanged v t (accept_control t.server t.control_port t) (control_same v t h) h
step-Same v (accepts_visitor ok) t own h =
    unchanged v t (accept_visitor t.server t.public_port ok t) (visitor_same v t ok h) h
step-Same v accepts_data t own h =
    unchanged v t (accept_data t.server t.control_port t) (data_same v t h) h
step-Same v reads_trigger t own h = read-Same v t h
step-Same v (connects_to_server task ok) t own h = connect-Same v t task ok h
step-Same v (connects_to_local task ok) t own h =
    local-Same v t task ok (is_among task t.bridging) h
step-Same v accept_fails t own h = (inl refl, refl)
step-Same v client_stops t own (inl s) = (inl s, refl)
step-Same v client_stops t own (inr (s, p, k, c)) = (inr (s, p, k, refl), refl)

run-Same :
    (v : ℕ) (events : List Event) (t : Tunnel)
    → All IsOwn events
    → IsStuck v t
    → Same v t (run events t)
unfolding run
run-Same v [] t own h = (h, refl)
run-Same v (event ∷ events) t own h =
    let (stuck, same) = step-Same v event t own.0 h in
    let (still, as_before) = run-Same v events (step event t) own.1 stuck in
    (still, as_before ∙ same)

-- The task is the only one, and its visitor is the one that the server waits for.
task_lost :
    (arrivals : List ℕ) (t : Tunnel) (task : ℕ)
    → Own arrivals t
    → t.connecting ≡ task ∷ []
    → (v : ℕ) × Same v t (step (connects_to_server task false) t)
unfolding step connect_to_server
task_lost arrivals t task o c = elim o.shape [
  | early a b d e f g h ↦ absurd (cc (sym e ∙ c))
  | idle a b d e f g h ↦ absurd (cc (sym f ∙ c))
  | called v a b d e f g h ↦ absurd (cc (sym f ∙ c))
  | arrived v a b d e f g h ↦ absurd (cc (sym f ∙ c))
  | lost v a b d e f ↦ absurd (cc (sym e ∙ c))
  | ended a ↦ (0, opened 0 (inl a))
  | connects v a b d e f g h ↦ (v, opened v (inr (a, d, e, none_left)))
]
  where
    u : Tunnel
    u = record t { connecting = without task t.connecting }

    none_left : without task t.connecting ≡ []
    none_left = ap (without task) c ∙ if_true [] (task ∷ []) ((==_iff task task).1 refl)

    opened :
        (v : ℕ)
        → IsStuck v (record t { connecting = without task t.connecting })
        → Same v t (
            if is_among task t.connecting
            then record t { connecting = without task t.connecting }
            else t)
    opened v h =
        let e : is_among task t.connecting ≡ true =
          ap (is_among task) c ∙ if_true true false ((==_iff task task).1 refl) in
        subst (Same v t) (sym (if_true (record t { connecting = without task t.connecting }) t e))
          (h, refl)

-- Where the client connects first and only its tasks connect to the control port afterwards: once
-- one task of the client fails to reach the server, no further visitor is ever served. Whatever
-- happens afterwards, the server waits for that task's connection or has stopped, and the pairs
-- that it copies between stay the same.
pub failed_task_starves :
    (before after : List Event) (task : ℕ)
    → All IsOwn before
    → (run before (step client_connects new_tunnel)).connecting ≡ task ∷ []
    → All IsOwn after
    → let t = run before (step client_connects new_tunnel) in
      let later = run after (step (connects_to_server task false) t) in
      (later.pairs ≡ t.pairs)
      × ((v : ℕ) × ((later.server ≡ stopped) ⊎ (later.server ≡ awaits_data v)))
failed_task_starves before after task own c more =
    let t : Tunnel = run before (step client_connects new_tunnel) in
    let o : Own (visitors before) t =
      run-Own [] before (step client_connects new_tunnel) own client_first-Own in
    let failed : Tunnel = step (connects_to_server task false) t in
    let (v, (stuck, same)) = task_lost (visitors before) t task o c in
    let (still, as_before) = run-Same v after failed more stuck in
    (as_before ∙ same, (v, elim still [ inl s ↦ inl s | inr h ↦ inr h.0 ]))
