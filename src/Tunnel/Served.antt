-- ===== src/Tunnel/Served.antt =====
-- rs_ngrok/src/main.rs: runs of the server and the client.
use rust_samples.Prelude.{
  ℕ, ◌≡◌, refl, ap, sym, subst, ◌∙◌, List, [], ◌∷◌, ◌++◌, append_assoc, append-nil, Bool, true,
  false, if◌then◌else◌, length, take, take_append, All,
}
use rust_samples.Tunnel.{
  stopped, Tunnel, Event, client_connects, stranger_connects, visitor_connects, accepts_control,
  accepts_visitor, accepts_data, reads_trigger, connects_to_server, connects_to_local, accept_fails,
  client_stops,
}
use rust_samples.Tunnel.Machine.{
  new_tunnel, accept_control, accept_visitor, accept_data, read_trigger, is_among, without,
  connect_to_server, connect_to_local, step, run,
}
use rust_samples.Tunnel.Pairing.{
  IsOwn, visitors, numbered, length-numbered, Shape, early, idle, called, connects, arrived, lost,
  ended, Own, Shape-kept, with-Shape, accept_control-Own, accept_visitor-Own, accept_data-Own,
}
use rust_samples.Tunnel.Counting.{read_trigger-Own, connect_to_server-Own, client_stops-Own}

same_arrivals : (arrivals : List ℕ) (t : Tunnel) → Own arrivals t → Own (arrivals ++ []) t
same_arrivals arrivals t o = subst (λ l. Own l t) (sym (append-nil arrivals)) o

visitors_more :
    (event : Event) (events : List Event)
    → visitors (event ∷ []) ++ visitors events ≡ visitors (event ∷ events)
visitors_more client_connects events = refl
visitors_more (stranger_connects name) events = refl
visitors_more (visitor_connects visitor) events = refl
visitors_more accepts_control events = refl
visitors_more (accepts_visitor ok) events = refl
visitors_more accepts_data events = refl
visitors_more reads_trigger events = refl
visitors_more (connects_to_server task ok) events = refl
visitors_more (connects_to_local task ok) events = refl
visitors_more accept_fails events = refl
visitors_more client_stops events = refl

guarded-Own :
    (arrivals : List ℕ) (b : Bool) (u t : Tunnel)
    → (b ≡ true → Own arrivals u)
    → Own arrivals t
    → Own arrivals (if b then u else t)
guarded-Own arrivals true u t h o = h refl
guarded-Own arrivals false u t h o = o

-- The tasks that the client joins to its local service are of no account here.
local-Own :
    (arrivals : List ℕ) (t : Tunnel) (task : ℕ) (ok : Bool)
    → Own arrivals t
    → Own arrivals (connect_to_local task ok t)
unfolding connect_to_local
local-Own arrivals t task true o =
    let u : Tunnel = record t {
      bridging = without task t.bridging;
      bridged = t.bridged ++ task ∷ [];
    } in
    with-Shape arrivals t u o refl
      (Shape-kept (length o.seen) o.rest t u refl refl refl refl refl refl refl o.shape)
local-Own arrivals t task false o =
    let u : Tunnel = record t { bridging = without task t.bridging } in
    with-Shape arrivals t u o refl
      (Shape-kept (length o.seen) o.rest t u refl refl refl refl refl refl refl o.shape)

later_visitor :
    (n visitor : ℕ) (rest : List ℕ) (t : Tunnel)
    → Shape n rest t
    → Shape n (rest ++ visitor ∷ []) (record t { public_port = t.public_port ++ visitor ∷ [] })
later_visitor n visitor rest t (early a b d e f g h) =
    early a b d e f g (ap (λ l. l ++ visitor ∷ []) h)
later_visitor n visitor rest t (idle a b d e f g h) =
    idle a b d e f g (ap (λ l. l ++ visitor ∷ []) h)
later_visitor n visitor rest t (called v a b d e f g h) =
    called v a b d e f g (ap (λ l. l ++ visitor ∷ []) h)
later_visitor n visitor rest t (connects v a b d e f g h) =
    connects v a b d e f g (ap (λ l. l ++ visitor ∷ []) h)
later_visitor n visitor rest t (arrived v a b d e f g h) =
    arrived v a b d e f g (ap (λ l. l ++ visitor ∷ []) h)
later_visitor n visitor rest t (lost v a b d e f) = lost v a b d e (ap (λ l. l ++ visitor ∷ []) f)
later_visitor n visitor rest t (ended a) = ended a

visitor-Own :
    (arrivals : List ℕ) (visitor : ℕ) (t : Tunnel)
    → Own arrivals t
    → Own (arrivals ++ visitor ∷ []) (step (visitor_connects visitor) t)
unfolding step
visitor-Own arrivals visitor t o = record {
  seen = o.seen;
  rest = o.rest ++ visitor ∷ [];
  split = ap (λ l. l ++ visitor ∷ []) o.split ∙ append_assoc o.seen o.rest (visitor ∷ []);
  paired = o.paired;
  shape = later_visitor (length o.seen) visitor o.rest t o.shape;
}

step-Own :
    (arrivals : List ℕ) (event : Event) (t : Tunnel)
    → IsOwn event
    → Own arrivals t
    → Own (arrivals ++ visitors (event ∷ [])) (step event t)
unfolding step
step-Own arrivals client_connects t own o = absurd own
step-Own arrivals (stranger_connects name) t own o = absurd own
step-Own arrivals (visitor_connects visitor) t own o = visitor-Own arrivals visitor t o
step-Own arrivals accepts_control t own o =
    same_arrivals arrivals (accept_control t.server t.control_port t)
      (accept_control-Own arrivals t o)
step-Own arrivals (accepts_visitor ok) t own o =
    same_arrivals arrivals (accept_visitor t.server t.public_port ok t)
      (accept_visitor-Own arrivals t ok o)
step-Own arrivals accepts_data t own o =
    same_arrivals arrivals (accept_data t.server t.control_port t) (accept_data-Own arrivals t o)
step-Own arrivals reads_trigger t own o =
    same_arrivals arrivals (read_trigger t.control t.triggers t.client_runs t)
      (read_trigger-Own arrivals t o)
step-Own arrivals (connects_to_server task ok) t own o =
    same_arrivals arrivals (if is_among task t.connecting then connect_to_server task ok t else t) (
      guarded-Own arrivals (is_among task t.connecting) (connect_to_server task ok t) t
        (connect_to_server-Own arrivals t task ok o) o)
step-Own arrivals (connects_to_local task ok) t own o =
    same_arrivals arrivals (if is_among task t.bridging then connect_to_local task ok t else t) (
      guarded-Own arrivals (is_among task t.bridging) (connect_to_local task ok t) t
        (λ e. local-Own arrivals t task ok o) o)
step-Own arrivals accept_fails t own o =
    same_arrivals arrivals (record t { server = stopped })
      (with-Shape arrivals t (record t { server = stopped }) o refl (ended refl))
step-Own arrivals client_stops t own o =
    same_arrivals arrivals (step client_stops t) (client_stops-Own arrivals t o)

pub run-Own :
    (arrivals : List ℕ) (events : List Event) (t : Tunnel)
    → All IsOwn events
    → Own arrivals t
    → Own (arrivals ++ visitors events) (run events t)
unfolding run
run-Own arrivals [] t own o = same_arrivals arrivals t o
run-Own arrivals (event ∷ events) t own o =
    subst (λ l. Own l (run events (step event t)))
      (append_assoc arrivals (visitors (event ∷ [])) (visitors events)
        ∙ ap (λ l. arrivals ++ l) (visitors_more event events))
      (run-Own (arrivals ++ visitors (event ∷ [])) events (step event t) own.1
        (step-Own arrivals event t own.0 o))

-- The client has connected, and nothing else has happened.
pub client_first-Own : Own [] (step client_connects new_tunnel)
unfolding step
client_first-Own = record {
  seen = [];
  rest = [];
  split = refl;
  paired = refl;
  shape = early refl refl refl refl refl refl refl;
}

-- Where the client connects first and only its tasks connect to the control port afterwards: after
-- any events, the pairs that the server copies between are the first visitors, in the order in
-- which they came, and each is paired with the data connection of the client's task of the same
-- number. No visitor is left out before a later one, and no connection is given to two.
pub pairs-run :
    (events : List Event)
    → All IsOwn events
    → let t = run events (step client_connects new_tunnel) in
      t.pairs ≡ numbered 0 (take (length t.pairs) (visitors events))
pairs-run events own =
    let t : Tunnel = run events (step client_connects new_tunnel) in
    let o : Own (visitors events) t =
      run-Own [] events (step client_connects new_tunnel) own client_first-Own in
    o.paired
    ∙ ap (numbered 0) (
        sym (
          ap (take (length t.pairs)) o.split
          ∙ take_append (length t.pairs) o.seen o.rest
              (sym (ap length o.paired ∙ length-numbered 0 o.seen))))
