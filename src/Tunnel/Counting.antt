-- ===== src/Tunnel/Counting.antt =====
-- rs_ngrok/src/main.rs: the client's side of the tunnel, and runs of both.
use rust_samples.Prelude.{
  ℕ, zero, suc, ◌+◌, ◌≡◌, refl, ap, sym, subst, ◌∙◌, List, [], ◌∷◌, ◌++◌, Option, none, some, Bool,
  true, false, ◌==◌, ==_iff, if_true, if_false, Bool-cases, inl, inr, length,
}
use rust_samples.Tunnel.{
  Peer, control_stream, data_stream, stranger, awaits_data, stopped, Tunnel, client_stops,
}
use rust_samples.Tunnel.Machine.{dial, read_trigger, is_among, without, connect_to_server, step}
use rust_samples.Tunnel.Pairing.{
  early, idle, called, connects, arrived, lost, ended, Own, at_both, at_one, with-Shape,
}

-- Without a byte on its way, or with an answer of another kind, the client reads nothing.
pub no_trigger : (c : Option Peer) (runs : Bool) (t : Tunnel) → read_trigger c 0 runs t ≡ t
unfolding read_trigger
no_trigger none runs t = refl
no_trigger (some control_stream) runs t = refl
no_trigger (some (data_stream task)) runs t = refl
no_trigger (some (stranger name)) runs t = refl

pub server-read_trigger :
    (c : Option Peer) (k : ℕ) (runs : Bool) (t : Tunnel)
    → ((read_trigger c k runs t).server ≡ t.server) × ((read_trigger c k runs t).pairs ≡ t.pairs)
unfolding read_trigger
server-read_trigger none k runs t = (refl, refl)
server-read_trigger (some control_stream) zero runs t = (refl, refl)
server-read_trigger (some control_stream) (suc k) true t = (refl, refl)
server-read_trigger (some control_stream) (suc k) false t = (refl, refl)
server-read_trigger (some (data_stream task)) k runs t = (refl, refl)
server-read_trigger (some (stranger name)) k runs t = (refl, refl)

without_only :
    (task n : ℕ) → is_among task (n ∷ []) ≡ true → (n ≡ task) × (without task (n ∷ []) ≡ [])
without_only task n h = elim (Bool-cases (n == task)) [
  | inl e ↦ ((==_iff n task).0 e, if_true [] (n ∷ []) e)
  | inr e ↦ absurd (cc (sym (if_false true false e) ∙ h))
]

module _ (arrivals : List ℕ) where
  pub read_trigger-Own :
      (t : Tunnel)
      → Own arrivals t
      → Own arrivals (read_trigger t.control t.triggers t.client_runs t)
  unfolding read_trigger
  read_trigger-Own t o = elim o.shape [
    | early a b d e f g h ↦ none_there d
    | idle a b d e f g h ↦ none_there e
    | connects v a b d e f g h ↦ none_there e
    | arrived v a b d e f g h ↦ none_there e
    | lost v a b d e f ↦ none_there d
    | ended a ↦ stopped_reads a
    | called v a b d e f g h ↦
        at_both arrivals (λ c k. read_trigger c k t.client_runs t) b e
          (taken t.client_runs v a b d e f g h)
  ]
    where
      none_there : t.triggers ≡ 0 → Own arrivals (read_trigger t.control t.triggers t.client_runs t)
      none_there e =
          at_one arrivals (λ k. read_trigger t.control k t.client_runs t) e
            (subst (Own arrivals) (sym (no_trigger t.control t.client_runs t)) o)

      stopped_reads :
          t.server ≡ stopped → Own arrivals (read_trigger t.control t.triggers t.client_runs t)
      stopped_reads a =
          let (same_server, same_pairs) =
            server-read_trigger t.control t.triggers t.client_runs t in
          with-Shape arrivals t (read_trigger t.control t.triggers t.client_runs t) o same_pairs
            (ended (same_server ∙ a))

      taken :
          (runs : Bool) (v : ℕ)
          → t.server ≡ awaits_data v
          → t.control ≡ some control_stream
          → t.control_port ≡ []
          → t.triggers ≡ 1
          → t.connecting ≡ []
          → t.next_task ≡ length o.seen
          → o.rest ≡ v ∷ t.public_port
          → Own arrivals (read_trigger (some control_stream) 1 runs t)
      taken false v a b d e f g h = o
      taken true v a b d e f g h =
          with-Shape arrivals t
            (record t {
              triggers = 0;
              connecting = t.connecting ++ t.next_task ∷ [];
              next_task = t.next_task + 1;
            })
            o refl
            (connects v a b d refl (ap (λ l. l ++ t.next_task ∷ []) f ∙ ap (λ j. j ∷ []) g)
              (ap (λ j. j + 1) g) h)

  -- The one task that connects, or none.
  pub connect_to_server-Own :
      (t : Tunnel) (task : ℕ) (ok : Bool)
      → Own arrivals t
      → is_among task t.connecting ≡ true
      → Own arrivals (connect_to_server task ok t)
  unfolding connect_to_server
  connect_to_server-Own t task ok o among = elim o.shape [
    | early a b d e f g h ↦ absurd (cc (among, ap (is_among task) e))
    | idle a b d e f g h ↦ absurd (cc (among, ap (is_among task) f))
    | called v a b d e f g h ↦ absurd (cc (among, ap (is_among task) f))
    | arrived v a b d e f g h ↦ absurd (cc (among, ap (is_among task) f))
    | lost v a b d e f ↦ absurd (cc (among, ap (is_among task) e))
    | ended a ↦ over ok a
    | connects v a b d e f g h ↦ only ok v a b d e f g h
  ]
    where
      over : (ok : Bool) → t.server ≡ stopped → Own arrivals (connect_to_server task ok t)
      over true a =
          with-Shape arrivals t
            (record (dial (data_stream task) t) {
              connecting = without task t.connecting;
              bridging = t.bridging ++ task ∷ [];
            })
            o refl (ended a)
      over false a =
          with-Shape arrivals t (record t { connecting = without task t.connecting }) o refl
            (ended a)

      only :
          (ok : Bool) (v : ℕ)
          → t.server ≡ awaits_data v
          → t.control ≡ some control_stream
          → t.control_port ≡ []
          → t.triggers ≡ 0
          → t.connecting ≡ length o.seen ∷ []
          → t.next_task ≡ length o.seen + 1
          → o.rest ≡ v ∷ t.public_port
          → Own arrivals (connect_to_server task ok t)
      only ok v a b d e f g h =
          let (same, none_left) =
            without_only task (length o.seen) (ap (is_among task) (sym f) ∙ among) in
          let gone : without task t.connecting ≡ [] = ap (without task) f ∙ none_left in
          elim ok as (λ k. Own arrivals (connect_to_server task k t)) [
            | true ↦
                with-Shape arrivals t
                  (record (dial (data_stream task) t) {
                    connecting = without task t.connecting;
                    bridging = t.bridging ++ task ∷ [];
                  })
                  o refl
                  (arrived v a b
                    (ap (λ l. l ++ data_stream task ∷ []) d
                      ∙ ap (λ j. data_stream j ∷ []) (sym same))
                    e gone g h)
            | false ↦
                with-Shape arrivals t (record t { connecting = without task t.connecting }) o refl
                  (lost v a d e gone h)
          ]

  -- A client that stops leaves at most a byte or a connection.
  pub client_stops-Own : (t : Tunnel) → Own arrivals t → Own arrivals (step client_stops t)
  unfolding step
  client_stops-Own t o =
      let u : Tunnel = record t { client_runs = false; connecting = []; bridging = [] } in
      elim o.shape [
        | early a b d e f g h ↦ with-Shape arrivals t u o refl (early a b d refl f g h)
        | idle a b d e f g h ↦ with-Shape arrivals t u o refl (idle a b d e refl g h)
        | called v a b d e f g h ↦ with-Shape arrivals t u o refl (called v a b d e refl g h)
        | connects v a b d e f g h ↦ with-Shape arrivals t u o refl (lost v a d e refl h)
        | arrived v a b d e f g h ↦ with-Shape arrivals t u o refl (arrived v a b d e refl g h)
        | lost v a b d e f ↦ with-Shape arrivals t u o refl (lost v a b d refl f)
        | ended a ↦ with-Shape arrivals t u o refl (ended a)
      ]
