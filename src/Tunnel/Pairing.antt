-- ===== src/Tunnel/Pairing.antt =====
-- rs_ngrok/src/main.rs: the visitors and the data connections, over any events.
use rust_samples.Prelude.{
  ℕ, suc, ◌+◌, ◌≡◌, refl, ap, sym, subst, ◌∙◌, List, [], ◌∷◌, ◌++◌, append_assoc, some, Bool, true,
  false, length, length-append, arith,
}
use rust_samples.Tunnel.{
  Peer, control_stream, data_stream, awaits_client, awaits_visitor, awaits_data, stopped, Tunnel,
  Event, client_connects, stranger_connects, visitor_connects,
}
use rust_samples.Tunnel.Machine.{accept_control, accept_visitor, accept_data}

-- Nobody but the client's tasks connects to the control port.
abbrev pub IsOwn : Event → Type 0
IsOwn client_connects = ⊥
IsOwn (stranger_connects name) = ⊥
IsOwn event = Unit

abbrev pub visitors : List Event → List ℕ
visitors [] = []
visitors (visitor_connects visitor ∷ events) = visitor ∷ visitors events
visitors (event ∷ events) = visitors events

-- The visitors, each with the data connection of the task of the same number.
abbrev pub numbered : ℕ → List ℕ → List (ℕ × Peer)
numbered n [] = []
numbered n (visitor ∷ rest) = (visitor, data_stream n) ∷ numbered (n + 1) rest

numbered-append :
    (n : ℕ) (vs ws : List ℕ) → numbered n (vs ++ ws) ≡ numbered n vs ++ numbered (n + length vs) ws
numbered-append n [] ws = let e : n ≡ n + 0 = omega arith in ap (λ j. numbered j ws) e
numbered-append n (v ∷ vs) ws =
    let e : n + 1 + length vs ≡ n + suc (length vs) = omega arith in
    ap (λ l. (v, data_stream n) ∷ l)
      (numbered-append (n + 1) vs ws ∙ ap (λ j. numbered (n + 1) vs ++ numbered j ws) e)

numbered_snoc :
    (vs : List ℕ) (v : ℕ)
    → numbered 0 (vs ++ v ∷ []) ≡ numbered 0 vs ++ (v, data_stream (length vs)) ∷ []
numbered_snoc vs v =
    let e : 0 + length vs ≡ length vs = omega arith in
    numbered-append 0 vs (v ∷ []) ∙ ap (λ j. numbered 0 vs ++ (v, data_stream j) ∷ []) e

pub length-numbered : (n : ℕ) (vs : List ℕ) → length (numbered n vs) ≡ length vs
length-numbered n [] = refl
length-numbered n (v ∷ vs) = ap suc (length-numbered (n + 1) vs)

-- Where the byte for a visitor is: nowhere, on its way, with a task, a connection that waits, or
-- lost with its task. `n` pairs are made; `rest` are the visitors that have none.
pub data Shape (n : ℕ) (rest : List ℕ) (t : Tunnel) : Type 0 where
  early :
      t.server ≡ awaits_client
      → t.control_port ≡ control_stream ∷ []
      → t.triggers ≡ 0
      → t.connecting ≡ []
      → t.next_task ≡ 0
      → n ≡ 0
      → rest ≡ t.public_port
      → Shape n rest t
  idle :
      t.server ≡ awaits_visitor
      → t.control ≡ some control_stream
      → t.control_port ≡ []
      → t.triggers ≡ 0
      → t.connecting ≡ []
      → t.next_task ≡ n
      → rest ≡ t.public_port
      → Shape n rest t
  called :
      (v : ℕ)
      → t.server ≡ awaits_data v
      → t.control ≡ some control_stream
      → t.control_port ≡ []
      → t.triggers ≡ 1
      → t.connecting ≡ []
      → t.next_task ≡ n
      → rest ≡ v ∷ t.public_port
      → Shape n rest t
  connects :
      (v : ℕ)
      → t.server ≡ awaits_data v
      → t.control ≡ some control_stream
      → t.control_port ≡ []
      → t.triggers ≡ 0
      → t.connecting ≡ n ∷ []
      → t.next_task ≡ n + 1
      → rest ≡ v ∷ t.public_port
      → Shape n rest t
  arrived :
      (v : ℕ)
      → t.server ≡ awaits_data v
      → t.control ≡ some control_stream
      → t.control_port ≡ data_stream n ∷ []
      → t.triggers ≡ 0
      → t.connecting ≡ []
      → t.next_task ≡ n + 1
      → rest ≡ v ∷ t.public_port
      → Shape n rest t
  lost :
      (v : ℕ)
      → t.server ≡ awaits_data v
      → t.control_port ≡ []
      → t.triggers ≡ 0
      → t.connecting ≡ []
      → rest ≡ v ∷ t.public_port
      → Shape n rest t
  ended : t.server ≡ stopped → Shape n rest t

pub record Own (arrivals : List ℕ) (t : Tunnel) : Type 0 where
  pub seen : List ℕ
  pub rest : List ℕ
  pub split : arrivals ≡ seen ++ rest
  pub paired : t.pairs ≡ numbered 0 seen
  pub shape : Shape (length seen) rest t

-- The fields that a shape speaks of.
pub Shape-kept :
    (n : ℕ) (rest : List ℕ) (t u : Tunnel)
    → u.server ≡ t.server
    → u.control ≡ t.control
    → u.control_port ≡ t.control_port
    → u.public_port ≡ t.public_port
    → u.triggers ≡ t.triggers
    → u.connecting ≡ t.connecting
    → u.next_task ≡ t.next_task
    → Shape n rest t
    → Shape n rest u
Shape-kept n rest t u s c p q r k x (early a b d e f g h) =
    early (s ∙ a) (p ∙ b) (r ∙ d) (k ∙ e) (x ∙ f) g (h ∙ sym q)
Shape-kept n rest t u s c p q r k x (idle a b d e f g h) =
    idle (s ∙ a) (c ∙ b) (p ∙ d) (r ∙ e) (k ∙ f) (x ∙ g) (h ∙ sym q)
Shape-kept n rest t u s c p q r k x (called v a b d e f g h) =
    called v (s ∙ a) (c ∙ b) (p ∙ d) (r ∙ e) (k ∙ f) (x ∙ g) (h ∙ ap (λ l. v ∷ l) (sym q))
Shape-kept n rest t u s c p q r k x (connects v a b d e f g h) =
    connects v (s ∙ a) (c ∙ b) (p ∙ d) (r ∙ e) (k ∙ f) (x ∙ g) (h ∙ ap (λ l. v ∷ l) (sym q))
Shape-kept n rest t u s c p q r k x (arrived v a b d e f g h) =
    arrived v (s ∙ a) (c ∙ b) (p ∙ d) (r ∙ e) (k ∙ f) (x ∙ g) (h ∙ ap (λ l. v ∷ l) (sym q))
Shape-kept n rest t u s c p q r k x (lost v a b d e f) =
    lost v (s ∙ a) (p ∙ b) (r ∙ d) (k ∙ e) (f ∙ ap (λ l. v ∷ l) (sym q))
Shape-kept n rest t u s c p q r k x (ended a) = ended (s ∙ a)

module _ (arrivals : List ℕ) where
  -- To open an operation on the fields that it branches on.
  pub at_both :
      {A B : Type 0} (f : A → B → Tunnel) {a c : A} {b d : B}
      → a ≡ c
      → b ≡ d
      → Own arrivals (f c d)
      → Own arrivals (f a b)
  at_both f {a = a} {d = d} e h o =
      subst (λ y. Own arrivals (f a y)) (sym h) (subst (λ x. Own arrivals (f x d)) (sym e) o)

  pub at_one :
      {A : Type 0} (f : A → Tunnel) {a c : A} → a ≡ c → Own arrivals (f c) → Own arrivals (f a)
  at_one f e o = subst (λ x. Own arrivals (f x)) (sym e) o

  pub with-Shape :
      (t u : Tunnel) (o : Own arrivals t)
      → u.pairs ≡ t.pairs
      → Shape (length o.seen) o.rest u
      → Own arrivals u
  with-Shape t u o e shape = record {
    seen = o.seen;
    rest = o.rest;
    split = o.split;
    paired = e ∙ o.paired;
    shape = shape;
  }

  pub accept_control-Own :
      (t : Tunnel) → Own arrivals t → Own arrivals (accept_control t.server t.control_port t)
  unfolding accept_control
  accept_control-Own t o = elim o.shape [
    | early a b d e f g h ↦
        at_both (λ s q. accept_control s q t) a b
          (with-Shape t
            (record t { server = awaits_visitor; control = some control_stream; control_port = [] })
            o refl (idle refl refl refl d e (f ∙ sym g) h))
    | idle a b d e f g h ↦ at_one (λ s. accept_control s t.control_port t) a o
    | called v a b d e f g h ↦ at_one (λ s. accept_control s t.control_port t) a o
    | connects v a b d e f g h ↦ at_one (λ s. accept_control s t.control_port t) a o
    | arrived v a b d e f g h ↦ at_one (λ s. accept_control s t.control_port t) a o
    | lost v a b d e f ↦ at_one (λ s. accept_control s t.control_port t) a o
    | ended a ↦ at_one (λ s. accept_control s t.control_port t) a o
  ]

  next_visitor :
      (t : Tunnel) (ok : Bool) (queue : List ℕ) (o : Own arrivals t)
      → t.control ≡ some control_stream
      → t.control_port ≡ []
      → t.triggers ≡ 0
      → t.connecting ≡ []
      → t.next_task ≡ length o.seen
      → o.rest ≡ queue
      → t.public_port ≡ queue
      → t.server ≡ awaits_visitor
      → Own arrivals (accept_visitor awaits_visitor queue ok t)
  unfolding accept_visitor
  next_visitor t ok [] o b d e f g h q s = o
  next_visitor t true (v ∷ queue) o b d e f g h q s =
      with-Shape t
        (record t { server = awaits_data v; public_port = queue; triggers = t.triggers + 1 }) o refl
        (called v refl b d (ap (λ j. j + 1) e) f g h)
  next_visitor t false (v ∷ queue) o b d e f g h q s =
      with-Shape t (record t { server = stopped; public_port = queue }) o refl (ended refl)

  pub accept_visitor-Own :
      (t : Tunnel) (ok : Bool)
      → Own arrivals t
      → Own arrivals (accept_visitor t.server t.public_port ok t)
  unfolding accept_visitor
  accept_visitor-Own t ok o = elim o.shape [
    | early a b d e f g h ↦ at_one (λ s. accept_visitor s t.public_port ok t) a o
    | idle a b d e f g h ↦
        at_one (λ s. accept_visitor s t.public_port ok t) a
          (next_visitor t ok t.public_port o b d e f g h refl a)
    | called v a b d e f g h ↦ at_one (λ s. accept_visitor s t.public_port ok t) a o
    | connects v a b d e f g h ↦ at_one (λ s. accept_visitor s t.public_port ok t) a o
    | arrived v a b d e f g h ↦ at_one (λ s. accept_visitor s t.public_port ok t) a o
    | lost v a b d e f ↦ at_one (λ s. accept_visitor s t.public_port ok t) a o
    | ended a ↦ at_one (λ s. accept_visitor s t.public_port ok t) a o
  ]

  -- The visitor that waits gets the connection that is there.
  pub accept_data-Own :
      (t : Tunnel) → Own arrivals t → Own arrivals (accept_data t.server t.control_port t)
  unfolding accept_data
  accept_data-Own t o = elim o.shape [
    | early a b d e f g h ↦ at_one (λ s. accept_data s t.control_port t) a o
    | idle a b d e f g h ↦ at_one (λ s. accept_data s t.control_port t) a o
    | called v a b d e f g h ↦ at_both (λ s q. accept_data s q t) a d o
    | connects v a b d e f g h ↦ at_both (λ s q. accept_data s q t) a d o
    | lost v a b d e f ↦ at_both (λ s q. accept_data s q t) a b o
    | ended a ↦ at_one (λ s. accept_data s t.control_port t) a o
    | arrived v a b d e f g h ↦
        at_both (λ s q. accept_data s q t) a d
          (record {
            seen = o.seen ++ v ∷ [];
            rest = t.public_port;
            split =
                o.split
                ∙ ap (λ l. o.seen ++ l) h
                ∙ sym (append_assoc o.seen (v ∷ []) t.public_port);
            paired =
                ap (λ l. l ++ (v, data_stream (length o.seen)) ∷ []) o.paired
                ∙ sym (numbered_snoc o.seen v);
            shape = idle refl b refl e f (g ∙ sym (length-append o.seen (v ∷ []))) refl;
          })
  ]
