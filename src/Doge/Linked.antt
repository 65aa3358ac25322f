-- ===== src/Doge/Linked.antt =====
-- doge-rust/src/main.rs: the links between the blocks of a chain, under all its operations.
use rust_samples.Prelude.{
  ℕ, ◌≡◌, refl, sym, ap, ◌∙◌, List, [], ◌∷◌, ◌++◌, Option, none, some, list_eq, list_eq_iff, arith,
  and_then-eq-some, append_assoc, append-nil, inl, inr, take, length, ◌==◌, Bool-cases,
  Option-cases, subst, some_inj,
}
use rust_samples.Doge.{Transaction, Block, Crates}
use rust_samples.Doge.Blocks.{block_hash, new_block}
use rust_samples.Doge.Mining.{mine-Mined}
use rust_samples.Doge.Chain.{
  Blockchain, accepted, last, genesis, add_transaction, mine_pending_transactions,
  add_block_from_network,
}
use rust_samples.Doge.Node.{Message, new_transaction, handle_message, handle_connection, serve}
use rust_samples.Doge.Pending.{candidate-own, candidate-previous}

module _ (crates : Crates) where
  open crates use {Amount}

  -- From a block on, each block names its predecessor's hash and carries its own.
  abbrev pub LinkedFrom : Block Amount → List (Block Amount) → Type 0
  LinkedFrom b [] = b.hash ≡ block_hash crates b
  LinkedFrom b (c ∷ cs) =
      (b.hash ≡ block_hash crates b) × (c.previous_hash ≡ b.hash) × LinkedFrom c cs

  abbrev pub IsLinked : List (Block Amount) → Type 0
  IsLinked [] = ⊥
  IsLinked (b ∷ bs) = LinkedFrom b bs

  LinkedFrom-snoc :
      (b c l : Block Amount) (bs : List (Block Amount))
      → last (b ∷ bs) ≡ some l
      → LinkedFrom b bs
      → c.previous_hash ≡ l.hash
      → c.hash ≡ block_hash crates c
      → LinkedFrom b (bs ++ c ∷ [])
  LinkedFrom-snoc b c l [] e own prev h = let same : b ≡ l = some_inj.0 e in (own, rw same prev, h)
  LinkedFrom-snoc b c l (d ∷ bs) e (own, link, more) prev h =
      (own, link, LinkedFrom-snoc d c l bs e more prev h)

  IsLinked-snoc :
      (bs : List (Block Amount)) (c l : Block Amount)
      → last bs ≡ some l
      → IsLinked bs
      → c.previous_hash ≡ l.hash
      → c.hash ≡ block_hash crates c
      → IsLinked (bs ++ c ∷ [])
  IsLinked-snoc [] c l e linked prev h = absurd linked
  IsLinked-snoc (b ∷ bs) c l e linked prev h = LinkedFrom-snoc b c l bs e linked prev h

  -- A later chain holds the earlier one as its beginning.
  abbrev pub Extends : Blockchain Amount → Blockchain Amount → Type 0
  Extends before after = (more : List (Block Amount)) × (after.chain ≡ before.chain ++ more)

  -- What an operation keeps.
  pub record Keeps (before after : Blockchain Amount) : Type 0 where
    pub linked : IsLinked before.chain → IsLinked after.chain
    pub extends : Extends before after

  Keeps-trans : {a b c : Blockchain Amount} → Keeps a b → Keeps b c → Keeps a c
  Keeps-trans {a} k l =
      let (xs, e) = k.extends in
      let (ys, f) = l.extends in
      record {
        linked = λ h. l.linked (k.linked h);
        extends = (xs ++ ys, f ∙ ap (λ z. z ++ ys) e ∙ append_assoc a.chain xs ys);
      }

  -- An operation that leaves the blocks alone.
  Keeps-of_same : (bc bc' : Blockchain Amount) → bc'.chain ≡ bc.chain → Keeps bc bc'
  Keeps-of_same bc bc' e = record {
    linked = λ h. rw e h;
    extends = ([], e ∙ sym (append-nil bc.chain));
  }

  chain-add_transaction :
      (tx : Transaction Amount) (bc : Blockchain Amount)
      → (add_transaction crates tx bc).0.chain ≡ bc.chain
  unfolding add_transaction
  chain-add_transaction tx bc = ground arith

  -- A block whose predecessor is the last one.
  Keeps-snoc :
      (bc : Blockchain Amount) (c l : Block Amount) (pending : List (Transaction Amount))
      → last bc.chain ≡ some l
      → c.previous_hash ≡ l.hash
      → c.hash ≡ block_hash crates c
      → Keeps bc (record { chain = bc.chain ++ c ∷ []; pending_transactions = pending })
  Keeps-snoc bc c l pending e prev own = record {
    linked = λ h. IsLinked-snoc bc.chain c l e h prev own;
    extends = (c ∷ [], refl);
  }

  add_block-Keeps :
      (b : Block Amount) (bc : Blockchain Amount) → Keeps bc (add_block_from_network crates b bc).0
  unfolding add_block_from_network
  add_block-Keeps b bc = elim (Option-cases (last bc.chain)) [
    | inl e ↦ Keeps-of_same _ _ (rw (e, add_block_from_network) refl)
    | inr (l, e) ↦ elim (Bool-cases (list_eq b.previous_hash l.hash)) [
      | inr differs ↦ Keeps-of_same _ _ (rw (e, add_block_from_network) (rw differs refl))
      | inl prev ↦ elim (Bool-cases (list_eq b.hash (block_hash crates b))) [
        | inr corrupted ↦
            Keeps-of_same _ _ (rw (e, add_block_from_network) (rw (prev, corrupted) refl))
        | inl own ↦
            rw (e, add_block_from_network)
              (rw (prev, own)
                (Keeps-snoc bc b l [] e ((list_eq_iff _ _).0 prev) ((list_eq_iff _ _).0 own)))
      ]
    ]
  ]

  -- Mining keeps the chain linked and only adds to it.
  pub mine_pending-Keeps :
      (fuel : ℕ) (miner : List ℕ) (now : ℕ) (bc bc' : Blockchain Amount) (b : Block Amount)
      → mine_pending_transactions crates fuel miner now bc ≡ some (bc', b)
      → Keeps bc bc'
  unfolding mine_pending_transactions
  mine_pending-Keeps fuel miner now bc bc' b h =
      let (l, e, rest) = and_then-eq-some _ _ h in
      let (c, mined, same) = and_then-eq-some _ _ rest in
      let m = mine-Mined crates fuel 4 _ c (candidate-own crates miner now bc l) mined in
      subst (Keeps bc) (ap (λ p. p.0) (some_inj.0 same)) (
        Keeps-snoc bc c l [] e (m.previous_hash ∙ candidate-previous crates miner now bc l)
          m.own_hash)

  message-Keeps :
      (msg : Message Amount) (bc : Blockchain Amount) → Keeps bc (handle_message crates msg bc).0
  unfolding handle_message
  message-Keeps (new_transaction tx) bc = Keeps-of_same bc _ (chain-add_transaction tx bc)
  message-Keeps (Message.new_block block) bc = add_block-Keeps block bc

  connection-Keeps :
      (from_slice : List ℕ → Option (Message Amount)) (stream : Option (List ℕ))
      (bc : Blockchain Amount)
      → Keeps bc (handle_connection crates from_slice stream bc)
  unfolding handle_connection
  connection-Keeps from_slice none bc = Keeps-of_same bc bc refl
  connection-Keeps from_slice (some bytes) bc = elim (Bool-cases (length (take 4096 bytes) == 0)) [
    | inl closed ↦ rw closed (Keeps-of_same bc bc refl)
    | inr open_ ↦ rw open_ (elim (Option-cases (from_slice (take 4096 bytes))) [
      | inl e ↦ rw e (Keeps-of_same bc bc refl)
      | inr (msg, e) ↦ rw e (message-Keeps msg bc)
    ])
  ]

  -- So does whatever a node is sent: its chain stays linked, and a block that it holds is never
  -- replaced or removed.
  pub serve-Keeps :
      (from_slice : List ℕ → Option (Message Amount)) (streams : List (Option (List ℕ)))
      (bc : Blockchain Amount)
      → Keeps bc (serve crates from_slice streams bc)
  unfolding serve
  serve-Keeps from_slice [] bc = Keeps-of_same bc bc refl
  serve-Keeps from_slice (stream ∷ streams) bc =
      Keeps-trans (connection-Keeps from_slice stream bc) (serve-Keeps from_slice streams _)

  -- A new node's chain is linked.
  genesis-IsLinked :
      (fuel now : ℕ) (bc : Blockchain Amount)
      → genesis crates fuel now ≡ some bc
      → IsLinked bc.chain
  unfolding genesis new_block block_hash
  genesis-IsLinked fuel now bc h =
      let (b, mined, same) = and_then-eq-some _ _ h in
      subst (λ c. IsLinked c.chain) (some_inj.0 same)
        ((mine-Mined crates fuel 4 _ b refl mined).own_hash)

  -- After the start and any connections, each block of a node's chain carries its own hash and
  -- names its predecessor's, and what further connections bring keeps it so and never replaces or
  -- removes a block that the node holds.
  pub serve-IsLinked :
      (fuel now : ℕ) (start : Blockchain Amount)
      → genesis crates fuel now ≡ some start
      → (from_slice : List ℕ → Option (Message Amount)) (streams more : List (Option (List ℕ)))
      → let node = serve crates from_slice streams start in
        IsLinked node.chain × Keeps node (serve crates from_slice more node)
  serve-IsLinked fuel now start h from_slice streams more = (
    (serve-Keeps from_slice streams start).linked (genesis-IsLinked fuel now start h),
    serve-Keeps from_slice more (serve crates from_slice streams start),
  )

  -- A node takes a block over without any proof of work: one with no search for a nonce, on the
  -- last block and with any transactions and time, is appended, and the pending transactions are
  -- dropped.
  pub unmined_accepted :
      (bc : Blockchain Amount) (l : Block Amount) (index now : ℕ) (txs : List (Transaction Amount))
      → last bc.chain ≡ some l
      → let block = new_block crates index txs l.hash now in
        add_block_from_network crates block bc
        ≡ (record { chain = bc.chain ++ block ∷ []; pending_transactions = [] }, accepted)
  unfolding add_block_from_network new_block block_hash
  unmined_accepted bc l index now txs e =
      rw (e, add_block_from_network)
        (rw ((list_eq_iff l.hash l.hash).1 refl, (list_eq_iff _ _).1 refl) refl)
