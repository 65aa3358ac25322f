-- ===== src/Doge/Mining.antt =====
-- doge-rust/src/main.rs: the proof of work and its fuel.
use rust_samples.Prelude.{
  ℕ, zero, suc, ◌<◌, ◌≡◌, refl, inl, inr, some, true, arith, Bool-cases, some_inj, subst,
}
use rust_samples.Prelude.Text.{starts_with}
use rust_samples.Doge.{Block, Crates}
use rust_samples.Doge.Blocks.{block_hash, target, next_nonce, mine}

module _ (crates : Crates) where
  open crates use {Amount}

  -- The block `c` is `b` with another nonce and the hash that goes with it.
  pub record Mined (difficulty : ℕ) (b c : Block Amount) : Type 0 where
    pub work : starts_with (target crates difficulty) c.hash ≡ true
    pub own_hash : c.hash ≡ block_hash crates c
    pub index : c.index ≡ b.index
    pub timestamp : c.timestamp ≡ b.timestamp
    pub transactions : c.transactions ≡ b.transactions
    pub previous_hash : c.previous_hash ≡ b.previous_hash

  next_nonce_hash :
      (b : Block Amount) → (next_nonce crates b).hash ≡ block_hash crates (next_nonce crates b)
  unfolding next_nonce block_hash
  next_nonce_hash b = refl

  -- A block that mining returns carries its own hash, with as many zeros in front as the
  -- difficulty asks for, and is otherwise the block that was given but for its nonce.
  pub mine-Mined :
      (fuel difficulty : ℕ) (b c : Block Amount)
      → b.hash ≡ block_hash crates b
      → mine crates fuel difficulty b ≡ some c
      → Mined difficulty b c
  unfolding mine
  mine-Mined zero difficulty b c own h = cc
  mine-Mined (suc fuel) difficulty b c own h =
      elim (Bool-cases (starts_with (target crates difficulty) b.hash)) [
        | inl found ↦ done b c own found (some_inj.0 (rw (found, mine) at h))
        | inr more ↦ later b c (
            mine-Mined fuel difficulty (next_nonce crates b) c (next_nonce_hash b)
              (rw (more, mine) at h))
      ]
    where
      done :
          (b c : Block Amount)
          → b.hash ≡ block_hash crates b
          → starts_with (target crates difficulty) b.hash ≡ true
          → b ≡ c
          → Mined difficulty b c
      done b c own found e = subst (Mined difficulty b) e (record {
        work = found;
        own_hash = own;
        index = refl;
        timestamp = refl;
        transactions = refl;
        previous_hash = refl;
      })

      later : (b c : Block Amount) → Mined difficulty (next_nonce crates b) c → Mined difficulty b c
      later b c m = record {
        work = m.work;
        own_hash = m.own_hash;
        index = m.index;
        timestamp = m.timestamp;
        transactions = m.transactions;
        previous_hash = m.previous_hash;
      }

  -- The block after some more nonces.
  abbrev pub attempt : ℕ → Block Amount → Block Amount
  attempt zero b = b
  attempt (suc k) b = attempt k (next_nonce crates b)

  -- Any fuel above the number of the first good attempt is enough.
  mine_returns :
      (k fuel difficulty : ℕ) (b : Block Amount)
      → k < fuel
      → starts_with (target crates difficulty) (attempt k b).hash ≡ true
      → (c : Block Amount) × (mine crates fuel difficulty b ≡ some c)
  unfolding mine
  mine_returns k zero difficulty b h found = absurd (omega arith)
  mine_returns zero (suc fuel) difficulty b h found = (b, rw (found, mine) refl)
  mine_returns (suc k) (suc fuel) difficulty b h found =
      elim (Bool-cases (starts_with (target crates difficulty) b.hash)) [
        | inl met ↦ (b, rw (met, mine) refl)
        | inr missed ↦
            let (c, e) = mine_returns k fuel difficulty (next_nonce crates b) (omega arith) found in
            (c, rw (missed, mine) e)
      ]

  -- The loop ends with a mined block: if a hash within the first `k` attempts after a block that
  -- carries its own hash meets the difficulty, any fuel above `k` is enough, and the block that
  -- comes back carries its own hash, with as many zeros in front as the difficulty asks for, and
  -- is otherwise the block that was given but for its nonce.
  pub mine_finds :
      (k fuel difficulty : ℕ) (b : Block Amount)
      → b.hash ≡ block_hash crates b
      → k < fuel
      → starts_with (target crates difficulty) (attempt k b).hash ≡ true
      → (c : Block Amount) × (mine crates fuel difficulty b ≡ some c) × Mined difficulty b c
  mine_finds k fuel difficulty b own h found =
      let (c, e) = mine_returns k fuel difficulty b h found in
      (c, e, mine-Mined fuel difficulty b c own e)
