-- ===== src/Siem/Bounds.antt =====
-- siem_clickhouse_processor/src/main.rs: the sizes of the manager's batches.
use rust_samples.Prelude.{
  ℕ, ◌+◌, ◌≤◌, ◌<◌, ◌≡◌, List, [], ◌∷◌, ◌++◌, arith, none, some, false, length, length-append, leb,
  ltb, All, All-append, Bool-cases, inl, inr, sym, subst,
}
use rust_samples.Prelude.Text.{is_empty}
use rust_samples.Siem.{SiemEvent, Config}
use rust_samples.Siem.Manager.{
  Wakeup, received, timer_expired, BatchManager, send_batch, on_event, on_closed, on_timer,
  on_wakeup, run, run_finished, run_more, new_manager,
}

-- A batch is not empty and at most as large as the configuration says; the buffer is smaller.
abbrev pub IsBatch : Config → List SiemEvent → Type 0
IsBatch config batch = (0 < length batch) × (length batch ≤ config.max_batch_size)

pub record IsBounded (config : Config) (m : BatchManager) : Type 0 where
  pub batches : All (IsBatch config) m.sent
  pub small : length m.buffer < config.max_batch_size

empty-length {ℓ} : {A : Type ℓ} (xs : List A) → is_empty xs ≡ false → 0 < length xs
empty-length [] e = cc
empty-length (x ∷ xs) e = omega arith

batch_sent :
    (config : Config) (m : BatchManager)
    → 0 < config.max_batch_size
    → All (IsBatch config) m.sent
    → IsBatch config m.buffer
    → IsBounded config (send_batch m)
unfolding send_batch
batch_sent config m some_ batches batch = record {
  batches = All-append (IsBatch config) m.sent (m.buffer ∷ []) batches (batch, tt);
  small = some_;
}

rest_of : {config : Config} {m : BatchManager} → IsBounded config m → 0 < config.max_batch_size
rest_of h = omega (arith, h.small)

leb→gt : (a b : ℕ) → leb a b ≡ false → b < a
leb→gt a b h = ground arith

on_event-IsBounded :
    (config : Config) (now : ℕ) (event : SiemEvent) (m : BatchManager)
    → IsBounded config m
    → IsBounded config (on_event config now event m)
unfolding on_event
on_event-IsBounded config now event m h =
    let pushed : BatchManager = record m { buffer = m.buffer ++ event ∷ [] } in
    let size : length (m.buffer ++ event ∷ []) ≡ length m.buffer + 1 =
      length-append m.buffer (event ∷ []) in
    elim (Bool-cases (leb config.max_batch_size (length (m.buffer ++ event ∷ [])))) [
      | inl full ↦
          let sent =
            batch_sent config pushed (rest_of h) h.batches
              (omega (arith, size), omega (arith, size, h.small)) in
          rw (full, on_event) (record { batches = sent.batches; small = sent.small })
      | inr room ↦ rw (room, on_event) (record { batches = h.batches; small = leb→gt _ _ room })
    ]

on_timer-IsBounded :
    (config : Config) (now : ℕ) (m : BatchManager)
    → IsBounded config m
    → IsBounded config (on_timer config now m)
unfolding on_timer
on_timer-IsBounded config now m h = elim (Bool-cases (is_empty m.buffer)) [
  | inl empty ↦ rw (empty, on_timer) (record { batches = h.batches; small = h.small })
  | inr full ↦
      let sent =
        batch_sent config m (rest_of h) h.batches
          (empty-length m.buffer full, omega (arith, h.small)) in
      rw (full, on_timer) (record { batches = sent.batches; small = sent.small })
]

on_closed-IsBounded :
    (config : Config) (m : BatchManager) → IsBounded config m → IsBounded config (on_closed m)
unfolding on_closed
on_closed-IsBounded config m h = elim (Bool-cases (is_empty m.buffer)) [
  | inl empty ↦ rw (empty, on_closed) (record { batches = h.batches; small = h.small })
  | inr full ↦
      let sent =
        batch_sent config m (rest_of h) h.batches
          (empty-length m.buffer full, omega (arith, h.small)) in
      rw (full, on_closed) (record { batches = sent.batches; small = sent.small })
]

on_wakeup-IsBounded :
    (config : Config) (now : ℕ) (wakeup : Wakeup) (m : BatchManager)
    → IsBounded config m
    → IsBounded config (on_wakeup config now wakeup m)
on_wakeup-IsBounded config now (received (some event)) m h = on_event-IsBounded config now event m h
on_wakeup-IsBounded config now (received none) m h = on_closed-IsBounded config m h
on_wakeup-IsBounded config now timer_expired m h = elim (Bool-cases (ltb now m.deadline)) [
  | inl early ↦ rw early h
  | inr due ↦ rw due (on_timer-IsBounded config now m h)
]

run-IsBounded_from :
    (config : Config) (wakeups : List (ℕ × Wakeup)) (m : BatchManager)
    → IsBounded config m
    → IsBounded config (run config wakeups m)
unfolding run
run-IsBounded_from config [] m h = h
run-IsBounded_from config ((now, wakeup) ∷ wakeups) m h = elim (Bool-cases m.finished) [
  | inl done ↦
      subst (IsBounded config) (sym (run_finished config ((now, wakeup) ∷ wakeups) m done)) h
  | inr more ↦ subst (IsBounded config) (sym (run_more config now wakeup wakeups m more)) (
      run-IsBounded_from config wakeups (on_wakeup config now wakeup m)
        (on_wakeup-IsBounded config now wakeup m h))
]

-- With a batch size that is not zero, no batch that a new manager sends is empty or too large, and
-- its buffer never holds a whole batch after a wakeup.
pub run-IsBounded :
    (config : Config) (start : ℕ) (wakeups : List (ℕ × Wakeup))
    → 0 < config.max_batch_size
    → IsBounded config (run config wakeups (new_manager config start))
unfolding new_manager
run-IsBounded config start wakeups some_ =
    run-IsBounded_from config wakeups (new_manager config start)
      (record { batches = tt; small = some_ })
