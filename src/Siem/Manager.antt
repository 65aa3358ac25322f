-- ===== src/Siem/Manager.antt =====
-- siem_clickhouse_processor/src/main.rs, `impl BatchManager`: the loop of `run`, one event of its
-- `select!` at a time.
use rust_samples.Prelude.{
  ℕ, ◌+◌, List, [], ◌∷◌, ◌++◌, Option, none, some, Bool, true, false, not, if◌then◌else◌, if_true,
  if_false, ◌≡◌, refl, length, leb, ltb,
}
use rust_samples.Prelude.Text.{is_empty}
use rust_samples.Siem.{SiemEvent, Config}

-- `received` is an answer of the channel, `none` when it is closed and drained; the timer expires
-- at its deadline.
pub data Wakeup : Type 0 where
  received : Option SiemEvent → Wakeup
  timer_expired : Wakeup

-- The variables of `run`, and the batches that it has handed to the writer, in order.
pub record BatchManager : Type 0 where
  pub buffer : List SiemEvent
  pub deadline : ℕ
  pub sent : List (List SiemEvent)
  pub finished : Bool

-- The buffer is replaced by an empty one and its batch spawned.
unfoldable pub send_batch : BatchManager → BatchManager
send_batch m = record m { buffer = []; sent = m.sent ++ m.buffer ∷ [] }

abbrev pub reset_timer : Config → ℕ → BatchManager → BatchManager
reset_timer config now m = record m { deadline = now + config.batch_timeout }

unfoldable pub on_event : Config → ℕ → SiemEvent → BatchManager → BatchManager
unfolding send_batch
on_event config now event m =
    let pushed : BatchManager = record m { buffer = m.buffer ++ event ∷ [] } in
    if leb config.max_batch_size (length pushed.buffer)
    then reset_timer config now (send_batch pushed)
    else pushed

unfoldable pub on_closed : BatchManager → BatchManager
unfolding send_batch
on_closed m =
    if not (is_empty m.buffer)
    then record (send_batch m) { finished = true }
    else record m { finished = true }

unfoldable pub on_timer : Config → ℕ → BatchManager → BatchManager
unfolding send_batch
on_timer config now m =
    if not (is_empty m.buffer)
    then reset_timer config now (send_batch m)
    else reset_timer config now m

abbrev pub on_wakeup : Config → ℕ → Wakeup → BatchManager → BatchManager
on_wakeup config now (received (some event)) m = on_event config now event m
on_wakeup config now (received none) m = on_closed m
on_wakeup config now timer_expired m = if ltb now m.deadline then m else on_timer config now m

-- A manager that has left its loop does no more.
unfoldable pub run : Config → List (ℕ × Wakeup) → BatchManager → BatchManager
unfolding on_event on_closed on_timer
run config [] m = m
run config ((now, wakeup) ∷ wakeups) m =
    if m.finished then m else run config wakeups (on_wakeup config now wakeup m)

unfoldable pub new_manager : Config → ℕ → BatchManager
new_manager config now = record {
  buffer = [];
  deadline = now + config.batch_timeout;
  sent = [];
  finished = false;
}

-- One turn of the loop.
pub run_finished :
    (config : Config) (wakeups : List (ℕ × Wakeup)) (m : BatchManager)
    → m.finished ≡ true
    → run config wakeups m ≡ m
unfolding run
run_finished config [] m e = refl
run_finished config (w ∷ wakeups) m e = if_true m _ e

pub run_more :
    (config : Config) (now : ℕ) (wakeup : Wakeup) (wakeups : List (ℕ × Wakeup)) (m : BatchManager)
    → m.finished ≡ false
    → run config ((now, wakeup) ∷ wakeups) m ≡ run config wakeups (on_wakeup config now wakeup m)
unfolding run
run_more config now wakeup wakeups m e = if_false m _ e
