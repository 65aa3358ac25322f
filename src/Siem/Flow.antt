-- ===== src/Siem/Flow.antt =====
-- siem_clickhouse_processor/src/main.rs: the way of the events into the batches.
use rust_samples.Prelude.{
  ℕ, ◌≡◌, refl, ap, sym, ◌∙◌, List, [], ◌∷◌, ◌++◌, append_assoc, append-nil, arith, none, some,
  true, false, if_true, if_false, length, leb, ltb, Bool-cases, inl, inr,
}
use rust_samples.Prelude.Text.{is_empty}
use rust_samples.Siem.{SiemEvent, Config}
use rust_samples.Siem.Manager.{
  Wakeup, received, timer_expired, BatchManager, send_batch, on_event, on_closed, on_timer,
  on_wakeup, run, run_finished, run_more, new_manager,
}

abbrev pub concat {ℓ} : {A : Type ℓ} → List (List A) → List A
concat [] = []
concat (xs ∷ xss) = xs ++ concat xss

concat-snoc {ℓ} :
    {A : Type ℓ} (xss : List (List A)) (xs : List A) → concat (xss ++ xs ∷ []) ≡ concat xss ++ xs
concat-snoc [] xs = append-nil xs
concat-snoc (ys ∷ xss) xs =
    ap (λ z. ys ++ z) (concat-snoc xss xs) ∙ sym (append_assoc ys (concat xss) xs)

-- What the channel gives before it is closed.
abbrev pub events_of : List (ℕ × Wakeup) → List SiemEvent
events_of [] = []
events_of ((now, received (some event)) ∷ wakeups) = event ∷ events_of wakeups
events_of ((now, received none) ∷ wakeups) = []
events_of ((now, timer_expired) ∷ wakeups) = events_of wakeups

-- All that a manager has taken, in order.
abbrev pub taken : BatchManager → List SiemEvent
taken m = concat m.sent ++ m.buffer

taken-send_batch : (m : BatchManager) → taken (send_batch m) ≡ taken m
unfolding send_batch
taken-send_batch m = append-nil (concat (m.sent ++ m.buffer ∷ [])) ∙ concat-snoc m.sent m.buffer

taken-on_event :
    (config : Config) (now : ℕ) (event : SiemEvent) (m : BatchManager)
    → taken (on_event config now event m) ≡ taken m ++ event ∷ []
unfolding on_event
taken-on_event config now event m =
    let pushed : BatchManager = record m { buffer = m.buffer ++ event ∷ [] } in
    let more : taken pushed ≡ taken m ++ event ∷ [] =
      sym (append_assoc (concat m.sent) m.buffer (event ∷ [])) in
    elim (Bool-cases (leb config.max_batch_size (length (m.buffer ++ event ∷ [])))) [
      | inl full ↦ rw (full, on_event) (taken-send_batch pushed ∙ more)
      | inr room ↦ rw (room, on_event) more
    ]

taken-on_timer :
    (config : Config) (now : ℕ) (m : BatchManager) → taken (on_timer config now m) ≡ taken m
unfolding on_timer
taken-on_timer config now m = elim (Bool-cases (is_empty m.buffer)) [
  | inl empty ↦ rw (empty, on_timer) refl
  | inr full ↦ rw (full, on_timer) (taken-send_batch m)
]

taken-on_closed : (m : BatchManager) → taken (on_closed m) ≡ taken m
unfolding on_closed
taken-on_closed m = elim (Bool-cases (is_empty m.buffer)) [
  | inl empty ↦ rw (empty, on_closed) refl
  | inr full ↦ rw (full, on_closed) (taken-send_batch m)
]

-- What a wakeup leaves alone, and the end.
finished-on_event :
    (config : Config) (now : ℕ) (event : SiemEvent) (m : BatchManager)
    → (on_event config now event m).finished ≡ m.finished
unfolding on_event send_batch
finished-on_event config now event m = ground arith

finished-on_timer :
    (config : Config) (now : ℕ) (m : BatchManager) → (on_timer config now m).finished ≡ m.finished
unfolding on_timer send_batch
finished-on_timer config now m = ground arith

finished-on_closed : (m : BatchManager) → (on_closed m).finished ≡ true
unfolding on_closed
finished-on_closed m = ground arith

is_empty-nil {ℓ} : {A : Type ℓ} (xs : List A) → is_empty xs ≡ true → xs ≡ []
is_empty-nil [] e = refl
is_empty-nil (x ∷ xs) e = cc

buffer-on_closed : (m : BatchManager) → (on_closed m).buffer ≡ []
unfolding on_closed send_batch
buffer-on_closed m = elim (Bool-cases (is_empty m.buffer)) [
  | inl empty ↦ rw (empty, on_closed) (is_empty-nil m.buffer empty)
  | inr full ↦ rw (full, on_closed) refl
]

taken-timer :
    (config : Config) (now : ℕ) (m : BatchManager)
    → taken (on_wakeup config now timer_expired m) ≡ taken m
taken-timer config now m = elim (Bool-cases (ltb now m.deadline)) [
  | inl early ↦ ap taken (if_true m (on_timer config now m) early)
  | inr due ↦ ap taken (if_false m (on_timer config now m) due) ∙ taken-on_timer config now m
]

finished-timer :
    (config : Config) (now : ℕ) (m : BatchManager)
    → (on_wakeup config now timer_expired m).finished ≡ m.finished
finished-timer config now m = elim (Bool-cases (ltb now m.deadline)) [
  | inl early ↦ ap (λ x. x.finished) (if_true m (on_timer config now m) early)
  | inr due ↦
      ap (λ x. x.finished) (if_false m (on_timer config now m) due) ∙ finished-on_timer config now m
]

taken-run :
    (config : Config) (wakeups : List (ℕ × Wakeup)) (m : BatchManager)
    → m.finished ≡ false
    → taken (run config wakeups m) ≡ taken m ++ events_of wakeups
unfolding run
taken-run config [] m e = sym (append-nil (taken m))
taken-run config ((now, received (some event)) ∷ wakeups) m e =
    ap taken (run_more config now (received (some event)) wakeups m e)
    ∙ taken-run config wakeups (on_event config now event m)
        (finished-on_event config now event m ∙ e)
    ∙ ap (λ z. z ++ events_of wakeups) (taken-on_event config now event m)
    ∙ append_assoc (taken m) (event ∷ []) (events_of wakeups)
taken-run config ((now, received none) ∷ wakeups) m e =
    ap taken (run_more config now (received none) wakeups m e)
    ∙ ap taken (run_finished config wakeups (on_closed m) (finished-on_closed m))
    ∙ taken-on_closed m
    ∙ sym (append-nil (taken m))
taken-run config ((now, timer_expired) ∷ wakeups) m e =
    ap taken (run_more config now timer_expired wakeups m e)
    ∙ taken-run config wakeups (on_wakeup config now timer_expired m)
        (finished-timer config now m ∙ e)
    ∙ ap (λ z. z ++ events_of wakeups) (taken-timer config now m)

-- A manager that has left its loop has an empty buffer.
run_flushed :
    (config : Config) (wakeups : List (ℕ × Wakeup)) (m : BatchManager)
    → m.finished ≡ false
    → (run config wakeups m).finished ≡ true
    → (run config wakeups m).buffer ≡ []
unfolding run
run_flushed config [] m e f = cc
run_flushed config ((now, received (some event)) ∷ wakeups) m e f =
    let next = run_more config now (received (some event)) wakeups m e in
    ap (λ x. x.buffer) next
    ∙ run_flushed config wakeups (on_event config now event m)
        (finished-on_event config now event m ∙ e) (sym (ap (λ x. x.finished) next) ∙ f)
run_flushed config ((now, received none) ∷ wakeups) m e f =
    ap (λ x. x.buffer) (run_more config now (received none) wakeups m e)
    ∙ ap (λ x. x.buffer) (run_finished config wakeups (on_closed m) (finished-on_closed m))
    ∙ buffer-on_closed m
run_flushed config ((now, timer_expired) ∷ wakeups) m e f =
    let next = run_more config now timer_expired wakeups m e in
    ap (λ x. x.buffer) next
    ∙ run_flushed config wakeups (on_wakeup config now timer_expired m)
        (finished-timer config now m ∙ e) (sym (ap (λ x. x.finished) next) ∙ f)

-- The batches that a new manager has sent, one after the other, and then its buffer are the events
-- of the channel up to its end, in order: none is lost, doubled or moved. Once the manager has
-- left its loop, the buffer is empty, so the batches alone hold all events.
pub run_lem :
    (config : Config) (start : ℕ) (wakeups : List (ℕ × Wakeup))
    → let m = run config wakeups (new_manager config start) in
      (concat m.sent ++ m.buffer ≡ events_of wakeups) × (m.finished ≡ true → m.buffer ≡ [])
unfolding new_manager
run_lem config start wakeups = (
  taken-run config wakeups (new_manager config start) refl,
  run_flushed config wakeups (new_manager config start) refl,
)
