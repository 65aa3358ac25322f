-- ===== src/DlpHooks/Answers.antt =====
-- dlp/dlp_fanotify_hooks/src/main.rs: the loops over the events that the kernel lays out.
use rust_samples.Prelude.{
  ℕ, zero, suc, ◌+◌, ◌*◌, ◌≤◌, ◌<◌, ◌≡◌, refl, ap, sym, ◌∙◌, List, [], ◌∷◌, ◌++◌, Option, none,
  some, true, length, drop, replicate, drop_append, length-append, append_assoc, map, All, leb,
  if_true, if_false, arith,
}
use rust_samples.DlpHooks.{
  FanotifyEventMetadata, Kernel, Action, metadata_at, handle, also, walk, filled, monitor,
  monitored, run_fanotify_monitor,
}
use rust_samples.DlpHooks.Layout.{fields, laid_out, Fits, length-laid_out, metadata_at-laid_out}

-- An event: its metadata, and what the kernel puts behind them.
abbrev pub Event : Type 0
Event = FanotifyEventMetadata × List ℕ

-- The kernel's layout: the length of an event counts the metadata and what follows them.
abbrev pub IsEvent : Event → Type 0
IsEvent (m, info) = Fits (fields m) × (m.event_len ≡ 24 + length info)

abbrev pub packed : List Event → List ℕ → List ℕ
packed [] rest = rest
packed ((m, info) ∷ events) rest = laid_out (fields m) (info ++ packed events rest)

abbrev pub size : List Event → ℕ
size [] = 0
size ((m, info) ∷ events) = m.event_len + size events

-- What the monitor is to do for each event in turn, with the kernel at its time.
abbrev pub handled : (ℕ → Kernel) → ℕ → List Event → List Action
handled kernels offset [] = []
handled kernels offset ((m, info) ∷ events) =
    handle (kernels offset) m ++ handled kernels (offset + m.event_len) events

packed-append :
    (events : List Event) (xs ys : List ℕ) → packed events xs ++ ys ≡ packed events (xs ++ ys)
packed-append [] xs ys = refl
packed-append ((m, info) ∷ events) xs ys =
    ap (laid_out (fields m))
      (append_assoc info (packed events xs) ys ∙ ap (λ l. info ++ l) (packed-append events xs ys))

length-packed :
    (events : List Event) (rest : List ℕ)
    → All IsEvent events
    → length (packed events rest) ≡ size events + length rest
length-packed [] rest h = omega arith
length-packed ((m, info) ∷ events) rest (h, hs) = omega (
  arith,
  length-laid_out m (info ++ packed events rest),
  length-append info (packed events rest),
  length-packed events rest hs,
  h.1,
)

-- At the head of the events that are left.
walk-packed :
    (kernels : ℕ → Kernel) (fuel : ℕ) (events : List Event) (before rest : List ℕ)
    (bytes_read offset : ℕ)
    → All IsEvent events
    → length events < fuel
    → offset ≡ length before
    → bytes_read ≡ offset + size events
    → walk kernels fuel (before ++ packed events rest) bytes_read offset
      ≡ some (handled kernels offset events)
unfolding walk
walk-packed kernels zero events before rest bytes_read offset h f o b = absurd (omega (arith, f))
walk-packed kernels (suc fuel) [] before rest bytes_read offset h f o b =
    if_false {b = leb (offset + 24) bytes_read} _ (some []) (ground arith)
walk-packed kernels (suc fuel) ((m, info) ∷ events) before rest bytes_read offset (h, hs) f o b =
    if_true {b = leb (offset + 24) bytes_read} _ (some []) (ground (arith, h.1))
    ∙ ap
        (λ x. also (handle (kernels offset) x) (
          walk kernels fuel (before ++ packed ((m, info) ∷ events) rest) bytes_read
            (offset + x.event_len)))
        (ap metadata_at (drop_append offset before (packed ((m, info) ∷ events) rest) (sym o))
          ∙ metadata_at-laid_out m (info ++ packed events rest) h.0)
    ∙ ap
        (λ buffer.
          also (handle (kernels offset) m)
            (walk kernels fuel buffer bytes_read (offset + m.event_len)))
        (sym (append_assoc before (laid_out (fields m) info) (packed events rest)))
    ∙ ap (also (handle (kernels offset) m)) (
        walk-packed kernels fuel events (before ++ laid_out (fields m) info) rest bytes_read
          (offset + m.event_len) hs (omega (arith, f))
          (omega (
            arith,
            o,
            h.1,
            length-append before (laid_out (fields m) info),
            length-laid_out m info,
          ))
          (omega (arith, b)))

-- What one `read` gives: an error, or events that its buffer has room for.
abbrev pub IsBatch : Option (List Event) → Type 0
IsBatch none = Unit
IsBatch (some events) = All IsEvent events × (size events ≤ 4096)

abbrev pub given : Option (List Event) → Option (List ℕ)
given none = none
given (some events) = some (packed events [])

abbrev pub all_handled : (ℕ → ℕ → Kernel) → ℕ → List (Option (List Event)) → List Action
all_handled kernels round [] = []
all_handled kernels round (none ∷ reads) = all_handled kernels (round + 1) reads
all_handled kernels round (some events ∷ reads) =
    handled (kernels round) 0 events ++ all_handled kernels (round + 1) reads

-- An event takes at least 24 bytes.
length-events : (events : List Event) → All IsEvent events → 24 * length events ≤ size events
length-events [] h = omega arith
length-events ((m, info) ∷ events) (h, hs) = omega (arith, h.1, length-events events hs)

walk-batch :
    (kernels : ℕ → Kernel) (events : List Event) (buffer : List ℕ)
    → All IsEvent events
    → size events ≤ 4096
    → let bytes = packed events [] in
      walk kernels 171 (filled bytes buffer) (length bytes) 0 ≡ some (handled kernels 0 events)
walk-batch kernels events buffer h room =
    let stale : List ℕ = drop (length (packed events [])) buffer in
    ap (λ b. walk kernels 171 b (length (packed events [])) 0) (packed-append events [] stale)
    ∙ walk-packed kernels 171 events [] stale (length (packed events [])) 0 h
        (omega (arith, length-events events h)) refl (omega (arith, length-packed events [] h))

monitor-batches :
    (kernels : ℕ → ℕ → Kernel) (round : ℕ) (reads : List (Option (List Event))) (buffer : List ℕ)
    → All IsBatch reads
    → monitor kernels round 171 (map given reads) buffer ≡ some (all_handled kernels round reads)
unfolding monitor
monitor-batches kernels round [] buffer h = refl
monitor-batches kernels round (none ∷ reads) buffer (h, hs) =
    monitor-batches kernels (round + 1) reads buffer hs
monitor-batches kernels round (some events ∷ reads) buffer (h, hs) =
    ap
      (λ o. elim o as (λ x. Option (List Action)) [
        | none ↦ none
        | some actions ↦
            also actions
              (monitor kernels (round + 1) 171 (map given reads) (filled (packed events []) buffer))
      ])
      (walk-batch (kernels round) events buffer h.0 h.1)
    ∙ ap (also (handled (kernels round) 0 events))
        (monitor-batches kernels (round + 1) reads (filled (packed events []) buffer) hs)

-- Where fanotify starts, and each `read` gives an error or whole events in the kernel's layout that
-- fit the buffer of 4096 bytes, the monitor ends its loops, with 171 rounds for a buffer, and does
-- for each event in turn what it is to do: it answers each one that has a descriptor once, then
-- closes the descriptor and reports it, with the kernel's answers at the time
-- of that event. Neither bytes that an earlier `read` left behind nor the
-- records behind the metadata change that.
pub run_fanotify_monitor_lem :
    (kernels : ℕ → ℕ → Kernel) (reads : List (Option (List Event)))
    → All IsBatch reads
    → run_fanotify_monitor kernels true true 171 (map given reads)
      ≡ monitored (some (all_handled kernels 0 reads))
unfolding run_fanotify_monitor
run_fanotify_monitor_lem kernels reads h =
    ap monitored (monitor-batches kernels 0 reads (replicate 4096 0) h)
