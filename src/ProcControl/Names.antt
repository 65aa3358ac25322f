-- ===== src/ProcControl/Names.antt =====
-- proc-control-ebpf/src/main.rs and proc-control/src/main.rs: a name from a tracepoint to its line.
use rust_samples.Prelude.{
  ℕ, zero, suc, ◌≡◌, ◌≢◌, refl, ap, sym, ◌∙◌, List, [], ◌∷◌, ◌++◌, append_assoc, ◌/◌, ◌%◌, ◌^◌,
  ◌==◌, ==_iff, some, replicate, if_false, Bool-cases, inl, inr,
}
use rust_samples.ProcControl.{ProcessEvent, Kernel, TracePointContext, Events}
use rust_samples.ProcControl.Tracepoints.{init_event, read_user_str, trace}
use rust_samples.ProcControl.Lines.{
  trim_start_nul, trim_end_nul, trim_matches_nul, size_of_event, on_item, print_all,
}

trim_start_nul-zeros : (n : ℕ) → trim_start_nul (replicate n 0) ≡ []
trim_start_nul-zeros zero = refl
trim_start_nul-zeros (suc n) = trim_start_nul-zeros n

pub trim_matches_nul-zeros : (n : ℕ) → trim_matches_nul (replicate n 0) ≡ []
unfolding trim_matches_nul
trim_matches_nul-zeros n = ap trim_end_nul (trim_start_nul-zeros n)

-- The entry of a slot, before the name.
abbrev pub entry_of : Kernel → ℕ → ProcessEvent → ProcessEvent
entry_of kernel event_type slot = record slot {
  event_type = event_type;
  pid = kernel.pid_tgid / 2 ^ 32;
  tgid = kernel.pid_tgid % 2 ^ 32;
  comm = kernel.current_comm;
}

pub trace_opened :
    (event_type offset ptr : ℕ) (kernel : Kernel) (ctx : TracePointContext) (events : Events)
    (slot : ProcessEvent)
    → kernel.reserve ≡ some slot
    → ctx offset ≡ some ptr
    → ptr ≢ 0
    → trace event_type offset kernel ctx events
      ≡ events
        ++ record (entry_of kernel event_type slot) {
          filename = read_user_str (kernel.user_str ptr) slot.filename;
        }
          ∷ []
unfolding trace init_event
trace_opened event_type offset ptr kernel ctx events slot r c ne =
    rw (r, trace, init_event)
      (rw c (
        if_false (events ++ entry_of kernel event_type slot ∷ [])
          (events
            ++ record (entry_of kernel event_type slot) {
              filename = read_user_str (kernel.user_str ptr) slot.filename;
            }
              ∷ [])
          (elim (Bool-cases (ptr == 0)) [ inl z ↦ absurd (ne ((==_iff ptr 0).0 z)) | inr z ↦ z ])))

pub print_all-append :
    (lossy : List ℕ → List ℕ) (xs ys : Events)
    → print_all lossy (xs ++ ys) ≡ print_all lossy xs ++ print_all lossy ys
unfolding print_all
print_all-append lossy [] ys = refl
print_all-append lossy (x ∷ xs) ys =
    ap (λ l. on_item lossy size_of_event x ++ l) (print_all-append lossy xs ys)
    ∙ sym (append_assoc (on_item lossy size_of_event x) (print_all lossy xs) (print_all lossy ys))

-- A null pointer leaves the field as the slot had it.
pub trace_skipped :
    (event_type offset : ℕ) (kernel : Kernel) (ctx : TracePointContext) (events : Events)
    (slot : ProcessEvent)
    → kernel.reserve ≡ some slot
    → ctx offset ≡ some 0
    → trace event_type offset kernel ctx events ≡ events ++ entry_of kernel event_type slot ∷ []
unfolding trace init_event
trace_skipped event_type offset kernel ctx events slot r c = rw (r, trace, init_event) (rw c refl)
