-- ===== src/ProcControl/Tests.antt =====
-- The theorem on the process events at concrete calls.
use rust_samples.Prelude.{
  ℕ, ◌<◌, ◌≡◌, ◌≢◌, refl, inl, ◌*◌, ◌+◌, ◌^◌, arith, [], ◌∷◌, ◌++◌, none, some, replicate, ◌==◌,
  if◌then◌else◌,
}
use rust_samples.Prelude.Text.{codes}
use rust_samples.ProcControl.{ProcessEvent, Kernel, TracePointContext}
use rust_samples.ProcControl.Tracepoints.{
  sys_enter_execve, sys_enter_openat, sys_enter_memfd_create,
}
use rust_samples.ProcControl.Lines.{launched, opened, creates_ram_file, trim_matches_nul, print_all}
use rust_samples.ProcControl.Offsets.{IsSyscall, names_never_read}

-- A slot in which an earlier event left a longer name.
abbrev used_slot : ProcessEvent
used_slot = record {
  pid = 0;
  tgid = 0;
  event_type = 0;
  comm = replicate 16 0;
  filename = codes "/bin/very_long" ++ replicate 50 0;
}

abbrev kernel : Kernel
kernel = record {
  pid_tgid = 42 * 2 ^ 32 + 43;
  current_comm = codes "sh" ++ replicate 14 0;
  user_str = λ ptr. if ptr == 70000 then some (codes "/bin/ls") else none;
  reserve = some used_slot;
}

-- The kernel's layout of a call: its number and two arguments.
abbrev laid_out : ℕ → ℕ → ℕ → TracePointContext
laid_out number first second offset =
    if offset == 8
    then some number
    else if offset == 16
    then some first
    else if offset == 24
    then some second
    else none

laid_out-IsSyscall :
    (number first second : ℕ)
    → number ≢ 0
    → number < 65536
    → IsSyscall (laid_out number first second) number first second
laid_out-IsSyscall number first second positive small = record {
  number_there = refl;
  first_there = refl;
  second_there = refl;
  positive = positive;
  small = small;
}

low_unreadable : (ptr : ℕ) → ptr < 65536 → kernel.user_str ptr ≡ none
low_unreadable ptr h = ground arith

-- The name stands at 70000 and can be read, but it is not; a file that is opened with the
-- descriptor 0 is reported under an earlier name.
names_never_read_example :
    (print_all (λ text. text) (sys_enter_execve kernel (laid_out 59 70000 80000) [])
      ≡ launched 42 (codes "sh") [] ∷ [])
    × (print_all (λ text. text) (sys_enter_openat kernel (laid_out 257 0 70000) [])
        ≡ opened 42 (codes "sh") (codes "/bin/very_long") ∷ [])
    × (print_all (λ text. text) (sys_enter_memfd_create kernel (laid_out 319 70000 0) [])
        ≡ creates_ram_file 42 (codes "sh") [] ∷ [])
unfolding print_all trim_matches_nul
names_never_read_example =
    names_never_read (λ text. text) kernel [] used_slot (laid_out 59 70000 80000)
      (laid_out 257 0 70000) (laid_out 319 70000 0) 59 70000 80000 257 0 70000 319 70000 0
      (λ n. refl) refl low_unreadable
      (laid_out-IsSyscall 59 70000 80000 (omega arith) (omega arith))
      (laid_out-IsSyscall 257 0 70000 (omega arith) (omega arith))
      (laid_out-IsSyscall 319 70000 0 (omega arith) (omega arith)) (inl (omega arith))
