-- ===== src/ProcControl/Offsets.antt =====
-- proc-control-ebpf/src/main.rs and proc-control/src/main.rs under the kernel's layout of the
-- tracepoints: from a call of the system to its line.
use rust_samples.Prelude.{
  ℕ, ◌<◌, ◌≡◌, ◌≢◌, ap, sym, ◌∙◌, ◌⊎◌, true, false, inl, inr, List, [], ◌∷◌, ◌++◌, none, some,
  append-nil, ◌/◌, ◌^◌, ◌==◌, ==_iff, length, replicate, if◌then◌else◌, if_true, if_false,
  Bool-cases,
}
use rust_samples.ProcControl.{
  event_exec, event_open, event_memfd, ProcessEvent, Kernel, TracePointContext, Events,
}
use rust_samples.ProcControl.Tracepoints.{
  read_user_str, trace, sys_enter_execve, sys_enter_openat, sys_enter_memfd_create,
}
use rust_samples.ProcControl.Lines.{
  Line, trim_matches_nul, line, on_item, print_all, launched, opened, creates_ram_file,
}
use rust_samples.ProcControl.Names.{
  trim_matches_nul-zeros, entry_of, trace_opened, trace_skipped, print_all-append,
}

-- The kernel's layout of the tracepoints of system calls: the number of the call stands at 8, its
-- first argument at 16 and its second at 24.
pub record IsSyscall (ctx : TracePointContext) (number first second : ℕ) : Type 0 where
  pub number_there : ctx 8 ≡ some number
  pub first_there : ctx 16 ≡ some first
  pub second_there : ctx 24 ≡ some second
  pub positive : number ≢ 0
  pub small : number < 65536

-- The line of an event of each type.
abbrev pub line_of : ℕ → ℕ → List ℕ → List ℕ → List Line
line_of event_type pid comm filename =
    if event_type == event_exec
    then launched pid comm filename ∷ []
    else if event_type == event_open
    then opened pid comm filename ∷ []
    else if event_type == event_memfd
    then creates_ram_file pid comm filename ∷ []
    else []

module _ (lossy : List ℕ → List ℕ) (zeros : (n : ℕ) → lossy (replicate n 0) ≡ replicate n 0)
    (kernel : Kernel) (events : Events) (slot : ProcessEvent)
    (reserved : kernel.reserve ≡ some slot) where
  abbrev printed : ℕ → List ℕ → List Line
  printed event_type filename =
      print_all lossy events
      ++ line_of event_type (kernel.pid_tgid / 2 ^ 32)
          (trim_matches_nul (lossy kernel.current_comm)) filename

  one_more :
      (event : ProcessEvent)
      → print_all lossy (events ++ event ∷ []) ≡ print_all lossy events ++ line lossy event
  unfolding print_all on_item
  one_more event =
      print_all-append lossy events (event ∷ [])
      ∙ ap (λ l. print_all lossy events ++ l) (append-nil (line lossy event))

  -- The address that is read is not one of the process.
  printed_empty :
      (event_type offset ptr : ℕ) (ctx : TracePointContext)
      → ctx offset ≡ some ptr
      → ptr ≢ 0
      → kernel.user_str ptr ≡ none
      → print_all lossy (trace event_type offset kernel ctx events) ≡ printed event_type []
  unfolding line
  printed_empty event_type offset ptr ctx there ne unreadable =
      let entry : ProcessEvent = entry_of kernel event_type slot in
      ap (print_all lossy)
        (trace_opened event_type offset ptr kernel ctx events slot reserved there ne)
      ∙ one_more (record entry { filename = read_user_str (kernel.user_str ptr) slot.filename })
      ∙ ap (λ o. printed event_type (trim_matches_nul (lossy (read_user_str o slot.filename))))
          unreadable
      ∙ ap (printed event_type) (
          ap trim_matches_nul (zeros (length slot.filename))
          ∙ trim_matches_nul-zeros (length slot.filename))

  -- A null pointer is read.
  printed_stale :
      (event_type offset : ℕ) (ctx : TracePointContext)
      → ctx offset ≡ some 0
      → print_all lossy (trace event_type offset kernel ctx events)
        ≡ printed event_type (trim_matches_nul (lossy slot.filename))
  unfolding line
  printed_stale event_type offset ctx there =
      ap (print_all lossy) (trace_skipped event_type offset kernel ctx events slot reserved there)
      ∙ one_more (entry_of kernel event_type slot)

  printed_dir :
      (offset first : ℕ) (ctx : TracePointContext)
      → ctx offset ≡ some first
      → kernel.user_str first ≡ none
      → print_all lossy (trace event_open offset kernel ctx events)
        ≡ printed event_open (if first == 0 then trim_matches_nul (lossy slot.filename) else [])
  printed_dir offset first ctx there unreadable = elim (Bool-cases (first == 0)) [
    | inl z ↦
        printed_stale event_open offset ctx (there ∙ ap some ((==_iff first 0).0 z))
        ∙ ap (printed event_open) (sym (if_true (trim_matches_nul (lossy slot.filename)) [] z))
    | inr z ↦
        printed_empty event_open offset first ctx there (λ e. differ z ((==_iff first 0).1 e))
          unreadable
        ∙ ap (printed event_open) (sym (if_false (trim_matches_nul (lossy slot.filename)) [] z))
  ]
    where
      differ : first == 0 ≡ false → first == 0 ≡ true → ⊥
      differ a b = cc

-- With the kernel's layout of the tracepoints, a slot in the ring buffer, and a process that has
-- nothing to read below the address 65536, the name that a call passes is never read, whatever
-- stands at the addresses among its arguments. For `execve` and `memfd_create` the program takes
-- the number of the call for the address, and the service prints one line with the kind of the
-- call, the process, its trimmed command and an empty name. For `openat` it takes the directory,
-- which is a descriptor or another number that is no readable address: the name is empty too, but
-- for the descriptor 0, where it is what the slot held before. The conversion from UTF-8 is taken
-- to leave NULs as they are.
pub names_never_read :
    (lossy : List ℕ → List ℕ) (kernel : Kernel) (events : Events) (slot : ProcessEvent)
    (exec_ctx open_ctx memfd_ctx : TracePointContext)
    (exec_number path argv open_number dir file memfd_number name flags : ℕ)
    → ((n : ℕ) → lossy (replicate n 0) ≡ replicate n 0)
    → kernel.reserve ≡ some slot
    → ((ptr : ℕ) → ptr < 65536 → kernel.user_str ptr ≡ none)
    → IsSyscall exec_ctx exec_number path argv
    → IsSyscall open_ctx open_number dir file
    → IsSyscall memfd_ctx memfd_number name flags
    → (dir < 65536) ⊎ (kernel.user_str dir ≡ none)
    → let pid = kernel.pid_tgid / 2 ^ 32 in
      let comm = trim_matches_nul (lossy kernel.current_comm) in
      let before = print_all lossy events in
      (print_all lossy (sys_enter_execve kernel exec_ctx events)
        ≡ before ++ launched pid comm [] ∷ [])
      × (print_all lossy (sys_enter_openat kernel open_ctx events)
          ≡ before
            ++ opened pid comm (if dir == 0 then trim_matches_nul (lossy slot.filename) else [])
              ∷ [])
      × (print_all lossy (sys_enter_memfd_create kernel memfd_ctx events)
          ≡ before ++ creates_ram_file pid comm [] ∷ [])
unfolding sys_enter_execve sys_enter_openat sys_enter_memfd_create
names_never_read lossy kernel events slot exec_ctx open_ctx memfd_ctx exec_number path argv
      open_number dir file memfd_number name flags zeros reserved low exec open_ memfd dir_low =
    (
      printed_empty lossy zeros kernel events slot reserved event_exec 8 exec_number exec_ctx
          exec.number_there exec.positive (low exec_number exec.small),
      printed_dir lossy zeros kernel events slot reserved 16 dir open_ctx open_.first_there
          (elim dir_low [ inl small ↦ low dir small | inr unreadable ↦ unreadable ]),
      printed_empty lossy zeros kernel events slot reserved event_memfd 8 memfd_number memfd_ctx
          memfd.number_there memfd.positive (low memfd_number memfd.small),
    )
