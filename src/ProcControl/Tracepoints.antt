-- ===== src/ProcControl/Tracepoints.antt =====
-- proc-control-ebpf/src/main.rs: `init_event` and the three tracepoints.
use rust_samples.Prelude.{
  ℕ, ◌+◌, ◌/◌, ◌%◌, ◌^◌, List, [], ◌∷◌, ◌++◌, Option, none, some, length, take, drop, replicate,
  ltb, ◌==◌, if◌then◌else◌, unwrap_or,
}
use rust_samples.ProcControl.{
  event_exec, event_open, event_memfd, ProcessEvent, Kernel, TracePointContext, Events,
}

unfoldable pub init_event : Kernel → ℕ → Option ProcessEvent
init_event kernel event_type = elim kernel.reserve [
  | none ↦ none
  | some slot ↦ some (record slot {
    event_type = event_type;
    pid = kernel.pid_tgid / 2 ^ 32;
    tgid = kernel.pid_tgid % 2 ^ 32;
    comm = kernel.current_comm;
  })
]

-- `bpf_probe_read_user_str` into a field: a text and its NUL, cut to the field, over what stood
-- there; when it cannot read, the kernel fills the field with zeros.
abbrev pub read_user_str : Option (List ℕ) → List ℕ → List ℕ
read_user_str none dest = replicate (length dest) 0
read_user_str (some text) dest =
    if ltb (length text) (length dest)
    then text ++ 0 ∷ drop (length text + 1) dest
    else take 63 text ++ 0 ∷ []

-- The part that the tracepoints share, for the offset of the name.
unfoldable pub trace : ℕ → ℕ → Kernel → TracePointContext → Events → Events
unfolding init_event
trace event_type offset kernel ctx events = elim (init_event kernel event_type) [
  | none ↦ events
  | some entry ↦
      let filename_ptr = unwrap_or (ctx offset) 0 in
      if filename_ptr == 0
      then events ++ entry ∷ []
      else events
        ++ record entry { filename = read_user_str (kernel.user_str filename_ptr) entry.filename }
          ∷ []
]

unfoldable pub sys_enter_execve : Kernel → TracePointContext → Events → Events
unfolding trace
sys_enter_execve kernel ctx events = trace event_exec 8 kernel ctx events

unfoldable pub sys_enter_openat : Kernel → TracePointContext → Events → Events
unfolding trace
sys_enter_openat kernel ctx events = trace event_open 16 kernel ctx events

unfoldable pub sys_enter_memfd_create : Kernel → TracePointContext → Events → Events
unfolding trace
sys_enter_memfd_create kernel ctx events = trace event_memfd 8 kernel ctx events
