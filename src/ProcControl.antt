-- ===== src/ProcControl.antt =====
-- proc-control-common/src/lib.rs, proc-control-ebpf/src/main.rs and proc-control/src/main.rs of
-- proc-control: the events, the three tracepoints and the lines of the service. The kernel's
-- helpers, the ring buffer and `from_utf8_lossy` are parameters.
pub mod Tracepoints
pub mod Lines
pub mod Names
pub mod Offsets
mod Tests
use rust_samples.Prelude.{ℕ, List, Option}

abbrev pub event_exec : ℕ
event_exec = 1

abbrev pub event_open : ℕ
event_open = 2

abbrev pub event_memfd : ℕ
event_memfd = 3

pub record ProcessEvent : Type 0 where
  pub pid : ℕ
  pub tgid : ℕ
  pub event_type : ℕ
  pub comm : List ℕ
  pub filename : List ℕ

-- The helpers at one call: the 64 bits of `bpf_get_current_pid_tgid`, the 16 bytes of
-- `bpf_get_current_comm`, the text at an address of the process, if it can be read, and the slot
-- that `reserve` finds, with the bytes that an earlier event left in it.
pub record Kernel : Type 0 where
  pub pid_tgid : ℕ
  pub current_comm : List ℕ
  pub user_str : ℕ → Option (List ℕ)
  pub reserve : Option ProcessEvent

-- `TracePointContext::read_at` for eight bytes.
abbrev pub TracePointContext : Type 0
TracePointContext = ℕ → Option ℕ

abbrev pub Events : Type 0
Events = List ProcessEvent
