-- ===== src/DlpHooks.antt =====
-- dlp/dlp_fanotify_hooks/src/main.rs: the walk over the events of fanotify and the decision on a
-- file. The kernel's calls and `matches_pattern` of the configuration, which the repository does
-- not have, are parameters. A machine is little-endian; an `i32` is its 32 bits.
pub mod Utf8
pub mod Layout
pub mod Answers
pub mod Decisions
mod Tests
use rust_samples.Prelude.{
  ℕ, zero, suc, ◌+◌, ◌*◌, ◌^◌, List, [], ◌∷◌, ◌++◌, Option, none, some, Bool, true, false, length,
  take, drop, replicate, leb, ltb, ◌==◌, if◌then◌else◌, unwrap_or,
}
use rust_samples.Prelude.Text.{codes}
use rust_samples.DlpHooks.Utf8.{from_utf8}

pub record FanotifyEventMetadata : Type 0 where
  pub event_len : ℕ
  pub vers : ℕ
  pub reserved : ℕ
  pub metadata_len : ℕ
  pub mask : ℕ
  pub fd : ℕ
  pub pid : ℕ

abbrev pub size_of_metadata : ℕ
size_of_metadata = 24

pub record FanotifyResponse : Type 0 where
  pub fd : ℕ
  pub response : ℕ

abbrev pub fan_allow : ℕ
fan_allow = 1

abbrev pub fan_deny : ℕ
fan_deny = 2

-- At the time of an event: `pread(fd, buf, len, 0)`, where `none` is an error; `read_link` on a descriptor; and the
-- configuration.
pub record Kernel : Type 0 where
  pub pread : ℕ → ℕ → Option (List ℕ)
  pub read_link : ℕ → Option (List ℕ)
  pub matches_pattern : List ℕ → Bool

-- What the monitor does: a response to the kernel, a `close`, and a `FileAccess` to the channel.
pub data Action : Type 0 where
  respond : FanotifyResponse → Action
  close : ℕ → Action
  file_access : (pid : ℕ) → (path : List ℕ) → (fd : ℕ) → Action

-- A number from its bytes in memory.
abbrev pub from_le : List ℕ → ℕ
from_le [] = 0
from_le (b ∷ bs) = b + 256 * from_le bs

abbrev pub field : ℕ → ℕ → List ℕ → ℕ
field at width memory = from_le (take width (drop at memory))

-- The cast of the pointer.
unfoldable pub metadata_at : List ℕ → FanotifyEventMetadata
metadata_at memory = record {
  event_len = field 0 4 memory;
  vers = field 4 1 memory;
  reserved = field 5 1 memory;
  metadata_len = field 6 2 memory;
  mask = field 8 8 memory;
  fd = field 16 4 memory;
  pid = field 20 4 memory;
}

abbrev pub is_negative : ℕ → Bool
is_negative i32 = leb (2 ^ 31) i32

unfoldable pub get_path_from_fd : Kernel → ℕ → Option (List ℕ)
get_path_from_fd kernel fd = kernel.read_link fd

abbrev pub decide : Kernel → List ℕ → ℕ
decide kernel [] = fan_allow
decide kernel (b ∷ bytes) =
    if from_utf8 (b ∷ bytes)
    then (if kernel.matches_pattern (b ∷ bytes) then fan_deny else fan_allow)
    else fan_allow

unfoldable pub evaluate_file_safety : Kernel → ℕ → ℕ
evaluate_file_safety kernel fd = elim (kernel.pread fd 1024) [
  | none ↦ fan_allow
  | some bytes ↦ decide kernel bytes
]

unfoldable pub handle : Kernel → FanotifyEventMetadata → List Action
unfolding evaluate_file_safety get_path_from_fd
handle kernel metadata =
    if is_negative metadata.fd
    then []
    else respond (record { fd = metadata.fd; response = evaluate_file_safety kernel metadata.fd })
      ∷ close metadata.fd
      ∷ file_access metadata.pid (unwrap_or (get_path_from_fd kernel metadata.fd) (codes "Unknown"))
          metadata.fd
      ∷ []

abbrev pub also : List Action → Option (List Action) → Option (List Action)
also actions none = none
also actions (some more) = some (actions ++ more)

-- The inner loop, on fuel: `none` is a loop that goes on. A descriptor is closed after its event and
-- its number used again, so each event has the kernel's answers at its own time, which its offset
-- tells.
unfoldable pub walk : (ℕ → Kernel) → ℕ → List ℕ → ℕ → ℕ → Option (List Action)
unfolding metadata_at handle
walk kernels zero buffer bytes_read offset = none
walk kernels (suc fuel) buffer bytes_read offset =
    let metadata = metadata_at (drop offset buffer) in
    let rest = walk kernels fuel buffer bytes_read (offset + metadata.event_len) in
    if leb (offset + size_of_metadata) bytes_read
    then also (handle (kernels offset) metadata) rest
    else some []

-- `read` overwrites the front of the buffer; `none` is an error, and as no bytes it is skipped. The rounds of the outer
-- loop are counted.
abbrev pub filled : List ℕ → List ℕ → List ℕ
filled bytes buffer = bytes ++ drop (length bytes) buffer

unfoldable pub monitor :
    (ℕ → ℕ → Kernel) → ℕ → ℕ → List (Option (List ℕ)) → List ℕ → Option (List Action)
unfolding walk
monitor kernels round fuel [] buffer = some []
monitor kernels round fuel (none ∷ reads) buffer = monitor kernels (round + 1) fuel reads buffer
monitor kernels round fuel (some bytes ∷ reads) buffer =
    elim (walk (kernels round) fuel (filled bytes buffer) (length bytes) 0) [
      | none ↦ none
      | some actions ↦ also actions (monitor kernels (round + 1) fuel reads (filled bytes buffer))
    ]

pub data Monitored : Type 0 where
  not_initialized : Monitored
  not_marked : Monitored
  monitored : Option (List Action) → Monitored

-- With the kernel at each round and offset, the answers of `fanotify_init` and `fanotify_mark`, and what each `read` gives.
unfoldable pub run_fanotify_monitor :
    (ℕ → ℕ → Kernel) → Bool → Bool → ℕ → List (Option (List ℕ)) → Monitored
unfolding monitor
run_fanotify_monitor kernels false marked fuel reads = not_initialized
run_fanotify_monitor kernels true false fuel reads = not_marked
run_fanotify_monitor kernels true true fuel reads =
    monitored (monitor kernels 0 fuel reads (replicate 4096 0))
