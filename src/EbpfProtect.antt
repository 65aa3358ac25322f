-- ===== src/EbpfProtect.antt =====
-- ebpf_protect/src/main.rs: the service that unloads eBPF programs which no whitelist names. The
-- kernel's programs, its objects and the whitelist map are a parameter.
pub mod Pins
pub mod Enforce
pub mod Daemon
mod Tests
use rust_samples.Prelude.{
  ℕ, zero, suc, ◌+◌, ◌-◌, ◌≤◌, ◌<◌, ◌^◌, ◌≡◌, List, [], ◌∷◌, ◌++◌, Option, none, some, Bool, true,
  false, not, take, length, replicate, list_eq, ◌==◌, if◌then◌else◌, and_then,
}
use rust_samples.Prelude.Text.{codes}

-- `WHITELIST_MAP_PIN_PATH` and `BPF_OBJ_NAME_LEN`.
abbrev pub whitelist_map_pin_path : List ℕ
whitelist_map_pin_path = codes "/sys/fs/bpf/fw_whitelist_map"

abbrev pub bpf_obj_name_len : ℕ
bpf_obj_name_len = 16

pub record WhitelistKey : Type 0 where
  pub prog_type : ℕ
  pub name : List ℕ

-- The part of `bpf_prog_info` that is used: the name up to its first zero, and the type.
pub record ProgInfo : Type 0 where
  pub name : List ℕ
  pub prog_type : ℕ

-- An entry below /sys/fs/bpf: what the walk finds, whether its path has a zero byte, whether the
-- object opens, the id of its info, and whether it can be removed.
pub record Pin : Type 0 where
  pub path : List ℕ
  pub is_file : Bool
  pub has_nul : Bool
  pub opens : Bool
  pub info_id : Option ℕ
  pub removable : Bool

-- The calls of libbpf. The ids of programs are numbers of 32 bits, and the next one is larger.
pub record Kernel : Type 0 where
  pub next_id : ℕ → Option ℕ
  pub opens_by_id : ℕ → Bool
  pub info_by_id : ℕ → Option ProgInfo
  pub whitelisted : WhitelistKey → Bool
  pub next-above : (id j : ℕ) → next_id id ≡ some j → (id < j) × (j < 2 ^ 32)

-- The messages to syslog.
pub data Message : Type 0 where
  unauthorized : ℕ → List ℕ → ℕ → Message
  pin_removed pin_failed : List ℕ → Message
  purged : ℕ → Message

pub record Service : Type 0 where
  pub pins : List Pin
  pub open_fds : ℕ
  pub syslog : List Message

abbrev pub open_fd : Service → Service
open_fd s = record s { open_fds = s.open_fds + 1 }

abbrev pub close_fd : Service → Service
close_fd s = record s { open_fds = s.open_fds - 1 }

abbrev pub report : Message → Service → Service
report message s = record s { syslog = s.syslog ++ message ∷ [] }

-- `fs::remove_file`.
abbrev pub without : List ℕ → List Pin → List Pin
without path [] = []
without path (pin ∷ pins) =
    if list_eq pin.path path then without path pins else pin ∷ without path pins

-- The pin that a path names.
abbrev pub pin_at : List ℕ → List Pin → Option Pin
pin_at path [] = none
pin_at path (pin ∷ pins) = if list_eq pin.path path then some pin else pin_at path pins

-- What the kernel answers to the creation of the whitelist map, an id if it makes one, and to the
-- pinning of it.
pub record MapCalls : Type 0 where
  pub created : Option ℕ
  pub pins : Bool

abbrev pub whitelist_pin : ℕ → Pin
whitelist_pin id = record {
  path = whitelist_map_pin_path;
  is_file = true;
  has_nul = false;
  opens = true;
  info_id = some id;
  removable = true;
}

-- The second half of `setup_whitelist_map`. A panic is `none`.
unfoldable pub create_whitelist_map : MapCalls → Service → Option Service
create_whitelist_map calls s = elim calls.created [
  | none ↦ none
  | some id ↦
      if calls.pins
      then some (open_fd (record s { pins = s.pins ++ whitelist_pin id ∷ [] }))
      else none
]

unfoldable pub setup_whitelist_map : MapCalls → Service → Option Service
unfolding create_whitelist_map
setup_whitelist_map calls s = elim (pin_at whitelist_map_pin_path s.pins) [
  | none ↦ create_whitelist_map calls s
  | some pin ↦ if pin.opens then some (open_fd s) else create_whitelist_map calls s
]

-- What is done with an opened object.
unfoldable pub handle_object : ℕ → Pin → Service → Service
handle_object prog_id pin s = elim pin.info_id [
  | none ↦ s
  | some id ↦
      if id == prog_id
      then (if pin.removable
          then report (pin_removed pin.path) (record s { pins = without pin.path s.pins })
          else report (pin_failed pin.path) s)
      else s
]

unfoldable pub visit_pin : ℕ → Pin → Service → Service
unfolding handle_object
visit_pin prog_id pin s =
    if not pin.is_file
    then s
    else if list_eq pin.path whitelist_map_pin_path
    then s
    else if pin.has_nul
    then s
    else if not pin.opens
    then s
    else close_fd (handle_object prog_id pin (open_fd s))

-- The walk over the entries.
unfoldable pub visit_pins : ℕ → List Pin → Service → Service
unfolding visit_pin
visit_pins prog_id [] s = s
visit_pins prog_id (pin ∷ entries) s = visit_pins prog_id entries (visit_pin prog_id pin s)

unfoldable pub remove_bpf_pins_by_id : ℕ → Service → Service
unfolding visit_pins
remove_bpf_pins_by_id prog_id s = visit_pins prog_id s.pins s

unfoldable pub whitelist_key : List ℕ → ℕ → WhitelistKey
whitelist_key name prog_type = record {
  prog_type = prog_type;
  name =
      take (bpf_obj_name_len - 1) name
      ++ replicate (bpf_obj_name_len - length (take (bpf_obj_name_len - 1) name)) 0;
}

unfoldable pub is_prog_allowed : Kernel → List ℕ → ℕ → Bool
unfolding whitelist_key
is_prog_allowed kernel name prog_type = kernel.whitelisted (whitelist_key name prog_type)

-- `bpf_prog_detach` has no effect on what is modelled.
unfoldable pub force_unload_bpf_program : ℕ → Service → Service
unfolding remove_bpf_pins_by_id
force_unload_bpf_program id s = close_fd (remove_bpf_pins_by_id id s)

-- One program with its info.
unfoldable pub enforce : Kernel → ℕ → ProgInfo → Service → Service
unfolding is_prog_allowed force_unload_bpf_program
enforce kernel id info s =
    if is_prog_allowed kernel info.name info.prog_type
    then close_fd s
    else report (purged id)
        (force_unload_bpf_program id (report (unauthorized id info.name info.prog_type) s))

unfoldable pub check_program : Kernel → ℕ → Service → Service
unfolding enforce
check_program kernel id s =
    if not (kernel.opens_by_id id) then s else (elim (kernel.info_by_id id) [
      | none ↦ close_fd (open_fd s)
      | some info ↦ enforce kernel id info (open_fd s)
    ])

-- The loop over the ids, on fuel.
unfoldable pub check_and_enforce : Kernel → ℕ → ℕ → Service → Option Service
unfolding check_program
check_and_enforce kernel zero id s = none
check_and_enforce kernel (suc fuel) id s = elim (kernel.next_id id) [
  | none ↦ some s
  | some next_id ↦ check_and_enforce kernel fuel next_id (check_program kernel next_id s)
]

-- The loop of `main` as often as there are kernels, one for the time of each scan.
unfoldable pub scans : List Kernel → Service → Option Service
unfolding check_and_enforce
scans [] s = some s
scans (kernel ∷ kernels) s =
    and_then (check_and_enforce kernel (2 ^ 32) 0 s) (λ s'. scans kernels s')

unfoldable pub main : MapCalls → List Kernel → Service → Option Service
unfolding setup_whitelist_map scans
main calls kernels s = and_then (setup_whitelist_map calls s) (λ s'. scans kernels s')
