-- ===== src/ProcControl/Lines.antt =====
-- proc-control/src/main.rs: the loop that prints the events.
use rust_samples.Prelude.{ℕ, List, [], ◌∷◌, ◌++◌, ◌&&◌, leb, ◌==◌, if◌then◌else◌}
use rust_samples.Prelude.Text.{is_empty}
use rust_samples.ProcControl.{event_exec, event_open, event_memfd, ProcessEvent, Events}

-- The printed lines, by their format.
pub data Line : Type 0 where
  launched : (pid : ℕ) → (comm filename : List ℕ) → Line
  opened : (pid : ℕ) → (comm filename : List ℕ) → Line
  creates_ram_file : (pid : ℕ) → (comm filename : List ℕ) → Line

abbrev pub trim_start_nul : List ℕ → List ℕ
trim_start_nul [] = []
trim_start_nul (b ∷ text) = if b == 0 then trim_start_nul text else b ∷ text

abbrev pub trim_end_nul : List ℕ → List ℕ
trim_end_nul [] = []
trim_end_nul (b ∷ text) =
    let rest = trim_end_nul text in if is_empty rest && b == 0 then [] else b ∷ rest

-- `trim_matches('\0')`
unfoldable pub trim_matches_nul : List ℕ → List ℕ
trim_matches_nul text = trim_end_nul (trim_start_nul text)

abbrev pub size_of_event : ℕ
size_of_event = 92

module _ (from_utf8_lossy : List ℕ → List ℕ) where
  unfoldable pub line : ProcessEvent → List Line
  unfolding trim_matches_nul
  line event =
      let comm = trim_matches_nul (from_utf8_lossy event.comm) in
      let filename = trim_matches_nul (from_utf8_lossy event.filename) in
      if event.event_type == event_exec
      then launched event.pid comm filename ∷ []
      else if event.event_type == event_open
      then opened event.pid comm filename ∷ []
      else if event.event_type == event_memfd
      then creates_ram_file event.pid comm filename ∷ []
      else []

  -- An item of the ring buffer with its length.
  unfoldable pub on_item : ℕ → ProcessEvent → List Line
  unfolding line
  on_item len event = if leb size_of_event len then line event else []

  unfoldable pub print_all : Events → List Line
  unfolding on_item
  print_all [] = []
  print_all (event ∷ events) = on_item size_of_event event ++ print_all events
